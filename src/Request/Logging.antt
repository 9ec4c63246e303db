-- ===== src/Request/Logging.antt =====
-- req.c, log_request: what is left after it, and what the log's file names tell.
use blahgd.Prelude.{
  zero, suc, ℕ, ◌+◌, ◌≡◌, refl, sym, ap, ◌∙◌, arith, Bool, Bool-cases, inl, inr, false≢true, true,
  false, ◌&&◌, List, [], ◌∷◌, ◌++◌, Option, none, some, if◌then◌else◌, total, map, Bytes, String,
  append_assoc, append-nil, length,
}
use blahgd.Request.Log.{
  Leaf, Field, sub, Logged, State, file_name, sections, first_fields, leaf_refs, inner_lists,
  inner_refs, add_sections, pack_and_write, packed, log_request,
}

-- Whether the next `n` allocations succeed.
abbrev pub succeed : ℕ → List Bool → Bool
succeed zero m = true
succeed (suc n) [] = true
succeed (suc n) (b ∷ m) = b && succeed n m

abbrev as_sub : String × List (String × Leaf) → Field
as_sub (name, l) = sub name l

-- The entry for a request.
abbrev pub whole : Logged → List Field
whole req = first_fields req ++ map as_sub (sections req)

-- What is held besides a reference to the entry.
record Holds (n r : ℕ) (entry : List Field) (st : State) : Type 0 where
  lists : st.nvls ≡ n + 1 + total inner_lists entry
  refs : st.refs ≡ r + total inner_refs entry

total-snoc : (f : Field → ℕ) (l : List Field) (x : Field) → total f (l ++ x ∷ []) ≡ total f l + f x
total-snoc f [] x = omega arith
total-snoc f (y ∷ l) x = omega (arith, total-snoc f l x)

-- An end of add_sections from `st`.
record Added (l : List (String × List (String × Leaf))) (entry : List Field) (st : State) (n r : ℕ)
    (o : Bool × (List Field × State)) : Type 0 where
  held : Holds n r o.1.0 o.1.1
  buffers : o.1.1.buffers ≡ st.buffers
  file : o.1.1.file ≡ st.file
  ok : o.0 ≡ succeed (length l) st.memory
  entries : o.0 ≡ true → o.1.0 ≡ entry ++ map as_sub l

succeed-nil : (n : ℕ) → succeed n [] ≡ true
succeed-nil zero = refl
succeed-nil (suc n) = refl

abbrev next : ℕ → List Bool → State → State
next k m st = record st { memory = m; nvls = st.nvls + 1; refs = st.refs + k }

-- An end after one section more.
later :
    (name : String) (fields : List (String × Leaf)) (l : List (String × List (String × Leaf)))
    (entry : List Field) (st : State) (m : List Bool) (n r : ℕ) (o : Bool × (List Field × State))
    → succeed (length l) m ≡ succeed (suc (length l)) st.memory
    → Added l (entry ++ sub name fields ∷ []) (next (total leaf_refs fields) m st) n r o
    → Added ((name, fields) ∷ l) entry st n r o
later name fields l entry st m n r o e a = record {
  held = a.held;
  buffers = a.buffers;
  file = a.file;
  ok = a.ok ∙ e;
  entries = λ k. a.entries k ∙ append_assoc entry (sub name fields ∷ []) (map as_sub l);
}

next-Holds :
    (name : String) (fields : List (String × Leaf)) (entry : List Field) (st : State)
    (m : List Bool) (n r : ℕ)
    → Holds n r entry st
    → Holds n r (entry ++ sub name fields ∷ []) (next (total leaf_refs fields) m st)
next-Holds name fields entry st m n r h = record {
  lists = omega (arith, h.lists, total-snoc inner_lists entry (sub name fields));
  refs = omega (arith, h.refs, total-snoc inner_refs entry (sub name fields));
}

add-Added :
    (l : List (String × List (String × Leaf))) (m : List Bool) (entry : List Field) (st : State)
    (n r : ℕ)
    → Holds n r entry st
    → Added l entry (record st { memory = m }) n r (add_sections l entry (record st { memory = m }))
unfolding add_sections
add-Added [] m entry st n r h = record {
  held = record { lists = h.lists; refs = h.refs };
  buffers = refl;
  file = refl;
  ok = refl;
  entries = λ e. sym (append-nil entry);
}
add-Added ((name, fields) ∷ l) [] entry st n r h =
    later name fields l entry (record st { memory = [] }) [] n r _ (succeed-nil (length l))
      (add-Added l [] (entry ++ sub name fields ∷ []) (next (total leaf_refs fields) [] st) n r
        (next-Holds name fields entry st [] n r h))
add-Added ((name, fields) ∷ l) (true ∷ m) entry st n r h =
    later name fields l entry (record st { memory = true ∷ m }) m n r _ refl
      (add-Added l m (entry ++ sub name fields ∷ []) (next (total leaf_refs fields) m st) n r
        (next-Holds name fields entry st m n r h))
add-Added ((name, fields) ∷ l) (false ∷ m) entry st n r h = record {
  held = record { lists = h.lists; refs = h.refs };
  buffers = refl;
  file = refl;
  ok = refl;
  entries = λ e. absurd (false≢true e);
}

module _ (nvl_pack : List Field → Option Bytes) (write_file : Bytes → Bytes → Bool) where
  -- The log's file where the entry can be built and packed.
  abbrev pub filed : Bytes → Option Bytes → Option (Bytes × Bytes) → Option (Bytes × Bytes)
  filed fname none old = old
  filed fname (some buf) old = if write_file fname buf then some (fname, buf) else old

  abbrev pub file_of : Logged → State → Option (Bytes × Bytes)
  file_of req st =
      if succeed 6 st.memory
      then filed (file_name req.data_dir req.now req.id) (nvl_pack (whole req)) st.file
      else st.file

  -- Nothing is held that was not held before, and the file is `file`.
  abbrev pub Leaves : Option (Bytes × Bytes) → State → State → Type 0
  Leaves file st st' =
      (st'.nvls ≡ st.nvls) × (st'.buffers ≡ st.buffers) × (st'.refs ≡ st.refs) × (st'.file ≡ file)

  written :
      (fname : Bytes) (entry : List Field) (o : Option Bytes) (st : State) (n r : ℕ)
      → Holds n r entry st
      → let st' : State = pack_and_write nvl_pack write_file fname entry o st in
        (st'.nvls ≡ n)
        × (st'.buffers ≡ st.buffers)
        × (st'.refs ≡ r)
        × (st'.file ≡ filed fname o st.file)
  written fname entry none st n r h = (omega (arith, h.lists), refl, omega (arith, h.refs), refl)
  written fname entry (some buf) st n r h = elim (Bool-cases (write_file fname buf)) [
    | inl e ↦ rw e (omega (arith, h.lists), omega arith, omega (arith, h.refs), refl)
    | inr e ↦ rw e (omega (arith, h.lists), omega arith, omega (arith, h.refs), refl)
  ]

  abbrev Ended : Logged → State → ℕ → Bool → State → Type 0
  Ended req st n ok st' =
      (st'.nvls ≡ n)
      × (st'.buffers ≡ st.buffers)
      × (st'.refs ≡ st.refs)
      × (st'.file ≡ (
          if ok
          then filed (file_name req.data_dir req.now req.id) (nvl_pack (whole req)) st.file
          else st.file))

  packed-Ended :
      (req : Logged) (st : State) (n : ℕ) (b : Bool) (o : Bool × (List Field × State))
      → succeed 5 st.memory ≡ b
      → Added (sections req) (first_fields req) st n st.refs o
      → Ended req st n b (packed nvl_pack write_file (file_name req.data_dir req.now req.id) o)
  unfolding sections
  packed-Ended req st n b (false, (entry, st')) e a =
      let no : b ≡ false = sym e ∙ sym a.ok in
      rw no (omega (arith, a.held.lists), a.buffers, omega (arith, a.held.refs), a.file)
  packed-Ended req st n b (true, (entry, st')) e a =
      let yes : b ≡ true = sym e ∙ sym a.ok in
      let same : entry ≡ whole req = a.entries refl in
      let fname = file_name req.data_dir req.now req.id in
      let (l, u, r, f) = written fname entry (nvl_pack entry) st' n st.refs a.held in
      rw yes (
        l,
        u ∙ a.buffers,
        r,
        f
            ∙ (ap (λ x. filed fname (nvl_pack x) st'.file) same
                ∙ ap (filed fname (nvl_pack (whole req))) a.file),
      )

  log_at :
      (m : List Bool) (req : Logged) (st : State)
      → let st0 : State = record st { memory = m } in
        Leaves (file_of req st0) st0 (log_request nvl_pack write_file req st0)
  unfolding log_request
  log_at [] req st =
      let st1 : State = record st { memory = []; nvls = st.nvls + 1 } in
      packed-Ended req st1 st.nvls true _ refl (
        add-Added (sections req) [] (first_fields req) st1 st.nvls st.refs
          (record { lists = omega arith; refs = omega arith }))
  log_at (true ∷ m) req st =
      let st1 : State = record st { memory = m; nvls = st.nvls + 1 } in
      packed-Ended req st1 st.nvls (succeed 5 m) _ refl (
        add-Added (sections req) m (first_fields req) st1 st.nvls st.refs
          (record { lists = omega arith; refs = omega arith }))
  log_at (false ∷ m) req st = (refl, refl, refl, refl)

  -- log_request gives back all that it takes, wherever it fails: the lists, the buffer and the
  -- references of the request's own lists. It writes the file, under its name and with the packed
  -- entry, exactly if all six allocations, the packing and the writing succeed.
  pub log_request-Leaves :
      (req : Logged) (st : State)
      → Leaves (file_of req st) st (log_request nvl_pack write_file req st)
  log_request-Leaves req st = log_at st.memory req st
