-- ===== src/Index/Teardown/Linked.antt =====
-- The lists `by_tag` and the tags' indices between two operations: what stands in the lists is what
-- stands in the indices. The insertion of a post's tags keeps that.
use blahgd.Prelude.{
  ℕ, ◌+◌, ◌≡◌, refl, sym, ap, ◌∙◌, arith, List, [], ◌∷◌, ◌++◌, none, some, All, Bool, true, false,
  if◌then◌else◌, length, total, ◌==◌, Bytes, Ordering, strcasecmp, strcasecmp_eq, strcmp, lower,
  Option-cases, inl, inr, subst,
}
use blahgd.Extern.Rb.{RbApi, find_eq}
use blahgd.Extern.Sorted.{All-insert_sorted, All-replace_eq, find_eq-All, find_eq_sound}
use blahgd.Index.{
  GlobalEntry, IndexEntry, Subindex, Outcome, done, failed, panic, ◌>>=◌, index_cmp,
  global_index_cmp, tag_cmp, et_tag, et_time, insert_post_tags, ensure_sub, add_tag_entry,
  add_to_sub, alloc, alloc_from, free_tags, key_of_tag,
}
use blahgd.Index.Insert.{Ix, tag_entry}
use blahgd.Index.Teardown.{is_xref}
use blahgd.Index.Teardown.Totals.{total-append, total-insert_sorted, total-replace_eq}

-- Whether a pair, and the pair that an entry stands for, is `x`.
abbrev pub hit : ℕ × Bytes → ℕ × Bytes → ℕ
hit x y = if is_xref x y then 1 else 0

abbrev pub hit_entry : ℕ × Bytes → IndexEntry → ℕ
hit_entry x e = elim e.name [ none ↦ 0 | some t ↦ hit x (e.global.id, t) ]

abbrev pub one : IndexEntry → ℕ
one e = 1

abbrev pub IsTagEntry : IndexEntry → Type 0
IsTagEntry e = (e.kind ≡ et_tag) × (t : Bytes) × (e.name ≡ some t)

abbrev pub IsTimeEntry : IndexEntry → Type 0
IsTimeEntry e = e.kind ≡ et_time

abbrev pub is_post : ℕ → ℕ → ℕ
is_post p q = if p == q then 1 else 0

-- What holds if a piece of the code goes on.
abbrev pub Ends : {S : Type 0} → (S → Type 0) → Outcome S → Type 0
Ends P (done s) = P s
Ends P (failed e s) = Unit
Ends P panic = Unit

pub Ends-bind :
    {S : Type 0} (P Q : S → Type 0) (o : Outcome S) (k : S → Outcome S)
    → Ends P o
    → ((s : S) → P s → Ends Q (k s))
    → Ends Q (o >>= k)
Ends-bind P Q (done s) k h f = f s h
Ends-bind P Q (failed e s) k h f = tt
Ends-bind P Q panic k h f = tt

pub Ends-imp :
    {S : Type 0} (P Q : S → Type 0) (o : Outcome S) → ((s : S) → P s → Q s) → Ends P o → Ends Q o
Ends-imp P Q (done s) f h = f s h
Ends-imp P Q (failed e s) f h = tt
Ends-imp P Q panic f h = tt

module _ (entries : RbApi IndexEntry index_cmp) (globals : RbApi GlobalEntry global_index_cmp)
    (subs : RbApi (Subindex entries.Tree) tag_cmp) where
  abbrev St : Type 0
  St = Ix entries globals subs

  abbrev Sub : Type 0
  Sub = Subindex entries.Tree

  abbrev pub of_sub : (IndexEntry → ℕ) → Sub → ℕ
  of_sub f s = total f (entries.to_list s.subindex)

  abbrev pub tag_total : (IndexEntry → ℕ) → St → ℕ
  tag_total f st = total (of_sub f) (subs.to_list st.index_by_tag)

  abbrev pub HasTagEntries : Sub → Type 0
  HasTagEntries s = All IsTagEntry (entries.to_list s.subindex)

  -- The tags' side, with `n` entries, while the other trees are `g` and `t`.
  pub record Linked (g : globals.Tree) (t : entries.Tree) (n : ℕ) (st : St) : Type 0 where
    pub linked : (x : ℕ × Bytes) → total (hit x) st.by_tag ≡ tag_total (hit_entry x) st
    pub kinds : All HasTagEntries (subs.to_list st.index_by_tag)
    pub counted : tag_total one st ≡ n
    pub global : st.index_global ≡ g
    pub time : st.index_by_time ≡ t

  -- An allocation changes nothing but the memory.
  pub alloc-Ends :
      (P : St → Type 0) (st : St)
      → ((m : List Bool) → P (record st { memory = m }))
      → Ends P (alloc entries globals subs st)
  alloc-Ends P st h = go st.memory
    where
      go : (m : List Bool) → Ends P (alloc_from entries globals subs m st)
      go [] = h st.memory
      go (true ∷ m) = h m
      go (false ∷ m) = tt

  pub Linked-memory :
      (g : globals.Tree) (t : entries.Tree) (n : ℕ) (st : St) (m : List Bool)
      → Linked g t n st
      → Linked g t n (record st { memory = m })
  Linked-memory g t n st m h = record {
    linked = h.linked;
    kinds = h.kinds;
    counted = h.counted;
    global = h.global;
    time = h.time;
  }

  abbrev key : Bytes → Sub
  key = key_of_tag entries globals subs

  of_sub-key : (f : IndexEntry → ℕ) (tag : Bytes) → of_sub f (key tag) ≡ 0
  of_sub-key f tag = ap (total f) entries.to_list-create

  new-Linked :
      (g : globals.Tree) (t : entries.Tree) (n : ℕ) (tag : Bytes) (st : St)
      → subs.find st.index_by_tag (key tag) ≡ none
      → Linked g t n st
      → Linked g t n (record st { index_by_tag = subs.insert st.index_by_tag (key tag) })
  new-Linked g t n tag st e h =
      let ins = subs.to_list-insert st.index_by_tag (key tag) e in
      let same : (f : IndexEntry → ℕ)
          → total (of_sub f) (subs.to_list (subs.insert st.index_by_tag (key tag)))
            ≡ tag_total f st =
        λ f. rw ins (
          omega (
            arith,
            total-insert_sorted tag_cmp (of_sub f) (key tag) (subs.to_list st.index_by_tag),
            of_sub-key f tag,
          )) in
      record {
        linked = λ x. h.linked x ∙ sym (same (hit_entry x));
        kinds = rw ins (
            All-insert_sorted tag_cmp HasTagEntries (key tag) (subs.to_list st.index_by_tag)
              (rw entries.to_list-create tt) h.kinds);
        counted = same one ∙ h.counted;
        global = h.global;
        time = h.time;
      }

  ensure-Linked :
      (g : globals.Tree) (t : entries.Tree) (n : ℕ) (tag : Bytes) (st : St)
      → Linked g t n st
      → Ends (Linked g t n) (ensure_sub entries globals subs tag st)
  unfolding ensure_sub
  ensure-Linked g t n tag st h = elim (Option-cases (subs.find st.index_by_tag (key tag))) [
    | inr (s, e) ↦ rw (e, ensure_sub) h
    | inl e ↦
        rw (e, ensure_sub)
          (Ends-bind (λ s. Linked g t n s × (s.index_by_tag ≡ st.index_by_tag)) (Linked g t n)
            (alloc entries globals subs st)
            (λ s. done (record s { index_by_tag = subs.insert s.index_by_tag (key tag) }))
            (alloc-Ends (λ s. Linked g t n s × (s.index_by_tag ≡ st.index_by_tag)) st
              (λ m. (Linked-memory g t n st m h, refl)))
            (λ s k. new-Linked g t n tag s (ap (λ r. subs.find r (key tag)) k.1 ∙ e) k.0))
  ]

  tag_cmp_same_name : (x y z : Sub) → lower y.name ≡ lower z.name → tag_cmp x y ≡ tag_cmp x z
  unfolding tag_cmp strcasecmp
  tag_cmp_same_name x y z h = ap (strcmp (lower x.name)) h

  named : (x y : Sub) → tag_cmp x y ≡ Ordering.eq → strcasecmp x.name y.name ≡ Ordering.eq
  unfolding tag_cmp
  named x y h = h

  abbrev with_entry : GlobalEntry → Bytes → Sub → Sub
  with_entry global tag sub = record sub {
    subindex = entries.insert sub.subindex (tag_entry global tag);
  }

  abbrev extended : GlobalEntry → Bytes → St → Sub → St
  extended global tag st sub = record st {
    index_by_tag = subs.update st.index_by_tag (with_entry global tag sub);
    by_tag = st.by_tag ++ (global.id, tag) ∷ [];
  }

  extended-Linked :
      (g : globals.Tree) (t : entries.Tree) (n : ℕ) (global : GlobalEntry) (tag : Bytes) (st : St)
      (sub : Sub)
      → subs.find st.index_by_tag (key tag) ≡ some sub
      → entries.find sub.subindex (tag_entry global tag) ≡ none
      → Linked g t n st
      → Linked g t (n + 1) (extended global tag st sub)
  extended-Linked g t n global tag st sub e missing h =
      let l = subs.to_list st.index_by_tag in
      let x : IndexEntry = tag_entry global tag in
      let sub' : Sub = with_entry global tag sub in
      let upd = subs.to_list-update st.index_by_tag sub' in
      let found : find_eq tag_cmp (key tag) l ≡ some sub =
        sym (subs.find_lem st.index_by_tag (key tag)) ∙ e in
      let same : lower sub.name ≡ lower tag =
        strcasecmp_eq sub.name tag
          (named sub (key tag) (find_eq_sound tag_cmp (key tag) l sub found)) in
      let ins = entries.to_list-insert sub.subindex x missing in
      let more : (f : IndexEntry → ℕ)
          → tag_total f (extended global tag st sub) ≡ tag_total f st + f x =
        λ f. rw upd (
          omega (
            arith,
            total-replace_eq tag_cmp (of_sub f) sub' (key tag) sub l
                (λ y. tag_cmp_same_name y sub' (key tag) same) found,
            ap (total f) ins,
            total-insert_sorted index_cmp f x (entries.to_list sub.subindex),
          )) in
      record {
        linked = λ p. omega (
          arith,
          total-append (hit p) st.by_tag ((global.id, tag) ∷ []),
          h.linked p,
          more (hit_entry p),
        );
        kinds = rw upd (
            All-replace_eq tag_cmp HasTagEntries sub' l
              (rw ins (
                All-insert_sorted index_cmp IsTagEntry x (entries.to_list sub.subindex)
                  (refl, tag, refl)
                  (find_eq-All tag_cmp HasTagEntries (key tag) l sub h.kinds found)))
              h.kinds);
        counted = more one ∙ ap (λ k. k + 1) h.counted;
        global = h.global;
        time = h.time;
      }

  add-Linked :
      (g : globals.Tree) (t : entries.Tree) (n : ℕ) (global : GlobalEntry) (tag : Bytes) (st : St)
      → Linked g t n st
      → Ends (Linked g t (n + 1)) (add_tag_entry entries globals subs global tag st)
  unfolding add_tag_entry
  add-Linked g t n global tag st h = elim (Option-cases (subs.find st.index_by_tag (key tag))) [
    | inl e ↦ rw (e, add_tag_entry) tt
    | inr (sub, e) ↦ elim (Option-cases (entries.find sub.subindex (tag_entry global tag))) [
      | inl k ↦ rw (e, k, add_tag_entry, add_to_sub) (extended-Linked g t n global tag st sub e k h)
      | inr (y, k) ↦ rw (e, k, add_tag_entry, add_to_sub) tt
    ]
  ]

  pub tags-Linked :
      (g : globals.Tree) (t : entries.Tree) (n : ℕ) (global : GlobalEntry) (tags : List Bytes)
      (st : St)
      → Linked g t n st
      → Ends (Linked g t (n + length tags)) (insert_post_tags entries globals subs global tags st)
  unfolding insert_post_tags
  tags-Linked g t n global [] st h = subst (λ k. Linked g t k st) (omega arith) h
  tags-Linked g t n global (tag ∷ tags) st h =
      subst
        (λ k. Ends (Linked g t k) (insert_post_tags entries globals subs global (tag ∷ tags) st))
        (omega arith)
        (Ends-bind (Linked g t (n + 1)) (Linked g t (n + 1 + length tags)) _
          (insert_post_tags entries globals subs global tags)
          (Ends-bind (Linked g t n) (Linked g t (n + 1)) _
            (add_tag_entry entries globals subs global tag)
            (Ends-bind (Linked g t n) (Linked g t n) (ensure_sub entries globals subs tag st)
              (alloc entries globals subs) (ensure-Linked g t n tag st h)
              (λ s k. alloc-Ends (Linked g t n) s (λ m. Linked-memory g t n s m k)))
            (λ s k. add-Linked g t n global tag s k))
          (λ s k. tags-Linked g t (n + 1) global tags s k))

  pub free_tags-Ends :
      (P : St → Type 0) (global : GlobalEntry) (o : Outcome St)
      → Ends P o
      → Ends P (free_tags entries globals subs global o)
  free_tags-Ends P global (done st) h = h
  free_tags-Ends P global (failed e st) h = tt
  free_tags-Ends P global panic h = tt
