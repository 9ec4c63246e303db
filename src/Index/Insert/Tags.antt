-- ===== src/Index/Insert/Tags.antt =====
-- The loop of __insert_post_tags, one tag at a time.
use blahgd.Prelude.{
  ℕ, ◌≡◌, refl, sym, ap, ◌∙◌, true, [], ◌∷◌, ◌++◌, List, Option, none, some, arith, any, All, ◌==◌,
  Bytes, map, append_assoc, append-nil, All-map_imp,
}
use blahgd.Extern.Rb.{RbApi, find_eq, insert_sorted}
use blahgd.Index.{
  GlobalEntry, IndexEntry, Subindex, Outcome, done, index_cmp, global_index_cmp, tag_cmp,
  key_of_tag, ensure_sub, add_to_sub, add_tag_entry, insert_post_tags, et_tag,
}
use blahgd.Extern.Sorted.{
  All-insert_sorted, All-replace_eq, any-insert_sorted, find_eq-insert_sorted_self,
  find_eq-insert_sorted_ne, find_eq-replace_eq_ne, find_eq-replace_eq_self, find_eq-All,
  find_eq_sound,
}
use blahgd.Index.Insert.{
  has_id, IsKnown, SameTag, AreDistinct, HasOtherId, find_eq_fresh, Ix, Sub, find_sub, IsFresh,
  alloc-nil, SubKnown, IsTagged, Kept, listed_in, tag_entry, spelling, added_entry, spelled,
  tag_cmp_same, tag_cmp_of_same,
}

module _ (entries : RbApi IndexEntry index_cmp) (globals : RbApi GlobalEntry global_index_cmp)
    (subs : RbApi (Subindex entries.Tree) tag_cmp) (gs : List GlobalEntry) where
  abbrev St : Type 0
  St = Ix entries globals subs

  abbrev key : Bytes → Sub entries globals subs
  key = key_of_tag entries globals subs

  abbrev at : St → Bytes → Option (Sub entries globals subs)
  at = find_sub entries globals subs

  abbrev Keeps : Bytes → St → St → Type 0
  Keeps = Kept entries globals subs gs

  abbrev AllKnown : St → Type 0
  AllKnown st = All (SubKnown entries globals subs gs) (subs.to_list st.index_by_tag)

  -- The subindex of the tag is there, empty if it is new.
  abbrev Ensured : ℕ → Bytes → St → Type 0
  Ensured i tag st =
      (st' : St) × (sub : Sub entries globals subs) × (ensure_sub entries globals subs tag st
        ≡ done st')
      × (at st' tag ≡ some sub)
      × All (HasOtherId i) (entries.to_list sub.subindex)
      × (entries.to_list sub.subindex ≡ listed_in entries globals subs (at st tag))
      × (st'.by_tag ≡ st.by_tag)
      × Keeps tag st st'

  ensure_new :
      (i : ℕ) (tag : Bytes) (st : St)
      → st.memory ≡ []
      → at st tag ≡ none
      → AllKnown st
      → Ensured i tag st
  unfolding ensure_sub find_sub
  ensure_new i tag st mem e known =
      let st' : St = record st { index_by_tag = subs.insert st.index_by_tag (key tag) } in
      let ins = subs.to_list-insert st.index_by_tag (key tag) e in
      (
        st',
        key tag,
        rw (e, ensure_sub) (rw (alloc-nil entries globals subs st mem) refl),
        subs.find_lem st'.index_by_tag (key tag)
            ∙ (ap (find_eq tag_cmp (key tag)) ins
                ∙ find_eq-insert_sorted_self tag_cmp (key tag) (subs.to_list st.index_by_tag)
                    (tag_cmp_of_same entries globals subs (key tag) (key tag) refl)
                    (sym (subs.find_lem st.index_by_tag (key tag)) ∙ e)),
        rw entries.to_list-create tt,
        entries.to_list-create ∙ ap (listed_in entries globals subs) (sym e),
        refl,
        record {
          global = refl;
          time = refl;
          freed = refl;
          memory = mem;
          others = λ u ne.
              subs.find_lem st'.index_by_tag (key u)
              ∙ (ap (find_eq tag_cmp (key u)) ins
                  ∙ (find_eq-insert_sorted_ne tag_cmp (key tag) (key u)
                        (subs.to_list st.index_by_tag)
                        (λ c. ne (tag_cmp_same entries globals subs (key tag) (key u) c))
                      ∙ sym (subs.find_lem st.index_by_tag (key u))));
          all = rw ins (
              All-insert_sorted tag_cmp (SubKnown entries globals subs gs) (key tag)
                (subs.to_list st.index_by_tag) (rw entries.to_list-create tt) known);
        },
      )

  ensure_old :
      (i : ℕ) (tag : Bytes) (st : St) (s : Sub entries globals subs)
      → st.memory ≡ []
      → at st tag ≡ some s
      → All (HasOtherId i) (entries.to_list s.subindex)
      → AllKnown st
      → Ensured i tag st
  unfolding ensure_sub find_sub
  ensure_old i tag st s mem e fresh known = (
    st,
    s,
    rw (e, ensure_sub) refl,
    e,
    fresh,
    ap (listed_in entries globals subs) (sym e),
    refl,
    record {
      global = refl;
      time = refl;
      freed = refl;
      memory = mem;
      others = λ u ne. refl;
      all = known;
    },
  )

  ensure :
      (i : ℕ) (tag : Bytes) (st : St) (o : Option (Sub entries globals subs))
      → st.memory ≡ []
      → at st tag ≡ o
      → IsFresh entries globals subs i o
      → AllKnown st
      → Ensured i tag st
  ensure i tag st none mem e fresh known = ensure_new i tag st mem e known
  ensure i tag st (some s) mem e fresh known = ensure_old i tag st s mem e fresh known

  -- One tag's entry has been added.
  abbrev Added : GlobalEntry → Bytes → Sub entries globals subs → St → Outcome St → Type 0
  Added g tag sub st o =
      (st' : St) × (o ≡ done st')
      × IsTagged entries globals subs g.id (at st' tag)
      × (listed_in entries globals subs (at st' tag)
          ≡ insert_sorted index_cmp (tag_entry g tag) (entries.to_list sub.subindex))
      × (st'.by_tag ≡ st.by_tag ++ (g.id, tag) ∷ [])
      × Keeps tag st st'

  add :
      (g : GlobalEntry) (tag : Bytes) (st : St) (sub : Sub entries globals subs)
      → st.memory ≡ []
      → at st tag ≡ some sub
      → All (HasOtherId g.id) (entries.to_list sub.subindex)
      → AllKnown st
      → any (has_id g.id) gs ≡ true
      → Added g tag sub st (add_tag_entry entries globals subs g tag st)
  unfolding add_tag_entry find_sub
  add g tag st sub mem e fresh known member =
      let entry : IndexEntry = record { global = g; name = some tag; kind = et_tag } in
      let missing : entries.find sub.subindex entry ≡ none =
        entries.find_lem sub.subindex entry
        ∙ find_eq_fresh entry (entries.to_list sub.subindex) fresh in
      let sub' : Sub entries globals subs = record sub {
        subindex = entries.insert sub.subindex entry;
      } in
      let st' : St = record st {
        index_by_tag = subs.update st.index_by_tag sub';
        by_tag = st.by_tag ++ (g.id, tag) ∷ [];
      } in
      let upd = subs.to_list-update st.index_by_tag sub' in
      let found : find_eq tag_cmp (key tag) (subs.to_list st.index_by_tag) ≡ some sub =
        sym (subs.find_lem st.index_by_tag (key tag)) ∙ e in
      let same : SameTag sub.name tag =
        tag_cmp_same entries globals subs sub (key tag)
          (find_eq_sound tag_cmp (key tag) (subs.to_list st.index_by_tag) sub found) in
      let ins = entries.to_list-insert sub.subindex entry missing in
      let there : at st' tag ≡ some sub' =
        subs.find_lem st'.index_by_tag (key tag)
        ∙ (ap (find_eq tag_cmp (key tag)) upd
            ∙ find_eq-replace_eq_self tag_cmp sub' (key tag) sub (subs.to_list st.index_by_tag)
                (tag_cmp_of_same entries globals subs sub' (key tag) same)
                (λ x c.
                  tag_cmp_of_same entries globals subs x (key tag)
                    (tag_cmp_same entries globals subs x sub' c ∙ same))
                (λ x c.
                  tag_cmp_of_same entries globals subs x sub'
                    (tag_cmp_same entries globals subs x (key tag) c ∙ sym same))
                found) in
      (
        st',
        rw (e, add_tag_entry) (rw (missing, add_to_sub) refl),
        rw there (
            rw ins (
              any-insert_sorted index_cmp (λ x. x.global.id == g.id) entry
                (entries.to_list sub.subindex)
              ∙ ground arith)),
        ap (listed_in entries globals subs) there ∙ ins,
        refl,
        record {
          global = refl;
          time = refl;
          freed = refl;
          memory = mem;
          others = λ u ne.
              subs.find_lem st'.index_by_tag (key u)
              ∙ (ap (find_eq tag_cmp (key u)) upd
                  ∙ (find_eq-replace_eq_ne tag_cmp sub' (key u) (subs.to_list st.index_by_tag)
                        (λ c. ne (sym same ∙ tag_cmp_same entries globals subs sub' (key u) c))
                        (λ x c d. ne (
                          sym same
                          ∙ (sym (tag_cmp_same entries globals subs x sub' c)
                              ∙ tag_cmp_same entries globals subs x (key u) d)))
                      ∙ sym (subs.find_lem st.index_by_tag (key u))));
          all = rw upd (
              All-replace_eq tag_cmp (SubKnown entries globals subs gs) sub'
                (subs.to_list st.index_by_tag)
                (rw ins (
                  All-insert_sorted index_cmp (IsKnown gs) entry (entries.to_list sub.subindex)
                    member
                    (find_eq-All tag_cmp (SubKnown entries globals subs gs) (key tag)
                      (subs.to_list st.index_by_tag) sub known found)))
                known);
        },
      )

  -- The whole loop.
  pub record Tagged (g : GlobalEntry) (tags : List Bytes) (st st' : St) : Type 0 where
    pub tagged : All (λ t. IsTagged entries globals subs g.id (at st' t)) tags
    pub listed :
        (u : Bytes)
        → listed_in entries globals subs (at st' u)
          ≡ added_entry g (spelling u tags) (listed_in entries globals subs (at st u))
    pub xrefs : st'.by_tag ≡ st.by_tag ++ map (λ t. (g.id, t)) tags
    pub global : st'.index_global ≡ st.index_global
    pub time : st'.index_by_time ≡ st.index_by_time
    pub freed : st'.freed ≡ st.freed
    pub memory : st'.memory ≡ []
    pub others : (u : Bytes) → All (λ t. ¬ SameTag t u) tags → at st' u ≡ at st u
    pub all : AllKnown st'

  IsFresh-rest :
      (i : ℕ) (st st' : St) (tag : Bytes) (tags : List Bytes)
      → ((u : Bytes) → ¬ SameTag tag u → at st' u ≡ at st u)
      → All (λ u. ¬ SameTag tag u) tags
      → All (λ u. IsFresh entries globals subs i (at st u)) tags
      → All (λ u. IsFresh entries globals subs i (at st' u)) tags
  IsFresh-rest i st st' tag [] o d f = tt
  IsFresh-rest i st st' tag (u ∷ tags) o d f =
      (rw (o u d.0) f.0, IsFresh-rest i st st' tag tags o d.1 f.1)

  pub insert_post_tags-Tagged :
      (g : GlobalEntry) (tags : List Bytes) (st : St)
      → st.memory ≡ []
      → AreDistinct tags
      → All (λ u. IsFresh entries globals subs g.id (at st u)) tags
      → AllKnown st
      → any (has_id g.id) gs ≡ true
      → (st' : St) × (insert_post_tags entries globals subs g tags st ≡ done st')
        × Tagged g tags st st'
  unfolding insert_post_tags
  insert_post_tags-Tagged g [] st mem d f known member = (
    st,
    refl,
    record {
      tagged = tt;
      listed = λ u. refl;
      xrefs = sym (append-nil st.by_tag);
      global = refl;
      time = refl;
      freed = refl;
      memory = mem;
      others = λ u h. refl;
      all = known;
    },
  )
  insert_post_tags-Tagged g (tag ∷ tags) st mem d f known member =
      let (st1, sub, r1, found, fresh, l1, x1, k1) =
        ensure g.id tag st (at st tag) mem refl f.0 known in
      let (st2, r2, t2, l2, x2, k2) = add g tag st1 sub k1.memory found fresh k1.all member in
      let o2 : (u : Bytes) → ¬ SameTag tag u → at st2 u ≡ at st u =
        λ u ne. k2.others u ne ∙ k1.others u ne in
      let (st3, r3, k3) =
        insert_post_tags-Tagged g tags st2 k2.memory d.1
          (IsFresh-rest g.id st st2 tag tags o2 d.0 f.1) k2.all member in
      (
        st3,
        rw r1 (rw (alloc-nil entries globals subs st1 k1.memory) (rw r2 r3)),
        record {
          tagged =
              (rw (k3.others tag (All-map_imp _ _ tags (λ u ne e. ne (sym e)) d.0)) t2, k3.tagged);
          listed = λ u.
              spelled entries globals subs g tag tags u st st2 st3 (o2 u)
                (l2 ∙ ap (insert_sorted index_cmp (tag_entry g tag)) l1) d.0 (k3.listed u);
          xrefs = k3.xrefs ∙ (rw x2 (rw x1 (append_assoc st.by_tag _ _)));
          global = k3.global ∙ (k2.global ∙ k1.global);
          time = k3.time ∙ (k2.time ∙ k1.time);
          freed = k3.freed ∙ (k2.freed ∙ k1.freed);
          memory = k3.memory;
          others = λ u h. k3.others u h.1 ∙ o2 u h.0;
          all = k3.all;
        },
      )
