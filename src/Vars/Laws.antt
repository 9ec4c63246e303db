-- ===== src/Vars/Laws.antt =====
-- Scopes shadow one another, and a scope that is popped leaves no trace.
use blahgd.Prelude.{
  ℕ, suc, ◌≡◌, refl, String, List, [], ◌∷◌, some, arith, ltb, if◌then◌else◌, length, str_eq,
  Bool-cases, inl, inr,
}
use blahgd.Extern.Nvl.{NvlApi, or_else}
use blahgd.Vars.{
  Vars, vars_scope_push, vars_scope_pop, vars_set, vars_merge, lookup_scopes, vars_lookup,
}

-- The changes that a template makes to the current scope.
pub data Change (V N : Type 0) : Type 0 where
  set_var : String → V → Change V N
  merge_vars : N → Change V N

some_inj : {A : Type 0} {x y : A} → some x ≡ some y → x ≡ y
some_inj h = cc

module _ {V : Type 0} (api : NvlApi V) where
  abbrev pub change : Vars api.Nvl → Change V api.Nvl → Vars api.Nvl
  change vars (set_var name val) = vars_set api vars name val
  change vars (merge_vars items) = vars_merge api vars items

  abbrev pub changes : Vars api.Nvl → List (Change V api.Nvl) → Vars api.Nvl
  changes vars [] = vars
  changes vars (c ∷ cs) = changes (change vars c) cs

  -- The value that is found after a variable has been set is the new one under its name, and what
  -- it was under every other.
  pub vars_lookup-vars_set :
      (vars : Vars api.Nvl) (k j : String) (v : V)
      → vars_lookup api (vars_set api vars k v) j
        ≡ (if str_eq k j then some v else vars_lookup api vars j)
  unfolding vars_lookup vars_set
  vars_lookup-vars_set vars k j v = ground (arith, api.lookup-set vars.current k v j)

  -- A scope that has just been pushed hides nothing.
  pub vars_lookup-vars_scope_push :
      (max_scopes : ℕ) (vars pushed : Vars api.Nvl) (j : String)
      → vars_scope_push api max_scopes vars ≡ some pushed
      → vars_lookup api pushed j ≡ vars_lookup api vars j
  unfolding vars_lookup vars_scope_push
  vars_lookup-vars_scope_push max_scopes vars pushed j h =
      elim (Bool-cases (ltb (suc (length vars.outer)) max_scopes)) [
        | inl e ↦
            let same : record { current = api.empty; outer = vars.current ∷ vars.outer } ≡ pushed =
              some_inj (rw e at h) in
            rw (← same) (rw (api.lookup-empty j, lookup_scopes) refl)
        | inr e ↦ cc (rw e at h)
      ]

  -- Merging a list into the current scope puts its variables before all others.
  pub vars_lookup-vars_merge :
      (vars : Vars api.Nvl) (items : api.Nvl) (j : String)
      → vars_lookup api (vars_merge api vars items) j
        ≡ or_else (api.lookup items j) (vars_lookup api vars j)
  unfolding vars_lookup vars_merge
  vars_lookup-vars_merge vars items j = ground (arith, api.lookup-merge vars.current items j)

  outer-changes :
      (vars : Vars api.Nvl) (cs : List (Change V api.Nvl)) → (changes vars cs).outer ≡ vars.outer
  unfolding vars_set vars_merge
  outer-changes vars [] = refl
  outer-changes vars (set_var name val ∷ cs) = outer-changes (vars_set api vars name val) cs
  outer-changes vars (merge_vars items ∷ cs) = outer-changes (vars_merge api vars items) cs

  -- After a scope has been pushed, whatever is set or merged then, popping it gives the variables
  -- back as they were before.
  pub vars_scope_pop-changes :
      (max_scopes : ℕ) (vars pushed : Vars api.Nvl) (cs : List (Change V api.Nvl))
      → vars_scope_push api max_scopes vars ≡ some pushed
      → vars_scope_pop api (changes pushed cs) ≡ vars
  unfolding vars_scope_pop vars_scope_push
  vars_scope_pop-changes max_scopes vars pushed cs h =
      rw (outer-changes pushed cs) (elim (Bool-cases (ltb (suc (length vars.outer)) max_scopes)) [
        | inl e ↦
            let same : record { current = api.empty; outer = vars.current ∷ vars.outer } ≡ pushed =
              some_inj (rw e at h) in
            rw (← same) refl
        | inr e ↦ cc (rw e at h)
      ])
