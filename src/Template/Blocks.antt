-- ===== src/Template/Blocks.antt =====
-- What a template prints of a block between ifset, else and endif.
use blahgd.Prelude.{
  ◌<◌, ◌≡◌, refl, ap, ◌∙◌, Bool, true, false, ◌&&◌, String, List, [], ◌∷◌, ◌++◌, none, some, Bytes,
  All, if◌then◌else◌,
}
use blahgd.Extern.Nvl.{NvlApi}
use blahgd.Cond
use blahgd.Cond.{Stack, cond_value, cond_if, cond_else, cond_endif}
use blahgd.Cond.Laws.{SameConds, Block, cond-Block}
use blahgd.Template.{
  Item, function_cmd, Res, done, crashed, no_fuel, ◌>>=◌, Env, S, Renderer, looked_up, is_set,
  function_ifset, function, Output, printed, item, items,
}
use blahgd.Template.Flat.{IsFlat, plains, items_hidden, items_shown, items-append}

module _ {V : Type 0} (nvl : NvlApi V) (env : Env V nvl.Nvl) (render : Renderer nvl env) where
  abbrev Sc : Type 0
  Sc = S nvl env

  abbrev Out : Type 0
  Out = Output nvl env

  abbrev pub else_cmd : Item
  else_cmd = function_cmd "else" none none

  abbrev pub endif_cmd : Item
  endif_cmd = function_cmd "endif" none none

  -- {ifset(arg)} l1 {else()} l2 {endif()}
  abbrev pub ifset_block : String → List Item → List Item → List Item
  ifset_block arg l1 l2 =
      function_cmd "ifset" (some arg) none ∷ (l1 ++ else_cmd ∷ (l2 ++ endif_cmd ∷ []))

  ifset_step :
      (arg : String) (l : List Item) (o : Out) (s : Stack)
      → cond_if env.depth o.stack (is_set nvl env (looked_up nvl env arg o.vars)) ≡ Cond.done s
      → items nvl env render (function_cmd "ifset" (some arg) none ∷ l) o
        ≡ items nvl env render l (record o { stack = s })
  unfolding items item function function_ifset
  ifset_step arg l o s h = rw h refl

  else_step :
      (l : List Item) (o : Out) (s : Stack)
      → cond_else o.stack ≡ Cond.done s
      → items nvl env render (else_cmd ∷ l) o ≡ items nvl env render l (record o { stack = s })
  unfolding items item function
  else_step l o s h = rw h refl

  endif_step :
      (o : Out) (s : Stack)
      → cond_endif o.stack ≡ Cond.done s
      → items nvl env render (endif_cmd ∷ []) o ≡ done (record o { stack = s })
  unfolding items item function
  endif_step o s h = rw h refl

  module _ (l1 l2 : List Item) (flat1 : All IsFlat l1) (flat2 : All IsFlat l2) (o : Out)
      (shown : cond_value o.stack ≡ true) where
    abbrev rest2 : List Item
    rest2 = l2 ++ endif_cmd ∷ []

    first_part :
        (bl : Block env.depth o.stack true)
        → items nvl env render (l1 ++ else_cmd ∷ rest2) (record o { stack = bl.inside })
          ≡ printed nvl env o.out bl.after (plains nvl env render l1 o.vars)
    first_part bl =
        let inside : cond_value bl.inside ≡ true = bl.inside_value ∙ ap (λ b. b && true) shown in
        items-append nvl env render l1 (else_cmd ∷ rest2) (record o { stack = bl.inside })
        ∙ (ap (λ r. r >>= items nvl env render (else_cmd ∷ rest2))
              (items_shown nvl env render l1 (record o { stack = bl.inside }) flat1 inside)
            ∙ go (plains nvl env render l1 o.vars))
      where
        second :
            (x : Out)
            → x.stack ≡ bl.otherwise
            → items nvl env render rest2 x ≡ done (record x { stack = bl.after })
        second x e =
            items-append nvl env render l2 (endif_cmd ∷ []) x
            ∙ (ap (λ r. r >>= items nvl env render (endif_cmd ∷ []))
                  (items_hidden nvl env render l2 x flat2
                    (ap cond_value e ∙ (bl.otherwise_value ∙ ap (λ b. b && false) shown)))
                ∙ endif_step x bl.after (ap cond_endif e ∙ bl.ends))

        go :
            (r : Res (Bytes × Sc))
            → (printed nvl env o.out bl.inside r >>= items nvl env render (else_cmd ∷ rest2))
              ≡ printed nvl env o.out bl.after r
        go (done p) =
            else_step rest2 (record { out = o.out ++ p.0; stack = bl.inside; vars = p.1 })
              bl.otherwise bl.switches
            ∙ second (record { out = o.out ++ p.0; stack = bl.otherwise; vars = p.1 }) refl
        go crashed = refl
        go no_fuel = refl

    second_part :
        (bl : Block env.depth o.stack false)
        → items nvl env render (l1 ++ else_cmd ∷ rest2) (record o { stack = bl.inside })
          ≡ printed nvl env o.out bl.after (plains nvl env render l2 o.vars)
    second_part bl =
        items-append nvl env render l1 (else_cmd ∷ rest2) (record o { stack = bl.inside })
        ∙ (ap (λ r. r >>= items nvl env render (else_cmd ∷ rest2))
              (items_hidden nvl env render l1 (record o { stack = bl.inside }) flat1
                (bl.inside_value ∙ ap (λ b. b && false) shown))
            ∙ (else_step rest2 (record o { stack = bl.inside }) bl.otherwise bl.switches
                ∙ (items-append nvl env render l2 (endif_cmd ∷ [])
                      (record o { stack = bl.otherwise })
                    ∙ (ap (λ r. r >>= items nvl env render (endif_cmd ∷ []))
                          (items_shown nvl env render l2 (record o { stack = bl.otherwise }) flat2
                            (bl.otherwise_value ∙ ap (λ b. b && true) shown))
                        ∙ go (plains nvl env render l2 o.vars)))))
      where
        go :
            (r : Res (Bytes × Sc))
            → (printed nvl env o.out bl.otherwise r >>= items nvl env render (endif_cmd ∷ []))
              ≡ printed nvl env o.out bl.after r
        go (done p) =
            endif_step (record { out = o.out ++ p.0; stack = bl.otherwise; vars = p.1 }) bl.after
              bl.ends
        go crashed = refl
        go no_fuel = refl

    chosen :
        (val : Bool) (bl : Block env.depth o.stack val)
        → items nvl env render (l1 ++ else_cmd ∷ rest2) (record o { stack = bl.inside })
          ≡ printed nvl env o.out bl.after (plains nvl env render (if val then l1 else l2) o.vars)
    chosen true bl = first_part bl
    chosen false bl = second_part bl

    -- Where the conditions around it hold and there is room for one more, a block between ifset, else
    -- and endif whose two parts hold no further functions prints what its first part alone prints if
    -- the variable is set, and what its second part alone prints if it is not; afterwards the
    -- conditions are those from before the block.
    pub items-ifset_block :
        (arg : String)
        → o.stack.used < env.depth
        → (s : Stack) × SameConds s o.stack
          × (items nvl env render (ifset_block arg l1 l2) o
              ≡ printed nvl env o.out s (
                  plains nvl env render
                    (if is_set nvl env (looked_up nvl env arg o.vars) then l1 else l2)
                    o.vars))
    items-ifset_block arg room =
        let val = is_set nvl env (looked_up nvl env arg o.vars) in
        let bl = cond-Block env.depth o.stack val room in
        (
          bl.after,
          bl.restored,
          ifset_step arg (l1 ++ else_cmd ∷ rest2) o bl.inside bl.starts ∙ chosen val bl,
        )
