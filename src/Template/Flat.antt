-- ===== src/Template/Flat.antt =====
-- What a template prints of items that are not functions: all of it or nothing.
use blahgd.Prelude.{
  ◌≡◌, refl, sym, ap, ◌∙◌, true, false, List, [], ◌∷◌, ◌++◌, Bytes, All, append_assoc, append-nil,
}
use blahgd.Extern.Nvl.{NvlApi}
use blahgd.Cond.{Stack, cond_value}
use blahgd.Pipeline.Stages
use blahgd.Template.{
  Item, word, pipeline_cmd, foreach_cmd, function_cmd, variable_cmd, Res, done, crashed, no_fuel,
  ◌>>=◌, Env, S, Renderer, foreach_kind, looked_up, foreach, print_var, variable, val_of_var,
  out_of, pipeline, Output, printed, item, items,
}

-- Everything but a function.
abbrev pub IsFlat : Item → Type 0
IsFlat (function_cmd fxn sa1 sa2) = ⊥
IsFlat (word s) = Unit
IsFlat (pipeline_cmd name line) = Unit
IsFlat (foreach_cmd name tmpl) = Unit
IsFlat (variable_cmd name) = Unit

module _ {V : Type 0} (nvl : NvlApi V) (env : Env V nvl.Nvl) (render : Renderer nvl env) where
  abbrev Sc : Type 0
  Sc = S nvl env

  abbrev Out : Type 0
  Out = Output nvl env

  -- What an item prints where no condition forbids it.
  abbrev pub plain : Item → Sc → Res (Bytes × Sc)
  plain (word s) vars = done (s, vars)
  plain (pipeline_cmd name line) vars = out_of nvl env vars (
      Stages.pipeline env.memory env.strftime (val_of_var nvl env (looked_up nvl env name vars))
        line)
  plain (foreach_cmd name tmpl) vars =
      foreach_kind nvl env render name tmpl vars (looked_up nvl env name vars)
  plain (function_cmd fxn sa1 sa2) vars = crashed
  plain (variable_cmd name) vars = print_var nvl env render name vars (looked_up nvl env name vars)

  abbrev pub plains : List Item → Sc → Res (Bytes × Sc)
  plains [] vars = done ([], vars)
  plains (i ∷ l) vars = plain i vars >>= λ p. plains l p.1 >>= λ q. done (p.0 ++ q.0, q.1)

  item_shown :
      (i : Item) (o : Out)
      → IsFlat i
      → cond_value o.stack ≡ true
      → item nvl env render i o ≡ printed nvl env o.out o.stack (plain i o.vars)
  unfolding item foreach variable pipeline
  item_shown (word s) o f h = rw h refl
  item_shown (pipeline_cmd name line) o f h = rw h refl
  item_shown (foreach_cmd name tmpl) o f h = rw h refl
  item_shown (function_cmd fxn sa1 sa2) o f h = absurd f
  item_shown (variable_cmd name) o f h = rw h refl

  nothing_added : (o : Out) → done (record o { out = o.out ++ [] }) ≡ done o
  nothing_added o = ap (λ b. done (record o { out = b })) (append-nil o.out)

  item_hidden :
      (i : Item) (o : Out)
      → IsFlat i
      → cond_value o.stack ≡ false
      → item nvl env render i o ≡ done o
  unfolding item foreach variable pipeline
  item_hidden (word s) o f h = rw h refl
  item_hidden (pipeline_cmd name line) o f h = rw h (nothing_added o)
  item_hidden (foreach_cmd name tmpl) o f h = rw h (nothing_added o)
  item_hidden (function_cmd fxn sa1 sa2) o f h = absurd f
  item_hidden (variable_cmd name) o f h = rw h (nothing_added o)

  pub items_hidden :
      (l : List Item) (o : Out)
      → All IsFlat l
      → cond_value o.stack ≡ false
      → items nvl env render l o ≡ done o
  unfolding items
  items_hidden [] o f h = refl
  items_hidden (i ∷ l) o f h =
      ap (λ r. r >>= items nvl env render l) (item_hidden i o f.0 h) ∙ items_hidden l o f.1 h

  printed-append :
      (out more : Bytes) (stack : Stack) (r : Res (Bytes × Sc))
      → printed nvl env (out ++ more) stack r
        ≡ printed nvl env out stack (r >>= λ q. done (more ++ q.0, q.1))
  printed-append out more stack (done q) =
      ap (λ b. done (record { out = b; stack = stack; vars = q.1 })) (append_assoc out more q.0)
  printed-append out more stack crashed = refl
  printed-append out more stack no_fuel = refl

  pub items_shown :
      (l : List Item) (o : Out)
      → All IsFlat l
      → cond_value o.stack ≡ true
      → items nvl env render l o ≡ printed nvl env o.out o.stack (plains l o.vars)
  unfolding items
  items_shown [] o f h = sym (nothing_added o)
  items_shown (i ∷ l) o f h =
      ap (λ r. r >>= items nvl env render l) (item_shown i o f.0 h)
      ∙ go (λ o1 k. items_shown l o1 f.1 k) (plain i o.vars)
    where
      go :
          ((o1 : Out)
            → cond_value o1.stack ≡ true
            → items nvl env render l o1 ≡ printed nvl env o1.out o1.stack (plains l o1.vars))
          → (r : Res (Bytes × Sc))
          → (printed nvl env o.out o.stack r >>= items nvl env render l)
            ≡ printed nvl env o.out o.stack
                (r >>= λ p. plains l p.1 >>= λ q. done (p.0 ++ q.0, q.1))
      go rest (done p) =
          rest (record { out = o.out ++ p.0; stack = o.stack; vars = p.1 }) h
          ∙ printed-append o.out p.0 o.stack (plains l p.1)
      go rest crashed = refl
      go rest no_fuel = refl

  pub items-append :
      (l m : List Item) (o : Out)
      → items nvl env render (l ++ m) o ≡ (items nvl env render l o >>= items nvl env render m)
  unfolding items
  items-append [] m o = refl
  items-append (i ∷ l) m o = go (λ o1. items-append l m o1) (item nvl env render i o)
    where
      go :
          ((o1 : Out)
            → items nvl env render (l ++ m) o1
              ≡ (items nvl env render l o1 >>= items nvl env render m))
          → (r : Res Out)
          → (r >>= items nvl env render (l ++ m))
            ≡ (r >>= items nvl env render l >>= items nvl env render m)
      go rest (done o1) = rest o1
      go rest crashed = refl
      go rest no_fuel = refl
