-- ===== src/Cond/Laws.antt =====
-- The stack of conditions: nested if, else and endif.
use blahgd.Prelude.{ℕ, zero, suc, ◌+◌, ◌-◌, ◌<◌, ◌≡◌, refl, ap, ◌∙◌, Bool, not, ◌&&◌, arith}
use blahgd.Cond.{
  Stack, overrun, done, cond_value_from, cond_value, store, cond_if, cond_else, cond_endif,
}

-- Two stacks hold the same conditions.
pub record SameConds (s t : Stack) : Type 0 where
  pub used : s.used ≡ t.used
  pub cells : (i : ℕ) → i < s.used → s.cells i ≡ t.cells i

cond_value_from_same :
    (f g : ℕ → Bool) (n : ℕ)
    → ((i : ℕ) → i < n → f i ≡ g i)
    → cond_value_from f n ≡ cond_value_from g n
unfolding cond_value_from
cond_value_from_same f g zero h = refl
cond_value_from_same f g (suc n) h =
    rw (h n (omega arith)) (rw (cond_value_from_same f g n (λ i lt. h i (omega arith))) refl)

store_other : (f : ℕ → Bool) (n i : ℕ) (b : Bool) → i < n → store f n b i ≡ f i
store_other f n i b h = ground arith

store_same : (f : ℕ → Bool) (n : ℕ) (b : Bool) → store f n b n ≡ b
store_same f n b = ground arith

cond_value_store :
    (f : ℕ → Bool) (n : ℕ) (b : Bool)
    → cond_value_from (store f n b) (suc n) ≡ (cond_value_from f n && b)
unfolding cond_value_from
cond_value_store f n b =
    rw (store_same f n b)
      (rw (cond_value_from_same (store f n b) f n (λ i lt. store_other f n i b lt)) refl)

else_value :
    (f : ℕ → Bool) (n k m : ℕ) (b : Bool)
    → k ≡ suc n
    → m ≡ n
    → cond_value_from (store (store f n b) m (not (store f n b m))) k
      ≡ (cond_value_from f n && not b)
else_value f n k m b p q = rw p (
    rw q (
      cond_value_store (store f n b) n (not (store f n b n))
      ∙ (ap (λ x. x && not (store f n b n))
            (cond_value_from_same (store f n b) f n (λ i lt. store_other f n i b lt))
          ∙ ap (λ x. cond_value_from f n && not x) (store_same f n b))))

-- What if, else and endif do to a stack with room for one more condition.
pub record Block (depth : ℕ) (s : Stack) (val : Bool) : Type 0 where
  pub inside : Stack
  pub starts : cond_if depth s val ≡ done inside
  pub inside_value : cond_value inside ≡ (cond_value s && val)
  pub otherwise : Stack
  pub switches : cond_else inside ≡ done otherwise
  pub otherwise_value : cond_value otherwise ≡ (cond_value s && not val)
  pub after : Stack
  pub ends : cond_endif otherwise ≡ done after
  pub restored : SameConds after s

-- With fewer than COND_STACK_DEPTH conditions in use, the text after an if counts where the outer
-- conditions and its own hold, the text after its else where the outer ones hold and its own does
-- not, and after the endif the conditions are those from before the if.
pub cond-Block : (depth : ℕ) (s : Stack) (val : Bool) → s.used < depth → Block depth s val
unfolding cond_if cond_else cond_endif cond_value
cond-Block depth s val room =
    let n = s.used in
    let one : s.used + 1 ≡ suc s.used = omega arith in
    let back : s.used + 1 - 1 ≡ s.used = omega arith in
    let inside : Stack = record { cells = store s.cells n val; used = n + 1 } in
    let cells2 : ℕ → Bool =
      store (store s.cells n val) (n + 1 - 1) (not (store s.cells n val (n + 1 - 1))) in
    let otherwise : Stack = record { cells = cells2; used = n + 1 } in
    record {
      inside = inside;
      starts = ground arith;
      inside_value = rw one (cond_value_store s.cells n val);
      otherwise = otherwise;
      switches = ground arith;
      otherwise_value = else_value s.cells n (n + 1) (n + 1 - 1) val one back;
      after = record { cells = cells2; used = n + 1 - 1 };
      ends = ground arith;
      restored = record {
        used = back;
        cells = λ i lt.
            store_other (store s.cells n val) (n + 1 - 1) i _ lt
            ∙ store_other s.cells n i val (omega arith);
      };
    }

-- With COND_STACK_DEPTH conditions in use, the assertion of cond_if holds and the array is written
-- one cell past its end.
pub cond_if_overrun :
    (depth : ℕ) (s : Stack) (val : Bool) → s.used ≡ depth → cond_if depth s val ≡ overrun
unfolding cond_if
cond_if_overrun depth s val h = ground arith
