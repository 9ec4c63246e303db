-- ===== src/Comment/Spam.antt =====
-- spam_check: which comments pass.
use blahgd.Prelude.{
  ℕ, ◌+◌, ◌-◌, ◌%◌, ◌^◌, ◌≤◌, ◌≡◌, refl, [], ◌∷◌, Option, none, some, arith, ◌↔◌, Bytes,
}
use blahgd.Extern.Query.{QueryApi, Found, found, noent, error}
use blahgd.Comment.{
  Result, ok, Config, nanoseconds, check_empty, check_think, check_captcha, or_generic, spam_check,
  ◌>>◌,
}

-- The think time lies between the two limits, in the 64-bit arithmetic of the code.
abbrev pub ThinksEnough : Config → ℕ → ℕ → Type 0
ThinksEnough config now date =
    (nanoseconds config.comment_min_think ≤ (now + 2 ^ 64 - date) % 2 ^ 64)
    × ((now + 2 ^ 64 - date) % 2 ^ 64 ≤ nanoseconds config.comment_max_think)

abbrev pub HasThought : Config → ℕ → Option ℕ → Type 0
HasThought config now none = ⊥
HasThought config now (some date) = ThinksEnough config now date

-- The three checks on what the lookups return.
abbrev verdict : Config → ℕ → Found Bytes → Option ℕ → Option ℕ → Result (Unit {0})
verdict config now x d v =
    check_empty x >> (or_generic d (check_think config now) >> or_generic v (check_captcha config))

module _ (config : Config) (now : ℕ) where
  verdict-ok :
      (x : Found Bytes) (d v : Option ℕ)
      → verdict config now x d v ≡ ok tt
      → (x ≡ found [])
        × HasThought config now d
        × (v ≡ some ((config.comment_captcha_a + config.comment_captcha_b) % 2 ^ 64))
  verdict-ok (found (c ∷ s)) d v h = cc
  verdict-ok noent d v h = cc
  verdict-ok error d v h = cc
  verdict-ok (found []) none v h = cc
  verdict-ok (found []) (some d) none h = ground arith
  verdict-ok (found []) (some d) (some v) h = (refl, ground arith, ground arith)

  verdict_ok :
      (x : Found Bytes) (d v : Option ℕ)
      → x ≡ found []
      → HasThought config now d
      → v ≡ some ((config.comment_captcha_a + config.comment_captcha_b) % 2 ^ 64)
      → verdict config now x d v ≡ ok tt
  verdict_ok x none v hx hd hv = absurd hd
  verdict_ok x (some d) v hx hd hv = rw (hx, hv) (ground arith)

-- A comment passes spam_check exactly when the field that must stay empty is there and empty, the
-- date of the form is a number from which the think time lies between the limits, and the answer
-- to the captcha is the sum of its two numbers, all in 64-bit arithmetic.
pub spam_check_iff :
    (api : QueryApi) (config : Config) (now : ℕ) (qs : api.Query)
    → (spam_check api config now qs ≡ ok tt) ↔ (
        (api.lookup_str qs "x" ≡ found [])
        × HasThought config now (api.lookup_int qs "d")
        × (api.lookup_int qs "v"
            ≡ some ((config.comment_captcha_a + config.comment_captcha_b) % 2 ^ 64)))
unfolding spam_check
spam_check_iff api config now qs =
    (verdict-ok config now _ _ _, λ h. verdict_ok config now _ _ _ h.0 h.1 h.2)
