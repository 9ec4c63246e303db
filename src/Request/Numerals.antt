-- ===== src/Request/Numerals.antt =====
-- Numbers that are printed and read again.
use blahgd.Prelude.{
  ◌≤◌, false, length-append, ℕ, zero, suc, ◌+◌, ◌-◌, ◌*◌, ◌/◌, ◌%◌, ◌^◌, ◌<◌, ◌≡◌, refl, ◌∙◌, arith,
  Bool, true, ◌&&◌, [], ◌∷◌, ◌++◌, if◌then◌else◌, leb, length, All, All-append, Bytes, Bool-cases,
  inl, inr, decimal_digits, decimal,
}

abbrev pub is_digit : ℕ → Bool
is_digit c = leb b'0' c && leb c b'9'

abbrev pub IsDigit : ℕ → Type 0
IsDigit c = is_digit c ≡ true

-- The number that begins a text, after `acc`, and what follows the byte behind it.
unfoldable pub number_from : ℕ → Bytes → ℕ × Bytes
number_from acc [] = (acc, [])
number_from acc (c ∷ s) =
    let rest = number_from (acc * 10 + (c - b'0')) s in if is_digit c then rest else (acc, s)

abbrev pub value_from : ℕ → Bytes → ℕ
value_from acc [] = acc
value_from acc (c ∷ s) = value_from (acc * 10 + (c - b'0')) s

abbrev pub zeros : ℕ → Bytes
zeros zero = []
zeros (suc n) = b'0' ∷ zeros n

-- "%0wu"
abbrev pub padded : ℕ → ℕ → Bytes
padded w n = zeros (w - length (decimal n)) ++ decimal n

value_from-snoc :
    (acc : ℕ) (s : Bytes) (c : ℕ)
    → value_from acc (s ++ c ∷ []) ≡ value_from acc s * 10 + (c - b'0')
value_from-snoc acc [] c = refl
value_from-snoc acc (d ∷ s) c = value_from-snoc (acc * 10 + (d - b'0')) s c

decimal_digits-value : (fuel n : ℕ) → n < 10 ^ fuel → value_from 0 (decimal_digits fuel n) ≡ n
unfolding decimal_digits
decimal_digits-value zero n h = omega arith
decimal_digits-value (suc fuel) n h = elim (Bool-cases (leb n 9)) [
  | inl e ↦ rw e (omega arith)
  | inr e ↦ rw e (
      value_from-snoc 0 (decimal_digits fuel (n / 10)) (b'0' + n % 10)
      ∙ omega (arith, decimal_digits-value fuel (n / 10) (omega (arith, h))))
]

decimal_digits-IsDigit : (fuel n : ℕ) → All IsDigit (decimal_digits fuel n)
unfolding decimal_digits
decimal_digits-IsDigit zero n = tt
decimal_digits-IsDigit (suc fuel) n = elim (Bool-cases (leb n 9)) [
  | inl e ↦ rw e (ground arith, tt)
  | inr e ↦ rw e (
      All-append IsDigit (decimal_digits fuel (n / 10)) _ (decimal_digits-IsDigit fuel (n / 10))
        (ground arith, tt))
]

length-decimal_digits : (fuel n : ℕ) → length (decimal_digits fuel n) ≤ fuel
unfolding decimal_digits
length-decimal_digits zero n = omega arith
length-decimal_digits (suc fuel) n = elim (Bool-cases (leb n 9)) [
  | inl e ↦ rw e (omega arith)
  | inr e ↦ rw e (
      omega (
        arith,
        length-append (decimal_digits fuel (n / 10)) ((b'0' + n % 10) ∷ []),
        length-decimal_digits fuel (n / 10),
      ))
]

value_from-zeros : (k : ℕ) (s : Bytes) → value_from 0 (zeros k ++ s) ≡ value_from 0 s
value_from-zeros zero s = refl
value_from-zeros (suc k) s = value_from-zeros k s

zeros-IsDigit : (k : ℕ) → All IsDigit (zeros k)
zeros-IsDigit zero = tt
zeros-IsDigit (suc k) = (refl, zeros-IsDigit k)

length-zeros : (k : ℕ) → length (zeros k) ≡ k
length-zeros zero = refl
length-zeros (suc k) = omega (arith, length-zeros k)

pub padded-IsDigit : (w n : ℕ) → All IsDigit (padded w n)
unfolding decimal
padded-IsDigit w n =
    All-append IsDigit (zeros (w - length (decimal n))) (decimal n)
      (zeros-IsDigit (w - length (decimal n))) (decimal_digits-IsDigit 20 n)

pub padded-value : (w n : ℕ) → n < 2 ^ 64 → value_from 0 (padded w n) ≡ n
unfolding decimal
padded-value w n h =
    value_from-zeros (w - length (decimal n)) (decimal n)
    ∙ decimal_digits-value 20 n (omega (arith, h))

pub length-padded : (w n : ℕ) → length (padded w n) ≤ w + 20
unfolding decimal
length-padded w n = omega (
  arith,
  length-append (zeros (w - length (decimal n))) (decimal n),
  length-zeros (w - length (decimal n)),
  length-decimal_digits 20 n,
)

-- A number is read up to a byte that is no digit, or to the end.
pub number_from-stop :
    (acc : ℕ) (s : Bytes) (c : ℕ) (rest : Bytes)
    → All IsDigit s
    → is_digit c ≡ false
    → number_from acc (s ++ c ∷ rest) ≡ (value_from acc s, rest)
unfolding number_from
number_from-stop acc [] c rest h k = rw k refl
number_from-stop acc (d ∷ s) c rest h k =
    rw h.0 (number_from-stop (acc * 10 + (d - b'0')) s c rest h.1 k)

pub number_from-end :
    (acc : ℕ) (s : Bytes) → All IsDigit s → number_from acc s ≡ (value_from acc s, [])
unfolding number_from
number_from-end acc [] h = refl
number_from-end acc (d ∷ s) h = rw h.0 (number_from-end (acc * 10 + (d - b'0')) s h.1)

pub decimal-IsDigit : (n : ℕ) → All IsDigit (decimal n)
unfolding decimal
decimal-IsDigit n = decimal_digits-IsDigit 20 n

pub decimal-value : (n : ℕ) → n < 2 ^ 64 → value_from 0 (decimal n) ≡ n
unfolding decimal
decimal-value n h = decimal_digits-value 20 n (omega (arith, h))

pub length-decimal : (n : ℕ) → length (decimal n) ≤ 20
unfolding decimal
length-decimal n = length-decimal_digits 20 n
