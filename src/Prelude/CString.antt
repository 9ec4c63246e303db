-- ===== src/Prelude/CString.antt =====
-- C strings as the lists of their bytes before the terminator, and the C library's functions on
-- them that the program calls, in the "C" locale.
use Prim.Native.Nat.{ℕ, zero, suc, ◌+◌, ◌-◌, ◌^◌, ◌/◌, ◌%◌, compare, Ordering}
use Prim.Native.Char.{code}
use Prim.Native.String.{String}
use mathlib.Core.Bool.{Bool, true, false, ◌&&◌, ◌||◌}
use mathlib.Core.Path.{◌≡◌, refl}
use mathlib.Core.List.{List, [], ◌∷◌, ◌++◌}
use native.Mathlib.Omega.{arith}
use blahgd.Prelude.Tests.{leb, if◌then◌else◌, ◌==◌}

abbrev pub Bytes : Type 0
Bytes = List ℕ

-- The bytes of a literal.
abbrev pub codes : String → Bytes
codes String.[] = []
codes (String.◌∷◌ c s) = code c ∷ codes s

unfoldable pub is_alnum : ℕ → Bool
is_alnum c =
    (leb b'0' c && leb c b'9') || ((leb b'A' c && leb c b'Z') || (leb b'a' c && leb c b'z'))

unfoldable pub to_lower : ℕ → ℕ
to_lower c = if leb b'A' c && leb c b'Z' then c + 32 else c

-- strcmp, by the sign of its result.
unfoldable pub strcmp : Bytes → Bytes → Ordering
strcmp [] [] = Ordering.eq
strcmp [] (d ∷ t) = Ordering.lt
strcmp (c ∷ s) [] = Ordering.gt
strcmp (c ∷ s) (d ∷ t) = elim (compare c d) [
  | Ordering.lt ↦ Ordering.lt
  | Ordering.gt ↦ Ordering.gt
  | Ordering.eq ↦ strcmp s t
]

-- strcasecmp
unfoldable pub lower : Bytes → Bytes
unfolding to_lower
lower [] = []
lower (c ∷ s) = to_lower c ∷ lower s

unfoldable pub strcasecmp : Bytes → Bytes → Ordering
unfolding strcmp lower
strcasecmp s t = strcmp (lower s) (lower t)

-- !strcmp(s, t)
unfoldable pub bytes_eq : Bytes → Bytes → Bool
bytes_eq [] [] = true
bytes_eq [] (d ∷ t) = false
bytes_eq (c ∷ s) [] = false
bytes_eq (c ∷ s) (d ∷ t) = c == d && bytes_eq s t

pub bytes_eq_sound : (s t : Bytes) → bytes_eq s t ≡ true → s ≡ t
unfolding bytes_eq
bytes_eq_sound [] [] h = refl
bytes_eq_sound [] (d ∷ t) h = cc
bytes_eq_sound (c ∷ s) [] h = cc
bytes_eq_sound (c ∷ s) (d ∷ t) h = ground (arith, bytes_eq_sound s t)

pub bytes_eq_refl : (s : Bytes) → bytes_eq s s ≡ true
unfolding bytes_eq
bytes_eq_refl [] = refl
bytes_eq_refl (c ∷ s) = ground (arith, bytes_eq_refl s)

pub strcmp_eq : (s t : Bytes) → strcmp s t ≡ Ordering.eq → s ≡ t
unfolding strcmp
strcmp_eq [] [] h = refl
strcmp_eq [] (d ∷ t) h = cc
strcmp_eq (c ∷ s) [] h = cc
strcmp_eq (c ∷ s) (d ∷ t) h = ground (arith, strcmp_eq s t)

pub strcmp_refl : (s : Bytes) → strcmp s s ≡ Ordering.eq
unfolding strcmp
strcmp_refl [] = refl
strcmp_refl (c ∷ s) = ground (arith, strcmp_refl s)

pub strcasecmp_eq : (s t : Bytes) → strcasecmp s t ≡ Ordering.eq → lower s ≡ lower t
unfolding strcasecmp
strcasecmp_eq s t h = strcmp_eq (lower s) (lower t) h

pub strcasecmp_of_lower : (s t : Bytes) → lower s ≡ lower t → strcasecmp s t ≡ Ordering.eq
unfolding strcasecmp
strcasecmp_of_lower s t h = rw h (strcmp_refl (lower t))

-- "%d" of a number that is not negative; ten digits are enough for 32 bits, twenty for 64.
unfoldable pub decimal_digits : ℕ → ℕ → Bytes
decimal_digits zero n = []
decimal_digits (suc fuel) n =
    let more = decimal_digits fuel (n / 10) ++ (b'0' + n % 10) ∷ [] in
    if leb n 9 then (b'0' + n) ∷ [] else more

unfoldable pub decimal : ℕ → Bytes
unfolding decimal_digits
decimal n = decimal_digits 20 n

-- "%d" of a 32-bit int, by its bit pattern.
unfoldable pub signed : ℕ → Bytes
unfolding decimal
signed n = let m = n % 2 ^ 32 in if leb (2 ^ 31) m then b'-' ∷ decimal (2 ^ 32 - m) else decimal m

-- The number of bytes before the first NUL.
abbrev pub strlen : Bytes → ℕ
strlen [] = 0
strlen (c ∷ s) = if c == 0 then 0 else 1 + strlen s

-- The concatenation of the strings of a list.
abbrev pub concat_all : List Bytes → Bytes
concat_all [] = []
concat_all (s ∷ l) = s ++ concat_all l
