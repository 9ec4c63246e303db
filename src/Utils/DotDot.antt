-- ===== src/Utils/DotDot.antt =====
-- utils.c, hasdotdot: the state machine that looks for a ".." path component.
use blahgd.Prelude.{
  ℕ, ◌≡◌, refl, Bool, true, false, List, [], ◌∷◌, ◌++◌, arith, ◌==◌, if◌then◌else◌, any, Bytes,
  codes, bytes_eq, Bool-cases, inl, inr,
}

pub data Hdd : Type 0 where
  start one_dot two_dot other : Hdd

-- One round of the loop: the next state, or `none` in `found` for the early return.
pub data Round : Type 0 where
  found : Round
  next : Hdd → Round

dot : Hdd → Hdd
dot start = one_dot
dot one_dot = two_dot
dot two_dot = other
dot other = other

slash : Hdd → Round
slash two_dot = found
slash _ = next start

round : Hdd → ℕ → Round
unfolding dot slash
round state c =
    if c == b'.' then next (dot state) else if c == b'/' then slash state else next other

is_two_dot : Hdd → Bool
is_two_dot two_dot = true
is_two_dot _ = false

scan : Hdd → Bytes → Bool
scan state [] = is_two_dot state
scan state (c ∷ path) = elim (round state c) [ found ↦ true | next state' ↦ scan state' path ]

unfoldable pub hasdotdot : Bytes → Bool
unfolding scan round is_two_dot
hasdotdot path = scan start path

-- The components of a path: what stands between its slashes. `cur` is the component being read.
components_from : Bytes → Bytes → List Bytes
components_from cur [] = cur ∷ []
components_from cur (c ∷ path) = elim (c == b'/') [
  | true ↦ cur ∷ components_from [] path
  | false ↦ components_from (cur ++ c ∷ []) path
]

unfoldable pub components : Bytes → List Bytes
unfolding components_from
components path = components_from [] path

abbrev pub is_dotdot : Bytes → Bool
is_dotdot name = bytes_eq name (codes "..")

-- The state that stands for the part of a component that has been read.
state_of : Bytes → Hdd
state_of [] = start
state_of (a ∷ []) = if a == b'.' then one_dot else other
state_of (a ∷ b ∷ []) = if a == b'.' then if b == b'.' then two_dot else other else other
state_of (a ∷ b ∷ _ ∷ _) = other

is_two_dot_lem : (cur : Bytes) → is_two_dot (state_of cur) ≡ is_dotdot cur
unfolding is_two_dot state_of bytes_eq
is_two_dot_lem [] = refl
is_two_dot_lem (a ∷ []) = ground arith
is_two_dot_lem (a ∷ b ∷ []) = ground arith
is_two_dot_lem (a ∷ b ∷ c ∷ l) = ground arith

round_slash :
    (cur : Bytes) (c : ℕ)
    → (c == b'/') ≡ true
    → round (state_of cur) c ≡ (if is_dotdot cur then found else next start)
unfolding round state_of bytes_eq
round_slash [] c h = ground arith
round_slash (a ∷ []) c h = ground arith
round_slash (a ∷ b ∷ []) c h = ground arith
round_slash (a ∷ b ∷ d ∷ l) c h = ground arith

round_name :
    (cur : Bytes) (c : ℕ)
    → (c == b'/') ≡ false
    → round (state_of cur) c ≡ next (state_of (cur ++ c ∷ []))
unfolding round state_of
round_name [] c h = ground arith
round_name (a ∷ []) c h = ground arith
round_name (a ∷ b ∷ []) c h = ground arith
round_name (a ∷ b ∷ d ∷ l) c h = ground arith

scan-components :
    (cur path : Bytes) → scan (state_of cur) path ≡ any is_dotdot (components_from cur path)
unfolding scan components_from state_of
scan-components cur [] = ground (arith, is_two_dot_lem cur)
scan-components cur (c ∷ path) = elim (Bool-cases (c == b'/')) [
  | inl e ↦ elim (Bool-cases (is_dotdot cur)) [
    | inl d ↦ rw (round_slash cur c e, scan, e, components_from, d) refl
    | inr d ↦ rw (round_slash cur c e, scan, e, components_from, d) (scan-components [] path)
  ]
  | inr e ↦ rw (round_name cur c e, scan, e, components_from) (scan-components (cur ++ c ∷ []) path)
]

-- hasdotdot holds of a path exactly when one of its components, split at the slashes, is "..".
pub hasdotdot-components : (path : Bytes) → hasdotdot path ≡ any is_dotdot (components path)
unfolding hasdotdot components state_of
hasdotdot-components path = scan-components [] path
