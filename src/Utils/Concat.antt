-- ===== src/Utils/Concat.antt =====
-- utils.c, concat5: joins strings and frees its arguments, of which some may be NULL and some may
-- be one pointer. A pointer is a number; `text` is the string that stands at it.
pub mod Joined
pub mod Freed
use blahgd.Prelude.{
  ℕ, ◌+◌, Bool, true, false, not, ◌&&◌, List, [], ◌∷◌, ◌++◌, Option, none, some, ltb, leb, ◌==◌,
  if◌then◌else◌, length, get_elem?, any, Bytes,
}

abbrev pub Sources : Type 0
Sources = List (Option ℕ)

-- What the first loop computes.
pub record Sums : Type 0 where
  pub nsrc : ℕ
  pub totallen : ℕ
  pub first : Option ℕ
  pub last : Option ℕ

-- The string that is returned: one of the sources itself, or a new allocation.
pub data Output : Type 0 where
  source : Option ℕ → Output
  fresh : Bytes → Output

pub record Result : Type 0 where
  pub out : Output
  pub frees : List ℕ

abbrev pub same_ptr : ℕ → Option ℕ → Bool
same_ptr p none = false
same_ptr p (some q) = p == q

-- Bit i of `tofree`: cleared where the pointer stands at a later index again.
abbrev pub keeps_bit : Option ℕ → Sources → Bool
keeps_bit none later = true
keeps_bit (some p) later = not (any (same_ptr p) later)

abbrev pub tofree : Sources → List Bool
tofree [] = []
tofree (p ∷ src) = keeps_bit p src ∷ tofree src

-- free(NULL) does nothing.
abbrev pub free : Option ℕ → List ℕ
free none = []
free (some p) = p ∷ []

-- The pointers freed by a loop over the indices from `lo` below `hi`; `i` is the list's first index.
unfoldable pub freed : ℕ → ℕ → ℕ → Sources → List Bool → List ℕ
freed lo hi i [] bits = []
freed lo hi i (p ∷ src) [] = []
freed lo hi i (p ∷ src) (b ∷ bits) =
    (if leb lo i && (ltb i hi && b) then free p else []) ++ freed lo hi (i + 1) src bits

abbrev pub or_first : Option ℕ → ℕ → ℕ
or_first none i = i
or_first (some f) i = f

abbrev pub no_sums : Sums
no_sums = record { nsrc = 0; totallen = 0; first = none; last = none }

abbrev pub src_at : Sources → Option ℕ → Option ℕ
src_at src none = none
src_at src (some i) = elim (get_elem? src i) [ none ↦ none | some p ↦ p ]

-- The loops over `first` to `last`, with the bound `last` itself excluded or included.
abbrev pub free_loop : ℕ → Option ℕ → Option ℕ → Sources → List ℕ
free_loop extra none last src = []
free_loop extra (some f) none src = []
free_loop extra (some f) (some l) src = freed f (l + extra) 0 src (tofree src)

module _ (text : ℕ → Bytes) where
  abbrev pub add_src : ℕ → Sums → Option ℕ → Sums
  add_src i s none = s
  add_src i s (some p) = record {
    nsrc = s.nsrc + 1;
    totallen = s.totallen + length (text p);
    first = some (or_first s.first i);
    last = some i;
  }

  unfoldable pub sum_srcs : ℕ → Sums → Sources → Sums
  sum_srcs i s [] = s
  sum_srcs i s (p ∷ src) = sum_srcs (i + 1) (add_src i s p) src

  abbrev pub content : Option ℕ → Bytes
  content none = []
  content (some p) = text p

  -- The bytes copied by the second loop.
  unfoldable pub copied : ℕ → ℕ → ℕ → Sources → Bytes
  copied lo hi i [] = []
  copied lo hi i (p ∷ src) =
      (if leb lo i && ltb i hi then content p else []) ++ copied lo hi (i + 1) src

  abbrev pub copy_loop : Option ℕ → Option ℕ → Sources → Bytes
  copy_loop none last src = []
  copy_loop (some f) none src = []
  copy_loop (some f) (some l) src = copied f (l + 1) 0 src

  abbrev pub join : Sums → Sources → Result
  join s src =
      if s.nsrc == 1
      then record { out = source (src_at src s.first); frees = [] }
      else if s.totallen == 0
      then record { out = fresh []; frees = free_loop 0 s.first s.last src }
      else record {
        out = fresh (copy_loop s.first s.last src);
        frees = free_loop 1 s.first s.last src;
      }

  unfoldable pub concat5 : Sources → Result
  unfolding sum_srcs copied freed
  concat5 src = join (sum_srcs 0 no_sums src) src

  abbrev pub out_text : Output → Bytes
  out_text (source p) = content p
  out_text (fresh s) = s

  -- All strings of the sources, one after the other.
  abbrev pub joined : Sources → Bytes
  joined [] = []
  joined (p ∷ src) = content p ++ joined src
