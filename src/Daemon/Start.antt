-- ===== src/Daemon/Start.antt =====
-- daemon.c: when the daemon serves requests.
use blahgd.Prelude.{
  ℕ, Bytes, zero, suc, ◌≡◌, refl, Bool, true, false, List, [], ◌∷◌, Option, none, some,
}
use blahgd.Daemon.{
  World, Ended, panic, returned, main_blahgd, privs, permitted, limit, inheritable, PrivSet,
}

abbrev pub world_of : Ended → World
world_of (panic w) = w
world_of (returned r w) = w

abbrev pub result_of : Ended → Option (Option ℕ)
result_of (panic w) = none
result_of (returned r w) = some r

-- Whether the next `n` calls succeed.
abbrev pub succeed : ℕ → List (Option ℕ) → Bool
succeed zero l = true
succeed (suc n) [] = true
succeed (suc n) (none ∷ l) = succeed n l
succeed (suc n) (some e ∷ l) = false

abbrev pub fresh : List (Option ℕ) → World
fresh results = record {
  results = results;
  allocated = 0;
  wanted = [];
  applied = [];
  loaded = false;
  served = false;
  freed = false;
}

-- The three sets that the code sets, each with the three wanted privileges and no other; without
-- privilege sets there is none. The effective set is not one of them.
abbrev pub dropped : Bool → List (PrivSet × List Bytes)
dropped true = (permitted, privs) ∷ (limit, privs) ∷ (inheritable, privs) ∷ []
dropped false = []

-- How many calls have to succeed before the daemon serves requests.
abbrev pub needed : Bool → ℕ
needed true = 9
needed false = 2

-- What a daemon that serves requests, or does not, has done before.
abbrev pub IsReady : Bool → Bool → World → Type 0
IsReady have_priv_h true w = (w.applied ≡ dropped have_priv_h) × (w.loaded ≡ true)
IsReady have_priv_h false w = w.freed ≡ false

abbrev pub IsGuarded : Bool → List (Option ℕ) → World → Type 0
IsGuarded have_priv_h results w =
    (w.served ≡ succeed (needed have_priv_h) results)
    × IsReady have_priv_h w.served w
    × (w.freed ≡ succeed (suc (needed have_priv_h)) results)
    × (w.allocated ≡ 0)

with_privs-IsGuarded :
    (results : List (Option ℕ))
    → IsGuarded true results (world_of (main_blahgd true (fresh results)))
unfolding main_blahgd
with_privs-IsGuarded [] = (refl, (refl, refl), refl, refl)
with_privs-IsGuarded (some e ∷ l) = (refl, refl, refl, refl)
with_privs-IsGuarded (none ∷ []) = (refl, (refl, refl), refl, refl)
with_privs-IsGuarded (none ∷ some e ∷ l) = (refl, refl, refl, refl)
with_privs-IsGuarded (none ∷ none ∷ []) = (refl, (refl, refl), refl, refl)
with_privs-IsGuarded (none ∷ none ∷ some e ∷ l) = (refl, refl, refl, refl)
with_privs-IsGuarded (none ∷ none ∷ none ∷ []) = (refl, (refl, refl), refl, refl)
with_privs-IsGuarded (none ∷ none ∷ none ∷ some e ∷ l) = (refl, refl, refl, refl)
with_privs-IsGuarded (none ∷ none ∷ none ∷ none ∷ []) = (refl, (refl, refl), refl, refl)
with_privs-IsGuarded (none ∷ none ∷ none ∷ none ∷ some e ∷ l) = (refl, refl, refl, refl)
with_privs-IsGuarded (none ∷ none ∷ none ∷ none ∷ none ∷ []) = (refl, (refl, refl), refl, refl)
with_privs-IsGuarded (none ∷ none ∷ none ∷ none ∷ none ∷ some e ∷ l) = (refl, refl, refl, refl)
with_privs-IsGuarded (none ∷ none ∷ none ∷ none ∷ none ∷ none ∷ []) =
    (refl, (refl, refl), refl, refl)
with_privs-IsGuarded (none ∷ none ∷ none ∷ none ∷ none ∷ none ∷ some e ∷ l) =
    (refl, refl, refl, refl)
with_privs-IsGuarded (none ∷ none ∷ none ∷ none ∷ none ∷ none ∷ none ∷ []) =
    (refl, (refl, refl), refl, refl)
with_privs-IsGuarded (none ∷ none ∷ none ∷ none ∷ none ∷ none ∷ none ∷ some e ∷ l) =
    (refl, refl, refl, refl)
with_privs-IsGuarded (none ∷ none ∷ none ∷ none ∷ none ∷ none ∷ none ∷ none ∷ []) =
    (refl, (refl, refl), refl, refl)
with_privs-IsGuarded (none ∷ none ∷ none ∷ none ∷ none ∷ none ∷ none ∷ none ∷ some e ∷ l) =
    (refl, refl, refl, refl)
with_privs-IsGuarded (none ∷ none ∷ none ∷ none ∷ none ∷ none ∷ none ∷ none ∷ none ∷ []) =
    (refl, (refl, refl), refl, refl)
with_privs-IsGuarded (none ∷ none ∷ none ∷ none ∷ none ∷ none ∷ none ∷ none ∷ none ∷ some e ∷ l) =
    (refl, (refl, refl), refl, refl)
with_privs-IsGuarded (none ∷ none ∷ none ∷ none ∷ none ∷ none ∷ none ∷ none ∷ none ∷ none ∷ l) =
    (refl, (refl, refl), refl, refl)

without_privs-IsGuarded :
    (results : List (Option ℕ))
    → IsGuarded false results (world_of (main_blahgd false (fresh results)))
unfolding main_blahgd
without_privs-IsGuarded [] = (refl, (refl, refl), refl, refl)
without_privs-IsGuarded (some e ∷ l) = (refl, refl, refl, refl)
without_privs-IsGuarded (none ∷ []) = (refl, (refl, refl), refl, refl)
without_privs-IsGuarded (none ∷ some e ∷ l) = (refl, refl, refl, refl)
without_privs-IsGuarded (none ∷ none ∷ []) = (refl, (refl, refl), refl, refl)
without_privs-IsGuarded (none ∷ none ∷ some e ∷ l) = (refl, (refl, refl), refl, refl)
without_privs-IsGuarded (none ∷ none ∷ none ∷ l) = (refl, (refl, refl), refl, refl)

-- Whatever the calls of the start return, main_blahgd serves requests exactly if the calls before
-- have succeeded: nine in a build with HAVE_PRIV_H, seven of them for the privileges, and two in a
-- build without. Then the posts are loaded, and in a build with HAVE_PRIV_H the permitted, the limit
-- and the inheritable set of the process have each been set to the three privileges that it needs
-- and no other; in a build without it no set has been set. The posts are freed exactly if serving ends
-- without an error, too. The privilege set that the start allocates is freed in every case.
pub main_blahgd-IsGuarded :
    (have_priv_h : Bool) (results : List (Option ℕ))
    → IsGuarded have_priv_h results (world_of (main_blahgd have_priv_h (fresh results)))
main_blahgd-IsGuarded true results = with_privs-IsGuarded results
main_blahgd-IsGuarded false results = without_privs-IsGuarded results
