-- ===== src/Daemon.antt =====
-- daemon.c: the start of the daemon, with and without privilege sets (HAVE_PRIV_H). `results` holds
-- the errors of the coming calls that may fail, in their order; past its end they succeed. The calls
-- of load_all_posts and scgisvc are two of them.
pub mod Start
mod Tests
use blahgd.Prelude.{
  ℕ, ◌+◌, ◌-◌, Bool, true, false, List, [], ◌∷◌, ◌++◌, Option, none, some, Bytes, codes,
}

pub data PrivSet : Type 0 where
  permitted limit inheritable : PrivSet

-- The privilege sets that are allocated, the one that is filled, the sets that the process has been
-- given, and how far the daemon has come.
pub record World : Type 0 where
  pub results : List (Option ℕ)
  pub allocated : ℕ
  pub wanted : List Bytes
  pub applied : List (PrivSet × List Bytes)
  pub loaded : Bool
  pub served : Bool
  pub freed : Bool

-- A result is 0 or an error; a failed ASSERT0 ends the process.
pub data Ended : Type 0 where
  panic : World → Ended
  returned : Option ℕ → World → Ended

abbrev pub call_from : List (Option ℕ) → World → Option ℕ × World
call_from [] w = (none, w)
call_from (r ∷ l) w = (r, record w { results = l })

abbrev pub call : World → Option ℕ × World
call w = call_from w.results w

abbrev pub privs : List Bytes
privs = codes "file_read" ∷ codes "file_write" ∷ codes "net_access" ∷ []

abbrev pub privsets : List PrivSet
privsets = permitted ∷ limit ∷ inheritable ∷ []

-- The loop of priv_addset.
unfoldable pub add_privs : List Bytes → World → Option ℕ × World
add_privs [] w = (none, w)
add_privs (p ∷ l) w =
    let (ret, w') = call w in
    let rest = add_privs l (record w' { wanted = w'.wanted ++ p ∷ [] }) in
    elim ret [ none ↦ rest | some e ↦ (some e, w') ]

-- The loop of setppriv.
unfoldable pub set_privs : List PrivSet → World → Option ℕ × World
set_privs [] w = (none, w)
set_privs (s ∷ l) w =
    let (ret, w') = call w in
    let rest = set_privs l (record w' { applied = w'.applied ++ (s, w'.wanted) ∷ [] }) in
    elim ret [ none ↦ rest | some e ↦ (some e, w') ]

abbrev pub and_then : Option ℕ × World → (World → Option ℕ × World) → Option ℕ × World
and_then (none, w) k = k w
and_then (some e, w) k = (some e, w)

-- priv_freeset, at err_free
abbrev pub freed_set : Option ℕ × World → Option ℕ × World
freed_set (ret, w) = (ret, record w { allocated = w.allocated - 1; wanted = [] })

abbrev pub with_set : World → World
with_set w = record w { allocated = w.allocated + 1; wanted = [] }

-- The branch of drop_privs for a system with privilege sets.
unfoldable pub with_privs : World → Option ℕ × World
unfolding add_privs set_privs
with_privs w =
    and_then (call w)
      (λ w1. freed_set (and_then (add_privs privs (with_set w1)) (set_privs privsets)))

-- Without HAVE_PRIV_H there is only a warning.
unfoldable pub drop_privs : Bool → World → Option ℕ × World
unfolding with_privs
drop_privs true w = with_privs w
drop_privs false w = (none, w)

abbrev pub ended : Option ℕ × World → (World → Ended) → Ended
ended (none, w) k = k w
ended (some e, w) k = returned (some e) w

abbrev pub asserted : Option ℕ × World → (World → Ended) → Ended
asserted (none, w) k = k w
asserted (some e, w) k = panic w

-- init_pipe_subsys and init_post_subsys only fill tables of their own.
unfoldable pub main_blahgd : Bool → World → Ended
unfolding drop_privs
main_blahgd have_priv_h w = ended (drop_privs have_priv_h w) (λ w1. asserted (call w1) (λ w2.
    ended (call w2) (λ w3.
      ended (call (record w3 { loaded = true; served = true }))
        (λ w4. returned none (record w4 { freed = true })))))
