-- ===== src/Daemon/Tests.antt =====
-- Examples for the start of the daemon.
use blahgd.Prelude.{true, [], ◌∷◌, none, some}
use blahgd.Daemon.{main_blahgd}
use blahgd.Daemon.Start.{fresh, world_of, IsGuarded, main_blahgd-IsGuarded}

-- The second privilege cannot be added.
main_blahgd-IsGuarded_example :
    IsGuarded true
      (none ∷ none ∷ some 22 ∷ [])
      (world_of (main_blahgd true (fresh (none ∷ none ∷ some 22 ∷ []))))
main_blahgd-IsGuarded_example = main_blahgd-IsGuarded true (none ∷ none ∷ some 22 ∷ [])
