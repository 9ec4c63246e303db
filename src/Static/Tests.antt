-- ===== src/Static/Tests.antt =====
-- Examples for the static files.
use blahgd.Prelude.{refl, some, codes, bytes_eq}
use blahgd.Utils.DotDot.{hasdotdot}
use blahgd.Static.{get_uri_type, blahg_static}
use blahgd.Static.Laws.{IsServed, blahg_static-IsServed}

blahg_static-IsServed_example :
    IsServed
      (codes "web")
      (λ p. some (codes "x"))
      (codes "/style.css")
      (blahg_static (codes "web") (λ p. some (codes "x")) (codes "/style.css"))
unfolding get_uri_type hasdotdot bytes_eq
blahg_static-IsServed_example =
    blahg_static-IsServed (codes "web") (λ p. some (codes "x")) (codes "/style.css") refl
