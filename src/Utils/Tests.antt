-- ===== src/Utils/Tests.antt =====
-- Examples for the path and string helpers.
use blahgd.Prelude.{◌≡◌, refl, true, false, any, codes}
use blahgd.Utils.DotDot.{hasdotdot, components, is_dotdot, hasdotdot-components}

hasdotdot_tests : (hasdotdot (codes "/a/../b") ≡ true) × (hasdotdot (codes "/a..b/...") ≡ false)
unfolding hasdotdot
hasdotdot_tests = (refl, refl)

hasdotdot-components_example :
    hasdotdot (codes "/a/../b") ≡ any is_dotdot (components (codes "/a/../b"))
hasdotdot-components_example = hasdotdot-components (codes "/a/../b")
