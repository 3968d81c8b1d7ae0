-- ===== src/Examples/Release.antt =====
-- Release tags at work.
use Prim.Native.String.{◌++◌ as str_append}
use c5c3_forge.Prelude.{◌+◌, ◌<◌, ◌≡◌, refl, ◌↔◌, inr, true, arith}
use c5c3_forge.Kube.Error.{ok}
use c5c3_forge.Release.{Release, parse_release, is_sequential_upgrade, is_downgrade, is_patch_only}
use c5c3_forge.Release.Atoi.{atoi}
use c5c3_forge.Release.Order.{ordinal, transition_iff}
use c5c3_forge.Release.Parse.{Reads, base_of, parse_release_sound, parse_release_complete}

abbrev autumn : Release
autumn = record { year = 2024; minor = 2; patch = "p1"; raw = "2024.2-p1" }

abbrev spring : Release
spring = record { year = 2025; minor = 1; patch = ""; raw = "2025.1" }

autumn_parsed : parse_release "2024.2-p1" ≡ ok autumn
unfolding parse_release atoi
autumn_parsed = refl

parse_release_sound_example : Reads "2024.2-p1" autumn
parse_release_sound_example = parse_release_sound "2024.2-p1" autumn_parsed

transition_iff_example :
    ((is_sequential_upgrade autumn spring ≡ true) ↔ (ordinal spring ≡ ordinal autumn + 1))
    × ((is_downgrade autumn spring ≡ true) ↔ (ordinal spring < ordinal autumn))
    × ((is_patch_only autumn spring ≡ true) ↔ (ordinal spring ≡ ordinal autumn))
transition_iff_example =
    transition_iff autumn spring
      (record { year = omega arith; minor_from = omega arith; minor_to = omega arith })
      (record { year = omega arith; minor_from = omega arith; minor_to = omega arith })

parse_release_complete_example :
    let tag = str_append (base_of "2024" "2") (str_append "-" "p.1") in
    parse_release tag ≡ ok (record { year = 2024; minor = 2; patch = "p.1"; raw = tag })
unfolding atoi
parse_release_complete_example =
    parse_release_complete "2024" "2" "p.1"
      ((λ e. omega arith), ((λ e. omega arith), ((λ e. omega arith), ((λ e. omega arith), tt))))
      ((λ e. omega arith), ((λ e. omega arith), ((λ e. omega arith), ((λ e. omega arith), tt))))
      ((λ e. omega arith), tt) ((λ e. omega arith), tt) refl refl (omega arith) (inr refl)
