-- ===== src/Release.antt =====
-- internal/common/release: OpenStack release tags and the classes of a release transition. Years
-- and minors are Go ints; a parsed one is never negative, so the record keeps them as ℕ, and
-- `Year+1` does not reach the end of int64 in a comparison with another year.
pub mod Atoi
pub mod Parse
pub mod Order
pub mod Transition
use Prim.Native.Char.{Char, code}
use c5c3_forge.Prelude.{
  ℕ, ◌+◌, ◌≡◌, refl, Bool, true, false, not, ◌&&◌, ◌||◌, List, [], ◌∷◌, String, Option, none, some,
  ℤ, pos, negsuc, ltb, ◌==◌, str_eq, if◌then◌else◌,
}
use c5c3_forge.Kube.Text.{concat, quote}
use c5c3_forge.Kube.Error.{Error, Answer, ok, err, plain, wrap}
use Atoi.{atoi, decimal}

-- Release.
pub record Release : Type 0 where
  pub year : ℕ
  pub minor : ℕ
  pub patch : String
  pub raw : String

abbrev cons_before : Char → String × String → String × String
cons_before c (before, after) = (String.◌∷◌ c before, after)

-- strings.Cut at the first separator, with "" for the part behind it where there is none.
unfoldable pub cut : ℕ → String → String × String
cut sep String.[] = ("", "")
cut sep (String.◌∷◌ c s) =
    let rest = cut sep s in if code c == sep then ("", s) else cons_before c rest

abbrev pub cons_part : Char → List String → List String
cons_part c [] = String.◌∷◌ c String.[] ∷ []
cons_part c (p ∷ ps) = String.◌∷◌ c p ∷ ps

-- strings.Split at a separator of one byte.
unfoldable pub split : ℕ → String → List String
split sep String.[] = "" ∷ []
split sep (String.◌∷◌ c s) =
    let rest = split sep s in if code c == sep then "" ∷ rest else cons_part c rest

-- fmt's %d.
abbrev show_int : ℤ → String
show_int (pos n) = decimal n
show_int (negsuc n) = concat ("-" ∷ decimal (n + 1) ∷ [])

minor_of : String → String → ℕ → Answer ℤ → Answer Release
minor_of tag patch year (err e) =
    err (wrap (concat ("invalid release minor version in " ∷ quote tag ∷ ": " ∷ [])) e)
minor_of tag patch year (ok (negsuc n)) = err (
    plain (
      concat (
        "invalid release minor version "
        ∷ show_int (negsuc n)
        ∷ " in "
        ∷ quote tag
        ∷ ": must be 1 or 2"
        ∷ [])))
minor_of tag patch year (ok (pos n)) =
    if not (n == 1) && not (n == 2)
    then err (
        plain (
          concat (
            "invalid release minor version "
            ∷ show_int (pos n)
            ∷ " in "
            ∷ quote tag
            ∷ ": must be 1 or 2"
            ∷ [])))
    else ok (record { year = year; minor = n; patch = patch; raw = tag })

early_year : String → ℤ → Answer Release
early_year tag n = err (
    plain (
      concat
        ("invalid release year " ∷ show_int n ∷ " in " ∷ quote tag ∷ ": must be >= 2010" ∷ [])))

year_of : String → String → String → Answer ℤ → Answer Release
unfolding minor_of early_year
year_of tag patch minor (err e) =
    err (wrap (concat ("invalid release year in " ∷ quote tag ∷ ": " ∷ [])) e)
year_of tag patch minor (ok (negsuc n)) = early_year tag (negsuc n)
year_of tag patch minor (ok (pos n)) =
    if ltb n 2010 then early_year tag (pos n) else minor_of tag patch n (atoi minor)

bad_format : String → Answer Release
bad_format tag =
    err (plain (concat ("invalid release format " ∷ quote tag ∷ ": expected YYYY.N" ∷ [])))

-- The test len(parts) != 2, and what follows it.
parts_of : String → String → List String → Answer Release
unfolding year_of bad_format
parts_of tag patch [] = bad_format tag
parts_of tag patch (y ∷ []) = bad_format tag
parts_of tag patch (y ∷ n ∷ []) = year_of tag patch n (atoi y)
parts_of tag patch (y ∷ n ∷ p ∷ ps) = bad_format tag

-- ParseRelease.
unfoldable pub parse_release : String → Answer Release
unfolding parts_of cut split
parse_release tag =
    if str_eq tag ""
    then err (plain "empty release tag")
    else let (base, patch) = cut b'-' tag in parts_of tag patch (split b'.' base)

-- IsSequentialUpgrade.
unfoldable pub is_sequential_upgrade : Release → Release → Bool
is_sequential_upgrade from to =
    if from.year == to.year && from.minor == 1 && to.minor == 2
    then true
    else if to.year == from.year + 1 && from.minor == 2 && to.minor == 1
    then true
    else false

-- IsDowngrade.
unfoldable pub is_downgrade : Release → Release → Bool
is_downgrade from to = ltb to.year from.year || (to.year == from.year && ltb to.minor from.minor)

-- IsPatchOnly.
unfoldable pub is_patch_only : Release → Release → Bool
is_patch_only from to = from.year == to.year && from.minor == to.minor
