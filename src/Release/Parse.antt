-- ===== src/Release/Parse.antt =====
-- internal/common/release/release.go, ParseRelease: the tags that it accepts.
use Prim.Native.Char.{code}
use Prim.Native.String.{◌++◌ as str_append}
use c5c3_forge.Prelude.{
  ℕ, ◌≤◌, ◌≡◌, ◌≢◌, refl, ◌⊎◌, inl, inr, List, [], ◌∷◌, String, ℤ, pos, negsuc, arith, Bool-cases,
  str_eq, str_eq_ne, ap, ◌∙◌, ltb,
}
use text.Mathlib.TextLemmas.{
  nil-append, cons-append, append-nil, cons-ne-nil, append-ne-nil_of_right_ne-nil,
}
use c5c3_forge.Kube.Error.{Answer, ok, err}
use c5c3_forge.Release.Atoi.{atoi}
use c5c3_forge.Release.Order.{IsValid}
use c5c3_forge.Release.{Release, cut, split, minor_of, year_of, parts_of, parse_release}

-- What the tag of an accepted release looks like.
pub record Reads (tag : String) (r : Release) : Type 0 where
  pub valid : IsValid r
  pub raw : r.raw ≡ tag
  pub patch : r.patch ≡ (cut b'-' tag).1

module _ (tag patch : String) where
  minor_of_sound :
      (year : ℕ) (a : Answer ℤ) {r : Release}
      → 2010 ≤ year
      → minor_of tag patch year a ≡ ok r
      → IsValid r × (r.raw ≡ tag) × (r.patch ≡ patch)
  unfolding minor_of
  minor_of_sound year (err e) h k = cc
  minor_of_sound year (ok (negsuc n)) h k = cc
  minor_of_sound year (ok (pos n)) h k = ground arith

  year_of_sound :
      (minor : String) (a : Answer ℤ) {r : Release}
      → year_of tag patch minor a ≡ ok r
      → IsValid r × (r.raw ≡ tag) × (r.patch ≡ patch)
  unfolding year_of
  year_of_sound minor (err e) k = cc
  year_of_sound minor (ok (negsuc n)) k = cc
  year_of_sound minor (ok (pos n)) k = elim (Bool-cases (ltb n 2010)) [
    | inl e ↦ cc (k, e)
    | inr e ↦ minor_of_sound n (atoi minor) (ground arith) (rw e at k)
  ]

  parts_of_sound :
      (parts : List String) {r : Release}
      → parts_of tag patch parts ≡ ok r
      → IsValid r × (r.raw ≡ tag) × (r.patch ≡ patch)
  unfolding parts_of
  parts_of_sound [] k = cc
  parts_of_sound (y ∷ []) k = cc
  parts_of_sound (y ∷ n ∷ []) k = year_of_sound n (atoi y) k
  parts_of_sound (y ∷ n ∷ p ∷ ps) k = cc

-- An accepted tag gives a release of 2010 or later whose minor is 1 or 2, which keeps the tag and
-- what stands behind the tag's first dash.
pub parse_release_sound : (tag : String) {r : Release} → parse_release tag ≡ ok r → Reads tag r
unfolding parse_release
parse_release_sound tag h = elim (Bool-cases (str_eq tag "")) [
  | inl e ↦ absurd (ground arith)
  | inr e ↦
      let (v, raw, patch) = parts_of_sound tag _ _ (rw e at h) in
      record { valid = v; raw = raw; patch = patch }
]

-- A text without a character.
abbrev pub Lacks : ℕ → String → Type 0
Lacks sep String.[] = Unit {0}
Lacks sep (String.◌∷◌ c s) = (code c ≢ sep) × Lacks sep s

pub cut-append :
    (sep : ℕ) (p rest : String)
    → Lacks sep p
    → cut sep (str_append p rest) ≡ (str_append p (cut sep rest).0, (cut sep rest).1)
unfolding cut
cut-append sep String.[] rest h = rw (nil-append, nil-append) refl
cut-append sep (String.◌∷◌ c p) rest h =
    rw (cons-append, cons-append) (ground (arith, cut-append sep p rest h.1))

cut_at_sep : (s : String) → cut b'-' (str_append "-" s) ≡ ("", s)
unfolding cut
cut_at_sep s = rw (cons-append, nil-append) refl

split_single : (sep : ℕ) (p : String) → Lacks sep p → split sep p ≡ p ∷ []
unfolding split
split_single sep String.[] h = refl
split_single sep (String.◌∷◌ c p) h = ground (arith, split_single sep p h.1)

split-append :
    (p rest : String)
    → Lacks b'.' p
    → split b'.' (str_append p (str_append "." rest)) ≡ p ∷ split b'.' rest
unfolding split
split-append String.[] rest h = rw (nil-append, cons-append, nil-append) refl
split-append (String.◌∷◌ c p) rest h = rw cons-append (ground (arith, split-append p rest h.1))

str_append-Lacks : (sep : ℕ) (p q : String) → Lacks sep p → Lacks sep q → Lacks sep (str_append p q)
str_append-Lacks sep String.[] q h k = rw nil-append k
str_append-Lacks sep (String.◌∷◌ c p) q h k = rw cons-append (h.0, str_append-Lacks sep p q h.1 k)

-- The base of a tag, YYYY.N.
abbrev pub base_of : String → String → String
base_of y n = str_append y (str_append "." n)

parts_of_base :
    (tag patch y n : String) {year minor : ℕ}
    → Lacks b'.' y
    → Lacks b'.' n
    → atoi y ≡ ok (pos year)
    → atoi n ≡ ok (pos minor)
    → 2010 ≤ year
    → (minor ≡ 1) ⊎ (minor ≡ 2)
    → parts_of tag patch (split b'.' (base_of y n))
      ≡ ok (record { year = year; minor = minor; patch = patch; raw = tag })
unfolding parts_of
parts_of_base tag patch y n hy hn ay an late m =
    rw (split-append y n hy, split_single b'.' n hn) (ground arith)

cut_tag :
    (base patch : String)
    → Lacks b'-' base
    → cut b'-' (str_append base (str_append "-" patch)) ≡ (base, patch)
cut_tag base patch h =
    cut-append b'-' base (str_append "-" patch) h
    ∙ ap (λ (q : String × String). (str_append base q.0, q.1)) (cut_at_sep patch)
    ∙ ap (λ b. (b, patch)) (append-nil base)

tag-ne-nil : (base patch : String) → str_append base (str_append "-" patch) ≢ ""
tag-ne-nil base patch = append-ne-nil_of_right_ne-nil base dash-ne-nil
  where
    dash-ne-nil : str_append "-" patch ≢ ""
    dash-ne-nil = rw (cons-append, nil-append) (cons-ne-nil _ patch)

-- A tag YYYY.N-PATCH whose year and minor read as numbers in range is accepted, and every part of
-- it is read back: the base ends at the first dash, and the dots behind it do not matter.
pub parse_release_complete :
    (y n patch : String) {year minor : ℕ}
    → Lacks b'.' y
    → Lacks b'-' y
    → Lacks b'.' n
    → Lacks b'-' n
    → atoi y ≡ ok (pos year)
    → atoi n ≡ ok (pos minor)
    → 2010 ≤ year
    → (minor ≡ 1) ⊎ (minor ≡ 2)
    → let tag = str_append (base_of y n) (str_append "-" patch) in
      parse_release tag ≡ ok (record { year = year; minor = minor; patch = patch; raw = tag })
unfolding parse_release
parse_release_complete y n patch y_dot y_dash n_dot n_dash ay an late m =
    let base = base_of y n in
    let tag = str_append base (str_append "-" patch) in
    let no_dash : Lacks b'-' base =
      str_append-Lacks b'-' y _ y_dash
        (str_append-Lacks b'-' "." n ((λ e. omega arith), tt) n_dash) in
    rw (str_eq_ne (tag-ne-nil base patch))
      (rw (cut_tag base patch no_dash) (parts_of_base tag patch y n y_dot n_dot ay an late m))
