-- ===== src/Release/Transition.antt =====
-- internal/common/release: the transitions between two tags that an operator lets happen.
use c5c3_forge.Prelude.{◌≡◌, String, true}
use c5c3_forge.Kube.Error.{ok}
use c5c3_forge.Release.{Release, parse_release, is_sequential_upgrade, is_patch_only}

-- Both tags are releases, and the second is the next one after the first.
pub record Sequential (from to : String) : Type 0 where
  pub from_release : Release
  pub to_release : Release
  pub from_parsed : parse_release from ≡ ok from_release
  pub to_parsed : parse_release to ≡ ok to_release
  pub next : is_sequential_upgrade from_release to_release ≡ true

-- A change of the recorded tag that is no upgrade: the first one, the same one, or a patch of it.
pub data Minor (from to : String) : Type 0 where
  first : from ≡ "" → Minor from to
  same_tag : to ≡ from → Minor from to
  patched :
      (a b : Release)
      → parse_release from ≡ ok a
      → parse_release to ≡ ok b
      → is_patch_only a b ≡ true
      → Minor from to
