-- ===== src/Database/Finalize.antt =====
-- internal/common/database/finalize.go: the deletion of the MariaDB resources of a CR.
pub mod Settled
use c5c3_forge.Prelude.{Bool, true, false, List, [], ◌∷◌, String, Option, none, some, if◌then◌else◌}
use c5c3_forge.Kube.Text.{concat}
use c5c3_forge.Kube.Error.{Error, Answer, ok, err, wrap, is_not_found, ignore_not_found}

-- The kinds of resourceCtors, and PushSecrets, which the Keystone operator deletes likewise.
pub data ResourceKind : Type 0 where
  database user grant push_secret : ResourceKind

-- What Get answers of an object: whether its DeletionTimestamp is set, and its finalizers.
pub record Found : Type 0 where
  pub terminating : Bool
  pub finalizers : List String

-- Get and Delete, by the namespace and the name.
pub record ResourceClient (W : Type 0) : Type 0 where
  pub get : W → ResourceKind → String → String → Answer Found
  pub delete : W → ResourceKind → String → String → W × Option Error

-- resourceCtors.
abbrev pub resource_ctors : List ResourceKind
resource_ctors = database ∷ user ∷ grant ∷ []

-- `%T`.
abbrev kind_text : ResourceKind → String
kind_text database = "*v1alpha1.Database"
kind_text user = "*v1alpha1.User"
kind_text grant = "*v1alpha1.Grant"
kind_text push_secret = "*v1alpha1.PushSecret"

abbrev about_resource : String → ResourceKind → String → String → String
about_resource doing kind namespace name =
    concat (doing ∷ kind_text kind ∷ " " ∷ namespace ∷ "/" ∷ name ∷ ": " ∷ [])

module _ {W : Type 0} (client : ResourceClient W) (namespace name : String) where
  -- The loop of FinalizeResources.
  unfoldable pub delete_kinds : List ResourceKind → W → W × Option Error
  delete_kinds [] w = (w, none)
  delete_kinds (kind ∷ kinds) w =
      let (w', a) = client.delete w kind namespace name in
      elim (ignore_not_found a) [
        | none ↦ delete_kinds kinds w'
        | some e ↦ (w', some (wrap (about_resource "deleting " kind namespace name) e))
      ]

  -- FinalizeResources.
  abbrev pub finalize_resources : W → W × Option Error
  finalize_resources w = delete_kinds resource_ctors w

  abbrev pub live_or : ResourceKind → Answer Bool → Answer Found → Answer Bool
  live_or kind rest (ok found) = if found.terminating then rest else ok true
  live_or kind rest (err e) =
      if is_not_found e then rest else err (wrap (about_resource "checking " kind namespace name) e)

  -- The loop of HasLiveResources.
  unfoldable pub live_kinds : List ResourceKind → W → Answer Bool
  live_kinds [] w = ok false
  live_kinds (kind ∷ kinds) w = live_or kind (live_kinds kinds w) (client.get w kind namespace name)

  -- HasLiveResources.
  abbrev pub has_live_resources : W → Answer Bool
  has_live_resources w = live_kinds resource_ctors w
