-- ===== src/Rotation.antt =====
-- internal/common/rotation/rotation.go: the commit of what a rotation CronJob staged in a Secret of
-- its own onto the Secret that the operator owns. A Secret's data (`payload`) are a Go map from keys to bytes.
pub mod Once
pub mod Guard
pub mod Target
use c5c3_forge.Prelude.{
  ℕ, Bool, true, false, not, ◌&&◌, ◌||◌, ◌==◌, List, [], ◌∷◌, ◌++◌, String, Option, none, some,
  str_eq, lookup, insert, length, if◌then◌else◌,
}
use c5c3_forge.Kube.Text.{concat}
use c5c3_forge.Kube.Error.{Error, Answer, ok, err, wrap, message, is_not_found, is_conflict}
use c5c3_forge.Job.{or_empty}
use c5c3_forge.Database.Flow.{EventType, Event, normal, warning}

pub record Secret : Type 0 where
  pub name : String
  pub annotations : List (String × String)
  pub payload : List (String × String)

-- The client: `delete_unchanged` is a Delete with the UID and the resource version of the Secret as
-- preconditions. `parse_time` is time.Parse of an RFC 3339 text.
pub record SecretClient (W : Type 0) : Type 0 where
  pub update : W → Secret → W × Option Error
  pub delete_unchanged : W → Secret → W × Option Error
  pub parse_time : String → Answer ℕ

-- CompletedAnnotation.
abbrev pub completed_annotation : String
completed_annotation = "forge.c5c3.io/rotation-completed-at"

abbrev pub annotation_of : Secret → String
annotation_of s = or_empty (lookup completed_annotation s.annotations)

-- delete(m, key).
unfoldable pub without : String → List (String × String) → List (String × String)
without key [] = []
without key (entry ∷ entries) =
    let rest = without key entries in if str_eq entry.0 key then rest else entry ∷ rest

abbrev same_value : String → Option String → Bool
same_value v none = false
same_value v (some u) = str_eq v u

unfoldable pub entries_in : List (String × String) → List (String × String) → Bool
entries_in [] n = true
entries_in (entry ∷ entries) n = same_value entry.1 (lookup entry.0 n) && entries_in entries n

-- maps.EqualFunc(m, n, bytes.Equal).
unfoldable pub equal_data : List (String × String) → List (String × String) → Bool
equal_data m n = (length m == length n) && entries_in m n

-- CommitSpec.
pub record CommitSpec : Type 0 where
  pub target_noun : String
  pub validate : List (String × String) → Option Error
  pub clear_staging_on_reject : Bool
  pub annotation_invalid_reason : String
  pub rejected_reason : String
  pub applied_reason : String
  pub applied_message : String → List (String × String) → String

-- The two Secrets in memory, the events, and the cluster.
pub record Commit (W : Type 0) : Type 0 where
  pub staging : Secret
  pub target : Secret
  pub events : List Event
  pub cluster : W

module _ {W : Type 0} (client : SecretClient W) where
  abbrev parsed : Answer ℕ → Option ℕ
  parsed (ok t) = some t
  parsed (err e) = none

  abbrev parsed_annotation : String → Option ℕ
  parsed_annotation text = if str_eq text "" then none else parsed (client.parse_time text)

  -- CompletedAt.
  unfoldable pub completed_at : Option Secret → Option ℕ
  completed_at none = none
  completed_at (some s) = parsed_annotation (annotation_of s)

  abbrev first_time : Option ℕ → Option ℕ → Option ℕ
  first_time (some t) u = some t
  first_time none u = u

  -- ObserveAge: the time that is recorded, if one is.
  unfoldable pub observe_age : Option Secret → Option Secret → Option ℕ
  observe_age main staging = first_time (completed_at main) (completed_at staging)

  module _ (spec : CommitSpec) where
    abbrev tell : EventType → String → String → Commit W → Commit W
    tell type reason message c = record c {
      events = c.events ++ record { type = type; reason = reason; message = message } ∷ [];
    }

    abbrev pub cleared : String → Option Error → Answer Bool
    cleared name none = ok false
    cleared name (some e) =
        if not (is_conflict e) && not (is_not_found e)
        then err (wrap (concat ("clearing rejected staging secret " ∷ name ∷ ": " ∷ [])) e)
        else ok false

    abbrev emptied : Secret → Secret
    emptied s = record s { annotations = without completed_annotation s.annotations; payload = [] }

    -- The payload is rejected.
    abbrev pub rejected : Commit W → Error → Commit W × Answer Bool
    rejected c e =
        let c' =
          tell warning spec.rejected_reason
            (concat ("staging secret " ∷ c.staging.name ∷ " rejected: " ∷ message e ∷ [])) c in
        if spec.clear_staging_on_reject
        then (
          record c' {
            staging = emptied c.staging;
            cluster = (client.update c.cluster (emptied c.staging)).0;
          },
          cleared c.staging.name (client.update c.cluster (emptied c.staging)).1,
        )
        else (c', ok false)

    abbrev pub already_committed : Secret → Secret → Bool
    already_committed staging target =
        equal_data target.payload staging.payload
        && str_eq (annotation_of target) (annotation_of staging)

    -- The target with the data and the annotation of the staging Secret.
    abbrev pub committed : Secret → Secret → Secret
    committed staging target = record target {
      annotations = insert completed_annotation (annotation_of staging) target.annotations;
      payload = staging.payload;
    }

    abbrev pub finished : Bool → Commit W → Commit W × Answer Bool
    finished true c = (c, ok false)
    finished false c = (
      tell normal spec.applied_reason (spec.applied_message c.staging.name c.staging.payload) c,
      ok true,
    )

    abbrev pub after_staging_delete : Bool → Commit W → W × Option Error → Commit W × Answer Bool
    after_staging_delete already c (w, none) = finished already (record c { cluster = w })
    after_staging_delete already c (w, some e) =
        if not (is_not_found e) && not (is_conflict e)
        then (
          record c { cluster = w },
          err (wrap (concat ("deleting staging secret " ∷ c.staging.name ∷ ": " ∷ [])) e),
        )
        else finished already (record c { cluster = w })

    abbrev pub delete_staging : Bool → Commit W → Commit W × Answer Bool
    delete_staging already c =
        after_staging_delete already c (client.delete_unchanged c.cluster c.staging)

    abbrev pub after_target_update : Commit W → W × Option Error → Commit W × Answer Bool
    after_target_update c (w, some e) = (
      record c { cluster = w },
      err (wrap (concat ("updating " ∷ spec.target_noun ∷ " " ∷ c.target.name ∷ ": " ∷ [])) e),
    )
    after_target_update c (w, none) = delete_staging false (record c { cluster = w })

    -- The payload is valid.
    abbrev pub accepted : Commit W → Commit W × Answer Bool
    accepted c =
        if already_committed c.staging c.target
        then delete_staging true c
        else let target = committed c.staging c.target in
          after_target_update (record c { target = target }) (client.update c.cluster target)

    abbrev pub by_validity : Commit W → Option Error → Commit W × Answer Bool
    by_validity c (some e) = rejected c e
    by_validity c none = accepted c

    abbrev pub by_time : Commit W → Answer ℕ → Commit W × Answer Bool
    by_time c (err e) = (
      tell warning spec.annotation_invalid_reason
          (concat (
            "staging secret "
            ∷ c.staging.name
            ∷ " has malformed "
            ∷ completed_annotation
            ∷ " annotation: "
            ∷ message e
            ∷ []))
          c,
      ok false,
    )
    by_time c (ok t) = by_validity c (spec.validate c.staging.payload)

    -- CommitStaged, for a staging Secret that is not nil.
    unfoldable pub commit_staged : Commit W → Commit W × Answer Bool
    commit_staged c =
        if str_eq (annotation_of c.staging) ""
        then (c, ok false)
        else by_time c (client.parse_time (annotation_of c.staging))
