-- ===== src/Kube/Error.antt =====
-- Go errors as values. The API server's errors carry a machine-readable reason, which
-- apierrors.IsNotFound and its kin read through fmt.Errorf's %w and errors.Join.
use c5c3_forge.Prelude.{
  if◌then◌else◌, ◌≡◌, refl, Bool, true, false, Option, none, some, [], ◌∷◌, String,
}
use c5c3_forge.Kube.Text.{concat}

-- The reasons that the code tells apart.
pub data ApiReason : Type 0 where
  not_found already_exists conflict invalid other_reason : ApiReason
  -- meta.NoKindMatchError: the kind's CRD is not installed.
  no_match : ApiReason

pub data Error : Type 0 where
  -- An error of the API server, or of a library that talks to it.
  api : ApiReason → String → Error
  -- fmt.Errorf with no %w.
  plain : String → Error
  -- fmt.Errorf("<text>%w", err).
  wrap : String → Error → Error
  -- fmt.Errorf("%w: <text>", ErrJobFailed), for the sentinel of internal/common/job.
  job_failed : String → Error
  -- errors.Join of two errors that are not nil.
  join : Error → Error → Error

-- err.Error().
unfoldable pub message : Error → String
unfolding concat
message (api r m) = m
message (plain m) = m
message (wrap p e) = concat (p ∷ message e ∷ [])
message (job_failed m) = concat ("job has permanently failed: " ∷ m ∷ [])
message (join e f) = concat (message e ∷ "\n" ∷ message f ∷ [])

abbrev or_else : Option ApiReason → Option ApiReason → Option ApiReason
or_else none r = r
or_else (some a) r = some a

-- The reason that errors.As finds first.
unfoldable pub reason_of : Error → Option ApiReason
reason_of (api r m) = some r
reason_of (plain m) = none
reason_of (wrap p e) = reason_of e
reason_of (job_failed m) = none
reason_of (join e f) = or_else (reason_of e) (reason_of f)

abbrev names_not_found : Option ApiReason → Bool
names_not_found (some not_found) = true
names_not_found _ = false

abbrev names_already_exists : Option ApiReason → Bool
names_already_exists (some already_exists) = true
names_already_exists _ = false

abbrev names_conflict : Option ApiReason → Bool
names_conflict (some conflict) = true
names_conflict _ = false

abbrev names_invalid : Option ApiReason → Bool
names_invalid (some invalid) = true
names_invalid _ = false

abbrev names_no_match : Option ApiReason → Bool
names_no_match (some no_match) = true
names_no_match _ = false

-- meta.IsNoMatchError.
abbrev pub is_no_match : Error → Bool
is_no_match e = names_no_match (reason_of e)

abbrev pub is_not_found : Error → Bool
is_not_found e = names_not_found (reason_of e)

abbrev pub is_already_exists : Error → Bool
is_already_exists e = names_already_exists (reason_of e)

abbrev pub is_conflict : Error → Bool
is_conflict e = names_conflict (reason_of e)

abbrev pub is_invalid : Error → Bool
is_invalid e = names_invalid (reason_of e)

-- errors.Join of an error that may be nil and one that is not.
abbrev pub join_with : Option Error → Error → Error
join_with none f = f
join_with (some e) f = join e f

-- A value or an error, as a Go function that returns `(value, err)` answers.
pub data Answer {ℓ} (A : Type ℓ) : Type ℓ where
  ok : A → Answer A
  err : Error → Answer A

infixl 5 ◌>>=◌
abbrev pub ◌>>=◌ {ℓ κ} : {A : Type ℓ} {B : Type κ} → Answer A → (A → Answer B) → Answer B
ok a >>= f = f a
err e >>= f = err e

wrapped_reason : is_not_found (wrap "getting Job a/b: " (api not_found "gone")) ≡ true
unfolding reason_of
wrapped_reason = refl

-- client.IgnoreNotFound.
abbrev pub ignore_not_found : Option Error → Option Error
ignore_not_found none = none
ignore_not_found (some e) = if is_not_found e then none else some e

-- What follows a call that answers: the rest, or an error.
pub on_answer :
    {A R : Type 0} (Q : R → Type 0) (rest : A → R) (failed : Error → R) (a : Answer A)
    → ((x : A) → a ≡ ok x → Q (rest x))
    → ((e : Error) → Q (failed e))
    → Q (elim a as (λ _. R) [ err e ↦ failed e | ok x ↦ rest x ])
on_answer Q rest failed (ok x) go stop = go x refl
on_answer Q rest failed (err e) go stop = stop e
