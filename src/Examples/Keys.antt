-- ===== src/Examples/Keys.antt =====
-- The Fernet keys of a Keystone CR, with a rotation that its CronJob has staged.
use Prim.Native.String.{len}
use c5c3_forge.Prelude.{
  ◌≡◌, ◌∙◌, sym, ap, ◌⊎◌, ◌↔◌, refl, inl, inr, true, List, [], ◌∷◌, String, none, pos, All,
  Distinct, lookup, has, insert, ◌==◌, if◌then◌else◌, length,
}
use c5c3_forge.Kube.Text.{concat}
use c5c3_forge.Kube.Error.{ok, err, plain}
use c5c3_forge.Rotation.{
  Secret, SecretClient, CommitSpec, Commit, completed_annotation, entries_in, equal_data,
  commit_staged, delete_staging,
}
use c5c3_forge.Rotation.Once.{key_list, commit_staged_once}
use c5c3_forge.Keystone.Keys.Create.{Flavour, KeysOwner, KeysClient, KeysPass}
use c5c3_forge.Keystone.Keys.{staging_secret_name, fernet_keys, rotation_spec, reconcile_keys}
use c5c3_forge.Keystone.Keys.Format.{
  Decoder, place, sorted, format_errors, duplicate_of, duplicates, validate_rotation_output,
}
use c5c3_forge.Keystone.Keys.Format.Contract.{IsKeySet, validate_rotation_output_iff}
use c5c3_forge.Keystone.Keys.Valid.{KeysGuarded, reconcile_keys-Guarded}
use c5c3_forge.Examples.Conditions.{meta}

-- The Secrets that were written.
abbrev Written : Type 0
Written = List Secret

abbrev decoder : Decoder
decoder = record { decode = λ s. if len s == 44 then ok 32 else err (plain "illegal base64 data") }

abbrev key_a : String
key_a = "AAAAAAAAAAAAAAAAAAAAAAAAAAAAAAAAAAAAAAAAAAA="

abbrev key_b : String
key_b = "BBBBBBBBBBBBBBBBBBBBBBBBBBBBBBBBBBBBBBBBBBB="

abbrev key_c : String
key_c = "CCCCCCCCCCCCCCCCCCCCCCCCCCCCCCCCCCCCCCCCCCC="

abbrev staged_keys : List (String × String)
staged_keys = ("0", key_a) ∷ ("1", key_b) ∷ ("2", key_c) ∷ []

abbrev staged : Secret
staged = record {
  name = "keystone-fernet-keys-rotation";
  annotations = (completed_annotation, "2026-01-02T03:04:05Z") ∷ [];
  payload = staged_keys;
}

abbrev production : Secret
production = record {
  name = "keystone-fernet-keys";
  annotations = [];
  payload = ("0", key_b) ∷ ("1", key_c) ∷ ("2", key_a) ∷ [];
}

abbrev secrets : SecretClient Written
secrets = record {
  update = λ w s. (s ∷ w, none);
  delete_unchanged = λ w s. (w, none);
  parse_time = λ s. ok 7;
}

abbrev client : KeysClient Written
client = record {
  secrets = secrets;
  get_secret = λ w namespace name. ok production;
  create_secret = λ w s. (w, none);
  owned = λ s. ok s;
  random_key = λ w. (w, ok key_a);
  ensure_staging = λ w name label. (w, ok staged);
  ensure_rbac = λ w name. (w, none);
  ensure_script = λ w name. (w, ok name);
  ensure_cron_job = λ w script. (w, none);
  ensure_push_secret = λ w name. (w, none);
}

abbrev owner : KeysOwner
owner = record { name = "keystone"; namespace = "openstack"; generation = 2 }

abbrev flavour : Flavour
flavour = fernet_keys (pos 3)

abbrev spec : CommitSpec
spec = rotation_spec meta client decoder owner flavour

abbrev commit : Commit Written
commit = record { staging = staged; target = production; events = []; cluster = [] }

staged-Distinct : Distinct (key_list staged_keys)
unfolding has
staged-Distinct = (refl, (refl, (refl, tt)))

applied : (commit_staged secrets spec commit).1 ≡ ok true
unfolding commit_staged validate_rotation_output format_errors duplicates duplicate_of sorted place
    equal_data entries_in lookup length insert
applied = refl

commit_staged_once_example :
    commit_staged secrets spec (commit_staged secrets spec commit).0
    ≡ delete_staging secrets spec true (commit_staged secrets spec commit).0
commit_staged_once_example = commit_staged_once secrets spec commit staged-Distinct applied

validate_rotation_output_iff_example :
    (validate_rotation_output decoder staged_keys 3 4 ≡ none) ↔ IsKeySet decoder staged_keys 3 4
validate_rotation_output_iff_example =
    validate_rotation_output_iff decoder staged_keys 3 4 staged-Distinct

-- Every Secret that was written holds accepted keys, or is the staging Secret with none.
abbrev OnlyKeys : Written → Type 0
OnlyKeys = All (λ s.
    (spec.validate s.payload ≡ none)
    ⊎ ((s.name ≡ "keystone-fernet-keys-rotation") × (s.payload ≡ [])))

-- The staging Secret, under the name that was asked for.
abbrev named_client : KeysClient Written
named_client = record client {
  ensure_staging = λ w name label. (w, ok (record staged { name = name }));
}

staging_text :
    staging_secret_name meta named_client decoder owner flavour ≡ "keystone-fernet-keys-rotation"
unfolding concat
staging_text = refl

staged_name : (n : String) (s : Secret) → ok (record staged { name = n }) ≡ ok s → s.name ≡ n
staged_name n s e = sym (ap (λ t. t.name) (same e))
  where
    same : {a b : Secret} → ok a ≡ ok b → a ≡ b
    same h = cc h

guarded : KeysGuarded meta named_client decoder owner flavour OnlyKeys
guarded = record {
  commit = record {
    valid = λ w s v h. (inl v, h);
    empty = λ w s n e h. (inr (n ∙ staging_text, e), h);
    delete = λ w s n h. h;
  };
  staging_name = λ w n l s e. staged_name n s e;
  create_secret = λ w s h. h;
  random_key = λ w h. h;
  ensure_staging = λ w n l h. h;
  ensure_rbac = λ w n h. h;
  ensure_script = λ w n h. h;
  ensure_cron_job = λ w n h. h;
  ensure_push_secret = λ w n h. h;
}

abbrev keys_pass : KeysPass Written
keys_pass = record { conditions = []; events = []; ages = []; cluster = [] }

reconcile_keys-Guarded_example :
    OnlyKeys (reconcile_keys meta named_client decoder owner flavour keys_pass).0.cluster
reconcile_keys-Guarded_example =
    reconcile_keys-Guarded meta named_client decoder owner flavour guarded keys_pass tt
