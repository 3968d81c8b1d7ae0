-- ===== src/Examples/Password.antt =====
-- The admin password rotation of a Keystone CR: switched on before the first password, and off.
use c5c3_forge.Prelude.{
  ◌≡◌, refl, inl, inr, Bool, true, false, List, [], ◌∷◌, String, Option, none, some, pos,
  Bool-cases, str_eq, has, lookup, if◌then◌else◌, arith, subst,
}
use c5c3_forge.Kube.Error.{ok}
use c5c3_forge.Rotation.{Secret, SecretClient, completed_annotation}
use c5c3_forge.Keystone.Keys.Create.{KeysPass}
use c5c3_forge.Keystone.Password.State.{
  PasswordRotationSpec, PasswordOwner, PasswordClient, push_source_ready, validate_admin_password,
}
use c5c3_forge.Keystone.Password.Teardown.{delete_objects, teardown_password_rotation}
use c5c3_forge.Keystone.Password.{reconcile_password_rotation}
use c5c3_forge.Keystone.Password.Withheld.{PasswordGuarded, reconcile_password_rotation-Withheld}
use c5c3_forge.Keystone.Password.Disabled.{
  TeardownLaws, Removed, reconcile_password_rotation-Removed,
}
use c5c3_forge.Examples.Conditions.{meta, meta_laws}

-- A cluster is the names, or the kinds, of what is in it.
abbrev Names : Type 0
Names = List String

unfoldable without_name : String → Names → Names
without_name x [] = []
without_name x (y ∷ ys) = let rest = without_name x ys in if str_eq x y then rest else y ∷ rest

abbrev secrets : SecretClient Names
secrets = record {
  update = λ w s. ("Secret" ∷ w, none);
  delete_unchanged = λ w s. (without_name s.name w, none);
  parse_time = λ s. ok 7;
}

abbrev push_source : Secret
push_source = record { name = "keystone-admin-password-next"; annotations = []; payload = [] }

-- A CronJob has staged a password that is too short.
abbrev staging : Secret
staging = record {
  name = "keystone-admin-password-rotation";
  annotations = (completed_annotation, "2026-01-02T03:04:05Z") ∷ [];
  payload = ("password", "secret") ∷ [];
}

abbrev client : PasswordClient Names
client = record {
  secrets = secrets;
  ensure_push_source = λ w name. ("Secret" ∷ w, ok push_source);
  ensure_staging = λ w name kind. ("Secret" ∷ w, ok staging);
  ensure_rbac = λ w name. ("Role" ∷ w, none);
  ensure_script = λ w name. ("ConfigMap" ∷ w, ok name);
  ensure_cron_job = λ w script. ("CronJob" ∷ w, none);
  ensure_push_secret = λ w name. ("PushSecret" ∷ w, none);
  delete = λ w obj. (without_name obj.name w, none);
  prune_scripts = λ w base. (without_name base w, none);
}

abbrev rotation : Bool → Option PasswordRotationSpec
rotation enabled = some (record { enabled = enabled; password_length = pos 32 })

abbrev owner : Bool → PasswordOwner
owner enabled = record {
  name = "keystone";
  namespace = "openstack";
  generation = 2;
  password_rotation = rotation enabled;
}

abbrev pass : Names → KeysPass Names
pass w = record { conditions = []; events = []; ages = []; cluster = w }

has-without_name_self : (x : String) (w : Names) → has x (without_name x w) ≡ false
unfolding has without_name
has-without_name_self x [] = refl
has-without_name_self x (y ∷ ys) = elim (Bool-cases (str_eq x y)) [
  | inl e ↦ rw e (has-without_name_self x ys)
  | inr e ↦ rw (e, e) (has-without_name_self x ys)
]

has-without_name : (x y : String) (w : Names) → has y w ≡ false → has y (without_name x w) ≡ false
unfolding has without_name
has-without_name x y [] h = refl
has-without_name x y (z ∷ zs) h = elim (Bool-cases (str_eq x z)) [
  | inl e ↦ rw e (has-without_name x y zs (ground arith))
  | inr e ↦ elim (Bool-cases (str_eq y z)) [
    | inl f ↦ absurd (cc (rw f at h))
    | inr f ↦ rw (e, f) (has-without_name x y zs (rw f at h))
  ]
]

laws : TeardownLaws client (λ w obj. has obj.name w ≡ false)
laws = record {
  deleted = λ w obj e. has-without_name_self obj.name w;
  delete_keeps = λ w obj other h. has-without_name obj.name other.name w h;
  prune_keeps = λ w base obj h. has-without_name base obj.name w h;
}

abbrev before : KeysPass Names
before = pass ("keystone-admin-password-next" ∷ "keystone-db" ∷ [])

torn_down : (reconcile_password_rotation meta client (owner false) before).1.error ≡ none
unfolding reconcile_password_rotation teardown_password_rotation delete_objects
torn_down = refl

reconcile_password_rotation-Removed_example :
    Removed meta client
      (owner false)
      laws
      (reconcile_password_rotation meta client (owner false) before).0
reconcile_password_rotation-Removed_example =
    reconcile_password_rotation-Removed meta client (owner false) laws meta_laws before refl
      torn_down

-- No PushSecret is in the cluster.
abbrev NotPushed : Names → Type 0
NotPushed w = has "PushSecret" w ≡ false

guarded : PasswordGuarded client 32 NotPushed
unfolding has
guarded = record {
  commit = record {
    valid = λ w s v h. h;
    empty = λ w s n e h. h;
    delete = λ w s n h. has-without_name s.name "PushSecret" w h;
  };
  ensure_push_source = λ w n h. h;
  ensure_staging = λ w n l h. h;
  ensure_rbac = λ w n h. h;
  ensure_script = λ w n h. h;
  ensure_cron_job = λ w n h. h;
}

unready :
    (s : Secret)
    → (client.ensure_push_source [] "keystone-admin-password-next").1 ≡ ok s
    → push_source_ready s 32 ≡ false
unfolding validate_admin_password lookup
unready s e = subst (λ t. push_source_ready t 32 ≡ false) same_secret refl
  where
    same_secret : push_source ≡ s
    same_secret = cc e

nothing_pushed : NotPushed []
unfolding has
nothing_pushed = refl

reconcile_password_rotation-Withheld_example :
    NotPushed (reconcile_password_rotation meta client (owner true) (pass [])).0.cluster
reconcile_password_rotation-Withheld_example =
    reconcile_password_rotation-Withheld meta client (owner true) guarded (pass []) refl unready
      nothing_pushed
