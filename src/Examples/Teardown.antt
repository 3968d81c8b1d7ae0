-- ===== src/Examples/Teardown.antt =====
-- A ControlPlane that is being deleted, in a cluster that keeps its objects in a list.
use c5c3_forge.Prelude.{has, Member}
use c5c3_forge.Prelude.{
  ◌≡◌, refl, Bool, true, false, ◌&&◌, List, [], ◌∷◌, String, Option, none, some, ℤ, pos, str_eq,
  str_eq-cases, inl, inr, All, if◌then◌else◌,
}
use c5c3_forge.Kube.Text.{concat}
use c5c3_forge.Kube.Error.{Error, Answer, ok, err, api, not_found, reason_of}
use c5c3_forge.ControlPlane.State.{ControlPlane, dedicated_loop, dedicated_service_namespaces}
use c5c3_forge.ControlPlane.Cluster.{Kind, application_credential, kind_name, Object, Client}
use c5c3_forge.ControlPlane.Children.{
  OrcChild, orc_child_objects, orc_teardown_children, each, merge, owned_items,
  owned_service_account_children,
}
use c5c3_forge.ControlPlane.Children.Merged.{Apart, orc_teardown_children-Apart}
use c5c3_forge.ControlPlane.Children.Declared.{DeclaredChild}
use c5c3_forge.ControlPlane.Orc.{
  delete_children, remaining_children, delete_orc_resources, delete_push_secrets,
  sweep_push_secrets, delete_owned_push_secrets, is_managed_orc_child, force_remove_korc_finalizers,
  has_korc_finalizer,
}
use c5c3_forge.ControlPlane.Orc.Gentle.{Gentle}
use c5c3_forge.ControlPlane.Pass.{Tools, Pass, control_plane_orc_finalizer}
use c5c3_forge.ControlPlane.Namespaces.{teardown_dedicated_namespaces}
use c5c3_forge.ControlPlane.Namespaces.Frame.{
  DeletesOwned, Keeps, teardown_dedicated_namespaces-Keeps,
}
use c5c3_forge.ControlPlane.Cluster.{namespace_kind, is_control_plane_child}
use c5c3_forge.ControlPlane.Teardown.{reconcile_delete, only_unmanaged_left, none_managed, orphaned}
use c5c3_forge.ControlPlane.Teardown.Release.{Grounds, reconcile_delete-Grounds}
use c5c3_forge.ControlPlane.Teardown.Escape.{RemoveLaws, Ends, reconcile_delete_escapes}
use c5c3_forge.ControlPlane.Teardown.Window.{reconcile_delete-Gentle}
use c5c3_forge.Examples.Conditions.{meta}

-- The objects, those that were written, and those whose deletion was asked for.
record World : Type 0 where
  objects : List Object
  written : List Object
  gone : List Object
  -- The finalizers of the ControlPlane.
  carried : List String

abbrev is_named : Kind → String → Object → Bool
is_named kind name obj = str_eq (kind_name obj.kind) (kind_name kind) && str_eq obj.name name

unfoldable find : List Object → Kind → String → Answer Object
find [] kind name = err (api not_found "not found")
find (obj ∷ objs) kind name =
    let rest = find objs kind name in if is_named kind name obj then ok obj else rest

unfoldable of_kind : List Object → Kind → List Object
of_kind [] kind = []
of_kind (obj ∷ objs) kind =
    let rest = of_kind objs kind in
    if str_eq (kind_name obj.kind) (kind_name kind) then obj ∷ rest else rest

-- An object with finalizers stays, and is being deleted.
abbrev is_held : Object → Bool
is_held obj = elim obj.finalizers [ [] ↦ false | f ∷ fs ↦ true ]

unfoldable delete_from : List Object → Object → List Object
delete_from [] gone = []
delete_from (obj ∷ objs) gone =
    let rest = delete_from objs gone in
    if is_named gone.kind gone.name obj
    then if is_held obj then record obj { deleting = true } ∷ rest else rest
    else obj ∷ rest

unfoldable drop : List String → String → List String
drop [] f = []
drop (g ∷ gs) f = let rest = drop gs f in if str_eq f g then rest else g ∷ rest

abbrev delete_object : World → Object → World × Option Error
delete_object w obj = (record w { objects = delete_from w.objects obj; gone = obj ∷ w.gone }, none)

abbrev client : Client World
client = record {
  get = λ w kind namespace name. find w.objects kind name;
  list = λ w kind namespace. ok (of_kind w.objects kind);
  delete = delete_object;
  delete_background = delete_object;
  update = λ w obj. (record w { written = obj ∷ w.written }, none);
  update_owner = λ w fs. (record w { carried = fs }, none);
  is_controlled_by = λ obj uid. elim obj.owner [ none ↦ false | some u ↦ str_eq u uid ];
  contains_finalizer = λ fs f. has f fs;
  remove_finalizer = drop;
}

contains-drop : (fs : List String) (f : String) → has f (drop fs f) ≡ false
unfolding has drop
contains-drop [] f = refl
contains-drop (g ∷ gs) f = elim (str_eq-cases f g) [
  | inl (e, _) ↦ rw e (contains-drop gs f)
  | inr (e, _) ↦ rw (e, e) (contains-drop gs f)
]

remove_laws : RemoveLaws client (λ w. w.carried)
remove_laws = record { contains-remove = contains-drop; updated = λ w fs e. refl }

abbrev plane : ControlPlane
plane = record {
  name = "cp";
  namespace = "openstack";
  uid = "u1";
  generation = 3;
  keystone = none;
  horizon = none;
  infrastructure = none;
  admin_domain_name = "";
  service_accounts = [];
}

abbrev tools : ℤ → Tools World
tools elapsed = record {
  client = client;
  meta = meta;
  slug = record {
    to_lower = λ s. s;
    dash_runs = λ s. s;
    trim_dashes = λ s. s;
    sha256_hex = λ s. "0123456789abcdef";
  };
  elapsed = elapsed;
}

-- The credential waits for K-ORC.
abbrev credential : Object
credential = record {
  kind = application_credential;
  name = "cp-admin-app-credential";
  namespace = "openstack";
  owner = some "u1";
  labels = [];
  deleting = false;
  finalizers = "openstack.k-orc.cloud/applicationcredential" ∷ [];
  management_policy = "managed";
  remote_keys = [];
}

abbrev pass : Pass World
pass = record {
  cp = plane;
  finalizers = "c5c3.io/orc-teardown" ∷ [];
  conditions = [];
  events = [];
  cluster = record {
    objects = credential ∷ [];
    written = [];
    gone = [];
    carried = "c5c3.io/orc-teardown" ∷ [];
  };
}

-- Ten minutes, and one minute.
abbrev late : Tools World
late = tools (pos 600_000_000_000)

abbrev early : Tools World
early = tools (pos 60_000_000_000)

-- What the late pass deletes first: the credential stays, held by its finalizer.
late_remaining : delete_orc_resources client plane late.slug pass.cluster ≡ (
  record {
    objects = record credential { deleting = true } ∷ [];
    written = [];
    gone = credential ∷ [];
    carried = "c5c3.io/orc-teardown" ∷ [];
  },
  ok (record credential { deleting = true } ∷ [], true),
)
unfolding reconcile_delete delete_orc_resources orc_teardown_children owned_service_account_children
    orc_child_objects each merge has owned_items delete_children remaining_children find of_kind
    delete_from concat reason_of
late_remaining = refl

late_released :
    client.contains_finalizer (reconcile_delete late pass).0.finalizers control_plane_orc_finalizer
    ≡ false
unfolding reconcile_delete delete_orc_resources orc_teardown_children owned_service_account_children
    orc_child_objects each merge has owned_items delete_children remaining_children find of_kind
    delete_from concat reason_of delete_owned_push_secrets sweep_push_secrets delete_push_secrets
    is_managed_orc_child none_managed drop dedicated_service_namespaces dedicated_loop
    force_remove_korc_finalizers has_korc_finalizer orphaned
late_released = refl

late_ends : (reconcile_delete late pass).1.error ≡ none
unfolding reconcile_delete delete_orc_resources orc_teardown_children owned_service_account_children
    orc_child_objects each merge has owned_items delete_children remaining_children find of_kind
    delete_from concat reason_of delete_owned_push_secrets sweep_push_secrets delete_push_secrets
    is_managed_orc_child none_managed drop dedicated_service_namespaces dedicated_loop
    force_remove_korc_finalizers has_korc_finalizer orphaned
late_ends = refl

starts_held : client.contains_finalizer pass.finalizers control_plane_orc_finalizer ≡ true
unfolding has
starts_held = refl

reconcile_delete-Grounds_example : Grounds late pass
reconcile_delete-Grounds_example = reconcile_delete-Grounds late pass starts_held late_released

reconcile_delete_escapes_example :
    Ends late remove_laws
      (only_unmanaged_left (record credential { deleting = true } ∷ []))
      (reconcile_delete late pass).0
reconcile_delete_escapes_example =
    reconcile_delete_escapes late remove_laws pass
      (record {
        objects = record credential { deleting = true } ∷ [];
        written = [];
        gone = credential ∷ [];
        carried = "c5c3.io/orc-teardown" ∷ [];
      })
      (record credential { deleting = true } ∷ []) true starts_held refl late_remaining late_ends

-- Nothing but unmanaged imports was written.
abbrev OnlyImports : World → Type 0
OnlyImports w = All (λ obj. is_managed_orc_child obj ≡ false) w.written

gentle : Gentle client OnlyImports
unfolding is_managed_orc_child
gentle = record {
  delete = λ w obj h. h;
  delete_background = λ w obj h. h;
  strip = λ w obj un h. (un, h);
  update_owner = λ w fs h. h;
}

reconcile_delete-Gentle_example : OnlyImports (reconcile_delete early pass).0.cluster
reconcile_delete-Gentle_example = reconcile_delete-Gentle early gentle pass refl tt

all_named :
    orc_teardown_children client plane late.slug pass.cluster
    ≡ ok (orc_child_objects late.slug plane)
unfolding reconcile_delete delete_orc_resources orc_teardown_children owned_service_account_children
    orc_child_objects each merge has owned_items delete_children remaining_children find of_kind
    delete_from concat reason_of delete_owned_push_secrets sweep_push_secrets delete_push_secrets
    is_managed_orc_child none_managed drop dedicated_service_namespaces dedicated_loop
    force_remove_korc_finalizers has_korc_finalizer orphaned
all_named = refl

orc_teardown_children-Apart_example :
    Apart (orc_child_objects late.slug plane)
    × ((d : OrcChild)
        → DeclaredChild late.slug plane d
        → Member d (orc_child_objects late.slug plane))
orc_teardown_children-Apart_example =
    orc_teardown_children-Apart client plane late.slug pass.cluster all_named

-- Keystone is placed in a namespace of its own, which somebody else made.
abbrev apart : ControlPlane
apart = record plane {
  keystone = some (record {
    mode = "Managed";
    managed_entries = [];
    placement = some (record { name = "apart"; lifecycle = "Managed" });
    database = none;
    cache = none;
  });
}

abbrev foreign : Object
foreign = record credential {
  kind = namespace_kind;
  name = "apart";
  namespace = "";
  owner = none;
  finalizers = [];
}

abbrev pass_apart : Pass World
pass_apart = record pass {
  cp = apart;
  cluster = record {
    objects = foreign ∷ [];
    written = [];
    gone = [];
    carried = "c5c3.io/orc-teardown" ∷ [];
  };
}

-- Only children of the ControlPlane were deleted.
abbrev OnlyChildren : World → Type 0
OnlyChildren w = All (λ obj. is_control_plane_child client obj apart ≡ true) w.gone

deletes_children : DeletesOwned client apart OnlyChildren
deletes_children = record { delete = λ w obj e h. (e, h); delete_background = λ w obj e h. (e, h) }

teardown_dedicated_namespaces-Keeps_example :
    Keeps late pass.finalizers deletes_children (teardown_dedicated_namespaces late pass_apart).0
teardown_dedicated_namespaces-Keeps_example =
    teardown_dedicated_namespaces-Keeps late pass.finalizers deletes_children pass_apart
      (refl, refl, tt)
