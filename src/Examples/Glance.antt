-- ===== src/Examples/Glance.antt =====
-- A Glance CR at work: from 2024.1 to 2024.2, in the cluster of the Keystone example.
use c5c3_forge.Prelude.{◌≡◌, ◌≢◌, refl, inl, inr, true, some}
use c5c3_forge.Kube.Error.{ok}
use c5c3_forge.Kube.Outcome.{stops}
use c5c3_forge.Release.{Release, parse_release}
use c5c3_forge.Release.Transition.{first, same_tag, patched}
use c5c3_forge.Examples.Conditions.{differs}
use c5c3_forge.Glance.{Glance, reconcile_glance_database}
use c5c3_forge.Glance.Laws.{
  IsAllowed, reconcile_glance_database_rejects, Tracks, reconcile_glance_database-Tracks,
}
use c5c3_forge.Examples.Keystone.{World, env, flow}

abbrev images : Glance World
images = record {
  flow = flow;
  name = "glance";
  namespace = "openstack";
  generation = 1;
  image = record { repository = "quay.io/glance"; tag = "2024.2"; digest = "" };
  openstack_release = "2024.2";
  database = record {
    cluster_ref = some "db";
    credentials_mode = "Dynamic";
    host = "";
    database = "glance";
    secret_ref = "glance-db";
  };
  target_release = "";
}

reconcile_glance_database-Tracks_example :
    Tracks "2024.1" "2024.2"
      (reconcile_glance_database env 0 images "glance-config").0.flow.installed_release
reconcile_glance_database-Tracks_example =
    reconcile_glance_database-Tracks env 0 images "glance-config"

abbrev misnamed : Glance World
misnamed = record images { openstack_release = "bogus" }

bogus_rejected : {b : Release} → parse_release "bogus" ≢ ok b
unfolding parse_release
bogus_rejected h = cc h

bogus-IsAllowed : ¬ IsAllowed "2024.1" "bogus"
bogus-IsAllowed (inl (first e)) = differs refl e
bogus-IsAllowed (inl (same_tag e)) = differs refl e
bogus-IsAllowed (inl (patched a b p q h)) = bogus_rejected q
bogus-IsAllowed (inr s) = bogus_rejected s.to_parsed

reconcile_glance_database_rejects_example :
    (stops (reconcile_glance_database env 0 misnamed "glance-config").1 ≡ true)
    × ((reconcile_glance_database env 0 misnamed "glance-config").0.flow.installed_release
        ≡ "2024.1")
reconcile_glance_database_rejects_example =
    reconcile_glance_database_rejects env 0 misnamed "glance-config" bogus-IsAllowed
