-- ===== src/Lib.antt =====
-- A verification library for the operators of c5c3 forge: the parts of internal/common that every
-- operator's reconcile pass is built from; the database and upgrade flow of the Keystone operator,
-- which is their largest client, and its rotation of keys; and the teardown of a ControlPlane.
--
-- How the parts interact. A pass of an operator is a chain of steps on one CR (Reconcile.Pipeline,
-- internal/common/reconcile/pipeline.go); some steps run as a parallel group on copies of the CR
-- (Reconcile.Parallel, parallel.go); each step reports a status condition (Conditions,
-- internal/common/conditions), and the pass ends with the aggregate Ready condition and one status
-- write (Reconcile.Status, status.go and skeleton.go). A step that projects a child CR, removes an
-- orphan or adds a finalizer uses Reconcile.Project (project.go, finalizer.go). The database step
-- provisions the MariaDB resources and runs the schema Jobs (Database, internal/common/database),
-- on top of one-shot Jobs with a re-run key (Job, internal/common/job). The Keystone operator adds
-- the upgrade from one OpenStack release to the next (Keystone,
-- operators/keystone/internal/controller), which compares release tags (Release,
-- internal/common/release); the Glance operator's database step (Glance,
-- operators/glance/internal/controller/reconcile_database.go) is a smaller client. Steps wait for
-- their credentials with the gates of Secrets (internal/common/secrets), expose their service
-- with Gateway (internal/common/gateway) and probe it with HealthCheck
-- (internal/common/healthcheck), whose cache the CRs of an operator share.
--
-- The Keystone operator's fernet and credential keys are rotated by a CronJob that writes a staging
-- Secret; Keystone.Keys validates what it wrote and commits it to the Secret of the keys with
-- Rotation (internal/common/rotation); Keystone.Password does the same for the admin password, and
-- gates the PushSecret that mirrors it. Keystone.Deletion is the deletion of a Keystone CR: it
-- releases one finalizer after the deletion of the MariaDB resources (Database.Finalize), and the
-- other when the backups of the keys are gone. When a ControlPlane is deleted, ControlPlane
-- (operators/c5c3/internal/controller/reconcile_delete.go) deletes its K-ORC resources and its
-- PushSecrets and waits until they are gone, then takes down what it placed in namespaces of its
-- own, and lets the finalizer go; what keeps it waiting for longer than a limit is released by force.
--
-- State and operations. A component that changes state is a function from the state to the state
-- and an Outcome, the pair (ctrl.Result, error) (Kube.Outcome). The cluster is a type W, and each
-- client is a record of functions on it (JobApi, MariaDbApi, WorkloadApi, ChildClient,
-- OrphanClient, FinalizerClient, SecretsClient, RouteClient, OwnerPatch, ConditionMeta, Client,
-- SlugTools, SecretClient, KeysClient, PasswordClient, ResourceClient,
-- DeletionClient, Decoder): code of libraries and of the API
-- server is a parameter, and what a theorem relies on is a record of laws (ConditionLaws, JobLaws,
-- DeleteLaws, FinalizerLaws, ConditionsOfLaws, RemoveLaws, TeardownLaws,
-- FinalizeLaws, OwnerLaws). A Delete that is accepted leaves the object gone or being deleted, since a
-- finalizer may hold it; the finalizers that the cluster has stored for a CR are a function of W, and
-- the laws of an Update say what it stores. An invariant of the cluster is a predicate with a record that says which calls keep it (Gentle, DeletesOwned, Guarded,
-- KeysGuarded, PasswordGuarded). A function keeps its Go name in snake
-- case. Helpers named after_* and by_* are what follows a call or a test in the Go function.
--   Kube          errors with their API reason, conditions, results, %q and text
--   Rotation      CommitStaged: validates and commits a staged Secret (rotation.go)
--   HealthCheck   ReconcileProbe and the probe cache (flow.go, healthcheck.go)
--   Keystone      State (the CR's fields and the clients), Jobs (database_jobs.go), Upgrade
--                 (reconcile_upgrade.go), Database (reconcile_database.go), Rollout
--                 (reconcile_deployment.go), Keys (reconcile_fernet.go, reconcile_credential.go,
--                 rotation_staging.go; Format is rotation_validation.go), Password
--                 (reconcile_passwordrotation.go), Deletion (reconcileDelete and
--                 reconcileDeleteOpenBao of keystone_controller.go, finalizeOpenBaoSecrets of
--                 reconcile_secrets.go), History (sequences of passes)
--   ControlPlane  State (the CR's fields), Cluster (objects and the client), Names (the names of
--                 the children), Children (the K-ORC children: Keys is their
--                 keys, Declared the CRs that the spec names, Merged the list of a pass), Orc (their deletion), Residue and
--                 Namespaces (what stands in other namespaces), Pass (what a pass reads and writes),
--                 Teardown (reconcileDelete and its escape; Drained and Clear are what its
--                 sweeps have found to be absent when they find nothing left)
--   Examples      concrete clients, and the theorems at concrete inputs
--
-- Bounds. No function needs fuel: every loop runs over a list or a text. Numbers are natural
-- numbers; a duration is a signed number of nanoseconds; a parsed number is checked against the
-- range of int64 as strconv.Atoi does. Times are nanoseconds since the zero time. The limit of a
-- teardown's wait is compared with a signed elapsed time, since a clock may run back.
--
-- Not modelled: logging, contexts and their cancellation but for the error that a cancelled one
-- gives a probe, the real clock, the encoding of objects, the Kubernetes objects that the builders
-- make beyond the fields that the code reads, and the other steps and operators. A parallel group is
-- modelled for every order in which its members return, each on its own copy of the CR; the members'
-- writes to the cluster are not part of that model.
pub mod Prelude
pub mod Kube
pub mod Conditions
pub mod Reconcile
pub mod Release
pub mod Job
pub mod Database
pub mod Keystone
pub mod ControlPlane
pub mod Gateway
pub mod Glance
pub mod HealthCheck
pub mod Rotation
pub mod Secrets
pub mod Examples
