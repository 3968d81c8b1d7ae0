-- ===== src/ControlPlane/Children/Keys.antt =====
-- operators/c5c3/internal/controller/reconcile_delete.go, key: one key for each kind and name.
use Prim.Native.Char.{code}
use Prim.Native.String.{◌++◌ as str_append}
use text.Mathlib.TextLemmas.{nil-append, cons-append, append-nil}
use c5c3_forge.Prelude.{
  ℕ, ◌≡◌, refl, sym, ap, ◌∙◌, Bool, true, not, ◌&&◌, ◌==◌, String, Option, none, some, str_eq,
  arith, if◌then◌else◌,
}
use c5c3_forge.Kube.Text.{concat}
use c5c3_forge.Release.{cut}
use c5c3_forge.Release.Parse.{Lacks, cut-append}
use c5c3_forge.ControlPlane.Cluster.{
  Kind, application_credential, service, endpoint, user, project, domain, role, role_assignment,
  keystone, horizon, push_secret, namespace_kind, maria_db, memcached, external_secret,
  vault_dynamic_secret, certificate, service_account, secret, secret_store, kind_name,
}
use c5c3_forge.ControlPlane.Children.{OrcChild, child_key}

unfoldable lacks : ℕ → String → Bool
lacks sep String.[] = true
lacks sep (String.◌∷◌ c s) = not (code c == sep) && lacks sep s

lacks-Lacks : (sep : ℕ) (s : String) → lacks sep s ≡ true → Lacks sep s
unfolding lacks
lacks-Lacks sep String.[] h = tt
lacks-Lacks sep (String.◌∷◌ c s) h = (ground arith, lacks-Lacks sep s (ground arith))

kind_name-lacks : (k : Kind) → lacks b'/' (kind_name k) ≡ true
unfolding lacks
kind_name-lacks application_credential = refl
kind_name-lacks service = refl
kind_name-lacks endpoint = refl
kind_name-lacks user = refl
kind_name-lacks project = refl
kind_name-lacks domain = refl
kind_name-lacks role = refl
kind_name-lacks role_assignment = refl
kind_name-lacks keystone = refl
kind_name-lacks horizon = refl
kind_name-lacks push_secret = refl
kind_name-lacks namespace_kind = refl
kind_name-lacks maria_db = refl
kind_name-lacks memcached = refl
kind_name-lacks external_secret = refl
kind_name-lacks vault_dynamic_secret = refl
kind_name-lacks certificate = refl
kind_name-lacks service_account = refl
kind_name-lacks secret = refl
kind_name-lacks secret_store = refl

cut_at_slash : (s : String) → cut b'/' (str_append "/" s) ≡ ("", s)
unfolding cut
cut_at_slash s = rw (cons-append, nil-append) refl

-- A key splits at its first slash.
cut-child_key : (c : OrcChild) → cut b'/' (child_key c) ≡ (kind_name c.kind, c.name)
unfolding concat
cut-child_key c =
    cut-append b'/' (kind_name c.kind) (str_append "/" (str_append c.name ""))
      (lacks-Lacks b'/' (kind_name c.kind) (kind_name-lacks c.kind))
    ∙ ap (λ (q : String × String). (str_append (kind_name c.kind) q.0, q.1))
        (cut_at_slash (str_append c.name ""))
    ∙ ap (λ b. (b, str_append c.name "")) (append-nil (kind_name c.kind))
    ∙ ap (λ n. (kind_name c.kind, n)) (append-nil c.name)

-- The K-ORC kinds.
abbrev pub korc_kind : Kind → Option Kind
korc_kind application_credential = some application_credential
korc_kind service = some service
korc_kind endpoint = some endpoint
korc_kind user = some user
korc_kind project = some project
korc_kind domain = some domain
korc_kind role = some role
korc_kind role_assignment = some role_assignment
korc_kind _ = none

unfoldable kind_of : String → Option Kind
kind_of s =
    if str_eq s "*v1alpha1.ApplicationCredential"
    then some application_credential
    else if str_eq s "*v1alpha1.Service"
    then some service
    else if str_eq s "*v1alpha1.Endpoint"
    then some endpoint
    else if str_eq s "*v1alpha1.User"
    then some user
    else if str_eq s "*v1alpha1.Project"
    then some project
    else if str_eq s "*v1alpha1.Domain"
    then some domain
    else if str_eq s "*v1alpha1.Role"
    then some role
    else if str_eq s "*v1alpha1.RoleAssignment"
    then some role_assignment
    else none

kind_of-kind_name : (k : Kind) → kind_of (kind_name k) ≡ korc_kind k
unfolding kind_of
kind_of-kind_name application_credential = refl
kind_of-kind_name service = refl
kind_of-kind_name endpoint = refl
kind_of-kind_name user = refl
kind_of-kind_name project = refl
kind_of-kind_name domain = refl
kind_of-kind_name role = refl
kind_of-kind_name role_assignment = refl
kind_of-kind_name keystone = refl
kind_of-kind_name horizon = refl
kind_of-kind_name push_secret = refl
kind_of-kind_name namespace_kind = refl
kind_of-kind_name maria_db = refl
kind_of-kind_name memcached = refl
kind_of-kind_name external_secret = refl
kind_of-kind_name vault_dynamic_secret = refl
kind_of-kind_name certificate = refl
kind_of-kind_name service_account = refl
kind_of-kind_name secret = refl
kind_of-kind_name secret_store = refl

korc_kind_same : (k j : Kind) → korc_kind k ≡ some j → k ≡ j
korc_kind_same application_credential j h = cc h
korc_kind_same service j h = cc h
korc_kind_same endpoint j h = cc h
korc_kind_same user j h = cc h
korc_kind_same project j h = cc h
korc_kind_same domain j h = cc h
korc_kind_same role j h = cc h
korc_kind_same role_assignment j h = cc h
korc_kind_same keystone j h = absurd (cc h)
korc_kind_same horizon j h = absurd (cc h)
korc_kind_same push_secret j h = absurd (cc h)
korc_kind_same namespace_kind j h = absurd (cc h)
korc_kind_same maria_db j h = absurd (cc h)
korc_kind_same memcached j h = absurd (cc h)
korc_kind_same external_secret j h = absurd (cc h)
korc_kind_same vault_dynamic_secret j h = absurd (cc h)
korc_kind_same certificate j h = absurd (cc h)
korc_kind_same service_account j h = absurd (cc h)
korc_kind_same secret j h = absurd (cc h)
korc_kind_same secret_store j h = absurd (cc h)

-- Two children with one key, of which the second is of a K-ORC kind, are the same.
pub child_key_injective :
    (c d : OrcChild)
    → korc_kind d.kind ≡ some d.kind
    → child_key c ≡ child_key d
    → (c.kind ≡ d.kind) × (c.name ≡ d.name)
child_key_injective c d korc e =
    let parts : (kind_name c.kind, c.name) ≡ (kind_name d.kind, d.name) =
      sym (cut-child_key c) ∙ ap (cut b'/') e ∙ cut-child_key d in
    (
      korc_kind_same c.kind d.kind (
          sym (kind_of-kind_name c.kind)
          ∙ ap kind_of (ap (λ r. r.0) parts)
          ∙ kind_of-kind_name d.kind
          ∙ korc),
      ap (λ r. r.1) parts,
    )
