-- ===== src/HealthCheck/Fresh.antt =====
-- internal/common/healthcheck: the probes behind what the passes report, over any sequence of passes
-- of the CRs that share a cache.
use c5c3_forge.Prelude.{
  ◌++◌, ◌≡◌, ◌⊎◌, refl, sym, ap, ◌∙◌, inl, inr, Bool, true, false, not, List, [], ◌∷◌, String,
  Option, none, some, Bool-cases, str_eq, str_eq-cases, subst, lookup, lookup-insert, or_others,
  if◌then◌else◌,
}
use c5c3_forge.Kube.Error.{Error}
use c5c3_forge.Kube.Condition.{Condition, ConditionMeta}
use c5c3_forge.Kube.Outcome.{Outcome}
use c5c3_forge.HealthCheck.{
  ProbeEntry, ProbeCache, is_success, store, evict, Reply, status_code, no_reply, Meeting,
  ProbeFlowParams, ProbeState, cache_hit, by_reply, by_request, reconcile_probe,
}

-- The successful probes, the latest first: the CR, and the entry of the probe.
abbrev pub Probes : Type 0
Probes = List (String × ProbeEntry)

-- The probe is one of them.
abbrev pub Among : String → ProbeEntry → Probes → Type 0
Among key e [] = ⊥
Among key e (probe ∷ probes) = ((probe.0 ≡ key) × (probe.1 ≡ e)) ⊎ Among key e probes

-- One pass of a CR, with the conditions that it finds.
pub record Run : Type 0 where
  pub params : ProbeFlowParams
  pub meeting : Meeting
  pub conditions : List Condition

module _ (m : ConditionMeta) where
  abbrev at_run : Run → ProbeCache → ProbeState
  at_run r cache = record { conditions = r.conditions; cache = cache }

  -- The cache after the passes, the last of which stands first.
  unfoldable pub cache_after : List Run → ProbeCache
  cache_after [] = []
  cache_after (r ∷ rs) = (reconcile_probe m r.params r.meeting (at_run r (cache_after rs))).0.cache

  abbrev success_of : Reply → ProbeFlowParams → Meeting → Probes
  success_of (no_reply e) p t = []
  success_of (status_code n) p t =
      if is_success n
      then (p.key, record { uid = p.uid; endpoint = p.probe_endpoint; probed_at = t.stored_at })
        ∷ []
      else []

  abbrev probe_of : Option Error → ProbeFlowParams → Meeting → Probes
  probe_of (some e) p t = []
  probe_of none p t = success_of t.reply p t

  -- The successful probe of a pass, if it sent one.
  abbrev run_probes : Run → ProbeCache → Probes
  run_probes r cache =
      if not r.params.endpoint_configured
      then []
      else if cache_hit m r.params r.meeting (at_run r cache)
      then []
      else probe_of r.meeting.request_error r.params r.meeting

  -- The successful probes of the passes.
  unfoldable pub probes_after : List Run → Probes
  probes_after [] = []
  probes_after (r ∷ rs) = run_probes r (cache_after rs) ++ probes_after rs

  -- An evicted key is gone.
  pub lookup-evict_gone :
      (cache : ProbeCache) (gone : String) → lookup gone (evict cache gone) ≡ none
  unfolding lookup evict
  lookup-evict_gone [] gone = refl
  lookup-evict_gone (entry ∷ cache) gone = elim (Bool-cases (str_eq entry.0 gone)) [
    | inl g ↦ rw g (lookup-evict_gone cache gone)
    | inr g ↦ rw (g, g) (lookup-evict_gone cache gone)
  ]

  lookup-evict :
      (cache : ProbeCache) (gone key : String) {e : ProbeEntry}
      → lookup key (evict cache gone) ≡ some e
      → lookup key cache ≡ some e
  unfolding lookup evict
  lookup-evict [] gone key h = h
  lookup-evict (entry ∷ cache) gone key {e} h = elim (str_eq-cases entry.0 gone) [
    | inl (g, is_gone) ↦ elim (str_eq-cases entry.0 key) [
      | inl (_, is_key) ↦ absurd (
          found (lookup-evict_gone cache gone)
            (subst (λ k. lookup k (evict cache gone) ≡ some e) (sym is_key ∙ is_gone) (rw g at h)))
      | inr (q, _) ↦ rw q (lookup-evict cache gone key (rw g at h))
    ]
    | inr (g, _) ↦ elim (Bool-cases (str_eq entry.0 key)) [
      | inl q ↦ rw q (rw (g, q) at h)
      | inr q ↦ rw q (lookup-evict cache gone key (rw (g, q) at h))
    ]
  ]
    where
      found : {o : Option ProbeEntry} → o ≡ none → o ≡ some e → ⊥
      found n f = cc (n, f)

  -- An entry after a pass is one before it, or the probe of the pass.
  Explained : ProbeCache → Probes → ProbeCache → Type 0
  Explained before probes after =
      (key : String) (e : ProbeEntry)
      → lookup key after ≡ some e
      → (lookup key before ≡ some e) ⊎ Among key e probes

  by_reply-Explained :
      (p : ProbeFlowParams) (t : Meeting) (reply : Reply) (parent : Option Error) (s : ProbeState)
      → Explained s.cache (success_of reply p t) (by_reply m p t reply parent s).0.cache
  unfolding Explained store
  by_reply-Explained p t (no_reply x) (some c) s key e h = inl h
  by_reply-Explained p t (no_reply x) none s key e h = inl (lookup-evict s.cache p.key key h)
  by_reply-Explained p t (status_code n) parent s key e h = elim (Bool-cases (is_success n)) [
    | inl b ↦ elim (str_eq-cases p.key key) [
      | inl (q, is_key) ↦ inr (rw b (inl (is_key, value_of (stored b ∙ rw q refl) h)))
      | inr (q, _) ↦ inl (sym (stored b ∙ rw q refl) ∙ h)
    ]
    | inr b ↦ inl (lookup-evict s.cache p.key key (rw b at h))
  ]
    where
      fresh : ProbeEntry
      fresh = record { uid = p.uid; endpoint = p.probe_endpoint; probed_at = t.stored_at }

      stored :
          is_success n ≡ true
          → lookup key (by_reply m p t (status_code n) parent s).0.cache
            ≡ or_others (str_eq p.key key) fresh (lookup key s.cache)
      stored b = rw b (lookup-insert p.key key fresh s.cache)

      value_of : {o : Option ProbeEntry} {a b : ProbeEntry} → o ≡ some a → o ≡ some b → a ≡ b
      value_of f g = cc (f, g)

  by_request-Explained :
      (p : ProbeFlowParams) (t : Meeting) (request : Option Error) (s : ProbeState)
      → Explained s.cache (probe_of request p t) (by_request m p t request s).0.cache
  unfolding Explained
  by_request-Explained p t (some e) s = λ key x h. inl h
  by_request-Explained p t none s = by_reply-Explained p t t.reply t.parent_error s

  -- Only the last of the three ways of a pass, `c`, changes the cache.
  unsent-Explained :
      (configured cached : Bool) (before : ProbeCache) (probes : Probes)
      (a b c : ProbeState × Outcome)
      → a.0.cache ≡ before
      → b.0.cache ≡ before
      → Explained before probes c.0.cache
      → Explained before
          (if not configured then [] else if cached then [] else probes)
          (if not configured then a else if cached then b else c).0.cache
  unfolding Explained
  unsent-Explained false _ before probes a b c p q r key e h = inl (ap (lookup key) (sym p) ∙ h)
  unsent-Explained true true before probes a b c p q r key e h = inl (ap (lookup key) (sym q) ∙ h)
  unsent-Explained true false before probes a b c p q r key e h = r key e h

  run-Explained :
      (r : Run) (cache : ProbeCache)
      → Explained cache
          (run_probes r cache)
          (reconcile_probe m r.params r.meeting (at_run r cache)).0.cache
  unfolding reconcile_probe
  run-Explained r cache =
      unsent-Explained r.params.endpoint_configured
        (cache_hit m r.params r.meeting (at_run r cache)) cache
        (probe_of r.meeting.request_error r.params r.meeting) _ _ _ refl refl
        (by_request-Explained r.params r.meeting r.meeting.request_error (at_run r cache))

  Among-append_left :
      (key : String) (e : ProbeEntry) (new old : Probes)
      → Among key e new
      → Among key e (new ++ old)
  Among-append_left key e [] old h = absurd h
  Among-append_left key e (probe ∷ new) old (inl h) = inl h
  Among-append_left key e (probe ∷ new) old (inr h) = inr (Among-append_left key e new old h)

  Among-append_right :
      (key : String) (e : ProbeEntry) (new old : Probes)
      → Among key e old
      → Among key e (new ++ old)
  Among-append_right key e [] old h = h
  Among-append_right key e (probe ∷ new) old h = inr (Among-append_right key e new old h)

  -- Every entry of the cache is a successful probe of one of the passes.
  pub cache_after-Among :
      (rs : List Run) (key : String) (e : ProbeEntry)
      → lookup key (cache_after rs) ≡ some e
      → Among key e (probes_after rs)
  unfolding cache_after probes_after lookup Explained
  cache_after-Among [] key e h = absurd (nothing h)
    where
      nothing : none ≡ some e → ⊥
      nothing n = cc n
  cache_after-Among (r ∷ rs) key e h = elim (run-Explained r (cache_after rs) key e h) [
    | inl earlier ↦
        Among-append_right key e (run_probes r (cache_after rs)) (probes_after rs)
          (cache_after-Among rs key e earlier)
    | inr now ↦ Among-append_left key e (run_probes r (cache_after rs)) (probes_after rs) now
  ]
