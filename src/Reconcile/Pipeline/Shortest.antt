-- ===== src/Reconcile/Pipeline/Shortest.antt =====
-- internal/common/reconcile/pipeline.go, ShortestRequeue: the result that is chosen.
use mathlib.Core.List.{Memᴰ}
use c5c3_forge.Prelude.{
  ◌≡◌, refl, ◌⊎◌, inl, inr, true, false, List, [], ◌∷◌, pos, le_int, le_int_refl, le_int_trans,
  le_int_of_lt, le_int_of_not_lt, arith, Bool-cases, All,
}
use c5c3_forge.Kube.Outcome.{Result, zero_result}
use c5c3_forge.Reconcile.Pipeline.{shorter, shortest_from, shortest_requeue}

-- No requeue is asked for.
abbrev pub IsQuiet : Result → Type 0
IsQuiet r = le_int r.requeue_after (pos 0) ≡ true

abbrev pub IsRequeue : Result → Type 0
IsRequeue r = le_int r.requeue_after (pos 0) ≡ false

-- No result that asks for a requeue asks for an earlier one than `r`.
abbrev pub IsLeast : Result → List Result → Type 0
IsLeast r = All (λ x. IsQuiet x ⊎ (le_int r.requeue_after x.requeue_after ≡ true))

after_trans :
    (a b c : Result)
    → le_int a.requeue_after b.requeue_after ≡ true
    → le_int b.requeue_after c.requeue_after ≡ true
    → le_int a.requeue_after c.requeue_after ≡ true
after_trans a b c = le_int_trans a.requeue_after b.requeue_after c.requeue_after

-- From a result that asks for a requeue, the loop ends in the least of it and the list.
record Shortest (r cur : Result) (rs : List Result) : Type 0 where
  asks : IsRequeue r
  below : le_int r.requeue_after cur.requeue_after ≡ true
  least : IsLeast r rs
  origin : (r ≡ cur) ⊎ Memᴰ r rs

shorter-cases :
    (cur x : Result)
    → IsRequeue cur
    → ((shorter cur x ≡ cur) × (IsQuiet x ⊎ (le_int cur.requeue_after x.requeue_after ≡ true)))
      ⊎ ((shorter cur x ≡ x) × (le_int x.requeue_after cur.requeue_after ≡ true) × IsRequeue x)
shorter-cases cur x h = ground (
  arith,
  le_int_of_lt x.requeue_after cur.requeue_after,
  le_int_of_not_lt x.requeue_after cur.requeue_after,
)

mem-skip {ℓ} :
    {A : Type ℓ} {a x y : A} {xs : List A} → (a ≡ x) ⊎ Memᴰ a xs → (a ≡ x) ⊎ Memᴰ a (y ∷ xs)
mem-skip (inl e) = inl e
mem-skip (inr m) = inr (Memᴰ.tail m)

mem-here {ℓ} : {A : Type ℓ} {a x : A} {xs : List A} → (a ≡ x) ⊎ Memᴰ a xs → Memᴰ a (x ∷ xs)
mem-here (inl e) = Memᴰ.head e
mem-here (inr m) = Memᴰ.tail m

Shortest-keep :
    (r cur x : Result) (rs : List Result)
    → IsQuiet x ⊎ (le_int cur.requeue_after x.requeue_after ≡ true)
    → Shortest r cur rs
    → Shortest r cur (x ∷ rs)
Shortest-keep r cur x rs (inl quiet) s = record {
  asks = s.asks;
  below = s.below;
  least = (inl quiet, s.least);
  origin = mem-skip s.origin;
}
Shortest-keep r cur x rs (inr above) s = record {
  asks = s.asks;
  below = s.below;
  least = (inr (after_trans r cur x s.below above), s.least);
  origin = mem-skip s.origin;
}

Shortest-take :
    (r cur x : Result) (rs : List Result)
    → le_int x.requeue_after cur.requeue_after ≡ true
    → Shortest r x rs
    → Shortest r cur (x ∷ rs)
Shortest-take r cur x rs lower s = record {
  asks = s.asks;
  below = after_trans r x cur s.below lower;
  least = (inr s.below, s.least);
  origin = inr (mem-here s.origin);
}

Shortest-shorter :
    (cur x : Result) (rs : List Result)
    → IsRequeue cur
    → ((c : Result) → IsRequeue c → Shortest (shortest_from c rs) c rs)
    → Shortest (shortest_from (shorter cur x) rs) cur (x ∷ rs)
Shortest-shorter cur x rs h ih = elim (shorter-cases cur x h) [
  | inl (e, above) ↦ rw e (Shortest-keep _ cur x rs above (ih cur h))
  | inr (e, lower, asks) ↦ rw e (Shortest-take _ cur x rs lower (ih x asks))
]

shortest_from-Shortest :
    (rs : List Result) (cur : Result) → IsRequeue cur → Shortest (shortest_from cur rs) cur rs
unfolding shortest_from
shortest_from-Shortest [] cur h = record {
  asks = h;
  below = le_int_refl cur.requeue_after;
  least = tt;
  origin = inl refl;
}
shortest_from-Shortest (x ∷ rs) cur h = Shortest-shorter cur x rs h (shortest_from-Shortest rs)

-- What ShortestRequeue answers: a zero result where nothing asks for a requeue, else a result of
-- the list that asks for one, and for the earliest.
pub data Chosen (r : Result) (rs : List Result) : Type 0 where
  quiet : r ≡ zero_result → All IsQuiet rs → Chosen r rs
  chosen : Memᴰ r rs → IsRequeue r → IsLeast r rs → Chosen r rs

Chosen-skip : (r x : Result) (rs : List Result) → IsQuiet x → Chosen r rs → Chosen r (x ∷ rs)
Chosen-skip r x rs q (quiet e qs) = quiet e (q, qs)
Chosen-skip r x rs q (chosen m a l) = chosen (Memᴰ.tail m) a (inl q, l)

Chosen-of_Shortest : (r x : Result) (rs : List Result) → Shortest r x rs → Chosen r (x ∷ rs)
Chosen-of_Shortest r x rs s = chosen (mem-here s.origin) s.asks (inr s.below, s.least)

-- ShortestRequeue answers a zero result exactly where no result asks for a requeue; otherwise it
-- answers one of the given results, which asks for a requeue no later than any other that does.
pub shortest_requeue-Chosen : (rs : List Result) → Chosen (shortest_requeue rs) rs
unfolding shortest_requeue
shortest_requeue-Chosen [] = quiet refl tt
shortest_requeue-Chosen (x ∷ rs) = elim (Bool-cases (le_int x.requeue_after (pos 0))) [
  | inl q ↦ rw q (Chosen-skip _ x rs q (shortest_requeue-Chosen rs))
  | inr a ↦ rw a (Chosen-of_Shortest _ x rs (shortest_from-Shortest rs x a))
]
