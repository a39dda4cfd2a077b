-- ===== src/Host/Router/Fanout.antt =====
-- About the iterator of `deliveries` (crates/host-core/src/router.rs).
use mathlib.Core.Option
use eieio.Base.{
  ℕ, zero, suc, ◌≤◌, Option, none, some, List, [], ◌∷◌, map, ◌≡◌, refl, ap, arith, length,
}
use eieio.Host.Router.{Endpoint, Target, Routes, targets, over, deliveries, collect}

-- The targets that a lookup finds, if it finds a list at all.
abbrev pub listed : Option (List Target) → List Target
listed none = []
listed (some ts) = ts

module _ {B : Type 0} where
  collect_done : (fuel : ℕ) (b : Option B) → collect fuel (record { targets = []; batch = b }) ≡ []
  unfolding collect
  collect_done zero b = refl
  collect_done (suc fuel) b = refl

  pub collect-all :
      (ts : List Target) (b : B) (fuel : ℕ)
      → length ts ≤ fuel
      → collect fuel (record { targets = ts; batch = some b }) ≡ map (λ t. (t, b)) ts
  unfolding collect
  collect-all [] b fuel h = collect_done fuel (some b)
  collect-all (t ∷ ts) b zero h = absurd (omega arith)
  collect-all (t ∷ []) b (suc fuel) h = ap (◌∷◌ (t, b)) (collect_done fuel none)
  collect-all (t ∷ u ∷ ts) b (suc fuel) h =
      ap (◌∷◌ (t, b)) (collect-all (u ∷ ts) b fuel (omega arith))

  over-all :
      (found : Option (List Target)) (b : B) (asked : ℕ)
      → length (listed found) ≤ asked
      → Option.map (collect asked) (Option.map (over b) found)
        ≡ Option.map (map (λ t. (t, b))) found
  over-all none b asked h = refl
  over-all (some ts) b asked h = ap some (collect-all ts b asked h)

  -- Every target of an endpoint, in order, is handed the batch that was emitted, the last as the
  -- others, and nothing else is handed out, however often the iterator is asked after the last. There
  -- is no iterator only where there are no targets to read, since the lookup panics.
  pub collect-deliveries :
      (r : Routes) (e : Endpoint) (b : B) (asked : ℕ)
      → length (listed (targets r e)) ≤ asked
      → Option.map (collect asked) (deliveries r e b) ≡ Option.map (map (λ t. (t, b))) (targets r e)
  unfolding deliveries
  collect-deliveries r e b asked h = over-all (targets r e) b asked h
