-- ===== src/Daemon/Outlet/Rounds.antt =====
-- About the lookups of `Outlet::route` (crates/daemon/src/router.rs), and the rounds that they end.
use mathlib.Core.Option
use eieio.Base.{ℕ, Option, none, some, List, ◌≡◌, refl, subst}
use eieio.Host.Router.{Endpoint, endpoint, Target, Routes, targets, over, deliveries}
use eieio.Daemon.Outlet.{Channels, Routing, routed, route}

module _ {B M : Type 0} where
  -- What holds of the routing that is left. The only panic is that of a lookup in the table.
  abbrev pub Leaves : Routes → (Routing B M → Type 0) → Option (Routing B M) → Type 0
  Leaves routes P none = (from : Endpoint) × (targets routes from ≡ none)
  Leaves routes P (some t) = P t

  pub Leaves-map :
      (r q : Routes) (P Q : Routing B M → Type 0) (o : Option (Routing B M))
      → r ≡ q
      → ((t : Routing B M) → P t → Q t)
      → Leaves r P o
      → Leaves q Q o
  Leaves-map r q P Q none e f (from, none_found) =
      (from, subst (λ x. targets x from ≡ none) e none_found)
  Leaves-map r q P Q (some t) e f h = f t h

  -- One round and the rounds after it.
  pub Leaves-then :
      (r : Routes) (P Q : Routing B M → Type 0) (o : Option (Routing B M))
      (next : Routing B M → Option (Routing B M))
      → Leaves r P o
      → ((t : Routing B M) → P t → Leaves r Q (next t))
      → Leaves r Q (elim o [ none ↦ none | some t ↦ next t ])
  Leaves-then r P Q none next h f = h
  Leaves-then r P Q (some t) next h f = f t h

module _ {B M : Type 0} (channels : Channels B M) where
  -- A round does what it does with the targets that are found.
  found-Leaves :
      (P : Routing B M → Type 0) (port : ℕ) (batch : B) (s : Routing B M) (from : Endpoint)
      (found : Option (List Target))
      → targets s.outlet.routes from ≡ found
      → ((ts : List Target) → found ≡ some ts → P (routed channels port (over batch ts) s))
      → Leaves s.outlet.routes P
          (Option.map (λ items. routed channels port items s) (Option.map (over batch) found))
  found-Leaves P port batch s from none e f = (from, e)
  found-Leaves P port batch s from (some ts) e f = f ts refl

  pub route-Leaves :
      (P : Routing B M → Type 0) (port : ℕ) (batch : B) (s : Routing B M)
      → ((ts : List Target)
          → targets s.outlet.routes (endpoint s.outlet.index port) ≡ some ts
          → P (routed channels port (over batch ts) s))
      → Leaves s.outlet.routes P (route channels port batch s)
  unfolding route deliveries
  route-Leaves P port batch s f =
      found-Leaves P port batch s (endpoint s.outlet.index port) _ refl f
