-- ===== src/Daemon/Outlet/Frames.antt =====
-- About what the operations of `Outlet` (crates/daemon/src/router.rs) leave alone.
use eieio.Base.{
  ℕ, Option, none, some, List, [], ◌∷◌, ◌≡◌, refl, ◌∙◌, arith, length, if-splits, ◌==◌,
}
use eieio.Host.Router.{Target, Overflow, backpressure, drop_oldest, Deliveries, collect}
use eieio.Daemon.Outlet.{
  Work, Channels, Undelivered, Held, Routing, hold, refused_full, settled, reposted, unwired,
  deliver, deliver_all, routed, flush_all, try_send,
}

module _ {B M : Type 0} where
  -- The outlet is that of the same instance, with the same table.
  abbrev pub Same : Routing B M → Routing B M → Type 0
  Same t s = (t.outlet.index ≡ s.outlet.index) × (t.outlet.routes ≡ s.outlet.routes)

  refused_full-Same :
      (o : Overflow) (port : ℕ) (target : Target) (work : Work B) (s : Routing B M)
      → Same (refused_full o port target work s) s
  unfolding refused_full hold
  refused_full-Same drop_oldest port target work s = ground arith
  refused_full-Same backpressure port target work s = (refl, refl)

  settled-Same :
      (port : ℕ) (target : Target) (refused : Option (Undelivered B)) (s : Routing B M)
      → Same (settled port target refused s) s
  unfolding settled
  settled-Same port target none s = (refl, refl)
  settled-Same port target (some (Undelivered.gone work)) s = (refl, refl)
  settled-Same port target (some (Undelivered.full work)) s =
      refused_full-Same target.overflow port target work s

  reposted-Same :
      (slot : Held B) (refused : Option (Undelivered B)) (s : Routing B M)
      → Same (reposted slot refused s) s
  unfolding reposted
  reposted-Same slot none s = (refl, refl)
  reposted-Same slot (some (Undelivered.gone work)) s = (refl, refl)
  reposted-Same slot (some (Undelivered.full work)) s = (refl, refl)

  unwired-Same : (port : ℕ) (s : Routing B M) → Same (unwired port s) s
  unfolding unwired
  unwired-Same port s = ground arith

module _ {B M : Type 0} (c : Channels B M) where
  pub deliver-Same :
      (port : ℕ) (target : Target) (batch : B) (s : Routing B M)
      → Same (deliver c port target batch s) s
  unfolding deliver
  deliver-Same port target batch s = settled-Same port target _ _

  pub deliver_all-Same :
      (port : ℕ) (items : List (Target × B)) (s : Routing B M) → Same (deliver_all c port items s) s
  unfolding deliver_all
  deliver_all-Same port [] s = (refl, refl)
  deliver_all-Same port ((target, batch) ∷ items) s =
      let (i, r) = deliver-Same port target batch s in
      let (i', r') = deliver_all-Same port items (deliver c port target batch s) in (i' ∙ i, r' ∙ r)

  pub routed-Same :
      (port : ℕ) (items : Deliveries B) (s : Routing B M) → Same (routed c port items s) s
  unfolding routed
  routed-Same port items s =
      if-splits (λ (t : Routing B M). Same t s) (length items.targets == 0) (unwired port s)
        (deliver_all c port (collect (length items.targets) items) s) (λ _. unwired-Same port s)
        (λ _. deliver_all-Same port (collect (length items.targets) items) s)

  pub flush_all-Same : (held : List (Held B)) (s : Routing B M) → Same (flush_all c held s) s
  unfolding flush_all
  flush_all-Same [] s = (refl, refl)
  flush_all-Same (slot ∷ held) s =
      let (m, refused) = try_send c s.mailboxes slot.target.to.instance_index slot.work in
      let t : Routing B M = record s { mailboxes = m } in
      let (i, r) = reposted-Same slot refused t in
      let (i', r') = flush_all-Same held (reposted slot refused t) in (i' ∙ i, r' ∙ r)
