-- ===== src/Daemon/Outlet/Conserved.antt =====
-- About the batches that `Outlet` (crates/daemon/src/router.rs) routes: where each ends.
use eieio.Base.{
  ℕ, ◌+◌, Option, none, some, List, [], ◌∷◌, ◌≡◌, refl, ◌∙◌, ap, inl, inr, arith, length,
  length-append, Bool-cases, if-splits, length-map, ◌==◌, if◌then◌else◌,
}
use eieio.Host.Router.{
  endpoint, Target, Routes, Overflow, backpressure, drop_oldest, port_err, targets, over, collect,
}
use eieio.Host.Router.Fanout.{listed, collect-all}
use eieio.Daemon.Outlet.Rounds.{Leaves, Leaves-map, Leaves-then, route-Leaves}
use eieio.Daemon.Outlet.{
  unrouted, overflow, self_full, gone, Work, Channels, Undelivered, TrySendError, Held, Routing,
  refill, hold, refused_full, settled, reposted, unwired, deliver, deliver_all, routed, route,
  flush_all, flush, route_all, turn, try_send, send, undelivered, unsent,
}

-- What an emission on a port owes: a copy to each receiver; without one, only an error is owed.
abbrev pub due : Routes → ℕ → ℕ → ℕ
due routes index port =
    let receivers = length (listed (targets routes (endpoint index port))) in
    if receivers == 0 then (if port == port_err then 1 else 0) else receivers

module _ {B : Type 0} where
  abbrev pub owed : Routes → ℕ → List (ℕ × B) → ℕ
  owed routes index [] = 0
  owed routes index ((port, batch) ∷ pending) = due routes index port + owed routes index pending

  length-refill :
      (held : Held B) (slots : List (Held B)) → length (refill held slots) ≡ length slots
  unfolding refill
  length-refill held [] = refl
  length-refill held (slot ∷ slots) = ground (arith, length-refill held slots)

abbrev pub one_if_none : {A : Type 0} → Option A → ℕ
one_if_none none = 1
one_if_none (some _) = 0

-- What the channels have taken: one more for each delivery that is answered so, and no other.
pub record Accounts {B M : Type 0} (channels : Channels B M) (taken : M → ℕ) : Type 0 where
  pub tried :
      (m : M) (i : ℕ) (work : Work B)
      → taken (channels.try_send m i work).0 ≡ taken m + one_if_none (channels.try_send m i work).1
  pub sent :
      (m : M) (i : ℕ) (work : Work B)
      → taken (channels.send m i work).0 ≡ taken m + one_if_none (channels.send m i work).1

module _ {B M : Type 0} (taken : M → ℕ) where
  -- The copies that are somewhere: in a mailbox, in a slot of the outlet, or among the discards.
  abbrev pub total : Routing B M → ℕ
  total s = taken s.mailboxes + length s.outlet.held + length s.discards

  -- `n` more copies are somewhere, and the outlet is that of the same instance.
  abbrev Adds : ℕ → Routing B M → Routing B M → Type 0
  Adds n s t =
      (total t ≡ total s + n)
      × (t.outlet.index ≡ s.outlet.index)
      × (t.outlet.routes ≡ s.outlet.routes)

  hold-Adds : (held : Held B) (s : Routing B M) → Adds 1 s (hold held s)
  unfolding hold
  hold-Adds held s = ground (
    arith,
    length-refill held s.outlet.held,
    length-append s.outlet.held (held ∷ []),
    length-append s.discards (record { port = held.port; reason = overflow } ∷ []),
  )

  refused_full-Adds :
      (o : Overflow) (port : ℕ) (target : Target) (work : Work B) (s : Routing B M)
      → Adds 1 s (refused_full o port target work s)
  unfolding refused_full
  refused_full-Adds drop_oldest port target work s =
      hold-Adds (record { port = port; target = target; work = work }) s
  refused_full-Adds backpressure port target work s =
      ground (arith, length-append s.discards (record { port = port; reason = self_full } ∷ []))

  unwired-Adds :
      (port : ℕ) (s : Routing B M) → Adds (if port == port_err then 1 else 0) s (unwired port s)
  unfolding unwired
  unwired-Adds port s =
      ground (arith, length-append s.discards (record { port = port; reason = unrouted } ∷ []))

  -- A refusal is a copy that is accounted for here.
  settled-Adds :
      (port : ℕ) (target : Target) (refused : Option (Undelivered B)) (s : Routing B M)
      → (n : ℕ) → n + one_if_none refused ≡ 1
      → Adds n s (settled port target refused s)
  unfolding settled
  settled-Adds port target none s n h = (omega (arith, h), refl, refl)
  settled-Adds port target (some (Undelivered.gone work)) s n h =
      ground (arith, length-append s.discards (record { port = port; reason = gone } ∷ []))
  settled-Adds port target (some (Undelivered.full work)) s n h =
      ground (arith, refused_full-Adds target.overflow port target work s)

  reposted-Adds :
      (held : Held B) (refused : Option (Undelivered B)) (s : Routing B M)
      → (n : ℕ) → n + one_if_none refused ≡ 1
      → Adds n s (reposted held refused s)
  unfolding reposted
  reposted-Adds held none s n h = (omega (arith, h), refl, refl)
  reposted-Adds held (some (Undelivered.gone work)) s n h =
      ground (arith, length-append s.discards (record { port = held.port; reason = gone } ∷ []))
  reposted-Adds held (some (Undelivered.full work)) s n h =
      ground (arith, length-append s.outlet.held (record held { work = work } ∷ []))

  -- An answer of a mailbox and what is made of it account for one copy together.
  settled_once :
      (port : ℕ) (target : Target) (refused : Option (Undelivered B)) (m : M) (s : Routing B M)
      → taken m ≡ taken s.mailboxes + one_if_none refused
      → Adds 1 s (settled port target refused (record s { mailboxes = m }))
  settled_once port target none m s h =
      let (n, i, r) = settled-Adds port target none (record s { mailboxes = m }) 0 (omega arith) in
      (omega arith, i, r)
  settled_once port target (some u) m s h =
      let (n, i, r) =
        settled-Adds port target (some u) (record s { mailboxes = m }) 1 (omega arith) in
      (omega arith, i, r)

  reposted_once :
      (held : Held B) (refused : Option (Undelivered B)) (m : M) (s : Routing B M)
      → taken m ≡ taken s.mailboxes + one_if_none refused
      → Adds 1 s (reposted held refused (record s { mailboxes = m }))
  reposted_once held none m s h =
      let (n, i, r) = reposted-Adds held none (record s { mailboxes = m }) 0 (omega arith) in
      (omega arith, i, r)
  reposted_once held (some u) m s h =
      let (n, i, r) = reposted-Adds held (some u) (record s { mailboxes = m }) 1 (omega arith) in
      (omega arith, i, r)

one_if_none-undelivered :
    {B : Type 0} (e : Option (TrySendError B)) → one_if_none (undelivered e) ≡ one_if_none e
one_if_none-undelivered none = refl
one_if_none-undelivered (some (TrySendError.full work)) = refl
one_if_none-undelivered (some (TrySendError.closed work)) = refl

one_if_none-unsent : {B : Type 0} (e : Option (Work B)) → one_if_none (unsent e) ≡ one_if_none e
one_if_none-unsent none = refl
one_if_none-unsent (some work) = refl

owed_same :
    {B : Type 0} {i j : ℕ} {r q : Routes} (pending : List (ℕ × B))
    → i ≡ j
    → r ≡ q
    → owed r i pending ≡ owed q j pending
owed_same {i = i} {q = q} pending p e = ap (λ x. owed x i pending) e ∙ ap (λ x. owed q x pending) p

module _ {B M : Type 0} (channels : Channels B M) (taken : M → ℕ)
    (accounts : Accounts channels taken) where
  try_send-taken :
      (m : M) (i : ℕ) (work : Work B)
      → taken (try_send channels m i work).0 ≡ taken m + one_if_none (try_send channels m i work).1
  unfolding try_send
  try_send-taken m i work =
      omega (arith, accounts.tried m i work, one_if_none-undelivered (channels.try_send m i work).1)

  send-taken :
      (m : M) (i : ℕ) (work : Work B)
      → taken (send channels m i work).0 ≡ taken m + one_if_none (send channels m i work).1
  unfolding send
  send-taken m i work =
      omega (arith, accounts.sent m i work, one_if_none-unsent (channels.send m i work).1)

  deliver-Adds :
      (port : ℕ) (target : Target) (batch : B) (s : Routing B M)
      → Adds taken 1 s (deliver channels port target batch s)
  unfolding deliver
  deliver-Adds port target batch s =
      let work : Work B = record { input_port = target.to.port; batch = batch } in
      let i = target.to.instance_index in
      if-splits
        (λ (r : M × Option (Undelivered B)).
          Adds taken 1 s (settled port target r.1 (record s { mailboxes = r.0 })))
        _ _ _ (λ _. settled_once taken port target _ _ s (send-taken s.mailboxes i work))
        (λ _. settled_once taken port target _ _ s (try_send-taken s.mailboxes i work))

  deliver_all-Adds :
      (port : ℕ) (items : List (Target × B)) (s : Routing B M)
      → Adds taken (length items) s (deliver_all channels port items s)
  unfolding deliver_all
  deliver_all-Adds port [] s = (omega arith, refl, refl)
  deliver_all-Adds port ((target, batch) ∷ items) s =
      let (n, i, r) = deliver-Adds port target batch s in
      let (n', i', r') = deliver_all-Adds port items (deliver channels port target batch s) in
      (omega arith, i' ∙ i, r' ∙ r)

  routed-Adds :
      (port : ℕ) (batch : B) (s : Routing B M) (ts : List Target)
      → targets s.outlet.routes (endpoint s.outlet.index port) ≡ some ts
      → Adds taken
          (due s.outlet.routes s.outlet.index port)
          s
          (routed channels port (over batch ts) s)
  unfolding routed
  routed-Adds port batch s ts found = elim (Bool-cases (length ts == 0)) [
    | inl e ↦ rw (found, e) (unwired-Adds taken port s)
    | inr e ↦
        let (n, i, r) = deliver_all-Adds port (collect (length ts) (over batch ts)) s in
        let all =
          ap length (collect-all ts batch (length ts) (omega arith))
          ∙ length-map (λ (t : Target). (t, batch)) ts in
        rw (found, e) (omega arith, i, r)
  ]

  flush_all-Adds :
      (held : List (Held B)) (s : Routing B M)
      → Adds taken (length held) s (flush_all channels held s)
  unfolding flush_all
  flush_all-Adds [] s = (omega arith, refl, refl)
  flush_all-Adds (h ∷ rest) s =
      let i = h.target.to.instance_index in
      let (n, ix, r) = reposted_once taken h _ _ s (try_send-taken s.mailboxes i h.work) in
      let (n', ix', r') = flush_all-Adds rest _ in (omega arith, ix' ∙ ix, r' ∙ r)

  flush-Adds : (s : Routing B M) → Adds taken 0 s (flush channels s)
  unfolding flush
  flush-Adds s =
      let (n, i, r) =
        flush_all-Adds s.outlet.held (record s { outlet = record s.outlet { held = [] } }) in
      (omega arith, i, r)

  route_all-Adds :
      (pending : List (ℕ × B)) (s : Routing B M)
      → Leaves s.outlet.routes
          (Adds taken (owed s.outlet.routes s.outlet.index pending) s)
          (route_all channels pending s)
  unfolding route_all
  route_all-Adds [] s = (omega arith, refl, refl)
  route_all-Adds ((port, batch) ∷ pending) s =
      Leaves-then s.outlet.routes (Adds taken (due s.outlet.routes s.outlet.index port) s)
        (Adds taken (owed s.outlet.routes s.outlet.index ((port, batch) ∷ pending)) s)
        (route channels port batch s) (route_all channels pending)
        (route-Leaves channels _ port batch s (routed-Adds port batch s))
        λ t added.
          let (n, i, r) = added in
          Leaves-map t.outlet.routes s.outlet.routes
            (Adds taken (owed t.outlet.routes t.outlet.index pending) t)
            (Adds taken (owed s.outlet.routes s.outlet.index ((port, batch) ∷ pending)) s)
            (route_all channels pending t) r
            (λ u more.
              let (n', i', r') = more in (omega (arith, owed_same pending i r), i' ∙ i, r' ∙ r))
            (route_all-Adds pending t)

  -- No copy is lost uncounted: a turn leaves as many more batches in the mailboxes, in the outlet's
  -- slots and among the discards together as the pending emissions owe, one to each receiver of
  -- its port, or one discard for an error that nothing receives. What was held counts once as well. The
  -- channels are to count what they take: one more for each delivery that they answer so, and no other.
  -- Only an endpoint whose lookup panics in the outlet's table keeps a turn from ending so.
  pub turn-Adds :
      (pending : List (ℕ × B)) (s : Routing B M)
      → Leaves s.outlet.routes
          (λ t. total taken t ≡ total taken s + owed s.outlet.routes s.outlet.index pending)
          (turn channels pending s)
  unfolding turn
  turn-Adds pending s =
      let (n, i, r) = flush-Adds s in
      Leaves-map (flush channels s).outlet.routes s.outlet.routes
        (Adds taken (owed (flush channels s).outlet.routes (flush channels s).outlet.index pending)
          (flush channels s))
        (λ t. total taken t ≡ total taken s + owed s.outlet.routes s.outlet.index pending)
        (turn channels pending s) r (λ t more. omega (arith, more.0, owed_same pending i r))
        (route_all-Adds pending (flush channels s))
