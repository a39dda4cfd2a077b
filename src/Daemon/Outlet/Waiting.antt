-- ===== src/Daemon/Outlet/Waiting.antt =====
-- About which deliveries of `Outlet` (crates/daemon/src/router.rs) wait for room.
use mathlib.Core.Option
use eieio.Base.{
  ℕ, not, ◌&&◌, Option, none, some, List, [], ◌∷◌, ◌≡◌, ◌≢◌, refl, ap, ◌∙◌, inl, inr, arith, length,
  Bool-cases, ◌==◌, if◌then◌else◌,
}
use eieio.Host.Router.{
  endpoint, Target, Overflow, backpressure, drop_oldest, Deliveries, deliveries, collect,
}
use eieio.Daemon.Outlet.Frames.{deliver-Same, routed-Same, flush_all-Same}
use eieio.Daemon.Outlet.{
  Work, Channels, Undelivered, Held, Routing, is_backpressure, settled, reposted, unwired, deliver,
  deliver_all, routed, route, flush_all, flush, route_all, turn, send, try_send,
}

-- Two families of channels that answer alike, but for a wait on that instance's own mailbox.
pub record Agree {B M : Type 0} (c d : Channels B M) (own : ℕ) : Type 0 where
  pub tried : (m : M) (i : ℕ) (work : Work B) → c.try_send m i work ≡ d.try_send m i work
  pub sent : (m : M) (i : ℕ) (work : Work B) → i ≢ own → c.send m i work ≡ d.send m i work

module _ {B M : Type 0} (c d : Channels B M) (own : ℕ) (agree : Agree c d own) where
  try_send-same : (m : M) (i : ℕ) (work : Work B) → try_send c m i work ≡ try_send d m i work
  unfolding try_send
  try_send-same m i work = rw (agree.tried m i work)

  send-same : (m : M) (i : ℕ) (work : Work B) → i ≢ own → send c m i work ≡ send d m i work
  unfolding send
  send-same m i work e = rw (agree.sent m i work e)

  -- The choice of `deliver` between the two ways to post.
  posted-same :
      (o : Overflow) (index : ℕ) (m : M) (i : ℕ) (work : Work B)
      → index ≡ own
      → (if is_backpressure o && not (i == index) then send c m i work else try_send c m i work)
        ≡ (if is_backpressure o && not (i == index) then send d m i work else try_send d m i work)
  posted-same drop_oldest index m i work e = try_send-same m i work
  posted-same backpressure index m i work e = elim (Bool-cases (i == index)) [
    | inl self ↦ rw self (try_send-same m i work)
    | inr other ↦ rw other (send-same m i work (ground arith))
  ]

  deliver-same :
      (port : ℕ) (target : Target) (batch : B) (s : Routing B M)
      → s.outlet.index ≡ own
      → deliver c port target batch s ≡ deliver d port target batch s
  unfolding deliver
  deliver-same port target batch s e =
      let i = target.to.instance_index in
      let work : Work B = record { input_port = target.to.port; batch = batch } in
      ap
        (λ (r : M × Option (Undelivered B)). settled port target r.1 (record s { mailboxes = r.0 }))
        (posted-same target.overflow s.outlet.index s.mailboxes i work e)

  deliver_all-same :
      (port : ℕ) (items : List (Target × B)) (s : Routing B M)
      → s.outlet.index ≡ own
      → deliver_all c port items s ≡ deliver_all d port items s
  unfolding deliver_all
  deliver_all-same port [] s e = refl
  deliver_all-same port ((target, batch) ∷ items) s e =
      deliver_all-same port items (deliver c port target batch s)
        ((deliver-Same c port target batch s).0 ∙ e)
      ∙ ap (deliver_all d port items) (deliver-same port target batch s e)

  routed-same :
      (port : ℕ) (items : Deliveries B) (s : Routing B M)
      → s.outlet.index ≡ own
      → routed c port items s ≡ routed d port items s
  unfolding routed
  routed-same port items s e =
      ap (λ (t : Routing B M). if length items.targets == 0 then unwired port s else t)
        (deliver_all-same port (collect (length items.targets) items) s e)

  flush_all-same :
      (held : List (Held B)) (s : Routing B M) → flush_all c held s ≡ flush_all d held s
  unfolding flush_all
  flush_all-same [] s = refl
  flush_all-same (slot ∷ held) s =
      flush_all-same held _
      ∙ ap
          (λ (r : M × Option (Undelivered B)).
            flush_all d held (reposted slot r.1 (record s { mailboxes = r.0 })))
          (try_send-same s.mailboxes slot.target.to.instance_index slot.work)

  -- One round by either channels, and the rounds after it.
  rounds-same :
      (port : ℕ) (found : Option (Deliveries B)) (pending : List (ℕ × B)) (s : Routing B M)
      → s.outlet.index ≡ own
      → ((t : Routing B M) → t.outlet.index ≡ own → route_all c pending t ≡ route_all d pending t)
      → (elim (Option.map (λ items. routed c port items s) found) [
        | none ↦ none
        | some t ↦ route_all c pending t
      ])
        ≡ (elim (Option.map (λ items. routed d port items s) found) [
          | none ↦ none
          | some t ↦ route_all d pending t
        ])
  rounds-same port none pending s e later = refl
  rounds-same port (some items) pending s e later =
      later (routed c port items s) ((routed-Same c port items s).0 ∙ e)
      ∙ ap (route_all d pending) (routed-same port items s e)

  route_all-same :
      (pending : List (ℕ × B)) (s : Routing B M)
      → s.outlet.index ≡ own
      → route_all c pending s ≡ route_all d pending s
  unfolding route_all route
  route_all-same [] s e = refl
  route_all-same ((port, batch) ∷ pending) s e =
      rounds-same port (deliveries s.outlet.routes (endpoint s.outlet.index port) batch) pending s e
        (route_all-same pending)

  -- An instance never waits on its own mailbox, which only it could empty: a turn ends the same
  -- whatever waiting for room there would do, so also where it would never end.
  pub turn-same :
      (pending : List (ℕ × B)) (s : Routing B M)
      → s.outlet.index ≡ own
      → turn c pending s ≡ turn d pending s
  unfolding turn flush
  turn-same pending s e =
      let start : Routing B M = record s { outlet = record s.outlet { held = [] } } in
      route_all-same pending (flush_all c s.outlet.held start)
        ((flush_all-Same c s.outlet.held start).0 ∙ e)
      ∙ ap (route_all d pending) (flush_all-same s.outlet.held start)
