-- ===== src/Daemon/Outlet.antt =====
-- crates/daemon/src/router.rs: `Outlet`, which routes what its instance emits, and the round of an
-- instance after a callback (crates/daemon/src/instance.rs). The channels under the mailboxes
-- (crates/daemon/src/executor.rs) are a library's and an argument.
pub mod Frames
pub mod Rounds
pub mod Conserved
pub mod Slots
pub mod Waiting
mod Tests
use mathlib.Core.Option
use eieio.Base.{
  ℕ, zero, suc, Bool, true, false, not, ◌&&◌, Option, none, some, List, [], ◌∷◌, ◌++◌, ◌==◌,
  if◌then◌else◌, length,
}
use eieio.Host.Router.{
  endpoint, Target, Routes, Overflow, backpressure, drop_oldest, port_err, Deliveries, deliveries,
  collect,
}

pub data DiscardReason : Type 0 where
  unrouted overflow self_full gone : DiscardReason

pub record Discard : Type 0 where
  pub port : ℕ
  pub reason : DiscardReason

-- `Work::Deliver`, the only kind of work that an outlet posts.
pub record Work (B : Type 0) : Type 0 where
  pub input_port : ℕ
  pub batch : B

pub data TrySendError (B : Type 0) : Type 0 where
  full : Work B → TrySendError B
  closed : Work B → TrySendError B

-- The channels of a service, each reached by the index of the instance that it leads to now. `none`
-- is a delivery; `send` ends when there is room or nobody receives, whatever others do in between.
pub record Channels (B M : Type 0) : Type 0 where
  pub try_send : M → ℕ → Work B → M × Option (TrySendError B)
  pub send : M → ℕ → Work B → M × Option (Work B)

pub data Undelivered (B : Type 0) : Type 0 where
  full : Work B → Undelivered B
  gone : Work B → Undelivered B

-- `Mailbox::try_send` and `Mailbox::send`
abbrev pub undelivered : {B : Type 0} → Option (TrySendError B) → Option (Undelivered B)
undelivered none = none
undelivered (some (TrySendError.full work)) = some (Undelivered.full work)
undelivered (some (closed work)) = some (Undelivered.gone work)

abbrev pub unsent : {B : Type 0} → Option (Work B) → Option (Undelivered B)
unsent none = none
unsent (some work) = some (Undelivered.gone work)

unfoldable pub try_send :
    {B M : Type 0} → Channels B M → M → ℕ → Work B → M × Option (Undelivered B)
try_send channels m i work = let (m', e) = channels.try_send m i work in (m', undelivered e)

unfoldable pub send : {B M : Type 0} → Channels B M → M → ℕ → Work B → M × Option (Undelivered B)
send channels m i work = let (m', e) = channels.send m i work in (m', unsent e)

pub record Held (B : Type 0) : Type 0 where
  pub port : ℕ
  pub target : Target
  pub work : Work B

pub record Outlet (B : Type 0) : Type 0 where
  pub index : ℕ
  pub routes : Routes
  pub held : List (Held B)

-- What an operation leaves: the outlet, the channels and the discards so far.
pub record Routing (B M : Type 0) : Type 0 where
  pub outlet : Outlet B
  pub mailboxes : M
  pub discards : List Discard

module _ {B : Type 0} where
  -- `self.held.iter_mut().find(..)`: whether there is a slot of the connection, and the slots with
  -- the first such one filled anew.
  unfoldable pub has_slot : ℕ → List (Held B) → Bool
  has_slot connection [] = false
  has_slot connection (slot ∷ slots) =
      if slot.target.connection == connection then true else has_slot connection slots

  unfoldable pub refill : Held B → List (Held B) → List (Held B)
  refill held [] = []
  refill held (slot ∷ slots) =
      if slot.target.connection == held.target.connection
      then held ∷ slots
      else slot ∷ refill held slots

abbrev pub is_backpressure : Overflow → Bool
is_backpressure backpressure = true
is_backpressure drop_oldest = false

module _ {B M : Type 0} where
  abbrev pub discarded : ℕ → DiscardReason → Routing B M → Routing B M
  discarded port reason s = record s {
    discards = s.discards ++ record { port = port; reason = reason } ∷ [];
  }

  abbrev pub set_held : List (Held B) → Routing B M → Routing B M
  set_held held s = record s { outlet = record s.outlet { held = held } }

  -- A batch that a drop-oldest connection holds on to: the one it held before is dropped.
  unfoldable pub hold : Held B → Routing B M → Routing B M
  hold held s =
      if has_slot held.target.connection s.outlet.held
      then discarded held.port overflow (set_held (refill held s.outlet.held) s)
      else set_held (s.outlet.held ++ held ∷ []) s

  -- What `deliver` does with a refusal by a full mailbox, and with any answer.
  unfoldable pub refused_full : Overflow → ℕ → Target → Work B → Routing B M → Routing B M
  refused_full drop_oldest port target work s =
      hold (record { port = port; target = target; work = work }) s
  refused_full backpressure port target work s = discarded port self_full s

  unfoldable pub settled : ℕ → Target → Option (Undelivered B) → Routing B M → Routing B M
  settled port target none s = s
  settled port target (some (Undelivered.gone work)) s = discarded port DiscardReason.gone s
  settled port target (some (Undelivered.full work)) s =
      refused_full target.overflow port target work s

  -- A held batch that `flush` has tried again.
  unfoldable pub reposted : Held B → Option (Undelivered B) → Routing B M → Routing B M
  reposted held none s = s
  reposted held (some (Undelivered.full work)) s =
      set_held (s.outlet.held ++ record held { work = work } ∷ []) s
  reposted held (some (Undelivered.gone work)) s = discarded held.port DiscardReason.gone s

  -- `route` without a receiver.
  unfoldable pub unwired : ℕ → Routing B M → Routing B M
  unwired port s = if port == port_err then discarded port unrouted s else s

module _ {B M : Type 0} (channels : Channels B M) where
  unfoldable pub deliver : ℕ → Target → B → Routing B M → Routing B M
  deliver port target batch s =
      let work : Work B = record { input_port = target.to.port; batch = batch } in
      let waits =
        is_backpressure target.overflow && not (target.to.instance_index == s.outlet.index) in
      let (m, refused) =
        if waits
        then send channels s.mailboxes target.to.instance_index work
        else try_send channels s.mailboxes target.to.instance_index work in
      settled port target refused (record s { mailboxes = m })

  unfoldable pub deliver_all : ℕ → List (Target × B) → Routing B M → Routing B M
  deliver_all port [] s = s
  deliver_all port ((target, batch) ∷ items) s =
      deliver_all port items (deliver port target batch s)

  -- The iterator is asked once for each of the targets that it counts.
  unfoldable pub routed : ℕ → Deliveries B → Routing B M → Routing B M
  routed port items s =
      if length items.targets == 0
      then unwired port s
      else deliver_all port (collect (length items.targets) items) s

  -- `none` is the panic of the lookup.
  unfoldable pub route : ℕ → B → Routing B M → Option (Routing B M)
  route port batch s =
      Option.map (λ items. routed port items s)
        (deliveries s.outlet.routes (endpoint s.outlet.index port) batch)

  unfoldable pub flush_all : List (Held B) → Routing B M → Routing B M
  flush_all [] s = s
  flush_all (held ∷ rest) s =
      let (m, refused) = try_send channels s.mailboxes held.target.to.instance_index held.work in
      flush_all rest (reposted held refused (record s { mailboxes = m }))

  unfoldable pub flush : Routing B M → Routing B M
  flush s = flush_all s.outlet.held (set_held [] s)

  -- instance.rs, `Live::route`: what is held goes first, then each pending emission in order.
  unfoldable pub route_all : List (ℕ × B) → Routing B M → Option (Routing B M)
  route_all [] s = some s
  route_all ((port, batch) ∷ pending) s = elim (route port batch s) [
    | none ↦ none
    | some t ↦ route_all pending t
  ]

  unfoldable pub turn : List (ℕ × B) → Routing B M → Option (Routing B M)
  turn pending s = route_all pending (flush s)
