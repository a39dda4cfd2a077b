-- ===== src/Daemon/Outlet/Tests.antt =====
-- Runs of `Outlet` (crates/daemon/src/router.rs): an instance wired to itself and to two others.
use eieio.Base.{
  ℕ, zero, suc, ◌+◌, ◌-◌, Option, none, some, List, [], ◌∷◌, ◌≡◌, refl, arith, ◌==◌, if◌then◌else◌,
}
use eieio.Host.Router.{endpoint, Routes, backpressure, drop_oldest, port_err, deliveries, collect}
use eieio.Daemon.Outlet.{
  unrouted, overflow, self_full, Work, TrySendError, Channels, Routing, try_send, send, has_slot,
  refill, hold, refused_full, settled, unwired, deliver, deliver_all, routed, route, flush_all,
  flush, route_all, turn,
}
use eieio.Daemon.Outlet.Rounds.{Leaves}
use eieio.Daemon.Outlet.Conserved.{Accounts, total, owed, turn-Adds}
use eieio.Daemon.Outlet.Slots.{AreSlots, turn-AreSlots}
use eieio.Daemon.Outlet.Waiting.{Agree, turn-same}

-- What was taken in all, and the room that is left in each mailbox.
abbrev Rooms : Type 0
Rooms = ℕ × List ℕ

abbrev room_at : List ℕ → ℕ → ℕ
room_at [] i = 0
room_at (n ∷ rooms) zero = n
room_at (n ∷ rooms) (suc i) = room_at rooms i

abbrev fewer : List ℕ → ℕ → List ℕ
fewer [] i = []
fewer (n ∷ rooms) zero = (n - 1) ∷ rooms
fewer (n ∷ rooms) (suc i) = n ∷ fewer rooms i

abbrev try_room : Rooms → ℕ → Work ℕ → Rooms × Option (TrySendError ℕ)
try_room m i work =
    if room_at m.1 i == 0
    then (m, some (TrySendError.full work))
    else ((m.0 + 1, fewer m.1 i), none)

-- The others empty a mailbox that is waited for.
abbrev wait_room : Rooms → ℕ → Work ℕ → Rooms × Option (Work ℕ)
wait_room m i work = ((m.0 + 1, m.1), none)

abbrev channels : Channels ℕ Rooms
channels = record { try_send = try_room; send = wait_room }

-- The same, where a wait on the mailbox of instance 0 takes all that is in every mailbox.
abbrev wait_ill : Rooms → ℕ → Work ℕ → Rooms × Option (Work ℕ)
wait_ill m i work = if i == 0 then ((0, []), some work) else wait_room m i work

abbrev ill_channels : Channels ℕ Rooms
ill_channels = record { try_send = try_room; send = wait_ill }

abbrev routes : Routes
routes = record {
  sources = record { source = endpoint 0 0; start = 0; len = 3 } ∷ [];
  targets =
      record { to = endpoint 0 0; overflow = backpressure; connection = 0 }
      ∷ record { to = endpoint 1 0; overflow = backpressure; connection = 1 }
      ∷ record { to = endpoint 2 0; overflow = drop_oldest; connection = 2 }
      ∷ [];
}

abbrev start : Routing ℕ Rooms
start = record {
  outlet = record { index = 0; routes = routes; held = [] };
  mailboxes = (0, 1 ∷ 0 ∷ 0 ∷ []);
  discards = [];
}

abbrev pending : List (ℕ × ℕ)
pending = (0, 7) ∷ (0, 8) ∷ (port_err, 9) ∷ []

channels-Accounts : Accounts channels (λ m. m.0)
channels-Accounts = record { tried = λ m i work. ground arith; sent = λ m i work. refl }

channels-Agree : Agree channels ill_channels 0
channels-Agree = record { tried = λ m i work. refl; sent = λ m i work e. ground arith }

turn_twice :
    turn channels pending start
    ≡ some (record {
      outlet = record {
        index = 0;
        routes = routes;
        held =
            record {
              port = 0;
              target = record { to = endpoint 2 0; overflow = drop_oldest; connection = 2 };
              work = record { input_port = 0; batch = 8 };
            }
            ∷ [];
      };
      mailboxes = (3, 0 ∷ 0 ∷ 0 ∷ []);
      discards =
          record { port = 0; reason = self_full }
          ∷ record { port = 0; reason = overflow }
          ∷ record { port = port_err; reason = unrouted }
          ∷ [];
    })
unfolding turn deliveries route_all routed route flush flush_all deliver_all collect deliver settled
    try_send send refused_full hold has_slot unwired refill
turn_twice = refl

turn-Adds_example :
    Leaves routes
      (λ t. total (λ (m : Rooms). m.0) t ≡ total (λ (m : Rooms). m.0) start + owed routes 0 pending)
      (turn channels pending start)
turn-Adds_example = turn-Adds channels (λ m. m.0) channels-Accounts pending start

turn-AreSlots_example : Leaves routes (λ t. AreSlots t.outlet.held) (turn channels pending start)
turn-AreSlots_example = turn-AreSlots channels pending start (tt, tt)

turn-same_example : turn channels pending start ≡ turn ill_channels pending start
turn-same_example = turn-same channels ill_channels 0 channels-Agree pending start refl
