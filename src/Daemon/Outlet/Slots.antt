-- ===== src/Daemon/Outlet/Slots.antt =====
-- About the slots of `Outlet` (crates/daemon/src/router.rs), which hold what a full mailbox refused.
use eieio.Base.{
  ℕ, false, Option, none, some, List, [], ◌∷◌, ◌++◌, ◌≡◌, ◌≢◌, refl, sym, subst, inl, inr, arith,
  length, All, All-append, Bool-cases, if-splits, ◌==◌, append-nil, append_assoc,
}
use eieio.Host.Router.{
  Target, Routes, Overflow, backpressure, drop_oldest, Deliveries, over, collect,
}
use eieio.Daemon.Outlet.Frames.{routed-Same, flush_all-Same}
use eieio.Daemon.Outlet.Rounds.{Leaves, Leaves-map, Leaves-then, route-Leaves}
use eieio.Daemon.Outlet.{
  Work, Channels, Undelivered, Held, Routing, has_slot, refill, hold, refused_full, settled,
  reposted, unwired, deliver, deliver_all, routed, route, flush_all, flush, route_all, turn,
}

module _ {B : Type 0} where
  -- No slot of these is of that connection.
  abbrev Apart : ℕ → List (Held B) → Type 0
  Apart connection slots = All (λ slot. connection ≢ slot.target.connection) slots

  abbrev pub Distinct : List (Held B) → Type 0
  Distinct [] = Unit
  Distinct (slot ∷ slots) = Apart slot.target.connection slots × Distinct slots

  abbrev pub Replaceable : List (Held B) → Type 0
  Replaceable slots = All (λ slot. slot.target.overflow ≡ drop_oldest) slots

  -- Each connection has one slot at most, and only the drop-oldest ones have any.
  abbrev pub AreSlots : List (Held B) → Type 0
  AreSlots slots = Distinct slots × Replaceable slots

  Apart-refill :
      (c : ℕ) (held : Held B) (slots : List (Held B)) → Apart c slots → Apart c (refill held slots)
  unfolding refill
  Apart-refill c held [] h = tt
  Apart-refill c held (slot ∷ slots) h = ground (arith, Apart-refill c held slots)

  refill-AreSlots :
      (held : Held B) (slots : List (Held B))
      → held.target.overflow ≡ drop_oldest
      → AreSlots slots
      → AreSlots (refill held slots)
  unfolding refill
  refill-AreSlots held [] o h = (tt, tt)
  refill-AreSlots held (slot ∷ slots) o h =
      let (d, r) = refill-AreSlots held slots o (h.0.1, h.1.1) in
      elim (Bool-cases (slot.target.connection == held.target.connection)) [
        | inl e ↦
            let same : slot.target.connection ≡ held.target.connection = ground arith in
            rw e ((subst (λ c. Apart c slots) same h.0.0, h.0.1), (o, h.1.1))
        | inr e ↦ rw e ((Apart-refill slot.target.connection held slots h.0.0, d), (h.1.0, r))
      ]

  has_slot-Apart :
      (held : Held B) (slots : List (Held B))
      → has_slot held.target.connection slots ≡ false
      → Apart held.target.connection slots
  unfolding has_slot
  has_slot-Apart held [] e = tt
  has_slot-Apart held (slot ∷ slots) e =
      elim (Bool-cases (slot.target.connection == held.target.connection)) [
        | inl found ↦ absurd (ground arith)
        | inr missed ↦ (ground arith, has_slot-Apart held slots (ground arith))
      ]

  Distinct-append :
      (slots : List (Held B)) (held : Held B)
      → Apart held.target.connection slots
      → Distinct slots
      → Distinct (slots ++ held ∷ [])
  Distinct-append [] held a d = (tt, tt)
  Distinct-append (slot ∷ slots) held a d = (
    All-append (λ x. slot.target.connection ≢ x.target.connection) slots (held ∷ []) d.0
        ((λ e. a.0 (sym e)), tt),
    Distinct-append slots held a.1 d.1,
  )

  append-AreSlots :
      (slots : List (Held B)) (held : Held B)
      → Apart held.target.connection slots
      → held.target.overflow ≡ drop_oldest
      → AreSlots slots
      → AreSlots (slots ++ held ∷ [])
  append-AreSlots slots held a o h = (
    Distinct-append slots held a h.0,
    All-append (λ x. x.target.overflow ≡ drop_oldest) slots (held ∷ []) h.1 (o, tt),
  )

  Apart-without :
      (c : ℕ) (front rest : List (Held B)) (slot : Held B)
      → Apart c (front ++ slot ∷ rest)
      → Apart c (front ++ rest)
  Apart-without c [] rest slot h = h.1
  Apart-without c (x ∷ front) rest slot h = (h.0, Apart-without c front rest slot h.1)

  AreSlots-without :
      (front rest : List (Held B)) (slot : Held B)
      → AreSlots (front ++ slot ∷ rest)
      → AreSlots (front ++ rest)
  AreSlots-without [] rest slot h = (h.0.1, h.1.1)
  AreSlots-without (x ∷ front) rest slot ((a, d), (o, r)) =
      let (d', r') = AreSlots-without front rest slot (d, r) in
      ((Apart-without x.target.connection front rest slot a, d'), (o, r'))

  Apart-retried :
      (c : ℕ) (front rest : List (Held B)) (slot : Held B) (work : Work B)
      → Apart c (front ++ slot ∷ rest)
      → Apart c (front ++ record slot { work = work } ∷ rest)
  Apart-retried c [] rest slot work h = h
  Apart-retried c (x ∷ front) rest slot work h = (h.0, Apart-retried c front rest slot work h.1)

  AreSlots-retried :
      (front rest : List (Held B)) (slot : Held B) (work : Work B)
      → AreSlots (front ++ slot ∷ rest)
      → AreSlots (front ++ record slot { work = work } ∷ rest)
  AreSlots-retried [] rest slot work h = h
  AreSlots-retried (x ∷ front) rest slot work ((a, d), (o, r)) =
      let (d', r') = AreSlots-retried front rest slot work (d, r) in
      ((Apart-retried x.target.connection front rest slot work a, d'), (o, r'))

module _ {B M : Type 0} where
  reposted-AreSlots :
      (slot : Held B) (rest : List (Held B)) (refused : Option (Undelivered B)) (s : Routing B M)
      → AreSlots (s.outlet.held ++ slot ∷ rest)
      → AreSlots ((reposted slot refused s).outlet.held ++ rest)
  unfolding reposted
  reposted-AreSlots slot rest none s h = AreSlots-without s.outlet.held rest slot h
  reposted-AreSlots slot rest (some (Undelivered.gone work)) s h =
      AreSlots-without s.outlet.held rest slot h
  reposted-AreSlots slot rest (some (Undelivered.full work)) s h =
      subst AreSlots (sym (append_assoc s.outlet.held (record slot { work = work } ∷ []) rest))
        (AreSlots-retried s.outlet.held rest slot work h)

  hold-AreSlots :
      (held : Held B) (s : Routing B M)
      → held.target.overflow ≡ drop_oldest
      → AreSlots s.outlet.held
      → AreSlots (hold held s).outlet.held
  unfolding hold
  hold-AreSlots held s o h = elim (Bool-cases (has_slot held.target.connection s.outlet.held)) [
    | inl e ↦ rw e (refill-AreSlots held s.outlet.held o h)
    | inr e ↦ rw e (append-AreSlots s.outlet.held held (has_slot-Apart held s.outlet.held e) o h)
  ]

  refused_full-AreSlots :
      (o : Overflow) (port : ℕ) (target : Target) (work : Work B) (s : Routing B M)
      → target.overflow ≡ o
      → AreSlots s.outlet.held
      → AreSlots (refused_full o port target work s).outlet.held
  unfolding refused_full
  refused_full-AreSlots drop_oldest port target work s o h = hold-AreSlots _ s o h
  refused_full-AreSlots backpressure port target work s o h = h

  settled-AreSlots :
      (port : ℕ) (target : Target) (refused : Option (Undelivered B)) (s : Routing B M)
      → AreSlots s.outlet.held
      → AreSlots (settled port target refused s).outlet.held
  unfolding settled
  settled-AreSlots port target none s h = h
  settled-AreSlots port target (some (Undelivered.gone work)) s h = h
  settled-AreSlots port target (some (Undelivered.full work)) s h =
      refused_full-AreSlots target.overflow port target work s refl h

  unwired-AreSlots :
      (port : ℕ) (s : Routing B M) → AreSlots s.outlet.held → AreSlots (unwired port s).outlet.held
  unfolding unwired
  unwired-AreSlots port s h =
      if-splits (λ (t : Routing B M). AreSlots t.outlet.held) _ _ _ (λ _. h) (λ _. h)

module _ {B M : Type 0} (channels : Channels B M) where
  deliver_all-AreSlots :
      (port : ℕ) (items : List (Target × B)) (s : Routing B M)
      → AreSlots s.outlet.held
      → AreSlots (deliver_all channels port items s).outlet.held
  unfolding deliver_all deliver
  deliver_all-AreSlots port [] s h = h
  deliver_all-AreSlots port ((target, batch) ∷ items) s h =
      deliver_all-AreSlots port items _ (settled-AreSlots port target _ _ h)

  -- What every round keeps: the slots, and the table.
  abbrev Kept : Routes → Routing B M → Type 0
  Kept routes t = AreSlots t.outlet.held × (t.outlet.routes ≡ routes)

  routed-Kept :
      (port : ℕ) (items : Deliveries B) (s : Routing B M)
      → AreSlots s.outlet.held
      → Kept s.outlet.routes (routed channels port items s)
  unfolding routed
  routed-Kept port items s h = (
    if-splits (λ (t : Routing B M). AreSlots t.outlet.held) (length items.targets == 0)
        (unwired port s) (deliver_all channels port (collect (length items.targets) items) s)
        (λ _. unwired-AreSlots port s h)
        (λ _. deliver_all-AreSlots port (collect (length items.targets) items) s h),
    (routed-Same channels port items s).1,
  )

  -- The slots that are kept and those still to be tried are slots together.
  flush_all-AreSlots :
      (held : List (Held B)) (s : Routing B M)
      → AreSlots (s.outlet.held ++ held)
      → AreSlots (flush_all channels held s).outlet.held
  unfolding flush_all
  flush_all-AreSlots [] s h = subst AreSlots (append-nil s.outlet.held) h
  flush_all-AreSlots (slot ∷ rest) s h =
      flush_all-AreSlots rest _ (reposted-AreSlots slot rest _ _ h)

  route_all-AreSlots :
      (pending : List (ℕ × B)) (s : Routing B M)
      → AreSlots s.outlet.held
      → Leaves s.outlet.routes (λ t. AreSlots t.outlet.held) (route_all channels pending s)
  unfolding route_all
  route_all-AreSlots [] s h = h
  route_all-AreSlots ((port, batch) ∷ pending) s h =
      Leaves-then s.outlet.routes (Kept s.outlet.routes) (λ t. AreSlots t.outlet.held)
        (route channels port batch s) (route_all channels pending)
        (route-Leaves channels (Kept s.outlet.routes) port batch s
          (λ ts _. routed-Kept port (over batch ts) s h))
        λ t kept.
          Leaves-map t.outlet.routes s.outlet.routes (λ u. AreSlots u.outlet.held)
            (λ u. AreSlots u.outlet.held) (route_all channels pending t) kept.1 (λ u k. k)
            (route_all-AreSlots pending t kept.0)

  -- From an outlet of which this holds, as it does of a new one: after every turn the outlet holds
  -- at most one batch for a connection, and only for connections that drop the oldest, so what it
  -- holds is bounded by the number of those. Only an endpoint whose lookup panics in the outlet's
  -- table keeps a turn from ending so.
  pub turn-AreSlots :
      (pending : List (ℕ × B)) (s : Routing B M)
      → AreSlots s.outlet.held
      → Leaves s.outlet.routes (λ t. AreSlots t.outlet.held) (turn channels pending s)
  unfolding turn flush
  turn-AreSlots pending s h =
      let start : Routing B M = record s { outlet = record s.outlet { held = [] } } in
      let flushed = flush_all channels s.outlet.held start in
      Leaves-map flushed.outlet.routes s.outlet.routes (λ u. AreSlots u.outlet.held)
        (λ u. AreSlots u.outlet.held) (route_all channels pending flushed)
        (flush_all-Same channels s.outlet.held start).1 (λ u k. k)
        (route_all-AreSlots pending flushed (flush_all-AreSlots s.outlet.held start h))
