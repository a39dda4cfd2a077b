-- ===== src/Host/Prop/Cache.antt =====
-- About `answer` and its cache (crates/host-core/src/prop.rs).
use eieio.Base.{
  ℕ, ◌≡◌, ◌⊎◌, refl, sym, ap, true, false, Option, none, some, List, [], ◌∷◌, ◌==◌, if◌then◌else◌,
  inl, inr, arith, All, Result, ok, err, Bytes, get_elem?, ltb, if-splits, Bool-cases, subst,
}
use mathlib.Core.Option
use mathlib.Core.Option.{some-injective}
use eieio.Abi.{ErrorCode, invalid_arg, no_signal_context, not_found, signal_none}
use eieio.Expr.Syntax.{Expr}
use eieio.Host.Prop.Types.{PropertyType}
use eieio.Host.Prop.{
  Batch, Answer, Body, unset, per_signal, folded, Compiled, State, Evaluate, served, signal_at,
  current, same_key, cached, batch_len, remember, evaluated, looked_up, at_signal, folded_answer,
  answer_body, answer_prop, answer, opened,
}

module _ (evaluate : Evaluate) (props : List Compiled) (signals : Option Batch) where
  -- What `prop` is to answer: every signal-dependent property evaluated at the signal of the batch.
  abbrev pub evaluated_now : Option Answer → Option (Result ErrorCode Bytes)
  evaluated_now none = none
  evaluated_now (some answered) = some (served answered)

  abbrev pub fresh_signal :
      Expr → PropertyType → Result ErrorCode (Option ℕ) → Option (Result ErrorCode Bytes)
  fresh_signal e ty (err code) = some (err code)
  fresh_signal e ty (ok signal) = evaluated_now (evaluate e ty (current signals signal))

  abbrev pub fresh_body : Body → PropertyType → ℕ → Option (Result ErrorCode Bytes)
  fresh_body unset ty signal_idx = some (err not_found)
  fresh_body (folded kept) ty signal_idx = some (folded_answer kept (signal_at signals signal_idx))
  fresh_body (per_signal e) ty signal_idx =
      if signal_idx == signal_none
      then some (err no_signal_context)
      else fresh_signal e ty (signal_at signals signal_idx)

  abbrev pub fresh_prop : Option Compiled → ℕ → Option (Result ErrorCode Bytes)
  fresh_prop none signal_idx = some (err invalid_arg)
  fresh_prop (some property) signal_idx = fresh_body property.body property.ty signal_idx

  abbrev pub fresh : ℕ × ℕ → Option (Result ErrorCode Bytes)
  fresh (prop_id, signal_idx) = fresh_prop (get_elem? props prop_id) signal_idx

  -- An entry of the cache holds what its key's property evaluates to at its key's signal.
  abbrev pub Sound : (ℕ × ℕ) × Answer → Type 0
  Sound ((prop_id, signal_idx), kept) =
      (property : Compiled) × (e : Expr) × (get_elem? props prop_id ≡ some property)
      × (property.body ≡ per_signal e)
      × (evaluate e property.ty (current signals (some signal_idx)) ≡ some kept)

  pub record InScope (state : State) : Type 0 where
    pub same_signals : state.signals ≡ signals
    pub still_open : state.is_open ≡ true
    pub sound : All Sound state.cache

  -- An answer that is the fresh one, and leaves the scope as it has to be.
  abbrev pub Faithful :
      Option (Result ErrorCode Bytes) → Option (Result ErrorCode Bytes × State) → Type 0
  Faithful want none = want ≡ none
  Faithful want (some (got, state)) = (want ≡ some got) × InScope state

  same_key→eq : (k l : ℕ × ℕ) → same_key k l ≡ true → k ≡ l
  same_key→eq (p, i) (q, j) h = ground arith

  cached-Sound :
      (key : ℕ × ℕ) (cache : List ((ℕ × ℕ) × Answer)) (kept : Answer)
      → All Sound cache
      → cached key cache ≡ some kept
      → Sound (key, kept)
  unfolding cached
  cached-Sound key [] kept all h = absurd (ground arith)
  cached-Sound key ((k, a) ∷ cache) kept (here, there) h = elim (Bool-cases (same_key k key)) [
    | inl hit ↦
        let same : a ≡ kept = some-injective a kept (rw hit at h) in
        subst Sound (λ i. (same_key→eq k key hit i, same i)) here
    | inr miss ↦ cached-Sound key cache kept there (rw miss at h)
  ]

  remember-InScope :
      (key : ℕ × ℕ) (signal : Option ℕ) (kept : Answer) (state : State)
      → InScope state
      → Sound (key, kept)
      → InScope (remember key signal kept state)
  remember-InScope key signal kept state scope sound = record {
    same_signals = scope.same_signals;
    still_open = scope.still_open;
    sound = (sound, scope.sound);
  }

  module _ (property : Compiled) (e : Expr) (prop_id : ℕ)
      (named : get_elem? props prop_id ≡ some property)
      (dependent : property.body ≡ per_signal e) where
    evaluated-Faithful :
        (signal_idx : ℕ) (state : State) (o : Option Answer)
        → evaluate e property.ty (current signals (some signal_idx)) ≡ o
        → InScope state
        → Faithful
            (evaluated_now o)
            (evaluated evaluate (prop_id, signal_idx) (some signal_idx) state o)
    unfolding evaluated
    evaluated-Faithful signal_idx state none now scope = refl
    evaluated-Faithful signal_idx state (some kept) now scope = (
      refl,
      remember-InScope (prop_id, signal_idx) (some signal_idx) kept state scope
          (property, e, named, dependent, now),
    )

    looked_up-Faithful :
        (signal_idx : ℕ) (state : State) (o : Option Answer)
        → cached (prop_id, signal_idx) state.cache ≡ o
        → InScope state
        → Faithful
            (evaluated_now (evaluate e property.ty (current signals (some signal_idx))))
            (looked_up evaluate e property.ty (prop_id, signal_idx) (some signal_idx) state o)
    unfolding looked_up
    looked_up-Faithful signal_idx state none at scope =
        subst
          (λ (b : Option Batch).
            Faithful (evaluated_now (evaluate e property.ty (current signals (some signal_idx)))) (
              evaluated evaluate (prop_id, signal_idx) (some signal_idx) state
                (evaluate e property.ty (current b (some signal_idx)))))
          (sym scope.same_signals) (evaluated-Faithful signal_idx state _ refl scope)
    looked_up-Faithful signal_idx state (some kept) at scope =
        let (property', e', named', dependent', now) =
          cached-Sound (prop_id, signal_idx) state.cache kept scope.sound at in
        let same : evaluate e property.ty (current signals (some signal_idx)) ≡ some kept = cc in
        (ap evaluated_now same, scope)

    at_signal-Faithful :
        (signal_idx : ℕ) (state : State) (r : Result ErrorCode (Option ℕ))
        → InScope state
        → (r ≡ ok (some signal_idx)) ⊎ (r ≡ err invalid_arg)
        → Faithful
            (fresh_signal e property.ty r)
            (at_signal evaluate e property.ty (prop_id, signal_idx) state r)
    unfolding at_signal
    at_signal-Faithful signal_idx state r scope (inr bad) = rw bad (refl, scope)
    at_signal-Faithful signal_idx state r scope (inl good) =
        rw good (
          looked_up-Faithful signal_idx state (cached (prop_id, signal_idx) state.cache) refl scope)

  -- An index that is not `SIGNAL_NONE` is that of a signal, or refused.
  signal_at-splits :
      (b : Option Batch) (signal_idx : ℕ)
      → (signal_idx == signal_none) ≡ false
      → (signal_at b signal_idx ≡ ok (some signal_idx)) ⊎ (signal_at b signal_idx ≡ err invalid_arg)
  unfolding signal_at
  signal_at-splits b signal_idx named = elim (Bool-cases (ltb signal_idx (batch_len b))) [
    | inl within ↦ inl (rw (named, within) refl)
    | inr outside ↦ inr (rw (named, outside) refl)
  ]

  body-Faithful :
      (property : Compiled) (body : Body) (prop_id signal_idx : ℕ) (state : State)
      → get_elem? props prop_id ≡ some property
      → property.body ≡ body
      → InScope state
      → Faithful
          (fresh_body body property.ty signal_idx)
          (answer_body evaluate body property.ty prop_id signal_idx state)
  unfolding answer_body
  body-Faithful property unset prop_id signal_idx state named is scope = (refl, scope)
  body-Faithful property (folded kept) prop_id signal_idx state named is scope = (
    ap (λ (b : Option Batch). some (folded_answer kept (signal_at b signal_idx)))
        (sym scope.same_signals),
    scope,
  )
  body-Faithful property (per_signal e) prop_id signal_idx state named is scope =
      elim (Bool-cases (signal_idx == signal_none)) [
        | inl none_named ↦ rw none_named (refl, scope)
        | inr other ↦ rw other (
            subst
              (λ (b : Option Batch).
                Faithful (fresh_signal e property.ty (signal_at signals signal_idx)) (
                  at_signal evaluate e property.ty (prop_id, signal_idx) state
                    (signal_at b signal_idx)))
              (sym scope.same_signals)
              (at_signal-Faithful property e prop_id named is signal_idx state
                (signal_at signals signal_idx) scope (signal_at-splits signals signal_idx other)))
      ]

  prop-Faithful :
      (property : Option Compiled) (prop_id signal_idx : ℕ) (state : State)
      → get_elem? props prop_id ≡ property
      → InScope state
      → Faithful
          (fresh_prop property signal_idx)
          (answer_prop evaluate property prop_id signal_idx state)
  unfolding answer_prop
  prop-Faithful none prop_id signal_idx state named scope = (refl, scope)
  prop-Faithful (some property) prop_id signal_idx state named scope =
      if-splits (Faithful (fresh_body property.body property.ty signal_idx)) state.is_open _ _
        (λ _. body-Faithful property property.body prop_id signal_idx state named refl scope)
        (λ shut. absurd (cc (scope.still_open, shut)))

  answer-Faithful :
      (key : ℕ × ℕ) (state : State)
      → InScope state
      → Faithful (fresh key) (answer evaluate props key.0 key.1 state)
  unfolding answer
  answer-Faithful key state scope =
      prop-Faithful (get_elem? props key.0) key.0 key.1 state refl scope

  -- The guest's calls of `prop` during one callback, in order: what they are answered.
  abbrev pub and_then :
      (State → Option (List (Result ErrorCode Bytes)))
      → Option (Result ErrorCode Bytes × State)
      → Option (List (Result ErrorCode Bytes))
  and_then rest none = none
  and_then rest (some (got, state)) = Option.map (λ others. got ∷ others) (rest state)

  abbrev pub ask_all : List (ℕ × ℕ) → State → Option (List (Result ErrorCode Bytes))
  ask_all [] state = some []
  ask_all (key ∷ keys) state = and_then (ask_all keys) (answer evaluate props key.0 key.1 state)

  abbrev pub beside :
      Option (Result ErrorCode Bytes)
      → Option (List (Result ErrorCode Bytes))
      → Option (List (Result ErrorCode Bytes))
  beside none others = none
  beside (some got) others = Option.map (λ rest. got ∷ rest) others

  -- The same, each evaluated for itself.
  abbrev pub fresh_all : List (ℕ × ℕ) → Option (List (Result ErrorCode Bytes))
  fresh_all [] = some []
  fresh_all (key ∷ keys) = beside (fresh key) (fresh_all keys)

  and_then-beside :
      (want : Option (Result ErrorCode Bytes)) (got : Option (Result ErrorCode Bytes × State))
      (rest : State → Option (List (Result ErrorCode Bytes)))
      (others : Option (List (Result ErrorCode Bytes)))
      → Faithful want got
      → ((state : State) → InScope state → rest state ≡ others)
      → and_then rest got ≡ beside want others
  and_then-beside want none rest others no_end later = rw no_end refl
  and_then-beside want (some (got, state)) rest others (same, scope) later =
      rw same (ap (Option.map (λ r. got ∷ r)) (later state scope))

  asked-fresh :
      (keys : List (ℕ × ℕ)) (state : State) → InScope state → ask_all keys state ≡ fresh_all keys
  asked-fresh [] state scope = refl
  asked-fresh (key ∷ keys) state scope =
      and_then-beside (fresh key) (answer evaluate props key.0 key.1 state) (ask_all keys)
        (fresh_all keys) (answer-Faithful key state scope) (asked-fresh keys)

-- Whatever properties of whatever signals a guest asks for in one callback, in whatever order and
-- as often as it likes: the answers are those of evaluating each property afresh at the signal that
-- is asked for, with the same refusals, when the cache is empty as the callback begins. This holds of
-- every evaluation, `none` standing for one that does not end.
pub ask_all-fresh_all :
    (evaluate : Evaluate) (props : List Compiled) (signals : Option Batch) (state : State)
    (keys : List (ℕ × ℕ))
    → state.cache ≡ []
    → ask_all evaluate props signals keys (opened signals state)
      ≡ fresh_all evaluate props signals keys
unfolding opened
ask_all-fresh_all evaluate props signals state keys empty =
    asked-fresh evaluate props signals keys (opened signals state) (record {
      same_signals = refl;
      still_open = refl;
      sound = subst (All (Sound evaluate props signals)) (sym empty) tt;
    })
