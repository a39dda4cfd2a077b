-- ===== src/Host/Router/Names.antt =====
-- About the ends that `resolve` accepts (crates/host-core/src/router.rs).
use mathlib.Core.Option.{some-injective}
use eieio.Base.{
  ℕ, zero, suc, ◌+◌, ◌%◌, ◌^◌, ◌<◌, ◌≤◌, true, false, Option, none, some, List, [], ◌∷◌, ◌≡◌, refl,
  sym, ap, subst, ◌∙◌, arith, All, All-get, if◌then◌else◌, length, get_elem?, ok, ok-injective,
  Option-cases, Bool-cases, inl, inr, >>=-splits, Bytes, text_eq, text_eq→eq, ◌==◌,
}
use eieio.Host.Router.{
  Endpoint, Descriptor, Port, endpoint, port_err, port_err_name, find_instance, find_descriptor,
  position, declared_port, resolve_output, End, output, output_name,
}

position-get :
    (names : List Bytes) (name : Bytes) (i : ℕ)
    → position names name ≡ some i
    → (get_elem? names i ≡ some name) × (i < length names)
unfolding position
position-get [] name i h = absurd (ground arith)
position-get (n ∷ ns) name i h = elim (Bool-cases (text_eq n name)) [
  | inl same ↦
      let first : 0 ≡ i = some-injective 0 i (rw same at h) in
      subst (λ k. (get_elem? (n ∷ ns) k ≡ some name) × (k < suc (length ns))) first
        (ap some (text_eq→eq n name same), omega arith)
  | inr other ↦ elim (Option-cases (position ns name)) [
    | inl absent ↦ absurd (ground arith)
    | inr (k, at) ↦
        let (found, low) = position-get ns name k at in
        let later : suc k ≡ i = ground arith in
        subst (λ k. (get_elem? (n ∷ ns) k ≡ some name) × (k < suc (length ns))) later
          (found, omega arith)
  ]
]

-- The descriptor at the index has the id, and no other does.
abbrev pub IsTheOne : List Descriptor → Bytes → ℕ → Descriptor → Type 0
IsTheOne ds id index d =
    (get_elem? ds index ≡ some d)
    × (text_eq d.instance_id id ≡ true)
    × ((j : ℕ) (e : Descriptor)
        → get_elem? ds j ≡ some e
        → text_eq e.instance_id id ≡ true
        → j ≡ index)

find_instance_found :
    (port : Port) (index : ℕ) (ds : List Descriptor) (f r : ℕ × Descriptor)
    → find_instance port index ds (some f) ≡ ok r
    → (f ≡ r) × All (λ (d : Descriptor). text_eq d.instance_id port.instance_id ≡ false) ds
unfolding find_instance
find_instance_found port index [] f r h = (ok-injective h, tt)
find_instance_found port index (d ∷ ds) f r h =
    elim (Bool-cases (text_eq d.instance_id port.instance_id)) [
      | inl same ↦ absurd (ground arith)
      | inr other ↦
          let (kept, rest) = find_instance_found port (suc index) ds f r (rw other at h) in
          (kept, (other, rest))
    ]

none_at :
    (ds : List Descriptor) (id : Bytes) (j : ℕ) (e : Descriptor)
    → All (λ (d : Descriptor). text_eq d.instance_id id ≡ false) ds
    → get_elem? ds j ≡ some e
    → text_eq e.instance_id id ≡ true
    → ⊥
none_at [] id j e h at same = absurd (ground arith)
none_at (d ∷ ds) id zero e h at same = ground arith
none_at (d ∷ ds) id (suc j) e h at same = none_at ds id j e h.1 at same

IsTheOne-here :
    (x : Descriptor) (ds : List Descriptor) (id : Bytes)
    → text_eq x.instance_id id ≡ true
    → All (λ (d : Descriptor). text_eq d.instance_id id ≡ false) ds
    → IsTheOne (x ∷ ds) id 0 x
IsTheOne-here x ds id same none_else = (refl, same, only)
  where
    only :
        (j : ℕ) (e : Descriptor)
        → get_elem? (x ∷ ds) j ≡ some e
        → text_eq e.instance_id id ≡ true
        → j ≡ 0
    only zero e at named = refl
    only (suc j) e at named = absurd (none_at ds id j e none_else at named)

IsTheOne-later :
    (x d : Descriptor) (ds : List Descriptor) (id : Bytes) (k : ℕ)
    → text_eq x.instance_id id ≡ false
    → IsTheOne ds id k d
    → IsTheOne (x ∷ ds) id (suc k) d
IsTheOne-later x d ds id k other (found, named, unique) = (found, named, only)
  where
    only :
        (j : ℕ) (e : Descriptor)
        → get_elem? (x ∷ ds) j ≡ some e
        → text_eq e.instance_id id ≡ true
        → j ≡ suc k
    only zero e at named = absurd (ground arith)
    only (suc j) e at named = ap suc (unique j e at named)

find_instance-IsTheOne :
    (port : Port) (ds : List Descriptor) (index i : ℕ) (d : Descriptor)
    → find_instance port index ds none ≡ ok (i, d)
    → index + length ds ≤ 2 ^ 32
    → (k : ℕ) × (i ≡ index + k) × IsTheOne ds port.instance_id k d
unfolding find_instance
find_instance-IsTheOne port [] index i d h short = absurd (ground arith)
find_instance-IsTheOne port (x ∷ ds) index i d h short =
    elim (Bool-cases (text_eq x.instance_id port.instance_id)) [
      | inl same ↦
          let (kept, rest) =
            find_instance_found port (suc index) ds (index % 2 ^ 32, x) (i, d) (rw same at h) in
          (
            0,
            omega (arith, ap (λ p. p.0) kept),
            subst (IsTheOne (x ∷ ds) port.instance_id 0) (ap (λ p. p.1) kept)
                (IsTheOne-here x ds port.instance_id same rest),
          )
      | inr other ↦
          let (k, at, one) =
            find_instance-IsTheOne port ds (suc index) i d (rw other at h) (omega arith) in
          (suc k, omega (arith, at), IsTheOne-later x d ds port.instance_id k other one)
    ]

-- An endpoint names what the service wrote: its instance is the only one with the written id, and
-- the descriptor's name for its port is the written name.
abbrev pub Names : List Descriptor → Port → (Descriptor → ℕ → Option Bytes) → Endpoint → Type 0
Names ds port name_of e =
    (d : Descriptor) × IsTheOne ds port.instance_id e.instance_index d
    × (name_of d e.port ≡ some port.port)

find_descriptor-IsTheOne :
    (ds : List Descriptor) (port : Port) (i : ℕ) (d : Descriptor)
    → length ds ≤ 2 ^ 32
    → find_descriptor ds port ≡ ok (i, d)
    → IsTheOne ds port.instance_id i d
unfolding find_descriptor
find_descriptor-IsTheOne ds port i d short h =
    let (k, at, one) = find_instance-IsTheOne port ds 0 i d h (omega arith) in
    let same : k ≡ i = omega (arith, at) in subst (λ x. IsTheOne ds port.instance_id x d) same one

declared_port-get :
    (i : ℕ) (port : Port) (end : End) (names : List Bytes) (e : Endpoint)
    → length names ≤ port_err
    → declared_port i port end names ≡ ok e
    → (e.instance_index ≡ i) × (get_elem? names e.port ≡ some port.port) × (e.port < port_err)
unfolding declared_port
declared_port-get i port end names e short h = elim (Option-cases (position names port.port)) [
  | inl absent ↦ absurd (ground arith)
  | inr (k, at) ↦
      let (found, low) = position-get names port.port k at in
      let same : k % 2 ^ 32 ≡ k = omega arith in
      let e_is : endpoint i (k % 2 ^ 32) ≡ e = ok-injective (rw at at h) in
      subst
        (λ (x : Endpoint).
          (x.instance_index ≡ i) × (get_elem? names x.port ≡ some port.port) × (x.port < port_err))
        e_is (refl, ap (get_elem? names) same ∙ found, omega arith)
]

output_end-Names :
    (ds : List Descriptor) (port : Port) (i : ℕ) (d : Descriptor) (e : Endpoint)
    → length d.outputs ≤ port_err
    → IsTheOne ds port.instance_id i d
    → (if text_eq port.port port_err_name
        then ok (endpoint i port_err)
        else declared_port i port output d.outputs)
      ≡ ok e
    → Names ds port output_name e
unfolding output_name
output_end-Names ds port i d e few one h = elim (Bool-cases (text_eq port.port port_err_name)) [
  | inl reserved ↦
      subst (Names ds port output_name) (ok-injective (rw reserved at h))
        (d, one, ap some (sym (text_eq→eq port.port port_err_name reserved)))
  | inr plain ↦
      let (at, found, low) = declared_port-get i port output d.outputs e few (rw plain at h) in
      let no_err : (e.port == port_err) ≡ false = ground arith in
      (d, subst (λ k. IsTheOne ds port.instance_id k d) (sym at) one, rw no_err found)
]

-- A source that resolves, at most 2^32 instances being declared and every one of them having fewer
-- outputs than the error port's index, is the only instance with the written id, and `output_name`
-- gives its port the written name back, the reserved name included.
pub resolve_output-Names :
    (ds : List Descriptor) (port : Port) (e : Endpoint)
    → length ds ≤ 2 ^ 32
    → All (λ (d : Descriptor). length d.outputs ≤ port_err) ds
    → resolve_output ds port ≡ ok e
    → Names ds port output_name e
unfolding resolve_output
resolve_output-Names ds port e short few h =
    let ((i, d), found, h') = >>=-splits (find_descriptor ds port) _ h in
    let one = find_descriptor-IsTheOne ds port i d short found in
    output_end-Names ds port i d e (All-get _ ds i d few one.0) one h'
