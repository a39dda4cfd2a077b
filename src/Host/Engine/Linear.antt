-- ===== src/Host/Engine/Linear.antt =====
-- About reads and writes of guest memory (crates/host-core/src/engine.rs).
use eieio.Base.{
  ℕ, zero, suc, ◌+◌, ◌-◌, ◌^◌, ◌≤◌, ◌<◌, ◌≡◌, refl, sym, ap, ◌∙◌, List, [], ◌∷◌, ◌++◌, ok, err,
  Bytes, length, take, drop, length-append, length-drop, arith, append_assoc, >>=-splits,
  ok-injective,
}
use eieio.Host.Engine.{EngineError, out_of_bounds, saturated_u32, memory_range, read, write}

suc_plus : (a b : ℕ) → suc a + b ≡ suc (a + b)
suc_plus a b = omega arith

plus_zero : (k : ℕ) → k + 0 ≡ k
plus_zero k = omega arith

module _ {ℓ} {A : Type ℓ} where
  length-take : (n : ℕ) (xs : List A) → n ≤ length xs → length (take n xs) ≡ n
  length-take zero xs h = refl
  length-take (suc n) [] h = absurd (omega arith)
  length-take (suc n) (x ∷ xs) h = ap suc (length-take n xs (omega arith))

  take-append : (n : ℕ) (xs ys : List A) → length xs ≡ n → take n (xs ++ ys) ≡ xs
  take-append zero [] ys h = refl
  take-append zero (x ∷ xs) ys h = absurd (omega arith)
  take-append (suc n) [] ys h = absurd (omega arith)
  take-append (suc n) (x ∷ xs) ys h = ap (λ l. x ∷ l) (take-append n xs ys (omega arith))

  drop-append : (n : ℕ) (xs ys : List A) → length xs ≡ n → drop n (xs ++ ys) ≡ ys
  drop-append zero [] ys h = refl
  drop-append zero (x ∷ xs) ys h = absurd (omega arith)
  drop-append (suc n) [] ys h = absurd (omega arith)
  drop-append (suc n) (x ∷ xs) ys h = drop-append n xs ys (omega arith)

  take-drop_append : (n : ℕ) (xs : List A) → take n xs ++ drop n xs ≡ xs
  take-drop_append zero xs = refl
  take-drop_append (suc n) [] = refl
  take-drop_append (suc n) (x ∷ xs) = ap (λ l. x ∷ l) (take-drop_append n xs)

  drop-drop : (n m : ℕ) (xs : List A) → drop n (drop m xs) ≡ drop (m + n) xs
  drop-drop n zero xs = ap (λ (k : ℕ). drop k xs) (omega arith)
  drop-drop zero (suc m) [] = rw (suc_plus m 0) refl
  drop-drop (suc n) (suc m) [] = rw (suc_plus m (suc n)) refl
  drop-drop n (suc m) (x ∷ xs) = rw (suc_plus m n) (drop-drop n m xs)

-- Whether a range lies in a memory.
abbrev pub Within : Bytes → ℕ → ℕ → Type 0
Within memory ptr len = ptr + len ≤ length memory

-- Memories have at most 2^32 bytes: a guest addresses its memory by a `u32`.
abbrev pub IsMemory : Bytes → Type 0
IsMemory memory = length memory ≤ 2 ^ 32

pub read_within :
    (memory : Bytes) (ptr len : ℕ)
    → IsMemory memory
    → Within memory ptr len
    → read memory ptr len ≡ ok (take (ptr + len - ptr) (drop ptr memory))
unfolding read
read_within memory ptr len small within = ground arith

pub read_outside :
    (memory : Bytes) (ptr len : ℕ)
    → length memory < ptr + len
    → (e : EngineError) × (read memory ptr len ≡ err e)
unfolding read
read_outside memory ptr len outside = (out_of_bounds ptr (saturated_u32 len), ground arith)

pub write_within :
    (memory : Bytes) (ptr : ℕ) (bytes : Bytes)
    → IsMemory memory
    → Within memory ptr (length bytes)
    → write memory ptr bytes ≡ ok (take ptr memory ++ (bytes ++ drop (ptr + length bytes) memory))
unfolding write
write_within memory ptr bytes small within = ground arith

pub write_outside :
    (memory : Bytes) (ptr : ℕ) (bytes : Bytes)
    → length memory < ptr + length bytes
    → (e : EngineError) × (write memory ptr bytes ≡ err e)
unfolding write
write_outside memory ptr bytes outside =
    (out_of_bounds ptr (saturated_u32 (length bytes)), ground arith)

-- The memory after a write that lies within it.
abbrev pub written : Bytes → ℕ → Bytes → Bytes
written memory ptr bytes = take ptr memory ++ (bytes ++ drop (ptr + length bytes) memory)

module _ (memory : Bytes) (ptr : ℕ) (bytes : Bytes)
    (within : Within memory ptr (length bytes)) where
  front : length (take ptr memory) ≡ ptr
  front = length-take ptr memory (omega arith)

  pub length-written : length (written memory ptr bytes) ≡ length memory
  length-written = omega (
    arith,
    length-append {0} (take ptr memory) (bytes ++ drop (ptr + length bytes) memory),
    length-append {0} bytes (drop (ptr + length bytes) memory),
    length-drop {0} (ptr + length bytes) memory,
    front,
  )

  pub take-written : take ptr (written memory ptr bytes) ≡ take ptr memory
  take-written = take-append ptr (take ptr memory) _ front

  pub drop-written :
      drop (ptr + length bytes) (written memory ptr bytes) ≡ drop (ptr + length bytes) memory
  drop-written = rw (← append_assoc (take ptr memory) bytes (drop (ptr + length bytes) memory)) (
      drop-append (ptr + length bytes) (take ptr memory ++ bytes) _
        (omega (arith, length-append {0} (take ptr memory) bytes, front)))

  pub read-written : IsMemory memory → read (written memory ptr bytes) ptr (length bytes) ≡ ok bytes
  read-written small =
      read_within (written memory ptr bytes) ptr (length bytes) (rw length-written small)
        (rw length-written within)
      ∙ ap ok (
          rw (drop-append ptr (take ptr memory) (bytes ++ drop (ptr + length bytes) memory) front) (
            take-append (ptr + length bytes - ptr) bytes (drop (ptr + length bytes) memory)
              (omega arith)))

-- What is read has the length that was asked for.
read_length_of_range :
    (memory : Bytes) (ptr len : ℕ) (range : ℕ × ℕ)
    → memory_range (length memory) ptr len ≡ ok range
    → (range.0 ≡ ptr) × (range.1 ≡ ptr + len) × Within memory ptr len
unfolding memory_range
read_length_of_range memory ptr len range h = ground arith

pub length-read :
    (memory : Bytes) (ptr len : ℕ) (bytes : Bytes)
    → read memory ptr len ≡ ok bytes
    → length bytes ≡ len
unfolding read
length-read memory ptr len bytes h =
    let (range, ranged, sliced) = >>=-splits (memory_range (length memory) ptr len) _ h in
    let (from, to, within) = read_length_of_range memory ptr len range ranged in
    let e : take (range.1 - range.0) (drop range.0 memory) ≡ bytes = ok-injective sliced in
    rw (← e) (
      length-take (range.1 - range.0) (drop range.0 memory)
        (omega (arith, length-drop {0} range.0 memory))
      ∙ omega arith)

-- Writing nothing changes nothing,
pub written-nil : (memory : Bytes) (ptr : ℕ) → written memory ptr [] ≡ memory
written-nil memory ptr = rw (plus_zero ptr) (take-drop_append ptr memory)

-- and writing on behind what was written is one longer write.
pub written-append :
    (memory : Bytes) (ptr : ℕ) (bytes more : Bytes)
    → Within memory ptr (length bytes)
    → written (written memory ptr bytes) (ptr + length bytes) more
      ≡ written memory ptr (bytes ++ more)
written-append memory ptr bytes more within =
    let front : length (take ptr memory) ≡ ptr = length-take ptr memory (omega arith) in
    let both : length (take ptr memory ++ bytes) ≡ ptr + length bytes =
      omega (arith, length-append {0} (take ptr memory) bytes, front) in
    let back = drop (ptr + length bytes) memory in
    let kept : take (ptr + length bytes) (written memory ptr bytes) ≡ take ptr memory ++ bytes =
      rw (← append_assoc (take ptr memory) bytes back)
        (take-append (ptr + length bytes) (take ptr memory ++ bytes) back both) in
    let left : drop (ptr + length bytes + length more) (written memory ptr bytes)
        ≡ drop (ptr + length (bytes ++ more)) memory =
      sym (drop-drop (length more) (ptr + length bytes) (written memory ptr bytes))
      ∙ ap (drop (length more)) (drop-written memory ptr bytes within)
      ∙ drop-drop (length more) (ptr + length bytes) memory
      ∙ ap (λ k. drop k memory) (omega (arith, length-append {0} bytes more)) in
    rw (kept, left)
      (append_assoc (take ptr memory) bytes _
        ∙ ap (λ l. take ptr memory ++ l) (sym (append_assoc bytes more _)))
