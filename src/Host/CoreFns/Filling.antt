-- ===== src/Host/CoreFns/Filling.antt =====
-- About `rand` (crates/host-core/src/core_fns.rs).
use native.Mathlib.Decide.{dec_lt}
use eieio.Base.{
  ℕ, zero, suc, ◌+◌, ◌-◌, ◌%◌, ◌^◌, ◌≤◌, ◌<◌, min, ◌≡◌, refl, sym, subst, pos, Option, some, [],
  ◌++◌, arith, Result, ok, err, Bytes, length, length-append, IsU32, as_i32, as_u32-as_i32, ◌∷◌,
  ltb, if-splits, ◌==◌,
}
use eieio.Abi.{code_value, invalid_arg, io}
use eieio.Host.Engine.{Arg}
use eieio.Host.Engine.Linear.{
  IsMemory, Within, write_within, read_within, read_outside, written, length-written,
  written-append, written-nil,
}
use eieio.Host.CoreFns.{Entropy, Filled, chunk_size, rand_drew, rand_loop, rand_words, rand}

-- What a source gives, buffer by buffer: the bytes so far, and the source after them.
pub data Draws {R : Type 0} (entropy : Entropy R) (r : R) : Bytes → R → Type 0 where
  start : Draws entropy r [] r
  drawn :
      {bytes : Bytes} {s : R}
      → Draws entropy r bytes s
      → (n : ℕ) (chunk : Bytes) (s' : R) → entropy.fill s n ≡ (s', ok chunk)
      → (all : Bytes) → all ≡ bytes ++ chunk
      → Draws entropy r all s'

-- A source fills the buffer it is given.
abbrev pub FillsWhole : {R : Type 0} → Entropy R → Type 0
FillsWhole {R} entropy =
    (r r' : R) (n : ℕ) (bytes : Bytes) → entropy.fill r n ≡ (r', ok bytes) → length bytes ≡ n

module _ {R : Type 0} (entropy : Entropy R) where
  -- The three ways in which `rand` ends.
  pub record Success (memory : Bytes) (r : R) (buf len : ℕ) (memory' : Bytes) (r' : R)
      : Type 0 where
    pub bytes : Bytes
    pub draws : Draws entropy r bytes r'
    pub complete : length bytes ≡ len
    pub lands : memory' ≡ written memory buf bytes

  pub record Failure (memory : Bytes) (r : R) (buf len : ℕ) (memory' : Bytes) (r' : R)
      : Type 0 where
    pub bytes : Bytes
    pub source : R
    pub asked : ℕ
    pub draws : Draws entropy r bytes source
    pub failed : entropy.fill source asked ≡ (r', err tt)
    pub partial : length bytes < len
    pub lands : memory' ≡ written memory buf bytes

  pub data Ends (memory : Bytes) (r : R) (buf len : ℕ) : Option (Filled entropy) → Type 0 where
    succeeds :
        (memory' : Bytes) (r' : R)
        → Success memory r buf len memory' r'
        → Ends memory r buf len (some (pos 0, memory', r'))
    fails :
        (memory' : Bytes) (r' : R)
        → Failure memory r buf len memory' r'
        → Ends memory r buf len (some (code_value io, memory', r'))
    refuses :
        length memory < buf + len → Ends memory r buf len (some (code_value invalid_arg, memory, r))

module _ {R : Type 0} (entropy : Entropy R) (whole : FillsWhole entropy) where
  module _ (memory : Bytes) (r : R) (buf len : ℕ) (small : IsMemory memory)
      (within : Within memory buf len) where
    abbrev EndsWith : Option (Filled entropy) → Type 0
    EndsWith = Ends entropy memory r buf len

    -- A chunk, drawn and written, and what goes on from there.
    chunk_ends :
        (go_on : R → Bytes → Option (Filled entropy)) (bytes : Bytes) (s : R) (w n : ℕ)
        → Draws entropy r bytes s
        → length bytes ≡ w
        → w + n ≤ len
        → 0 < n
        → ((chunk : Bytes) (s' : R)
            → Draws entropy r (bytes ++ chunk) s'
            → length chunk ≡ n
            → EndsWith (go_on s' (written memory buf (bytes ++ chunk))))
        → (drawing : R × Result (Unit {0}) Bytes) → entropy.fill s n ≡ drawing
        → EndsWith (rand_drew entropy go_on (written memory buf bytes) ((buf + w) % 2 ^ 32) drawing)
    unfolding rand_drew
    chunk_ends go_on bytes s w n draws at_w room some_left rest (s', err none_given) e =
        fails (written memory buf bytes) s' (record {
          bytes = bytes;
          source = s;
          asked = n;
          draws = draws;
          failed = e;
          partial = omega arith;
          lands = refl;
        })
    chunk_ends go_on bytes s w n draws at_w room some_left rest (s', ok chunk) e =
        let sized : length chunk ≡ n = whole s s' n chunk e in
        let inside : Within memory buf (length bytes) = omega arith in
        let same_size = length-written memory buf bytes inside in
        let at : (buf + w) % 2 ^ 32 ≡ buf + length bytes = omega (arith, small, same_size) in
        let writes =
          write_within (written memory buf bytes) (buf + length bytes) chunk
            (omega (arith, same_size)) (omega (arith, same_size)) in
        rw (at, writes, written-append memory buf bytes chunk inside)
          (rest chunk s' (drawn draws n chunk s' e (bytes ++ chunk) refl) sized)

    loop_ends :
        (fuel w : ℕ) (bytes : Bytes) (s : R)
        → Draws entropy r bytes s
        → length bytes ≡ w
        → w ≤ len
        → len < w + fuel
        → EndsWith (rand_loop entropy fuel buf len w s (written memory buf bytes))
    unfolding rand_loop
    loop_ends zero w bytes s draws sized short enough = absurd (omega arith)
    loop_ends (suc fuel) w bytes s draws sized short enough =
        if-splits EndsWith (ltb w len) _ _
          (λ more.
            let n = min chunk_size (len - w) in
            let left : (w + n ≤ len) × (0 < n) = ground arith in
            chunk_ends (rand_loop entropy fuel buf len (w + n)) bytes s w n draws sized left.0
              left.1
              (λ chunk s' draws' chunk_sized.
                loop_ends fuel (w + n) (bytes ++ chunk) s' draws'
                  (omega (arith, length-append {0} bytes chunk)) left.0 (omega arith))
              (entropy.fill s n) refl)
          (λ full.
            succeeds (written memory buf bytes) s
              (record { bytes = bytes; draws = draws; complete = ground arith; lands = refl }))

  rand_words-Ends :
      (memory : Bytes) (r : R) (buf len : ℕ)
      → IsMemory memory
      → IsU32 buf
      → IsU32 len
      → Ends entropy memory r buf len (rand_words entropy (suc len) buf len r memory)
  unfolding rand_words
  rand_words-Ends memory r buf len small buf_word len_word =
      if-splits (Ends entropy memory r buf len) (len == 0) _ _
        (λ empty. succeeds memory r (record {
          bytes = [];
          draws = start;
          complete = ground arith;
          lands = sym (written-nil memory buf);
        }))
        λ some_asked.
          if-splits (Ends entropy memory r buf len) (ltb (2 ^ 32 - 1) (buf + len - 1)) _ _
            (λ wraps. refuses (ground arith))
            λ fits. elim (dec_lt (length memory) (buf + len)) [
              | yes outside ↦
                  rw (read_outside memory (buf + len - 1) 1 (ground arith)).1 (refuses outside)
              | no inside ↦ rw (read_within memory (buf + len - 1) 1 small (ground arith)) (
                  subst
                    (λ (m : Bytes).
                      Ends entropy memory r buf len (rand_loop entropy (suc len) buf len 0 r m))
                    (written-nil memory buf)
                    (loop_ends memory r buf len small (omega arith) (suc len) 0 [] r start refl
                      (omega arith) (omega arith)))
            ]

-- `rand`, asked by a guest for `len` bytes from `buf` on, with as much fuel as there are bytes and one
-- more, over a source that fills the buffers it is given: it ends, in one of three ways. Either exactly
-- those bytes of the memory are what the source gave, chunk by chunk, nothing else has changed, and the
-- answer is 0; or the source failed, only bytes of the range were written before that, and the answer
-- is `ERR_IO`; or the range reaches beyond the memory, the answer is `ERR_INVALID_ARG`, and neither
-- the memory nor the source was touched.
pub rand-Ends :
    {R : Type 0} (entropy : Entropy R)
    → FillsWhole entropy
    → (memory : Bytes) (r : R) (buf len : ℕ) → IsMemory memory
    → IsU32 buf
    → IsU32 len
    → Ends entropy memory r buf len
        (rand entropy (suc len) (Arg.i32 (as_i32 buf) ∷ Arg.i32 (as_i32 len) ∷ []) r memory)
unfolding rand
rand-Ends entropy whole memory r buf len small buf_word len_word =
    rw (as_u32-as_i32 buf buf_word, as_u32-as_i32 len len_word)
      (rand_words-Ends entropy whole memory r buf len small buf_word len_word)
