-- ===== src/Host/State/PutGet.antt =====
-- About `put` and `get` of crates/host-core/src/state.rs, one after the other.
use eieio.Base.{
  ℕ, ◌+◌, ◌-◌, ◌^◌, ◌<◌, ◌≡◌, refl, ℤ, pos, some, List, [], ◌∷◌, ok, Bytes, as_i32, as_u32-as_i32,
  IsU32, take, drop, arith,
}
use eieio.Abi.{decode_size}
use eieio.Host.Engine.{Arg, Ret}
use eieio.Host.Engine.Linear.{IsMemory, Within, read_within}
use eieio.Host.Memory.{fill}
use eieio.Host.Memory.Fill.{Answers, fill-Answers}
use eieio.Host.State.{StateStore, get, put}

-- What the trait asks of a store: a value that was put is what is read back under its key.
abbrev pub Keeps : {S : Type 0} → StateStore S → Type 0
Keeps {S} store =
    (s s' : S) (key value : Bytes)
    → store.put s key value ≡ (s', ok tt)
    → (store.get s' key).1 ≡ ok (some value)

-- The bytes of a range.
abbrev pub slice : Bytes → ℕ → ℕ → Bytes
slice memory ptr len = take (ptr + len - ptr) (drop ptr memory)

abbrev pub words : ℕ → ℕ → ℕ → ℕ → List Arg
words a b c d =
    Arg.i32 (as_i32 a) ∷ Arg.i32 (as_i32 b) ∷ Arg.i32 (as_i32 c) ∷ Arg.i32 (as_i32 d) ∷ []

module _ {S : Type 0} (store : StateStore S) (keeps : Keeps store) (memory : Bytes) (s s' : S)
    (key key_len val val_len : ℕ) (small : IsMemory memory) (key_words : IsU32 key × IsU32 key_len)
    (val_words : IsU32 val × IsU32 val_len) (key_within : Within memory key key_len)
    (val_within : Within memory val val_len)
    (stored : store.put s (slice memory key key_len) (slice memory val val_len) ≡ (s', ok tt)) where
  put_answers : put store (words key key_len val val_len) memory s ≡ (Ret.i32 (pos 0), memory, s')
  unfolding put
  put_answers =
      rw
        (
          as_u32-as_i32 key key_words.0,
          as_u32-as_i32 key_len key_words.1,
          as_u32-as_i32 val val_words.0,
          as_u32-as_i32 val_len val_words.1,
          read_within memory key key_len small key_within,
          read_within memory val val_len small val_within,
          stored,
        )
        refl

  get_answers :
      (buf cap_len : ℕ)
      → IsU32 buf
      → IsU32 cap_len
      → get store (words key key_len buf cap_len) memory s' ≡ (
        Ret.i32 (fill memory buf cap_len (slice memory val val_len)).1,
        (fill memory buf cap_len (slice memory val val_len)).0,
        (store.get s' (slice memory key key_len)).0,
      )
  unfolding get
  get_answers buf cap_len buf_word cap_word =
      rw
        (
          as_u32-as_i32 key key_words.0,
          as_u32-as_i32 key_len key_words.1,
          as_u32-as_i32 buf buf_word,
          as_u32-as_i32 cap_len cap_word,
          read_within memory key key_len small key_within,
          keeps s s' (slice memory key key_len) (slice memory val val_len) stored,
        )
        refl

-- What a guest sees of a `state_get` into a buffer of `cap_len` bytes at `buf`: a size, and its
-- memory after it, as `OutBuffer::fill` promises them for this value.
abbrev pub Serves : Bytes → ℕ → ℕ → Bytes → Ret → Bytes → Type 0
Serves memory buf cap_len value ret memory' =
    (n : ℤ) × (ret ≡ Ret.i32 n) × Answers memory buf cap_len value memory' (decode_size n cap_len)

-- A guest puts a value under a key, both ranges of its memory, and the store takes it: `state_put`
-- answers 0 and touches no memory, and a `state_get` of that key into any buffer of less than 2^31
-- bytes serves exactly that value under the size convention, if the store gives back what was put.
pub get-put_lem :
    {S : Type 0} (store : StateStore S)
    → Keeps store
    → (memory : Bytes) (s s' : S) (key key_len val val_len buf cap_len : ℕ) → IsMemory memory
    → IsU32 key × IsU32 key_len
    → IsU32 val × IsU32 val_len
    → IsU32 buf × (cap_len < 2 ^ 31)
    → Within memory key key_len
    → Within memory val val_len
    → store.put s (slice memory key key_len) (slice memory val val_len) ≡ (s', ok tt)
    → (put store (words key key_len val val_len) memory s ≡ (Ret.i32 (pos 0), memory, s'))
      × Serves memory buf cap_len
          (slice memory val val_len)
          (get store (words key key_len buf cap_len) memory s').0
          (get store (words key key_len buf cap_len) memory s').1
get-put_lem store keeps memory s s' key key_len val val_len buf cap_len small kw vw bw kin vin e = (
  put_answers store keeps memory s s' key key_len val val_len small kw vw kin vin e,
  rw
      (get_answers store keeps memory s s' key key_len val val_len small kw vw kin vin e buf cap_len
        bw.0 (omega arith))
      (
        (fill memory buf cap_len (slice memory val val_len)).1,
        refl,
        fill-Answers memory buf cap_len (slice memory val val_len) small bw.1,
      ),
)
