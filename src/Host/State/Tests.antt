-- ===== src/Host/State/Tests.antt =====
-- crates/host-core/src/state.rs on a store that lists its entries, the latest first.
use eieio.Base.{
  ◌≡◌, refl, pos, negsuc, Option, none, some, List, [], ◌∷◌, ok, Bytes, codes, ◌++◌, text_eq,
  text_eq_refl, if◌then◌else◌, arith, as_u32, as_i32, ap, subst,
}
use eieio.Abi.{code_value}
use eieio.Host.Engine.{Ret, read}
use eieio.Host.Memory.{fill}
use eieio.Host.Memory.Fill.{Answers, fill-Answers}
use eieio.Abi.{decode_size}
use eieio.Host.State.{StateStore, get, put}
use eieio.Host.State.PutGet.{Keeps, Serves, words, get-put_lem}

abbrev Entries : Type 0
Entries = List (Bytes × Bytes)

abbrev find : Bytes → Entries → Option Bytes
find key [] = none
find key ((k, v) ∷ entries) = if text_eq k key then some v else find key entries

abbrev remove : Bytes → Entries → Entries
remove key [] = []
remove key ((k, v) ∷ entries) =
    let rest = remove key entries in if text_eq k key then rest else (k, v) ∷ rest

abbrev listed : StateStore Entries
listed = record {
  get = λ s key. (s, ok (find key s));
  put = λ s key value. ((key, value) ∷ s, ok tt);
  del = λ s key. (remove key s, ok tt);
}

listed-Keeps : Keeps listed
listed-Keeps s s' key value stored = ap ok (
    subst (λ (entries : Entries). find key entries ≡ some value) (ap (λ r. r.0) stored)
      (rw (text_eq_refl key) refl))

-- The key "k" at 0, the value "abcd" after it, and room for four bytes.
abbrev memory : Bytes
memory = codes "kabcd" ++ 0 ∷ 0 ∷ 0 ∷ 0 ∷ []

short_buffer :
    (get listed (words 0 1 5 2) memory ((codes "k", codes "abcd") ∷ [])).0 ≡ Ret.i32 (pos 4)
unfolding get read as_u32 as_i32 text_eq fill
short_buffer = refl

missing_key : (get listed (words 0 1 5 4) memory []).0 ≡ Ret.i32 (negsuc 6)
unfolding get code_value read as_u32 as_i32
missing_key = refl

get-put_lem_example :
    (put listed (words 0 1 1 4) memory []
      ≡ (Ret.i32 (pos 0), memory, (codes "k", codes "abcd") ∷ []))
    × Serves memory 5 4
        (codes "abcd")
        (get listed (words 0 1 5 4) memory ((codes "k", codes "abcd") ∷ [])).0
        (get listed (words 0 1 5 4) memory ((codes "k", codes "abcd") ∷ [])).1
get-put_lem_example =
    get-put_lem listed listed-Keeps memory [] ((codes "k", codes "abcd") ∷ []) 0 1 1 4 5 4
      (omega arith) (omega arith) (omega arith) (omega arith) (omega arith) (omega arith) refl

fill-Answers_example :
    Answers memory 5 4
      (codes "wxyz")
      (fill memory 5 4 (codes "wxyz")).0
      (decode_size (fill memory 5 4 (codes "wxyz")).1 4)
fill-Answers_example = fill-Answers memory 5 4 (codes "wxyz") (omega arith) (omega arith)
