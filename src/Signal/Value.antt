-- ===== src/Signal/Value.antt =====
-- The value space of signals and expressions, and the size of its canonical encoding
-- (crates/signal/src/value.rs, with `get` of crates/signal/src/signal.rs).
use eieio.Base.{
  ℕ, suc, ◌+◌, ◌-◌, ◌^◌, min, ℤ, pos, negsuc, Bool, false, ◌||◌, Option, none, some, List, [], ◌∷◌,
  length, Bytes, text_eq, leb, ◌==◌, if◌then◌else◌,
}

-- A float is its 64-bit pattern, a text its UTF-8 bytes; a map is listed in ascending key order.
mutual
  pub data Value : Type 0 where
    null : Value
    bool : Bool → Value
    int : ℤ → Value
    float : ℕ → Value
    str : Bytes → Value
    bytes : Bytes → Value
    array : Values → Value
    map : Entries → Value

  pub data Values : Type 0 where
    nil : Values
    cons : Value → Values → Values

  pub data Entries : Type 0 where
    end : Entries
    entry : Bytes → Value → Entries → Entries

abbrev pub elements : Values → List Value
elements nil = []
elements (cons v vs) = v ∷ elements vs

abbrev pub of_elements : List Value → Values
of_elements [] = nil
of_elements (v ∷ vs) = cons v (of_elements vs)

abbrev pub field : Bytes → Entries → Option Value
field key end = none
field key (entry k v rest) = if text_eq k key then some v else field key rest

abbrev pub entry_count : Entries → ℕ
entry_count end = 0
entry_count (entry k v rest) = suc (entry_count rest)

-- `usize` of a 64-bit host.
abbrev pub usize_max : ℕ
usize_max = 2 ^ 64 - 1

abbrev pub saturating_add : ℕ → ℕ → ℕ
saturating_add a b = min (a + b) usize_max

unfoldable pub canonical_arg_len : ℕ → ℕ
canonical_arg_len arg =
    if leb arg 23
    then 1
    else if leb arg (2 ^ 8 - 1)
    then 2
    else if leb arg (2 ^ 16 - 1)
    then 3
    else if leb arg (2 ^ 32 - 1)
    then 5
    else 9

-- `!(n as u64)` is `-n - 1`.
abbrev pub int_arg : ℤ → ℕ
int_arg (pos n) = n
int_arg (negsuc n) = n

abbrev pub len_prefixed_len : ℕ → ℕ
len_prefixed_len len = saturating_add (canonical_arg_len len) len

unfoldable mutual
  pub encoded_len : Value → ℕ
  encoded_len null = 1
  encoded_len (bool b) = 1
  encoded_len (int n) = canonical_arg_len (int_arg n)
  encoded_len (float f) = 9
  encoded_len (str s) = len_prefixed_len (length s)
  encoded_len (bytes b) = len_prefixed_len (length b)
  encoded_len (array items) = items_len (canonical_arg_len (length (elements items))) items
  encoded_len (map entries) = entries_len (canonical_arg_len (entry_count entries)) entries

  -- The folds over the items and over the entries, from the head's length.
  pub items_len : ℕ → Values → ℕ
  items_len total nil = total
  items_len total (cons v vs) = items_len (saturating_add total (encoded_len v)) vs

  pub entries_len : ℕ → Entries → ℕ
  entries_len total end = total
  entries_len total (entry k v rest) =
      entries_len
        (saturating_add (saturating_add total (len_prefixed_len (length k))) (encoded_len v)) rest

-- `nests_deeper_than` of crates/expr/src/eval.rs.
unfoldable mutual
  pub nests_deeper_than : Value → ℕ → Bool
  nests_deeper_than (array items) limit = (limit == 0) || any_item items (limit - 1)
  nests_deeper_than (map entries) limit = (limit == 0) || any_entry entries (limit - 1)
  nests_deeper_than null limit = false
  nests_deeper_than (bool b) limit = false
  nests_deeper_than (int n) limit = false
  nests_deeper_than (float f) limit = false
  nests_deeper_than (str s) limit = false
  nests_deeper_than (bytes b) limit = false

  pub any_item : Values → ℕ → Bool
  any_item nil limit = false
  any_item (cons v vs) limit = nests_deeper_than v limit || any_item vs limit

  pub any_entry : Entries → ℕ → Bool
  any_entry end limit = false
  any_entry (entry k v rest) limit = nests_deeper_than v limit || any_entry rest limit
