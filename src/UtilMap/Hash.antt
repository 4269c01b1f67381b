-- ===== src/UtilMap/Hash.antt =====
-- The hash and comparison functions of src/tpl_utils_map.c. A key is the 64-bit word of the union
-- tpl_util_key on a little-endian machine; an `int` result is its 32-bit pattern.
use Prim.Native.Nat.{bit_xor}
use libtpl_egl.Base.{ℕ, ◌+◌, ◌-◌, ◌*◌, ◌/◌, ◌%◌, ◌^◌}

abbrev pub Key : Type 0
Key = ℕ

-- `key.key32`
abbrev pub key32 : Key → ℕ
key32 key = key % 2 ^ 32

-- `key.key64`
abbrev pub key64 : Key → ℕ
key64 key = key % 2 ^ 64

-- A `uint64_t` or a `ptrdiff_t` cut to an `int`.
abbrev to_int : ℕ → ℕ
to_int x = x % 2 ^ 32

-- `~x`, `x + y` and `x << k` on words of `w` bits.
abbrev not_word : (w : ℕ) → ℕ → ℕ
not_word w x = 2 ^ w - 1 - x

abbrev add_word : (w : ℕ) → ℕ → ℕ → ℕ
add_word w x y = (x + y) % 2 ^ w

abbrev shl_word : (w : ℕ) → ℕ → ℕ → ℕ
shl_word w x k = x * 2 ^ k % 2 ^ w

-- `x ^= x >> k`
abbrev xor_shr : ℕ → ℕ → ℕ
xor_shr x k = bit_xor x (x / 2 ^ k)

-- The body that `__int64_hash` and, with 64-bit pointers, `__pointer_hash` share.
mix64 : ℕ → ℕ
mix64 key =
    let k₁ = add_word 64 (not_word 64 key) (shl_word 64 key 18) in
    let k₂ = xor_shr k₁ 31 in
    let k₃ = k₂ * 21 % 2 ^ 64 in
    let k₄ = xor_shr k₃ 11 in let k₅ = add_word 64 k₄ (shl_word 64 k₄ 6) in to_int (xor_shr k₅ 22)

-- The body that `__int32_hash` and, with 32-bit pointers, `__pointer_hash` share.
mix32 : ℕ → ℕ
mix32 key =
    let k₁ = add_word 32 (not_word 32 key) (shl_word 32 key 15) in
    let k₂ = xor_shr k₁ 12 in
    let k₃ = add_word 32 k₂ (shl_word 32 k₂ 2) in
    let k₄ = xor_shr k₃ 4 in let k₅ = k₄ * 2057 % 2 ^ 32 in xor_shr k₅ 16

-- `__int64_hash`; the length of the key is not read.
unfoldable pub int64_hash : Key → ℕ → ℕ
unfolding mix64
int64_hash key key_length = mix64 (key64 key)

-- `__int64_key_compare`
unfoldable pub int64_key_compare : Key → ℕ → Key → ℕ → ℕ
int64_key_compare key0 key0_length key1 key1_length =
    to_int ((key64 key0 + 2 ^ 64 - key64 key1) % 2 ^ 64)

-- `__int32_hash`
unfoldable pub int32_hash : Key → ℕ → ℕ
unfolding mix32
int32_hash key key_length = mix32 (key32 key)

-- `__int32_key_compare`
unfoldable pub int32_key_compare : Key → ℕ → Key → ℕ → ℕ
int32_key_compare key0 key0_length key1 key1_length = (key32 key0 + 2 ^ 32 - key32 key1) % 2 ^ 32

-- `INTPTR_MAX`
pub data PointerWidth : Type 0 where
  bits32 bits64 : PointerWidth

-- `key.ptr`, as a number.
abbrev pub key_ptr : PointerWidth → Key → ℕ
key_ptr bits32 key = key % 2 ^ 32
key_ptr bits64 key = key % 2 ^ 64

-- `__pointer_hash`
unfoldable pub pointer_hash : PointerWidth → Key → ℕ → ℕ
unfolding mix32 mix64
pointer_hash bits32 key key_length = mix32 (key_ptr bits32 key)
pointer_hash bits64 key key_length = mix64 (key_ptr bits64 key)

-- `__pointer_key_compare`
unfoldable pub pointer_key_compare : PointerWidth → Key → ℕ → Key → ℕ → ℕ
pointer_key_compare bits32 key0 key0_length key1 key1_length =
    (key_ptr bits32 key0 + 2 ^ 32 - key_ptr bits32 key1) % 2 ^ 32
pointer_key_compare bits64 key0 key0_length key1 key1_length =
    to_int ((key_ptr bits64 key0 + 2 ^ 64 - key_ptr bits64 key1) % 2 ^ 64)
