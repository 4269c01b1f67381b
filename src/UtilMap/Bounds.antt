-- ===== src/UtilMap/Bounds.antt =====
-- The bucket index lies within the array of buckets, for every hash function.
use Prim.Native.Nat.{bit_and, bit_and-bitwise, digits, min}
use native.Mathlib.Nat.{one-le-pow}
use libtpl_egl.Base.{ℕ, zero, suc, ◌-◌, ◌/◌, ◌^◌, ◌≤◌, ◌<◌, ◌≡◌, refl, Bool, List, arith}
use libtpl_egl.UtilMap.{UtilMap, KeyFuncs, Entry, key_length, get_bucket_index, init}
use libtpl_egl.UtilMap.Hash.{Key}

-- The native conjunction is this recursion on binary digits, with `n` for its fuel.
conjunction-le : (n a b : ℕ) → digits (λ c. zero) min n a b ≤ b
conjunction-le zero a b = omega arith
conjunction-le (suc n) zero b = omega arith
conjunction-le (suc n) (suc a) b = omega (arith, conjunction-le n (suc a / 2) (b / 2))

bit_and-le_mask : (a b : ℕ) → bit_and a b ≤ b
bit_and-le_mask a b = rw (bit_and-bitwise a b) (conjunction-le a a b)

-- What `tpl_util_map_init` establishes.
abbrev pub IsSized : UtilMap → Type 0
IsSized m = (m.bucket_size ≡ 2 ^ m.bucket_bits) × (m.bucket_mask ≡ m.bucket_size - 1)

pub init-IsSized :
    (bits : ℕ) (f : KeyFuncs) (has : Bool) (buckets : ℕ → List Entry)
    → IsSized (init bits f has buckets)
unfolding init
init-IsSized bits f has buckets = (refl, refl)

-- On a map with the sizes that `tpl_util_map_init` sets, every key is sent to one of the buckets.
pub get_bucket_index-lt :
    (m : UtilMap) (key : Key) → IsSized m → get_bucket_index m key < m.bucket_size
unfolding get_bucket_index
get_bucket_index-lt m key s = omega (
  arith,
  bit_and-le_mask (m.funcs.hash_func key (key_length m.funcs key)) m.bucket_mask,
  one-le-pow m.bucket_bits 2,
)
