-- ===== src/UtilMap/Keys.antt =====
-- The three pairs of functions that the library supplies: on which keys they tell keys apart.
use libtpl_egl.Base.{
  ℕ, ◌+◌, ◌%◌, ◌^◌, ◌≤◌, ◌<◌, ◌≡◌, ◌≢◌, refl, true, Option, some, List, [], arith,
}
use libtpl_egl.Types.{Ptr, null}
use libtpl_egl.UtilMap.{
  UtilMap, Entry, FreeFunc, init, pointer_init, int32_funcs, int64_funcs, pointer_funcs, key_length,
  same_key, get_bucket_index, get_bucket, get, set, get_loop, set_loop,
}
use libtpl_egl.UtilMap.Hash.{
  Key, key32, int32_hash, int32_key_compare, int64_key_compare, bits64, pointer_key_compare,
}
use libtpl_egl.UtilMap.Identity.{IsIdentity}
use libtpl_egl.UtilMap.Laws.{IsValid}
use libtpl_egl.UtilMap.Update.{IsCopy}

-- `__int32_key_compare` and `__int32_hash` tell any two keys apart by `key32`, and by nothing else.
pub int32-IsIdentity : IsIdentity int32_funcs (λ k. Unit {0}) key32
unfolding same_key key_length
int32-IsIdentity = record {
  same = λ a b _ _. unfold int32_key_compare in ground arith;
  hash = λ a b _ _ h. unfold int32_hash in rw h;
}

-- The keys of a window of 4 GiB, which lies in the address space.
abbrev pub Window : ℕ → Key → Type 0
Window low k = (low ≤ k) × (k < low + 2 ^ 32) × (k < 2 ^ 64)

-- `__pointer_key_compare` and `__pointer_hash` with 64-bit pointers tell the pointers of any one
-- window of 4 GiB apart.
pub pointer-IsIdentity : (low : ℕ) → IsIdentity (pointer_funcs bits64) (Window low) (λ k. k)
unfolding same_key key_length
pointer-IsIdentity low = record {
  same = λ a b da db. unfold pointer_key_compare in ground arith;
  hash = λ a b _ _ h. rw h;
}

-- The same for `__int64_key_compare` and `__int64_hash`.
pub int64-IsIdentity : (low : ℕ) → IsIdentity int64_funcs (Window low) (λ k. k)
unfolding same_key key_length
int64-IsIdentity low = record {
  same = λ a b da db. unfold int64_key_compare in ground arith;
  hash = λ a b _ _ h. rw h;
}

-- Two 64-bit keys whose lower halves agree are equal to `__int64_key_compare` and to
-- `__pointer_key_compare`, since the difference is cut to an `int`.
low_half_same :
    (a b : Key)
    → a < 2 ^ 64
    → b < 2 ^ 64
    → a % 2 ^ 32 ≡ b % 2 ^ 32
    → (same_key int64_funcs a b ≡ true) × (same_key (pointer_funcs bits64) a b ≡ true)
unfolding same_key key_length
low_half_same a b ha hb h = unfold int64_key_compare pointer_key_compare in ground arith

-- Two different pointers whose lower halves agree and which fall into one bucket share an entry of
-- a map with 64-bit pointer keys: data other than NULL that is set for the first, in an empty
-- bucket and with memory, is found for the second.
pub pointer_keys_collide :
    (bits : ℕ) (buckets : ℕ → List Entry) (a b : Key) (value : Ptr) (free_func : Option FreeFunc)
    (copy : Ptr)
    → a < 2 ^ 64
    → b < 2 ^ 64
    → a ≢ b
    → a % 2 ^ 32 ≡ b % 2 ^ 32
    → get_bucket_index (pointer_init bits64 bits true buckets) a
      ≡ get_bucket_index (pointer_init bits64 bits true buckets) b
    → get_bucket (pointer_init bits64 bits true buckets) a ≡ []
    → value ≢ null
    → get (set (pointer_init bits64 bits true buckets) a value free_func (some copy)).0 b ≡ value
unfolding get set get_bucket get_bucket_index key_length get_loop set_loop pointer_init init
pointer_keys_collide bits buckets a b value free_func copy ha hb ne half index empty filled =
    ground (arith, (low_half_same a b ha hb half).1)

-- A map with 64-bit pointer keys, all of them in one window of 4 GiB.
pub record IsPointerMap (low : ℕ) (m : UtilMap) : Type 0 where
  pub funcs : m.funcs ≡ pointer_funcs bits64
  pub valid : IsValid (Window low) (λ k. k) m

pub IsPointerMap-IsIdentity :
    {low : ℕ} {m : UtilMap} → IsPointerMap low m → IsIdentity m.funcs (Window low) (λ k. k)
IsPointerMap-IsIdentity {low} p = rw p.funcs (pointer-IsIdentity low)

-- A pointer is stored as it is, not copied.
pub pointer-IsCopy :
    {low : ℕ} {m : UtilMap}
    → IsPointerMap low m
    → (key copy : Key) → Window low key
    → IsCopy (Window low) (λ k. k) m key copy
unfolding key_length
pointer-IsCopy p key copy d = rw p.funcs (d, refl)

-- A new map has no entries.
pub pointer_init-IsPointerMap :
    (low bits : ℕ) → IsPointerMap low (pointer_init bits64 bits true (λ i. []))
unfolding pointer_init init
pointer_init-IsPointerMap low bits = record {
  funcs = refl;
  valid = record { sized = (refl, refl); known = λ i. tt; placed = λ i. tt; unique = λ i. tt };
}
