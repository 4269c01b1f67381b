-- ===== src/UtilMap.antt =====
-- The chained hash map of src/tpl_utils_map.c. A bucket is the list of its entries, first entry
-- first. Operations that call a free function return the calls made, as pairs of the function's
-- number and the data, in order.
pub mod Hash
pub mod Bounds
pub mod Identity
pub mod Bucket
pub mod Laws
pub mod Update
pub mod Clear
pub mod Keys
mod Tests
use Prim.Native.Nat.{bit_and}
use libtpl_egl.Base.{
  ℕ, zero, suc, ◌-◌, ◌^◌, Bool, true, false, Option, none, some, List, [], ◌∷◌, ◌++◌, ltb, ◌==◌,
  if◌then◌else◌, update,
}
use libtpl_egl.Types.{Ptr, null}
use Hash.{
  Key, int32_hash, int32_key_compare, int64_hash, int64_key_compare, PointerWidth, pointer_hash,
  pointer_key_compare,
}

-- The number of a `tpl_free_func_t`.
abbrev pub FreeFunc : Type 0
FreeFunc = ℕ

abbrev pub FreeCall : Type 0
FreeCall = FreeFunc × Ptr

pub record Entry : Type 0 where
  pub key : Key
  pub value : Ptr
  pub free_func : Option FreeFunc

-- The three functions of a map. A result of `key_compare_func` is 0 where the keys are equal.
pub record KeyFuncs : Type 0 where
  pub hash_func : Key → ℕ → ℕ
  pub key_length_func : Option (Key → ℕ)
  pub key_compare_func : Key → ℕ → Key → ℕ → ℕ

-- `struct tpl_util_map`; `has_buckets` is the test of the pointer `buckets` against NULL.
pub record UtilMap : Type 0 where
  pub funcs : KeyFuncs
  pub bucket_bits : ℕ
  pub bucket_size : ℕ
  pub bucket_mask : ℕ
  pub has_buckets : Bool
  pub buckets : ℕ → List Entry

-- `0`, or the key's length where the map has a length function.
pub key_length : KeyFuncs → Key → ℕ
key_length f key = elim f.key_length_func [ none ↦ 0 | some len ↦ len key ]

-- `__get_bucket_index`
pub get_bucket_index : UtilMap → Key → ℕ
unfolding key_length
get_bucket_index m key = bit_and (m.funcs.hash_func key (key_length m.funcs key)) m.bucket_mask

-- `__get_bucket`
pub get_bucket : UtilMap → Key → List Entry
unfolding get_bucket_index
get_bucket m key = m.buckets (get_bucket_index m key)

-- `key_compare_func(curr->key, len0, key, len1) == 0`
pub same_key : KeyFuncs → Key → Key → Bool
unfolding key_length
same_key f key0 key1 = f.key_compare_func key0 (key_length f key0) key1 (key_length f key1) == 0

-- `tpl_util_map_init`
pub init : (bucket_bits : ℕ) → KeyFuncs → (has_buckets : Bool) → (ℕ → List Entry) → UtilMap
init bucket_bits funcs has_buckets buckets = record {
  funcs = funcs;
  bucket_bits = bucket_bits;
  bucket_size = 2 ^ bucket_bits;
  bucket_mask = 2 ^ bucket_bits - 1;
  has_buckets = has_buckets;
  buckets = buckets;
}

abbrev pub int32_funcs : KeyFuncs
int32_funcs = record {
  hash_func = int32_hash;
  key_length_func = none;
  key_compare_func = int32_key_compare;
}

abbrev pub int64_funcs : KeyFuncs
int64_funcs = record {
  hash_func = int64_hash;
  key_length_func = none;
  key_compare_func = int64_key_compare;
}

abbrev pub pointer_funcs : PointerWidth → KeyFuncs
pointer_funcs w = record {
  hash_func = pointer_hash w;
  key_length_func = none;
  key_compare_func = pointer_key_compare w;
}

-- `tpl_util_map_int32_init`
pub int32_init : (bucket_bits : ℕ) → (has_buckets : Bool) → (ℕ → List Entry) → UtilMap
unfolding init
int32_init bucket_bits = init bucket_bits int32_funcs

-- `tpl_util_map_int64_init`
pub int64_init : (bucket_bits : ℕ) → (has_buckets : Bool) → (ℕ → List Entry) → UtilMap
unfolding init
int64_init bucket_bits = init bucket_bits int64_funcs

-- `tpl_util_map_pointer_init`
pub pointer_init :
    PointerWidth → (bucket_bits : ℕ) → (has_buckets : Bool) → (ℕ → List Entry) → UtilMap
unfolding init
pointer_init w bucket_bits = init bucket_bits (pointer_funcs w)

-- `tpl_util_map_create`: `calloc` gives the map with its buckets behind it, all of them NULL.
pub create : (allocated : Bool) → (bucket_bits : ℕ) → KeyFuncs → Option UtilMap
unfolding init
create false bucket_bits funcs = none
create true bucket_bits funcs = some (init bucket_bits funcs true (λ i. []))

-- `tpl_util_map_int32_create`
pub int32_create : (allocated : Bool) → (bucket_bits : ℕ) → Option UtilMap
unfolding create
int32_create allocated bucket_bits = create allocated bucket_bits int32_funcs

-- `tpl_util_map_int64_create`
pub int64_create : (allocated : Bool) → (bucket_bits : ℕ) → Option UtilMap
unfolding create
int64_create allocated bucket_bits = create allocated bucket_bits int64_funcs

-- `tpl_util_map_pointer_create`
pub pointer_create : PointerWidth → (allocated : Bool) → (bucket_bits : ℕ) → Option UtilMap
unfolding create
pointer_create w allocated bucket_bits = create allocated bucket_bits (pointer_funcs w)

-- `if (curr->free_func) curr->free_func(curr->data)`
pub release : Entry → List FreeCall
release e = elim e.free_func [ none ↦ [] | some f ↦ (f, e.value) ∷ [] ]

-- The inner loop of `tpl_util_map_clear`.
pub clear_bucket : List Entry → List FreeCall
unfolding release
clear_bucket [] = []
clear_bucket (e ∷ es) = release e ++ clear_bucket es

-- Its outer loop, after `n` rounds.
pub clear_buckets : ℕ → (ℕ → List Entry) → List FreeCall
unfolding clear_bucket
clear_buckets zero buckets = []
clear_buckets (suc n) buckets = clear_buckets n buckets ++ clear_bucket (buckets n)

-- `tpl_util_map_clear`
pub clear : UtilMap → UtilMap × List FreeCall
unfolding clear_buckets
clear m =
    if m.has_buckets
    then (
      record m { buckets = λ i. if ltb i m.bucket_size then [] else m.buckets i },
      clear_buckets m.bucket_size m.buckets,
    )
    else (m, [])

-- `tpl_util_map_fini`
pub fini : UtilMap → UtilMap × List FreeCall
unfolding clear
fini m = clear m

-- `tpl_util_map_destroy`: the map is freed, and the calls are left.
pub destroy : UtilMap → List FreeCall
unfolding fini
destroy m = (fini m).1

-- The loop of `tpl_util_map_get`.
pub get_loop : KeyFuncs → Key → List Entry → Ptr
unfolding same_key
get_loop f key [] = null
get_loop f key (e ∷ es) = if same_key f e.key key then e.value else get_loop f key es

-- `tpl_util_map_get`
pub get : UtilMap → Key → Ptr
unfolding get_loop get_bucket
get m key = get_loop m.funcs key (get_bucket m key)

-- The loop of `tpl_util_map_set`: the bucket after an entry for the key is replaced or deleted,
-- and the calls; `none` where no entry has the key.
pub set_loop :
    KeyFuncs → Key → Ptr → Option FreeFunc → List Entry → Option (List Entry × List FreeCall)
unfolding same_key release
set_loop f key value free_func [] = none
set_loop f key value free_func (e ∷ es) =
    let rest = set_loop f key value free_func es in
    if same_key f e.key key
    then some (
      if value == null then es else record e { value = value; free_func = free_func } ∷ es,
      release e,
    )
    else elim rest [ none ↦ none | some (es', calls) ↦ some (e ∷ es', calls) ]

-- `tpl_util_map_set`. `storage` is what `malloc` gives for a new entry: nothing, or the address
-- `curr + 1` behind the entry, to which a key with a length is copied.
pub set : UtilMap → Key → Ptr → Option FreeFunc → (storage : Option Ptr) → UtilMap × List FreeCall
unfolding set_loop get_bucket get_bucket_index key_length
set m key value free_func storage = elim (set_loop m.funcs key value free_func (get_bucket m key)) [
  | some (es, calls) ↦ (record m { buckets = update m.buckets (get_bucket_index m key) es }, calls)
  | none ↦ if value == null then (m, []) else elim storage [
    | none ↦ (m, [])
    | some copy ↦ (
      record m {
        buckets = update m.buckets (get_bucket_index m key) (
            record {
              key = if ltb 0 (key_length m.funcs key) then copy else key;
              value = value;
              free_func = free_func;
            }
            ∷ get_bucket m key);
      },
      [],
    )
  ]
]
