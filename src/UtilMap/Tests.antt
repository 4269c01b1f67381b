-- ===== src/UtilMap/Tests.antt =====
-- Runs of the hash map on small inputs.
use libtpl_egl.Base.{
  ℕ, ◌≡◌, refl, true, false, none, some, List, [], ◌∷◌, arith, ◌==◌, if◌then◌else◌, gather, is_some,
}
use libtpl_egl.Types.{null, Ptr}
use libtpl_egl.UtilMap.{
  UtilMap, Entry, init, int32_init, int64_init, pointer_init, create, int32_create, int64_create,
  pointer_create, int32_funcs, get, set, clear, fini, destroy, get_bucket, get_bucket_index,
  get_loop, set_loop, key_length, same_key, release, clear_bucket, clear_buckets,
}
use libtpl_egl.UtilMap.Hash.{
  Key, key32, bits32, bits64, int32_hash, int32_key_compare, pointer_hash,
}
use libtpl_egl.UtilMap.Bounds.{IsSized}
use libtpl_egl.UtilMap.Identity.{IsIdentity}
use libtpl_egl.UtilMap.Bucket.{release_of, releases_of}
use libtpl_egl.UtilMap.Laws.{IsValid, entry_of}
use libtpl_egl.UtilMap.Update.{IsCopy, get-set, set_releases, set-IsValid}
use libtpl_egl.UtilMap.Clear.{clear_lem}
use libtpl_egl.UtilMap.Keys.{int32-IsIdentity, pointer_keys_collide}

-- A map with 32-bit keys, empty and with one entry.
abbrev empty_map : UtilMap
empty_map = int32_init 4 true (λ i. [])

abbrev one_entry : UtilMap
one_entry = (set empty_map 7 100 (some 3) (some 0)).0

abbrev Any : Key → Type 0
Any k = Unit {0}

empty_map-IsValid : IsValid Any key32 empty_map
unfolding int32_init
empty_map-IsValid = record {
  sized = (refl, refl);
  known = λ i. tt;
  placed = λ i. tt;
  unique = λ i. tt;
}

empty_map-law : IsIdentity empty_map.funcs Any key32
unfolding int32_init
empty_map-law = int32-IsIdentity

empty_map-IsCopy : (k copy : Key) → IsCopy Any key32 empty_map k k
unfolding int32_init key_length
empty_map-IsCopy k copy = (tt, ground arith)

-- An entry is found, replaced and deleted, and its free function called each time.
entry_lives_and_dies :
    (get one_entry 7 ≡ 100)
    × (get one_entry 8 ≡ null)
    × ((set one_entry 7 200 none none).1 ≡ (3, 100) ∷ [])
    × ((set one_entry 7 null none none).1 ≡ (3, 100) ∷ [])
    × (get (set one_entry 7 null none none).0 7 ≡ null)
    × (destroy one_entry ≡ (3, 100) ∷ [])
unfolding get set get_bucket get_bucket_index get_loop set_loop key_length same_key int32_init
    int32_hash int32_key_compare release destroy fini clear clear_buckets clear_bucket init
entry_lives_and_dies = (refl, refl, refl, refl, refl, refl)

sizes :
    ((int64_init 5 true (λ i. [])).bucket_size ≡ 32)
    × ((pointer_init bits32 3 true (λ i. [])).bucket_mask ≡ 7)
    × (create false 3 int32_funcs ≡ none)
    × (int32_create false 3 ≡ none)
    × (int64_create false 3 ≡ none)
    × (pointer_create bits64 false 3 ≡ none)
unfolding int64_init pointer_init init create int32_create int64_create pointer_create
sizes = (refl, refl, refl, refl, refl, refl)

get-set_example :
    get (set empty_map 7 100 (some 3) (some 7)).0 7
    ≡ (if key32 7 == key32 7 then 100 else get empty_map 7)
get-set_example =
    get-set empty_map-law empty_map-IsValid 7 tt 100 (some 3) 7 7 (empty_map-IsCopy 7 7) tt

set_releases_example :
    ((set empty_map 7 100 (some 3) (some 7)).1 ≡ release_of (entry_of key32 empty_map 7))
    × ((set empty_map 7 100 (some 3) none).1 ≡ release_of (entry_of key32 empty_map 7))
    × ((set empty_map 7 100 (some 3) none).0 ≡ (
        if is_some (entry_of key32 empty_map 7)
        then (set empty_map 7 100 (some 3) (some 7)).0
        else empty_map))
set_releases_example = set_releases empty_map-law empty_map-IsValid 7 tt 100 (some 3) 7

seven-IsCopy : (copy : Ptr) → some 7 ≡ some copy → IsCopy Any key32 empty_map 7 copy
unfolding int32_init key_length
seven-IsCopy copy e = (tt, ground arith)

set-IsValid_example : IsValid Any key32 (set empty_map 7 100 (some 3) (some 7)).0
set-IsValid_example =
    set-IsValid empty_map-law empty_map-IsValid 7 tt 100 (some 3) (some 7) seven-IsCopy

one_entry-IsSized : IsSized one_entry
one_entry-IsSized =
    (set-IsValid empty_map-law empty_map-IsValid 7 tt 100 (some 3) (some 0) zero-IsCopy).sized
  where
    zero-IsCopy : (copy : Ptr) → some 0 ≡ some copy → IsCopy Any key32 empty_map 7 copy
    zero-IsCopy copy e = unfold int32_init key_length in (tt, ground arith)

one_entry-has_buckets : one_entry.has_buckets ≡ true
unfolding set int32_init init get_bucket get_bucket_index set_loop
one_entry-has_buckets = refl

clear_lem_example :
    ((clear one_entry).1 ≡ releases_of (gather one_entry.bucket_size one_entry.buckets))
    × (get (clear one_entry).0 7 ≡ null)
    × ((clear (clear one_entry).0).1 ≡ [])
clear_lem_example = clear_lem one_entry 7 one_entry-IsSized one_entry-has_buckets

-- The map of an object, with 32 buckets.
abbrev no_entries : ℕ → List Entry
no_entries i = []

same_bucket :
    get_bucket_index (pointer_init bits64 5 true no_entries) 0x1000
    ≡ get_bucket_index (pointer_init bits64 5 true no_entries) 0x2600001000
unfolding get_bucket_index pointer_init init key_length pointer_hash
same_bucket = refl

bucket_empty : get_bucket (pointer_init bits64 5 true no_entries) 0x1000 ≡ []
unfolding get_bucket pointer_init init
bucket_empty = refl

-- Data set under the address 0x1000 is found under the address 0x2600001000.
pointer_keys_collide_example :
    get (set (pointer_init bits64 5 true no_entries) 0x1000 100 none (some 0)).0 0x2600001000 ≡ 100
pointer_keys_collide_example =
    pointer_keys_collide 5 no_entries 0x1000 0x2600001000 100 none 0 (omega arith) (omega arith)
      (λ e. absurd (omega arith)) refl same_bucket bucket_empty (λ e. absurd (omega arith))
