-- ===== src/UtilMap/Laws.antt =====
-- The map as a client sees it: an invariant that every operation keeps, and what
-- `tpl_util_map_get` returns after `tpl_util_map_set`.
use libtpl_egl.Base.{
  ℕ, ◌≡◌, inl, inr, true, Option, none, some, List, [], ◌∷◌, arith, ◌==◌, if◌then◌else◌, All,
  update, is_some, Bool-cases, ==_eq,
}
use libtpl_egl.Types.{Ptr, null}
use libtpl_egl.UtilMap.{
  UtilMap, Entry, FreeFunc, get_bucket_index, get_bucket, get, get_loop, set, set_loop, release,
}
use libtpl_egl.UtilMap.Hash.{Key}
use libtpl_egl.UtilMap.Bounds.{IsSized}
use libtpl_egl.UtilMap.Identity.{IsIdentity, stored_key}
use libtpl_egl.UtilMap.Bucket.{
  find, Distinct, put, value_of, get_loop-find, set_loop-put, find-put, All-put,
}

-- The keys are among those that the functions were made for, each entry lies in the bucket of its
-- key, and no bucket has two entries for one identity.
pub record IsValid (Dom : Key → Type 0) (ident : Key → ℕ) (m : UtilMap) : Type 0 where
  pub sized : IsSized m
  pub known : (i : ℕ) → All (λ e. Dom e.key) (m.buckets i)
  pub placed : (i : ℕ) → All (λ e. get_bucket_index m e.key ≡ i) (m.buckets i)
  pub unique : (i : ℕ) → Distinct ident (m.buckets i)

-- The entry for a key, if there is one.
unfoldable pub entry_of : (Key → ℕ) → UtilMap → Key → Option Entry
entry_of ident m key = find ident (ident key) (get_bucket m key)

-- The entry that a successful allocation adds.
unfoldable pub new_entry : UtilMap → Key → Ptr → Option FreeFunc → Ptr → Entry
new_entry m key value free_func copy = record {
  key = stored_key m.funcs key copy;
  value = value;
  free_func = free_func;
}

module _ {Dom : Key → Type 0} {ident : Key → ℕ} {m : UtilMap} (law : IsIdentity m.funcs Dom ident)
    (valid : IsValid Dom ident m) (key : Key) (known : Dom key) where
  pub get-entry_of : get m key ≡ value_of (entry_of ident m key)
  unfolding get get_bucket entry_of
  get-entry_of =
      get_loop-find law key (get_bucket m key) known (valid.known (get_bucket_index m key))

  module _ (value : Ptr) (free_func : Option FreeFunc) where
    scan : set_loop m.funcs key value free_func (get_bucket m key) ≡ elim (entry_of ident m key) [
      | none ↦ none
      | some e ↦ some (put ident (ident key) value free_func (get_bucket m key), release e)
    ]
    unfolding entry_of get_bucket
    scan =
        set_loop-put law key value free_func (get_bucket m key) known
          (valid.known (get_bucket_index m key))

    -- `tpl_util_map_set` at a key that has an entry.
    pub set_found :
        (storage : Option Ptr) (e : Entry)
        → entry_of ident m key ≡ some e
        → set m key value free_func storage ≡ (
          record m {
            buckets =
                update m.buckets
                  (get_bucket_index m key)
                  (put ident (ident key) value free_func (get_bucket m key));
          },
          release e,
        )
    unfolding set entry_of
    set_found storage e found = ground (arith, scan, found)

    -- `tpl_util_map_set` at a key that has none.
    pub set_missing :
        (copy : Ptr)
        → entry_of ident m key ≡ none
        → set m key value free_func (some copy) ≡ (
          if value == null then m else record m {
            buckets =
                update m.buckets
                  (get_bucket_index m key)
                  (new_entry m key value free_func copy ∷ get_bucket m key);
          },
          [],
        )
    unfolding set entry_of new_entry
    set_missing copy missing = ground (arith, scan, missing)

    -- Without memory nothing is added.
    pub set_unallocated : entry_of ident m key ≡ none → set m key value free_func none ≡ (m, [])
    unfolding set entry_of
    set_unallocated missing = ground (arith, scan, missing)

-- A bucket exchanged for one that is fit for its place.
pub update-IsValid :
    {Dom : Key → Type 0} {ident : Key → ℕ} {m : UtilMap} (i : ℕ) (es : List Entry)
    → IsValid Dom ident m
    → All (λ e. Dom e.key) es
    → All (λ e. get_bucket_index m e.key ≡ i) es
    → Distinct ident es
    → IsValid Dom ident (record m { buckets = update m.buckets i es })
unfolding get_bucket_index
update-IsValid i es v known placed unique = record {
  sized = v.sized;
  known = λ j. elim (Bool-cases (j == i)) [ inl h ↦ rw h known | inr h ↦ rw h (v.known j) ];
  placed = λ j. elim (Bool-cases (j == i)) [
    | inl h ↦ rw (h, ==_eq j i h) placed
    | inr h ↦ rw h (v.placed j)
  ];
  unique = λ j. elim (Bool-cases (j == i)) [ inl h ↦ rw h unique | inr h ↦ rw h (v.unique j) ];
}

get-update :
    (m : UtilMap) (i : ℕ) (es : List Entry) (k : Key)
    → get (record m { buckets = update m.buckets i es }) k
      ≡ (if get_bucket_index m k == i then get_loop m.funcs k es else get m k)
unfolding get get_bucket get_bucket_index
get-update m i es k = ground arith

module _ {Dom : Key → Type 0} {ident : Key → ℕ} {m : UtilMap} (law : IsIdentity m.funcs Dom ident)
    (valid : IsValid Dom ident m) (key : Key) (known : Dom key) (value : Ptr)
    (free_func : Option FreeFunc) where
  pub index_ident :
      (k : Key) → Dom k → ident key ≡ ident k → get_bucket_index m k ≡ get_bucket_index m key
  unfolding get_bucket_index
  index_ident k d h = ground (arith, law.hash key k known d h)

  -- What a lookup finds in the bucket of `key` once its entries are `es`.
  get_replaced :
      (k : Key) (es : List Entry)
      → Dom k
      → All (λ e. Dom e.key) es
      → value_of (find ident (ident k) es) ≡ (
          if ident key == ident k
          then value
          else value_of (find ident (ident k) (get_bucket m key)))
      → get (record m { buckets = update m.buckets (get_bucket_index m key) es }) k
        ≡ (if ident key == ident k then value else get m k)
  unfolding get_bucket entry_of
  get_replaced k es d a h =
      rw (get-update m (get_bucket_index m key) es k)
        (ground (arith, get_loop-find law k es d a, get-entry_of law valid k d, index_ident k d, h))

  pub get_found :
      (k : Key) (storage : Option Ptr) (e : Entry)
      → Dom k
      → entry_of ident m key ≡ some e
      → get (set m key value free_func storage).0 k
        ≡ (if ident key == ident k then value else get m k)
  get_found k storage e d found =
      rw (set_found law valid key known value free_func storage e found) (
        get_replaced k _ d
          (All-put ident Dom (ident key) value free_func (get_bucket m key) bucket_known)
          (find-put ident (ident key) (ident k) value free_func (get_bucket m key) bucket_unique
            present))
    where
      bucket_known : All (λ e. Dom e.key) (get_bucket m key)
      bucket_known = unfold get_bucket in valid.known (get_bucket_index m key)

      bucket_unique : Distinct ident (get_bucket m key)
      bucket_unique = unfold get_bucket in valid.unique (get_bucket_index m key)

      present : is_some (find ident (ident key) (get_bucket m key)) ≡ true
      present = unfold entry_of in rw found

  -- At a key with no entry NULL stays what a lookup finds.
  pub get_absent :
      (k : Key) → Dom k → entry_of ident m key ≡ none → ident key ≡ ident k → get m k ≡ null
  unfolding entry_of get_bucket
  get_absent k d missing h = ground (arith, get-entry_of law valid k d, index_ident k d h)

  pub get_added :
      (k : Key) (copy : Ptr)
      → Dom k
      → Dom (stored_key m.funcs key copy)
      → ident (stored_key m.funcs key copy) ≡ ident key
      → entry_of ident m key ≡ none
      → get (set m key value free_func (some copy)).0 k
        ≡ (if ident key == ident k then value else get m k)
  unfolding find new_entry
  get_added k copy d ds same missing =
      rw (set_missing law valid key known value free_func copy missing)
        (elim (Bool-cases (value == null)) [
          | inl h ↦ rw h (ground (arith, get_absent k d missing))
          | inr h ↦ rw h (get_replaced k _ d (ds, bucket_known) (ground arith))
        ])
    where
      bucket_known : All (λ e. Dom e.key) (get_bucket m key)
      bucket_known = unfold get_bucket in valid.known (get_bucket_index m key)
