-- ===== src/UtilMap/Update.antt =====
-- `tpl_util_map_set` on every branch.
use libtpl_egl.Base.{
  ℕ, ◌≡◌, refl, sym, inl, inr, Option, none, some, arith, ◌==◌, if◌then◌else◌, is_some, Bool-cases,
  Option-cases,
}
use libtpl_egl.Types.{Ptr, null}
use libtpl_egl.UtilMap.{UtilMap, Entry, FreeFunc, get_bucket_index, get_bucket, get, set}
use libtpl_egl.UtilMap.Hash.{Key}
use libtpl_egl.UtilMap.Identity.{IsIdentity, stored_key}
use libtpl_egl.UtilMap.Bucket.{release_of, release-call_of, Distinct-put, All-put}
use libtpl_egl.UtilMap.Laws.{
  IsValid, entry_of, new_entry, set_found, set_missing, set_unallocated, get_found, get_added,
  update-IsValid, index_ident,
}

-- The key that is stored in a new entry at `copy` is one that the functions know, and is taken
-- for the key that was given.
abbrev pub IsCopy : (Key → Type 0) → (Key → ℕ) → UtilMap → Key → Ptr → Type 0
IsCopy Dom ident m key copy =
    Dom (stored_key m.funcs key copy) × (ident (stored_key m.funcs key copy) ≡ ident key)

module _ {Dom : Key → Type 0} {ident : Key → ℕ} {m : UtilMap} (law : IsIdentity m.funcs Dom ident)
    (valid : IsValid Dom ident m) (key : Key) (known : Dom key) (value : Ptr)
    (free_func : Option FreeFunc) where
  -- On a map that satisfies its invariant, with functions that tell its keys apart by an identity:
  -- after `tpl_util_map_set` with memory for a new entry, `tpl_util_map_get` returns the new value
  -- for the keys that are taken for the given one, NULL included, and what it returned before for
  -- all others.
  pub get-set :
      (copy : Ptr) (k : Key)
      → IsCopy Dom ident m key copy
      → Dom k
      → get (set m key value free_func (some copy)).0 k
        ≡ (if ident key == ident k then value else get m k)
  get-set copy k stored d = elim (Option-cases (entry_of ident m key)) [
    | inl missing ↦ get_added law valid key known value free_func k copy d stored.0 stored.1 missing
    | inr (e, found) ↦ get_found law valid key known value free_func k (some copy) e d found
  ]

  -- On a map that satisfies its invariant, with functions that tell its keys apart by an identity,
  -- `tpl_util_map_set` calls the free function of the entry that it replaces or deletes, once, on
  -- that entry's value, and no other. Memory matters only where there is no entry: without it the
  -- map stays as it is.
  pub set_releases :
      (copy : Ptr)
      → ((set m key value free_func (some copy)).1 ≡ release_of (entry_of ident m key))
        × ((set m key value free_func none).1 ≡ release_of (entry_of ident m key))
        × ((set m key value free_func none).0 ≡ (
            if is_some (entry_of ident m key)
            then (set m key value free_func (some copy)).0
            else m))
  set_releases copy = elim (Option-cases (entry_of ident m key)) [
    | inl missing ↦ ground (
      arith,
      set_missing law valid key known value free_func copy missing,
      set_unallocated law valid key known value free_func missing,
    )
    | inr (e, found) ↦ ground (
      arith,
      set_found law valid key known value free_func (some copy) e found,
      set_found law valid key known value free_func none e found,
      release-call_of e,
    )
  ]

  found-IsValid :
      (storage : Option Ptr) (e : Entry)
      → entry_of ident m key ≡ some e
      → IsValid Dom ident (set m key value free_func storage).0
  unfolding get_bucket
  found-IsValid storage e found =
      rw (set_found law valid key known value free_func storage e found) (
        update-IsValid (get_bucket_index m key) _ valid
          (All-put ident Dom (ident key) value free_func (get_bucket m key) (valid.known i))
          (All-put ident (λ k. get_bucket_index m k ≡ i) (ident key) value free_func
            (get_bucket m key) (valid.placed i))
          (Distinct-put ident (ident key) value free_func (get_bucket m key) (valid.unique i)))
    where
      i : ℕ
      i = get_bucket_index m key

  added-IsValid :
      (copy : Ptr)
      → IsCopy Dom ident m key copy
      → entry_of ident m key ≡ none
      → IsValid Dom ident (set m key value free_func (some copy)).0
  unfolding get_bucket new_entry entry_of
  added-IsValid copy stored missing =
      rw (set_missing law valid key known value free_func copy missing)
        (elim (Bool-cases (value == null)) [
          | inl h ↦ rw h valid
          | inr h ↦ rw h (
              update-IsValid (get_bucket_index m key) _ valid (stored.0, valid.known i)
                (
                  index_ident law valid key known value free_func _ stored.0 (sym stored.1),
                  valid.placed i,
                )
                (rw stored.1 missing, valid.unique i))
        ])
    where
      i : ℕ
      i = get_bucket_index m key

  -- With functions that tell the keys apart by an identity, `tpl_util_map_set` of a key that they
  -- know keeps the invariant of the map, whether it replaces, deletes, adds or finds no memory; the
  -- copy of a key that has a length is taken for the key.
  pub set-IsValid :
      (storage : Option Ptr)
      → ((copy : Ptr) → storage ≡ some copy → IsCopy Dom ident m key copy)
      → IsValid Dom ident (set m key value free_func storage).0
  set-IsValid none stored = elim (Option-cases (entry_of ident m key)) [
    | inl missing ↦ rw (set_unallocated law valid key known value free_func missing) valid
    | inr (e, found) ↦ found-IsValid none e found
  ]
  set-IsValid (some copy) stored = elim (Option-cases (entry_of ident m key)) [
    | inl missing ↦ added-IsValid copy (stored copy refl) missing
    | inr (e, found) ↦ found-IsValid (some copy) e found
  ]
