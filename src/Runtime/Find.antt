-- ===== src/Runtime/Find.antt =====
-- `__tpl_runtime_find_display` against the table of what is registered.
use libtpl_egl.Base.{
  ℕ, zero, suc, ◌+◌, ◌≤◌, ◌<◌, ◌≡◌, ◌≢◌, refl, ◌⊎◌, inl, inr, Option, none, some, arith, ◌==◌,
  Bool-cases, ==_eq,
}
use libtpl_egl.Types.{
  Ptr, null, BackendType, unknown, num_of_backends, backend_index, is_unknown, done,
}
use libtpl_egl.Runtime.{Runtime, slot, lookup_slot, find_loop, find_display}
use libtpl_egl.Runtime.Registry.{registered, IsBackend}

-- For the type of a backend `__tpl_runtime_find_display` ends, and returns the display that is
-- registered under the type and the handle, NULL if there is none.
pub find_display-registered :
    (rt : Option Runtime) (type : BackendType) (handle : Ptr)
    → IsBackend type
    → find_display rt type handle ≡ done (registered rt (backend_index type) handle)
unfolding find_display registered slot
find_display-registered none type handle b = refl
find_display-registered (some r) type handle b = ground arith

-- `p` is the first display that is registered under the handle at an index from `low` to
-- `high - 1`, or NULL if none is.
abbrev pub IsFirst : Option Runtime → Ptr → ℕ → ℕ → Ptr → Type 0
IsFirst rt handle low high p =
    ((p ≡ null) × ((j : ℕ) → low ≤ j → j < high → registered rt j handle ≡ null))
    ⊎ ((i : ℕ) × (low ≤ i)
        × (i < high)
        × (p ≢ null)
        × (registered rt i handle ≡ p)
        × ((j : ℕ) → low ≤ j → j < i → registered rt j handle ≡ null))

IsFirst-from :
    (rt : Option Runtime) (handle : Ptr) (low high : ℕ) (p : Ptr)
    → registered rt low handle ≡ null
    → IsFirst rt handle (suc low) high p
    → IsFirst rt handle low high p
IsFirst-from rt handle low high p e (inl (n, all)) = inl (n, none_from)
  where
    none_from : (j : ℕ) → low ≤ j → j < high → registered rt j handle ≡ null
    none_from j l h = elim (Bool-cases (j == low)) [
      | inl same ↦ rw (==_eq j low same) e
      | inr other ↦ all j (ground arith) h
    ]
IsFirst-from rt handle low high p e (inr (i, l, h, ne, at, before)) =
    inr (i, omega arith, h, ne, at, none_before)
  where
    none_before : (j : ℕ) → low ≤ j → j < i → registered rt j handle ≡ null
    none_before j l' h' = elim (Bool-cases (j == low)) [
      | inl same ↦ rw (==_eq j low same) e
      | inr other ↦ before j (ground arith) h'
    ]

find_loop-IsFirst :
    (left i high : ℕ) (r : Runtime) (handle : Ptr)
    → high ≡ i + left
    → IsFirst (some r) handle i high (find_loop left i r handle)
unfolding find_loop registered
find_loop-IsFirst zero i high r handle e = inl (refl, λ j l h. absurd (omega arith))
find_loop-IsFirst (suc left) i high r handle e =
    elim (Bool-cases (lookup_slot (r.displays i) handle == null)) [
      | inl absent ↦ rw absent (
          IsFirst-from (some r) handle i high _ (==_eq _ _ absent)
            (find_loop-IsFirst left (suc i) high r handle (omega arith)))
      | inr present ↦
          rw present
            (inr (i, omega arith, omega arith, ground arith, refl, λ j l h. absurd (omega arith)))
    ]

-- For TPL_BACKEND_UNKNOWN `__tpl_runtime_find_display` ends, and returns the first display with the
-- handle in the order of the enumeration of the types, NULL if there is none.
pub find_display-IsFirst :
    (rt : Option Runtime) (handle : Ptr)
    → (p : Ptr) × (find_display rt unknown handle ≡ done p) × IsFirst rt handle 0 num_of_backends p
unfolding find_display is_unknown registered
find_display-IsFirst none handle = (null, refl, inl (refl, λ j l h. refl))
find_display-IsFirst (some r) handle = (
  find_loop num_of_backends 0 r handle,
  refl,
  find_loop-IsFirst num_of_backends 0 num_of_backends r handle refl,
)
