-- ===== src/Runtime/Registry.antt =====
-- The registry as a table: which display is registered under an index and a handle, and what the
-- operations do to it.
use mathlib.Core.Path.{subst}
use libtpl_egl.Base.{
  ℕ, ◌<◌, ◌≡◌, ◌≢◌, refl, true, false, ◌&&◌, Option, none, some, inl, inr, arith, ◌==◌,
  if◌then◌else◌, update, Bool-cases, Option-cases,
}
use libtpl_egl.Types.{
  TplResult, invalid_operation, succeeded, Ptr, null, BackendType, num_of_backends, backend_index,
  is_unknown, Outcome, done,
}
use libtpl_egl.Hlist
use libtpl_egl.Hlist.{Hlist, get_node, empty_heads}
use libtpl_egl.Hlist.Contents.{lookup-insert, lookup-delete, lookup-create, insert_taken}
use libtpl_egl.Hlist.Invariant.{insert-IsValid, delete-IsValid, create_result-IsValid}
use libtpl_egl.Hlist.Invariant
use libtpl_egl.Runtime.{
  Runtime, AddEnv, slot, lookup_slot, runtime_init, made_list, add_at, add_display, remove_display,
}

-- The display that is registered at an index under a handle; NULL if there is none.
unfoldable pub registered : Option Runtime → ℕ → Ptr → Ptr
registered none i handle = null
registered (some r) i handle = lookup_slot (r.displays i) handle

abbrev SlotIsValid : Option Hlist → Type 0
SlotIsValid none = Unit {0}
SlotIsValid (some l) = Invariant.IsValid l

-- Every hash list of the registry is well formed.
abbrev pub IsValid : Option Runtime → Type 0
IsValid none = Unit {0}
IsValid (some r) = (i : ℕ) → SlotIsValid (r.displays i)

made_list-lookup :
    (env : AddEnv) (r : Runtime) (i : ℕ) (l : Hlist) (h : Ptr)
    → made_list env (r.displays i) ≡ some l
    → Hlist.lookup l h ≡ lookup_slot (r.displays i) h
unfolding made_list lookup_slot
made_list-lookup env r i l h e = ground (arith, lookup-create env.list_ok env.heads_ok l h)

add_at-registered :
    (env : AddEnv) (r : Runtime) (i : ℕ) (handle display : Ptr) (j : ℕ) (h : Ptr)
    → registered (some (add_at env r i handle display).1) j h ≡ (
        if succeeded (add_at env r i handle display).0 && ((i == j) && (handle == h))
        then display
        else registered (some r) j h)
unfolding add_at registered lookup_slot
add_at-registered env r i handle display j h = elim (Option-cases (made_list env (r.displays i))) [
  | inl e ↦ rw (e, add_at) refl
  | inr (l, e) ↦
      ground (arith, lookup-insert env.node_ok l handle display h, made_list-lookup env r i l h e)
]

-- A type that names a backend.
abbrev pub IsBackend : BackendType → Type 0
IsBackend type = (is_unknown type ≡ false) × (backend_index type < num_of_backends)

-- A call of `__tpl_runtime_add_display` that ended, and what is registered afterwards: the new
-- display under its type and handle if the call succeeded, and all else as before.
pub record Added (rt : Option Runtime) (type : BackendType) (handle display : Ptr)
    (result : Outcome (TplResult × Option Runtime)) : Type 0 where
  pub ret : TplResult
  pub after : Option Runtime
  pub ends : result ≡ done (ret, after)
  pub table :
      (j : ℕ) (h : Ptr)
      → registered after j h ≡ (
          if succeeded ret && ((backend_index type == j) && (handle == h))
          then display
          else registered rt j h)
  pub valid : IsValid after

SlotIsValid-of : (o : Option Hlist) (l : Hlist) → o ≡ some l → SlotIsValid o → Invariant.IsValid l
SlotIsValid-of none l e v = cc
SlotIsValid-of (some m) l e v = let same : m ≡ l = cc in subst Invariant.IsValid same v

made_list-IsValid :
    (env : AddEnv) (o : Option Hlist) (l : Hlist)
    → made_list env o ≡ some l
    → SlotIsValid o
    → Invariant.IsValid l
unfolding made_list
made_list-IsValid env none l e v = create_result-IsValid env.list_ok env.heads_ok l e
made_list-IsValid env (some m) l e v = SlotIsValid-of (some m) l e v

update-IsValid :
    (r : Runtime) (i : ℕ) (l : Hlist)
    → IsValid (some r)
    → Invariant.IsValid l
    → IsValid (some (record r { displays = update r.displays i (some l) }))
update-IsValid r i l v vl j = elim (Bool-cases (j == i)) [ inl e ↦ rw e vl | inr e ↦ rw e (v j) ]

add_at-IsValid :
    (env : AddEnv) (r : Runtime) (i : ℕ) (handle display : Ptr)
    → IsValid (some r)
    → IsValid (some (add_at env r i handle display).1)
unfolding add_at
add_at-IsValid env r i handle display v = elim (Option-cases (made_list env (r.displays i))) [
  | inl e ↦ rw (e, add_at) v
  | inr (l, e) ↦
      rw (e, add_at)
        (update-IsValid r i _ v (
          insert-IsValid env.node_ok l handle display
            (made_list-IsValid env (r.displays i) l e (v i))))
]

add_to :
    (env : AddEnv) (rt : Option Runtime) (r : Runtime) (type : BackendType) (handle display : Ptr)
    → IsBackend type
    → env.mutex_ok ≡ true
    → (runtime_init env.runtime_ok rt).1 ≡ some r
    → ((j : ℕ) (h : Ptr) → registered (some r) j h ≡ registered rt j h)
    → IsValid (some r)
    → Added rt type handle display (add_display env rt type handle display)
unfolding add_display
add_to env rt r type handle display b locked ready same v = record {
  ret = (add_at env r (backend_index type) handle display).0;
  after = some (add_at env r (backend_index type) handle display).1;
  ends = ground arith;
  table =
      λ j h. rw (add_at-registered env r (backend_index type) handle display j h, same j h) refl;
  valid = add_at-IsValid env r (backend_index type) handle display v;
}

-- A call that failed.
not-Added :
    (env : AddEnv) (rt after : Option Runtime) (type : BackendType) (handle display : Ptr)
    → IsValid after
    → ((j : ℕ) (h : Ptr) → registered after j h ≡ registered rt j h)
    → add_display env rt type handle display ≡ done (invalid_operation, after)
    → Added rt type handle display (add_display env rt type handle display)
not-Added env rt after type handle display v same e = record {
  ret = invalid_operation;
  after = after;
  ends = e;
  table = same;
  valid = v;
}

add_display_busy :
    (env : AddEnv) (rt : Option Runtime) (type : BackendType) (handle display : Ptr)
    → IsBackend type
    → env.mutex_ok ≡ false
    → add_display env rt type handle display ≡ done (invalid_operation, rt)
unfolding add_display
add_display_busy env rt type handle display b busy = ground arith

add_locked :
    (env : AddEnv) (rt : Option Runtime) (type : BackendType) (handle display : Ptr)
    → IsBackend type
    → env.mutex_ok ≡ true
    → IsValid rt
    → Added rt type handle display (add_display env rt type handle display)
unfolding runtime_init add_display registered lookup_slot
add_locked env (some r) type handle display b locked v =
    add_to env (some r) r type handle display b locked refl (λ j h. refl) v
add_locked env none type handle display b locked v = elim (Bool-cases env.runtime_ok) [
  | inl ok ↦
      add_to env none (record { displays = λ i. none }) type handle display b locked (rw ok)
        (λ j h. refl) (λ i. tt)
  | inr full ↦ not-Added env none none type handle display tt (λ j h. refl) (ground arith)
]

-- In a well-formed registry `__tpl_runtime_add_display` of a display with a backend ends in a
-- result, however the mutex and the allocator behave. If the result is success, the display is
-- registered under its type and handle; no other entry changes, on failure none at all, and the
-- registry stays well formed.
pub add_display_lem :
    (env : AddEnv) (rt : Option Runtime) (type : BackendType) (handle display : Ptr)
    → IsBackend type
    → IsValid rt
    → Added rt type handle display (add_display env rt type handle display)
add_display_lem env rt type handle display b v = elim (Bool-cases env.mutex_ok) [
  | inl locked ↦ add_locked env rt type handle display b locked v
  | inr busy ↦
      not-Added env rt rt type handle display v (λ j h. refl)
        (add_display_busy env rt type handle display b busy)
]

-- In a well-formed registry `__tpl_runtime_remove_display` of a display with a backend ends, and
-- unregisters what stood under the display's type and handle, whichever display that was, and
-- nothing else; the registry stays well formed.
pub remove_display_lem :
    (rt : Option Runtime) (type : BackendType) (handle : Ptr)
    → IsValid rt
    → IsBackend type
    → (after : Option Runtime) × (remove_display rt type handle ≡ done after)
      × ((j : ℕ) (h : Ptr)
          → registered after j h
            ≡ (if (backend_index type == j) && (handle == h) then null else registered rt j h))
      × IsValid after
unfolding remove_display registered lookup_slot slot
remove_display_lem none type handle v b = (none, refl, λ j h. ground arith, tt)
remove_display_lem (some r) type handle v b =
    elim (Option-cases (r.displays (backend_index type))) [
      | inl e ↦ (some r, ground arith, λ j h. ground arith, v)
      | inr (l, e) ↦
          let vl : Invariant.IsValid l =
            SlotIsValid-of (r.displays (backend_index type)) l e (v (backend_index type)) in
          (
            some (record r {
              displays = update r.displays (backend_index type) (some (Hlist.delete l handle));
            }),
            ground arith,
            λ j h. ground (arith, lookup-delete l handle h vl),
            update-IsValid r (backend_index type) _ v (delete-IsValid l handle vl),
          )
    ]

add_at_taken :
    (env : AddEnv) (r : Runtime) (i : ℕ) (handle display : Ptr)
    → lookup_slot (r.displays i) handle ≢ null
    → succeeded (add_at env r i handle display).0 ≡ false
unfolding add_at
add_at_taken env r i handle display taken = elim (Option-cases (made_list env (r.displays i))) [
  | inl e ↦ rw (e, add_at) refl
  | inr (l, e) ↦
      ground (arith, made_list-lookup env r i l handle e, insert_taken env.node_ok l handle display)
]

-- `__tpl_runtime_add_display` does not succeed where a display is registered.
pub add_display_taken :
    (env : AddEnv) (rt after : Option Runtime) (type : BackendType) (handle display : Ptr)
    (ret : TplResult)
    → registered rt (backend_index type) handle ≢ null
    → add_display env rt type handle display ≡ done (ret, after)
    → succeeded ret ≡ false
unfolding add_display runtime_init registered
add_display_taken env none after type handle display ret taken e = absurd (taken refl)
add_display_taken env (some r) after type handle display ret taken e =
    ground (arith, add_at_taken env r (backend_index type) handle display)
