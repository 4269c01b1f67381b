-- ===== src/Display/Release.antt =====
-- The last release of a display: `tpl_object_unreference`, which calls `__tpl_display_free`.
use libtpl_egl.Base.{
  ℕ, ◌≡◌, refl, true, ◌&&◌, inl, inr, none, some, ◌==◌, if◌then◌else◌, update, Option-cases,
}
use libtpl_egl.Types.{Ptr, null, BackendType, backend_index, done}
use libtpl_egl.Object.{is_valid, object_fini}
use libtpl_egl.Object.Counting.{unreference_last}
use libtpl_egl.Runtime.Registry
use libtpl_egl.Runtime.Registry.{registered, IsBackend, remove_display_lem}
use libtpl_egl.Display.{
  Display, Backends, World, CreateEnv, ended, display_fini, display_free, unreference_display,
  give_up,
}

-- The functions of a backend leave the base object and the type of the display alone, and the
-- function that ends it leaves its handle alone too.
pub record IsFaithful (backends : Backends) : Type 0 where
  pub init_type : (d : Display) → ((backends d.backend_type).init d).1.backend_type ≡ d.backend_type
  pub init_base : (d : Display) → ((backends d.backend_type).init d).1.base ≡ d.base
  pub fini_type :
      (t : BackendType) (f : Display → Display) (d : Display)
      → (backends t).fini ≡ some f
      → (f d).backend_type ≡ d.backend_type
  pub fini_handle :
      (t : BackendType) (f : Display → Display) (d : Display)
      → (backends t).fini ≡ some f
      → (f d).native_handle ≡ d.native_handle

-- A world after the display at `p` is gone: no memory at `p`, and no display registered under its
-- type and handle.
pub record Released (w : World) (p : Ptr) (d : Display) (w' : World) : Type 0 where
  pub table :
      (j : ℕ) (h : Ptr)
      → registered w'.runtime j h ≡ (
          if (backend_index d.backend_type == j) && (d.native_handle == h)
          then null
          else registered w.runtime j h)
  pub valid : Registry.IsValid w'.runtime
  pub store : (q : Ptr) → w'.store q ≡ (if q == p then none else w.store q)

ended_same :
    (backends : Backends) (d : Display)
    → IsFaithful backends
    → ((ended backends d).backend_type ≡ d.backend_type)
      × ((ended backends d).native_handle ≡ d.native_handle)
unfolding ended
ended_same backends d f = elim (Option-cases (backends d.backend_type).fini) [
  | inl e ↦ (rw (e, ended) refl, rw (e, ended) refl)
  | inr (g, e) ↦ (
    rw (e, ended) (f.fini_type d.backend_type g d e),
    rw (e, ended) (f.fini_handle d.backend_type g d e),
  )
]

display_free-Released :
    (backends : Backends) (w : World) (p : Ptr) (d : Display)
    → IsFaithful backends
    → IsBackend d.backend_type
    → Registry.IsValid w.runtime
    → (w' : World) × (display_free backends w p d ≡ done w')
      × Released w p d w'
      × (w'.tracked ≡ w.tracked)
unfolding display_free display_fini
display_free-Released backends w p d f b v =
    let (rt, e, table, valid) = remove_display_lem w.runtime d.backend_type d.native_handle v b in
    (
      record w { runtime = rt; store = update w.store p none },
      rw ((ended_same backends d f).0, (ended_same backends d f).1, e) refl,
      record { table = table; valid = valid; store = λ q. refl },
      refl,
    )

-- The way out of `tpl_display_create` with a display that is valid and has one reference: it ends
-- with NULL, the display's memory is freed, and its entry is taken out of the registry.
pub give_up-Released :
    (env : CreateEnv) (backends : Backends) (w : World) (p : Ptr) (d : Display)
    → IsFaithful backends
    → IsBackend d.backend_type
    → Registry.IsValid w.runtime
    → is_valid w.tracked (some d.base) ≡ true
    → d.base.reference ≡ 1
    → (w' : World) × (give_up env backends w p d ≡ done (null, w')) × Released w p d w'
unfolding give_up unreference_display
give_up-Released env backends w p d f b v live one =
    let (r, tracked, dead, calls) =
      object_fini env.mutex_destroy_ok w.tracked (record d.base { reference = 0 }) in
    let (w', e, released, same) =
      display_free-Released backends (record w { tracked = tracked }) p (record d { base = dead }) f
        b v in
    (
      w',
      rw (unreference_last env.mutex_destroy_ok w.tracked d.base live one, e) refl,
      record { table = released.table; valid = released.valid; store = released.store },
    )
