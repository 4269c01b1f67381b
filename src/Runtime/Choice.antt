-- ===== src/Runtime/Choice.antt =====
-- The choice of a backend fits the backends that the build has.
use Prim.Native.String.{String}
use libtpl_egl.Base.{◌≡◌, ◌⊎◌, inl, inr, true, Option, none, some, arith, Option-cases}
use libtpl_egl.Types.{BackendType, is_unknown, done, assertion_failed, backend_index}
use libtpl_egl.Runtime.{
  Winsys, Probes, choose_by_name, choose_by_probe, choose_backend, init_backend,
}
use libtpl_egl.Runtime.Registry.{IsBackend}

-- No backend, or one whose functions can be put in place.
abbrev pub IsServed : Winsys → BackendType → Type 0
IsServed w type = (is_unknown type ≡ true) ⊎ ((init_backend w type ≡ done type) × IsBackend type)

choose_by_probe-IsServed : (w : Winsys) (p : Probes) → IsServed w (choose_by_probe w p)
unfolding choose_by_probe init_backend is_unknown backend_index
choose_by_probe-IsServed w p = ground arith

choose_by_name-IsServed :
    (w : Winsys) (name : String) (type : BackendType)
    → choose_by_name w name ≡ some type
    → IsServed w type
unfolding choose_by_name init_backend is_unknown backend_index
choose_by_name-IsServed w name type e = ground arith

-- Whatever EGL_PLATFORM and the native display are, `__tpl_display_choose_backend` finds no
-- backend, or one that this build has: `__tpl_display_init_backend` then puts that backend's
-- functions in place and does not run into its assertion.
pub choose_backend-IsServed :
    (w : Winsys) (platform : Option String) (p : Probes) → IsServed w (choose_backend w platform p)
unfolding choose_backend
choose_backend-IsServed w none p = choose_by_probe-IsServed w p
choose_backend-IsServed w (some name) p = elim (Option-cases (choose_by_name w name)) [
  | inl e ↦ rw (e, choose_backend) (choose_by_probe-IsServed w p)
  | inr (type, e) ↦ rw (e, choose_backend) (choose_by_name-IsServed w name type e)
]

-- `__tpl_display_init_backend` puts the functions of the type that it is given in place, or runs
-- into its assertion.
pub init_backend_same :
    (w : Winsys) (type : BackendType)
    → (init_backend w type ≡ done type) ⊎ (init_backend w type ≡ assertion_failed)
unfolding init_backend
init_backend_same w type = ground arith
