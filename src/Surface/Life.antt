-- ===== src/Surface/Life.antt =====
-- The creation and the end of a surface: tpl_surface_create, __tpl_surface_fini and
-- __tpl_surface_free of src/tpl_surface.c.
pub mod Ends
use libtpl_egl.Base.{
  ℕ, ◌≡◌, ◌≢◌, refl, Bool, true, false, not, ◌&&◌, Option, none, some, ◌⊎◌, inl, inr, Bool-cases,
  Option-cases, arith, ◌==◌, ◌∷◌, ◌++◌, if◌then◌else◌,
}
use libtpl_egl.Types.{
  TplResult, succeeded, object_surface, SurfaceType, Ptr, null, BackendType, unknown, Outcome, done,
  null_call, ◌>>=◌,
}
use libtpl_egl.Object.{HashCheck, Object, object_init, unreference, is_valid, object_fini}
use libtpl_egl.Object.Validity.{object_init_valid, object_fini_invalid, object_init_reference}
use libtpl_egl.Object.Counting.{unreference_last}
use libtpl_egl.Runtime.{Winsys, init_backend}
use libtpl_egl.Hlist
use libtpl_egl.UtilMap.{FreeFunc}
use libtpl_egl.UtilMap.Hash.{PointerWidth}
use libtpl_egl.Display.{zeroed_object}
use libtpl_egl.Surface.{Surface, SurfaceBackend}

-- What the environment returns in one call of `tpl_surface_create`.
pub record CreateEnv : Type 0 where
  pub width : PointerWidth
  pub winsys : Winsys
  pub address : Option Ptr
  pub mutex_init_ok : Bool
  pub tracking_ok : Bool
  pub mutex_destroy_ok : Bool

-- The number of `__tpl_surface_free` among the free functions.
abbrev pub surface_free_func : FreeFunc
surface_free_func = 2

-- A surface as `tpl_surface_create` fills it in before the backend; `calloc` set the rest to 0,
-- and its `TPL_BACKEND_GBM` is the type 0.
pub filled : Object → (display handle : Ptr) → SurfaceType → (format : ℕ) → BackendType → Surface
filled base display handle type format backend_type = record {
  base = base;
  display = display;
  native_handle = handle;
  type = type;
  format = format;
  width = 0;
  height = 0;
  rotation = 0;
  post_interval = 1;
  dump_count = 0;
  rotation_capability = false;
  backend_type = backend_type;
  backend_data = null;
  is_frontbuffer_mode = false;
  frontbuffer = null;
  reset_cb = null;
  reset_data = null;
}

module _ {S : Type 0} (backends : BackendType → SurfaceBackend S) where
  -- `__tpl_surface_fini`
  pub surface_fini : Surface → S → Outcome S
  surface_fini s state = elim (backends s.backend_type).fini [
    | none ↦ null_call
    | some fini ↦ done (fini s state)
  ]

  -- `__tpl_surface_free`: no surface is left in its memory.
  pub surface_free : Surface → S → Outcome (Option Surface × S)
  unfolding surface_fini
  surface_free s state = do state' ← surface_fini s state; done (none, state')

  -- `tpl_object_unreference` of a surface: where the count falls to 0 its `free` is
  -- `__tpl_surface_free`.
  pub unreference_surface :
      (mutex_ok : Bool) → HashCheck → Surface → S → Outcome (ℕ × HashCheck × Option Surface × S)
  unfolding surface_free
  unreference_surface mutex_ok g s state =
      let (left, g', base, events) = unreference mutex_ok g s.base in
      let s' = record s { base = base } in
      let freed = surface_free s' state in
      if left == 0
      then (do (memory, state') ← freed; done (left, g', memory, state'))
      else done (left, g', some s', state)

  -- The way out of `tpl_surface_create` once there is an object.
  pub give_up : CreateEnv → HashCheck → Surface → S → Outcome (Option Surface × HashCheck × S)
  unfolding unreference_surface
  give_up env g s state = do
    (_, g', memory, state') ← unreference_surface env.mutex_destroy_ok g s state
    done (none, g', state')

  -- `tpl_surface_create` from the initialisation of the backend on.
  pub start_surface : CreateEnv → HashCheck → Surface → S → Outcome (Option Surface × HashCheck × S)
  start_surface env g s state = elim (backends s.backend_type).init [
    | none ↦ give_up env g s state
    | some init ↦
        let (ret, s', state') = init s state in
        if succeeded ret then done (some s', g, state') else give_up env g s' state'
  ]

  -- `tpl_surface_create`: the surface, `none` for NULL, with the tracked objects and the state of
  -- the backend. `display_backend` is the type of the display's backend.
  pub surface_create :
      CreateEnv
      → HashCheck
      → (display : Ptr) (display_backend : BackendType) (handle : Ptr) → SurfaceType
      → (format : ℕ) → S
      → Outcome (Option Surface × HashCheck × S)
  unfolding filled
  surface_create env g display display_backend handle type format state =
      if display == null
      then done (none, g, state)
      else if handle == null
      then done (none, g, state)
      else elim env.address [
        | none ↦ done (none, g, state)
        | some p ↦
            let (ret, g', base) =
              object_init env.width env.mutex_init_ok env.tracking_ok g (zeroed_object p)
                object_surface surface_free_func in
            if not (succeeded ret) then done (none, g', state) else do
              chosen ← init_backend env.winsys display_backend
              start_surface env g' (filled base display handle type format chosen) state
      ]
