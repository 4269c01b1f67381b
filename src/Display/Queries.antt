-- ===== src/Display/Queries.antt =====
-- The queries of a display and the checks before them.
use libtpl_egl.Base.{ℕ, ◌≡◌, refl, Bool, none, some}
use libtpl_egl.Types.{invalid_parameter, null}
use libtpl_egl.Object.{HashCheck, object_fini}
use libtpl_egl.Object.Validity.{object_fini_invalid}
use libtpl_egl.Display.{
  Display, Backends, Config, is_live, get_native_handle, query_config, filter_config,
}

-- A display whose base object has been through `__tpl_object_fini` is refused by the queries that
-- check the display, whatever its backend: each fails with its own error and writes nothing.
pub ended_refused :
    (mutex_ok : Bool) (g : HashCheck) (backends : Backends) (d : Display) (c : Config)
    (visual alpha : ℕ)
    → let (r, g', base, calls) = object_fini mutex_ok g d.base in
      let dead = record d { base = base } in
      (get_native_handle g' (some dead) ≡ null)
      × (query_config g' backends (some dead) c ≡ (invalid_parameter, none))
      × (filter_config g' backends (some dead) visual alpha ≡ (invalid_parameter, visual))
unfolding get_native_handle query_config filter_config is_live
ended_refused mutex_ok g backends d c visual alpha =
    let h = object_fini_invalid mutex_ok g d.base in (rw h refl, rw h refl, rw h refl)
