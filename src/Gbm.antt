-- ===== src/Gbm.antt =====
-- The GBM backend of src/tpl_gbm.c: what it is made of, and its displays. libtbm, libgbm and
-- wayland-tbm are parameters.
pub mod Surface
pub mod Balance
mod Tests
use libtpl_egl.Base.{ℕ, Bool, true, false, not, ◌&&◌, ◌||◌, Option, none, some, ◌==◌, if◌then◌else◌}
use libtpl_egl.Types.{
  TplResult, error_none, invalid_parameter, invalid_operation, out_of_memory, SurfaceType, window,
  Ptr, null,
}
use libtpl_egl.Display.{Display, DisplayBackend, Config, NativeInfo}
use libtpl_egl.Tbm.{TbmLib, Formats}

-- What the backend calls: libtbm; `gbm_tbm_get_surface_queue`, `wayland_tbm_server_get_surface`,
-- `tbm_surface_internal_get_bo` of the first plane, and `gbm_device_is_format_supported`.
pub record GbmLib (T : Type 0) : Type 0 where
  pub tbm : TbmLib T
  pub surface_queue : Ptr → T → Ptr
  pub server_surface : Ptr → T → Ptr
  pub bo : Ptr → T → Ptr
  pub is_supported : Ptr → ℕ → T → Bool

-- `struct _tpl_gbm_surface`
pub record GbmSurface : Type 0 where
  pub tbm_queue : Ptr
  pub current_buffer : Ptr

-- `struct _tpl_gbm_buffer`, by the fields that are set.
pub record GbmBuffer : Type 0 where
  pub display : Ptr
  pub bo : Ptr

-- The state on which the backend acts: the libraries, the memory of its surfaces, and the user data
-- of buffers. `stopped` says that an assertion failed or a NULL pointer was read.
pub record World (T : Type 0) : Type 0 where
  pub lib : T
  pub surfaces : Ptr → Option GbmSurface
  pub buffers : Ptr → Option GbmBuffer
  pub stopped : Bool

-- What one call of `__tpl_gbm_display_init` meets: the result of `calloc`, and of `dup`.
pub record DisplayEnv : Type 0 where
  pub address : Option Ptr
  pub bufmgr_fd : ℕ

-- `__tpl_gbm_display_init`, without the `tbm_bufmgr` that it keeps in its own memory.
pub display_init : DisplayEnv → Display → TplResult × Display
display_init env d = if d.native_handle == null then (invalid_parameter, d) else elim env.address [
  | none ↦ (out_of_memory, d)
  | some p ↦ (error_none, record d { bufmgr_fd = env.bufmgr_fd; backend_data = p })
]

-- `__tpl_gbm_display_fini`, without the calls that end its `tbm_bufmgr` and close its descriptor.
pub display_fini : Display → Display
display_fini d = record d { backend_data = null }

-- `__tpl_gbm_display_filter_config`: the visual after the call.
pub filter_config : Formats → Display → (visual alpha : ℕ) → TplResult × ℕ
filter_config f d visual alpha =
    if visual == f.argb8888 && alpha == 0
    then (error_none, f.xrgb8888)
    else (invalid_parameter, visual)

-- `__tpl_display_choose_backend_gbm`; `first_word` is what a native display points to.
pub choose_backend_gbm : (gbm_create_device : Ptr) → (first_word : Ptr → Ptr) → Ptr → Bool
choose_backend_gbm gbm_create_device first_word native_dpy =
    if native_dpy == null then false else first_word native_dpy == gbm_create_device

module _ {T : Type 0} (lib : GbmLib T) where
  -- `__tpl_gbm_display_query_config`
  pub query_config : Formats → T → Display → Config → TplResult × Option (ℕ × Bool)
  query_config f state d c =
      let is_window = elim c.surface_type as (λ t. Bool) [ window ↦ true | t ↦ false ] in
      let asked : Option ℕ =
        if c.alpha == 8 then some f.argb8888 else if c.alpha == 0 then some f.xrgb8888 else none in
      if is_window && c.red == 8 && c.green == 8 && c.blue == 8 && (c.depth == 32 || c.depth == 24)
      then elim asked [
        | none ↦ (invalid_parameter, none)
        | some format ↦
            if lib.is_supported d.native_handle format state
            then (error_none, some (format, false))
            else (invalid_parameter, none)
      ]
      else (invalid_parameter, none)

  -- `__tpl_gbm_display_get_window_info`, of a window that is not NULL, as it asserts.
  pub get_window_info : T → Ptr → TplResult × Option NativeInfo
  get_window_info state win =
      let queue = lib.surface_queue win state in
      if queue == null
      then (invalid_operation, none)
      else (error_none, some (lib.tbm.queue_info queue state))

  -- `__tpl_gbm_display_get_pixmap_info`
  pub get_pixmap_info : T → Ptr → TplResult × Option NativeInfo
  get_pixmap_info state pixmap =
      let buffer = lib.server_surface pixmap state in
      if buffer == null
      then (invalid_operation, none)
      else (error_none, some (lib.tbm.info buffer state))

  -- `__tpl_gbm_display_get_buffer_from_native_pixmap`, of a pixmap that is not NULL, as it asserts.
  pub get_buffer_from_native_pixmap : T → Ptr → Ptr
  get_buffer_from_native_pixmap state pixmap = lib.server_surface pixmap state

  -- `__tpl_display_init_backend_gbm`, in a state of the libraries.
  pub display_backend : DisplayEnv → Formats → T → DisplayBackend
  unfolding display_init display_fini query_config filter_config get_window_info get_pixmap_info
      get_buffer_from_native_pixmap
  display_backend env f state = record {
    init = display_init env;
    fini = some display_fini;
    query_config = some (query_config f state);
    filter_config = some (filter_config f);
    get_window_info = some (λ d win depth a_size. get_window_info state win);
    get_pixmap_info = some (λ d pixmap. get_pixmap_info state pixmap);
    get_buffer_from_native_pixmap = some (get_buffer_from_native_pixmap state);
    query_window_supported_buffer_count = none;
    query_window_supported_present_modes = none;
  }
