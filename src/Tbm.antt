-- ===== src/Tbm.antt =====
-- The TBM backend of src/tpl_tbm.c: what it is made of, and its displays. libtbm is a parameter.
pub mod Buffers
pub mod Swapchain
pub mod Surface
pub mod Displays
pub mod Order
pub mod Front
pub mod Ends
mod Tests
use libtpl_egl.Base.{
  ℕ, ◌-◌, ◌+◌, Bool, true, false, not, ◌&&◌, ◌||◌, Option, none, some, ◌==◌, if◌then◌else◌,
}
use libtpl_egl.Types.{
  TplResult, error_none, invalid_parameter, invalid_operation, out_of_memory, SurfaceType, window,
  Ptr, null, BackendType,
}
use libtpl_egl.Object.{minus_one}
use libtpl_egl.TplList.{TplList}
use libtpl_egl.Worker.{Fd, Worker}
use libtpl_egl.Display.{Display, DisplayBackend, Config, NativeInfo}

-- tpl_display_present_mode_t
abbrev pub mailbox : ℕ
mailbox = 1

abbrev pub fifo : ℕ
fifo = 2

abbrev pub immediate : ℕ
immediate = 4

abbrev pub fifo_relaxed : ℕ
fifo_relaxed = 8

-- The value of a tpl_result_t.
unfoldable pub result_value : TplResult → ℕ
result_value error_none = 0
result_value invalid_parameter = 1
result_value invalid_operation = 2
result_value out_of_memory = 3

-- What the backend calls of libtbm and of the C library, on a state `T`. A buffer is a
-- tbm_surface_h, a queue a tbm_surface_queue_h. A Boolean that `enqueue`, `dequeue` and `release`
-- return is TBM_SURFACE_QUEUE_ERROR_NONE.
pub record TbmLib (T : Type 0) : Type 0 where
  pub is_valid : Ptr → T → Bool
  pub ref : Ptr → T → T
  pub unref : Ptr → T → T
  pub info : Ptr → T → NativeInfo
  pub queue_info : Ptr → T → NativeInfo
  pub queue_size : Ptr → T → ℕ
  pub enqueue : Ptr → Ptr → T → Bool × T
  pub dequeue : Ptr → T → Bool × Ptr × T
  pub can_dequeue : Ptr → T → Bool × T
  pub release : Ptr → Ptr → T → Bool × T
  pub add_destroy_cb : Ptr → T → T
  pub remove_destroy_cb : Ptr → T → T
  pub fence_wait : ℕ → T → T
  pub close : Fd → T → T
  pub allocated : T → Bool × T

-- A mutex: what `pthread_mutex_init`, `lock`, `unlock` and `destroy` leave.
pub data Mutex : Type 0 where
  destroyed free held : Mutex

-- `struct _tpl_tbm_surface`; its `worker_surface` is in the store of the worker at its address.
pub record TbmSurface : Type 0 where
  pub vblank_list : TplList
  pub vblank_mutex : Mutex
  pub draw_waiting_queue : TplList
  pub draw_waiting_mutex : Mutex
  pub vblank_done : Bool
  pub need_worker_clear : Bool
  pub present_mode : ℕ

-- The state on which the backend acts: libtbm, the `struct _tpl_tbm_surface` at their addresses,
-- and the `wait_sync` of the `struct _tpl_tbm_buffer` that buffers have as user data. `stopped`
-- says that an assertion failed or a NULL pointer was read: nothing is said of what follows.
pub record World (T : Type 0) : Type 0 where
  pub lib : T
  pub surfaces : Ptr → Option TbmSurface
  pub buffers : Ptr → Option Fd
  pub stopped : Bool

-- The world with the worker thread.
pub record System (T : Type 0) : Type 0 where
  pub world : World T
  pub worker : Worker (World T)

-- The constants of libtbm.
pub record Formats : Type 0 where
  pub argb8888 : ℕ
  pub xrgb8888 : ℕ

-- What one call of `__tpl_tbm_display_init` meets: the result of `calloc`, and that of
-- `tbm_bufmgr_init`.
pub record DisplayEnv : Type 0 where
  pub address : Option Ptr
  pub bufmgr : Ptr

-- `__tpl_tbm_display_init`
pub display_init : DisplayEnv → Display → TplResult × Display
display_init env d = elim env.address [
  | none ↦ (out_of_memory, d)
  | some p ↦ (
    error_none,
    record d {
      native_handle = if d.native_handle == null then env.bufmgr else d.native_handle;
      backend_data = p;
      bufmgr_fd = minus_one;
    },
  )
]

-- `__tpl_tbm_display_fini`, without the `tbm_bufmgr_deinit` of a manager of its own.
pub display_fini : Display → Display
display_fini d = record d { backend_data = null }

-- `__tpl_tbm_display_query_config`
pub query_config : Formats → Display → Config → TplResult × Option (ℕ × Bool)
query_config f d c =
    let is_window = elim c.surface_type as (λ t. Bool) [ window ↦ true | t ↦ false ] in
    if is_window && c.red == 8 && c.green == 8 && c.blue == 8 && (c.depth == 32 || c.depth == 24)
    then if c.alpha == 8
      then (error_none, some (f.argb8888, false))
      else if c.alpha == 0
      then (error_none, some (f.xrgb8888, false))
      else (invalid_parameter, none)
    else (invalid_parameter, none)

-- `__tpl_tbm_display_filter_config`: the visual after the call.
pub filter_config : Formats → Display → (visual alpha : ℕ) → TplResult × ℕ
filter_config f d visual alpha =
    if visual == f.argb8888 && alpha == 0
    then (error_none, f.xrgb8888)
    else (invalid_parameter, visual)

-- `__tpl_tbm_display_query_window_supported_buffer_count`
pub query_buffer_count : Display → Ptr → TplResult × Option (ℕ × ℕ)
query_buffer_count d win =
    if d.backend_data == null then (invalid_operation, none) else (error_none, some (0, 0))

-- `__tpl_tbm_display_query_window_supported_present_modes`; the modes are bits.
pub query_present_modes : (support_vblank : Bool) → Display → Ptr → TplResult × Option ℕ
query_present_modes support_vblank d win =
    if d.backend_data == null then (invalid_operation, none) else (
      error_none,
      some (mailbox + immediate + (if support_vblank then fifo + fifo_relaxed else 0)),
    )

-- `__tpl_display_choose_backend_tbm`; `bufmgr` is what `tbm_bufmgr_init` returns.
pub choose_backend_tbm : (bufmgr native_dpy : Ptr) → Bool
choose_backend_tbm bufmgr native_dpy = if native_dpy == null then false else bufmgr == native_dpy

module _ {T : Type 0} (lib : TbmLib T) where
  -- `__tpl_tbm_display_get_window_info`
  pub get_window_info : T → Ptr → TplResult × Option NativeInfo
  get_window_info state win =
      if win == null
      then (invalid_parameter, none)
      else (error_none, some (lib.queue_info win state))

  -- `__tpl_tbm_display_get_pixmap_info`
  pub get_pixmap_info : T → Ptr → TplResult × Option NativeInfo
  get_pixmap_info state pixmap =
      if pixmap == null
      then (invalid_parameter, none)
      else (error_none, some (lib.info pixmap state))

  -- `__tpl_display_init_backend_tbm`, in a state of libtbm.
  pub display_backend : DisplayEnv → Formats → (support_vblank : Bool) → T → DisplayBackend
  unfolding display_init display_fini query_config filter_config get_window_info get_pixmap_info
      query_buffer_count query_present_modes
  display_backend env f support_vblank state = record {
    init = display_init env;
    fini = some display_fini;
    query_config = some (query_config f);
    filter_config = some (filter_config f);
    get_window_info = some (λ d win depth a_size. get_window_info state win);
    get_pixmap_info = some (λ d pixmap. get_pixmap_info state pixmap);
    get_buffer_from_native_pixmap = some (λ pixmap. pixmap);
    query_window_supported_buffer_count = some query_buffer_count;
    query_window_supported_present_modes = some (query_present_modes support_vblank);
  }
