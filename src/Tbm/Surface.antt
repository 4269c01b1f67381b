-- ===== src/Tbm/Surface.antt =====
-- The surfaces of src/tpl_tbm.c: the functions of its backend on a system of libtbm, the surfaces
-- of the backend and the worker thread.
use libtpl_egl.Base.{
  ℕ, Bool, true, false, not, ◌&&◌, ◌||◌, Option, none, some, ◌==◌, if◌then◌else◌, update,
}
use libtpl_egl.Types.{
  TplResult, error_none, invalid_parameter, invalid_operation, out_of_memory, Ptr, null, done,
  SurfaceType, window, pixmap, BackendType, tbm_vulkan_wsi,
}
use libtpl_egl.Object.{minus_one}
use libtpl_egl.TplList.{TplList}
use libtpl_egl.TplList
use libtpl_egl.Worker.{Fd, WorkerSurface, Kernel, new_buffer_notify}
use libtpl_egl.Surface.{Surface, SurfaceBackend, Damage}
use libtpl_egl.Tbm.{
  TbmLib, destroyed, TbmSurface, World, System, result_value, get_window_info, get_pixmap_info,
}
use libtpl_egl.Tbm.Buffers.{put_surface, get_tbm_buffer, set_tbm_buffer, push, with_waiting}
use libtpl_egl.Tbm.Swapchain.{
  halt, lib_of, set_lib, create_swapchain, destroy_swapchain, get_swapchain_buffers,
}

-- The members of `backend.type` and `type` that the backend asks for.
unfoldable pub is_vulkan_wsi : BackendType → Bool
is_vulkan_wsi tbm_vulkan_wsi = true
is_vulkan_wsi _ = false

unfoldable pub is_pixmap : SurfaceType → Bool
is_pixmap pixmap = true
is_pixmap _ = false

-- An `int` that holds a file descriptor, which is not negative, or -1.
unfoldable pub fd_of : ℕ → Fd
fd_of x = if x == minus_one then none else some x

-- A `tpl_tbm_surface_t` from `calloc`, and its `worker_surface`.
abbrev pub zeroed : TbmSurface
zeroed = record {
  vblank_list = TplList.init;
  vblank_mutex = destroyed;
  draw_waiting_queue = TplList.init;
  draw_waiting_mutex = destroyed;
  vblank_done = false;
  need_worker_clear = false;
  present_mode = 0;
}

abbrev pub zeroed_worker : {S : Type 0} → WorkerSurface S
zeroed_worker = record {
  surface = null;
  tbm_queue = null;
  draw_done = none;
  draw_wait_fd_get = none;
  vblank = none;
  draw_wait_buffer_get = none;
  draw_wait_buffer = null;
}

module _ {T : Type 0} where
  -- The fresh memory of a `tpl_tbm_surface_t` at its address.
  unfoldable pub put_zeroed : Ptr → System T → System T
  put_zeroed p sys = record {
    world = put_surface sys.world p zeroed;
    worker = record sys.worker { store = update sys.worker.store p zeroed_worker };
  }

  -- `free(tpl_tbm_surface)`
  unfoldable pub free_surface : Ptr → System T → System T
  free_surface p sys = record sys {
    world = record sys.world { surfaces = update sys.world.surfaces p none };
  }

-- The mutex of the worker thread is taken or not, and `display_handle` is the `native_handle` of the
-- display at an address.
module _ {T : Type 0} (lib : TbmLib T) (kernel : Kernel (World T)) (mutex_ok : Bool)
    (display_handle : Ptr → Ptr) where
  -- The part of `__tpl_tbm_surface_init` from the query of the native handle: the result of the
  -- query of a window is compared with TPL_ERROR_NONE, that of a pixmap with TPL_TRUE.
  unfoldable pub query_native : Surface → System T → Bool × Surface × System T
  unfolding get_window_info get_pixmap_info result_value
  query_native s sys = elim s.type as (λ t. Bool × Surface × System T) [
    | window ↦ elim (get_window_info lib (lib_of sys) s.native_handle).1 [
      | none ↦ (false, s, sys)
      | some i ↦ (
        true,
        record s { width = i.width; height = i.height },
        set_lib sys (lib.add_destroy_cb s.native_handle (lib_of sys)),
      )
    ]
    | pixmap ↦
        let (ret, info) = get_pixmap_info lib (lib_of sys) s.native_handle in
        let s' : Surface = elim info as (λ i. Surface) [
          | none ↦ s
          | some i ↦ record s { width = i.width; height = i.height }
        ] in
        if not (result_value ret == 1)
        then (false, s', sys)
        else (true, s', set_lib sys (lib.ref s.native_handle (lib_of sys)))
    | t ↦ (false, s, sys)
  ]

  -- `__tpl_tbm_surface_init`; `address` is the result of `calloc`.
  unfoldable pub surface_init :
      (address : Option Ptr) → Surface → System T → TplResult × Surface × System T
  unfolding query_native put_zeroed free_surface
  surface_init address s sys = elim address [
    | none ↦ (out_of_memory, s, sys)
    | some p ↦
        let (ok, s', sys') = query_native (record s { backend_data = p }) (put_zeroed p sys) in
        if ok
        then (error_none, s', sys')
        else (invalid_operation, record s' { backend_data = null }, free_surface p sys')
  ]

  -- `__tpl_tbm_surface_fini`; its caller frees the surface, in which it leaves NULL.
  unfoldable pub surface_fini : Surface → System T → System T
  unfolding destroy_swapchain is_pixmap free_surface
  surface_fini s sys = elim (sys.world.surfaces s.backend_data) [
    | none ↦ halt sys
    | some t ↦
        let sys₁ = if t.need_worker_clear then (destroy_swapchain lib mutex_ok s sys).2 else sys in
        let state = elim s.type as (λ t. T) [
          | pixmap ↦ lib.unref s.native_handle (lib_of sys₁)
          | window ↦ lib.remove_destroy_cb s.native_handle (lib_of sys₁)
          | t ↦ lib_of sys₁
        ] in
        if s.display == null then halt sys₁ else free_surface s.backend_data (set_lib sys₁ state)
  ]

  -- The part of `__tpl_tbm_surface_enqueue_buffer` for TPL_BACKEND_TBM_VULKAN_WSI, behind its
  -- reads: the mutex is initialized where it ought to be locked.
  unfoldable pub hand_to_worker :
      Ptr → TbmSurface → (buffer : Ptr) → System T → TplResult × System T
  unfolding push new_buffer_notify
  hand_to_worker p t buffer sys =
      let (w, l) =
        push lib (record sys.world { lib = lib.ref buffer (lib_of sys) }) t.draw_waiting_queue
          buffer in
      let sys₁ = record sys { world = put_surface w p (with_waiting t l) } in
      elim (new_buffer_notify kernel sys.worker p sys₁.world) [
        | done w' ↦ (error_none, record sys₁ { world = w' })
        | other ↦ (error_none, halt sys₁)
      ]

  -- Its other part, which waits for the fence itself.
  unfoldable pub hand_to_queue : (queue buffer : Ptr) → Fd → System T → TplResult × System T
  hand_to_queue queue buffer fence sys =
      let state = elim fence as (λ f. T) [
        | none ↦ lib_of sys
        | some fd ↦ lib.close (some fd) (lib.fence_wait fd (lib_of sys))
      ] in
      let (ok, state₁) = lib.enqueue queue buffer state in
      if queue == null
      then (invalid_parameter, sys)
      else (if ok then error_none else invalid_operation, set_lib sys state₁)

  -- `__tpl_tbm_surface_enqueue_buffer`
  unfoldable pub enqueue_buffer : Ptr → Damage → Surface → System T → TplResult × Surface × System T
  unfolding hand_to_worker hand_to_queue is_vulkan_wsi is_pixmap fd_of get_tbm_buffer set_tbm_buffer
  enqueue_buffer buffer damage s sys =
      let fence = fd_of damage.sync_fence in
      let sys₁ = set_lib sys (lib.unref buffer (lib_of sys)) in
      let p = s.backend_data in
      if s.display == null || display_handle s.display == null || buffer == null
      then (error_none, s, halt sys)
      else if not (lib.is_valid buffer (lib_of sys))
      then (invalid_parameter, s, sys)
      else if is_pixmap s.type
      then (invalid_parameter, s, sys₁)
      else if is_vulkan_wsi s.backend_type
      then elim (get_tbm_buffer lib sys₁.world buffer) [
        | none ↦ (error_none, s, halt sys₁)
        | some old ↦ elim (sys₁.world.surfaces p) [
          | none ↦ (error_none, s, halt sys₁)
          | some t ↦
              let (ret, sys₂) =
                hand_to_worker p t buffer
                  (record sys₁ { world = set_tbm_buffer lib sys₁.world buffer fence }) in
              (ret, s, sys₂)
        ]
      ]
      else let (ret, sys₂) = hand_to_queue s.native_handle buffer fence sys₁ in (ret, s, sys₂)

  -- `__tpl_tbm_surface_validate`
  unfoldable pub validate : Surface → System T → Bool × Surface × System T
  validate s sys = (true, s, sys)

  -- The two calls of `tbm_surface_queue_dequeue`: the buffer, and whether the second was made.
  pub dequeue_twice : (queue : Ptr) → T → Ptr × Bool × T
  dequeue_twice queue state =
      let (ok, buffer, state₁) = lib.dequeue queue state in
      let (can, state₂) = lib.can_dequeue queue state₁ in
      let (ok', buffer', state₃) = lib.dequeue queue state₂ in
      if not (buffer == null)
      then (buffer, false, state₁)
      else if can
      then (buffer', true, state₃)
      else (buffer, false, state₂)

  -- The record of a buffer that is new to the backend, from `calloc`: its `wait_sync` is 0, not -1.
  -- The last component says whether there is one now.
  pub ensure_tbm_buffer : (buffer : Ptr) → World T → World T × Bool
  unfolding get_tbm_buffer set_tbm_buffer
  ensure_tbm_buffer buffer w = elim (get_tbm_buffer lib w buffer) [
    | some fd ↦ (w, true)
    | none ↦
        let (allocated, state) = lib.allocated w.lib in
        let w₁ = record w { lib = state } in
        if allocated then (set_tbm_buffer lib w₁ buffer (some 0), true) else (w₁, false)
  ]

  -- `__tpl_tbm_surface_dequeue_buffer`; the fence that it returns is -1, and the timeout is not
  -- looked at.
  unfoldable pub dequeue_buffer : (timeout : ℕ) → Surface → System T → Ptr × Surface × System T
  unfolding dequeue_twice ensure_tbm_buffer is_vulkan_wsi
  dequeue_buffer timeout s sys =
      let (buffer, second, state) = dequeue_twice s.native_handle (lib_of sys) in
      let sys₁ = set_lib sys state in
      let (w, there) =
        if is_vulkan_wsi s.backend_type
        then ensure_tbm_buffer buffer sys₁.world
        else (sys₁.world, true) in
      if s.native_handle == null || s.display == null || display_handle s.display == null
      then (null, s, halt sys)
      else if second && buffer == null
      then (null, s, sys₁)
      else if not there
      then (null, s, record sys₁ { world = w })
      else (buffer, s, record sys₁ { world = record w { lib = lib.ref buffer w.lib } })

  -- `__tpl_surface_init_backend_tbm`; `address` is what the `calloc` of a surface returns.
  unfoldable pub surface_backend : (address : Option Ptr) → BackendType → SurfaceBackend (System T)
  unfolding surface_init surface_fini enqueue_buffer validate dequeue_buffer is_vulkan_wsi
      create_swapchain destroy_swapchain get_swapchain_buffers
  surface_backend address type = record {
    init = some (surface_init address);
    fini = some surface_fini;
    validate = some validate;
    dequeue_buffer = some dequeue_buffer;
    enqueue_buffer = some enqueue_buffer;
    create_swapchain = some (create_swapchain lib mutex_ok);
    destroy_swapchain = if is_vulkan_wsi type then some (destroy_swapchain lib mutex_ok) else none;
    get_swapchain_buffers = if is_vulkan_wsi type then some (get_swapchain_buffers lib) else none;
  }
