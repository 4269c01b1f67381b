-- ===== src/WaylandVkWsi/Surface.antt =====
-- The surfaces of src/tpl_wayland_vk_wsi.c: the functions of its backend on a system of the
-- libraries, the objects of the backend and the worker thread.
use libtpl_egl.Base.{
  ℕ, zero, suc, ◌+◌, ◌-◌, ◌/◌, ◌%◌, ◌^◌, Bool, true, false, not, ◌&&◌, ◌||◌, Option, none, some,
  leb, ◌==◌, if◌then◌else◌, update, is_some,
}
use libtpl_egl.Types.{
  TplResult, error_none, invalid_parameter, invalid_operation, out_of_memory, Ptr, null, Outcome,
  done, out_of_fuel,
}
use libtpl_egl.TplList.{TplList}
use libtpl_egl.TplList
use libtpl_egl.Worker.{Fd, Kernel, new_buffer_notify}
use libtpl_egl.Surface.{Surface, SurfaceBackend, Damage, is_window}
use libtpl_egl.Tbm.{destroyed}
use libtpl_egl.Tbm.Surface.{fd_of, zeroed_worker}
use libtpl_egl.WaylandVkWsi.{WsiSurface, WsiBuffer, WaylandLib, World, System, DisplayAt}
use libtpl_egl.WaylandVkWsi.Buffers.{
  on_lib, unlocked, put_surface, put_buffer, get_buffer, dispatch,
}
use libtpl_egl.WaylandVkWsi.Swapchain.{
  halt, lib_of, set_lib, create_swapchain, destroy_swapchain, get_swapchain_buffers,
}

-- A `tpl_wayland_vk_wsi_surface_t` from `calloc`.
abbrev pub zeroed : WsiSurface
zeroed = record {
  tbm_queue = null;
  buffer_count = 0;
  free_queue_mutex = destroyed;
  vblank_list = TplList.init;
  vblank_list_mutex = destroyed;
  vblank_done = false;
  present_mode = 0;
}

-- `UINT64_MAX`, with which a dequeue waits without an end.
abbrev pub forever : ℕ
forever = 2 ^ 64 - 1

abbrev pub second : ℕ
second = 1_000_000_000

-- The time up to which a dequeue waits, in seconds and nanoseconds; 64 bits are enough for the
-- seconds until then.
unfoldable pub deadline : (now : ℕ × ℕ) → (timeout_ns : ℕ) → ℕ × ℕ
deadline (sec, nsec) timeout_ns =
    let sec₁ = sec + timeout_ns / second in
    let nsec₁ = nsec + timeout_ns % second in
    if leb second nsec₁ then (sec₁ + nsec₁ / second, nsec₁ % second) else (sec₁, nsec₁)

-- A wait on `free_queue_cond` up to a deadline, if there is one, in which the worker thread goes on:
-- whether the deadline passed.
abbrev pub CondWait : Type 0 → Type 0
CondWait T = (until : Option (ℕ × ℕ)) → System T → Bool × System T

-- `pthread_mutex_unlock(&wayland_vk_wsi_surface->free_queue_mutex)`
unfoldable pub unlock_free_queue : {T : Type 0} → Ptr → World T → World T
unlock_free_queue p w = elim (w.surfaces p) [ none ↦ w | some t ↦ put_surface w p (unlocked t) ]

module _ {T : Type 0} (lib : WaylandLib T) (display_at : DisplayAt) where
  -- `__tpl_wayland_vk_wsi_surface_init`; `address` is the result of `calloc`.
  unfoldable pub surface_init :
      (address : Option Ptr) → Surface → System T → TplResult × Surface × System T
  unfolding is_window
  surface_init address s sys =
      if not (is_window s.type) || s.native_handle == null
      then (error_none, s, halt sys)
      else elim address [
        | none ↦ (out_of_memory, s, sys)
        | some p ↦ (
          error_none,
          record s { backend_data = p },
          record {
            world = put_surface sys.world p zeroed;
            worker = record sys.worker { store = update sys.worker.store p zeroed_worker };
          },
        )
      ]

  -- `free(wayland_vk_wsi_surface)`
  unfoldable pub free_surface : Ptr → System T → System T
  free_surface p sys = record sys {
    world = record sys.world { surfaces = update sys.world.surfaces p none };
  }

  -- `__tpl_wayland_vk_wsi_surface_fini`; its caller frees the surface, in which it leaves NULL.
  unfoldable pub surface_fini : (fuel : ℕ) → (mutex_ok : Bool) → Surface → System T → System T
  unfolding free_surface
  surface_fini fuel mutex_ok s sys =
      let p = s.backend_data in
      if s.display == null then halt sys else elim (sys.world.surfaces p) [
        | none ↦ if p == null then sys else halt sys
        | some t ↦ elim (sys.world.displays (display_at s.display).backend_data) [
          | none ↦ sys
          | some d ↦
              let sys₁ =
                if t.tbm_queue == null
                then sys
                else (destroy_swapchain lib display_at fuel mutex_ok s sys).2 in
              free_surface p sys₁
        ]
      ]

  -- `__tpl_wayland_vk_wsi_surface_validate`
  unfoldable pub validate : Surface → System T → Bool × Surface × System T
  validate s sys = if s.backend_data == null then (true, s, halt sys) else (true, s, sys)

  -- `__tpl_wayland_vk_wsi_surface_enqueue_buffer`
  unfoldable pub enqueue_buffer :
      Kernel (World T) → Ptr → Damage → Surface → System T → TplResult × Surface × System T
  unfolding get_buffer
  enqueue_buffer kernel b damage s sys =
      let dpy = (display_at s.display).native_handle in
      let p = s.backend_data in
      if s.display == null || dpy == null || b == null
      then (error_none, s, halt sys)
      else if not (lib.tbm.is_valid b (lib_of sys))
      then (invalid_parameter, s, sys)
      else elim (get_buffer lib sys.world b) [
        | none ↦ (error_none, s, halt sys)
        | some buf ↦ elim (sys.world.surfaces p) [
          | none ↦ (error_none, s, halt sys)
          | some t ↦
              let w₁ =
                put_buffer (on_lib sys.world (lib.tbm.unref b)) b
                  (record buf { wait_sync = fd_of damage.sync_fence }) in
              let (ok, state) = lib.tbm.enqueue t.tbm_queue b w₁.lib in
              let w₂ = record w₁ { lib = state } in
              if not ok
              then (invalid_operation, s, record sys { world = w₂ })
              else elim (new_buffer_notify kernel sys.worker p w₂) [
                | done w₃ ↦ (error_none, s, record sys { world = (dispatch lib dpy w₃).2 })
                | other ↦ (error_none, s, halt sys)
              ]
        ]
      ]

  -- The loop in which `__tpl_wayland_vk_wsi_surface_dequeue_buffer` waits for a free buffer: whether
  -- there is one, before the deadline.
  unfoldable pub wait_free :
      CondWait T
      → (fuel : ℕ) → Option (ℕ × ℕ)
      → (queue : Ptr) → System T
      → Outcome (Bool × System T)
  wait_free cond_wait zero until queue sys = out_of_fuel
  wait_free cond_wait (suc fuel) until queue sys =
      let (can, state) = lib.tbm.can_dequeue queue (lib_of sys) in
      let (timed_out, sys₁) = cond_wait until (set_lib sys state) in
      let rest = wait_free cond_wait fuel until queue sys₁ in
      if can
      then done (true, set_lib sys state)
      else if timed_out && is_some until
      then done (false, sys₁)
      else rest

  -- The fence of a buffer that the backend knows.
  unfoldable pub fence_of : (wants_fence : Bool) → (buffer : Ptr) → WsiBuffer → T → Fd × T
  fence_of wants_fence b buf state =
      if wants_fence && not (buf.sync_timestamp == 0)
      then lib.fence_create buf.sync_timeline b buf.sync_timestamp state
      else (none, state)

  -- The part of `__tpl_wayland_vk_wsi_surface_dequeue_buffer` for a buffer that the backend does not
  -- know: whether it does now. From `calloc` its `wait_sync` is 0, not -1.
  unfoldable pub make_buffer : (display client buffer : Ptr) → World T → Bool × World T
  make_buffer display client b w =
      let dpy = (display_at display).native_handle in
      let (allocated, state₁) = lib.tbm.allocated w.lib in
      let (proxy, state₂) = lib.create_buffer client b state₁ in
      let (timeline, state₃) = lib.timeline_create state₂ in
      if not allocated
      then (false, record w { lib = lib.tbm.unref b state₁ })
      else if proxy == null
      then (false, record w { lib = lib.tbm.unref b state₂ })
      else elim timeline [
        | none ↦ (false, record w { lib = lib.tbm.unref b (lib.proxy_destroy proxy state₃) })
        | some fd ↦
            let state₄ = lib.flush dpy (
              lib.add_release_listener proxy b
                (lib.set_sync_timeline client proxy (some fd) state₃)) in
            (
              true,
              put_buffer (record w { lib = state₄ }) b
                  (record {
                    display = display;
                    wl_proxy = proxy;
                    sync_timeline = some fd;
                    sync_timestamp = 0;
                    wait_sync = some 0;
                  }),
            )
      ]

  -- Its part from `tbm_surface_queue_dequeue` on: the buffer, and the fence.
  unfoldable pub take_buffer :
      (wants_fence : Bool) → (queue : Ptr) → Surface → System T → (Ptr × Fd) × System T
  take_buffer wants_fence queue s sys =
      let (ok, b, state) = lib.tbm.dequeue queue (lib_of sys) in
      let w = unlock_free_queue s.backend_data (record sys.world { lib = state }) in
      let w₁ = on_lib w (lib.tbm.ref b) in
      if b == null then ((null, none), record sys { world = w }) else elim (get_buffer lib w₁ b) [
        | some buf ↦
            let (fence, state') = fence_of wants_fence b buf w₁.lib in
            ((b, fence), record sys { world = record w₁ { lib = state' } })
        | none ↦ elim (w₁.displays (display_at s.display).backend_data) [
          | none ↦ ((null, none), halt sys)
          | some d ↦
              let (known, w₂) = make_buffer s.display d.wl_tbm_client b w₁ in
              ((if known then b else null, none), record sys { world = w₂ })
        ]
      ]

  -- `__tpl_wayland_vk_wsi_surface_dequeue_buffer`: the buffer, and the fence that is written where
  -- the caller wants one.
  unfoldable pub dequeue_with_fence :
      CondWait T
      → (fuel : ℕ) → (wants_fence : Bool) → (timeout_ns : ℕ) → Surface
      → System T
      → (Ptr × Fd) × Surface × System T
  dequeue_with_fence cond_wait fuel wants_fence timeout_ns s sys =
      if s.display == null
      then ((null, none), s, halt sys)
      else elim (sys.world.surfaces s.backend_data) [
        | none ↦ ((null, none), s, halt sys)
        | some t ↦
            let (now, state) = lib.clock (lib_of sys) in
            let bounded = not (timeout_ns == forever) in
            let until = if bounded then some (deadline now timeout_ns) else none in
            let sys₁ = if bounded then set_lib sys state else sys in
            elim (wait_free cond_wait fuel until t.tbm_queue sys₁) [
              | done (there, sys₂) ↦
                  if there
                  then (let (taken, sys₃) = take_buffer wants_fence t.tbm_queue s sys₂ in
                      (taken, s, sys₃))
                  else (
                    (null, none),
                    s,
                    record sys₂ { world = unlock_free_queue s.backend_data sys₂.world },
                  )
              | other ↦ ((null, none), s, halt sys₁)
            ]
      ]

-- `__tpl_surface_init_backend_wayland_vk_wsi`; `address` is what the `calloc` of a surface returns.
unfoldable pub surface_backend :
    {T : Type 0}
    → WaylandLib T
    → DisplayAt
    → Kernel (World T)
    → CondWait T
    → (fuel : ℕ) → (mutex_ok wants_fence : Bool) → (address : Option Ptr)
    → SurfaceBackend (System T)
unfolding surface_init surface_fini validate enqueue_buffer dequeue_with_fence create_swapchain
    destroy_swapchain get_swapchain_buffers
surface_backend lib display_at kernel cond_wait fuel mutex_ok wants_fence address = record {
  init = some (surface_init lib display_at address);
  fini = some (surface_fini lib display_at fuel mutex_ok);
  validate = some (validate lib display_at);
  dequeue_buffer = some (λ timeout s sys.
      let (taken, s', sys') =
        dequeue_with_fence lib display_at cond_wait fuel wants_fence timeout s sys in
      (taken.0, s', sys'));
  enqueue_buffer = some (enqueue_buffer lib display_at kernel);
  get_swapchain_buffers = some (get_swapchain_buffers lib display_at);
  create_swapchain = some (create_swapchain lib display_at mutex_ok);
  destroy_swapchain = some (destroy_swapchain lib display_at fuel mutex_ok);
}
