-- ===== src/WaylandVkWsi/Swapchain.antt =====
-- The swapchain of src/tpl_wayland_vk_wsi.c. The mutex of the worker thread is a parameter.
use Prim.Native.Nat.{bit_and}
use libtpl_egl.Base.{
  ℕ, ◌+◌, ◌%◌, ◌^◌, Bool, true, not, ◌&&◌, ◌||◌, none, some, List, [], ◌∷◌, ltb, ◌==◌,
  if◌then◌else◌, update,
}
use libtpl_egl.Types.{
  TplResult, error_none, invalid_parameter, invalid_operation, out_of_memory, Ptr, null, done,
}
use libtpl_egl.TplList.{TplList}
use libtpl_egl.TplList
use libtpl_egl.Worker.{WorkerSurface, surface_list_insert, surface_list_remove}
use libtpl_egl.Surface.{Surface, Swapchain, is_window}
use libtpl_egl.Tbm.{destroyed, free, mailbox, fifo, immediate, fifo_relaxed}
use libtpl_egl.Tbm.Swapchain.{dequeue_all, release_all}
use libtpl_egl.WaylandVkWsi.{WsiSurface, WaylandLib, World, System, DisplayAt}
use libtpl_egl.WaylandVkWsi.Buffers.{
  stop, on_lib, put_surface, roundtrip, buffer_remove_from_vblank_list, process_draw_done,
  draw_wait_fd_get, vblank,
}

module _ {T : Type 0} where
  abbrev pub halt : System T → System T
  halt sys = record sys { world = stop sys.world }

  abbrev pub lib_of : System T → T
  lib_of sys = sys.world.lib

  abbrev pub set_lib : System T → T → System T
  set_lib sys t = record sys { world = record sys.world { lib = t } }

-- `present_mode & (TPL_DISPLAY_PRESENT_MODE_FIFO | TPL_DISPLAY_PRESENT_MODE_FIFO_RELAXED)`
unfoldable pub waits_for_vblank : (present_mode : ℕ) → Bool
waits_for_vblank mode = not (bit_and mode (fifo + fifo_relaxed) == 0)

-- The `switch` of `__tpl_wayland_vk_wsi_surface_create_swapchain`: whether it is left by `break`.
unfoldable pub mode_accepted : (support_vblank : Bool) → (present_mode : ℕ) → Bool
mode_accepted support_vblank mode =
    if mode == fifo || mode == fifo_relaxed
    then support_vblank
    else mode == mailbox || mode == immediate

-- `a < b` of two `int`s.
unfoldable pub int_lt : ℕ → ℕ → Bool
int_lt a b = ltb ((a + 2 ^ 31) % 2 ^ 32) ((b + 2 ^ 31) % 2 ^ 32)

module _ {T : Type 0} (lib : WaylandLib T) (display_at : DisplayAt) where
  -- The fields of `worker_surface` that `__tpl_wayland_vk_wsi_surface_create_swapchain` sets. Those
  -- that it does not set are zero since the `calloc` of the surface, or as they were.
  unfoldable pub callbacks :
      Surface → WsiSurface → WorkerSurface (World T) → WorkerSurface (World T)
  unfolding process_draw_done draw_wait_fd_get vblank waits_for_vblank
  callbacks s t worker_surface = record worker_surface {
    surface = s.base.address;
    tbm_queue = t.tbm_queue;
    draw_done = some (process_draw_done lib display_at s);
    draw_wait_fd_get = some (draw_wait_fd_get lib);
    vblank =
        if waits_for_vblank t.present_mode
        then some (vblank lib display_at s)
        else worker_surface.vblank;
  }

  -- The part of `__tpl_wayland_vk_wsi_surface_create_swapchain` behind the creation of the queue.
  unfoldable pub start_surface :
      (mutex_ok : Bool) → Surface → WsiSurface → System T → TplResult × Surface × System T
  start_surface mutex_ok s t sys =
      let p = s.backend_data in
      let t₁ : WsiSurface =
        if waits_for_vblank t.present_mode
        then record t {
          free_queue_mutex = free;
          vblank_list_mutex = free;
          vblank_list = TplList.init;
        }
        else record t { free_queue_mutex = free } in
      let (node_allocated, state) = lib.tbm.allocated (lib_of sys) in
      let worker = record sys.worker {
        store = update sys.worker.store p (callbacks s t₁ (sys.worker.store p));
      } in
      elim (surface_list_insert mutex_ok node_allocated worker p) [
        | done worker' ↦ (
          error_none,
          s,
          record { world = put_surface (record sys.world { lib = state }) p t₁; worker = worker' },
        )
        | other ↦ (error_none, s, halt sys)
      ]

  -- `__tpl_wayland_vk_wsi_surface_create_swapchain`
  unfoldable pub create_swapchain :
      (mutex_ok : Bool) → Swapchain → Surface → System T → TplResult × Surface × System T
  create_swapchain mutex_ok c s sys =
      let p = s.backend_data in
      if s.display == null then (error_none, s, halt sys) else elim (sys.world.surfaces p) [
        | none ↦ (error_none, s, halt sys)
        | some t ↦ elim (sys.world.displays (display_at s.display).backend_data) [
          | none ↦ (error_none, s, halt sys)
          | some d ↦
              let present_mode = mailbox in
              let (queue, state) = lib.queue_create c.buffer_count c.width c.height (lib_of sys) in
              let t₁ = record t { present_mode = present_mode; tbm_queue = queue } in
              if int_lt c.buffer_count d.min_buffer || int_lt d.max_buffer c.buffer_count
              then (invalid_parameter, s, sys)
              else if bit_and present_mode d.present_modes == 0
                  && not (mode_accepted sys.worker.support_vblank present_mode)
              then (invalid_parameter, s, sys)
              else if queue == null
              then (
                out_of_memory,
                s,
                record sys { world = put_surface (record sys.world { lib = state }) p t₁ },
              )
              else start_surface mutex_ok (record s { width = c.width; height = c.height })
                  (record t₁ { buffer_count = c.buffer_count }) (set_lib sys state)
        ]
      ]

  -- The calls of `__tpl_wayland_vk_wsi_buffer_remove_from_vblank_list` that `__tpl_list_fini` makes.
  unfoldable pub remove_all_from_vblank_list : List Ptr → World T → World T
  unfolding buffer_remove_from_vblank_list
  remove_all_from_vblank_list [] w = w
  remove_all_from_vblank_list (b ∷ bs) w =
      remove_all_from_vblank_list bs (buffer_remove_from_vblank_list lib b w)

  -- The part of `__tpl_wayland_vk_wsi_surface_destroy_swapchain` for a window.
  unfoldable pub end_queue : (fuel : ℕ) → Surface → World T → World T
  end_queue fuel s w =
      let w₁ =
        roundtrip lib fuel display_at s.display
          (on_lib w (lib.flush (display_at s.display).native_handle)) in
      elim (w₁.surfaces s.backend_data) [
        | none ↦ stop w₁
        | some t ↦
            put_surface (on_lib w₁ (lib.queue_destroy t.tbm_queue)) s.backend_data
              (record t { tbm_queue = null })
      ]

  -- Its part for the list of the vblanks, and the mutexes.
  unfoldable pub end_lists : (p : Ptr) → World T → World T
  unfolding remove_all_from_vblank_list waits_for_vblank
  end_lists p w = elim (w.surfaces p) [
    | none ↦ stop w
    | some t ↦
        let (l, gone) = TplList.fini true t.vblank_list in
        if waits_for_vblank t.present_mode
        then put_surface (remove_all_from_vblank_list gone w) p (record t {
          vblank_list = l;
          vblank_list_mutex = destroyed;
          free_queue_mutex = destroyed;
        })
        else put_surface w p (record t { free_queue_mutex = destroyed })
  ]

  -- `__tpl_wayland_vk_wsi_surface_destroy_swapchain`
  unfoldable pub destroy_swapchain :
      (fuel : ℕ) → (mutex_ok : Bool) → Surface → System T → TplResult × Surface × System T
  unfolding is_window
  destroy_swapchain fuel mutex_ok s sys =
      let p = s.backend_data in
      if s.display == null then (error_none, s, halt sys) else elim (sys.world.surfaces p) [
        | none ↦ (error_none, s, halt sys)
        | some t ↦
            let w = if is_window s.type then end_queue fuel s sys.world else sys.world in
            (
              error_none,
              s,
              record { world = end_lists p w; worker = surface_list_remove mutex_ok sys.worker p },
            )
      ]

  -- `__tpl_wayland_vk_wsi_surface_get_swapchain_buffers`, with its three loops.
  unfoldable pub get_swapchain_buffers :
      Surface → System T → (TplResult × List Ptr) × Surface × System T
  unfolding dequeue_all release_all
  get_swapchain_buffers s sys =
      if s.display == null
      then ((error_none, []), s, halt sys)
      else elim (sys.world.surfaces s.backend_data) [
        | none ↦ ((error_none, []), s, halt sys)
        | some t ↦
            let (allocated, state) = lib.tbm.allocated (lib_of sys) in
            let (all_there, buffers, state₁) =
              dequeue_all lib.tbm t.buffer_count t.tbm_queue state in
            let (all_released, state₂) = release_all lib.tbm buffers t.tbm_queue state₁ in
            if not allocated
            then ((out_of_memory, []), s, set_lib sys state)
            else if not all_there
            then ((out_of_memory, []), s, set_lib sys state₂)
            else if not all_released
            then ((invalid_operation, []), s, set_lib sys state₂)
            else ((error_none, buffers), s, set_lib sys state₂)
      ]
