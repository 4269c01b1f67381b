-- ===== src/Tbm/Swapchain.antt =====
-- The swapchain of src/tpl_tbm.c. The mutex of the worker thread and libtbm are parameters.
use libtpl_egl.Base.{
  ℕ, zero, suc, Bool, true, false, not, ◌||◌, none, some, List, [], ◌∷◌, ◌==◌, if◌then◌else◌,
  update,
}
use libtpl_egl.Types.{
  TplResult, error_none, invalid_parameter, invalid_operation, out_of_memory, Ptr, null, done,
}
use libtpl_egl.TplList.{TplList}
use libtpl_egl.TplList
use libtpl_egl.Worker.{WorkerSurface, surface_list_insert, surface_list_remove}
use libtpl_egl.Surface.{Surface, Swapchain}
use libtpl_egl.Tbm.{TbmLib, destroyed, free, World, System, mailbox, fifo, immediate, fifo_relaxed}
use libtpl_egl.Tbm.Buffers.{
  stop, put_surface, draw_done, draw_wait_fd_get, vblank, draw_wait_buffer_get,
}

module _ {T : Type 0} where
  abbrev pub halt : System T → System T
  halt sys = record sys { world = stop sys.world }

  abbrev pub lib_of : System T → T
  lib_of sys = sys.world.lib

  abbrev pub set_lib : System T → T → System T
  set_lib sys t = record sys { world = record sys.world { lib = t } }

-- The `switch` of `__tpl_tbm_surface_create_swapchain`: whether it is left by `break`. The case of
-- the two FIFO modes has no `break` of its own and falls through to the default.
unfoldable pub mode_accepted : (support_vblank : Bool) → (present_mode : ℕ) → Bool
mode_accepted support_vblank mode =
    if mode == mailbox || mode == immediate
    then true
    else if mode == fifo || mode == fifo_relaxed
    then if not support_vblank then false else false
    else false

module _ {T : Type 0} (lib : TbmLib T) where
  -- The fields of `worker_surface` that `__tpl_tbm_surface_create_swapchain` sets. Those that it
  -- does not set are zero since the `calloc` of the surface, or as they were.
  unfoldable pub callbacks : Surface → WorkerSurface (World T) → WorkerSurface (World T)
  unfolding draw_done draw_wait_fd_get vblank draw_wait_buffer_get
  callbacks s worker_surface =
      let p = s.backend_data in
      record worker_surface {
        surface = s.base.address;
        draw_done = some (draw_done lib p s.native_handle);
        draw_wait_fd_get = some (draw_wait_fd_get lib);
        vblank = some (vblank lib p s.native_handle);
        draw_wait_buffer_get = some (draw_wait_buffer_get lib p);
      }

  -- `__tpl_tbm_surface_create_swapchain`
  unfoldable pub create_swapchain :
      (mutex_ok : Bool) → Swapchain → Surface → System T → TplResult × Surface × System T
  unfolding callbacks mode_accepted surface_list_insert
  create_swapchain mutex_ok c s sys =
      let p = s.backend_data in
      elim (sys.world.surfaces p) [
        | none ↦ (error_none, s, halt sys)
        | some t ↦
            let present_mode = mailbox in
            if not (mode_accepted sys.worker.support_vblank present_mode)
            then (invalid_parameter, s, sys)
            else let t₁ = record t {
              present_mode = present_mode;
              vblank_list = TplList.init;
              draw_waiting_queue = TplList.init;
              vblank_mutex = free;
              draw_waiting_mutex = free;
              need_worker_clear = true;
            } in
              let (node_allocated, state) = lib.allocated (lib_of sys) in
              let worker = record sys.worker {
                store = update sys.worker.store p (callbacks s (sys.worker.store p));
              } in
              elim (surface_list_insert mutex_ok node_allocated worker p) [
                | done worker' ↦ (
                  error_none,
                  s,
                  record { world = put_surface (set_lib sys state).world p t₁; worker = worker' },
                )
                | other ↦ (error_none, s, halt sys)
              ]
      ]

  -- `__tpl_tbm_surface_destroy_swapchain`
  unfoldable pub destroy_swapchain :
      (mutex_ok : Bool) → Surface → System T → TplResult × Surface × System T
  unfolding surface_list_remove
  destroy_swapchain mutex_ok s sys =
      let p = s.backend_data in
      elim (sys.world.surfaces p) [
        | none ↦ (error_none, s, halt sys)
        | some t ↦ (
          error_none,
          s,
          record {
            world = put_surface sys.world p (record t {
              vblank_list = (TplList.fini false t.vblank_list).0;
              vblank_mutex = destroyed;
              draw_waiting_queue = (TplList.fini false t.draw_waiting_queue).0;
              draw_waiting_mutex = destroyed;
              need_worker_clear = false;
            });
            worker = surface_list_remove mutex_ok sys.worker p;
          },
        )
      ]

  -- The first loop of `__tpl_tbm_surface_get_swapchain_buffers`: whether all buffers came, and
  -- those that came.
  unfoldable pub dequeue_all : ℕ → (queue : Ptr) → T → Bool × List Ptr × T
  dequeue_all zero queue state = (true, [], state)
  dequeue_all (suc n) queue state =
      let (ok, buffer, state₁) = lib.dequeue queue state in
      let (ok', buffers, state₂) = dequeue_all n queue state₁ in
      if ok then (ok', buffer ∷ buffers, state₂) else (false, [], state₁)

  -- A loop of `tbm_surface_queue_release`, which ends with the first failure.
  unfoldable pub release_all : List Ptr → (queue : Ptr) → T → Bool × T
  release_all [] queue state = (true, state)
  release_all (b ∷ bs) queue state =
      let (ok, state₁) = lib.release queue b state in
      let rest = release_all bs queue state₁ in if ok then rest else (false, state₁)

  -- `__tpl_tbm_surface_get_swapchain_buffers`
  unfoldable pub get_swapchain_buffers :
      Surface → System T → (TplResult × List Ptr) × Surface × System T
  unfolding dequeue_all release_all
  get_swapchain_buffers s sys =
      let queue = s.native_handle in
      let n = lib.queue_size queue (lib_of sys) in
      let (allocated, state) = lib.allocated (lib_of sys) in
      let (all_there, buffers, state₁) = dequeue_all n queue state in
      let (all_released, state₂) = release_all buffers queue state₁ in
      if queue == null
      then ((error_none, []), s, halt sys)
      else if not allocated
      then ((out_of_memory, []), s, set_lib sys state)
      else if not all_there
      then ((out_of_memory, []), s, set_lib sys state₂)
      else if not all_released
      then ((invalid_operation, []), s, set_lib sys state₂)
      else ((error_none, buffers), s, set_lib sys state₂)
