-- ===== src/Gbm/Surface.antt =====
-- The surfaces of src/tpl_gbm.c.
use libtpl_egl.Base.{
  ℕ, Bool, true, not, ◌&&◌, ◌||◌, Option, none, some, ◌==◌, if◌then◌else◌, update, is_some,
}
use libtpl_egl.Types.{
  TplResult, error_none, invalid_parameter, invalid_operation, out_of_memory, window, pixmap, Ptr,
  null,
}
use libtpl_egl.Worker.{Fd}
use libtpl_egl.Display.{NativeInfo}
use libtpl_egl.Surface.{Surface, SurfaceBackend, Damage}
use libtpl_egl.Tbm.Surface.{fd_of}
use libtpl_egl.Gbm.{GbmLib, GbmSurface, GbmBuffer, World, get_window_info, get_pixmap_info}

module _ {T : Type 0} where
  -- The end of the process.
  abbrev pub stop : World T → World T
  stop w = record w { stopped = true }

  abbrev pub set_lib : World T → T → World T
  set_lib w t = record w { lib = t }

  abbrev pub put_surface : World T → Ptr → Option GbmSurface → World T
  put_surface w p s = record w { surfaces = update w.surfaces p s }

module _ {T : Type 0} (lib : GbmLib T) where
  -- `__tpl_gbm_get_gbm_buffer_from_tbm_surface`
  unfoldable pub get_gbm_buffer : World T → Ptr → Option GbmBuffer
  get_gbm_buffer w buffer = if lib.tbm.is_valid buffer w.lib then w.buffers buffer else none

  -- `__tpl_gbm_set_gbm_buffer_to_tbm_surface`
  unfoldable pub set_gbm_buffer : World T → Ptr → GbmBuffer → World T
  set_gbm_buffer w buffer b = record w { buffers = update w.buffers buffer (some b) }

  -- `__tpl_gbm_buffer_free`, when the buffer goes.
  unfoldable pub buffer_free : World T → Ptr → World T
  buffer_free w buffer = record w { buffers = update w.buffers buffer none }

  -- `__tpl_gbm_surface_init`; `address` is the result of `calloc`. Where it fails, its memory is
  -- freed again.
  unfoldable pub surface_init :
      (address : Option Ptr) → Surface → World T → TplResult × Surface × World T
  unfolding get_window_info get_pixmap_info
  surface_init address s w = elim address [
    | none ↦ (out_of_memory, s, w)
    | some p ↦
        let queue = elim s.type as (λ t. Ptr) [
          | window ↦ lib.surface_queue s.native_handle w.lib
          | t ↦ null
        ] in
        let info : Option NativeInfo = elim s.type as (λ t. Option NativeInfo) [
          | window ↦ (get_window_info lib w.lib s.native_handle).1
          | pixmap ↦ (get_pixmap_info lib w.lib s.native_handle).1
          | t ↦ none
        ] in
        elim info [
          | none ↦ (invalid_operation, record s { backend_data = null }, put_surface w p none)
          | some i ↦ (
            error_none,
            record s { backend_data = p; width = i.width; height = i.height },
            put_surface w p (some (record { tbm_queue = queue; current_buffer = null })),
          )
        ]
  ]

  -- `__tpl_gbm_surface_fini`; its caller frees the surface, in which it leaves NULL.
  unfoldable pub surface_fini : Surface → World T → World T
  surface_fini s w =
      if s.display == null
      then stop w
      else if s.backend_data == null
      then w
      else elim (w.surfaces s.backend_data) [
        | none ↦ stop w
        | some g ↦
            let state =
              if g.current_buffer == null then w.lib else lib.tbm.unref g.current_buffer w.lib in
            put_surface (set_lib w state) s.backend_data none
      ]

  -- The wait for a fence that is not -1, and its end.
  unfoldable pub wait_and_close : Fd → T → T
  wait_and_close none state = state
  wait_and_close (some fd) state = lib.tbm.close (some fd) (lib.tbm.fence_wait fd state)

  -- `__tpl_gbm_surface_enqueue_buffer`; `display_handle` is the `native_handle` of the display.
  unfoldable pub enqueue_buffer :
      (display_handle : Ptr → Ptr)
      → Ptr
      → Damage
      → Surface
      → World T
      → TplResult × Surface × World T
  unfolding get_gbm_buffer wait_and_close
  enqueue_buffer display_handle buffer damage s w =
      if s.display == null || display_handle s.display == null || buffer == null
      then (error_none, s, stop w)
      else if s.backend_data == null
      then (invalid_parameter, s, w)
      else if not (lib.tbm.is_valid buffer w.lib)
      then (invalid_parameter, s, w)
      else if not (is_some (get_gbm_buffer w buffer))
      then (invalid_parameter, s, w)
      else elim (w.surfaces s.backend_data) [
        | none ↦ (error_none, s, stop w)
        | some g ↦
            let state = lib.tbm.unref buffer w.lib in
            let (ok, state') =
              lib.tbm.enqueue g.tbm_queue buffer (wait_and_close (fd_of damage.sync_fence) state) in
            if g.tbm_queue == null
            then (invalid_parameter, s, set_lib w state)
            else (if ok then error_none else invalid_parameter, s, set_lib w state')
      ]

  -- `__tpl_gbm_surface_validate`
  unfoldable pub validate : Surface → World T → Bool × Surface × World T
  validate s w = (true, s, w)

  -- The part of `__tpl_gbm_surface_dequeue_buffer` for a buffer that has no user data yet.
  unfoldable pub take_new : Ptr → Surface → GbmSurface → World T → Ptr × Surface × World T
  unfolding set_gbm_buffer
  take_new buffer s g w =
      let bo = lib.bo buffer w.lib in
      let (allocated, state) = lib.tbm.allocated w.lib in
      if bo == null
      then (null, s, set_lib w (lib.tbm.unref buffer w.lib))
      else if not allocated
      then (null, s, set_lib w (lib.tbm.unref buffer state))
      else (
        buffer,
        s,
        set_gbm_buffer
            (put_surface (set_lib w state) s.backend_data
              (some (record g { current_buffer = buffer })))
            buffer (record { display = s.display; bo = bo }),
      )

  -- `__tpl_gbm_surface_dequeue_buffer`; the fence that it returns is -1, and the timeout is not
  -- looked at.
  unfoldable pub dequeue_buffer :
      (display_handle : Ptr → Ptr) → (timeout : ℕ) → Surface → World T → Ptr × Surface × World T
  unfolding get_gbm_buffer take_new
  dequeue_buffer display_handle timeout s w = elim (w.surfaces s.backend_data) [
    | none ↦ (null, s, stop w)
    | some g ↦
        let (ok₁, buffer₁, state₁) = lib.tbm.dequeue g.tbm_queue w.lib in
        let (can, state₂) = lib.tbm.can_dequeue g.tbm_queue state₁ in
        let (ok₃, buffer₃, state₃) = lib.tbm.dequeue g.tbm_queue state₂ in
        let again = buffer₁ == null && can in
        let buffer = if again then buffer₃ else buffer₁ in
        let state = if again then state₃ else if buffer₁ == null then state₂ else state₁ in
        let w' = set_lib w (lib.tbm.ref buffer state) in
        if s.native_handle == null || s.display == null || display_handle s.display == null
        then (null, s, stop w)
        else if again && buffer == null
        then (null, s, set_lib w state)
        else if is_some (get_gbm_buffer w' buffer)
        then (buffer, s, w')
        else take_new buffer s g w'
  ]

  -- `__tpl_surface_init_backend_gbm`; `address` is what the `calloc` of a surface returns.
  unfoldable pub surface_backend :
      (display_handle : Ptr → Ptr) → (address : Option Ptr) → SurfaceBackend (World T)
  unfolding surface_init surface_fini validate dequeue_buffer enqueue_buffer
  surface_backend display_handle address = record {
    init = some (surface_init address);
    fini = some surface_fini;
    validate = some validate;
    dequeue_buffer = some (dequeue_buffer display_handle);
    enqueue_buffer = some (enqueue_buffer display_handle);
    get_swapchain_buffers = none;
    create_swapchain = none;
    destroy_swapchain = none;
  }
