-- ===== src/Tbm/Buffers.antt =====
-- The buffers of src/tpl_tbm.c on their way: what the worker thread calls for them.
use Prim.Native.Nat.{bit_and}
use libtpl_egl.Base.{
  ℕ, ◌+◌, Bool, true, false, not, ◌&&◌, ◌||◌, Option, none, some, [], ◌∷◌, ◌==◌, if◌then◌else◌,
  update,
}
use libtpl_egl.Types.{TplResult, Ptr, null, done}
use libtpl_egl.TplList.{TplList}
use libtpl_egl.TplList
use libtpl_egl.Worker.{Fd}
use libtpl_egl.Tbm.{TbmLib, free, TbmSurface, World, fifo, fifo_relaxed}

-- The field of a `struct _tpl_tbm_surface` that a push or a pop of a list changes, the mutex of the
-- list being taken and released around it.
abbrev pub with_vblank : TbmSurface → TplList → TbmSurface
with_vblank s l = record s { vblank_list = l; vblank_mutex = free }

abbrev pub with_waiting : TbmSurface → TplList → TbmSurface
with_waiting s l = record s { draw_waiting_queue = l; draw_waiting_mutex = free }

module _ {T : Type 0} where
  -- The end of the process.
  abbrev pub stop : World T → World T
  stop w = record w { stopped = true }

  abbrev pub put_surface : World T → Ptr → TbmSurface → World T
  put_surface w p s = record w { surfaces = update w.surfaces p (some s) }

module _ {T : Type 0} (lib : TbmLib T) where
  abbrev pub on_lib : World T → (T → T) → World T
  on_lib w f = record w { lib = f w.lib }

  -- `__tpl_tbm_get_tbm_buffer_from_tbm_surface`: the `wait_sync`, `none` for NULL.
  unfoldable pub get_tbm_buffer : World T → Ptr → Option Fd
  get_tbm_buffer w buffer = if lib.is_valid buffer w.lib then w.buffers buffer else none

  -- `__tpl_tbm_set_tbm_buffer_to_tbm_surface`
  unfoldable pub set_tbm_buffer : World T → Ptr → Fd → World T
  set_tbm_buffer w buffer wait_sync = record w {
    buffers = update w.buffers buffer (some wait_sync);
  }

  -- `__tpl_tbm_buffer_free`
  unfoldable pub buffer_free : World T → Ptr → World T
  buffer_free w buffer = elim (w.buffers buffer) [
    | none ↦ stop w
    | some none ↦ record w { buffers = update w.buffers buffer none }
    | some (some fd) ↦ record w {
      buffers = update w.buffers buffer none;
      lib = lib.close (some fd) w.lib;
    }
  ]

  -- `__tpl_tbm_buffer_remove_from_list`
  pub buffer_remove_from_list : Ptr → World T → World T
  buffer_remove_from_list buffer w = on_lib w (lib.unref buffer)

  -- A `__tpl_list_push_back`, with the `malloc` of the node.
  unfoldable pub push : World T → TplList → Ptr → World T × TplList
  push w l buffer =
      let (allocated, state) = lib.allocated w.lib in
      (record w { lib = state }, (TplList.push_back allocated l buffer).1)

  -- A buffer is put on the list for the next vblank.
  unfoldable pub keep_for_vblank : World T → Ptr → TbmSurface → Ptr → (vblank_done : Bool) → World T
  unfolding push
  keep_for_vblank w p s buffer vblank_done =
      let (w', l) = push (on_lib w (lib.ref buffer)) s.vblank_list buffer in
      put_surface w' p (record (with_vblank s l) { vblank_done = vblank_done })

  -- `__tpl_tbm_draw_done`, of the surface whose `backend.data` is `p` and whose native handle is
  -- the queue; neither changes while a surface is in the list of the worker.
  unfoldable pub draw_done :
      (p queue : Ptr) → (surface buffer : Ptr) → TplResult → World T → World T
  unfolding get_tbm_buffer set_tbm_buffer keep_for_vblank
  draw_done p queue surface buffer result w =
      if surface == null || buffer == null || not (lib.is_valid buffer w.lib)
      then stop w
      else elim (w.surfaces p) [
        | none ↦ stop w
        | some s ↦ elim (get_tbm_buffer w buffer) [
          | none ↦ stop w
          | some wait_sync ↦
              let w₁ = set_tbm_buffer (on_lib w (lib.close wait_sync)) buffer none in
              if queue == null
              then stop w
              else if s.present_mode == fifo
              then keep_for_vblank w₁ p s buffer s.vblank_done
              else if s.present_mode == fifo_relaxed && not s.vblank_done
              then keep_for_vblank w₁ p s buffer true
              else on_lib w₁ (λ t. (lib.enqueue queue buffer (lib.unref buffer t)).1)
        ]
      ]

  -- `__tpl_tbm_draw_wait_fd_get`
  unfoldable pub draw_wait_fd_get : (surface buffer : Ptr) → World T → Fd × World T
  unfolding get_tbm_buffer
  draw_wait_fd_get surface buffer w =
      if buffer == null || not (lib.is_valid buffer w.lib)
      then (none, stop w)
      else elim (get_tbm_buffer w buffer) [ none ↦ (none, stop w) | some fd ↦ (fd, w) ]

  -- `__tpl_tbm_vblank`; with a function that drops the reference, `__tpl_list_pop_front` calls it on
  -- the buffer that it returns.
  unfoldable pub vblank :
      (p queue : Ptr) → (surface : Ptr) → (sequence tv_sec tv_usec : ℕ) → World T → World T
  unfolding buffer_remove_from_list
  vblank p queue surface sequence tv_sec tv_usec w =
      if surface == null then stop w else elim (w.surfaces p) [
        | none ↦ stop w
        | some s ↦
            if bit_and s.present_mode (fifo + fifo_relaxed) == 0
            then w
            else elim (TplList.pop_front true s.vblank_list) [
              | done (buffer, l, calls) ↦
                  let w₁ = elim calls as (λ c. World T) [
                    | [] ↦ w
                    | b ∷ bs ↦ buffer_remove_from_list b w
                  ] in
                  if lib.is_valid buffer w₁.lib
                  then put_surface (on_lib w₁ (λ t. (lib.enqueue queue buffer t).1)) p
                      (record (with_vblank s l) { vblank_done = true })
                  else put_surface w₁ p (record (with_vblank s l) { vblank_done = false })
              | other ↦ stop w
            ]
      ]

  -- `__tpl_tbm_draw_wait_buffer_get`
  unfoldable pub draw_wait_buffer_get : (p : Ptr) → (surface : Ptr) → World T → Ptr × World T
  draw_wait_buffer_get p surface w = elim (w.surfaces p) [
    | none ↦ (null, stop w)
    | some s ↦ elim (TplList.pop_front false s.draw_waiting_queue) [
      | done (buffer, l, calls) ↦ (buffer, put_surface w p (with_waiting s l))
      | other ↦ (null, stop w)
    ]
  ]
