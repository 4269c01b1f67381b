-- ===== src/WaylandVkWsi/Buffers.antt =====
-- The buffers of src/tpl_wayland_vk_wsi.c on their way to the server and back: what the worker
-- thread calls for them, and the callbacks of events.
use Prim.Native.Nat.{bit_and}
use libtpl_egl.Base.{
  ℕ, zero, suc, ◌+◌, ◌%◌, ◌^◌, Bool, true, false, not, ◌&&◌, ◌||◌, Option, none, some, List, [],
  ◌∷◌, ◌==◌, if◌then◌else◌, update,
}
use libtpl_egl.Types.{TplResult, Ptr, null, Outcome, done, out_of_fuel}
use libtpl_egl.TplList.{TplList}
use libtpl_egl.TplList
use libtpl_egl.Worker.{Fd}
use libtpl_egl.Surface.{Surface}
use libtpl_egl.Tbm.{free, fifo, fifo_relaxed}
use libtpl_egl.WaylandVkWsi.{
  WsiSurface, WsiBuffer, Event, synced, framed, released, WaylandLib, World, DisplayAt,
}

-- A surface after a section under the mutex of its free queue, or under that of its vblank list.
abbrev pub unlocked : WsiSurface → WsiSurface
unlocked t = record t { free_queue_mutex = free }

abbrev pub with_vblank : WsiSurface → TplList → WsiSurface
with_vblank t l = record t { vblank_list = l; vblank_list_mutex = free }

-- `sync_timestamp++` of an unsigned int.
unfoldable pub next_timestamp : ℕ → ℕ
next_timestamp x = (x + 1) % 2 ^ 32

-- The `done` that `__cb_client_sync_callback` sets.
unfoldable pub has_synced : List Event → Bool
has_synced [] = false
has_synced (synced ∷ es) = true
has_synced (framed ∷ es) = has_synced es
has_synced (released b ∷ es) = has_synced es

module _ {T : Type 0} where
  -- The end of the process.
  abbrev pub stop : World T → World T
  stop w = record w { stopped = true }

  abbrev pub on_lib : World T → (T → T) → World T
  on_lib w f = record w { lib = f w.lib }

  abbrev pub put_surface : World T → Ptr → WsiSurface → World T
  put_surface w p t = record w { surfaces = update w.surfaces p (some t) }

  -- `__tpl_wayland_vk_wsi_set_wayland_buffer_to_tbm_surface`
  abbrev pub put_buffer : World T → Ptr → WsiBuffer → World T
  put_buffer w b buf = record w { buffers = update w.buffers b (some buf) }

  -- `wayland_vk_wsi_surface->vblank_done = b`
  unfoldable pub set_vblank_done : Ptr → Bool → World T → World T
  set_vblank_done p b w = elim (w.surfaces p) [
    | none ↦ stop w
    | some t ↦ put_surface w p (record t { vblank_done = b })
  ]

module _ {T : Type 0} (lib : WaylandLib T) where
  -- `__tpl_wayland_vk_wsi_get_wayland_buffer_from_tbm_surface`
  unfoldable pub get_buffer : World T → Ptr → Option WsiBuffer
  get_buffer w b = if lib.tbm.is_valid b w.lib then w.buffers b else none

  -- `__cb_client_buffer_release_callback`
  unfoldable pub buffer_release_callback : (data_of : Ptr) → World T → World T
  unfolding get_buffer
  buffer_release_callback data_of w =
      if data_of == null
      then stop w
      else elim (get_buffer w data_of) [ none ↦ w | some buf ↦ on_lib w (lib.tbm.unref data_of) ]

  -- An event; `__cb_client_sync_callback` and `__cb_client_frame_callback` end the callback.
  unfoldable pub handle_event : Event → World T → World T
  unfolding buffer_release_callback
  handle_event synced w = on_lib w lib.callback_destroy
  handle_event framed w = on_lib w lib.callback_destroy
  handle_event (released b) w = buffer_release_callback b w

  unfoldable pub handle_events : List Event → World T → World T
  unfolding handle_event
  handle_events [] w = w
  handle_events (e ∷ es) w = handle_events es (handle_event e w)

  -- `wl_display_dispatch`: whether it returned -1, and its events.
  unfoldable pub dispatch : (dpy : Ptr) → World T → Bool × List Event × World T
  unfolding handle_events
  dispatch dpy w =
      let (ok, events, state) = lib.dispatch dpy w.lib in
      (ok, events, handle_events events (record w { lib = state }))

  -- The loop of `__tpl_wayland_vk_wsi_display_roundtrip`: whether the answer came.
  unfoldable pub dispatch_loop : (fuel : ℕ) → (dpy : Ptr) → World T → Outcome (Bool × World T)
  dispatch_loop zero dpy w = out_of_fuel
  dispatch_loop (suc fuel) dpy w =
      let (ok, events, w') = dispatch dpy w in
      let rest = dispatch_loop fuel dpy w' in
      if not ok then done (false, w') else if has_synced events then done (true, w') else rest

  -- `__tpl_wayland_vk_wsi_display_roundtrip` of a display that is not NULL.
  unfoldable pub roundtrip : (fuel : ℕ) → DisplayAt → (display : Ptr) → World T → World T
  roundtrip fuel display_at display w =
      let d = display_at display in
      if d.native_handle == null || d.backend_data == null
      then stop w
      else elim (dispatch_loop fuel d.native_handle (on_lib w (lib.sync d.native_handle))) [
        | done (ok, w') ↦ w'
        | other ↦ stop w
      ]

  -- `__tpl_wayland_vk_wsi_buffer_free`
  unfoldable pub buffer_free : DisplayAt → (buffer : Ptr) → World T → World T
  buffer_free display_at b w = elim (w.buffers b) [
    | none ↦ stop w
    | some buf ↦
        let d = display_at buf.display in
        let w₁ = record (on_lib w (lib.flush d.native_handle)) {
          buffers = update w.buffers b none;
        } in
        let w₂ : World T = elim (w.displays d.backend_data) [
          | none ↦ if buf.wl_proxy == null then w₁ else stop w₁
          | some disp ↦
              if buf.wl_proxy == null
              then w₁
              else on_lib w₁ (lib.destroy_buffer disp.wl_tbm_client buf.wl_proxy)
        ] in
        if buf.display == null
        then stop w
        else elim buf.sync_timeline [ none ↦ w₂ | some fd ↦ on_lib w₂ (lib.tbm.close (some fd)) ]
  ]

  -- The requests of `__tpl_wayland_vk_wsi_surface_commit_buffer`.
  unfoldable pub send : (dpy : Ptr) → Surface → (buffer proxy : Ptr) → T → T
  send dpy s b proxy state =
      let sfc = s.native_handle in
      lib.flush dpy (
        lib.commit sfc (
          lib.frame sfc b
            (lib.damage sfc s.width s.height (lib.attach sfc proxy (lib.tbm.ref b state)))))

  -- `__tpl_wayland_vk_wsi_surface_commit_buffer`
  unfoldable pub commit_buffer : DisplayAt → Surface → (buffer : Ptr) → World T → World T
  unfolding get_buffer send next_timestamp
  commit_buffer display_at s b w =
      let dpy = (display_at s.display).native_handle in
      let p = s.backend_data in
      if s.display == null || dpy == null || b == null || not (lib.tbm.is_valid b w.lib)
      then stop w
      else elim (get_buffer w b) [
        | none ↦ stop w
        | some buf ↦ elim (w.surfaces p) [
          | none ↦ stop w
          | some t ↦
              let (ok, state) = lib.tbm.release t.tbm_queue b (send dpy s b buf.wl_proxy w.lib) in
              let buf' = record buf { sync_timestamp = next_timestamp buf.sync_timestamp } in
              put_surface (put_buffer (record w { lib = lib.signal p state }) b buf') p (unlocked t)
        ]
      ]

  -- `__tpl_wayland_vk_wsi_buffer_remove_from_vblank_list`
  unfoldable pub buffer_remove_from_vblank_list : Ptr → World T → World T
  buffer_remove_from_vblank_list b w = on_lib w (lib.tbm.unref b)

  -- A buffer is put on the list for the next vblank.
  unfoldable pub keep_for_vblank :
      Ptr → WsiSurface → (buffer : Ptr) → (vblank_done : Bool) → World T → World T
  keep_for_vblank p t b vblank_done w =
      let (allocated, state) = lib.tbm.allocated (lib.tbm.ref b w.lib) in
      let l = (TplList.push_back allocated t.vblank_list b).1 in
      put_surface (record w { lib = state }) p
        (record (with_vblank t l) { vblank_done = vblank_done })

  -- `__tpl_wayland_vk_wsi_process_draw_done`, of the surface `s` as it was when the swapchain was
  -- made; `surface` is the pointer that the worker thread passes.
  unfoldable pub process_draw_done :
      DisplayAt → Surface → (surface buffer : Ptr) → TplResult → World T → World T
  unfolding get_buffer keep_for_vblank
  process_draw_done display_at s surface b result w =
      if surface == null || b == null || not (lib.tbm.is_valid b w.lib)
      then stop w
      else elim (w.surfaces s.backend_data) [
        | none ↦ stop w
        | some t ↦ elim (get_buffer w b) [
          | none ↦ stop w
          | some buf ↦ elim (w.displays (display_at s.display).backend_data) [
            | none ↦ stop w
            | some d ↦
                let w₁ =
                  put_buffer (on_lib w (lib.tbm.close buf.wait_sync)) b
                    (record buf { wait_sync = none }) in
                if not (bit_and t.present_mode d.present_modes == 0)
                then commit_buffer display_at s b w₁
                else if t.present_mode == fifo
                then keep_for_vblank s.backend_data t b t.vblank_done w₁
                else if t.present_mode == fifo_relaxed && not t.vblank_done
                then keep_for_vblank s.backend_data t b true w₁
                else commit_buffer display_at s b w₁
          ]
        ]
      ]

  -- `__tpl_wayland_vk_wsi_draw_wait_fd_get`
  unfoldable pub draw_wait_fd_get : (surface buffer : Ptr) → World T → Fd × World T
  unfolding get_buffer
  draw_wait_fd_get surface b w =
      if b == null
      then (none, stop w)
      else elim (get_buffer w b) [ none ↦ (none, stop w) | some buf ↦ (buf.wait_sync, w) ]

  -- `__tpl_wayland_vk_wsi_vblank`; with a function that drops the reference, `__tpl_list_pop_front`
  -- calls it on the buffer that it returns.
  unfoldable pub vblank :
      DisplayAt → Surface → (surface : Ptr) → (sequence tv_sec tv_usec : ℕ) → World T → World T
  unfolding buffer_remove_from_vblank_list commit_buffer set_vblank_done
  vblank display_at s surface sequence tv_sec tv_usec w =
      let p = s.backend_data in
      if surface == null then stop w else elim (w.surfaces p) [
        | none ↦ stop w
        | some t ↦
            if bit_and t.present_mode (fifo + fifo_relaxed) == 0
            then w
            else elim (TplList.pop_front true t.vblank_list) [
              | done (b, l, calls) ↦
                  let w₁ = elim calls as (λ c. World T) [
                    | [] ↦ w
                    | c ∷ cs ↦ buffer_remove_from_vblank_list c w
                  ] in
                  let w₂ = put_surface w₁ p (with_vblank t l) in
                  if lib.tbm.is_valid b w₁.lib
                  then set_vblank_done p true (commit_buffer display_at s b w₂)
                  else set_vblank_done p false w₂
              | other ↦ stop w
            ]
      ]
