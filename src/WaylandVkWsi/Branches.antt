-- ===== src/WaylandVkWsi/Branches.antt =====
-- The branches of `__tpl_wayland_vk_wsi_surface_create_swapchain`.
use libtpl_egl.Base.{
  ℕ, ◌^◌, ◌<◌, ◌≡◌, refl, Bool, true, false, not, ◌&&◌, ◌||◌, [], ◌∷◌, ◌++◌, some, inl, inr, arith,
  ◌==◌, if◌then◌else◌, Bool-cases,
}
use libtpl_egl.Types.{error_none, invalid_parameter, out_of_memory, Ptr, null}
use libtpl_egl.TplList
use libtpl_egl.TplList.{TplList, count_up}
use libtpl_egl.Worker.{surface_list_insert}
use libtpl_egl.Surface.{Surface, Swapchain}
use libtpl_egl.Tbm.{mailbox, free}
use libtpl_egl.WaylandVkWsi.{WsiDisplay, WsiSurface, WaylandLib, System, DisplayAt}
use libtpl_egl.WaylandVkWsi.Swapchain.{
  create_swapchain, start_surface, callbacks, int_lt, waits_for_vblank,
}
use libtpl_egl.WaylandVkWsi.Capable.{IsCapable}

fits_lem :
    (count : ℕ)
    → count < 2 ^ 32
    → (int_lt count 2 || int_lt 3 count) ≡ not (count == 2 || count == 3)
unfolding int_lt
fits_lem count h = ground arith

eq_self : (n : ℕ) → (n == n) ≡ true
eq_self n = ground arith

no_wait : waits_for_vblank mailbox ≡ false
unfolding waits_for_vblank
no_wait = refl

pushed_lem :
    (allocated : Bool) (l : TplList) (p : Ptr)
    → (TplList.push_back allocated l p).1
      ≡ (if allocated then record { nodes = l.nodes ++ p ∷ []; count = count_up l.count } else l)
unfolding TplList.push_back
pushed_lem true l p = refl
pushed_lem false l p = refl

module _ {T : Type 0} (lib : WaylandLib T) (display_at : DisplayAt) (mutex_ok : Bool)
    (c : Swapchain) (s : Surface) (sys : System T) (t : WsiSurface) (d : WsiDisplay)
    (at : sys.world.surfaces s.backend_data ≡ some t)
    (served : sys.world.displays (display_at s.display).backend_data ≡ some d)
    (capable : IsCapable d) (shown : (s.display == null) ≡ false)
    (named : (s.base.address == null) ≡ false) (word : c.buffer_count < 2 ^ 32) where
  abbrev fits : Bool
  fits = c.buffer_count == 2 || c.buffer_count == 3

  abbrev queue : Ptr
  queue = (lib.queue_create c.buffer_count c.width c.height sys.world.lib).0

  abbrev state : T
  state = (lib.queue_create c.buffer_count c.width c.height sys.world.lib).1

  fits_display :
      (int_lt c.buffer_count d.min_buffer || int_lt d.max_buffer c.buffer_count) ≡ not fits
  fits_display = rw (capable.fewest, capable.most) (fits_lem c.buffer_count word)

  abbrev sized : Surface
  sized = record s { width = c.width; height = c.height }

  abbrev prepared : System T
  prepared = record sys { world = record sys.world { lib = state } }

  start_surface_lem :
      (t' : WsiSurface)
      → t'.present_mode ≡ mailbox
      → let r = start_surface lib display_at mutex_ok sized t' prepared in
        (r.0 ≡ error_none)
        × (r.1 ≡ sized)
        × (r.2.world.surfaces s.backend_data ≡ some (record t' { free_queue_mutex = free }))
        × (r.2.worker.surface_list ≡ (
            if mutex_ok && (lib.tbm.allocated state).0
            then record {
              nodes = sys.worker.surface_list.nodes ++ s.backend_data ∷ [];
              count = count_up sys.worker.surface_list.count;
            }
            else sys.worker.surface_list))
        × (r.2.world.stopped ≡ sys.world.stopped)
  unfolding start_surface surface_list_insert callbacks
  start_surface_lem t' mode =
      let no_vblank : waits_for_vblank t'.present_mode ≡ false = rw mode no_wait in
      elim (Bool-cases mutex_ok) [
        | inl ok ↦
            rw
              (
                start_surface,
                surface_list_insert,
                callbacks,
                no_vblank,
                eq_self s.backend_data,
                named,
                ok,
              )
              (
                refl,
                refl,
                ground arith,
                pushed_lem (lib.tbm.allocated state).0 sys.worker.surface_list s.backend_data,
                refl,
              )
        | inr bad ↦
            rw
              (
                start_surface,
                surface_list_insert,
                callbacks,
                no_vblank,
                eq_self s.backend_data,
                named,
                bad,
              )
              (refl, refl, ground arith, refl, refl)
      ]

  -- For a surface from `calloc` with an address of its own, whose display is as
  -- `__tpl_wayland_vk_wsi_display_init` leaves it: a swapchain of any other number of buffers than
  -- two or three is refused, with TPL_ERROR_INVALID_PARAMETER and nothing changed. One of two or
  -- three is refused where there is no queue, with TPL_ERROR_OUT_OF_MEMORY, the surface left without
  -- a queue, and the worker thread as it was. Else it is made: the surface has the size asked for,
  -- the new queue, the number of buffers and the mode MAILBOX, whatever mode was asked for; and
  -- where the mutex of the worker thread is taken and there is memory for the node, it is put at the
  -- back of the list of the worker thread; without the mutex or that memory the list stays as it
  -- is, although the call succeeds.
  pub create_swapchain_branches :
      let r = create_swapchain lib display_at mutex_ok c s sys in
      (fits ≡ false → r ≡ (invalid_parameter, s, sys))
      × (fits ≡ true
          → (queue == null) ≡ true
          → (r.0 ≡ out_of_memory)
            × (r.1 ≡ s)
            × (r.2.worker ≡ sys.worker)
            × (r.2.world.surfaces s.backend_data
                ≡ some (record t { present_mode = mailbox; tbm_queue = queue }))
            × (r.2.world.stopped ≡ sys.world.stopped))
      × (fits ≡ true
          → (queue == null) ≡ false
          → (r.0 ≡ error_none)
            × (r.1 ≡ record s { width = c.width; height = c.height })
            × (r.2.world.surfaces s.backend_data
                ≡ some (record t {
                  present_mode = mailbox;
                  tbm_queue = queue;
                  buffer_count = c.buffer_count;
                  free_queue_mutex = free;
                }))
            × (r.2.worker.surface_list ≡ (
                if mutex_ok && (lib.tbm.allocated state).0
                then record {
                  nodes = sys.worker.surface_list.nodes ++ s.backend_data ∷ [];
                  count = count_up sys.worker.surface_list.count;
                }
                else sys.worker.surface_list))
            × (r.2.world.stopped ≡ sys.world.stopped))
  unfolding create_swapchain
  create_swapchain_branches = (
    λ e. simp (create_swapchain, shown, at, served, fits_display, e),
    λ e n.
        rw (create_swapchain, shown, at, served, fits_display, e, capable.direct, n)
          (refl, refl, refl, ground arith, refl),
    λ e m.
        let started = record t {
          present_mode = mailbox;
          tbm_queue = queue;
          buffer_count = c.buffer_count;
        } in
        rw (create_swapchain, shown, at, served, fits_display, e, capable.direct, m)
          (start_surface_lem started refl),
  )
