-- ===== src/WaylandVkWsi/Ends.antt =====
-- The end of a surface of src/tpl_wayland_vk_wsi.c.
use mathlib.Core.Path.{subst}
use libtpl_egl.Base.{
  ℕ, ◌^◌, ◌<◌, ◌≡◌, refl, sym, ap, ◌∙◌, true, false, none, some, List, ◌∷◌, ◌++◌, arith, ◌==◌,
  length,
}
use libtpl_egl.Types.{window, Ptr, null}
use libtpl_egl.TplList.{first, remove_data}
use libtpl_egl.TplList.Removal.{IsAbsent, IsAbsent-append, remove_first_lem}
use libtpl_egl.Worker.{surface_list_remove}
use libtpl_egl.Surface.{Surface, is_window}
use libtpl_egl.WaylandVkWsi.{WsiDisplay, WsiSurface, WaylandLib, World, System, DisplayAt}
use libtpl_egl.WaylandVkWsi.Buffers.{on_lib, roundtrip}
use libtpl_egl.WaylandVkWsi.Events.{IsAnswered, roundtrip-Leaves}
use libtpl_egl.WaylandVkWsi.Swapchain.{end_queue, end_lists, waits_for_vblank, destroy_swapchain}
use libtpl_egl.WaylandVkWsi.Surface.{free_surface, surface_fini}

module _ {T : Type 0} (lib : WaylandLib T) (display_at : DisplayAt) (s : Surface)
    (measure : World T → ℕ) (fuel : ℕ)
    (answered : IsAnswered lib (display_at s.display).native_handle measure)
    (open' : ((display_at s.display).native_handle == null) ≡ false)
    (held : ((display_at s.display).backend_data == null) ≡ false) where
  abbrev p : Ptr
  p = s.backend_data

  abbrev dpy : Ptr
  dpy = (display_at s.display).native_handle

  -- The world after the flush, in which the round trip begins.
  abbrev pub flushed : World T → World T
  flushed w = on_lib w (lib.flush dpy)

  -- The queue is gone, and nothing else of the surface.
  end_queue_lem :
      (w : World T) (t : WsiSurface)
      → w.surfaces p ≡ some t
      → measure (on_lib (flushed w) (lib.sync dpy)) < fuel
      → let x = end_queue lib display_at fuel s w in
        (x.surfaces p ≡ some (record t { tbm_queue = null }))
        × (x.stopped ≡ w.stopped)
        × (x.lib
            ≡ lib.queue_destroy t.tbm_queue
                (roundtrip lib fuel display_at s.display (flushed w)).lib)
  unfolding end_queue
  end_queue_lem w t at enough =
      let left =
        roundtrip-Leaves lib dpy measure answered display_at s.display fuel (flushed w) refl open'
          held enough in
      let there : (roundtrip lib fuel display_at s.display (flushed w)).surfaces p ≡ some t =
        ap (λ f. f p) left.surfaces ∙ at in
      rw (end_queue, there) (ground arith, left.stopped, refl)

  end_lists_lem :
      (w : World T) (t : WsiSurface)
      → w.surfaces p ≡ some t
      → waits_for_vblank t.present_mode ≡ false
      → ((end_lists lib display_at p w).stopped ≡ w.stopped)
        × ((end_lists lib display_at p w).lib ≡ w.lib)
  unfolding end_lists
  end_lists_lem w t at direct = rw (end_lists, at, direct) (refl, refl)

  module _ (sys : System T) (t : WsiSurface) (d : WsiDisplay) (at : sys.world.surfaces p ≡ some t)
      (made : (t.tbm_queue == null) ≡ false)
      (served : sys.world.displays (display_at s.display).backend_data ≡ some d)
      (shown : (s.display == null) ≡ false) (drawn : s.type ≡ window)
      (direct : waits_for_vblank t.present_mode ≡ false)
      (enough : measure (on_lib (flushed sys.world) (lib.sync dpy)) < fuel) where
    abbrev ended : World T
    ended = end_queue lib display_at fuel s sys.world

    fini_lem :
        surface_fini lib display_at fuel true s sys
        ≡ free_surface lib display_at p (record {
          world = end_lists lib display_at p ended;
          worker = surface_list_remove true sys.worker p;
        })
    unfolding surface_fini destroy_swapchain is_window
    fini_lem = rw (surface_fini, destroy_swapchain, shown, at, served, made, shown, at, drawn) refl

    fini_gone :
        let r = free_surface lib display_at p (record {
          world = end_lists lib display_at p ended;
          worker = surface_list_remove true sys.worker p;
        }) in
        (r.world.surfaces p ≡ none)
        × (r.world.stopped ≡ sys.world.stopped)
        × (r.world.lib
            ≡ lib.queue_destroy t.tbm_queue
                (roundtrip lib fuel display_at s.display (flushed sys.world)).lib)
    unfolding free_surface
    fini_gone =
        let (there, on, destroyed) = end_queue_lem sys.world t at enough in
        let (on', same) = end_lists_lem ended (record t { tbm_queue = null }) there direct in
        (ground arith, on' ∙ on, same ∙ destroyed)

    -- After `__tpl_wayland_vk_wsi_surface_fini` of a window with a swapchain in a mode without
    -- vblanks, that stands once in the list of the worker thread, with the mutex of the thread, an
    -- open display that has its memory, and a round trip that is answered: its memory is gone and its
    -- queue destroyed, as the last call of the libraries, behind the round trip; no node of the
    -- worker's list has its address, and the others keep their order; and no assertion failed.
    pub surface_fini_releases :
        (before behind : List Ptr)
        → sys.worker.surface_list
          ≡ record { nodes = before ++ p ∷ behind; count = length (before ++ p ∷ behind) }
        → length (before ++ p ∷ behind) < 2 ^ 32
        → IsAbsent p before
        → IsAbsent p behind
        → (let r = surface_fini lib display_at fuel true s sys in
            (r.world.surfaces p ≡ none)
            × (r.world.stopped ≡ sys.world.stopped)
            × (r.world.lib
                ≡ lib.queue_destroy t.tbm_queue
                    (roundtrip lib fuel display_at s.display (flushed sys.world)).lib)
            × (r.worker.surface_list.nodes ≡ before ++ behind)
            × IsAbsent p r.worker.surface_list.nodes)
    unfolding free_surface surface_list_remove
    surface_fini_releases before behind listed small h k =
        let (gone, on, destroyed) = fini_gone in
        let left : (remove_data sys.worker.surface_list p first false).0.nodes ≡ before ++ behind =
          ap (λ l. (remove_data l p first false).0.nodes) listed
          ∙ ap (λ l. l.0.nodes) (remove_first_lem false p before behind _ refl small h) in
        rw fini_lem (
          gone,
          on,
          destroyed,
          left,
          subst (IsAbsent p) (sym left) (IsAbsent-append p before behind h k),
        )
