-- ===== src/Tbm/Ends.antt =====
-- What the functions of src/tpl_tbm.c leave when they end or fail.
use mathlib.Core.Path.{subst}
use libtpl_egl.Base.{
  ℕ, zero, suc, ◌+◌, ◌^◌, ◌<◌, ◌≤◌, ◌≡◌, ◌≢◌, refl, sym, ap, ◌∙◌, Bool, true, false, none, some,
  inl, inr, List, [], ◌∷◌, ◌++◌, arith, ◌==◌, length, Bool-cases,
}
use libtpl_egl.Types.{error_none, Ptr, null}
use libtpl_egl.TplList.{first, remove_data}
use libtpl_egl.TplList.Removal.{IsAbsent, IsAbsent-append, remove_first_lem}
use libtpl_egl.Worker.{Kernel, surface_list_remove}
use libtpl_egl.Surface.{Surface}
use libtpl_egl.Tbm.{TbmLib, TbmSurface, World, System}
use libtpl_egl.Tbm.Swapchain.{dequeue_all, release_all, get_swapchain_buffers, destroy_swapchain}
use libtpl_egl.Tbm.Surface.{surface_fini, free_surface}

module _ {T : Type 0} (lib : TbmLib T) (kernel : Kernel (World T)) (mutex_ok : Bool)
    (display_handle : Ptr → Ptr) where
  module _ (s : Surface) (sys : System T) (t : TbmSurface)
      (at : sys.world.surfaces s.backend_data ≡ some t) (needed : t.need_worker_clear ≡ true)
      (shown : (s.display == null) ≡ false) (locked : mutex_ok ≡ true) where
    fini_list :
        (surface_fini lib kernel mutex_ok display_handle s sys).worker.surface_list.nodes
        ≡ (remove_data sys.worker.surface_list s.backend_data first false).0.nodes
    unfolding surface_fini destroy_swapchain surface_list_remove free_surface
    fini_list =
        simp (surface_fini, destroy_swapchain, surface_list_remove, at, needed, shown, locked)

    fini_gone :
        (surface_fini lib kernel mutex_ok display_handle s sys).world.surfaces s.backend_data ≡ none
    unfolding surface_fini destroy_swapchain free_surface
    fini_gone = ground arith

  -- After `__tpl_tbm_surface_fini` of a surface that has a swapchain, stands once in the list of
  -- the worker thread, and has a display, with the mutex of the thread: its memory is gone, and no
  -- node of the list has its address; the others keep their order.
  pub surface_fini_unlists :
      (s : Surface) (sys : System T) (t : TbmSurface) (before behind : List Ptr)
      → sys.world.surfaces s.backend_data ≡ some t
      → t.need_worker_clear ≡ true
      → (s.display == null) ≡ false
      → mutex_ok ≡ true
      → sys.worker.surface_list ≡ record {
        nodes = before ++ s.backend_data ∷ behind;
        count = length (before ++ s.backend_data ∷ behind);
      }
      → length (before ++ s.backend_data ∷ behind) < 2 ^ 32
      → IsAbsent s.backend_data before
      → IsAbsent s.backend_data behind
      → (let r = surface_fini lib kernel mutex_ok display_handle s sys in
          (r.world.surfaces s.backend_data ≡ none)
          × (r.worker.surface_list.nodes ≡ before ++ behind)
          × IsAbsent s.backend_data r.worker.surface_list.nodes)
  surface_fini_unlists s sys t before behind at needed shown locked listed small h k =
      let r = surface_fini lib kernel mutex_ok display_handle s sys in
      let left : r.worker.surface_list.nodes ≡ before ++ behind =
        fini_list s sys t at needed shown locked
        ∙ ap (λ l. (remove_data l s.backend_data first false).0.nodes) listed
        ∙ ap (λ l. l.0.nodes)
            (remove_first_lem false s.backend_data before behind _ refl small h) in
      (
        fini_gone s sys t at needed shown locked,
        left,
        subst (IsAbsent s.backend_data) (sym left)
            (IsAbsent-append s.backend_data before behind h k),
      )

module _ {T : Type 0} (lib : TbmLib T) (queue : Ptr) (taken : T → ℕ)
    (dequeue_takes : (t : T)
      → (lib.dequeue queue t).0 ≡ true
      → taken (lib.dequeue queue t).2 ≡ taken t + 1)
    (dequeue_fails : (t : T)
      → (lib.dequeue queue t).0 ≡ false
      → taken (lib.dequeue queue t).2 ≡ taken t)
    (release_works : (b : Ptr) (t : T) → (lib.release queue b t).0 ≡ true)
    (release_gives : (b : Ptr) (t : T)
      → 0 < taken t
      → taken (lib.release queue b t).1 + 1 ≡ taken t)
    (allocated_keeps : (t : T) → taken (lib.allocated t).1 ≡ taken t) where
  dequeue_all-taken :
      (n : ℕ) (t : T)
      → (taken (dequeue_all lib n queue t).2 ≡ taken t + length (dequeue_all lib n queue t).1)
        × ((dequeue_all lib n queue t).0 ≡ true → length (dequeue_all lib n queue t).1 ≡ n)
  unfolding dequeue_all
  dequeue_all-taken zero t = (omega arith, λ h. refl)
  dequeue_all-taken (suc n) t =
      let t₁ = (lib.dequeue queue t).2 in
      let (k, l) = dequeue_all-taken n t₁ in
      elim (Bool-cases (lib.dequeue queue t).0) [
        | inl ok ↦
            rw (dequeue_all, ok) (omega (arith, k, dequeue_takes t ok), λ h. omega (arith, l h))
        | inr no_buffer ↦
            rw (dequeue_all, no_buffer)
              (omega (arith, dequeue_fails t no_buffer), λ h. absurd (ground arith))
      ]

  release_all-taken :
      (bs : List Ptr) (t : T)
      → length bs ≤ taken t
      → ((release_all lib bs queue t).0 ≡ true)
        × (taken (release_all lib bs queue t).1 + length bs ≡ taken t)
  unfolding release_all
  release_all-taken [] t few = (refl, omega arith)
  release_all-taken (b ∷ bs) t few =
      let t₁ = (lib.release queue b t).1 in
      let one_less = release_gives b t (omega (arith, few)) in
      let (k, l) = release_all-taken bs t₁ (omega (arith, few, one_less)) in
      rw (release_all, release_works b t) (k, omega (arith, l, one_less))

  -- With a queue whose releases succeed: `__tpl_tbm_surface_get_swapchain_buffers` leaves as many
  -- buffers dequeued as before, whatever fails, and if it succeeds it gives as many buffers as the queue
  -- has, else none.
  pub get_swapchain_buffers_balanced :
      (s : Surface) (sys : System T)
      → s.native_handle ≡ queue
      → (queue == null) ≡ false
      → (let r = get_swapchain_buffers lib s sys in
          (taken r.2.world.lib ≡ taken sys.world.lib)
          × (r.0.0 ≡ error_none → length r.0.1 ≡ lib.queue_size queue sys.world.lib)
          × (r.0.0 ≢ error_none → r.0.1 ≡ []))
  unfolding get_swapchain_buffers
  get_swapchain_buffers_balanced s sys here there =
      let n = lib.queue_size queue sys.world.lib in
      let state = (lib.allocated sys.world.lib).1 in
      let d = dequeue_all-taken n state in
      let r =
        release_all-taken (dequeue_all lib n queue state).1 (dequeue_all lib n queue state).2
          (omega (arith, d.0)) in
      let a = allocated_keeps sys.world.lib in
      let gone : (s.native_handle == null) ≡ false = rw here there in
      elim (Bool-cases (lib.allocated sys.world.lib).0) [
        | inr no_memory ↦
            rw (get_swapchain_buffers, here, there, no_memory)
              (a, λ h. absurd (ground arith), λ h. refl)
        | inl memory ↦ elim (Bool-cases (dequeue_all lib n queue state).0) [
          | inl all_there ↦
              rw (get_swapchain_buffers, here, there, memory, all_there, r.0)
                (omega (arith, a, d.0, r.1), λ h. d.1 all_there, λ h. absurd (h refl))
          | inr lost ↦
              rw (get_swapchain_buffers, here, there, memory, lost)
                (omega (arith, a, d.0, r.1), λ h. absurd (ground arith), λ h. refl)
        ]
      ]
