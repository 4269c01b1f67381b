-- ===== src/Tbm/Order/Post.antt =====
-- `__tpl_tbm_surface_enqueue_buffer` puts the buffer behind all others on their way.
use mathlib.Core.List.{append_assoc}
use libtpl_egl.Base.{
  ℕ, ◌+◌, ◌^◌, ◌<◌, ◌≤◌, ◌≡◌, refl, sym, ap, ◌∙◌, Bool, true, false, ◌||◌, some, inl, inr, List, [],
  ◌∷◌, ◌++◌, arith, ◌==◌, All, length, length-append, update, Option-cases,
}
use libtpl_egl.Types.{error_none, Ptr, null}
use libtpl_egl.TplList.{push_back, count_up}
use libtpl_egl.Worker.{Fd, Worker, Kernel, event_send}
use libtpl_egl.Surface.{Surface, Damage}
use libtpl_egl.Tbm.{TbmLib, TbmSurface, World, System}
use libtpl_egl.Tbm.Buffers.{get_tbm_buffer, set_tbm_buffer, push, put_surface, with_waiting}
use libtpl_egl.Tbm.Surface.{enqueue_buffer, hand_to_worker, is_vulkan_wsi, is_pixmap, fd_of}
use libtpl_egl.Tbm.Order.{
  Account, HasRoom, occurrences, held, IsReady, Grows, Moves, Live, Ahead, IsReliable,
}
use libtpl_egl.Tbm.Order.Calls.{
  occurrences-append, Moves-refl, Ahead-Moves, All-IsReady, known_update, none_known,
}

-- The log has room for one more of a buffer that is posted.
posted_room :
    (b : Ptr) (log xs ys zs whole : List Ptr)
    → xs ++ ys ++ zs ≡ log
    → occurrences b (log ++ b ∷ []) ≤ occurrences b whole
    → occurrences b xs + 1 ≤ occurrences b whole
posted_room b log xs ys zs whole e h =
    let one : occurrences b (b ∷ []) ≡ 1 = ground arith in
    omega (
      arith,
      occurrences-append b (xs ++ ys) zs,
      occurrences-append b xs ys,
      occurrences-append b log (b ∷ []),
      ap (occurrences b) e,
      one,
      h,
    )

push_lem :
    (l : List Ptr) (b : Ptr)
    → length l + 1 < 2 ^ 32
    → (push_back true (record { nodes = l; count = length l }) b).1
      ≡ record { nodes = l ++ b ∷ []; count = length (l ++ b ∷ []) }
unfolding push_back count_up
push_lem l b small =
    ap (λ n. record { nodes = l ++ b ∷ []; count = n }) (omega (arith, length-append l (b ∷ [])))

module _ {T : Type 0} (lib : TbmLib T) (kernel : Kernel (World T)) (p queue : Ptr) (acc : Account T)
    (r : IsReliable lib kernel p queue acc) where
  All-append :
      (w : World T) (l : List Ptr) (b : Ptr)
      → All (IsReady lib acc w) l
      → IsReady lib acc w b
      → All (IsReady lib acc w) (l ++ b ∷ [])
  All-append w [] b h k = (k, tt)
  All-append w (c ∷ l) b h k = (h.0, All-append w l b h.1 k)

  notified-Moves :
      (worker : Worker (World T)) (w : World T)
      → Moves lib acc p w (event_send kernel worker w)
        × (acc.queued (event_send kernel worker w).lib ≡ acc.queued w.lib)
  unfolding event_send
  notified-Moves worker w = elim (Option-cases worker.event_fd) [
    | inl e ↦ rw e (Moves-refl lib acc p w, refl)
    | inr (fd, e) ↦ rw e (r.write w, r.write_log w)
  ]

  -- The world after the push of a post, and the order of the buffers in it.
  abbrev pushed : TbmSurface → Ptr → Fd → World T → World T
  pushed t b fence w =
      put_surface
        (record w {
          lib = (lib.allocated (lib.ref b (lib.unref b w.lib))).1;
          buffers = update w.buffers b (some fence);
        })
        p (with_waiting t (push_back true t.draw_waiting_queue b).1)

  pushed-Grows :
      (t : TbmSurface) (b : Ptr) (fence : Fd) (w : World T) → Grows lib acc w (pushed t b fence w)
  pushed-Grows t b fence w c (full, owned, known) = (
    full,
    rw
        (
          r.memory_log (lib.ref b (lib.unref b w.lib)),
          r.ref b (lib.unref b w.lib),
          r.unref b w.lib,
          r.memory_refs c (lib.ref b (lib.unref b w.lib)),
          r.ref_refs b c (lib.unref b w.lib),
          r.unref_refs b c w.lib,
        )
        (omega arith),
    known_update w.buffers b c fence known,
  )

  pushed-Ahead :
      (log : List Ptr) (most : ℕ) (held_buffer b : Ptr) (fence : Fd) (w : World T)
      (h : Ahead lib acc p log most held_buffer w)
      → IsReady lib acc w b
      → most + 1 < 2 ^ 32
      → Ahead lib acc p (log ++ b ∷ []) (most + 1) held_buffer (pushed h.live.surface b fence w)
  pushed-Ahead log most held_buffer b fence w h ready small =
      let w' = pushed h.live.surface b fence w in
      let grows = pushed-Grows h.live.surface b fence w in
      record {
        rest = h.rest ++ b ∷ [];
        live = record {
          running = h.live.running;
          surface =
              with_waiting h.live.surface (push_back true h.live.surface.draw_waiting_queue b).1;
          at = ground arith;
          waiting = rw h.live.waiting (push_lem h.rest b (omega (arith, h.fewer)));
          mode = h.live.mode;
          ready =
              All-append w' h.rest b (All-IsReady lib acc w w' h.rest grows h.live.ready)
                (grows b ready);
        };
        waits = λ full. grows held_buffer (h.waits full);
        order =
            ap (λ x. x ++ held held_buffer ++ (h.rest ++ b ∷ []))
              (r.memory_log _ ∙ r.ref b _ ∙ r.unref b _)
            ∙ sym (append_assoc (acc.queued w.lib ++ held held_buffer) h.rest (b ∷ []))
            ∙ ap (λ x. x ++ b ∷ []) h.order;
        fewer = omega (arith, h.fewer, length-append h.rest (b ∷ []));
      }

  module _ (mutex_ok : Bool) (display_handle : Ptr → Ptr) where
    hand_to_worker_lem :
        (t : TbmSurface) (b : Ptr) (sys : System T)
        → ((sys.worker.store p).surface == null) ≡ false
        → hand_to_worker lib kernel mutex_ok display_handle p t b sys ≡ (
          error_none,
          record {
            world = event_send kernel sys.worker (
                put_surface
                  (record sys.world { lib = (lib.allocated (lib.ref b sys.world.lib)).1 })
                  p
                  (with_waiting t (push_back true t.draw_waiting_queue b).1));
            worker = sys.worker;
          },
        )
    unfolding hand_to_worker push
    hand_to_worker_lem t b sys connected = simp (hand_to_worker, push, r.memory, connected)

module _ {T : Type 0} (lib : TbmLib T) (kernel : Kernel (World T)) (queue : Ptr) (acc : Account T)
    (mutex_ok : Bool) (display_handle : Ptr → Ptr) (s : Surface)
    (r : IsReliable lib kernel s.backend_data queue acc)
    (shown : (s.display == null || display_handle s.display == null) ≡ false)
    (wsi : is_vulkan_wsi s.backend_type ≡ true) (drawn : is_pixmap s.type ≡ false) where
  post_lem :
      (b : Ptr) (d : Damage) (sys : System T) (l : List Ptr)
      (h : Live lib acc s.backend_data l sys.world)
      → occurrences b (acc.queued sys.world.lib) + 1 ≤ occurrences b acc.whole
      → ((sys.worker.store s.backend_data).surface == null) ≡ false
      → IsReady lib acc sys.world b
      → enqueue_buffer lib kernel mutex_ok display_handle b d s sys ≡ (
        error_none,
        s,
        record {
          world = event_send kernel sys.worker (
              pushed lib kernel s.backend_data queue acc r h.surface b
                (fd_of d.sync_fence)
                sys.world);
          worker = sys.worker;
        },
      )
  unfolding enqueue_buffer get_tbm_buffer set_tbm_buffer
  post_lem b d sys l h room connected (full, owned, known) =
      elim (Option-cases (sys.world.buffers b)) [
        | inl e ↦ absurd (none_known known e)
        | inr (old, e) ↦
            let sys₁ : System T = record sys {
              world = record sys.world {
                lib = lib.unref b sys.world.lib;
                buffers = update sys.world.buffers b (some (fd_of d.sync_fence));
              };
            } in
            simp
              (
                enqueue_buffer,
                shown,
                full,
                r.alive b sys.world.lib (omega arith),
                drawn,
                wsi,
                get_tbm_buffer,
                r.alive b (lib.unref b sys.world.lib)
                    (rw (r.unref_refs b b sys.world.lib) (ground arith)),
                e,
              )
              (rw
                (
                  h.at,
                  hand_to_worker_lem lib kernel s.backend_data queue acc r mutex_ok display_handle
                      h.surface b sys₁ connected,
                )
                refl)
      ]

  -- A post of a buffer that the backend knows succeeds, and puts the buffer behind all others.
  pub post_keeps :
      (b : Ptr) (d : Damage) (sys : System T) (log : List Ptr) (most : ℕ) (held_buffer : Ptr)
      → ((sys.worker.store s.backend_data).surface == null) ≡ false
      → IsReady lib acc sys.world b
      → HasRoom acc (log ++ b ∷ [])
      → most + 1 < 2 ^ 32
      → Ahead lib acc s.backend_data log most held_buffer sys.world
      → (w : World T) × (enqueue_buffer lib kernel mutex_ok display_handle b d s sys
          ≡ (error_none, s, record { world = w; worker = sys.worker }))
        × Ahead lib acc s.backend_data (log ++ b ∷ []) (most + 1) held_buffer w
        × Grows lib acc sys.world w
  post_keeps b d sys log most held_buffer connected ready room small h =
      let fence = fd_of d.sync_fence in
      let p = s.backend_data in
      let w = pushed lib kernel p queue acc r h.live.surface b fence sys.world in
      let (m, e) = notified-Moves lib kernel p queue acc r sys.worker w in
      (
        event_send kernel sys.worker w,
        post_lem b d sys h.rest h.live
            (posted_room b log (acc.queued sys.world.lib) (held held_buffer) h.rest acc.whole
              h.order (room b))
            connected ready,
        Ahead-Moves lib acc p (log ++ b ∷ []) (most + 1) held_buffer w _ m e (
            pushed-Ahead lib kernel p queue acc r log most held_buffer b fence sys.world h ready
              small),
        λ c k.
            m.ready c (pushed-Grows lib kernel p queue acc r h.live.surface b fence sys.world c k),
      )
