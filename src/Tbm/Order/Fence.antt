-- ===== src/Tbm/Order/Fence.antt =====
-- The two halves of a round of the worker thread keep the order of the buffers of a surface.
use mathlib.Core.List.{append-nil, append_assoc}
use mathlib.Core.Path.{subst}
use libtpl_egl.Base.{
  length, ◌+◌, ℕ, ◌^◌, ◌<◌, ◌≤◌, ◌≡◌, refl, sym, ap, ◌∙◌, Bool, true, false, none, some, inl, inr,
  List, [], ◌∷◌, ◌++◌, arith, ◌==◌, Bool-cases, Option-cases,
}
use libtpl_egl.Types.{TplResult, error_none, invalid_operation, Ptr, null, Outcome, done}
use libtpl_egl.Worker.{
  WorkerSurface, Kernel, Fence, failed, signalled, timeout, get_loop, prepare_draw_wait_buffer,
  surface_event, call_draw_done,
}
use libtpl_egl.Tbm.{TbmLib, World}
use libtpl_egl.Tbm.Buffers.{draw_wait_fd_get, draw_wait_buffer_get}
use libtpl_egl.Tbm.Order.{
  Account, HasRoom, occurrences, held, Grows, Ahead, IsConnected, IsReliable,
}
use libtpl_egl.Tbm.Order.Calls.{
  IsReady-owned, room_before, Live-Moves, Ahead-Moves, draw_wait_fd_get-IsReady, draw_done_queues,
}
use libtpl_egl.Tbm.Order.Prepare.{get_loop-Ahead, call_draw_done_lem, reordered}

held-null :
    (xs : List Ptr) (b : Ptr) (l : List Ptr) → (b == null) ≡ true → xs ++ held b ++ l ≡ xs ++ l
held-null xs b l e = rw e (ap (λ x. x ++ l) (append-nil xs))

held_full :
    (xs : List Ptr) (b : Ptr) (l : List Ptr)
    → (b == null) ≡ false
    → xs ++ held b ++ l ≡ xs ++ b ∷ [] ++ l
held_full xs b l e = rw e refl

held-one : (b : Ptr) → (b == null) ≡ false → length (held b) ≡ 1
held-one b e = rw e refl

module _ {T : Type 0} (lib : TbmLib T) (kernel : Kernel (World T)) (p queue : Ptr) (acc : Account T)
    (r : IsReliable lib kernel p queue acc) (s : WorkerSurface (World T))
    (c : IsConnected lib acc p queue s) (q : (queue == null) ≡ false) (log : List Ptr) (most : ℕ)
    (room : HasRoom acc log) where
  -- A step that ends, with a surface that is still connected and has the buffers in the order.
  abbrev pub Keeps : World T → Outcome (WorkerSurface (World T) × World T) → Type 0
  Keeps w m =
      (a : WorkerSurface (World T) × World T) × (m ≡ done a)
      × IsConnected lib acc p queue a.0
      × Ahead lib acc p log most a.0.draw_wait_buffer a.1
      × Grows lib acc w a.1

  pub reconnected : (b : Ptr) → IsConnected lib acc p queue (record s { draw_wait_buffer = b })
  reconnected b = record {
    surface = c.surface;
    draw_done = c.draw_done;
    draw_wait_fd_get = c.draw_wait_fd_get;
    draw_wait_buffer_get = c.draw_wait_buffer_get;
  }

  prepared_lem :
      (fuel : ℕ) (w : World T) (a : Ptr × World T)
      → (s.draw_wait_buffer == null) ≡ true
      → get_loop kernel fuel p s (draw_wait_buffer_get lib p) w ≡ done a
      → prepare_draw_wait_buffer kernel fuel p s w ≡ done (record s { draw_wait_buffer = a.0 }, a.1)
  unfolding prepare_draw_wait_buffer
  prepared_lem fuel w a idle e = simp (prepare_draw_wait_buffer, idle, c.draw_wait_buffer_get, e)

  -- If the thread waits for no buffer afterwards, none is left in the list.
  pub prepare-Keeps :
      (fuel : ℕ) (w : World T)
      → most < fuel
      → fuel ≤ 2 ^ 32
      → Ahead lib acc p log most s.draw_wait_buffer w
      → (k : Keeps w (prepare_draw_wait_buffer kernel fuel p s w)) × ((k.0.0.draw_wait_buffer
              == null)
            ≡ true
          → Ahead lib acc p log 0 k.0.0.draw_wait_buffer k.0.1)
  unfolding prepare_draw_wait_buffer
  prepare-Keeps fuel w enough small h = elim (Bool-cases (s.draw_wait_buffer == null)) [
    | inr waits ↦ (
      ((s, w), rw (prepare_draw_wait_buffer, waits) refl, c, h, λ b k. k),
      λ x. absurd (ground arith),
    )
    | inl idle ↦
        let same = sym (held-null (acc.queued w.lib) s.draw_wait_buffer h.rest idle) ∙ h.order in
        let (a, e, ahead, grows, drained) =
          get_loop-Ahead lib kernel p queue acc r s c q fuel h.rest w
            (omega (arith, h.fewer, enough)) small
            (λ x. subst (λ y. occurrences x y ≤ occurrences x acc.whole) (sym same) (room x))
            h.live in
        (
          (
            (record s { draw_wait_buffer = a.0 }, a.1),
            prepared_lem fuel w a idle e,
            reconnected a.0,
            reordered lib acc p _ log (length h.rest) most a.0 a.1 same (omega (arith, h.fewer))
                ahead,
            grows,
          ),
          λ x. reordered lib acc p _ log 0 0 a.0 a.1 same (omega arith) (drained x),
        )
  ]

  -- The log of the queue has room for what is on its way.
  pub room_of :
      (b : Ptr) (w : World T)
      → Ahead lib acc p log most b w
      → occurrences b (acc.queued w.lib) ≤ occurrences b acc.whole
  room_of b w h =
      room_before b (acc.queued w.lib) (held b ++ h.rest) log acc.whole
        (sym (append_assoc (acc.queued w.lib) (held b) h.rest) ∙ h.order) (room b)

  pub valid_of :
      (b : Ptr) (w : World T)
      → (b == null) ≡ false
      → Ahead lib acc p log most b w
      → lib.is_valid b w.lib ≡ true
  valid_of b w full h =
      r.alive b w.lib (IsReady-owned lib kernel p queue acc r w b (h.waits full) (room_of b w h))

  -- The buffer for whose fence the thread waits is handed over.
  pub handed_over :
      (b : Ptr) (result : TplResult) (left : ℕ) (w : World T)
      → (b == null) ≡ false
      → most ≤ left + 1
      → Ahead lib acc p log most b w
      → Ahead lib acc p log left null (call_draw_done s b result w)
        × Grows lib acc w (call_draw_done s b result w)
  handed_over b result left w full one h =
      let (m, o) =
        draw_done_queues lib kernel p queue acc r s.surface b result h.rest w c.surface q h.live
          (h.waits full) (room_of b w h) in
      let done_lem = call_draw_done_lem lib kernel p queue acc r s c q b result w in
      rw done_lem (
        record {
          rest = h.rest;
          live = Live-Moves lib acc p h.rest w _ m h.live;
          waits = λ x. absurd (ground arith);
          order =
              ap (λ x. x ++ h.rest) (append-nil _ ∙ o)
              ∙ sym (held_full (acc.queued w.lib) b h.rest full)
              ∙ h.order;
          fewer = omega (arith, h.fewer, held-one b full, one);
        },
        m.ready,
      )

  event_fence :
      (n : ℕ) (w : World T)
      → (s.draw_wait_buffer == null) ≡ false
      → draw_wait_fd_get lib s.surface s.draw_wait_buffer w ≡ (some n, w)
      → (f : Fence) → (kernel.fence_wait n w).0 ≡ f
      → Ahead lib acc p log most s.draw_wait_buffer w
      → Keeps w (surface_event kernel true s w)
  unfolding surface_event
  event_fence n w waits e failed k h = (
    (s, (kernel.fence_wait n w).1),
    simp (surface_event, waits, c.draw_wait_fd_get, e, k),
    c,
    Ahead-Moves lib acc p log most s.draw_wait_buffer w (kernel.fence_wait n w).1 (r.wait n w)
        (r.wait_log n w) h,
    (r.wait n w).ready,
  )
  event_fence n w waits e timeout k h = (
    (s, (kernel.fence_wait n w).1),
    simp (surface_event, waits, c.draw_wait_fd_get, e, k),
    c,
    Ahead-Moves lib acc p log most s.draw_wait_buffer w (kernel.fence_wait n w).1 (r.wait n w)
        (r.wait_log n w) h,
    (r.wait n w).ready,
  )
  event_fence n w waits e signalled k h =
      let v = (kernel.fence_wait n w).1 in
      let v' = kernel.epoll_del n v in
      let (ahead, grows) = handed_over s.draw_wait_buffer error_none most v' waits (omega arith) (
        Ahead-Moves lib acc p log most s.draw_wait_buffer v v' (r.del n v) (r.del_log n v) (
          Ahead-Moves lib acc p log most s.draw_wait_buffer w v (r.wait n w) (r.wait_log n w) h)) in
      (
        (record s { draw_wait_buffer = null }, call_draw_done s s.draw_wait_buffer error_none v'),
        simp (surface_event, waits, c.draw_wait_fd_get, e, k),
        reconnected null,
        ahead,
        λ c k. grows c ((r.del n v).ready c ((r.wait n w).ready c k)),
      )

  pub event-Keeps :
      (readable : Bool) (w : World T)
      → Ahead lib acc p log most s.draw_wait_buffer w
      → Keeps w (surface_event kernel readable s w)
  unfolding surface_event
  event-Keeps false w h = ((s, w), refl, c, h, λ b k. k)
  event-Keeps true w h =
      let b = s.draw_wait_buffer in
      elim (Bool-cases (s.draw_wait_buffer == null)) [
        | inl idle ↦ ((s, w), rw (surface_event, idle) refl, c, h, λ b k. k)
        | inr waits ↦
            let (fd, e) =
              draw_wait_fd_get-IsReady lib acc s.surface b w (valid_of b w waits h)
                (h.waits waits) in
            elim (Option-cases fd) [
              | inl gone ↦
                  let e' : draw_wait_fd_get lib s.surface b w ≡ (none, w) =
                    e ∙ ap (λ f. (f, w)) gone in
                  let (ahead, grows) =
                    handed_over b invalid_operation most w waits (omega arith) h in
                  (
                    (record s { draw_wait_buffer = null }, call_draw_done s b invalid_operation w),
                    simp (surface_event, waits, c.draw_wait_fd_get, e'),
                    reconnected null,
                    ahead,
                    grows,
                  )
              | inr (n, there) ↦
                  let e' : draw_wait_fd_get lib s.surface b w ≡ (some n, w) =
                    e ∙ ap (λ f. (f, w)) there in
                  event_fence n w waits e' (kernel.fence_wait n w).0 refl h
            ]
      ]
