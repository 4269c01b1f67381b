-- ===== src/Tbm/Order/Drain.antt =====
-- An event of a fence that is signalled leaves one buffer less on its way.
use libtpl_egl.Base.{
  ◌≤◌, ℕ, ◌+◌, ℕ, ◌≤◌, ◌≡◌, refl, ap, ◌∙◌, true, false, none, some, inl, inr, List, arith, ◌==◌,
  Bool-cases, Option-cases,
}
use libtpl_egl.Types.{error_none, invalid_operation, Ptr, null, done}
use libtpl_egl.Worker.{WorkerSurface, Kernel, signalled, surface_event, call_draw_done}
use libtpl_egl.Tbm.{TbmLib, World}
use libtpl_egl.Tbm.Buffers.{draw_wait_fd_get}
use libtpl_egl.Tbm.Order.{Account, HasRoom, Ahead, IsConnected, IsReliable}
use libtpl_egl.Tbm.Order.Calls.{Ahead-Moves, draw_wait_fd_get-IsReady}
use libtpl_egl.Tbm.Order.Prepare.{reordered}
use libtpl_egl.Tbm.Order.Fence.{reconnected, valid_of, handed_over}

module _ {T : Type 0} (lib : TbmLib T) (kernel : Kernel (World T)) (p queue : Ptr) (acc : Account T)
    (r : IsReliable lib kernel p queue acc) (s : WorkerSurface (World T))
    (c : IsConnected lib acc p queue s) (q : (queue == null) ≡ false) (log : List Ptr) (most : ℕ)
    (room : HasRoom acc log) where
  -- With a kernel in which each fence is signalled, an event leaves one buffer less to wait for.
  pub event_drains :
      (left : ℕ) (w : World T)
      → ((fd : ℕ) (v : World T) → (kernel.fence_wait fd v).0 ≡ signalled)
      → most ≤ left + 1
      → ((s.draw_wait_buffer == null) ≡ true → Ahead lib acc p log 0 s.draw_wait_buffer w)
      → Ahead lib acc p log most s.draw_wait_buffer w
      → (a : WorkerSurface (World T) × World T) × (surface_event kernel true s w ≡ done a)
        × IsConnected lib acc p queue a.0
        × Ahead lib acc p log left a.0.draw_wait_buffer a.1
  unfolding surface_event
  event_drains left w all one empty h =
      let b = s.draw_wait_buffer in
      elim (Bool-cases (s.draw_wait_buffer == null)) [
        | inl idle ↦ (
          (s, w),
          rw (surface_event, idle) refl,
          c,
          reordered lib acc p log log 0 left b w refl (omega arith) (empty idle),
        )
        | inr waits ↦
            let (fd, e) =
              draw_wait_fd_get-IsReady lib acc s.surface b w
                (valid_of lib kernel p queue acc r s c q log most room b w waits h)
                (h.waits waits) in
            elim (Option-cases fd) [
              | inl gone ↦
                  let e' : draw_wait_fd_get lib s.surface b w ≡ (none, w) =
                    e ∙ ap (λ f. (f, w)) gone in
                  (
                    (record s { draw_wait_buffer = null }, call_draw_done s b invalid_operation w),
                    simp (surface_event, waits, c.draw_wait_fd_get, e'),
                    reconnected lib kernel p queue acc r s c q log most room null,
                    (handed_over lib kernel p queue acc r s c q log most room b invalid_operation
                        left w waits one h).0,
                  )
              | inr (n, there) ↦
                  let e' : draw_wait_fd_get lib s.surface b w ≡ (some n, w) =
                    e ∙ ap (λ f. (f, w)) there in
                  let v = (kernel.fence_wait n w).1 in
                  let v' = kernel.epoll_del n v in
                  (
                    (record s { draw_wait_buffer = null }, call_draw_done s b error_none v'),
                    simp (surface_event, waits, c.draw_wait_fd_get, e', all),
                    reconnected lib kernel p queue acc r s c q log most room null,
                    (handed_over lib kernel p queue acc r s c q log most room b error_none left v'
                        waits one
                        (Ahead-Moves lib acc p log most b v v' (r.del n v) (r.del_log n v) (
                          Ahead-Moves lib acc p log most b w v (r.wait n w) (r.wait_log n w) h))).0,
                  )
            ]
      ]
