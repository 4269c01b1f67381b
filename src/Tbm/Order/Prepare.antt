-- ===== src/Tbm/Order/Prepare.antt =====
-- The loop of the worker thread over the list of a surface keeps the order of the buffers.
use mathlib.Core.List.{append-nil, append_assoc}
use mathlib.Core.Path.{subst}
use libtpl_egl.Base.{
  ℕ, zero, suc, ◌^◌, ◌<◌, ◌≤◌, ◌≡◌, refl, sym, ap, ◌∙◌, Bool, true, false, none, some, inl, inr,
  List, [], ◌∷◌, ◌++◌, arith, ◌==◌, if◌then◌else◌, length, Bool-cases, Option-cases,
}
use libtpl_egl.Types.{TplResult, invalid_operation, Ptr, null, done}
use libtpl_egl.Worker.{Fd, WorkerSurface, Kernel, call_draw_done, wait_for, get_loop}
use libtpl_egl.Tbm.{TbmLib, World}
use libtpl_egl.Tbm.Buffers.{draw_done, draw_wait_fd_get, draw_wait_buffer_get}
use libtpl_egl.Tbm.Order.{
  Account, HasRoom, occurrences, held, IsReady, Grows, Moves, Live, Ahead, IsConnected, IsReliable,
}
use libtpl_egl.Tbm.Order.Calls.{
  IsReady-owned, room_before, Moves-trans, Live-Moves, draw_wait_fd_get-IsReady, get_next, get_none,
  draw_done_queues,
}

ahead_of :
    (xs hs ys : List Ptr) (b : Ptr) (l : List Ptr)
    → xs ++ hs ≡ ys ++ b ∷ []
    → xs ++ hs ++ l ≡ ys ++ b ∷ l
ahead_of xs hs ys b l e = ap (λ x. x ++ l) e ∙ append_assoc ys (b ∷ []) l

held-short : (b : Ptr) → length (held b) ≤ 1
held-short b = elim (Bool-cases (b == null)) [
  | inl e ↦ rw e (omega arith)
  | inr e ↦ rw e (omega arith)
]

module _ {T : Type 0} (lib : TbmLib T) (acc : Account T) (p : Ptr) where
  pub reordered :
      (log log' : List Ptr) (most most' : ℕ) (b : Ptr) (w : World T)
      → log ≡ log'
      → most ≤ most'
      → Ahead lib acc p log most b w
      → Ahead lib acc p log' most' b w
  reordered log log' most most' b w e more h = record {
    rest = h.rest;
    live = h.live;
    waits = h.waits;
    order = h.order ∙ e;
    fewer = omega (arith, h.fewer, more);
  }

module _ {T : Type 0} (lib : TbmLib T) (kernel : Kernel (World T)) (p queue : Ptr) (acc : Account T)
    (r : IsReliable lib kernel p queue acc) (s : WorkerSurface (World T))
    (c : IsConnected lib acc p queue s) (q : (queue == null) ≡ false) where
  abbrev fd_of_buffer : Ptr → World T → Fd × World T
  fd_of_buffer b w = draw_wait_fd_get lib s.surface b w

  pub call_draw_done_lem :
      (b : Ptr) (result : TplResult) (w : World T)
      → call_draw_done s b result w ≡ draw_done lib p queue s.surface b result w
  unfolding call_draw_done
  call_draw_done_lem b result w = rw (call_draw_done, c.draw_done) refl

  waits_for_nothing :
      (b : Ptr) (w : World T)
      → fd_of_buffer b w ≡ (none, w)
      → wait_for kernel p s b w ≡ (false, draw_done lib p queue s.surface b invalid_operation w)
  unfolding wait_for
  waits_for_nothing b w e =
      simp (wait_for, call_draw_done_lem b invalid_operation w, c.draw_wait_fd_get, e)

  wait_for_added :
      (b : Ptr) (w : World T) (fd : ℕ)
      → fd_of_buffer b w ≡ (some fd, w)
      → (kernel.epoll_add fd p w).0 ≡ true
      → wait_for kernel p s b w ≡ (true, (kernel.epoll_add fd p w).1)
  unfolding wait_for
  wait_for_added b w fd e added =
      rw (wait_for, c.draw_wait_fd_get, e, c.draw_wait_fd_get, e, added) refl

  wait_for_refused :
      (b : Ptr) (w : World T) (fd : ℕ)
      → fd_of_buffer b w ≡ (some fd, w)
      → (kernel.epoll_add fd p w).0 ≡ false
      → wait_for kernel p s b w
        ≡ (false, draw_done lib p queue s.surface b invalid_operation (kernel.epoll_add fd p w).1)
  unfolding wait_for
  wait_for_refused b w fd e refused = simp (
    wait_for,
    call_draw_done_lem b invalid_operation (kernel.epoll_add fd p w).1,
    c.draw_wait_fd_get,
    e,
    refused,
  )

  abbrev Waited : Ptr → World T → Bool × World T → Type 0
  Waited b w (waits, w') =
      Moves lib acc p w w'
      × (acc.queued w'.lib ++ (if waits then b ∷ [] else []) ≡ acc.queued w.lib ++ b ∷ [])

  wait_for-Waited :
      (b : Ptr) (l : List Ptr) (w : World T)
      → Live lib acc p l w
      → IsReady lib acc w b
      → occurrences b (acc.queued w.lib) ≤ occurrences b acc.whole
      → Waited b w (wait_for kernel p s b w)
  wait_for-Waited b l w h ready room =
      let valid = r.alive b w.lib (IsReady-owned lib kernel p queue acc r w b ready room) in
      let (fd, e) = draw_wait_fd_get-IsReady lib acc s.surface b w valid ready in
      elim (Option-cases fd) [
        | inl gone ↦
            let e' : fd_of_buffer b w ≡ (none, w) = e ∙ ap (λ f. (f, w)) gone in
            let (m, o) =
              draw_done_queues lib kernel p queue acc r s.surface b invalid_operation l w c.surface
                q h ready room in
            rw (waits_for_nothing b w e') (m, append-nil _ ∙ o)
        | inr (n, there) ↦
            let e' : fd_of_buffer b w ≡ (some n, w) = e ∙ ap (λ f. (f, w)) there in
            let moved = r.add n w in
            elim (Bool-cases (kernel.epoll_add n p w).0) [
              | inl added ↦
                  rw (wait_for_added b w n e' added) (moved, ap (λ x. x ++ b ∷ []) (r.add_log n w))
              | inr refused ↦
                  let w' = (kernel.epoll_add n p w).1 in
                  let (m, o) =
                    draw_done_queues lib kernel p queue acc r s.surface b invalid_operation l w'
                      c.surface q (Live-Moves lib acc p l w w' moved h) (moved.ready b ready)
                      (rw (r.add_log n w) room) in
                  rw (wait_for_refused b w n e' refused) (
                    Moves-trans lib acc p w w' _ moved m,
                    append-nil _ ∙ o ∙ ap (λ x. x ++ b ∷ []) (r.add_log n w),
                  )
            ]
      ]

  -- The loop, with more fuel than the list has buffers, ends; the order of the buffers is kept.
  pub get_loop-Ahead :
      (fuel : ℕ) (l : List Ptr) (w : World T)
      → length l < fuel
      → fuel ≤ 2 ^ 32
      → HasRoom acc (acc.queued w.lib ++ l)
      → Live lib acc p l w
      → (a : Ptr × World T) × (get_loop kernel fuel p s (draw_wait_buffer_get lib p) w ≡ done a)
        × Ahead lib acc p (acc.queued w.lib ++ l) (length l) a.0 a.1
        × Grows lib acc w a.1
        × ((a.0 == null) ≡ true → Ahead lib acc p (acc.queued w.lib ++ l) 0 a.0 a.1)
  unfolding get_loop
  get_loop-Ahead zero l w enough small room h = absurd (omega arith)
  get_loop-Ahead (suc fuel) [] w enough small room h =
      let (w', e, live, same, grows) = get_none lib acc p s.surface w h in
      let ahead : Ahead lib acc p (acc.queued w.lib ++ []) 0 null w' = record {
        rest = [];
        live = live;
        waits = λ x. absurd (ground arith);
        order = ap (λ x. x ++ []) (append-nil _ ∙ ap acc.queued same);
        fewer = omega arith;
      } in
      ((null, w'), rw (get_loop, e) refl, ahead, grows, λ x. ahead)
  get_loop-Ahead (suc fuel) (b ∷ l) w enough small room h =
      let (w', e, live, ready, same, grows) =
        get_next lib acc p s.surface b l w (omega (arith, enough, small)) h in
      let here = room_before b (acc.queued w.lib) (b ∷ l) _ acc.whole refl (room b) in
      let moved =
        wait_for-Waited b l w' live ready
          (subst (λ t. occurrences b (acc.queued t) ≤ occurrences b acc.whole) (sym same) here) in
      let w'' = (wait_for kernel p s b w').1 in
      elim (Bool-cases (wait_for kernel p s b w').0) [
        | inl waits ↦ (
          (b, w''),
          rw (get_loop, e, ready.0, waits) refl,
          record {
            rest = l;
            live = Live-Moves lib acc p l w' w'' moved.0 live;
            waits = λ x. moved.0.ready b ready;
            order =
                rw ready.0 (
                  ahead_of _ (b ∷ []) _ b l (
                    subst
                      (λ x.
                        acc.queued w''.lib ++ (if x then b ∷ [] else [])
                        ≡ acc.queued w'.lib ++ b ∷ [])
                      waits moved.1))
                ∙ ap (λ t. acc.queued t ++ b ∷ l) same;
            fewer = omega (arith, held-short b);
          },
          λ c k. moved.0.ready c (grows c k),
          λ x. absurd (ground arith),
        )
        | inr passes ↦
            let handed : acc.queued w''.lib ≡ acc.queued w'.lib ++ b ∷ [] =
              sym (append-nil _)
              ∙ subst
                  (λ x.
                    acc.queued w''.lib ++ (if x then b ∷ [] else []) ≡ acc.queued w'.lib ++ b ∷ [])
                  passes moved.1 in
            let log =
              ap (λ x. x ++ l) handed
              ∙ append_assoc _ (b ∷ []) l
              ∙ ap (λ t. acc.queued t ++ b ∷ l) same in
            let (a, e', ahead, grows', drained) =
              get_loop-Ahead fuel l w'' (omega (arith, enough)) (omega (arith, small))
                (λ x. subst (λ y. occurrences x y ≤ occurrences x acc.whole) (sym log) (room x))
                (Live-Moves lib acc p l w' w'' moved.0 live) in
            (
              a,
              rw (get_loop, e, ready.0, passes) e',
              reordered lib acc p _ _ (length l) (suc (length l)) a.0 a.1 log (omega arith) ahead,
              λ c k. grows' c (moved.0.ready c (grows c k)),
              λ x. reordered lib acc p _ _ 0 0 a.0 a.1 log (omega arith) (drained x),
            )
      ]
