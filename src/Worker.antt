-- ===== src/Worker.antt =====
-- The worker thread of src/tpl_worker_thread.c, which waits for the fences of posted buffers. A
-- worker surface is at an address in a store. What the thread calls of epoll, of the queues and
-- fences of libtbm, and through the function pointers of a surface acts on a state `S`.
pub mod Thread
pub mod Loops
use libtpl_egl.Base.{
  ℕ, zero, suc, Bool, true, false, not, ◌&&◌, ◌||◌, Option, none, some, List, [], ◌∷◌, ◌==◌,
  if◌then◌else◌, update,
}
use libtpl_egl.Types.{
  TplResult, error_none, invalid_operation, Ptr, null, Outcome, done, assertion_failed, null_call,
  out_of_fuel, ◌>>=◌,
}
use libtpl_egl.TplList.{TplList}
use libtpl_egl.TplList

-- A file descriptor; `none` is -1.
abbrev pub Fd : Type 0
Fd = Option ℕ

-- `struct __tpl_worker_surface`
pub record WorkerSurface (S : Type 0) : Type 0 where
  pub surface : Ptr
  pub tbm_queue : Ptr
  pub draw_done : Option (Ptr → Ptr → TplResult → S → S)
  pub draw_wait_fd_get : Option (Ptr → Ptr → S → Fd × S)
  pub vblank : Option (Ptr → (sequence tv_sec tv_usec : ℕ) → S → S)
  pub draw_wait_buffer_get : Option (Ptr → S → Ptr × S)
  pub draw_wait_buffer : Ptr

-- The result of `tbm_sync_fence_wait`: 0, 1, -1.
pub data Fence : Type 0 where
  failed signalled timeout : Fence

-- What the thread calls outside of its own code: `epoll_ctl` with EPOLL_CTL_ADD, which says whether
-- it succeeded, and with EPOLL_CTL_DEL, the queue and the fence of libtbm, the `read` of the event
-- descriptor, and libtdm, whose `tdm_client_vblank_wait` says whether it succeeded.
pub record Kernel (S : Type 0) : Type 0 where
  pub epoll_add : ℕ → Ptr → S → Bool × S
  pub epoll_del : ℕ → S → S
  pub can_acquire : Ptr → S → Bool × S
  pub acquire : Ptr → S → Bool × Ptr × S
  pub fence_wait : ℕ → S → Fence × S
  pub read_event : S → S
  pub write_event : S → S
  pub tdm_events : S → S
  pub vblank_wait : S → Bool × S

-- The global `tpl_worker_thread`, with the store of the surfaces.
pub record Worker (S : Type 0) : Type 0 where
  pub running : Bool
  pub event_fd : Fd
  pub surface_list : TplList
  pub locked : Bool
  pub support_vblank : Bool
  pub store : Ptr → WorkerSurface S

module _ {S : Type 0} where
  -- `if (surface->draw_done) surface->draw_done(...)`
  unfoldable pub call_draw_done : WorkerSurface S → Ptr → TplResult → S → S
  call_draw_done s buffer result state = elim s.draw_done [
    | none ↦ state
    | some f ↦ f s.surface buffer result state
  ]

  -- `__tpl_worker_surface_list_insert`; `mutex_ok` says that the lock succeeds, and
  -- `node_allocated` that `malloc` does.
  unfoldable pub surface_list_insert :
      (mutex_ok node_allocated : Bool) → Worker S → Ptr → Outcome (Worker S)
  surface_list_insert mutex_ok node_allocated w p =
      if (w.store p).surface == null
      then assertion_failed
      else if not mutex_ok
      then done w
      else done (record w {
        store = update w.store p (record (w.store p) { draw_wait_buffer = null });
        surface_list = (TplList.push_back node_allocated w.surface_list p).1;
      })

  -- `__tpl_worker_surface_list_remove`
  unfoldable pub surface_list_remove : (mutex_ok : Bool) → Worker S → Ptr → Worker S
  surface_list_remove mutex_ok w p =
      if not mutex_ok
      then w
      else record w { surface_list = (TplList.remove_data w.surface_list p TplList.first false).0 }

module _ {S : Type 0} (kernel : Kernel S) where
  -- `__tpl_worker_event_send`
  unfoldable pub event_send : Worker S → S → S
  event_send w state = elim w.event_fd [ none ↦ state | some fd ↦ kernel.write_event state ]

  -- `__tpl_worker_new_buffer_notify`
  unfoldable pub new_buffer_notify : Worker S → Ptr → S → Outcome S
  unfolding event_send
  new_buffer_notify w p state =
      if (w.store p).surface == null then assertion_failed else done (event_send w state)

  -- The body of the first loop of `__tpl_worker_prepare_draw_wait_buffer`: whether the thread waits
  -- for the fence of the buffer. If not, the buffer is handed over to `draw_done`. `wait_fd` is -1
  -- unless `draw_wait_fd_get` sets it.
  unfoldable pub wait_for : Ptr → WorkerSurface S → Ptr → S → Bool × S
  unfolding call_draw_done
  wait_for p s buffer state =
      let (wait_fd, state₁) : Fd × S = elim s.draw_wait_fd_get [
        | none ↦ (none, state)
        | some f ↦ f s.surface buffer state
      ] in
      elim wait_fd [
        | none ↦ (false, call_draw_done s buffer invalid_operation state₁)
        | some fd ↦
            let (added, state₂) = kernel.epoll_add fd p state₁ in
            if added
            then (true, state₂)
            else (false, call_draw_done s buffer invalid_operation state₂)
      ]

  -- The body of the second loop, behind the acquisition of the buffer.
  unfoldable pub wait_for_acquired : Ptr → WorkerSurface S → Ptr → S → Bool × S
  unfolding call_draw_done
  wait_for_acquired p s buffer state =
      let (wait_fd, state₁) : Fd × S = elim s.draw_wait_fd_get [
        | none ↦ (none, state)
        | some f ↦ f s.surface buffer state
      ] in
      elim wait_fd [
        | none ↦ (false, call_draw_done s buffer invalid_operation state₁)
        | some fd ↦
            let (added, state₂) = kernel.epoll_add fd p state₁ in
            if added
            then (true, state₂)
            else (false, call_draw_done s buffer invalid_operation state₂)
      ]

  -- Its loop over the buffers of `draw_wait_buffer_get`: the buffer for whose fence the thread
  -- waits, NULL if there is none.
  unfoldable pub get_loop :
      (fuel : ℕ) → Ptr → WorkerSurface S → (Ptr → S → Ptr × S) → S → Outcome (Ptr × S)
  unfolding wait_for
  get_loop zero p s get state = out_of_fuel
  get_loop (suc fuel) p s get state =
      let (buffer, state₁) = get s.surface state in
      let (waits, state₂) = wait_for p s buffer state₁ in
      let rest = get_loop fuel p s get state₂ in
      if buffer == null then done (null, state₁) else if waits then done (buffer, state₂) else rest

  -- Its loop over the buffers of the queue.
  unfoldable pub acquire_loop : (fuel : ℕ) → Ptr → WorkerSurface S → S → Outcome (Ptr × S)
  unfolding wait_for_acquired
  acquire_loop zero p s state = out_of_fuel
  acquire_loop (suc fuel) p s state =
      let (can, state₁) = kernel.can_acquire s.tbm_queue state in
      let (acquired, buffer, state₂) = kernel.acquire s.tbm_queue state₁ in
      let (waits, state₃) = wait_for_acquired p s buffer state₂ in
      let rest = acquire_loop fuel p s state₃ in
      if not can
      then done (null, state₁)
      else if not acquired || buffer == null
      then done (null, state₂)
      else if waits
      then done (buffer, state₃)
      else rest

  -- `__tpl_worker_prepare_draw_wait_buffer`
  unfoldable pub prepare_draw_wait_buffer :
      (fuel : ℕ) → Ptr → WorkerSurface S → S → Outcome (WorkerSurface S × S)
  unfolding get_loop acquire_loop
  prepare_draw_wait_buffer fuel p s state =
      if not (s.draw_wait_buffer == null) then done (s, state) else do
        (buffer, state') ← elim s.draw_wait_buffer_get [
          | none ↦ acquire_loop fuel p s state
          | some get ↦ get_loop fuel p s get state
        ]
        done (record s { draw_wait_buffer = buffer }, state')

  -- The part of `__tpl_worker_thread_loop` for an event on a surface. `readable` is EPOLLIN.
  unfoldable pub surface_event :
      (readable : Bool) → WorkerSurface S → S → Outcome (WorkerSurface S × S)
  unfolding call_draw_done
  surface_event readable s state =
      if not readable
      then done (s, state)
      else if s.draw_wait_buffer == null
      then done (s, state)
      else elim s.draw_wait_fd_get [
        | none ↦ null_call
        | some f ↦
            let (wait_fd, state₁) = f s.surface s.draw_wait_buffer state in
            elim wait_fd [
              | none ↦ done (
                record s { draw_wait_buffer = null },
                call_draw_done s s.draw_wait_buffer invalid_operation state₁,
              )
              | some fd ↦
                  let (fence, state₂) = kernel.fence_wait fd state₁ in
                  elim fence [
                    | failed ↦ done (s, state₂)
                    | timeout ↦ done (s, state₂)
                    | signalled ↦ done (
                      record s { draw_wait_buffer = null },
                      call_draw_done s s.draw_wait_buffer error_none (kernel.epoll_del fd state₂),
                    )
                  ]
            ]
      ]
