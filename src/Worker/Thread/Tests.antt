-- ===== src/Worker/Thread/Tests.antt =====
-- Runs of the worker thread on small inputs.
use libtpl_egl.Base.{
  ℕ, ◌+◌, ◌-◌, ◌≡◌, refl, true, false, not, none, some, List, [], ◌∷◌, ◌==◌, if◌then◌else◌,
}
use libtpl_egl.Types.{Ptr, null, done}
use libtpl_egl.TplList.{is_empty}
use libtpl_egl.Worker.{
  WorkerSurface, Kernel, Worker, signalled, wait_for, prepare_draw_wait_buffer, call_draw_done,
  surface_event, get_loop, acquire_loop,
}
use libtpl_egl.Worker.Loops.{from_queue, loops_agree}
use libtpl_egl.Worker.Thread.{
  Round, arrived, woken, walk, vblank_all, cb_vblank, loop_rounds, prepare_event_fd, thread_loop,
  cleanup, closed_fd, StartEnv,
}
use libtpl_egl.Worker.Thread.Waiting.{NeverNull, AllWaiting, loop_rounds-AllWaiting}
use libtpl_egl.Worker.Thread.Cleanup.{thread_closes, is_started, to_close}

-- A kernel whose calls succeed and change nothing, on a state that is a number of buffers.
abbrev kernel : Kernel ℕ
kernel = record {
  epoll_add = λ fd p n. (true, n);
  epoll_del = λ fd n. n;
  can_acquire = λ queue n. (not (n == 0), n);
  acquire = λ queue n. (true, n, n - 1);
  fence_wait = λ fd n. (signalled, n);
  read_event = λ n. n;
  write_event = λ n. n;
  tdm_events = λ n. n;
  vblank_wait = λ n. (true, n);
}

abbrev take : Ptr → ℕ → Ptr × ℕ
take surface n = (n, n - 1)

-- A surface that hands its buffers out, and that has a fence for the buffer 2 alone.
abbrev surface : WorkerSurface ℕ
surface = record {
  surface = 0x10;
  tbm_queue = 0x20;
  draw_done = some (λ s b r n. n);
  draw_wait_fd_get = some (λ s b n. (if b == 2 then some 7 else none, n));
  vblank = some (λ s sequence tv_sec tv_usec n. n + 1);
  draw_wait_buffer_get = some take;
  draw_wait_buffer = null;
}

abbrev worker : Worker ℕ
worker = record {
  running = true;
  event_fd = some 0;
  surface_list = record { nodes = 0x100 ∷ []; count = 1 };
  locked = false;
  support_vblank = true;
  store = λ p. surface;
}

abbrev rounds : List Round
rounds =
    (record { mutex_ok = true; events = woken true ∷ arrived true 0x100 ∷ [] })
    ∷ (record { mutex_ok = true; events = [] })
    ∷ []

-- Of the buffers 3, 2 and 1 the first has no fence, and the thread waits for the second.
prepared_run :
    prepare_draw_wait_buffer kernel 4 0x100 surface 3
    ≡ done (record surface { draw_wait_buffer = 2 }, 1)
unfolding prepare_draw_wait_buffer get_loop wait_for call_draw_done
prepared_run = refl

-- With the event the fence is signalled, and the thread waits for no buffer.
event_run :
    surface_event kernel true (record surface { draw_wait_buffer = 2 }) 1 ≡ done (surface, 1)
unfolding surface_event call_draw_done
event_run = refl

vblank_run : cb_vblank kernel true 0 0 0 worker 5 ≡ 6
unfolding cb_vblank vblank_all walk is_empty
vblank_run = refl

loop_rounds-AllWaiting_example :
    NeverNull (AllWaiting {S = ℕ}) (loop_rounds kernel 4 rounds worker 3)
loop_rounds-AllWaiting_example = loop_rounds-AllWaiting kernel 4 rounds worker 3 (λ p h. refl)

-- A start without an epoll descriptor closes the event descriptor 0 of zeroed memory.
not_started :
    thread_loop kernel
      (record { epoll_fd = none; event_fd = none; registered = true })
      4
      []
      worker
      3
    ≡ done (record worker { event_fd = none }, 3, 0 ∷ [])
unfolding thread_loop prepare_event_fd cleanup closed_fd
not_started = refl

abbrev start : StartEnv
start = record { epoll_fd = some 7; event_fd = some 8; registered = true }

thread_closes_example : thread_loop kernel start 4 [] worker 3 ≡ (
    if is_started start
    then done (
      record (record worker { event_fd = some 8; support_vblank = true }) { event_fd = none },
      3,
      to_close start worker.event_fd,
    )
    else done (record worker { event_fd = none }, 3, to_close start worker.event_fd))
unfolding loop_rounds
thread_closes_example =
    thread_closes kernel start 4 [] worker 3
      (record worker { event_fd = some 8; support_vblank = true }) 3 (λ e. refl)

loops_agree_example :
    acquire_loop kernel 4 0x100 surface 3
    ≡ get_loop kernel 4 0x100 surface (from_queue kernel 0x100 surface) 3
loops_agree_example = loops_agree kernel 0x100 surface 4 3
