-- ===== src/Worker/Thread.antt =====
-- The rounds of `__tpl_worker_thread_loop` in src/tpl_worker_thread.c, its start and its end.
pub mod Waiting
pub mod Cleanup
mod Tests
use libtpl_egl.Base.{
  ℕ, Bool, true, false, not, ◌&&◌, ◌||◌, Option, none, some, List, [], ◌∷◌, ◌++◌, ◌==◌,
  if◌then◌else◌, update,
}
use libtpl_egl.Types.{Ptr, null, Outcome, done, assertion_failed, ◌>>=◌}
use libtpl_egl.TplList.{TplList}
use libtpl_egl.TplList
use libtpl_egl.Worker.{
  Fd, WorkerSurface, Kernel, Worker, prepare_draw_wait_buffer, surface_event, event_send,
}

-- The nodes that a walk from `__tpl_list_get_front_node` by `__tpl_list_node_next` meets.
unfoldable pub walk : TplList → List Ptr
walk l = if TplList.is_empty l then [] else l.nodes

-- An event of `epoll_wait`, by its `data.ptr`: the event descriptor, or what else was registered.
-- `readable` is EPOLLIN.
pub data Event : Type 0 where
  woken : (readable : Bool) → Event
  arrived : (readable : Bool) → Ptr → Event

-- One round of the loop as the environment shapes it: whether the mutex is locked, and the events.
pub record Round : Type 0 where
  pub mutex_ok : Bool
  pub events : List Event

-- What the start of the thread meets: the results of `epoll_create`, of `eventfd` and of the
-- registration of the event descriptor.
pub record StartEnv : Type 0 where
  pub epoll_fd : Fd
  pub event_fd : Fd
  pub registered : Bool

-- `__tpl_worker_prepare_event_fd`: the descriptor, and those that it closes.
pub prepare_event_fd : StartEnv → Fd × List ℕ
prepare_event_fd env = elim env.event_fd [
  | none ↦ (none, [])
  | some fd ↦ if env.registered then (some fd, []) else (none, fd ∷ [])
]

-- `if (fd != -1) close(fd)`
pub closed_fd : Fd → List ℕ
closed_fd none = []
closed_fd (some fd) = fd ∷ []

module _ {S : Type 0} (kernel : Kernel S) where
  -- The loop of `__tpl_worker_cb_vblank`.
  pub vblank_all : List Ptr → (sequence tv_sec tv_usec : ℕ) → Worker S → S → S
  vblank_all [] sequence tv_sec tv_usec w state = state
  vblank_all (p ∷ ps) sequence tv_sec tv_usec w state =
      vblank_all ps sequence tv_sec tv_usec w (elim (w.store p).vblank [
        | none ↦ state
        | some f ↦ f (w.store p).surface sequence tv_sec tv_usec state
      ])

  -- `__tpl_worker_cb_vblank`, with the call of `__tpl_worker_regist_vblank_handler` at its end.
  pub cb_vblank : (mutex_ok : Bool) → (sequence tv_sec tv_usec : ℕ) → Worker S → S → S
  unfolding vblank_all walk
  cb_vblank mutex_ok sequence tv_sec tv_usec w state =
      if not mutex_ok
      then state
      else (kernel.vblank_wait (vblank_all (walk w.surface_list) sequence tv_sec tv_usec w state)).1

  -- The first half of a round: the surfaces of the list, one by one.
  unfoldable pub prepare_all : (fuel : ℕ) → List Ptr → Worker S → S → Outcome (Worker S × S)
  prepare_all fuel [] w state = done (w, state)
  prepare_all fuel (p ∷ ps) w state = if p == null then assertion_failed else do
    (s, state') ← prepare_draw_wait_buffer kernel fuel p (w.store p) state
    prepare_all fuel ps (record w { store = update w.store p s }) state'

  -- The second half of a round: one event. The client of libtdm is never made, so that
  -- `tdm_client` is NULL.
  unfoldable pub handle_event : (tdm_client : Ptr) → Event → Worker S → S → Outcome (Worker S × S)
  handle_event tdm_client (woken readable) w state =
      done (w, if readable then kernel.read_event state else state)
  handle_event tdm_client (arrived readable p) w state =
      if p == tdm_client then done (w, kernel.tdm_events state) else do
        (s, state') ← surface_event kernel readable (w.store p) state
        done (record w { store = update w.store p s }, state')

  pub handle_events : (tdm_client : Ptr) → List Event → Worker S → S → Outcome (Worker S × S)
  unfolding handle_event
  handle_events tdm_client [] w state = done (w, state)
  handle_events tdm_client (e ∷ es) w state = do
    (w', state') ← handle_event tdm_client e w state
    handle_events tdm_client es w' state'

  -- The `while` loop, over the rounds that come.
  pub loop_rounds : (fuel : ℕ) → List Round → Worker S → S → Outcome (Worker S × S)
  unfolding prepare_all handle_events walk
  loop_rounds fuel [] w state = done (w, state)
  loop_rounds fuel (r ∷ rs) w state =
      let body : Outcome (Worker S × S) = (do
        (w₁, state₁) ← prepare_all fuel (walk w.surface_list) w state
        (w₂, state₂) ← handle_events null r.events w₁ state₁
        loop_rounds fuel rs w₂ state₂) in
      if not w.running then done (w, state) else if not r.mutex_ok then done (w, state) else body

  -- The label `cleanup`: the worker, and the descriptors that it closes.
  pub cleanup : (epoll_fd : Fd) → Worker S → Worker S × List ℕ
  unfolding closed_fd
  cleanup epoll_fd w = (record w { event_fd = none }, closed_fd epoll_fd ++ closed_fd w.event_fd)

  -- `__tpl_worker_thread_loop`: the worker, the state, and all descriptors closed, in order.
  pub thread_loop :
      StartEnv → (fuel : ℕ) → List Round → Worker S → S → Outcome (Worker S × S × List ℕ)
  unfolding cleanup prepare_event_fd
  thread_loop env fuel rounds w state =
      let (event_fd, closed) = prepare_event_fd env in
      let w₁ = record w { event_fd = event_fd } in
      let running : Outcome (Worker S × S × List ℕ) = (do
        (w₂, state') ← loop_rounds fuel rounds (record w₁ { support_vblank = true }) state
        let (w₃, closed') = cleanup env.epoll_fd w₂
        done (w₃, state', closed')) in
      elim env.epoll_fd [
        | none ↦ let (w', closed') = cleanup none w in done (w', state, closed')
        | some fd ↦ elim event_fd [
          | none ↦
              let (w', closed') = cleanup env.epoll_fd w₁ in done (w', state, closed ++ closed')
          | some fd' ↦ running
        ]
      ]

  -- `__tpl_worker_init`, without the thread that it starts: the worker, and whether it runs.
  pub worker_init : (mutex_ok thread_ok : Bool) → Worker S → Worker S
  worker_init mutex_ok thread_ok w =
      let w₁ = record w { running = true; support_vblank = false } in
      let w₂ = record w₁ { surface_list = TplList.init } in
      if not mutex_ok
      then record w₁ { running = false }
      else if not thread_ok
      then record w₂ { running = false }
      else w₂

  -- `__tpl_worker_fini`, up to the wait for the end of the thread.
  pub worker_fini : Worker S → S → Worker S × S
  worker_fini w state =
      if not w.running
      then (w, state)
      else (record w { running = false }, event_send kernel (record w { running = false }) state)
