-- ===== src/Worker/Thread/Cleanup.antt =====
-- The descriptors that `__tpl_worker_thread_loop` closes.
use mathlib.Core.Path.{subst}
use libtpl_egl.Base.{
  ℕ, ◌≡◌, refl, ◌∙◌, Bool, true, false, none, some, List, [], ◌∷◌, ◌==◌, if◌then◌else◌, inl, inr,
  Bool-cases, Option-cases, is_some, ◌&&◌, update, not,
}
use libtpl_egl.Types.{
  Ptr, null, Outcome, done, out_of_bounds, assertion_failed, null_call, out_of_fuel, ◌>>=◌,
}
use libtpl_egl.Worker.{Fd, WorkerSurface, Kernel, Worker, prepare_draw_wait_buffer, surface_event}
use libtpl_egl.Worker.Thread.{
  StartEnv, Round, Event, woken, arrived, walk, prepare_all, handle_event, handle_events,
  loop_rounds, thread_loop, prepare_event_fd, cleanup, closed_fd,
}

-- What a call that returned leaves satisfies the predicate.
abbrev pub Leaves {ℓ} : {A : Type ℓ} → (A → Type 0) → Outcome A → Type 0
Leaves P (done a) = P a
Leaves P _ = Unit {0}

Leaves-bind {ℓ κ} :
    {A : Type ℓ} {B : Type κ} (P : A → Type 0) (Q : B → Type 0) (m : Outcome A) (f : A → Outcome B)
    → Leaves P m
    → ((a : A) → P a → Leaves Q (f a))
    → Leaves Q (m >>= f)
Leaves-bind P Q (done a) f h k = k a h
Leaves-bind P Q out_of_bounds f h k = tt
Leaves-bind P Q assertion_failed f h k = tt
Leaves-bind P Q null_call f h k = tt
Leaves-bind P Q out_of_fuel f h k = tt

Leaves-if {ℓ} :
    {A : Type ℓ} (P : A → Type 0) (b : Bool) (x y : Outcome A)
    → Leaves P x
    → Leaves P y
    → Leaves P (if b then x else y)
Leaves-if P true x y h k = h
Leaves-if P false x y h k = k

Leaves-then {ℓ κ} :
    {A : Type ℓ} {B : Type κ} (Q : B → Type 0) (m : Outcome A) (f : A → Outcome B)
    → ((a : A) → Leaves Q (f a))
    → Leaves Q (m >>= f)
Leaves-then Q (done a) f k = k a
Leaves-then Q out_of_bounds f k = tt
Leaves-then Q assertion_failed f k = tt
Leaves-then Q null_call f k = tt
Leaves-then Q out_of_fuel f k = tt

module _ {S : Type 0} (kernel : Kernel S) (fd : Fd) where
  -- The event descriptor of the worker is `fd`.
  abbrev pub HasFd : Worker S × S → Type 0
  HasFd (w, state) = w.event_fd ≡ fd

  prepare_all-HasFd :
      (fuel : ℕ) (ps : List Ptr) (w : Worker S) (state : S)
      → HasFd (w, state)
      → Leaves HasFd (prepare_all kernel fuel ps w state)
  unfolding prepare_all
  prepare_all-HasFd fuel [] w state h = h
  prepare_all-HasFd fuel (p ∷ ps) w state h = Leaves-if HasFd (p == null) _ _ tt (
      Leaves-then HasFd (prepare_draw_wait_buffer kernel fuel p (w.store p) state)
        (λ (r : WorkerSurface S × S).
          prepare_all kernel fuel ps (record w { store = update w.store p r.0 }) r.1)
        (λ r. prepare_all-HasFd fuel ps (record w { store = update w.store p r.0 }) r.1 h))

  handle_event-HasFd :
      (client : Ptr) (e : Event) (w : Worker S) (state : S)
      → HasFd (w, state)
      → Leaves HasFd (handle_event kernel client e w state)
  unfolding handle_event
  handle_event-HasFd client (woken readable) w state h = h
  handle_event-HasFd client (arrived readable p) w state h = Leaves-if HasFd (p == client) _ _ h (
      Leaves-then HasFd (surface_event kernel readable (w.store p) state)
        (λ (r : WorkerSurface S × S). done (record w { store = update w.store p r.0 }, r.1))
        (λ r. h))

  handle_events-HasFd :
      (client : Ptr) (es : List Event) (w : Worker S) (state : S)
      → HasFd (w, state)
      → Leaves HasFd (handle_events kernel client es w state)
  unfolding handle_events
  handle_events-HasFd client [] w state h = h
  handle_events-HasFd client (e ∷ es) w state h =
      Leaves-bind HasFd HasFd _ _ (handle_event-HasFd client e w state h)
        (λ r k. handle_events-HasFd client es r.0 r.1 k)

  loop_rounds-HasFd :
      (fuel : ℕ) (rounds : List Round) (w : Worker S) (state : S)
      → HasFd (w, state)
      → Leaves HasFd (loop_rounds kernel fuel rounds w state)
  unfolding loop_rounds
  loop_rounds-HasFd fuel [] w state h = h
  loop_rounds-HasFd fuel (r ∷ rs) w state h = Leaves-if HasFd (not w.running) _ _ h (
      Leaves-if HasFd (not r.mutex_ok) _ _ h (
        Leaves-bind {A = Worker S × S} HasFd HasFd _ _
          (prepare_all-HasFd fuel (walk w.surface_list) w state h)
          (λ a k.
            Leaves-bind {A = Worker S × S} HasFd HasFd _ _
              (handle_events-HasFd null r.events a.0 a.1 k)
              (λ b l. loop_rounds-HasFd fuel rs b.0 b.1 l))))

-- The thread has an epoll descriptor, and an event descriptor that is registered.
abbrev pub is_started : StartEnv → Bool
is_started env = is_some env.epoll_fd && is_some env.event_fd && env.registered

-- The descriptors to close, for a worker that has `found` as its event descriptor at the start.
abbrev pub to_close : StartEnv → (found : Fd) → List ℕ
to_close env found = elim env.epoll_fd [
  | none ↦ elim found [ none ↦ [] | some fd ↦ fd ∷ [] ]
  | some epoll ↦ elim env.event_fd [
    | none ↦ epoll ∷ []
    | some event ↦ if env.registered then epoll ∷ event ∷ [] else event ∷ epoll ∷ []
  ]
]

module _ {S : Type 0} (kernel : Kernel S) (env : StartEnv) (fuel : ℕ) (rounds : List Round)
    (w : Worker S) (state : S) where
  -- The thread that starts and whose rounds come to an end closes its epoll descriptor and its event
  -- descriptor, each once. The thread that cannot start runs no round: without an epoll descriptor it
  -- closes the event descriptor that it finds in the worker, although it has not made it; without an
  -- event descriptor of its own the epoll descriptor; and where that could not be registered, the
  -- event descriptor once and then the epoll descriptor. The worker is left without an event
  -- descriptor.
  pub thread_closes :
      (w' : Worker S) (state' : S)
      → (is_started env ≡ true
          → loop_rounds kernel fuel rounds
              (record w { event_fd = env.event_fd; support_vblank = true })
              state
            ≡ done (w', state'))
      → thread_loop kernel env fuel rounds w state ≡ (
          if is_started env
          then done (record w' { event_fd = none }, state', to_close env w.event_fd)
          else done (record w { event_fd = none }, state, to_close env w.event_fd))
  unfolding thread_loop prepare_event_fd cleanup closed_fd
  thread_closes w' state' ends = elim (Option-cases env.epoll_fd) [
    | inl no_epoll ↦ elim (Option-cases w.event_fd) [
      | inl absent ↦ rw (no_epoll, absent) refl
      | inr (fd, there) ↦ rw (no_epoll, there) refl
    ]
    | inr (epoll, has_epoll) ↦ elim (Option-cases env.event_fd) [
      | inl no_event ↦ rw (has_epoll, no_event) refl
      | inr (event, has_event) ↦ elim (Bool-cases env.registered) [
        | inl added ↦
            let e = ends (rw (has_epoll, has_event, added) refl) in
            let kept : w'.event_fd ≡ env.event_fd = subst (Leaves (HasFd kernel env.event_fd)) e (
              loop_rounds-HasFd kernel env.event_fd fuel rounds
                (record w { event_fd = env.event_fd; support_vblank = true }) state refl) in
            let e' =
              subst
                (λ f.
                  loop_rounds kernel fuel rounds (record w { event_fd = f; support_vblank = true })
                    state
                  ≡ done (w', state'))
                has_event e in
            rw (has_epoll, has_event, added, e', kept ∙ has_event) refl
        | inr refused ↦ rw (has_epoll, has_event, refused) refl
      ]
    ]
  ]
