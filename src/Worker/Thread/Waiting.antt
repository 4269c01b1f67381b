-- ===== src/Worker/Thread/Waiting.antt =====
-- The thread waits only for surfaces that can name a fence, so that it never calls through NULL.
use libtpl_egl.Base.{
  ℕ, zero, suc, ◌≡◌, Bool, true, false, not, ◌||◌, inl, inr, List, [], ◌∷◌, arith, ◌==◌,
  if◌then◌else◌, update, is_some, Bool-cases, Option-cases,
}
use libtpl_egl.Types.{
  Ptr, null, Outcome, done, out_of_bounds, assertion_failed, null_call, out_of_fuel, ◌>>=◌,
}
use libtpl_egl.Worker.{
  WorkerSurface, Kernel, Worker, wait_for, wait_for_acquired, get_loop, acquire_loop,
  prepare_draw_wait_buffer, surface_event,
}
use libtpl_egl.Worker.Thread.{
  Event, woken, arrived, Round, walk, prepare_all, handle_event, handle_events, loop_rounds,
}

-- No call through NULL; and what a call that returned leaves satisfies the predicate.
abbrev pub NeverNull {ℓ} : {A : Type ℓ} → (A → Type 0) → Outcome A → Type 0
NeverNull P (done a) = P a
NeverNull P null_call = ⊥
NeverNull P _ = Unit {0}

pub NeverNull-bind {ℓ κ} :
    {A : Type ℓ} {B : Type κ} (P : A → Type 0) (Q : B → Type 0) (m : Outcome A) (f : A → Outcome B)
    → NeverNull P m
    → ((a : A) → P a → NeverNull Q (f a))
    → NeverNull Q (m >>= f)
NeverNull-bind P Q (done a) f h k = k a h
NeverNull-bind P Q out_of_bounds f h k = tt
NeverNull-bind P Q assertion_failed f h k = tt
NeverNull-bind P Q null_call f h k = h
NeverNull-bind P Q out_of_fuel f h k = tt

NeverNull-if {ℓ} :
    {A : Type ℓ} (P : A → Type 0) (b : Bool) (x y : Outcome A)
    → NeverNull P x
    → NeverNull P y
    → NeverNull P (if b then x else y)
NeverNull-if P true x y h k = h
NeverNull-if P false x y h k = k

module _ {S : Type 0} where
  -- A surface with a buffer to wait for has the function that gives the fence of a buffer.
  abbrev pub IsWaiting : WorkerSurface S → Type 0
  IsWaiting s = ((s.draw_wait_buffer == null) ≡ false) → is_some s.draw_wait_fd_get ≡ true

  abbrev pub AllWaiting : Worker S × S → Type 0
  AllWaiting (w, state) = (p : Ptr) → IsWaiting (w.store p)

module _ {S : Type 0} (kernel : Kernel S) (p : Ptr) (s : WorkerSurface S) where
  wait_for-true :
      (buffer : Ptr) (state : S)
      → (wait_for kernel p s buffer state).0 ≡ true
      → is_some s.draw_wait_fd_get ≡ true
  unfolding wait_for
  wait_for-true buffer state h = ground arith

  abbrev Found : Ptr × S → Type 0
  Found r = ((r.0 == null) ≡ false) → is_some s.draw_wait_fd_get ≡ true

  get_loop-Found :
      (fuel : ℕ) (get : Ptr → S → Ptr × S) (state : S)
      → NeverNull Found (get_loop kernel fuel p s get state)
  unfolding get_loop
  get_loop-Found zero get state = tt
  get_loop-Found (suc fuel) get state =
      let b = (get s.surface state).0 in
      let state₁ = (get s.surface state).1 in
      let state₂ = (wait_for kernel p s b state₁).1 in
      elim (Bool-cases (b == null)) [
        | inl empty ↦ rw (get_loop, empty) (λ h. cc)
        | inr full ↦ elim (Bool-cases (wait_for kernel p s b state₁).0) [
          | inl waits ↦ rw (get_loop, full, waits) (λ h. wait_for-true b state₁ waits)
          | inr passes ↦ rw (get_loop, full, passes) (get_loop-Found fuel get state₂)
        ]
      ]

  wait_for_acquired-true :
      (buffer : Ptr) (state : S)
      → (wait_for_acquired kernel p s buffer state).0 ≡ true
      → is_some s.draw_wait_fd_get ≡ true
  unfolding wait_for_acquired
  wait_for_acquired-true buffer state h = ground arith

  acquire_loop-Found : (fuel : ℕ) (state : S) → NeverNull Found (acquire_loop kernel fuel p s state)
  unfolding acquire_loop
  acquire_loop-Found zero state = tt
  acquire_loop-Found (suc fuel) state =
      let (can, state₁) = kernel.can_acquire s.tbm_queue state in
      let (acquired, b, state₂) = kernel.acquire s.tbm_queue state₁ in
      let state₃ = (wait_for_acquired kernel p s b state₂).1 in
      elim (Bool-cases (kernel.can_acquire s.tbm_queue state).0) [
        | inr no_buffer ↦ rw (acquire_loop, no_buffer) (λ h. cc)
        | inl there ↦ elim (Bool-cases (not acquired || b == null)) [
          | inl lost ↦ rw (acquire_loop, there, lost) (λ h. cc)
          | inr got ↦ elim (Bool-cases (wait_for_acquired kernel p s b state₂).0) [
            | inl waits ↦
                rw (acquire_loop, there, got, waits) (λ h. wait_for_acquired-true b state₂ waits)
            | inr passes ↦ rw (acquire_loop, there, got, passes) (acquire_loop-Found fuel state₃)
          ]
        ]
      ]

  -- What is prepared waits, if the surface did before.
  prepare-IsWaiting :
      (fuel : ℕ) (state : S)
      → IsWaiting s
      → NeverNull (λ r. IsWaiting r.0) (prepare_draw_wait_buffer kernel fuel p s state)
  unfolding prepare_draw_wait_buffer
  prepare-IsWaiting fuel state h = elim (Bool-cases (s.draw_wait_buffer == null)) [
    | inr waits ↦ rw (prepare_draw_wait_buffer, waits) h
    | inl idle ↦
        rw (prepare_draw_wait_buffer, idle)
          (elim (Option-cases s.draw_wait_buffer_get) [
            | inl e ↦ rw e (NeverNull-bind Found _ _ _ (acquire_loop-Found fuel state) (λ r f. f))
            | inr (get, e) ↦
                rw e (NeverNull-bind Found _ _ _ (get_loop-Found fuel get state) (λ r f. f))
          ])
  ]

  -- An event on a surface that waits.
  event-IsWaiting :
      (readable : Bool) (state : S)
      → IsWaiting s
      → NeverNull (λ r. IsWaiting r.0) (surface_event kernel readable s state)
  unfolding surface_event
  event-IsWaiting readable state h = ground arith

module _ {S : Type 0} (kernel : Kernel S) where
  update-AllWaiting :
      (w : Worker S) (p : Ptr) (s : WorkerSurface S) (state : S)
      → AllWaiting (w, state)
      → IsWaiting s
      → AllWaiting (record w { store = update w.store p s }, state)
  update-AllWaiting w p s state h k q = elim (Bool-cases (q == p)) [
    | inl e ↦ rw e k
    | inr e ↦ rw e (h q)
  ]

  prepare_all-AllWaiting :
      (fuel : ℕ) (ps : List Ptr) (w : Worker S) (state : S)
      → AllWaiting (w, state)
      → NeverNull AllWaiting (prepare_all kernel fuel ps w state)
  unfolding prepare_all
  prepare_all-AllWaiting fuel [] w state h = h
  prepare_all-AllWaiting fuel (p ∷ ps) w state h = NeverNull-if AllWaiting (p == null) _ _ tt (
      NeverNull-bind {A = WorkerSurface S × S} (λ r. IsWaiting r.0) AllWaiting _ _
        (prepare-IsWaiting kernel p (w.store p) fuel state (h p))
        (λ r k.
          prepare_all-AllWaiting fuel ps (record w { store = update w.store p r.0 }) r.1
            (update-AllWaiting w p r.0 r.1 h k)))

  handle_event-AllWaiting :
      (client : Ptr) (e : Event) (w : Worker S) (state : S)
      → AllWaiting (w, state)
      → NeverNull AllWaiting (handle_event kernel client e w state)
  unfolding handle_event
  handle_event-AllWaiting client (woken readable) w state h = h
  handle_event-AllWaiting client (arrived readable p) w state h =
      NeverNull-if AllWaiting (p == client) _ _ h (
        NeverNull-bind {A = WorkerSurface S × S} (λ r. IsWaiting r.0) AllWaiting _ _
          (event-IsWaiting kernel p (w.store p) readable state (h p))
          (λ r k. update-AllWaiting w p r.0 r.1 h k))

  handle_events-AllWaiting :
      (client : Ptr) (es : List Event) (w : Worker S) (state : S)
      → AllWaiting (w, state)
      → NeverNull AllWaiting (handle_events kernel client es w state)
  unfolding handle_events
  handle_events-AllWaiting client [] w state h = h
  handle_events-AllWaiting client (e ∷ es) w state h =
      NeverNull-bind {A = Worker S × S} AllWaiting AllWaiting _ _
        (handle_event-AllWaiting client e w state h)
        (λ r k. handle_events-AllWaiting client es r.0 r.1 k)

  -- From a worker in which every surface that waits can name its fences no sequence of
  -- rounds runs into a call through NULL, whatever epoll, the fences and the functions of the surfaces return and whatever events arrive; if the rounds end, every surface is so again.
  pub loop_rounds-AllWaiting :
      (fuel : ℕ) (rounds : List Round) (w : Worker S) (state : S)
      → AllWaiting (w, state)
      → NeverNull AllWaiting (loop_rounds kernel fuel rounds w state)
  unfolding loop_rounds
  loop_rounds-AllWaiting fuel [] w state h = h
  loop_rounds-AllWaiting fuel (r ∷ rs) w state h = NeverNull-if AllWaiting (not w.running) _ _ h (
      NeverNull-if AllWaiting (not r.mutex_ok) _ _ h (
        NeverNull-bind {A = Worker S × S} AllWaiting AllWaiting _ _
          (prepare_all-AllWaiting fuel (walk w.surface_list) w state h)
          (λ a k.
            NeverNull-bind {A = Worker S × S} AllWaiting AllWaiting _ _
              (handle_events-AllWaiting null r.events a.0 a.1 k)
              (λ b l. loop_rounds-AllWaiting fuel rs b.0 b.1 l))))
