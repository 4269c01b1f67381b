-- ===== src/Worker/Loops.antt =====
-- The two loops of `__tpl_worker_prepare_draw_wait_buffer`.
use libtpl_egl.Base.{
  ℕ, zero, suc, ◌≡◌, refl, true, false, not, ◌||◌, inl, inr, arith, ◌==◌, if◌then◌else◌, Bool-cases,
}
use libtpl_egl.Types.{Ptr, null}
use libtpl_egl.Worker.{WorkerSurface, Kernel, wait_for, wait_for_acquired, get_loop, acquire_loop}

module _ {S : Type 0} (kernel : Kernel S) (p : Ptr) (s : WorkerSurface S) where
  -- A `draw_wait_buffer_get` that takes the next buffer out of the queue of the surface.
  abbrev pub from_queue : Ptr → S → Ptr × S
  from_queue surface state =
      let (can, state₁) = kernel.can_acquire s.tbm_queue state in
      let (acquired, buffer, state₂) = kernel.acquire s.tbm_queue state₁ in
      if not can
      then (null, state₁)
      else if not acquired || buffer == null
      then (null, state₂)
      else (buffer, state₂)

  -- The bodies of the two loops, which the source writes out twice, agree.
  bodies_agree :
      (b : Ptr) (state : S) → wait_for_acquired kernel p s b state ≡ wait_for kernel p s b state
  unfolding wait_for wait_for_acquired
  bodies_agree b state = refl

  -- The loop over the buffers of the queue does what the loop over the buffers of
  -- `draw_wait_buffer_get` does with a function that takes the next buffer out of the queue, or
  -- returns NULL where there is none or it cannot be acquired: with the same fuel the same buffer
  -- is returned in the same state, or both run out of it.
  pub loops_agree :
      (fuel : ℕ) (state : S)
      → acquire_loop kernel fuel p s state ≡ get_loop kernel fuel p s from_queue state
  unfolding acquire_loop get_loop
  loops_agree zero state = refl
  loops_agree (suc fuel) state =
      let (can, state₁) = kernel.can_acquire s.tbm_queue state in
      let (acquired, b, state₂) = kernel.acquire s.tbm_queue state₁ in
      elim (Bool-cases (kernel.can_acquire s.tbm_queue state).0) [
        | inr no_buffer ↦ simp (acquire_loop, get_loop, no_buffer)
        | inl there ↦ elim (Bool-cases (not acquired || b == null)) [
          | inl lost ↦ simp (acquire_loop, get_loop, there, lost)
          | inr got ↦
              let full : (b == null) ≡ false = ground arith in
              let took : acquired ≡ true = ground arith in
              let state₃ = (wait_for kernel p s b state₂).1 in
              elim (Bool-cases (wait_for kernel p s b state₂).0) [
                | inl waits ↦ simp (acquire_loop, get_loop, there, took, full, bodies_agree, waits)
                | inr passes ↦
                    simp (acquire_loop, get_loop, there, took, full, bodies_agree, passes)
                      (loops_agree fuel state₃)
              ]
        ]
      ]
