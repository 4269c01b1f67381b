-- ===== src/Surface/Mutex.antt =====
-- The mutex of a surface: every operation leaves it free, and a backend is called with it held.
use libtpl_egl.Base.{
  Bool-cases, ℕ, ◌≡◌, refl, Bool, false, not, ◌&&◌, inl, inr, Option, none, some, arith, ◌==◌,
}
use libtpl_egl.Types.{TplResult, Ptr, null, Outcome, done}
use libtpl_egl.Surface.{
  Surface, SurfaceBackend, Damage, Swapchain, lock, set_post_interval, get_post_interval,
  set_frontbuffer_mode, set_reset_cb, set_rotation_capability, validate, take_frontbuffer,
  dequeue_buffer_with_sync, post, enqueue_buffer_with_damage_and_sync, get_swapchain_buffers,
  create_swapchain, destroy_swapchain,
}

-- The mutex is free; a NULL surface has none.
abbrev pub IsFree : Option Surface → Type 0
IsFree none = Unit {0}
IsFree (some s) = s.base.locked ≡ false

-- The five operations that lock a surface and do not call its backend, `tpl_surface_set_*` and
-- `tpl_surface_get_post_interval`, leave its mutex free on each of their branches if it was free.
pub setters_leave-IsFree :
    (mutex_ok : Bool) (s : Option Surface) (interval : ℕ) (set : Bool) (reset_data reset_cb : Ptr)
    → IsFree s
    → IsFree (set_post_interval mutex_ok s interval).1
      × IsFree (get_post_interval mutex_ok s).1
      × IsFree (set_frontbuffer_mode mutex_ok s set).1
      × IsFree (set_reset_cb mutex_ok s reset_data reset_cb).1
      × IsFree (set_rotation_capability mutex_ok s set).1
unfolding set_post_interval get_post_interval set_frontbuffer_mode set_reset_cb
    set_rotation_capability
setters_leave-IsFree mutex_ok none interval set d c h = (tt, tt, tt, tt, tt)
setters_leave-IsFree mutex_ok (some s) interval set d c h =
    (ground arith, ground arith, ground arith, refl, ground arith)

-- A call that ended with a surface whose mutex is free.
abbrev pub EndsFree {ℓ κ} : {A : Type ℓ} {S : Type κ} → Outcome (A × Option Surface × S) → Type 0
EndsFree (done r) = IsFree r.1
EndsFree _ = ⊥

module _ {S : Type 0} (backend : SurfaceBackend S) (mutex_ok : Bool) where
  -- The calls that may go to the backend leave the mutex free on each of their branches, if it was
  -- free before: validation and the three calls about swapchains.
  pub backend_calls_leave-IsFree :
      (s : Option Surface) (state : S) (wanted : Bool) (c : Swapchain)
      → IsFree s
      → IsFree (validate backend mutex_ok s state).1
        × IsFree (get_swapchain_buffers backend mutex_ok wanted s state).1
        × IsFree (create_swapchain backend mutex_ok s c state).1
        × IsFree (destroy_swapchain backend mutex_ok s state).1
  unfolding validate get_swapchain_buffers create_swapchain destroy_swapchain
  backend_calls_leave-IsFree none state wanted c h = (tt, tt, tt, tt)
  backend_calls_leave-IsFree (some s) state wanted c h =
      (ground arith, ground arith, ground arith, ground arith)

module _ {S : Type 0} (backend : SurfaceBackend S) (mutex_ok : Bool)
    (validates : Surface → S → Bool × Surface × S) (dequeues : ℕ → Surface → S → Ptr × Surface × S)
    (enqueues : Ptr → Damage → Surface → S → TplResult × Surface × S)
    (has_validate : backend.validate ≡ some validates)
    (has_dequeue : backend.dequeue_buffer ≡ some dequeues)
    (has_enqueue : backend.enqueue_buffer ≡ some enqueues) where
  take_frontbuffer_ends :
      (s : Surface) (state : S)
      → (r : Ptr × Surface × S) × (take_frontbuffer backend mutex_ok s state ≡ done r)
  unfolding take_frontbuffer
  take_frontbuffer_ends s state =
      let (valid, s', state') = validates s state in
      elim (Bool-cases (s.is_frontbuffer_mode && not (s.frontbuffer == null))) [
        | inl on ↦ elim (Bool-cases (validates s state).0) [
          | inl valid ↦ ((s'.frontbuffer, s', state'), rw (on, has_validate, valid) refl)
          | inr valid ↦
              ((null, record s' { frontbuffer = null }, state'), rw (on, has_validate, valid) refl)
        ]
        | inr off ↦ ((null, s, state), rw off refl)
      ]

  -- Where a backend has the functions for it, a dequeue and an enqueue end, whatever the functions
  -- return, and they leave the mutex free if it was free before.
  pub buffer_calls_end :
      (size_of : Ptr → ℕ × ℕ) (timeout : ℕ) (s : Surface) (state : S) (buffer : Ptr)
      (damage : Damage)
      → IsFree (some s)
      → EndsFree (dequeue_buffer_with_sync backend mutex_ok size_of timeout (some s) state)
        × EndsFree
            (enqueue_buffer_with_damage_and_sync backend mutex_ok (some s) buffer damage state)
  unfolding dequeue_buffer_with_sync enqueue_buffer_with_damage_and_sync post
  buffer_calls_end size_of timeout s state buffer damage h =
      let (r, e) = take_frontbuffer_ends (lock mutex_ok s) state in
      (rw (has_dequeue, e) refl, ground arith)
