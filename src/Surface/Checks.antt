-- ===== src/Surface/Checks.antt =====
-- The checks of the front end.
use libtpl_egl.Base.{ℕ, ◌≡◌, Bool, false, some, [], arith}
use libtpl_egl.Types.{invalid_parameter, Ptr, done}
use libtpl_egl.Object.{minus_one}
use libtpl_egl.Surface.{
  Surface, SurfaceBackend, Damage, is_window, set_post_interval, get_post_interval,
  set_rotation_capability, validate, enqueue_buffer_with_damage_and_sync, get_swapchain_buffers,
}

module _ {S : Type 0} (backend : SurfaceBackend S) (mutex_ok : Bool) (state : S) where
  -- A surface that is not a window is refused by every operation that is for windows only, with the
  -- operation's own error; the surface and the backend's state stay as they are.
  pub not_window_refused :
      (s : Surface) (interval : ℕ) (set wanted : Bool) (buffer : Ptr) (damage : Damage)
      → is_window s.type ≡ false
      → (validate backend mutex_ok (some s) state ≡ (false, some s, state))
        × (set_post_interval mutex_ok (some s) interval ≡ (invalid_parameter, some s))
        × (get_post_interval mutex_ok (some s) ≡ (minus_one, some s))
        × (enqueue_buffer_with_damage_and_sync backend mutex_ok (some s) buffer damage state
            ≡ done (invalid_parameter, some s, state))
        × (get_swapchain_buffers backend mutex_ok wanted (some s) state
            ≡ ((invalid_parameter, []), some s, state))
        × (set_rotation_capability mutex_ok (some s) set ≡ (invalid_parameter, some s))
  unfolding validate set_post_interval get_post_interval enqueue_buffer_with_damage_and_sync
      get_swapchain_buffers set_rotation_capability
  not_window_refused s interval set wanted buffer damage h =
      (ground arith, ground arith, ground arith, ground arith, ground arith, ground arith)
