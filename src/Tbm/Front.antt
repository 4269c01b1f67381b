-- ===== src/Tbm/Front.antt =====
-- The front buffer of src/tpl_surface.c with the TBM backend.
use libtpl_egl.Base.{ℕ, ◌≡◌, refl, Bool, true, false, Option, some, arith, ◌==◌}
use libtpl_egl.Types.{TplResult, error_none, Ptr, null, BackendType, done}
use libtpl_egl.Worker.{Kernel}
use libtpl_egl.Surface.{
  Surface, Damage, lock, unlock, is_window, dequeue_buffer_with_sync,
  enqueue_buffer_with_damage_and_sync,
}
use libtpl_egl.Surface.Frontbuffer.{SameFront, Hands, dequeue-enqueue}
use libtpl_egl.Tbm.{TbmLib, World, System}
use libtpl_egl.Tbm.Surface.{surface_backend, validate, dequeue_buffer, enqueue_buffer}

module _ {T : Type 0} (lib : TbmLib T) (kernel : Kernel (World T)) (worker_ok : Bool)
    (display_handle : Ptr → Ptr) where
  enqueue-same :
      (b : Ptr) (d : Damage) (s : Surface) (sys : System T)
      → (enqueue_buffer lib kernel worker_ok display_handle b d s sys).1 ≡ s
  unfolding enqueue_buffer
  enqueue-same b d s sys = ground arith

  dequeue-same :
      (t : ℕ) (s : Surface) (sys : System T)
      → (dequeue_buffer lib kernel worker_ok display_handle t s sys).1 ≡ s
  unfolding dequeue_buffer
  dequeue-same t s sys = ground arith

  SameFront-of : (s t : Surface) → t ≡ s → SameFront s t
  SameFront-of s t e = record { type = ground arith; mode = ground arith; buffer = ground arith }

  -- With the TBM backend, of either type: after a post of a buffer to a window in front buffer mode
  -- that ended, the surface that is left gives that buffer to a dequeue, and a second post of the
  -- buffer succeeds with nothing done to libtbm, to the worker thread or to the surface, but that
  -- its mutex is taken and left free.
  pub tbm_front_kept :
      (address : Option Ptr) (type : BackendType) (mutex_ok : Bool) (size_of : Ptr → ℕ × ℕ)
      (timeout : ℕ) (s : Surface) (sys : System T) (buffer : Ptr) (damage again : Damage)
      (ret : TplResult) (s' : Surface) (sys' : System T)
      → is_window s.type ≡ true
      → s.is_frontbuffer_mode ≡ true
      → (buffer == null) ≡ false
      → enqueue_buffer_with_damage_and_sync
          (surface_backend lib kernel worker_ok display_handle address type)
          mutex_ok
          (some s)
          buffer
          damage
          sys
        ≡ done (ret, some s', sys')
      → Hands buffer (
          dequeue_buffer_with_sync
            (surface_backend lib kernel worker_ok display_handle address type)
            mutex_ok
            size_of
            timeout
            (some s')
            sys')
        × (enqueue_buffer_with_damage_and_sync
              (surface_backend lib kernel worker_ok display_handle address type)
              mutex_ok
              (some s')
              buffer
              again
              sys'
            ≡ done (error_none, some (unlock (lock mutex_ok s')), sys'))
  unfolding surface_backend validate
  tbm_front_kept address type mutex_ok size_of timeout s sys buffer damage again ret s' sys' w m b
        e =
      dequeue-enqueue (surface_backend lib kernel worker_ok display_handle address type) mutex_ok
        (validate lib kernel worker_ok display_handle)
        (dequeue_buffer lib kernel worker_ok display_handle)
        (enqueue_buffer lib kernel worker_ok display_handle) refl refl refl
        (λ t x. SameFront-of t t refl) (λ n t x. SameFront-of t _ (dequeue-same n t x))
        (λ c d t x. SameFront-of t _ (enqueue-same c d t x)) size_of timeout s sys buffer damage
        again ret s' sys' w m b e refl
