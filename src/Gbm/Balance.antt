-- ===== src/Gbm/Balance.antt =====
-- The references that src/tpl_gbm.c takes and drops.
use libtpl_egl.Base.{ℕ, ◌+◌, ◌-◌, ◌≡◌, Bool, true, false, none, some, ◌==◌, update}
use libtpl_egl.Types.{Ptr, null}
use libtpl_egl.Worker.{Fd}
use libtpl_egl.Surface.{Surface, Damage}
use libtpl_egl.Tbm.Surface.{fd_of}
use libtpl_egl.Gbm.{GbmLib, GbmSurface, World}
use libtpl_egl.Gbm.Surface.{wait_and_close}

-- What the references of the buffer `b` rely on of libtbm.
pub record Counts {T : Type 0} (lib : GbmLib T) (b : Ptr) (refs : T → ℕ) : Type 0 where
  pub ref : (t : T) → refs (lib.tbm.ref b t) ≡ refs t + 1
  pub unref : (t : T) → refs (lib.tbm.unref b t) ≡ refs t - 1
  pub dequeue : (q : Ptr) (t : T) → refs (lib.tbm.dequeue q t).2 ≡ refs t
  pub enqueue : (q : Ptr) (t : T) → refs (lib.tbm.enqueue q b t).1 ≡ refs t
  pub wait : (fd : ℕ) (t : T) → refs (lib.tbm.fence_wait fd t) ≡ refs t
  pub close : (f : Fd) (t : T) → refs (lib.tbm.close f t) ≡ refs t
  pub memory : (t : T) → (lib.tbm.allocated t).0 ≡ true
  pub memory_refs : (t : T) → refs (lib.tbm.allocated t).1 ≡ refs t
  pub valid : (t : T) → lib.tbm.is_valid b t ≡ true
  pub bo : (t : T) → (lib.bo b t == null) ≡ false

module _ {T : Type 0} (lib : GbmLib T) (b : Ptr) (refs : T → ℕ) (r : Counts lib b refs)
    (display_handle : Ptr → Ptr) (s : Surface) (g : GbmSurface) (w : World T)
    (full : (b == null) ≡ false) (at : w.surfaces s.backend_data ≡ some g)
    (mapped : (s.backend_data == null) ≡ false) (queue : (g.tbm_queue == null) ≡ false)
    (native : (s.native_handle == null) ≡ false) (shown : (s.display == null) ≡ false)
    (handle : (display_handle s.display == null) ≡ false) (new : w.buffers b ≡ none)
    (gives : (lib.tbm.dequeue g.tbm_queue w.lib).1 ≡ b) where
  abbrev taken : T
  taken = lib.tbm.ref b (lib.tbm.dequeue g.tbm_queue w.lib).2

  abbrev dequeued : World T
  dequeued = record w {
    lib = (lib.tbm.allocated taken).1;
    surfaces = update w.surfaces s.backend_data (some (record g { current_buffer = b }));
    buffers = update w.buffers b (some (record { display = s.display; bo = lib.bo b taken }));
  }

  abbrev posted_lib : Damage → Bool × T
  posted_lib d =
      lib.tbm.enqueue g.tbm_queue b
        (wait_and_close lib (fd_of d.sync_fence) (lib.tbm.unref b dequeued.lib))
