-- ===== src/Tbm/Order.antt =====
-- The way of posted buffers through src/tpl_tbm.c and src/tpl_worker_thread.c: from
-- `__tpl_tbm_surface_enqueue_buffer` through the list of the surface and the worker thread to the
-- queue of libtbm. Each call of the two sides is one step, as the mutex of the list would make it if
-- `__tpl_tbm_surface_enqueue_buffer` took it, which it initializes instead.
pub mod Calls
pub mod Prepare
pub mod Fence
pub mod Post
pub mod Run
pub mod Created
pub mod Drain
pub mod Posted
use libtpl_egl.Base.{
  ℕ, ◌+◌, ◌-◌, ◌≤◌, ◌<◌, ◌≡◌, ◌≢◌, Bool, true, false, Option, none, some, List, [], ◌∷◌, ◌++◌, ◌==◌,
  if◌then◌else◌, All, length, is_some,
}
use libtpl_egl.Types.{Ptr, null, Outcome, done, ◌>>=◌}
use libtpl_egl.TplList.{TplList}
use libtpl_egl.Worker.{WorkerSurface, Worker, Kernel}
use libtpl_egl.Worker.Thread.{arrived, walk, prepare_all, handle_event}
use libtpl_egl.Surface.{Surface, Damage}
use libtpl_egl.Tbm.{TbmLib, TbmSurface, World, System, mailbox}
use libtpl_egl.Tbm.Buffers.{draw_done, draw_wait_fd_get, draw_wait_buffer_get}
use libtpl_egl.Tbm.Surface.{enqueue_buffer}

-- The buffer for whose fence the thread waits.
abbrev pub held : Ptr → List Ptr
held b = if b == null then [] else b ∷ []

-- What happens: the client posts a buffer to a surface, the thread runs the first half of a round,
-- over the surfaces in its list, or it sees to an event on the surface.
pub data Action : Type 0 where
  posted : (buffer : Ptr) → Damage → Action
  prepared : Action
  woken_up : (readable : Bool) → Action

-- The buffers that are posted.
abbrev pub post_of : Action → List Ptr
post_of (posted b d) = b ∷ []
post_of prepared = []
post_of (woken_up readable) = []

abbrev pub posts : List Action → List Ptr
posts [] = []
posts (a ∷ rest) = post_of a ++ posts rest

module _ {T : Type 0} (lib : TbmLib T) (kernel : Kernel (World T)) where
  module _ (mutex_ok : Bool) (display_handle : Ptr → Ptr) (s : Surface) (fuel : ℕ) where
    unfoldable pub act : Action → System T → Outcome (System T)
    unfolding enqueue_buffer prepare_all handle_event
    act (posted b d) sys = done (enqueue_buffer lib kernel mutex_ok display_handle b d s sys).2
    act prepared sys = do
      (worker, world) ← prepare_all kernel fuel (walk sys.worker.surface_list) sys.worker sys.world
      done (record { world = world; worker = worker })
    act (woken_up readable) sys = do
      (worker, world) ←
          handle_event kernel null (arrived readable s.backend_data) sys.worker sys.world
      done (record { world = world; worker = worker })

    unfoldable pub run : List Action → System T → Outcome (System T)
    unfolding act
    run [] sys = done sys
    run (a ∷ rest) sys = do sys' ← act a sys; run rest sys'

-- How often a buffer is in a list.
abbrev pub occurrences : Ptr → List Ptr → ℕ
occurrences c [] = 0
occurrences c (b ∷ l) = (if b == c then 1 else 0) + occurrences c l

-- How the state of libtbm is looked at: the log of the calls of `tbm_surface_queue_enqueue` and
-- the references that there are to a buffer; and what the log is to be in the end.
pub record Account (T : Type 0) : Type 0 where
  pub queued : T → List Ptr
  pub refs : Ptr → T → ℕ
  pub whole : List Ptr

-- A log holds no buffer more often than the log in the end.
abbrev pub HasRoom : {T : Type 0} → Account T → List Ptr → Type 0
HasRoom acc log = (c : Ptr) → occurrences c log ≤ occurrences c acc.whole

module _ {T : Type 0} (lib : TbmLib T) (acc : Account T) where
  -- The buffers that were handed to the queue of a surface, those that wait for their fence, and
  -- those in its list.
  abbrev pub pending : Ptr → System T → List Ptr
  pending p sys =
      acc.queued sys.world.lib
      ++ held (sys.worker.store p).draw_wait_buffer
      ++ (elim (sys.world.surfaces p) [ none ↦ [] | some t ↦ t.draw_waiting_queue.nodes ])

  -- A buffer that the backend knows, and that has more references than it will still be handed to
  -- the queue, each of which takes one away.
  abbrev pub IsReady : World T → Ptr → Type 0
  IsReady w b =
      ((b == null) ≡ false)
      × (occurrences b acc.whole < acc.refs b w.lib + occurrences b (acc.queued w.lib))
      × (is_some (w.buffers b) ≡ true)

  -- The buffers that the backend knows stay known.
  abbrev pub Grows : World T → World T → Type 0
  Grows w w' = (b : Ptr) → IsReady w b → IsReady w' b

  -- What a step leaves of the world, apart from the queue: the surface, and the buffers known.
  pub record Moves (p : Ptr) (w w' : World T) : Type 0 where
    pub surface : w'.surfaces p ≡ w.surfaces p
    pub stopped : w'.stopped ≡ w.stopped
    pub ready : Grows w w'

  -- The world of a surface with a swapchain whose list holds the buffers `l`.
  pub record Live (p : Ptr) (l : List Ptr) (w : World T) : Type 0 where
    pub running : w.stopped ≡ false
    pub surface : TbmSurface
    pub at : w.surfaces p ≡ some surface
    pub waiting : surface.draw_waiting_queue ≡ record { nodes = l; count = length l }
    pub mode : surface.present_mode ≡ mailbox
    pub ready : All (IsReady w) l

  -- The world of a surface for whose buffer `b` the thread waits, and the order of its buffers: those
  -- in the log of the queue, `b`, and those in the list; of the latter two there are at most `most`.
  pub record Ahead (p : Ptr) (log : List Ptr) (most : ℕ) (b : Ptr) (w : World T) : Type 0 where
    pub rest : List Ptr
    pub live : Live p rest w
    pub waits : (b == null) ≡ false → IsReady w b
    pub order : acc.queued w.lib ++ held b ++ rest ≡ log
    pub fewer : length (held b) + length rest ≤ most

  -- A worker surface as `__tpl_tbm_surface_create_swapchain` leaves it.
  pub record IsConnected (p queue : Ptr) (s : WorkerSurface (World T)) : Type 0 where
    pub surface : (s.surface == null) ≡ false
    pub draw_done : s.draw_done ≡ some (draw_done lib p queue)
    pub draw_wait_fd_get : s.draw_wait_fd_get ≡ some (draw_wait_fd_get lib)
    pub draw_wait_buffer_get : s.draw_wait_buffer_get ≡ some (draw_wait_buffer_get lib p)

module _ {T : Type 0} (lib : TbmLib T) (kernel : Kernel (World T)) where
  -- What the steps rely on of libtbm and of the kernel: the log gets a buffer by an enqueue and in
  -- no other way, a reference is taken and given back by the calls for that alone, a buffer is valid
  -- as long as there is a reference to it, memory is there, and calls of the kernel leave the backend
  -- alone.
  pub record IsReliable (p queue : Ptr) (acc : Account T) : Type 0 where
    pub alive : (c : Ptr) (t : T) → 0 < acc.refs c t → lib.is_valid c t ≡ true
    pub enqueue : (b : Ptr) (t : T) → acc.queued (lib.enqueue queue b t).1 ≡ acc.queued t ++ b ∷ []
    pub enqueue_refs : (b c : Ptr) (t : T) → acc.refs c (lib.enqueue queue b t).1 ≡ acc.refs c t
    pub ref : (b : Ptr) (t : T) → acc.queued (lib.ref b t) ≡ acc.queued t
    pub ref_refs :
        (b c : Ptr) (t : T) → acc.refs c (lib.ref b t) ≡ acc.refs c t + (if b == c then 1 else 0)
    pub unref : (b : Ptr) (t : T) → acc.queued (lib.unref b t) ≡ acc.queued t
    pub unref_refs :
        (b c : Ptr) (t : T) → acc.refs c (lib.unref b t) ≡ acc.refs c t - (if b == c then 1 else 0)
    pub close : (f : Option ℕ) (t : T) → acc.queued (lib.close f t) ≡ acc.queued t
    pub close_refs : (f : Option ℕ) (c : Ptr) (t : T) → acc.refs c (lib.close f t) ≡ acc.refs c t
    pub memory : (t : T) → (lib.allocated t).0 ≡ true
    pub memory_log : (t : T) → acc.queued (lib.allocated t).1 ≡ acc.queued t
    pub memory_refs : (c : Ptr) (t : T) → acc.refs c (lib.allocated t).1 ≡ acc.refs c t
    pub add : (fd : ℕ) (w : World T) → Moves lib acc p w (kernel.epoll_add fd p w).1
    pub add_log :
        (fd : ℕ) (w : World T) → acc.queued (kernel.epoll_add fd p w).1.lib ≡ acc.queued w.lib
    pub del : (fd : ℕ) (w : World T) → Moves lib acc p w (kernel.epoll_del fd w)
    pub del_log : (fd : ℕ) (w : World T) → acc.queued (kernel.epoll_del fd w).lib ≡ acc.queued w.lib
    pub wait : (fd : ℕ) (w : World T) → Moves lib acc p w (kernel.fence_wait fd w).1
    pub wait_log :
        (fd : ℕ) (w : World T) → acc.queued (kernel.fence_wait fd w).1.lib ≡ acc.queued w.lib
    pub write : (w : World T) → Moves lib acc p w (kernel.write_event w)
    pub write_log : (w : World T) → acc.queued (kernel.write_event w).lib ≡ acc.queued w.lib
