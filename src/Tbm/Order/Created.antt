-- ===== src/Tbm/Order/Created.antt =====
-- The order of the buffers from the creation of a swapchain on.
use libtpl_egl.Base.{
  ℕ, ◌^◌, ◌≤◌, ◌≡◌, refl, ap, ◌∙◌, Bool, true, false, ◌||◌, some, List, [], ◌++◌, arith, ◌==◌,
  update,
}
use mathlib.Core.List.{append-nil}
use libtpl_egl.Types.{error_none, Ptr, null}
use libtpl_egl.TplList
use libtpl_egl.TplList.{TplList}
use libtpl_egl.Worker.{Kernel, surface_list_insert}
use libtpl_egl.Surface.{Surface, Swapchain}
use libtpl_egl.Tbm.{TbmLib, TbmSurface, World, System, mailbox, free}
use libtpl_egl.Tbm.Buffers.{put_surface}
use libtpl_egl.Tbm.Swapchain.{create_swapchain, callbacks, mode_accepted}
use libtpl_egl.Tbm.Surface.{is_vulkan_wsi, is_pixmap}
use libtpl_egl.Tbm.Order.{Account, Grows, IsReliable}
use libtpl_egl.Tbm.Order.Run.{OnWay, alone}

-- A surface put into an empty list is alone in it.
first_listed : (l : TplList) (p : Ptr) → l ≡ TplList.init → (TplList.push_back true l p).1 ≡ alone p
unfolding TplList.init TplList.push_back TplList.count_up
first_listed l p e = rw e refl

eq_self : (n : ℕ) → (n == n) ≡ true
eq_self n = ground arith

module _ {T : Type 0} (lib : TbmLib T) (kernel : Kernel (World T)) (acc : Account T)
    (mutex_ok : Bool) (display_handle : Ptr → Ptr) (s : Surface) (fuel : ℕ)
    (r : IsReliable lib kernel s.backend_data s.native_handle acc)
    (queue : (s.native_handle == null) ≡ false)
    (shown : (s.display == null || display_handle s.display == null) ≡ false)
    (wsi : is_vulkan_wsi s.backend_type ≡ true) (drawn : is_pixmap s.type ≡ false)
    (mapped : (s.backend_data == null) ≡ false) (small : fuel ≤ 2 ^ 32) where
  abbrev p : Ptr
  p = s.backend_data

  -- The system that a new swapchain leaves.
  abbrev pub created : System T → TbmSurface → System T
  created sys t = record {
    world =
        put_surface (record sys.world { lib = (lib.allocated sys.world.lib).1 }) p
          (record t {
            present_mode = mailbox;
            vblank_list = TplList.init;
            draw_waiting_queue = TplList.init;
            vblank_mutex = free;
            draw_waiting_mutex = free;
            need_worker_clear = true;
          });
    worker = record sys.worker {
      store =
          update (update sys.worker.store p (callbacks lib s (sys.worker.store p))) p
            (record (callbacks lib s (sys.worker.store p)) { draw_wait_buffer = null });
      surface_list = (TplList.push_back true sys.worker.surface_list p).1;
    };
  }

  pub create_lem :
      (c : Swapchain) (sys : System T) (t : TbmSurface)
      → sys.world.surfaces p ≡ some t
      → (s.base.address == null) ≡ false
      → create_swapchain lib true c s sys ≡ (error_none, s, created sys t)
  unfolding create_swapchain callbacks mode_accepted surface_list_insert
  create_lem c sys t at named = simp (
    create_swapchain,
    surface_list_insert,
    callbacks,
    at,
    eq_self s.backend_data,
    r.memory,
    named,
  )

  pub created-Grows :
      (sys : System T) (t : TbmSurface) → Grows lib acc sys.world (created sys t).world
  created-Grows sys t b (full, owned, known) =
      (full, rw (r.memory_log sys.world.lib, r.memory_refs b sys.world.lib) owned, known)

  pub created-OnWay :
      (sys : System T) (t : TbmSurface)
      → sys.world.stopped ≡ false
      → (s.base.address == null) ≡ false
      → sys.worker.surface_list ≡ TplList.init
      → OnWay lib kernel acc mutex_ok display_handle s fuel r queue shown wsi drawn mapped small
          (acc.queued sys.world.lib)
          0
          (created sys t)
  unfolding callbacks TplList.init
  created-OnWay sys t running named none_listed = record {
    connected = record {
      surface = rw (eq_self s.backend_data) named;
      draw_done = rw (eq_self s.backend_data) refl;
      draw_wait_fd_get = rw (eq_self s.backend_data) refl;
      draw_wait_buffer_get = rw (eq_self s.backend_data) refl;
    };
    ahead = record {
      rest = [];
      live = record {
        running = running;
        surface = record t {
          present_mode = mailbox;
          vblank_list = TplList.init;
          draw_waiting_queue = TplList.init;
          vblank_mutex = free;
          draw_waiting_mutex = free;
          need_worker_clear = true;
        };
        at = rw (eq_self s.backend_data) refl;
        waiting = refl;
        mode = refl;
        ready = tt;
      };
      waits = rw (eq_self s.backend_data) (λ x. absurd (ground arith));
      order =
          rw (eq_self s.backend_data)
            (ap (λ x. x ++ []) (append-nil _ ∙ r.memory_log sys.world.lib) ∙ append-nil _);
      fewer = rw (eq_self s.backend_data) (omega arith);
    };
    listed = first_listed sys.worker.surface_list p none_listed;
  }
