-- ===== src/Tbm/Tests.antt =====
-- Runs of the TBM backend on small inputs.
use libtpl_egl.Base.{
  ℕ, ◌+◌, ◌-◌, ◌≡◌, refl, true, false, none, some, List, [], ◌∷◌, ◌++◌, ◌==◌, arith, if◌then◌else◌,
  ltb,
}
use libtpl_egl.Types.{error_none, window, Ptr, null, tbm, tbm_vulkan_wsi, done}
use libtpl_egl.Object.{minus_one}
use libtpl_egl.TplList.{TplList}
use libtpl_egl.TplList
use libtpl_egl.TplList.Removal.{IsAbsent}
use libtpl_egl.Worker.{Worker, Kernel, signalled}
use libtpl_egl.Display.{zeroed_object}
use libtpl_egl.Surface.{
  Surface, Damage, Swapchain, lock, unlock, is_window, post, dequeue_buffer_with_sync,
  enqueue_buffer_with_damage_and_sync,
}
use libtpl_egl.Surface.Frontbuffer.{Hands}
use libtpl_egl.Tbm.{TbmLib, System}
use libtpl_egl.Tbm.Surface.{
  zeroed, zeroed_worker, surface_backend, surface_fini, is_vulkan_wsi, is_pixmap, enqueue_buffer,
  hand_to_queue, fd_of,
}
use libtpl_egl.Tbm.Order.{Account, Action, posted, prepared, woken_up}
use libtpl_egl.Tbm.Front.{tbm_front_kept}
use libtpl_egl.Tbm.Ends.{surface_fini_unlists}

-- A queue as the log of the buffers that it was handed, with one buffer to dequeue.
abbrev log_lib : TbmLib (List Ptr)
log_lib = record {
  is_valid = λ b t. true;
  ref = λ b t. t;
  unref = λ b t. t;
  info = λ b t. record { width = 64; height = 48; format = 7 };
  queue_info = λ b t. record { width = 64; height = 48; format = 7 };
  queue_size = λ q t. 3;
  enqueue = λ q b t. (true, t ++ b ∷ []);
  dequeue = λ q t. (true, 0x40, t);
  can_dequeue = λ q t. (true, t);
  release = λ q b t. (true, t);
  add_destroy_cb = λ q t. t;
  remove_destroy_cb = λ q t. t;
  fence_wait = λ fd t. t;
  close = λ fd t. t;
  allocated = λ t. (true, t);
}

-- A queue of three buffers as the number of those dequeued.
abbrev counting_lib : TbmLib ℕ
counting_lib = record {
  is_valid = λ b t. true;
  ref = λ b t. t;
  unref = λ b t. t;
  info = λ b t. record { width = 64; height = 48; format = 7 };
  queue_info = λ b t. record { width = 64; height = 48; format = 7 };
  queue_size = λ q t. 3;
  enqueue = λ q b t. (true, t - 1);
  dequeue = λ q t. (ltb t 3, 0x40 + t, if ltb t 3 then t + 1 else t);
  can_dequeue = λ q t. (ltb t 3, t);
  release = λ q b t. (true, t - 1);
  add_destroy_cb = λ q t. t;
  remove_destroy_cb = λ q t. t;
  fence_wait = λ fd t. t;
  close = λ fd t. t;
  allocated = λ t. (true, t);
}

abbrev quiet : {S : Type 0} → Kernel S
quiet = record {
  epoll_add = λ fd p w. (true, w);
  epoll_del = λ fd w. w;
  can_acquire = λ q w. (false, w);
  acquire = λ q w. (false, null, w);
  fence_wait = λ fd w. (signalled, w);
  read_event = λ w. w;
  write_event = λ w. w;
  tdm_events = λ w. w;
  vblank_wait = λ w. (true, w);
}

abbrev fresh : Surface
fresh = record {
  base = zeroed_object 0x1000;
  display = 0x2000;
  native_handle = 0x3000;
  type = window;
  format = 7;
  width = 0;
  height = 0;
  rotation = 0;
  post_interval = 1;
  dump_count = 0;
  rotation_capability = false;
  backend_type = tbm_vulkan_wsi;
  backend_data = 0x4000;
  is_frontbuffer_mode = true;
  frontbuffer = null;
  reset_cb = null;
  reset_data = null;
}

abbrev handle : Ptr → Ptr
handle d = 0x5000

abbrev worker : {S : Type 0} → Worker S
worker = record {
  running = true;
  event_fd = some 3;
  surface_list = TplList.init;
  locked = false;
  support_vblank = true;
  store = λ p. zeroed_worker;
}

abbrev system : {T : Type 0} → T → System T
system t = record {
  world = record {
    lib = t;
    surfaces = λ p. some zeroed;
    buffers = λ b. some none;
    stopped = false;
  };
  worker = worker;
}

abbrev damage : Damage
damage = record { num_rects = 0; rects = null; sync_fence = 5 }

abbrev no_fence : Damage
no_fence = record { num_rects = 0; rects = null; sync_fence = minus_one }

abbrev chain : Swapchain
chain = record { format = 7; width = 64; height = 48; buffer_count = 3; present_mode = 2 }

-- Three posts, the second without a fence, and the thread between and behind them.
abbrev actions : List Action
actions =
    posted 0x40 damage
    ∷ posted 0x41 no_fence
    ∷ prepared
    ∷ posted 0x42 damage
    ∷ woken_up true
    ∷ prepared
    ∷ []

-- A queue with its log and the references that there are to each buffer.
record Counted : Type 0 where
  log : List Ptr
  held_by : Ptr → ℕ

abbrev counted_lib : TbmLib Counted
counted_lib = record {
  is_valid = λ b t. ltb 0 (t.held_by b);
  ref = λ b t. record t { held_by = λ c. t.held_by c + (if b == c then 1 else 0) };
  unref = λ b t. record t { held_by = λ c. t.held_by c - (if b == c then 1 else 0) };
  info = λ b t. record { width = 64; height = 48; format = 7 };
  queue_info = λ b t. record { width = 64; height = 48; format = 7 };
  queue_size = λ q t. 3;
  enqueue = λ q b t. (true, record t { log = t.log ++ b ∷ [] });
  dequeue = λ q t. (true, 0x40, t);
  can_dequeue = λ q t. (true, t);
  release = λ q b t. (true, t);
  add_destroy_cb = λ q t. t;
  remove_destroy_cb = λ q t. t;
  fence_wait = λ fd t. t;
  close = λ fd t. t;
  allocated = λ t. (true, t);
}

-- The queue has a reference to each buffer, and so has the client that dequeued it.
abbrev dequeued : Counted
dequeued = record { log = 0x30 ∷ []; held_by = λ b. 2 }

abbrev account : Account Counted
account = record {
  queued = λ t. t.log;
  refs = λ c t. t.held_by c;
  whole = 0x30 ∷ 0x40 ∷ 0x41 ∷ 0x42 ∷ [];
}

abbrev egl : Surface
egl = record fresh { backend_type = tbm }

-- The surface and the system after a post of the buffer 0x40 in front buffer mode.
posted_once :
    enqueue_buffer_with_damage_and_sync
      (surface_backend log_lib quiet true handle none tbm)
      true
      (some egl)
      0x40
      no_fence
      (system [])
    ≡ done (error_none, some (record egl { frontbuffer = 0x40 }), system (0x40 ∷ []))
unfolding enqueue_buffer_with_damage_and_sync post lock unlock is_window surface_backend
    enqueue_buffer hand_to_queue fd_of is_vulkan_wsi is_pixmap
posted_once = refl

tbm_front_kept_example :
    let s' = record egl { frontbuffer = 0x40 } in
    Hands 0x40 (
      dequeue_buffer_with_sync
        (surface_backend log_lib quiet true handle none tbm)
        true
        (λ b. (64, 48))
        0
        (some s')
        (system (0x40 ∷ [])))
    × (enqueue_buffer_with_damage_and_sync
          (surface_backend log_lib quiet true handle none tbm)
          true
          (some s')
          0x40
          damage
          (system (0x40 ∷ []))
        ≡ done (error_none, some (unlock (lock true s')), system (0x40 ∷ [])))
unfolding is_window
tbm_front_kept_example =
    tbm_front_kept log_lib quiet true handle none tbm true (λ b. (64, 48)) 0 egl (system []) 0x40
      no_fence damage error_none (record egl { frontbuffer = 0x40 }) (system (0x40 ∷ [])) refl refl
      refl posted_once

-- A system in which the surface has a swapchain and stands between two others.
abbrev with_swapchain : System (List Ptr)
with_swapchain = record {
  world = record (system []).world {
    surfaces = λ p. some (record zeroed { need_worker_clear = true });
  };
  worker = record worker {
    surface_list = record { nodes = 0x100 ∷ 0x4000 ∷ 0x200 ∷ []; count = 3 };
  };
}

surface_fini_unlists_example :
    let r = surface_fini log_lib quiet true handle fresh with_swapchain in
    (r.world.surfaces 0x4000 ≡ none)
    × (r.worker.surface_list.nodes ≡ 0x100 ∷ 0x200 ∷ [])
    × IsAbsent 0x4000 r.worker.surface_list.nodes
surface_fini_unlists_example =
    surface_fini_unlists log_lib quiet true handle fresh with_swapchain
      (record zeroed { need_worker_clear = true }) (0x100 ∷ []) (0x200 ∷ []) refl refl refl refl
      refl (omega arith) (refl, tt) (refl, tt)
