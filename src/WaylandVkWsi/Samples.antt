-- ===== src/WaylandVkWsi/Samples.antt =====
-- A display, a surface, buffers and libraries for runs of the Wayland Vulkan WSI backend.
use libtpl_egl.Base.{
  ℕ, ◌+◌, ◌-◌, Bool, true, false, not, none, some, List, [], ◌∷◌, ◌++◌, ◌==◌, if◌then◌else◌, update,
}
use libtpl_egl.Types.{window, Ptr, null, wayland_vulkan_wsi}
use libtpl_egl.TplList
use libtpl_egl.Worker.{Worker, Kernel, signalled}
use libtpl_egl.Object.{minus_one}
use libtpl_egl.Display.{Display, zeroed_object}
use libtpl_egl.Surface.{Surface, Swapchain}
use libtpl_egl.Tbm.{TbmLib}
use libtpl_egl.Tbm.Surface.{zeroed_worker}
use libtpl_egl.WaylandVkWsi.{WsiBuffer, synced, released, WaylandLib, World, System, DisplayAt}
use libtpl_egl.WaylandVkWsi.Displays.{capabilities}
use libtpl_egl.WaylandVkWsi.Surface.{zeroed}

-- The libraries: the proxy that is attached, those committed, the buffers in the queue, and the
-- references that are counted.
pub record Libraries : Type 0 where
  pub attached : Ptr
  pub shown : List Ptr
  pub dirty : List Ptr
  pub refs : Ptr → ℕ
  pub full : ℕ

abbrev pub queues : TbmLib Libraries
queues = record {
  is_valid = λ b t. true;
  ref = λ b t. record t { refs = update t.refs b (t.refs b + 1) };
  unref = λ b t. record t { refs = update t.refs b (t.refs b - 1) };
  info = λ b t. record { width = 64; height = 48; format = 7 };
  queue_info = λ b t. record { width = 64; height = 48; format = 7 };
  queue_size = λ q t. 3;
  enqueue = λ q b t. (true, record t { dirty = t.dirty ++ b ∷ [] });
  dequeue = λ q t. (true, 0x40, t);
  can_dequeue = λ q t. (t.full == 0, t);
  release = λ q b t. (true, t);
  add_destroy_cb = λ q t. t;
  remove_destroy_cb = λ q t. t;
  fence_wait = λ fd t. t;
  close = λ fd t. t;
  allocated = λ t. (true, t);
}

abbrev pub libraries : WaylandLib Libraries
libraries = record {
  tbm = queues;
  dispatch = λ d t. (true, released 0x40 ∷ synced ∷ [], t);
  sync = λ d t. t;
  callback_destroy = λ t. t;
  flush = λ d t. t;
  attach = λ sfc proxy t. record t { attached = proxy };
  damage = λ sfc w h t. t;
  frame = λ sfc b t. t;
  commit = λ sfc t. record t { shown = t.shown ++ t.attached ∷ [] };
  queue_create = λ n w h t. (0x3000, t);
  queue_destroy = λ q t. record t { dirty = [] };
  create_buffer = λ client b t. (b + 0x100, t);
  destroy_buffer = λ client proxy t. t;
  proxy_destroy = λ proxy t. t;
  add_release_listener = λ proxy b t. t;
  timeline_create = λ t. (some 7, t);
  set_sync_timeline = λ client proxy fd t. t;
  fence_create = λ fd b stamp t. (some 8, t);
  clock = λ t. ((5, 0), t);
  signal = λ p t. t;
}

abbrev pub with_lib : World Libraries → Libraries → World Libraries
with_lib w t = record w { lib = t }

unfoldable pub take_first : List Ptr → World Libraries → Bool × Ptr × World Libraries
take_first [] w = (false, null, w)
take_first (b ∷ bs) w =
    if b == null then (false, null, w) else (true, b, with_lib w (record w.lib { dirty = bs }))

abbrev pub is_empty : List Ptr → Bool
is_empty [] = true
is_empty (b ∷ bs) = false

abbrev pub kernel : Kernel (World Libraries)
kernel = record {
  epoll_add = λ fd p w. (true, w);
  epoll_del = λ fd w. w;
  can_acquire = λ q w. (not (is_empty w.lib.dirty), w);
  acquire = λ q w. take_first w.lib.dirty w;
  fence_wait = λ fd w. (signalled, w);
  read_event = λ w. w;
  write_event = λ w. w;
  tdm_events = λ w. w;
  vblank_wait = λ w. (true, w);
}

abbrev pub display : Display
display = record {
  base = zeroed_object 0x2000;
  native_handle = 0x5000;
  bufmgr_fd = minus_one;
  backend_type = wayland_vulkan_wsi;
  backend_data = 0x6000;
}

abbrev pub display_at : DisplayAt
display_at p = display

abbrev pub surface : Surface
surface = record {
  base = zeroed_object 0x1000;
  display = 0x2000;
  native_handle = 0x7000;
  type = window;
  format = 7;
  width = 0;
  height = 0;
  rotation = 0;
  post_interval = 1;
  dump_count = 0;
  rotation_capability = false;
  backend_type = wayland_vulkan_wsi;
  backend_data = 0x4000;
  is_frontbuffer_mode = false;
  frontbuffer = null;
  reset_cb = null;
  reset_data = null;
}

abbrev pub chain : Swapchain
chain = record { format = 7; width = 64; height = 48; buffer_count = 3; present_mode = 2 }

abbrev pub buffer : Ptr → WsiBuffer
buffer b = record {
  display = 0x2000;
  wl_proxy = b + 0x100;
  sync_timeline = some 7;
  sync_timestamp = 0;
  wait_sync = none;
}

abbrev pub start : Libraries
start = record { attached = null; shown = 0x130 ∷ []; dirty = []; refs = λ b. 1; full = 2 }

abbrev pub worker : Worker (World Libraries)
worker = record {
  running = true;
  event_fd = some 3;
  surface_list = TplList.init;
  locked = false;
  support_vblank = true;
  store = λ p. zeroed_worker;
}

abbrev pub system : System Libraries
system = record {
  world = record {
    lib = start;
    displays = λ p. some capabilities;
    surfaces = λ p. some zeroed;
    buffers = λ b. some (buffer b);
    stopped = false;
  };
  worker = worker;
}
