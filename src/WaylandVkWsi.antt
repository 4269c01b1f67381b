-- ===== src/WaylandVkWsi.antt =====
-- The Vulkan WSI backend of src/tpl_wayland_vk_wsi.c, with the worker thread: what it is made of.
-- libwayland, wayland-tbm, libtbm and the clock are a parameter.
pub mod Displays
pub mod Buffers
pub mod Swapchain
pub mod Surface
pub mod Events
pub mod Refs
pub mod Times
pub mod Capable
pub mod Ends
pub mod Branches
mod Samples
mod Tests
mod Runs
use libtpl_egl.Base.{ℕ, Bool, Option, List}
use libtpl_egl.Types.{Ptr}
use libtpl_egl.TplList.{TplList}
use libtpl_egl.Worker.{Fd, Worker}
use libtpl_egl.Display.{Display}
use libtpl_egl.Tbm.{TbmLib, Mutex}

-- `CLIENT_QUEUE_SIZE`
abbrev pub client_queue_size : ℕ
client_queue_size = 3

-- `struct _tpl_wayland_vk_wsi_display`; `present_modes` is a set of bits.
pub record WsiDisplay : Type 0 where
  pub wl_tbm_client : Ptr
  pub min_buffer : ℕ
  pub max_buffer : ℕ
  pub present_modes : ℕ
  pub wl_vk_client : Ptr

-- `struct _tpl_wayland_vk_wsi_surface`; its `worker_surface` is in the store of the worker at its
-- address, and `free_queue_cond` goes with its mutex.
pub record WsiSurface : Type 0 where
  pub tbm_queue : Ptr
  pub buffer_count : ℕ
  pub free_queue_mutex : Mutex
  pub vblank_list : TplList
  pub vblank_list_mutex : Mutex
  pub vblank_done : Bool
  pub present_mode : ℕ

-- `struct _tpl_wayland_vk_wsi_buffer`
pub record WsiBuffer : Type 0 where
  pub display : Ptr
  pub wl_proxy : Ptr
  pub sync_timeline : Fd
  pub sync_timestamp : ℕ
  pub wait_sync : Fd

-- The events for which the backend has a callback: the answer to `wl_display_sync`, that to
-- `wl_surface_frame`, and the release of a buffer, with the data of the listener.
pub data Event : Type 0 where
  synced framed : Event
  released : (data_of : Ptr) → Event

-- What the backend calls, on a state `T`. `dispatch` is `wl_display_dispatch`: whether it did not
-- return -1, and the events whose callbacks it has to call. `fence_create` has the timeline, the
-- buffer after which the fence is named, and the timestamp. `clock` is `clock_gettime`, seconds and
-- nanoseconds.
pub record WaylandLib (T : Type 0) : Type 0 where
  pub tbm : TbmLib T
  pub dispatch : Ptr → T → Bool × List Event × T
  pub sync : Ptr → T → T
  pub callback_destroy : T → T
  pub flush : Ptr → T → T
  pub attach : (surface proxy : Ptr) → T → T
  pub damage : (surface : Ptr) → (width height : ℕ) → T → T
  pub frame : (surface buffer : Ptr) → T → T
  pub commit : (surface : Ptr) → T → T
  pub queue_create : (count width height : ℕ) → T → Ptr × T
  pub queue_destroy : Ptr → T → T
  pub create_buffer : (client buffer : Ptr) → T → Ptr × T
  pub destroy_buffer : (client proxy : Ptr) → T → T
  pub proxy_destroy : Ptr → T → T
  pub add_release_listener : (proxy buffer : Ptr) → T → T
  pub timeline_create : T → Fd × T
  pub set_sync_timeline : (client proxy : Ptr) → Fd → T → T
  pub fence_create : Fd → (buffer : Ptr) → (timestamp : ℕ) → T → Fd × T
  pub clock : T → (ℕ × ℕ) × T
  pub signal : (surface : Ptr) → T → T

-- The state on which the backend acts: the libraries, the displays, surfaces and buffers of the
-- backend at their addresses, where a buffer is at the address of the tbm_surface whose user data it
-- is. `stopped` says that an assertion failed, that a NULL pointer was read, or that a loop is not
-- left with the fuel it was given: nothing is said of what follows.
pub record World (T : Type 0) : Type 0 where
  pub lib : T
  pub displays : Ptr → Option WsiDisplay
  pub surfaces : Ptr → Option WsiSurface
  pub buffers : Ptr → Option WsiBuffer
  pub stopped : Bool

-- The world with the worker thread.
pub record System (T : Type 0) : Type 0 where
  pub world : World T
  pub worker : Worker (World T)

-- The object of a display at its address, which does not change while it has surfaces.
abbrev pub DisplayAt : Type 0
DisplayAt = Ptr → Display
