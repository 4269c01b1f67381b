-- ===== src/Lib.antt =====
-- The core of libtpl-egl, the Tizen porting layer between EGL and a window system: its containers,
-- its reference-counted objects, the registry of displays, and the front end of displays and
-- surfaces, which checks its arguments, locks and calls a backend; and three backends, those for
-- libtbm and libgbm, and that of Vulkan on Wayland, with the worker thread that waits for the fences
-- of buffers; and the window objects of wayland-egl.
--
-- Base has the shared names, Boolean tests and list lemmas; Types the enumerations of src/tpl.h,
-- and the ways in which a call ends: with a value, in a read beyond an array, in TPL_ASSERT, in a
-- call through a NULL pointer, or, in the model, at the end of the fuel of a loop. A pointer is a
-- number and NULL is 0. Each component is a module with its data and operations, and child modules
-- with what is proved of it; its Tests run it on small inputs.
--
-- * Hlist is src/tpl_utils_hlist.c: `__tpl_hashlist_insert` is `insert`, and so on. A bucket is the
--   list of its nodes; the pointers `next` and `pprev` are the order of that list, and the two
--   functions that no operation calls, `__tpl_hlist_add_before` and `__tpl_hlist_add_behind`, are
--   left out. The 256 heads are a function of the index.
-- * UtilMap is src/tpl_utils_map.c: `tpl_util_map_set` is `set`. The functions on keys are fields of
--   the map, those of the library are in UtilMap/Hash, with their wrap-around written out; other
--   hash, length and comparison functions are parameters. Operations return the calls of free
--   functions that they make.
-- * TplList is the doubly linked list of src/tpl_utils.h, `__tpl_list_*`, as the data of its nodes
--   with the count beside them, which is what the other parts use. TplList/Nodes has the same functions
--   on nodes with `prev` and `next` at addresses, and those that hand out single nodes; the loop of
--   `__tpl_list_fini` is on fuel for one round more than there are nodes. `__tpl_list_remove_data` is
--   in TplList only.
-- * Object is src/tpl_object.c, with the atomic operations of src/tpl.c. It tracks valid addresses in
--   a hash list, and keeps user data in a map with pointer keys.
-- * Runtime is the registry of src/tpl.c, an array of hash lists from native handles to displays, and
--   the choice of a backend.
-- * Display is src/tpl_display.c. A world is the store of displays, the registry and the tracked
--   objects; `tpl_display_create` and the last `tpl_object_unreference` change all three.
-- * Surface is src/tpl_surface.c; its mutex is the field `locked` of its base object. Surface/Life is
--   the creation and the release of a surface.
-- * Worker is src/tpl_worker_thread.c: the list of surfaces, the two loops that take the next buffer
--   of a surface, and the answer to an event of epoll. Worker/Thread is the thread: its rounds, its
--   start and its end. epoll, the fences and libtdm are a record of functions on a state, and so are
--   the callbacks of a surface; the rounds and their events are given from outside.
-- * Tbm is src/tpl_tbm.c, which fills the records of functions of Display and Surface: its displays;
--   in Tbm/Buffers what the worker thread calls, in Tbm/Swapchain and Tbm/Surface its surfaces. It acts
--   on a state of libtbm, which is a parameter, the memory of its surfaces, and the worker. A mark in
--   the state says that an assertion failed or a NULL pointer was read. Tbm/Order has the steps of the
--   client and of the worker thread on one surface, in any order.
-- * Gbm is src/tpl_gbm.c, on a state of libtbm, libgbm and wayland-tbm; its surfaces are in Gbm/Surface.
-- * WaylandVkWsi is src/tpl_wayland_vk_wsi.c in the build with the worker thread, which fills the same
--   records: in WaylandVkWsi/Displays its displays, with the modes that the server announces, in
--   WaylandVkWsi/Buffers the callbacks of the worker thread and of events, in WaylandVkWsi/Swapchain and
--   WaylandVkWsi/Surface its surfaces. libwayland, wayland-tbm and libtbm are a record of functions on a
--   state; a dispatch gives the events whose callbacks are then run. What happens while a dequeue waits
--   for its condition variable is a parameter on the whole state.
-- * WaylandEgl is src/wayland-egl/wayland-egl.c; what function pointers point to is a parameter.
--
-- The functions of a backend are parameters, records of functions as in src/tpl_internal.h, some of
-- them missing; what is asked of them is a named hypothesis of the theorem that needs it. What
-- pthread, malloc and the environment return is an argument of each operation. An `int` or an
-- `unsigned int` is its 32-bit pattern; the address of an object and the keys of user data are 64-bit
-- words where a theorem asks for bounds. The loops are recursion on the list of a bucket or on the
-- number of rounds; the two loops of `__tpl_worker_prepare_draw_wait_buffer` run on fuel, of which one
-- more than the queue has buffers is enough. So do the round trip and the wait of a dequeue of the
-- Wayland backend; there one more than the dispatches, or the waits, that are still to come is enough.
--
-- Not modelled: the other backends (src/tpl_wayland_egl.c and the X11 files), which for the most part
-- call the libraries of their window systems; the build of src/tpl_wayland_vk_wsi.c without the
-- worker thread, which its text leaves out; the handler of vblanks that src/tpl_worker_thread.c has but never installs; logging, tracing and image dumps,
-- which are output only; and the interleaving of threads within one operation. In Tbm/Order a post
-- and a half round of the worker thread are one step each, as the mutex of the list would make them
-- if `__tpl_tbm_surface_enqueue_buffer` took it.
pub mod Base
pub mod Types
pub mod Hlist
pub mod UtilMap
pub mod TplList
pub mod Object
pub mod Runtime
pub mod Worker
pub mod Display
pub mod Surface
pub mod Tbm
pub mod Gbm
pub mod WaylandEgl
pub mod WaylandVkWsi
