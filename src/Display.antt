-- ===== src/Display.antt =====
-- The display objects of src/tpl_display.c. Displays live in a store at their addresses, and a
-- world is that store with the registry and the list of tracked objects. The functions of a
-- backend are a parameter; what the allocator and pthread return is an argument.
pub mod Release
pub mod Create
pub mod Again
pub mod Queries
mod Tests
use Prim.Native.String.{String}
use libtpl_egl.Base.{
  ℕ, Bool, true, false, not, ◌&&◌, ◌||◌, Option, none, some, List, [], ltb, leb, ◌==◌,
  if◌then◌else◌, update,
}
use libtpl_egl.Types.{
  TplResult, error_none, invalid_parameter, invalid_operation, succeeded, ObjectType,
  object_display, SurfaceType, Ptr, null, BackendType, unknown, backend_index, num_of_backends,
  is_unknown, Outcome, done, out_of_bounds, assertion_failed, ◌>>=◌,
}
use libtpl_egl.UtilMap.{FreeFunc}
use libtpl_egl.UtilMap.Hash.{PointerWidth}
use libtpl_egl.Object.{HashCheck, Object, Event, is_valid, object_init, unreference}
use libtpl_egl.Runtime.{
  Runtime, AddEnv, Winsys, Probes, find_display, add_display, remove_display, choose_backend,
  init_backend,
}

-- A window or a pixmap as a backend reports it.
pub record NativeInfo : Type 0 where
  pub width : ℕ
  pub height : ℕ
  pub format : ℕ

-- The configuration that a caller asks for.
pub record Config : Type 0 where
  pub surface_type : SurfaceType
  pub red : ℕ
  pub green : ℕ
  pub blue : ℕ
  pub alpha : ℕ
  pub depth : ℕ

-- `struct _tpl_display`; `backend_data` is `backend.data`.
pub record Display : Type 0 where
  pub base : Object
  pub native_handle : Ptr
  pub bufmgr_fd : ℕ
  pub backend_type : BackendType
  pub backend_data : Ptr

-- `struct _tpl_display_backend`: the functions of a backend, `none` for those that it leaves NULL.
-- A function that writes through pointers returns what it writes.
pub record DisplayBackend : Type 0 where
  pub init : Display → TplResult × Display
  pub fini : Option (Display → Display)
  pub query_config : Option (Display → Config → TplResult × Option (ℕ × Bool))
  pub filter_config : Option (Display → ℕ → ℕ → TplResult × ℕ)
  pub get_window_info : Option (Display → Ptr → ℕ → ℕ → TplResult × Option NativeInfo)
  pub get_pixmap_info : Option (Display → Ptr → TplResult × Option NativeInfo)
  pub get_buffer_from_native_pixmap : Option (Ptr → Ptr)
  pub query_window_supported_buffer_count : Option (Display → Ptr → TplResult × Option (ℕ × ℕ))
  pub query_window_supported_present_modes : Option (Display → Ptr → TplResult × Option ℕ)

-- The functions of each backend.
abbrev pub Backends : Type 0
Backends = BackendType → DisplayBackend

pub record World : Type 0 where
  pub tracked : HashCheck
  pub runtime : Option Runtime
  pub store : Ptr → Option Display

-- `free`, and the write of a whole display.
abbrev pub write : World → Ptr → Option Display → World
write w p d = record w { store = update w.store p d }

-- `if (display->backend.fini != NULL) display->backend.fini(display)`
pub ended : Backends → Display → Display
ended backends d = elim (backends d.backend_type).fini [ none ↦ d | some fini ↦ fini d ]

-- `__tpl_display_fini`
pub display_fini : Backends → World → Display → Outcome World
display_fini backends w d = do
  rt ← remove_display w.runtime (ended backends d).backend_type (ended backends d).native_handle
  done (record w { runtime = rt })

-- `__tpl_display_free`
pub display_free : Backends → World → Ptr → Display → Outcome World
unfolding display_fini
display_free backends w p d = do w' ← display_fini backends w d; done (write w' p none)

-- `tpl_object_unreference` of a display: where the count falls to 0 its `free` is
-- `__tpl_display_free`.
pub unreference_display : Backends → (mutex_ok : Bool) → World → Ptr → Display → Outcome (ℕ × World)
unfolding display_free
unreference_display backends mutex_ok w p d =
    let (left, tracked, base, events) = unreference mutex_ok w.tracked d.base in
    let d' = record d { base = base } in
    let w' = record w { tracked = tracked } in
    let freed = display_free backends w' p d' in
    if left == 0 then (do w'' ← freed; done (left, w'')) else done (left, write w' p (some d'))

-- What the environment returns in one call of `tpl_display_create`.
pub record CreateEnv : Type 0 where
  pub width : PointerWidth
  pub winsys : Winsys
  pub platform : Option String
  pub probes : Probes
  pub address : Option Ptr
  pub mutex_init_ok : Bool
  pub tracking_ok : Bool
  pub mutex_destroy_ok : Bool
  pub add : AddEnv

-- `calloc` gives an object of zeros; `__tpl_object_init` overwrites the functions of its map.
abbrev pub zeroed_object : Ptr → Object
zeroed_object p = record {
  address = p;
  magic = 0;
  type = object_display;
  reference = 0;
  free = 0;
  locked = false;
  user_data_map = record {
    funcs = record {
      hash_func = λ key len. 0;
      key_length_func = none;
      key_compare_func = λ key0 len0 key1 len1. 0;
    };
    bucket_bits = 0;
    bucket_size = 0;
    bucket_mask = 0;
    has_buckets = false;
    buckets = λ i. [];
  };
}

-- The number of `__tpl_display_free` among the free functions.
abbrev pub display_free_func : FreeFunc
display_free_func = 1

-- `(TPL_BACKEND_UNKNOWN == type) || (TPL_BACKEND_COUNT == type) || (TPL_BACKEND_MAX <= type)`
pub is_incompatible : BackendType → Bool
is_incompatible type = is_unknown type || leb num_of_backends (backend_index type)

-- The way out of `tpl_display_create` once there is an object: it is released, and NULL returned.
pub give_up : CreateEnv → Backends → World → Ptr → Display → Outcome (Ptr × World)
unfolding unreference_display
give_up env backends w p d = do
  (_, w') ← unreference_display backends env.mutex_destroy_ok w p d
  done (null, w')

-- `tpl_display_create` from the initialisation of the backend on.
pub start_display : CreateEnv → Backends → World → Ptr → Display → Outcome (Ptr × World)
start_display env backends w p d =
    let (ret, d') = (backends d.backend_type).init d in
    let w' = write w p (some d') in
    if not (succeeded ret) then give_up env backends w' p d' else do
      (ret', rt) ← add_display env.add w'.runtime d'.backend_type d'.native_handle p
      if succeeded ret'
          then done (p, record w' { runtime = rt })
          else give_up env backends (record w' { runtime = rt }) p d'

-- `tpl_display_create` once no display was found and a type is chosen.
pub make_display : CreateEnv → Backends → World → BackendType → Ptr → Outcome (Ptr × World)
unfolding is_incompatible
make_display env backends w type native_dpy =
    if is_incompatible type then done (null, w) else elim env.address [
      | none ↦ done (null, w)
      | some p ↦
          let (ret, tracked, base) =
            object_init env.width env.mutex_init_ok env.tracking_ok w.tracked (zeroed_object p)
              object_display display_free_func in
          let w' = record w { tracked = tracked } in
          if not (succeeded ret) then done (null, w') else do
            chosen ← init_backend env.winsys type
            start_display env backends w' p (record {
              base = base;
              native_handle = native_dpy;
              bufmgr_fd = 0;
              backend_type = chosen;
              backend_data = null;
            })
    ]

-- `tpl_display_create`: the display, and the world that is left.
pub display_create : CreateEnv → Backends → World → BackendType → Ptr → Outcome (Ptr × World)
display_create env backends w type native_dpy = do
  found ← find_display w.runtime type native_dpy
  let chosen = if is_unknown type then choose_backend env.winsys env.platform env.probes else type
  if not (found == null) then done (found, w) else make_display env backends w chosen native_dpy

-- `tpl_display_get`
pub display_get : World → Ptr → Outcome Ptr
display_get w native_dpy = find_display w.runtime unknown native_dpy

-- `!display || (__tpl_object_is_valid(&display->base) != TPL_TRUE)`
pub is_live : HashCheck → Option Display → Bool
is_live g none = false
is_live g (some d) = is_valid g (some d.base)

-- `tpl_display_get_native_handle`
pub get_native_handle : HashCheck → Option Display → Ptr
unfolding is_live
get_native_handle g none = null
get_native_handle g (some d) = if is_live g (some d) then d.native_handle else null

-- `tpl_display_query_config`: the result, and what is written through the pointers.
pub query_config : HashCheck → Backends → Option Display → Config → TplResult × Option (ℕ × Bool)
unfolding is_live
query_config g backends none c = (invalid_parameter, none)
query_config g backends (some d) c =
    if is_live g (some d)
    then elim (backends d.backend_type).query_config [
      | none ↦ (invalid_parameter, none)
      | some f ↦ f d c
    ]
    else (invalid_parameter, none)

-- `tpl_display_filter_config`: the result, and the visual after the call.
pub filter_config : HashCheck → Backends → Option Display → ℕ → ℕ → TplResult × ℕ
unfolding is_live
filter_config g backends none visual alpha = (invalid_parameter, visual)
filter_config g backends (some d) visual alpha =
    if is_live g (some d)
    then elim (backends d.backend_type).filter_config [
      | none ↦ (invalid_parameter, visual)
      | some f ↦ f d visual alpha
    ]
    else (invalid_parameter, visual)

-- `tpl_display_get_native_window_info`; like those below it does not check the display.
pub get_native_window_info : Backends → Display → Ptr → ℕ → ℕ → TplResult × Option NativeInfo
get_native_window_info backends d win depth a_size =
    elim (backends d.backend_type).get_window_info [
      | none ↦ (invalid_operation, none)
      | some f ↦ f d win depth a_size
    ]

-- `tpl_display_get_native_pixmap_info`
pub get_native_pixmap_info : Backends → Display → Ptr → TplResult × Option NativeInfo
get_native_pixmap_info backends d pix = elim (backends d.backend_type).get_pixmap_info [
  | none ↦ (invalid_operation, none)
  | some f ↦ f d pix
]

-- `tpl_display_query_supported_buffer_count_from_native_window`
pub query_supported_buffer_count : Backends → Display → Ptr → TplResult × Option (ℕ × ℕ)
query_supported_buffer_count backends d win =
    elim (backends d.backend_type).query_window_supported_buffer_count [
      | none ↦ (invalid_operation, none)
      | some f ↦ f d win
    ]

-- `tpl_display_get_buffer_from_native_pixmap`
pub get_buffer_from_native_pixmap : Backends → Display → Ptr → Ptr
get_buffer_from_native_pixmap backends d pix =
    elim (backends d.backend_type).get_buffer_from_native_pixmap [ none ↦ null | some f ↦ f pix ]

-- `tpl_display_query_supported_present_modes_from_native_window`
pub query_supported_present_modes : Backends → Display → Ptr → TplResult × Option ℕ
query_supported_present_modes backends d win =
    elim (backends d.backend_type).query_window_supported_present_modes [
      | none ↦ (invalid_operation, none)
      | some f ↦ f d win
    ]
