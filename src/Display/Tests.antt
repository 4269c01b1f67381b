-- ===== src/Display/Tests.antt =====
-- Runs of the display operations on small inputs.
use libtpl_egl.Base.{ℕ, ◌≡◌, ◌≢◌, ◌∙◌, refl, true, false, inl, none, some, arith}
use libtpl_egl.Types.{
  TplResult, error_none, invalid_operation, window, Ptr, null, gbm, num_of_backends, backend_index,
  is_unknown, done, object_display,
}
use libtpl_egl.Hlist.{empty_heads}
use libtpl_egl.Hlist
use libtpl_egl.Hlist.Invariant.{create-IsValid, insert-IsValid}
use libtpl_egl.Hlist.Contents.{lookup-insert, insert_first}
use libtpl_egl.UtilMap.Hash.{bits64}
use libtpl_egl.Object.{HashCheck, Object, is_valid, object_init}
use libtpl_egl.Object.Validity.{object_init_valid, object_init_reference}
use libtpl_egl.Runtime.Find.{IsFirst, find_display-IsFirst}
use libtpl_egl.Runtime.{lookup_slot, Runtime}
use libtpl_egl.Runtime.Registry.{registered, IsValid, IsBackend}
use libtpl_egl.Display.{
  Display, Backends, World, CreateEnv, Config, zeroed_object, display_free_func, start_display,
  display_create, display_get, get_native_window_info, get_native_pixmap_info,
  query_supported_buffer_count, get_buffer_from_native_pixmap, query_supported_present_modes,
}
use libtpl_egl.Display.Release.{IsFaithful}
use libtpl_egl.Display.Create.{Ends, start_display-Ends}
use libtpl_egl.Display.Again.{display_create_found, display_create_again}
use libtpl_egl.Tbm.{TbmLib, DisplayEnv, Formats, display_backend}
use libtpl_egl.Tbm.Displays.{second_default_display}

-- A backend that initialises every display and has no other function.
abbrev plain : Backends
plain t = record {
  init = λ d. (error_none, d);
  fini = none;
  query_config = none;
  filter_config = none;
  get_window_info = none;
  get_pixmap_info = none;
  get_buffer_from_native_pixmap = none;
  query_window_supported_buffer_count = none;
  query_window_supported_present_modes = none;
}

plain-IsFaithful : IsFaithful plain
plain-IsFaithful = record {
  init_type = λ d. refl;
  init_base = λ d. refl;
  fini_type = λ t f d e. absurd (ground arith);
  fini_handle = λ t f d e. absurd (ground arith);
}

abbrev untracked : HashCheck
untracked = record { built = false; enabled = false; has_table = false; table = empty_heads }

abbrev env : CreateEnv
env = record {
  width = bits64;
  winsys = record { dri2 = false; dri3 = false; wl = true };
  platform = none;
  probes = record {
    is_tbm = false;
    is_gbm = true;
    is_wayland_egl = false;
    is_wayland_vk_wsi = false;
    is_x11_dri2 = false;
    is_x11_dri3 = false;
  };
  address = some 0x1000;
  mutex_init_ok = true;
  tracking_ok = true;
  mutex_destroy_ok = true;
  add = record {
    mutex_ok = true;
    runtime_ok = true;
    list_ok = true;
    heads_ok = true;
    node_ok = true;
  };
}

-- A registry in which the display at 0x5000 has the handle 0x9000, in every list.
abbrev taken : Runtime
taken = record { displays = λ i. some (Hlist.insert true empty_heads 0x9000 0x5000).1 }

taken-IsValid : IsValid (some taken)
taken-IsValid i = insert-IsValid true empty_heads 0x9000 0x5000 create-IsValid

abbrev made : TplResult × HashCheck × Object
made =
    object_init bits64 true true untracked (zeroed_object 0x1000) object_display display_free_func

abbrev world : HashCheck → World
world g = record { tracked = g; runtime = some taken; store = λ p. none }

abbrev fresh : Display
fresh = record {
  base = made.2;
  native_handle = 0x9000;
  bufmgr_fd = 0;
  backend_type = gbm;
  backend_data = null;
}

fresh_base-valid : (is_valid made.1 (some fresh.base) ≡ true) × (fresh.base.reference ≡ 1)
fresh_base-valid = (
  (object_init_valid bits64 true true untracked (zeroed_object 0x1000) object_display
      display_free_func (λ e. absurd (omega arith)) (inl refl)).0,
  object_init_reference bits64 true true untracked (zeroed_object 0x1000) object_display
      display_free_func,
)

gbm-IsBackend : IsBackend gbm
unfolding is_unknown backend_index
gbm-IsBackend = (refl, omega arith)

handle_there : registered (some taken) (backend_index gbm) 0x9000 ≡ 0x5000
unfolding registered lookup_slot
handle_there =
    rw (lookup-insert true empty_heads 0x9000 0x5000 0x9000, insert_first 0x9000 0x5000) refl

handle_taken : registered (some taken) (backend_index gbm) 0x9000 ≢ null
handle_taken e = absurd (omega (arith, handle_there, e))

-- Without the functions of a backend the queries fail with their own errors.
queries_without_backend :
    (get_native_window_info plain fresh 5 0 0 ≡ (invalid_operation, none))
    × (get_native_pixmap_info plain fresh 5 ≡ (invalid_operation, none))
    × (query_supported_buffer_count plain fresh 5 ≡ (invalid_operation, none))
    × (get_buffer_from_native_pixmap plain fresh 5 ≡ null)
    × (query_supported_present_modes plain fresh 5 ≡ (invalid_operation, none))
unfolding get_native_window_info get_native_pixmap_info query_supported_buffer_count
    get_buffer_from_native_pixmap query_supported_present_modes
queries_without_backend = (refl, refl, refl, refl, refl)

display_get-IsFirst :
    (p : Ptr) × (display_get (world untracked) 0x9000 ≡ done p)
    × IsFirst (some taken) 0x9000 0 num_of_backends p
unfolding display_get
display_get-IsFirst = find_display-IsFirst (some taken) 0x9000

start_display-Ends_example :
    Ends env true (world made.1) 0x1000 fresh (start_display env plain (world made.1) 0x1000 fresh)
start_display-Ends_example =
    start_display-Ends env plain (world made.1) 0x1000 fresh plain-IsFaithful gbm-IsBackend
      taken-IsValid fresh_base-valid.0 fresh_base-valid.1

created : display_create env plain (world untracked) gbm 0x9000 ≡ done (0x5000, world untracked)
created =
    display_create_found env plain (world untracked) gbm 0x9000 gbm-IsBackend handle_taken
    ∙ rw handle_there refl

display_create_again_example :
    display_create env plain (world untracked) gbm 0x9000 ≡ done (0x5000, world untracked)
display_create_again_example =
    display_create_again env plain (world untracked) (world untracked) gbm 0x9000 0x5000
      plain-IsFaithful gbm-IsBackend taken-IsValid refl (λ d. refl) env (λ e. absurd (ground arith))
      created (λ e. absurd (omega arith))

-- libtbm with nothing behind it, and what a display of it meets.
abbrev no_lib : TbmLib ℕ
no_lib = record {
  is_valid = λ b t. false;
  ref = λ b t. t;
  unref = λ b t. t;
  info = λ b t. record { width = 0; height = 0; format = 0 };
  queue_info = λ b t. record { width = 0; height = 0; format = 0 };
  queue_size = λ q t. 0;
  enqueue = λ q b t. (false, t);
  dequeue = λ q t. (false, null, t);
  can_dequeue = λ q t. (false, t);
  release = λ q b t. (false, t);
  add_destroy_cb = λ q t. t;
  remove_destroy_cb = λ q t. t;
  fence_wait = λ fd t. t;
  close = λ fd t. t;
  allocated = λ t. (true, t);
}

abbrev tbm_env : DisplayEnv
tbm_env = record { address = some 0x6000; bufmgr = 0x9000 }

abbrev formats : Formats
formats = record { argb8888 = 1; xrgb8888 = 2 }

second_default_display_example :
    (w' : World) × (start_display env
        (λ t. display_backend no_lib tbm_env formats true 0)
        (world made.1)
        0x1000
        (record fresh { native_handle = null })
      ≡ done (null, w'))
    × (registered w'.runtime (backend_index gbm) 0x9000 ≡ null)
second_default_display_example =
    second_default_display no_lib tbm_env formats true 0 env (world made.1) 0x1000
      (record fresh { native_handle = null }) gbm-IsBackend taken-IsValid fresh_base-valid.0
      fresh_base-valid.1 0x6000 refl refl handle_taken

abbrev config : Config
config = record { surface_type = window; red = 8; green = 8; blue = 8; alpha = 8; depth = 32 }
