-- ===== src/Gbm/Tests.antt =====
-- Runs of the GBM backend on small inputs.
use libtpl_egl.Base.{ℕ, ◌+◌, ◌-◌, ◌≡◌, refl, true, false, none, some}
use libtpl_egl.Types.{error_none, window, Ptr, null, gbm}
use libtpl_egl.Object.{minus_one}
use libtpl_egl.Display.{zeroed_object}
use libtpl_egl.Surface.{Surface, Damage}
use libtpl_egl.Gbm.{GbmLib, World, filter_config, choose_backend_gbm, get_window_info}
use libtpl_egl.Gbm.Surface.{surface_init, get_gbm_buffer, buffer_free}

-- The references of the one buffer 0x40, in a queue that always has it.
abbrev lib : GbmLib ℕ
lib = record {
  tbm = record {
    is_valid = λ b t. true;
    ref = λ b t. t + 1;
    unref = λ b t. t - 1;
    info = λ b t. record { width = 64; height = 48; format = 7 };
    queue_info = λ b t. record { width = 640; height = 480; format = 7 };
    queue_size = λ q t. 3;
    enqueue = λ q b t. (true, t);
    dequeue = λ q t. (true, 0x40, t);
    can_dequeue = λ q t. (true, t);
    release = λ q b t. (true, t);
    add_destroy_cb = λ q t. t;
    remove_destroy_cb = λ q t. t;
    fence_wait = λ fd t. t;
    close = λ fd t. t;
    allocated = λ t. (true, t);
  };
  surface_queue = λ p t. p;
  server_surface = λ p t. 0x40;
  bo = λ b t. 0x80;
  is_supported = λ d f t. true;
}

abbrev surface : Surface
surface = record {
  base = zeroed_object 0x1000;
  display = 0x2000;
  native_handle = 0x3000;
  type = window;
  format = 7;
  width = 0;
  height = 0;
  rotation = 0;
  post_interval = 1;
  dump_count = 0;
  rotation_capability = false;
  backend_type = gbm;
  backend_data = 0x4000;
  is_frontbuffer_mode = false;
  frontbuffer = null;
  reset_cb = null;
  reset_data = null;
}

-- The buffer has one reference, that of the queue.
abbrev world : World ℕ
world = record {
  lib = 1;
  surfaces = λ p. some (record { tbm_queue = 0x3000; current_buffer = null });
  buffers = λ b. none;
  stopped = false;
}

abbrev handle : Ptr → Ptr
handle d = 0x5000

abbrev damage : Damage
damage = record { num_rects = 0; rects = null; sync_fence = minus_one }

init_window :
    let r = surface_init lib (some 0x4000) surface world in
    (r.0 ≡ error_none) × (r.1.width ≡ 640) × (r.1.height ≡ 480)
unfolding surface_init get_window_info
init_window = (refl, refl, refl)

-- Without memory, or of a native display that is not one of libgbm, nothing is made.
displays :
    (choose_backend_gbm 0x70 (λ p. 0x71) 0x10 ≡ false)
    × (choose_backend_gbm 0x70 (λ p. 0x70) 0x10 ≡ true)
    × (filter_config
          (record { argb8888 = 1; xrgb8888 = 2 })
          (record {
            base = zeroed_object 0x100;
            native_handle = 0x10;
            bufmgr_fd = 0;
            backend_type = gbm;
            backend_data = null;
          })
          1
          0
        ≡ (error_none, 2))
unfolding choose_backend_gbm filter_config
displays = (refl, refl, refl)

freed : get_gbm_buffer lib (buffer_free lib world 0x40) 0x40 ≡ none
unfolding get_gbm_buffer buffer_free
freed = refl
