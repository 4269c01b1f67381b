-- ===== src/Surface/Tests.antt =====
-- Runs of the surface operations on small inputs.
use libtpl_egl.Base.{
  ◌==◌, ◌||◌, not, ap, ℕ, suc, ◌-◌, ◌^◌, ◌≡◌, refl, Bool, true, false, Option, none, some, arith,
  inl, ◌⊎◌,
}
use libtpl_egl.Types.{
  succeeded, object_surface, TplResult, error_none, invalid_parameter, window, surface_error, Ptr,
  null, BackendType, gbm, done,
}
use libtpl_egl.Hlist.{empty_heads}
use libtpl_egl.UtilMap.Hash.{bits64}
use libtpl_egl.Object.{object_init, HashCheck, minus_one}
use libtpl_egl.Runtime.{init_backend}
use libtpl_egl.Display.{zeroed_object}
use libtpl_egl.Surface.{
  Surface, SurfaceBackend, Damage, Swapchain, lock, unlock, is_window, get_display,
  get_native_handle, get_type, get_size, get_rotation, set_frontbuffer_mode,
  dequeue_buffer_with_sync, dequeue_buffer, enqueue_buffer_with_damage_and_sync, enqueue_buffer,
  enqueue_buffer_with_damage, post,
}
use libtpl_egl.Surface.Life.{filled, surface_free_func, CreateEnv, surface_create}
use libtpl_egl.Surface.Life.Ends.{IsMade, IsGivenUp, surface_create_ends}
use libtpl_egl.Surface.Mutex.{EndsFree, buffer_calls_end}
use libtpl_egl.Surface.Frontbuffer.{
  Hands, IsConsistent, EndsConsistent, SameFront, dequeue-enqueue, calls_keep-IsConsistent,
}

-- A backend that counts the posts, and hands out the buffer 0x40.
abbrev validates : Surface → ℕ → Bool × Surface × ℕ
validates s n = (true, s, n)

abbrev dequeues : ℕ → Surface → ℕ → Ptr × Surface × ℕ
dequeues timeout s n = (0x40, s, n)

abbrev enqueues : Ptr → Damage → Surface → ℕ → TplResult × Surface × ℕ
enqueues buffer damage s n = (error_none, s, suc n)

abbrev starts : Surface → ℕ → TplResult × Surface × ℕ
starts s n = (error_none, s, n)

abbrev ends : BackendType → Surface → ℕ → ℕ
ends t s n = n

abbrev counting : SurfaceBackend ℕ
counting = record {
  init = some starts;
  fini = some (ends gbm);
  validate = some validates;
  dequeue_buffer = some dequeues;
  enqueue_buffer = some enqueues;
  get_swapchain_buffers = none;
  create_swapchain = none;
  destroy_swapchain = none;
}

abbrev fresh : Surface
fresh = record {
  base = zeroed_object 0x1000;
  display = 0x2000;
  native_handle = 0x3000;
  type = window;
  format = 7;
  width = 0;
  height = 0;
  rotation = 0;
  post_interval = 1;
  dump_count = 0;
  rotation_capability = false;
  backend_type = gbm;
  backend_data = null;
  is_frontbuffer_mode = true;
  frontbuffer = null;
  reset_cb = null;
  reset_data = null;
}

abbrev no_damage : Damage
no_damage = record { num_rects = 0; rects = null; sync_fence = minus_one }

abbrev chain : Swapchain
chain = record { format = 7; width = 64; height = 48; buffer_count = 3; present_mode = 0 }

abbrev square : Ptr → ℕ × ℕ
square b = (64, 48)

-- The surface after a post of the buffer 0x80.
abbrev posted : Surface
posted = record fresh { frontbuffer = 0x80 }

getters :
    (get_display (some fresh) ≡ 0x2000)
    × (get_native_handle none ≡ null)
    × (get_type none ≡ surface_error)
    × (get_size (some fresh) ≡ (error_none, some (0, 0)))
    × (get_rotation none ≡ (invalid_parameter, none))
unfolding get_display get_native_handle get_type get_size get_rotation
getters = (refl, refl, refl, refl, refl)

post_of_buffer :
    enqueue_buffer_with_damage_and_sync counting true (some fresh) 0x80 no_damage 0
    ≡ done (error_none, some posted, 1)
unfolding enqueue_buffer_with_damage_and_sync post lock unlock is_window
post_of_buffer = refl

default_arguments :
    (enqueue_buffer counting true (some fresh) 0x80 0 ≡ done (error_none, some posted, 1))
    × (enqueue_buffer_with_damage counting true (some fresh) 0x80 0 null 0
        ≡ done (error_none, some posted, 1))
    × (dequeue_buffer counting true square (some posted) 1
        ≡ dequeue_buffer_with_sync counting true square (2 ^ 64 - 1) (some posted) 1)
unfolding enqueue_buffer enqueue_buffer_with_damage enqueue_buffer_with_damage_and_sync post lock
    unlock is_window dequeue_buffer
default_arguments = (refl, refl, refl)

buffer_calls_end_example :
    EndsFree (dequeue_buffer_with_sync counting true square 5 (some fresh) 0)
    × EndsFree (enqueue_buffer_with_damage_and_sync counting true (some fresh) 0x80 no_damage 0)
buffer_calls_end_example =
    buffer_calls_end counting true validates dequeues enqueues refl refl refl square 5 fresh 0 0x80
      no_damage refl

window_is : is_window window ≡ true
unfolding is_window
window_is = refl

keeps : (s : Surface) → SameFront s s
keeps s = record { type = refl; mode = refl; buffer = refl }

dequeue-enqueue_example :
    Hands 0x80 (dequeue_buffer_with_sync counting true square 5 (some posted) 1)
    × (enqueue_buffer_with_damage_and_sync counting true (some posted) 0x80 no_damage 1
        ≡ done (error_none, some (unlock (lock true posted)), 1))
dequeue-enqueue_example =
    dequeue-enqueue counting true validates dequeues enqueues refl refl refl (λ s n. keeps s)
      (λ t s n. keeps s) (λ b d s n. keeps s) square 5 fresh 0 0x80 no_damage no_damage error_none
      posted 1 window_is refl refl post_of_buffer refl

calls_keep-IsConsistent_example :
    IsConsistent (set_frontbuffer_mode true (some posted) false).1
    × EndsConsistent (dequeue_buffer_with_sync counting true square 5 (some posted) 0)
    × EndsConsistent
        (enqueue_buffer_with_damage_and_sync counting true (some posted) 0x90 no_damage 0)
calls_keep-IsConsistent_example =
    calls_keep-IsConsistent counting true validates dequeues enqueues refl refl refl
      (λ s n. keeps s) (λ t s n. keeps s) (λ b d s n. keeps s) square 5 posted 0 false 0x90
      no_damage (λ e. absurd (ground arith))

abbrev untracked : HashCheck
untracked = record { built = false; enabled = false; has_table = false; table = empty_heads }

abbrev env : CreateEnv
env = record {
  width = bits64;
  winsys = record { dri2 = false; dri3 = false; wl = true };
  address = some 0x1000;
  mutex_init_ok = true;
  tracking_ok = true;
  mutex_destroy_ok = true;
}

abbrev all_counting : BackendType → SurfaceBackend ℕ
all_counting t = counting

init_same :
    (t : BackendType) (init : Surface → ℕ → TplResult × Surface × ℕ) (s : Surface) (n : ℕ)
    → (all_counting t).init ≡ some init
    → (init s n).1.base ≡ s.base
init_same t init s n e =
    let same : init ≡ starts = cc in
    ap (λ (f : Surface → ℕ → TplResult × Surface × ℕ). (f s n).1.base) same

gbm_there : init_backend env.winsys gbm ≡ done gbm
unfolding init_backend
gbm_there = refl

surface_create_ends_example :
    let (ret, g', base) =
      object_init bits64 true true untracked
        (zeroed_object 0x1000)
        object_surface
        surface_free_func in
    let s = filled base 0x2000 0x3000 window 7 gbm in
    (r : Option Surface × HashCheck × ℕ) × (surface_create all_counting env untracked 0x2000 gbm
        0x3000 window 7 0
      ≡ done r)
    × ((((◌==◌ 0x2000 null) || (◌==◌ 0x3000 null) || not (succeeded ret)) ≡ true)
          × (r.0 ≡ none)
          × (r.2 ≡ 0)
        ⊎ ((((◌==◌ 0x2000 null) || (◌==◌ 0x3000 null) || not (succeeded ret)) ≡ false)
            × (IsMade all_counting ends (λ t. refl) init_same s 0 r
                ⊎ IsGivenUp all_counting ends (λ t. refl) init_same s 0 r)))
surface_create_ends_example =
    surface_create_ends all_counting ends (λ t. refl) init_same env untracked 0x2000 gbm 0x3000
      window 7 0 0x1000 gbm_there refl (λ e. absurd (omega arith)) (inl refl)
