-- ===== src/Surface.antt =====
-- The surface objects of src/tpl_surface.c: the checks, the mutex and the front buffer before the
-- calls of the backend. The functions of the backend are a parameter and act on a state of their
-- own beside the surface. An `int` is its 32-bit pattern.
pub mod Checks
pub mod Mutex
pub mod Frontbuffer
pub mod Life
mod Tests
use libtpl_egl.Base.{
  ℕ, ◌-◌, ◌^◌, Bool, true, false, not, ◌&&◌, ◌||◌, Option, none, some, List, [], leb, ◌==◌,
  if◌then◌else◌,
}
use libtpl_egl.Types.{
  TplResult, error_none, invalid_parameter, invalid_operation, SurfaceType, surface_error, window,
  pixmap, surface_max, Ptr, null, BackendType, Outcome, done, assertion_failed, null_call, ◌>>=◌,
}
use libtpl_egl.Object.{Object, object_lock, object_unlock, minus_one}

-- `struct _tpl_surface`
pub record Surface : Type 0 where
  pub base : Object
  pub display : Ptr
  pub native_handle : Ptr
  pub type : SurfaceType
  pub format : ℕ
  pub width : ℕ
  pub height : ℕ
  pub rotation : ℕ
  pub post_interval : ℕ
  pub dump_count : ℕ
  pub rotation_capability : Bool
  pub backend_type : BackendType
  pub backend_data : Ptr
  pub is_frontbuffer_mode : Bool
  pub frontbuffer : Ptr
  pub reset_cb : Ptr
  pub reset_data : Ptr

-- The arguments of `enqueue_buffer` behind the buffer.
pub record Damage : Type 0 where
  pub num_rects : ℕ
  pub rects : Ptr
  pub sync_fence : ℕ

-- The arguments of `create_swapchain`.
pub record Swapchain : Type 0 where
  pub format : ℕ
  pub width : ℕ
  pub height : ℕ
  pub buffer_count : ℕ
  pub present_mode : ℕ

-- `struct _tpl_surface_backend` on a state `S`: the functions that the front end calls, `none` for
-- those that a backend leaves NULL. `dequeue_buffer` takes the timeout.
pub record SurfaceBackend (S : Type 0) : Type 0 where
  pub init : Option (Surface → S → TplResult × Surface × S)
  pub fini : Option (Surface → S → S)
  pub validate : Option (Surface → S → Bool × Surface × S)
  pub dequeue_buffer : Option (ℕ → Surface → S → Ptr × Surface × S)
  pub enqueue_buffer : Option (Ptr → Damage → Surface → S → TplResult × Surface × S)
  pub get_swapchain_buffers : Option (Surface → S → (TplResult × List Ptr) × Surface × S)
  pub create_swapchain : Option (Swapchain → Surface → S → TplResult × Surface × S)
  pub destroy_swapchain : Option (Surface → S → TplResult × Surface × S)

-- `TPL_OBJECT_LOCK` and `TPL_OBJECT_UNLOCK`; the result of the former is not looked at.
unfoldable pub lock : (mutex_ok : Bool) → Surface → Surface
unfolding object_lock
lock mutex_ok s = record s { base = (object_lock mutex_ok s.base).1 }

unfoldable pub unlock : Surface → Surface
unfolding object_unlock
unlock s = record s { base = object_unlock s.base }

-- `surface->type != TPL_SURFACE_TYPE_WINDOW`, negated.
unfoldable pub is_window : SurfaceType → Bool
is_window window = true
is_window t = false

-- `surface->is_frontbuffer_mode == set`
pub same_bool : Bool → Bool → Bool
same_bool true b = b
same_bool false b = not b

-- `x <= 0` for an `int`.
unfoldable pub is_nonpositive : ℕ → Bool
is_nonpositive x = x == 0 || leb (2 ^ 31) x

-- `tpl_surface_get_display`; `none` is the NULL pointer here and below.
pub get_display : Option Surface → Ptr
get_display none = null
get_display (some s) = s.display

-- `tpl_surface_get_native_handle`
pub get_native_handle : Option Surface → Ptr
get_native_handle none = null
get_native_handle (some s) = s.native_handle

-- `tpl_surface_get_type`
pub get_type : Option Surface → SurfaceType
get_type none = surface_error
get_type (some s) = s.type

-- `tpl_surface_get_size`: the result, and the size that is written.
pub get_size : Option Surface → TplResult × Option (ℕ × ℕ)
get_size none = (invalid_parameter, none)
get_size (some s) = (error_none, some (s.width, s.height))

-- `tpl_surface_get_rotation`
pub get_rotation : Option Surface → TplResult × Option ℕ
get_rotation none = (invalid_parameter, none)
get_rotation (some s) = (error_none, some s.rotation)

-- `tpl_surface_set_post_interval`
pub set_post_interval : (mutex_ok : Bool) → Option Surface → ℕ → TplResult × Option Surface
unfolding lock unlock is_window
set_post_interval mutex_ok none interval = (invalid_parameter, none)
set_post_interval mutex_ok (some s) interval =
    if is_window s.type
    then (error_none, some (unlock (record (lock mutex_ok s) { post_interval = interval })))
    else (invalid_parameter, some s)

-- `tpl_surface_get_post_interval`
pub get_post_interval : (mutex_ok : Bool) → Option Surface → ℕ × Option Surface
unfolding lock unlock is_window
get_post_interval mutex_ok none = (minus_one, none)
get_post_interval mutex_ok (some s) =
    if is_window s.type
    then ((lock mutex_ok s).post_interval, some (unlock (lock mutex_ok s)))
    else (minus_one, some s)

-- `tpl_surface_set_frontbuffer_mode`
pub set_frontbuffer_mode : (mutex_ok : Bool) → Option Surface → Bool → TplResult × Option Surface
unfolding lock unlock
set_frontbuffer_mode mutex_ok none set = (invalid_parameter, none)
set_frontbuffer_mode mutex_ok (some s) set =
    if same_bool s.is_frontbuffer_mode set then (error_none, some (unlock (lock mutex_ok s))) else (
      error_none,
      some (unlock (record (lock mutex_ok s) { is_frontbuffer_mode = set; frontbuffer = null })),
    )

-- `tpl_surface_set_reset_cb`
pub set_reset_cb : (mutex_ok : Bool) → Option Surface → Ptr → Ptr → TplResult × Option Surface
unfolding lock unlock
set_reset_cb mutex_ok none reset_data reset_cb = (invalid_parameter, none)
set_reset_cb mutex_ok (some s) reset_data reset_cb = (
  error_none,
  some (unlock (record (lock mutex_ok s) { reset_data = reset_data; reset_cb = reset_cb })),
)

-- `tpl_surface_set_rotation_capability`
pub set_rotation_capability : (mutex_ok : Bool) → Option Surface → Bool → TplResult × Option Surface
unfolding lock unlock is_window
set_rotation_capability mutex_ok none set = (invalid_parameter, none)
set_rotation_capability mutex_ok (some s) set =
    if is_window s.type
    then (error_none, some (unlock (record (lock mutex_ok s) { rotation_capability = set })))
    else (invalid_parameter, some s)

module _ {S : Type 0} (backend : SurfaceBackend S) (mutex_ok : Bool) where
  -- `tpl_surface_validate`
  pub validate : Option Surface → S → Bool × Option Surface × S
  unfolding lock unlock is_window
  validate none state = (false, none, state)
  validate (some s) state =
      if is_window s.type
      then elim backend.validate [
        | none ↦ (false, some s, state)
        | some f ↦
            let (valid, s', state') = f (lock mutex_ok s) state in (valid, some (unlock s'), state')
      ]
      else (false, some s, state)

  -- The choice of the front buffer in `tpl_surface_dequeue_buffer_with_sync`: it is taken if the
  -- backend still holds the surface valid, and forgotten if not.
  pub take_frontbuffer : Surface → S → Outcome (Ptr × Surface × S)
  take_frontbuffer s state =
      if s.is_frontbuffer_mode && not (s.frontbuffer == null)
      then elim backend.validate [
        | none ↦ null_call
        | some f ↦
            let (valid, s', state') = f s state in
            if valid
            then done (s'.frontbuffer, s', state')
            else done (null, record s' { frontbuffer = null }, state')
      ]
      else done (null, s, state)

  -- `tpl_surface_dequeue_buffer_with_sync`. `size_of` is the width and the height of a buffer.
  pub dequeue_buffer_with_sync :
      (size_of : Ptr → ℕ × ℕ)
      → (timeout : ℕ) → Option Surface
      → S
      → Outcome (Ptr × Option Surface × S)
  unfolding take_frontbuffer lock unlock
  dequeue_buffer_with_sync size_of timeout none state = assertion_failed
  dequeue_buffer_with_sync size_of timeout (some s) state = elim backend.dequeue_buffer [
    | none ↦ done (null, some s, state)
    | some dequeue ↦ do
      (front, s₁, state₁) ← take_frontbuffer (lock mutex_ok s) state
      let (buffer, s₂, state₂) =
          if front == null then dequeue timeout s₁ state₁ else (front, s₁, state₁)
      done (
        buffer,
        some (
            unlock (
              if buffer == null
              then s₂
              else record s₂ { width = (size_of buffer).0; height = (size_of buffer).1 })),
        state₂,
      )
  ]

  -- `tpl_surface_dequeue_buffer`: with the timeout UINT64_MAX.
  pub dequeue_buffer :
      (size_of : Ptr → ℕ × ℕ) → Option Surface → S → Outcome (Ptr × Option Surface × S)
  unfolding dequeue_buffer_with_sync
  dequeue_buffer size_of = dequeue_buffer_with_sync size_of (2 ^ 64 - 1)

  -- The call of the backend in `tpl_surface_enqueue_buffer_with_damage_and_sync`.
  unfoldable pub post : Surface → Ptr → Damage → S → Outcome (TplResult × Option Surface × S)
  unfolding unlock
  post s buffer damage state = elim backend.enqueue_buffer [
    | none ↦ null_call
    | some enqueue ↦
        let (ret, s', state') = enqueue buffer damage s state in
        done (ret, some (unlock s'), state')
  ]

  -- `tpl_surface_enqueue_buffer_with_damage_and_sync`
  unfoldable pub enqueue_buffer_with_damage_and_sync :
      Option Surface → Ptr → Damage → S → Outcome (TplResult × Option Surface × S)
  unfolding post lock unlock is_window
  enqueue_buffer_with_damage_and_sync none buffer damage state =
      done (invalid_parameter, none, state)
  enqueue_buffer_with_damage_and_sync (some s) buffer damage state =
      if not (is_window s.type)
      then done (invalid_parameter, some s, state)
      else if buffer == null
      then done (invalid_parameter, some s, state)
      else if not s.is_frontbuffer_mode
      then post (lock mutex_ok s) buffer damage state
      else if s.frontbuffer == buffer
      then done (error_none, some (unlock (lock mutex_ok s)), state)
      else post (record (lock mutex_ok s) { frontbuffer = buffer }) buffer damage state

  -- `tpl_surface_enqueue_buffer`: no damage, and no fence.
  pub enqueue_buffer : Option Surface → Ptr → S → Outcome (TplResult × Option Surface × S)
  unfolding enqueue_buffer_with_damage_and_sync
  enqueue_buffer s buffer =
      enqueue_buffer_with_damage_and_sync s buffer
        (record { num_rects = 0; rects = null; sync_fence = minus_one })

  -- `tpl_surface_enqueue_buffer_with_damage`: no fence.
  pub enqueue_buffer_with_damage :
      Option Surface
      → Ptr
      → (num_rects : ℕ) → (rects : Ptr) → S
      → Outcome (TplResult × Option Surface × S)
  unfolding enqueue_buffer_with_damage_and_sync
  enqueue_buffer_with_damage s buffer num_rects rects =
      enqueue_buffer_with_damage_and_sync s buffer
        (record { num_rects = num_rects; rects = rects; sync_fence = minus_one })

  -- `tpl_surface_get_swapchain_buffers`; `wanted` says that `buffer_count` is not NULL.
  pub get_swapchain_buffers :
      (wanted : Bool) → Option Surface → S → (TplResult × List Ptr) × Option Surface × S
  unfolding lock unlock is_window
  get_swapchain_buffers wanted none state = ((invalid_parameter, []), none, state)
  get_swapchain_buffers wanted (some s) state =
      if not (is_window s.type)
      then ((invalid_parameter, []), some s, state)
      else if not wanted
      then ((invalid_parameter, []), some s, state)
      else elim backend.get_swapchain_buffers [
        | none ↦ ((invalid_operation, []), some s, state)
        | some f ↦ let (r, s', state') = f (lock mutex_ok s) state in (r, some (unlock s'), state')
      ]

  -- `tpl_surface_create_swapchain`
  pub create_swapchain : Option Surface → Swapchain → S → TplResult × Option Surface × S
  unfolding lock unlock
  create_swapchain none c state = (invalid_parameter, none, state)
  create_swapchain (some s) c state =
      if is_nonpositive c.width || is_nonpositive c.height
      then (invalid_parameter, some s, state)
      else elim backend.create_swapchain [
        | none ↦ (invalid_operation, some s, state)
        | some f ↦
            let (r, s', state') = f c (lock mutex_ok s) state in (r, some (unlock s'), state')
      ]

  -- `tpl_surface_destroy_swapchain`
  pub destroy_swapchain : Option Surface → S → TplResult × Option Surface × S
  unfolding lock unlock
  destroy_swapchain none state = (invalid_parameter, none, state)
  destroy_swapchain (some s) state = elim backend.destroy_swapchain [
    | none ↦ (invalid_operation, some s, state)
    | some f ↦ let (r, s', state') = f (lock mutex_ok s) state in (r, some (unlock s'), state')
  ]
