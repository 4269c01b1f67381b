-- ===== src/WaylandEgl.antt =====
-- The window objects of src/wayland-egl/wayland-egl.c. A function pointer is a number; what it
-- points to is a parameter, and acts on the window and on a state of its own. An `int` is its 32-bit
-- pattern.
pub mod Sizes
mod Tests
use libtpl_egl.Base.{ℕ, Bool, true, false, not, ◌&&◌, ◌||◌, Option, none, some, ◌==◌, if◌then◌else◌}
use libtpl_egl.Types.{Ptr, null}
use libtpl_egl.Surface.{is_nonpositive}

-- `wl_egl_window_rotation`, with the other values that it can hold.
pub data Rotation : Type 0 where
  rotation_0 rotation_90 rotation_180 rotation_270 : Rotation
  other : ℕ → Rotation

-- `struct wl_egl_window`
pub record Window : Type 0 where
  pub surface : Ptr
  pub width : ℕ
  pub height : ℕ
  pub dx : ℕ
  pub dy : ℕ
  pub attached_width : ℕ
  pub attached_height : ℕ
  pub rotation : Rotation
  pub private : Ptr
  pub resize_callback : Ptr
  pub rotate_callback : Ptr
  pub get_rotation_capability : Ptr

-- The cases ROTATION_90 and ROTATION_270 of a `switch`, and ROTATION_0 and ROTATION_180.
pub is_turned : Rotation → Bool
is_turned rotation_90 = true
is_turned rotation_270 = true
is_turned r = false

pub is_level : Rotation → Bool
is_level rotation_0 = true
is_level rotation_180 = true
is_level r = false

-- `egl_window->rotation == rotation`
pub same_rotation : Rotation → Rotation → Bool
same_rotation rotation_0 rotation_0 = true
same_rotation rotation_90 rotation_90 = true
same_rotation rotation_180 rotation_180 = true
same_rotation rotation_270 rotation_270 = true
same_rotation (other m) (other n) = m == n
same_rotation r s = false

-- `wl_egl_window_get_attached_size` of a window, which is not tested against NULL.
pub get_attached_size : Window → ℕ × ℕ
get_attached_size w = (w.attached_width, w.attached_height)

-- `wl_egl_window_destroy`: no window is left.
pub destroy : Option Window → Option Window
destroy w = none

module _ {S : Type 0} (invoke : Ptr → Window → S → Window × S) where
  -- `if (callback) callback(egl_window, egl_window->private)`
  pub call : Ptr → Window → S → Window × S
  call callback w state = if callback == null then (w, state) else invoke callback w state

  -- `wl_egl_window_resize`; `none` is the NULL pointer here and below.
  pub resize : Option Window → (width height dx dy : ℕ) → S → Option Window × S
  unfolding call is_turned
  resize none width height dx dy state = (none, state)
  resize (some w) width height dx dy state =
      let turned = is_turned w.rotation in
      let prev_width = if turned then w.height else w.width in
      let prev_height = if turned then w.width else w.height in
      let w₁ = record w { dx = dx; dy = dy } in
      let w₂ =
        if turned
        then record w₁ { width = height; height = width }
        else record w₁ { width = width; height = height } in
      let (w₃, state') = call w₂.resize_callback w₂ state in
      if prev_width == width && prev_height == height then (some w₁, state) else (some w₃, state')

  -- `wl_egl_window_create`: `memory` is what `malloc` returns, with what the memory holds.
  pub create :
      (memory : Option Window) → (surface : Ptr) → (width height : ℕ) → S → Option Window × S
  unfolding resize
  create none surface width height state = (none, state)
  create (some garbage) surface width height state =
      let (resized, state') =
        resize (some (record garbage { surface = surface; resize_callback = null })) width height 0
          0 state in
      if is_nonpositive width || is_nonpositive height
      then (none, state)
      else if surface == null
      then (none, state)
      else elim resized as (λ r. Option Window × S) [
        | none ↦ (none, state')
        | some w ↦ (
          some (record w {
            attached_width = 0;
            attached_height = 0;
            rotation = rotation_0;
            private = null;
            rotate_callback = null;
            get_rotation_capability = null;
          }),
          state',
        )
      ]

  -- `wl_egl_window_set_rotation`
  pub set_rotation : Option Window → Rotation → S → Option Window × S
  unfolding call is_turned is_level same_rotation
  set_rotation none wanted state = (none, state)
  set_rotation (some w) wanted state =
      let should_resize = if is_level wanted then is_turned w.rotation else is_level w.rotation in
      let w₁ = record w { rotation = wanted } in
      let (w₂, state₂) = call w₁.rotate_callback w₁ state in
      let (w₃, state₃) =
        invoke w₂.resize_callback (record w₂ { width = w₂.height; height = w₂.width }) state₂ in
      if same_rotation w.rotation wanted
      then (some w, state)
      else if not (is_level wanted || is_turned wanted)
      then (some w, state)
      else if should_resize && not (w₂.resize_callback == null)
      then (some w₃, state₃)
      else (some w₂, state₂)

-- `wl_egl_window_get_capabilities`; the two constants are those of its header.
pub get_capabilities :
    {S : Type 0} (ask : Ptr → Window → S → ℕ × S) (capability_none capability_unknown : ℕ)
    → Option Window
    → S
    → ℕ × S
get_capabilities ask capability_none capability_unknown none state = (capability_none, state)
get_capabilities ask capability_none capability_unknown (some w) state =
    if w.get_rotation_capability == null
    then (capability_unknown, state)
    else ask w.get_rotation_capability w state
