-- ===== src/WaylandEgl/Tests.antt =====
-- Runs of the window operations on small inputs.
use libtpl_egl.Base.{ℕ, suc, ◌≡◌, refl, none, some, List, [], ◌∷◌}
use libtpl_egl.Types.{Ptr, null}
use libtpl_egl.Surface.{is_nonpositive}
use libtpl_egl.WaylandEgl.{
  rotation_0, rotation_90, rotation_180, rotation_270, other, Window, is_turned, is_level,
  same_rotation, get_attached_size, call, resize, create, set_rotation, get_capabilities, destroy,
}
use libtpl_egl.WaylandEgl.Sizes.{Call, resized, rotated, IsShown, all_calls, all_calls-IsShown}

-- Callbacks that count their calls.
abbrev counts : Ptr → Window → ℕ → Window × ℕ
counts f w n = (w, suc n)

abbrev window : Window
window = record {
  surface = 0x10;
  width = 64;
  height = 48;
  dx = 0;
  dy = 0;
  attached_width = 32;
  attached_height = 24;
  rotation = rotation_0;
  private = null;
  resize_callback = 0x20;
  rotate_callback = 0x30;
  get_rotation_capability = null;
}

abbrev calls : List Call
calls = rotated rotation_90 ∷ resized 100 50 1 2 ∷ rotated rotation_180 ∷ rotated (other 7) ∷ []

-- A quarter turn calls both callbacks and exchanges the width and the height.
turned :
    set_rotation counts (some window) rotation_90 0
    ≡ (some (record window { width = 48; height = 64; rotation = rotation_90 }), 2)
unfolding set_rotation call is_turned is_level same_rotation
turned = refl

-- A window is made with its size where its memory is zero.
made :
    create counts
      (some (record window {
        surface = null;
        width = 0;
        height = 0;
        resize_callback = null;
        rotate_callback = null;
      }))
      0x10
      64
      48
      5
    ≡ (
      some (record window {
        attached_width = 0;
        attached_height = 0;
        resize_callback = null;
        rotate_callback = null;
      }),
      5,
    )
unfolding create resize call is_turned is_nonpositive
made = refl

queries :
    (get_attached_size window ≡ (32, 24))
    × (destroy (some window) ≡ none)
    × (get_capabilities {S = ℕ} (λ f w n. (9, n)) 0 1 (some window) 5 ≡ (1, 5))
unfolding get_attached_size get_capabilities destroy
queries = (refl, refl, refl)

all_calls-IsShown_example : IsShown counts (100, 50) (all_calls counts calls (some window) 0).0
unfolding is_turned is_level
all_calls-IsShown_example =
    all_calls-IsShown counts (λ f w n. (refl, refl, refl, refl)) calls (some window) (64, 48) 0
      (refl, refl, refl)

swapped : create counts (some (record window { rotation = rotation_270 })) 0x10 640 480 5 ≡ (
  some (record {
    surface = 0x10;
    width = 480;
    height = 640;
    dx = 0;
    dy = 0;
    attached_width = 0;
    attached_height = 0;
    rotation = rotation_0;
    private = null;
    resize_callback = null;
    rotate_callback = null;
    get_rotation_capability = null;
  }),
  5,
)
unfolding create resize call is_turned is_nonpositive
swapped = refl
