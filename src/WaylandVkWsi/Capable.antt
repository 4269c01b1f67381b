-- ===== src/WaylandVkWsi/Capable.antt =====
-- What a display of src/tpl_wayland_vk_wsi.c is capable of, and the swapchains that it takes.
use Prim.Native.Nat.{bit_and, bit_or}
use libtpl_egl.Base.{
  ℕ, zero, suc, ◌<◌, ◌≡◌, ◌≢◌, ◌↔◌, refl, Bool, true, false, not, ◌&&◌, ◌||◌, none, some, inl, inr,
  List, [], ◌∷◌, arith, ◌==◌, ltb, Bool-cases, Option-cases,
}
use libtpl_egl.Types.{error_none, Ptr, null}
use libtpl_egl.Display.{Display}
use libtpl_egl.Tbm.{mailbox, fifo, immediate, fifo_relaxed}
use libtpl_egl.WaylandVkWsi.{WsiDisplay}
use libtpl_egl.WaylandVkWsi.Displays.{
  Magic, Global, DisplayEnv, capabilities, support_present_mode, support_present_modes,
  registry_handle_global, registry_handle_globals, ask_server, is_wl_display, display_init,
}

-- The capabilities that a display has whatever the server says: two or three buffers, and a set of
-- the four present modes with MAILBOX in it.
pub record IsCapable (d : WsiDisplay) : Type 0 where
  pub fewest : d.min_buffer ≡ 2
  pub most : d.max_buffer ≡ 3
  pub modes : d.present_modes < 16
  pub direct : (bit_and mailbox d.present_modes == 0) ≡ false

all_below : ℕ → (ℕ → Bool) → Bool
all_below zero p = true
all_below (suc n) p = p n && all_below n p

all_below-lt : (n : ℕ) (p : ℕ → Bool) (x : ℕ) → all_below n p ≡ true → x < n → p x ≡ true
unfolding all_below
all_below-lt zero p x h lt = absurd (omega arith)
all_below-lt (suc n) p x h lt = ground (arith, all_below-lt n p x)

-- Sets of the four modes that have MAILBOX, and one mode more.
abbrev has_mailbox : ℕ → Bool
has_mailbox x = not (bit_and mailbox x == 0)

abbrev keeps_mailbox : ℕ → ℕ → Bool
keeps_mailbox mode x =
    not (has_mailbox x) || (has_mailbox (bit_or x mode) && ltb (bit_or x mode) 16)

mailbox_table :
    (all_below 16 (keeps_mailbox immediate) ≡ true)
    × (all_below 16 (keeps_mailbox mailbox) ≡ true)
    × (all_below 16 (keeps_mailbox fifo) ≡ true)
    × (all_below 16 (keeps_mailbox fifo_relaxed) ≡ true)
unfolding all_below
mailbox_table = (refl, refl, refl, refl)

with_mode :
    (mode : ℕ) (d : WsiDisplay)
    → all_below 16 (keeps_mailbox mode) ≡ true
    → IsCapable d
    → IsCapable (record d { present_modes = bit_or d.present_modes mode })
with_mode mode d table h =
    let kept = all_below-lt 16 (keeps_mailbox mode) d.present_modes table h.modes in
    let has : has_mailbox (bit_or d.present_modes mode) ≡ true = ground (arith, kept, h.direct) in
    record {
      fewest = h.fewest;
      most = h.most;
      modes = ground (arith, kept, h.direct);
      direct = ground (arith, has);
    }

support_present_mode-IsCapable :
    (mode : ℕ) (d : WsiDisplay) → IsCapable d → IsCapable (support_present_mode mode d)
unfolding support_present_mode
support_present_mode-IsCapable mode d h = elim (Bool-cases (mode == 1)) [
  | inl e ↦ rw (support_present_mode, e) (with_mode immediate d mailbox_table.0 h)
  | inr e₁ ↦ elim (Bool-cases (mode == 2)) [
    | inl e ↦ rw (support_present_mode, e₁, e) (with_mode mailbox d mailbox_table.1 h)
    | inr e₂ ↦ elim (Bool-cases (mode == 3)) [
      | inl e ↦ rw (support_present_mode, e₁, e₂, e) (with_mode fifo d mailbox_table.2 h)
      | inr e₃ ↦ elim (Bool-cases (mode == 4)) [
        | inl e ↦
            rw (support_present_mode, e₁, e₂, e₃, e) (with_mode fifo_relaxed d mailbox_table.3 h)
        | inr e ↦ rw (support_present_mode, e₁, e₂, e₃, e) h
      ]
    ]
  ]
]

support_present_modes-IsCapable :
    (modes : List ℕ) (d : WsiDisplay) → IsCapable d → IsCapable (support_present_modes modes d)
unfolding support_present_modes
support_present_modes-IsCapable [] d h = h
support_present_modes-IsCapable (mode ∷ modes) d h =
    support_present_modes-IsCapable modes (support_present_mode mode d)
      (support_present_mode-IsCapable mode d h)

registry_handle_globals-IsCapable :
    (gs : List Global) (d : WsiDisplay) → IsCapable d → IsCapable (registry_handle_globals gs d)
unfolding registry_handle_globals registry_handle_global
registry_handle_globals-IsCapable [] d h = h
registry_handle_globals-IsCapable (g ∷ gs) d h =
    registry_handle_globals-IsCapable gs (registry_handle_global g d) (handled g d h)
  where
    handled : (g : Global) (d : WsiDisplay) → IsCapable d → IsCapable (registry_handle_global g d)
    handled g d h = ground arith

pub ask_server-IsCapable : (env : DisplayEnv) → IsCapable (ask_server env capabilities)
unfolding ask_server
ask_server-IsCapable env =
    let d = record capabilities { wl_tbm_client = env.tbm_client } in
    let start : IsCapable d = record {
      fewest = refl;
      most = refl;
      modes = omega arith;
      direct = refl;
    } in
    let asked = registry_handle_globals env.globals d in
    let h = registry_handle_globals-IsCapable env.globals d start in
    elim (Bool-cases (asked.wl_vk_client == null)) [
      | inl e ↦ rw (ask_server, e) h
      | inr e ↦ rw (ask_server, e) (support_present_modes-IsCapable env.modes asked h)
    ]

-- `__tpl_wayland_vk_wsi_display_init` succeeds exactly for a native handle that is not NULL and
-- passes for a wl_display, with memory and a client of wayland-tbm. Then what it leaves as the
-- memory of the display says two to three buffers and a set of the four modes with MAILBOX in it,
-- whatever globals and modes the server announces; if it fails, it leaves no memory.
pub display_init-IsCapable :
    (magic : Magic) (env : DisplayEnv) (d : Display)
    → let r = display_init magic env d in
      ((r.0 ≡ error_none) ↔ (
        (p : Ptr) × (env.address ≡ some p)
        × ((d.native_handle == null) ≡ false)
        × (is_wl_display magic d.native_handle ≡ true)
        × ((env.tbm_client == null) ≡ false)))
      × (r.0 ≡ error_none
          → (p : Ptr) × (w : WsiDisplay) × (env.address ≡ some p)
            × (r.1 ≡ record d { backend_data = p })
            × (r.2 ≡ some w)
            × IsCapable w)
      × (r.0 ≢ error_none → r.2 ≡ none)
unfolding display_init
display_init-IsCapable magic env d = elim (Bool-cases (d.native_handle == null)) [
  | inl none_given ↦
      rw (display_init, none_given)
        (
          (λ h. absurd (ground arith), λ h. absurd (ground arith)),
          λ h. absurd (ground arith),
          λ h. refl,
        )
  | inr given ↦ elim (Option-cases env.address) [
    | inl no_memory ↦
        rw (display_init, given, no_memory)
          (
            (λ h. absurd (ground arith), λ h. absurd (ground arith)),
            λ h. absurd (ground arith),
            λ h. refl,
          )
    | inr (p, memory) ↦
        elim (Bool-cases (is_wl_display magic d.native_handle && not (env.tbm_client == null))) [
          | inl ok ↦
              let is_display : is_wl_display magic d.native_handle ≡ true = ground arith in
              let client : (env.tbm_client == null) ≡ false = ground arith in
              rw (display_init, given, memory, ok)
                (
                  (λ h. (p, refl, refl, is_display, client), λ h. refl),
                  λ h. (p, ask_server env capabilities, refl, refl, refl, ask_server-IsCapable env),
                  λ h. absurd (h refl),
                )
          | inr bad ↦
              rw (display_init, given, memory, bad)
                (
                  (λ h. absurd (ground arith), λ h. absurd (ground arith)),
                  λ h. absurd (ground arith),
                  λ h. refl,
                )
        ]
  ]
]
