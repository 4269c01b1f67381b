-- ===== src/WaylandVkWsi/Displays.antt =====
-- The displays of src/tpl_wayland_vk_wsi.c. A text is the list of its characters' codes.
use Prim.Native.Nat.{bit_or}
use libtpl_egl.Base.{
  ℕ, Bool, true, false, not, ◌&&◌, ◌||◌, Option, none, some, List, [], ◌∷◌, ◌==◌, if◌then◌else◌,
}
use libtpl_egl.Types.{
  TplResult, error_none, invalid_parameter, invalid_operation, out_of_memory, window, Ptr, null,
}
use libtpl_egl.Display.{Display, DisplayBackend, Config}
use libtpl_egl.Tbm.{Formats, mailbox, fifo, immediate, fifo_relaxed}
use libtpl_egl.WaylandVkWsi.{WsiDisplay, client_queue_size}

-- What a native handle is compared with: the address and the name of `wl_display_interface`, the
-- first word behind a handle, and the name in the structure behind such a word.
pub record Magic : Type 0 where
  pub interface : Ptr
  pub interface_name : List ℕ
  pub first_word : Ptr → Ptr
  pub name_at : Ptr → List ℕ

-- `strncmp(a, b, strlen(b)) == 0`
unfoldable pub has_prefix : List ℕ → List ℕ → Bool
has_prefix a [] = true
has_prefix [] (y ∷ ys) = false
has_prefix (x ∷ xs) (y ∷ ys) = x == y && has_prefix xs ys

-- `strcmp(a, b) == 0`
unfoldable pub same_text : List ℕ → List ℕ → Bool
same_text [] [] = true
same_text [] (y ∷ ys) = false
same_text (x ∷ xs) [] = false
same_text (x ∷ xs) (y ∷ ys) = x == y && same_text xs ys

-- "wayland_vulkan"
abbrev pub wayland_vulkan : List ℕ
wayland_vulkan =
    b'w' ∷ b'a' ∷ b'y' ∷ b'l' ∷ b'a' ∷ b'n' ∷ b'd' ∷ b'_' ∷ b'v' ∷ b'u' ∷ b'l' ∷ b'k' ∷ b'a' ∷ b'n'
    ∷ []

-- `__tpl_wayland_vk_wsi_display_is_wl_display` of a handle that is not NULL.
unfoldable pub is_wl_display : Magic → Ptr → Bool
unfolding has_prefix
is_wl_display magic native_dpy =
    let word = magic.first_word native_dpy in
    if word == magic.interface then true else has_prefix (magic.name_at word) magic.interface_name

-- `__tpl_wayland_vk_wsi_support_present_mode_listener`, with the numbers of
-- src/wayland-vulkan/wayland-vulkan-protocol.xml.
unfoldable pub support_present_mode : ℕ → WsiDisplay → WsiDisplay
support_present_mode mode d =
    if mode == 1
    then record d { present_modes = bit_or d.present_modes immediate }
    else if mode == 2
    then record d { present_modes = bit_or d.present_modes mailbox }
    else if mode == 3
    then record d { present_modes = bit_or d.present_modes fifo }
    else if mode == 4
    then record d { present_modes = bit_or d.present_modes fifo_relaxed }
    else d

unfoldable pub support_present_modes : List ℕ → WsiDisplay → WsiDisplay
unfolding support_present_mode
support_present_modes [] d = d
support_present_modes (mode ∷ modes) d = support_present_modes modes (support_present_mode mode d)

-- An announced global: its interface, and what `wl_registry_bind` returns for it.
pub record Global : Type 0 where
  pub interface : List ℕ
  pub bound : Ptr

-- `__tpl_wayland_vk_wsi_registry_handle_global`
unfoldable pub registry_handle_global : Global → WsiDisplay → WsiDisplay
unfolding same_text
registry_handle_global g d =
    if same_text g.interface wayland_vulkan then record d { wl_vk_client = g.bound } else d

unfoldable pub registry_handle_globals : List Global → WsiDisplay → WsiDisplay
unfolding registry_handle_global
registry_handle_globals [] d = d
registry_handle_globals (g ∷ gs) d = registry_handle_globals gs (registry_handle_global g d)

-- What one call of `__tpl_wayland_vk_wsi_display_init` meets: the result of `calloc`, that of
-- `wayland_tbm_client_init`, the globals of the first round trip, and the modes of the second.
pub record DisplayEnv : Type 0 where
  pub address : Option Ptr
  pub tbm_client : Ptr
  pub globals : List Global
  pub modes : List ℕ

-- A `tpl_wayland_vk_wsi_display_t` before the server is asked.
abbrev pub capabilities : WsiDisplay
capabilities = record {
  wl_tbm_client = null;
  min_buffer = 2;
  max_buffer = client_queue_size;
  present_modes = mailbox;
  wl_vk_client = null;
}

-- The part of `__tpl_wayland_vk_wsi_display_init` in which the server answers. The listener for the
-- modes is added where the registry had a "wayland_vulkan".
unfoldable pub ask_server : DisplayEnv → WsiDisplay → WsiDisplay
unfolding registry_handle_globals support_present_modes
ask_server env d =
    let d' = registry_handle_globals env.globals (record d { wl_tbm_client = env.tbm_client }) in
    if d'.wl_vk_client == null then d' else support_present_modes env.modes d'

-- `__tpl_wayland_vk_wsi_display_init`: the result, the display, and what is left at the address.
unfoldable pub display_init : Magic → DisplayEnv → Display → TplResult × Display × Option WsiDisplay
display_init magic env d =
    if d.native_handle == null then (invalid_parameter, d, none) else elim env.address [
      | none ↦ (out_of_memory, d, none)
      | some p ↦
          if is_wl_display magic d.native_handle && not (env.tbm_client == null)
          then (error_none, record d { backend_data = p }, some (ask_server env capabilities))
          else (invalid_operation, record d { backend_data = null }, none)
    ]

-- `__tpl_wayland_vk_wsi_display_fini`: the display, and the clients that are ended, those of
-- wayland-tbm and of "wayland_vulkan".
unfoldable pub display_fini : (Ptr → Option WsiDisplay) → Display → Display × List Ptr
display_fini displays d = (
  record d { backend_data = null },
  elim (displays d.backend_data) [
    | none ↦ []
    | some w ↦ w.wl_tbm_client ∷ (if w.wl_vk_client == null then [] else w.wl_vk_client ∷ [])
  ],
)

-- `__tpl_wayland_vk_wsi_display_query_config`
unfoldable pub query_config : Formats → Display → Config → TplResult × Option (ℕ × Bool)
query_config f d c =
    let is_window = elim c.surface_type as (λ t. Bool) [ window ↦ true | t ↦ false ] in
    if is_window && c.red == 8 && c.green == 8 && c.blue == 8 && (c.depth == 32 || c.depth == 24)
    then if c.alpha == 8
      then (error_none, some (f.argb8888, false))
      else if c.alpha == 0
      then (error_none, some (f.xrgb8888, false))
      else (invalid_parameter, none)
    else (invalid_parameter, none)

-- `__tpl_wayland_vk_wsi_display_filter_config`
unfoldable pub filter_config : Display → (visual alpha : ℕ) → TplResult × ℕ
filter_config d visual alpha = (error_none, visual)

module _ (displays : Ptr → Option WsiDisplay) where
  -- `__tpl_wayland_vk_wsi_display_query_window_supported_buffer_count`
  unfoldable pub query_buffer_count : Display → Ptr → TplResult × Option (ℕ × ℕ)
  query_buffer_count d win = elim (displays d.backend_data) [
    | none ↦ (invalid_operation, none)
    | some w ↦ (error_none, some (w.min_buffer, w.max_buffer))
  ]

  -- `__tpl_wayland_vk_wsi_display_query_window_supported_present_modes`
  unfoldable pub query_present_modes :
      (support_vblank : Bool) → Display → Ptr → TplResult × Option ℕ
  query_present_modes support_vblank d win = elim (displays d.backend_data) [
    | none ↦ (invalid_operation, none)
    | some w ↦
        let modes = bit_or (bit_or mailbox immediate) w.present_modes in
        (
          error_none,
          some (if support_vblank then bit_or modes (bit_or fifo fifo_relaxed) else modes),
        )
  ]

  -- `__tpl_display_init_backend_wayland_vk_wsi`, in a state of the displays.
  unfoldable pub display_backend :
      Magic → DisplayEnv → Formats → (support_vblank : Bool) → DisplayBackend
  unfolding display_init display_fini query_config filter_config query_buffer_count
      query_present_modes
  display_backend magic env f support_vblank = record {
    init = λ d. let (ret, d', w) = display_init magic env d in (ret, d');
    fini = some (λ d. (display_fini displays d).0);
    query_config = some (query_config f);
    filter_config = some filter_config;
    get_window_info = none;
    get_pixmap_info = none;
    get_buffer_from_native_pixmap = none;
    query_window_supported_buffer_count = some query_buffer_count;
    query_window_supported_present_modes = some (query_present_modes support_vblank);
  }

-- `__tpl_display_choose_backend_wayland_vk_wsi`
unfoldable pub choose_backend_wayland_vk_wsi : Magic → Ptr → Bool
unfolding is_wl_display
choose_backend_wayland_vk_wsi magic native_dpy =
    if native_dpy == null then false else is_wl_display magic native_dpy
