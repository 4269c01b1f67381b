-- ===== src/Runtime.antt =====
-- The registry of displays of src/tpl.c: one hash list for each type of backend, made when it is
-- first needed. What pthread and the allocator return is an argument.
pub mod Registry
pub mod Find
pub mod Choice
mod Tests
use Prim.Native.String.{String}
use text.Mathlib.Text.{◌==◌ as str_eq}
use libtpl_egl.Base.{
  ℕ, zero, suc, Bool, true, false, not, ◌&&◌, ◌||◌, Option, none, some, List, [], ◌∷◌, ◌++◌, ltb,
  ◌==◌, if◌then◌else◌, update, is_some,
}
use libtpl_egl.Types.{
  TplResult, error_none, invalid_operation, out_of_memory, succeeded, Ptr, null, BackendType,
  unknown, wayland, gbm, x11_dri2, x11_dri3, tbm, wayland_vulkan_wsi, tbm_vulkan_wsi,
  num_of_backends, backend_index, is_unknown, Outcome, done, out_of_bounds, assertion_failed, ◌>>=◌,
}
use libtpl_egl.Hlist.{Hlist}
use libtpl_egl.Hlist

-- `struct _tpl_runtime`
pub record Runtime : Type 0 where
  pub displays : ℕ → Option Hlist

-- `runtime->displays[type]`
pub slot : Runtime → BackendType → Outcome (Option Hlist)
unfolding backend_index
slot r type =
    if ltb (backend_index type) num_of_backends
    then done (r.displays (backend_index type))
    else out_of_bounds

-- A lookup in a list that may not have been made.
unfoldable pub lookup_slot : Option Hlist → Ptr → Ptr
lookup_slot none handle = null
lookup_slot (some l) handle = Hlist.lookup l handle

-- The loop of `__tpl_runtime_find_display` over all types: the rounds left, and `i`.
pub find_loop : ℕ → ℕ → Runtime → Ptr → Ptr
unfolding lookup_slot
find_loop zero i r handle = null
find_loop (suc left) i r handle =
    let rest = find_loop left (suc i) r handle in
    let display = lookup_slot (r.displays i) handle in if display == null then rest else display

-- `__tpl_runtime_find_display`; `none` is `runtime == NULL`.
pub find_display : Option Runtime → BackendType → Ptr → Outcome Ptr
unfolding slot find_loop lookup_slot is_unknown
find_display none type handle = done null
find_display (some r) type handle =
    if is_unknown type
    then done (find_loop num_of_backends 0 r handle)
    else do l ← slot r type; done (lookup_slot l handle)

-- `__tpl_runtime_init`
pub runtime_init : (allocated : Bool) → Option Runtime → TplResult × Option Runtime
runtime_init allocated (some r) = (error_none, some r)
runtime_init true none = (error_none, some (record { displays = λ i. none }))
runtime_init false none = (out_of_memory, none)

-- What the mutex and the allocator return in one call of `__tpl_runtime_add_display`.
pub record AddEnv : Type 0 where
  pub mutex_ok : Bool
  pub runtime_ok : Bool
  pub list_ok : Bool
  pub heads_ok : Bool
  pub node_ok : Bool

-- The list of a type, made if there is none.
pub made_list : AddEnv → Option Hlist → Option Hlist
made_list env (some l) = some l
made_list env none = Hlist.create env.list_ok env.heads_ok

-- The part of `__tpl_runtime_add_display` behind `__tpl_runtime_init`, at index `i`.
pub add_at : AddEnv → Runtime → ℕ → Ptr → Ptr → TplResult × Runtime
add_at env r i handle display = elim (made_list env (r.displays i)) [
  | none ↦ (invalid_operation, r)
  | some l ↦
      let (ret, l') = Hlist.insert env.node_ok l handle display in
      (
        if succeeded ret then error_none else invalid_operation,
        record r { displays = update r.displays i (some l') },
      )
]

-- `__tpl_runtime_add_display`, of a display with the given handle and type of backend.
pub add_display :
    AddEnv → Option Runtime → BackendType → Ptr → Ptr → Outcome (TplResult × Option Runtime)
unfolding runtime_init backend_index is_unknown
add_display env rt type handle display =
    if is_unknown type || not (ltb (backend_index type) num_of_backends)
    then assertion_failed
    else if not env.mutex_ok
    then done (invalid_operation, rt)
    else elim (runtime_init env.runtime_ok rt).1 [
      | none ↦ done (invalid_operation, none)
      | some r ↦
          let (ret, r') = add_at env r (backend_index type) handle display in done (ret, some r')
    ]

-- `__tpl_runtime_remove_display`
pub remove_display : Option Runtime → BackendType → Ptr → Outcome (Option Runtime)
unfolding slot is_unknown backend_index
remove_display none type handle = done none
remove_display (some r) type handle = if is_unknown type then done (some r) else do
  list ← slot r type
  elim list [
    | none ↦ done (some r)
    | some l ↦ done (
        some (record r {
          displays = update r.displays (backend_index type) (some (Hlist.delete l handle));
        }))
  ]

-- The loop of `__tpl_runtime_fini`, after `n` rounds: the nodes freed.
pub fini_loop : ℕ → Runtime → List Hlist.Node
fini_loop zero r = []
fini_loop (suc n) r = fini_loop n r ++ (Hlist.destroy (r.displays n)).0

-- `__tpl_runtime_fini`: the nodes freed, and the pointer that is left.
pub runtime_fini : Option Runtime → List Hlist.Node × Option Runtime
unfolding fini_loop
runtime_fini none = ([], none)
runtime_fini (some r) = (fini_loop num_of_backends r, none)

-- The build options for window systems.
pub record Winsys : Type 0 where
  pub dri2 : Bool
  pub dri3 : Bool
  pub wl : Bool

-- What the functions `__tpl_display_choose_backend_*` of the backends say of a native display.
pub record Probes : Type 0 where
  pub is_tbm : Bool
  pub is_gbm : Bool
  pub is_wayland_egl : Bool
  pub is_wayland_vk_wsi : Bool
  pub is_x11_dri2 : Bool
  pub is_x11_dri3 : Bool

-- The choice by the environment variable EGL_PLATFORM.
pub choose_by_name : Winsys → String → Option BackendType
choose_by_name w name =
    if w.dri2 && str_eq name "x11"
    then some x11_dri2
    else if w.dri3 && str_eq name "x11"
    then some x11_dri3
    else if w.wl && str_eq name "tbm"
    then some tbm
    else if w.wl && str_eq name "tbm_vulkan_wsi"
    then some tbm_vulkan_wsi
    else if w.wl && str_eq name "wayland"
    then some wayland
    else if w.wl && str_eq name "wayland_vulkan_wsi"
    then some wayland_vulkan_wsi
    else if w.wl && str_eq name "drm"
    then some gbm
    else none

-- The choice by the native display.
pub choose_by_probe : Winsys → Probes → BackendType
choose_by_probe w p =
    if w.wl && p.is_tbm
    then tbm
    else if w.wl && p.is_gbm
    then gbm
    else if w.wl && p.is_wayland_egl
    then wayland
    else if w.wl && p.is_wayland_vk_wsi
    then wayland_vulkan_wsi
    else if w.dri2 && p.is_x11_dri2
    then x11_dri2
    else if w.dri3 && p.is_x11_dri3
    then x11_dri3
    else unknown

-- `__tpl_display_choose_backend`; `platform` is the value of EGL_PLATFORM, if it is set.
pub choose_backend : Winsys → (platform : Option String) → Probes → BackendType
unfolding choose_by_name choose_by_probe
choose_backend w none p = choose_by_probe w p
choose_backend w (some name) p = elim (choose_by_name w name) [
  | some type ↦ type
  | none ↦ choose_by_probe w p
]

-- `__tpl_display_init_backend` and `__tpl_surface_init_backend`: the type of the backend whose
-- functions are put in place.
unfoldable pub init_backend : Winsys → BackendType → Outcome BackendType
init_backend w gbm = if w.wl then done gbm else assertion_failed
init_backend w wayland = if w.wl then done wayland else assertion_failed
init_backend w wayland_vulkan_wsi = if w.wl then done wayland_vulkan_wsi else assertion_failed
init_backend w tbm = if w.wl then done tbm else assertion_failed
init_backend w tbm_vulkan_wsi = if w.wl then done tbm_vulkan_wsi else assertion_failed
init_backend w x11_dri2 = if w.dri2 then done x11_dri2 else assertion_failed
init_backend w x11_dri3 = if w.dri3 then done x11_dri3 else assertion_failed
init_backend w type = assertion_failed
