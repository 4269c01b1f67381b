-- ===== src/Types.antt =====
-- The enumerations of src/tpl.h.
use libtpl_egl.Base.{ℕ, Bool, true, false}

-- tpl_result_t
pub data TplResult : Type 0 where
  error_none invalid_parameter invalid_operation out_of_memory : TplResult

-- `ret == TPL_ERROR_NONE`
abbrev pub succeeded : TplResult → Bool
succeeded error_none = true
succeeded _ = false

-- tpl_object_type_t
pub data ObjectType : Type 0 where
  object_error object_display object_surface object_max : ObjectType

-- tpl_surface_type_t
pub data SurfaceType : Type 0 where
  surface_error window pixmap surface_max : SurfaceType

-- A pointer; `null` is NULL.
abbrev pub Ptr : Type 0
Ptr = ℕ

abbrev pub null : Ptr
null = 0

-- tpl_backend_type_t
pub data BackendType : Type 0 where
  unknown wayland gbm x11_dri2 x11_dri3 tbm wayland_vulkan_wsi tbm_vulkan_wsi backend_count
        backend_max :
      BackendType

pub BackendType-discrete : Discrete BackendType
BackendType-discrete = hlevel

-- `TPL_BACKEND_COUNT`
abbrev pub num_of_backends : ℕ
num_of_backends = 7

-- The enumeration's value; that of `unknown` is -1, which is no index and is tested for first.
unfoldable pub backend_index : BackendType → ℕ
backend_index unknown = 0
backend_index wayland = 0
backend_index gbm = 1
backend_index x11_dri2 = 2
backend_index x11_dri3 = 3
backend_index tbm = 4
backend_index wayland_vulkan_wsi = 5
backend_index tbm_vulkan_wsi = 6
backend_index backend_count = 7
backend_index backend_max = 8

-- `type == TPL_BACKEND_UNKNOWN`
unfoldable pub is_unknown : BackendType → Bool
is_unknown unknown = true
is_unknown t = false

-- How a call ends: with a value, with a read beyond the end of an array, in `TPL_ASSERT`, with a
-- call through a NULL function pointer, or, in the model, at the end of the fuel of a loop.
pub data Outcome {ℓ} (A : Type ℓ) : Type ℓ where
  done : A → Outcome A
  out_of_bounds : Outcome A
  assertion_failed : Outcome A
  null_call : Outcome A
  out_of_fuel : Outcome A

infixl 5 ◌>>=◌
abbrev pub ◌>>=◌ {ℓ κ} : {A : Type ℓ} {B : Type κ} → Outcome A → (A → Outcome B) → Outcome B
done a >>= f = f a
out_of_bounds >>= f = out_of_bounds
assertion_failed >>= f = assertion_failed
null_call >>= f = null_call
out_of_fuel >>= f = out_of_fuel
