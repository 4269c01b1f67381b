-- ===== src/Object.antt =====
-- The reference-counted base object of src/tpl_object.c, with the atomic operations of src/tpl.c.
-- An `int` is its 32-bit pattern. What pthread functions and `malloc` return is an argument.
pub mod Validity
pub mod Counting
pub mod UserData
mod Tests
use libtpl_egl.Base.{
  ℕ, ◌+◌, ◌-◌, ◌%◌, ◌^◌, Bool, true, false, not, ◌&&◌, ◌||◌, Option, none, some, List, [], ◌∷◌,
  ◌++◌, ◌==◌, if◌then◌else◌,
}
use libtpl_egl.Types.{
  TplResult, error_none, invalid_parameter, invalid_operation, ObjectType, object_error, Ptr, null,
}
use libtpl_egl.Hlist.{Hlist}
use libtpl_egl.Hlist
use libtpl_egl.UtilMap.{UtilMap, FreeFunc, FreeCall, pointer_init}
use libtpl_egl.UtilMap
use libtpl_egl.UtilMap.Hash.{Key, PointerWidth}

-- `TPL_OBJECT_MAGIC` and `TPL_OBJECT_MAGIC_FREED`
abbrev pub object_magic : ℕ
object_magic = 0xe0b9ec75

abbrev pub object_magic_freed : ℕ
object_magic_freed = 0xe0bf6eed

-- `TPL_OBJECT_BUCKET_BITS`
abbrev pub object_bucket_bits : ℕ
object_bucket_bits = 5

-- The `int` -1.
abbrev pub minus_one : ℕ
minus_one = 2 ^ 32 - 1

-- The build option `OBJECT_HASH_CHECK`, the flag `tpl_obj_hash_check`, and the list
-- `tpl_obj_hash` with the test of its pointer against NULL.
pub record HashCheck : Type 0 where
  pub built : Bool
  pub enabled : Bool
  pub has_table : Bool
  pub table : Hlist

-- `struct _tpl_object`, with its address; `locked` says that the mutex is held.
pub record Object : Type 0 where
  pub address : Ptr
  pub magic : ℕ
  pub type : ObjectType
  pub reference : ℕ
  pub free : FreeFunc
  pub locked : Bool
  pub user_data_map : UtilMap

-- `__tpl_util_atomic_get`, `__tpl_util_atomic_inc` and `__tpl_util_atomic_dec` on an
-- `unsigned int`.
pub atomic_get : ℕ → ℕ
atomic_get atom = atom

pub atomic_inc : ℕ → ℕ
atomic_inc atom = (atom + 1) % 2 ^ 32

pub atomic_dec : ℕ → ℕ
atomic_dec atom = (atom + 2 ^ 32 - 1) % 2 ^ 32

-- `__tpl_object_hash_init`. `asked` says that the variable TPL_OBJECT_HASH_CHECK is "1", and
-- `allocated` is what `__tpl_hashlist_create` returns.
pub hash_init : (asked : Bool) → (allocated : Option Hlist) → HashCheck → HashCheck
hash_init asked allocated g =
    if asked && not g.has_table
    then elim allocated [
      | none ↦ record g { enabled = true; has_table = false }
      | some l ↦ record g { enabled = true; has_table = true; table = l }
    ]
    else record g { enabled = false }

-- `__tpl_object_hash_shutdown`
pub hash_shutdown : HashCheck → HashCheck
hash_shutdown g = record g { enabled = false; has_table = false }

-- `__tpl_object_hash_find(object) != NULL`
pub hash_find : HashCheck → Ptr → Bool
hash_find g address = not (Hlist.lookup g.table address == null)

-- `__tpl_object_is_valid`; `none` is the NULL pointer.
pub is_valid : HashCheck → Option Object → Bool
unfolding hash_find atomic_get
is_valid g none = false
is_valid g (some o) =
    if g.built && g.enabled && not (hash_find g o.address)
    then false
    else if not (o.magic == object_magic)
    then false
    else not (atomic_get o.reference == 0)

-- `__tpl_object_init`, on memory in which an object is made.
pub object_init :
    PointerWidth
    → (mutex_ok node_allocated : Bool) → HashCheck
    → Object
    → ObjectType
    → FreeFunc
    → TplResult × HashCheck × Object
object_init w mutex_ok node_allocated g o type free = (
  if mutex_ok then error_none else invalid_operation,
  if g.built && g.enabled
      then record g { table = (Hlist.insert node_allocated g.table o.address o.address).1 }
      else g,
  record o {
    magic = object_magic;
    type = type;
    reference = 1;
    free = free;
    locked = if mutex_ok then false else o.locked;
    user_data_map = pointer_init w object_bucket_bits true o.user_data_map.buckets;
  },
)

-- `__tpl_object_fini`, with the free functions that it calls.
pub object_fini :
    (mutex_ok : Bool) → HashCheck → Object → TplResult × HashCheck × Object × List FreeCall
object_fini mutex_ok g o =
    let freed = record o { magic = object_magic_freed } in
    let g' =
      if g.built && g.enabled then record g { table = Hlist.delete g.table o.address } else g in
    if mutex_ok
    then (
      error_none,
      g',
      record freed { user_data_map = (UtilMap.fini o.user_data_map).0 },
      (UtilMap.fini o.user_data_map).1,
    )
    else (invalid_operation, g', freed, [])

-- `__tpl_object_lock`
unfoldable pub object_lock : (mutex_ok : Bool) → Object → TplResult × Object
object_lock mutex_ok o =
    if mutex_ok then (error_none, record o { locked = true }) else (invalid_operation, o)

-- `__tpl_object_unlock`
unfoldable pub object_unlock : Object → Object
object_unlock o = record o { locked = false }

-- `tpl_object_reference`
pub reference : HashCheck → Object → ℕ × Object
unfolding atomic_inc
reference g o =
    if not (is_valid g (some o))
    then (minus_one, o)
    else (atomic_inc o.reference, record o { reference = atomic_inc o.reference })

-- What `tpl_object_unreference` sets off, in order: free functions of user data, and the object's
-- own `free` on its address.
pub data Event : Type 0 where
  user_data_freed : FreeCall → Event
  object_freed : FreeFunc → Ptr → Event

pub user_data_events : List FreeCall → List Event
user_data_events [] = []
user_data_events (c ∷ cs) = user_data_freed c ∷ user_data_events cs

-- `tpl_object_unreference`
pub unreference : (mutex_ok : Bool) → HashCheck → Object → ℕ × HashCheck × Object × List Event
unfolding atomic_dec
unreference mutex_ok g o =
    let left = atomic_dec o.reference in
    let o' = record o { reference = left } in
    let (r, g', dead, calls) = object_fini mutex_ok g o' in
    if not (is_valid g (some o))
    then (minus_one, g, o, [])
    else if left == 0
    then (left, g', dead, user_data_events calls ++ object_freed o.free o.address ∷ [])
    else (left, g, o', [])

-- `tpl_object_get_reference`
pub get_reference : HashCheck → Object → ℕ
unfolding atomic_get
get_reference g o = if not (is_valid g (some o)) then minus_one else atomic_get o.reference

-- `tpl_object_get_type`
pub get_type : HashCheck → Object → ObjectType
get_type g o = if not (is_valid g (some o)) then object_error else o.type

-- `tpl_object_set_user_data`
pub set_user_data :
    (mutex_ok : Bool)
    → (storage : Option Ptr) → HashCheck
    → Object
    → Key
    → Ptr
    → Option FreeFunc
    → TplResult × Object × List FreeCall
unfolding object_lock object_unlock
set_user_data mutex_ok storage g o key value free_func =
    let locked = (object_lock mutex_ok o).1 in
    let (m, calls) = UtilMap.set locked.user_data_map key value free_func storage in
    if not (is_valid g (some o))
    then (invalid_parameter, o, [])
    else (error_none, object_unlock (record locked { user_data_map = m }), calls)

-- `tpl_object_get_user_data`
pub get_user_data : (mutex_ok : Bool) → HashCheck → Object → Key → Ptr × Object
unfolding object_lock object_unlock
get_user_data mutex_ok g o key =
    let locked = (object_lock mutex_ok o).1 in
    if not (is_valid g (some o))
    then (null, o)
    else (UtilMap.get locked.user_data_map key, object_unlock locked)
