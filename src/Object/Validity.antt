-- ===== src/Object/Validity.antt =====
-- When an object is valid: from `__tpl_object_init` to the `__tpl_object_fini` of its last release.
use libtpl_egl.Base.{
  ◌≡◌, ◌≢◌, refl, Bool, true, false, ◌&&◌, ◌⊎◌, inl, inr, Option, some, [], arith,
}
use libtpl_egl.Types.{invalid_parameter, ObjectType, object_error, succeeded, Ptr, null}
use libtpl_egl.Hlist
use libtpl_egl.Hlist.{get_node}
use libtpl_egl.Hlist.Contents.{get_node-insert, lookup-get_node}
use libtpl_egl.UtilMap.{FreeFunc}
use libtpl_egl.UtilMap.Hash.{Key, PointerWidth}
use libtpl_egl.Object.{
  HashCheck, Object, minus_one, is_valid, object_init, object_fini, reference, unreference,
  get_reference, get_type, set_user_data, get_user_data,
}

lookup_inserted :
    (l : Hlist.Hlist) (allocated : Bool) (address : Ptr)
    → succeeded (Hlist.insert allocated l address address).0 ≡ true
    → Hlist.lookup (Hlist.insert allocated l address address).1 address ≡ address
unfolding Hlist.value_or_null
lookup_inserted l allocated address h =
    rw (lookup-get_node, get_node-insert allocated l address address address) (ground arith)

-- After `__tpl_object_init` an object at an address other than NULL is valid, has one reference
-- and the given type. Where objects are tracked, the insertion into the list has to succeed.
pub object_init_valid :
    (w : PointerWidth) (mutex_ok allocated : Bool) (g : HashCheck) (o : Object) (type : ObjectType)
    (free : FreeFunc)
    → o.address ≢ null
    → ((g.built && g.enabled) ≡ false)
      ⊎ (succeeded (Hlist.insert allocated g.table o.address o.address).0 ≡ true)
    → let (r, g', o') = object_init w mutex_ok allocated g o type free in
      (is_valid g' (some o') ≡ true) × (get_reference g' o' ≡ 1) × (get_type g' o' ≡ type)
unfolding object_init is_valid get_reference get_type
object_init_valid w mutex_ok allocated g o type free ne (inl untracked) = ground arith
object_init_valid w mutex_ok allocated g o type free ne (inr tracked) =
    ground (arith, lookup_inserted g.table allocated o.address tracked)

-- After `__tpl_object_fini` an object is not valid, whatever its reference count and whatever
-- pthread says.
pub object_fini_invalid :
    (mutex_ok : Bool) (g : HashCheck) (o : Object)
    → let (r, g', o', calls) = object_fini mutex_ok g o in is_valid g' (some o') ≡ false
unfolding object_fini is_valid
object_fini_invalid mutex_ok g o = ground arith

-- On an object that is not valid every operation of the interface fails with its own error and
-- changes nothing.
pub invalid_refused :
    (mutex_ok : Bool) (storage : Option Ptr) (g : HashCheck) (o : Object) (key : Key) (value : Ptr)
    (free_func : Option FreeFunc)
    → is_valid g (some o) ≡ false
    → (reference g o ≡ (minus_one, o))
      × (unreference mutex_ok g o ≡ (minus_one, g, o, []))
      × (get_reference g o ≡ minus_one)
      × (get_type g o ≡ object_error)
      × (set_user_data mutex_ok storage g o key value free_func ≡ (invalid_parameter, o, []))
      × (get_user_data mutex_ok g o key ≡ (null, o))
unfolding reference unreference get_reference get_type set_user_data get_user_data
invalid_refused mutex_ok storage g o key value free_func h =
    (rw h refl, rw h refl, rw h refl, rw h refl, rw h refl, rw h refl)

pub object_init_reference :
    (w : PointerWidth) (mutex_ok allocated : Bool) (g : HashCheck) (o : Object) (type : ObjectType)
    (free : FreeFunc)
    → (object_init w mutex_ok allocated g o type free).2.reference ≡ 1
unfolding object_init
object_init_reference w mutex_ok allocated g o type free = refl
