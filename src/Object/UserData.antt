-- ===== src/Object/UserData.antt =====
-- User data: the map of an object behind `tpl_object_set_user_data` and
-- `tpl_object_get_user_data`.
use libtpl_egl.Base.{ℕ, ◌≡◌, refl, Bool, true, false, Option, some, arith, ◌==◌, if◌then◌else◌}
use libtpl_egl.Types.{error_none, Ptr}
use libtpl_egl.UtilMap.{FreeFunc}
use libtpl_egl.UtilMap
use libtpl_egl.UtilMap.Hash.{Key}
use libtpl_egl.UtilMap.Keys.{Window, IsPointerMap, IsPointerMap-IsIdentity, pointer-IsCopy}
use libtpl_egl.UtilMap.Update.{get-set}
use libtpl_egl.Object.{HashCheck, Object, is_valid, set_user_data, get_user_data}

-- Validity does not look at the user data or the mutex.
valid_same :
    (g : HashCheck) (o : Object) (locked : Bool) (m : UtilMap.UtilMap)
    → is_valid g (some o) ≡ true
    → is_valid g (some (record o { locked = locked; user_data_map = m })) ≡ true
unfolding is_valid
valid_same g o locked m h = h

set_user_data_lem :
    (lock_ok : Bool) (storage : Option Ptr) (g : HashCheck) (o : Object) (key : Key) (value : Ptr)
    (free_func : Option FreeFunc)
    → is_valid g (some o) ≡ true
    → set_user_data lock_ok storage g o key value free_func ≡ (
        let (m, calls) = UtilMap.set o.user_data_map key value free_func storage in
        (error_none, record o { locked = false; user_data_map = m }, calls))
unfolding set_user_data
set_user_data_lem lock_ok storage g o key value free_func h = ground arith

get_user_data_lem :
    (lock_ok : Bool) (g : HashCheck) (o : Object) (key : Key)
    → is_valid g (some o) ≡ true
    → get_user_data lock_ok g o key ≡ (UtilMap.get o.user_data_map key, record o { locked = false })
unfolding get_user_data
get_user_data_lem lock_ok g o key h = ground arith

-- On a valid object whose keys lie in one window of 4 GiB, and with memory for a new entry,
-- `tpl_object_set_user_data` succeeds, and `tpl_object_get_user_data` then returns the new data
-- for its key, NULL included, and for every other key what it returned before; both leave the
-- mutex free, also where it could not be locked.
pub get_user_data-set_user_data :
    (low : ℕ) (lock_ok lock_ok' : Bool) (g : HashCheck) (o : Object) (key k : Key)
    (value copy : Ptr) (free_func : Option FreeFunc)
    → is_valid g (some o) ≡ true
    → IsPointerMap low o.user_data_map
    → Window low key
    → Window low k
    → let (r, o', calls) = set_user_data lock_ok (some copy) g o key value free_func in
      (r ≡ error_none)
      × ((get_user_data lock_ok' g o' k).0
          ≡ (if key == k then value else (get_user_data lock_ok' g o k).0))
      × (o'.locked ≡ false)
      × ((get_user_data lock_ok' g o' k).1.locked ≡ false)
get_user_data-set_user_data low lock_ok lock_ok' g o key k value copy free_func live p dk dk' =
    let m = (UtilMap.set o.user_data_map key value free_func (some copy)).0 in
    rw
      (
        set_user_data_lem lock_ok (some copy) g o key value free_func live,
        get_user_data_lem lock_ok' g (record o { locked = false; user_data_map = m }) k
            (valid_same g o false m live),
        get_user_data_lem lock_ok' g o k live,
      )
      (
        refl,
        get-set (IsPointerMap-IsIdentity p) p.valid key dk value free_func copy k
            (pointer-IsCopy p key copy dk) dk',
        refl,
        refl,
      )
