-- ===== src/Object/Tests.antt =====
-- Runs of objects on small inputs.
use libtpl_egl.Base.{ℕ, ◌≡◌, refl, true, false, none, some, List, [], arith, ◌==◌, if◌then◌else◌}
use libtpl_egl.Types.{error_none, object_display}
use libtpl_egl.Hlist.{empty_heads}
use libtpl_egl.UtilMap.{pointer_init, Entry}
use libtpl_egl.UtilMap.Hash.{bits64}
use libtpl_egl.UtilMap.Keys.{IsPointerMap, pointer_init-IsPointerMap}
use libtpl_egl.Object.{
  HashCheck, Object, object_magic, hash_init, hash_shutdown, is_valid, atomic_get, set_user_data,
  get_user_data,
}
use libtpl_egl.Object.Counting.{references, unreferences, last_events, balanced_lifetime}
use libtpl_egl.Object.UserData.{get_user_data-set_user_data}

-- A build without tracking, and one with it.
abbrev untracked : HashCheck
untracked = record { built = false; enabled = false; has_table = false; table = empty_heads }

abbrev tracked : HashCheck
tracked = record { built = true; enabled = true; has_table = true; table = empty_heads }

abbrev no_entries : ℕ → List Entry
no_entries i = []

abbrev fresh : Object
fresh = record {
  address = 0x1000;
  magic = object_magic;
  type = object_display;
  reference = 1;
  free = 1;
  locked = false;
  user_data_map = pointer_init bits64 5 true no_entries;
}

abbrev dead : Object
dead = record fresh { reference = 0 }

fresh-valid : is_valid untracked (some fresh) ≡ true
unfolding is_valid atomic_get
fresh-valid = refl

dead-invalid : is_valid untracked (some dead) ≡ false
unfolding is_valid atomic_get
dead-invalid = refl

-- The list of tracked objects is made when the variable asks for it, and kept afterwards.
tracking_on_off :
    (hash_init true (some empty_heads) untracked
      ≡ record untracked { enabled = true; has_table = true })
    × (hash_init true (some empty_heads) tracked ≡ record tracked { enabled = false })
    × (hash_shutdown tracked ≡ record tracked { enabled = false; has_table = false })
unfolding hash_init hash_shutdown
tracking_on_off = (refl, refl, refl)

balanced_lifetime_example :
    let (g', dead, events) = unreferences 4 true untracked (references 3 untracked fresh) in
    (unreferences 3 true untracked (references 3 untracked fresh) ≡ (untracked, fresh, []))
    × (events ≡ last_events true fresh)
    × (is_valid g' (some dead) ≡ false)
balanced_lifetime_example = balanced_lifetime 3 true untracked fresh fresh-valid refl (omega arith)

fresh-IsPointerMap : IsPointerMap 0x1000 fresh.user_data_map
fresh-IsPointerMap = pointer_init-IsPointerMap 0x1000 5

get_user_data-set_user_data_example :
    let (r, o', calls) = set_user_data true (some 0) untracked fresh 0x2000 100 none in
    (r ≡ error_none)
    × ((get_user_data true untracked o' 0x3000).0
        ≡ (if 0x2000 == 0x3000 then 100 else (get_user_data true untracked fresh 0x3000).0))
    × (o'.locked ≡ false)
    × ((get_user_data true untracked o' 0x3000).1.locked ≡ false)
get_user_data-set_user_data_example =
    get_user_data-set_user_data 0x1000 true true untracked fresh 0x2000 0x3000 100 0 none
      fresh-valid fresh-IsPointerMap (omega arith, omega arith, omega arith)
      (omega arith, omega arith, omega arith)
