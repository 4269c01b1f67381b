-- ===== src/Object/Counting.antt =====
-- The reference count of an object: `tpl_object_reference` and `tpl_object_unreference`.
use mathlib.Core.List.{append-nil, map}
use libtpl_egl.Base.{
  ℕ, zero, suc, ◌+◌, ◌-◌, ◌^◌, ◌<◌, ◌≡◌, ◌≢◌, ap, refl, ◌∙◌, ◌&&◌, if◌then◌else◌, gather, Bool,
  true, false, List, [], ◌∷◌, ◌++◌, some, arith,
}
use libtpl_egl.Object.{
  HashCheck, Object, Event, object_freed, user_data_freed, is_valid, atomic_get, atomic_inc,
  atomic_dec, object_fini, reference, unreference, user_data_events,
}
use libtpl_egl.UtilMap.{FreeCall}
use libtpl_egl.UtilMap.Bucket.{releases_of}
use libtpl_egl.UtilMap.Clear.{fini_calls}
use libtpl_egl.Object.Validity.{object_fini_invalid}

-- Validity asks of the count only that it is not 0.
valid_at :
    (g : HashCheck) (o : Object) (n : ℕ)
    → is_valid g (some o) ≡ true
    → n ≢ 0
    → is_valid g (some (record o { reference = n })) ≡ true
unfolding is_valid atomic_get
valid_at g o n h ne = ground arith

valid_pos : (g : HashCheck) (o : Object) → is_valid g (some o) ≡ true → 0 < o.reference
unfolding is_valid atomic_get
valid_pos g o h = ground arith

pub references : ℕ → HashCheck → Object → Object
references zero g o = o
references (suc n) g o = references n g (reference g o).1

-- `n` calls of `tpl_object_unreference`, with the events of all.
pub unreferences : ℕ → (mutex_ok : Bool) → HashCheck → Object → HashCheck × Object × List Event
unreferences zero mutex_ok g o = (g, o, [])
unreferences (suc n) mutex_ok g o =
    let (r, g', o', events) = unreference mutex_ok g o in
    let (g'', o'', more) = unreferences n mutex_ok g' o' in (g'', o'', events ++ more)

reference_lem :
    (g : HashCheck) (o : Object)
    → is_valid g (some o) ≡ true
    → o.reference < 2 ^ 32 - 1
    → reference g o ≡ (o.reference + 1, record o { reference = o.reference + 1 })
unfolding reference atomic_inc
reference_lem g o h small = ground arith

-- An unreference that is not the last.
unreference_more :
    (mutex_ok : Bool) (g : HashCheck) (o : Object)
    → is_valid g (some o) ≡ true
    → 1 < o.reference
    → o.reference < 2 ^ 32
    → unreference mutex_ok g o ≡ (o.reference - 1, g, record o { reference = o.reference - 1 }, [])
unfolding unreference atomic_dec
unreference_more mutex_ok g o h more small = ground arith

-- The last one.
pub unreference_last :
    (mutex_ok : Bool) (g : HashCheck) (o : Object)
    → is_valid g (some o) ≡ true
    → o.reference ≡ 1
    → unreference mutex_ok g o ≡ (
        let (r, g', dead, calls) = object_fini mutex_ok g (record o { reference = 0 }) in
        (0, g', dead, user_data_events calls ++ object_freed o.free o.address ∷ []))
unfolding unreference atomic_dec
unreference_last mutex_ok g o h one = ground arith

-- A reference to a valid object, its count below the largest, raises the count by one and returns
-- it; the unreference that follows undoes it and frees nothing.
pub unreference-reference :
    (mutex_ok : Bool) (g : HashCheck) (o : Object)
    → is_valid g (some o) ≡ true
    → o.reference < 2 ^ 32 - 1
    → (reference g o ≡ (o.reference + 1, record o { reference = o.reference + 1 }))
      × (unreference mutex_ok g (reference g o).1 ≡ (o.reference, g, o, []))
unreference-reference mutex_ok g o h small = (
  reference_lem g o h small,
  rw (reference_lem g o h small) (
      unreference_more mutex_ok g _ (valid_at g o (o.reference + 1) h (omega arith))
        (omega (arith, valid_pos g o h)) (omega arith)
      ∙ ground arith),
)

references_lem :
    (n : ℕ) (g : HashCheck) (o : Object)
    → is_valid g (some o) ≡ true
    → o.reference + n < 2 ^ 32
    → references n g o ≡ record o { reference = o.reference + n }
unfolding references
references_lem zero g o h small = ground arith
references_lem (suc n) g o h small = rw (reference_lem g o h (omega arith)) (
    references_lem n g _ (valid_at g o (o.reference + 1) h (omega arith)) (omega arith)
    ∙ ground arith)

unreferences_more :
    (n : ℕ) (mutex_ok : Bool) (g : HashCheck) (o : Object)
    → is_valid g (some o) ≡ true
    → n < o.reference
    → o.reference < 2 ^ 32
    → unreferences n mutex_ok g o ≡ (g, record o { reference = o.reference - n }, [])
unfolding unreferences
unreferences_more zero mutex_ok g o h more small = ground arith
unreferences_more (suc n) mutex_ok g o h more small =
    rw (unreference_more mutex_ok g o h (omega arith) small) (
      ground (
        arith,
        unreferences_more n mutex_ok g (record o { reference = o.reference - 1 })
            (valid_at g o (o.reference - 1) h (omega arith)) (omega arith) (omega arith),
      ))

-- What the last unreference leaves and sets off.
abbrev last_release : (mutex_ok : Bool) → HashCheck → Object → HashCheck × Object × List Event
last_release mutex_ok g o =
    let (r, g', dead, calls) = object_fini mutex_ok g (record o { reference = 0 }) in
    (g', dead, user_data_events calls ++ object_freed o.free o.address ∷ [])

unreferences_all :
    (n : ℕ) (mutex_ok : Bool) (g : HashCheck) (o : Object)
    → is_valid g (some o) ≡ true
    → o.reference ≡ suc n
    → o.reference < 2 ^ 32
    → unreferences (suc n) mutex_ok g o ≡ last_release mutex_ok g o
unfolding unreferences
unreferences_all zero mutex_ok g o h count small =
    rw (unreference_last mutex_ok g o h count, append-nil)
unreferences_all (suc n) mutex_ok g o h count small =
    rw (unreference_more mutex_ok g o h (omega arith) small) (
      ground (
        arith,
        unreferences_all n mutex_ok g (record o { reference = o.reference - 1 })
            (valid_at g o (o.reference - 1) h (omega arith)) (omega arith) (omega arith),
      ))

-- The free functions of the user data, one call for each entry that has one, if the mutex is
-- destroyed and the map has its buckets; then the object's own `free`.
abbrev pub last_events : (mutex_ok : Bool) → Object → List Event
last_events mutex_ok o =
    let m = o.user_data_map in
    map user_data_freed
      (if mutex_ok && m.has_buckets then releases_of (gather m.bucket_size m.buckets) else [])
    ++ object_freed o.free o.address ∷ []

user_data_events-map : (calls : List FreeCall) → user_data_events calls ≡ map user_data_freed calls
unfolding user_data_events
user_data_events-map [] = refl
user_data_events-map (c ∷ cs) = ap (λ l. user_data_freed c ∷ l) (user_data_events-map cs)

object_fini_calls :
    (mutex_ok : Bool) (g : HashCheck) (o : Object)
    → let m = o.user_data_map in
      (object_fini mutex_ok g o).3
      ≡ (if mutex_ok && m.has_buckets then releases_of (gather m.bucket_size m.buckets) else [])
unfolding object_fini
object_fini_calls false g o = refl
object_fini_calls true g o = fini_calls o.user_data_map

last_release-events :
    (mutex_ok : Bool) (g : HashCheck) (o : Object)
    → (last_release mutex_ok g o).2 ≡ last_events mutex_ok o
last_release-events mutex_ok g o =
    let dying = record o { reference = 0 } in
    ap (λ l. l ++ object_freed o.free o.address ∷ [])
      (user_data_events-map (object_fini mutex_ok g dying).3
        ∙ ap (map user_data_freed) (object_fini_calls mutex_ok g dying))

-- A valid object with one reference lives through `n` further references and as many
-- unreferences, in that order, unchanged and with nothing freed, where n + 1 is less than 2^32. One
-- more unreference calls the free function of every entry of its user data that has one, once and
-- in bucket order, if the mutex of the object is destroyed and the map has its buckets, and none
-- otherwise; then the object's own `free` once; and leaves no valid object.
pub balanced_lifetime :
    (n : ℕ) (mutex_ok : Bool) (g : HashCheck) (o : Object)
    → is_valid g (some o) ≡ true
    → o.reference ≡ 1
    → n + 1 < 2 ^ 32
    → let (g', dead, events) = unreferences (suc n) mutex_ok g (references n g o) in
      (unreferences n mutex_ok g (references n g o) ≡ (g, o, []))
      × (events ≡ last_events mutex_ok o)
      × (is_valid g' (some dead) ≡ false)
balanced_lifetime n mutex_ok g o h one small =
    let held : is_valid g (some (record o { reference = o.reference + n })) ≡ true =
      valid_at g o (o.reference + n) h (omega arith) in
    let ended = unreferences_all n mutex_ok g _ held (omega arith) (omega arith) in
    rw (references_lem n g o h (omega arith), ended)
      (
        unreferences_more n mutex_ok g _ held (omega arith) (omega arith) ∙ ground arith,
        last_release-events mutex_ok g o,
        object_fini_invalid mutex_ok g (record o { reference = 0 }),
      )
