-- ===== src/Hlist/Contents.antt =====
-- The hash list as a finite map from keys to nodes: each operation against the map.
use libtpl_egl.Base.{
  ℕ, ◌≡◌, ◌≢◌, refl, ap, ◌∙◌, Bool, true, false, ◌&&◌, Option, none, some, List, [], ◌∷◌, arith,
  ◌==◌, if◌then◌else◌, is_some, update,
}
use mathlib.Core.Path.{fun_ext, subst}
use libtpl_egl.Types.{null, error_none, invalid_parameter, out_of_memory, succeeded, Ptr}
use libtpl_egl.Hlist.{
  Hlist, Node, calc_hash, find, get_node, add_head, create, empty_heads, insert, delete, lookup,
  value_or_null,
}
use libtpl_egl.Hlist.Buckets.{find-unlink}
use libtpl_egl.Hlist.Invariant.{IsValid, create-IsValid, insert-IsValid, delete-IsValid}

-- The result code of `__tpl_hashlist_insert`: a key that is there is refused before memory is
-- asked for.
pub insert_result :
    (allocated : Bool) (l : Hlist) (key : ℕ) (value : Ptr)
    → (insert allocated l key value).0 ≡ (
        if is_some (get_node l key)
        then invalid_parameter
        else if allocated
        then error_none
        else out_of_memory)
unfolding insert
insert_result allocated l key value = ground arith

-- What a lookup finds after an insertion, on every branch.
pub get_node-insert :
    (allocated : Bool) (l : Hlist) (key : ℕ) (value : Ptr) (k : ℕ)
    → get_node (insert allocated l key value).1 k ≡ (
        if succeeded (insert allocated l key value).0 && (key == k)
        then some (record { key = key; value = value })
        else get_node l k)
unfolding insert get_node add_head find
get_node-insert allocated l key value k = ground arith

-- What a lookup finds after a deletion.
pub get_node-delete :
    (l : Hlist) (key k : ℕ)
    → IsValid l
    → get_node (delete l key) k ≡ (if key == k then none else get_node l k)
unfolding delete get_node
get_node-delete l key k v =
    ground (arith, find-unlink k key (l.heads (calc_hash key)) (v.unique (calc_hash key)))

-- The calls that change a hash list.
pub data Call : Type 0 where
  inserts : (allocated : Bool) → ℕ → Ptr → Call
  deletes : ℕ → Call

unfoldable pub step : Hlist → Call → Hlist
step l (inserts allocated key value) = (insert allocated l key value).1
step l (deletes key) = delete l key

unfoldable pub run : Hlist → List Call → Hlist
unfolding step
run l [] = l
run l (c ∷ cs) = run (step l c) cs

-- What a hash list promises, with no buckets: a partial function from keys to values.
abbrev pub Dict : Type 0
Dict = ℕ → Option Ptr

pub dict_step : Dict → Call → Dict
dict_step d (inserts allocated key value) =
    if is_some (d key) then d else if allocated then update d key (some value) else d
dict_step d (deletes key) = update d key none

pub dict_run : Dict → List Call → Dict
unfolding dict_step
dict_run d [] = d
dict_run d (c ∷ cs) = dict_run (dict_step d c) cs

node_value : Option Node → Option Ptr
node_value none = none
node_value (some n) = some n.value

pub contents : Hlist → Dict
unfolding node_value
contents l k = node_value (get_node l k)

pub step-IsValid : (l : Hlist) (c : Call) → IsValid l → IsValid (step l c)
unfolding step
step-IsValid l (inserts allocated key value) v = insert-IsValid allocated l key value v
step-IsValid l (deletes key) v = delete-IsValid l key v

contents-insert :
    (allocated : Bool) (l : Hlist) (key : ℕ) (value : Ptr) (k : ℕ)
    → contents (insert allocated l key value).1 k
      ≡ dict_step (contents l) (inserts allocated key value) k
unfolding contents dict_step
contents-insert allocated l key value k =
    ground (arith, get_node-insert allocated l key value k, insert_result allocated l key value)

contents-delete :
    (l : Hlist) (key k : ℕ)
    → IsValid l
    → contents (delete l key) k ≡ dict_step (contents l) (deletes key) k
unfolding contents dict_step
contents-delete l key k v = ground (arith, get_node-delete l key k v)

contents-step : (l : Hlist) (c : Call) → IsValid l → contents (step l c) ≡ dict_step (contents l) c
unfolding step
contents-step l (inserts allocated key value) v =
    fun_ext λ k. contents-insert allocated l key value k
contents-step l (deletes key) v = fun_ext λ k. contents-delete l key k v

contents-run :
    (l : Hlist) (cs : List Call) → IsValid l → contents (run l cs) ≡ dict_run (contents l) cs
unfolding run dict_run
contents-run l [] v = refl
contents-run l (c ∷ cs) v =
    contents-run (step l c) cs (step-IsValid l c v) ∙ ap (λ d. dict_run d cs) (contents-step l c v)

run-IsValid : (l : Hlist) (cs : List Call) → IsValid l → IsValid (run l cs)
unfolding run
run-IsValid l [] v = v
run-IsValid l (c ∷ cs) v = run-IsValid (step l c) cs (step-IsValid l c v)

-- After any sequence of insertions and deletions on a new hash list, in any mix of successful and
-- failed allocations, the contents are those of the dictionary on which the same calls were made,
-- every node lies in the bucket of its key, and no key occurs twice.
pub run_refines :
    (cs : List Call)
    → (contents (run empty_heads cs) ≡ dict_run (λ k. none) cs) × IsValid (run empty_heads cs)
unfolding contents get_node find
run_refines cs =
    (contents-run empty_heads cs create-IsValid, run-IsValid empty_heads cs create-IsValid)

pub lookup-get_node : (l : Hlist) (k : ℕ) → lookup l k ≡ value_or_null (get_node l k)
unfolding lookup
lookup-get_node l k = refl

-- `__tpl_hashlist_lookup` after `__tpl_hashlist_insert`, on every branch.
pub lookup-insert :
    (allocated : Bool) (l : Hlist) (key : ℕ) (value : Ptr) (k : ℕ)
    → lookup (insert allocated l key value).1 k
      ≡ (if succeeded (insert allocated l key value).0 && (key == k) then value else lookup l k)
unfolding lookup value_or_null
lookup-insert allocated l key value k = ground (arith, get_node-insert allocated l key value k)

-- `__tpl_hashlist_lookup` after `__tpl_hashlist_delete`.
pub lookup-delete :
    (l : Hlist) (key k : ℕ)
    → IsValid l
    → lookup (delete l key) k ≡ (if key == k then null else lookup l k)
unfolding lookup value_or_null
lookup-delete l key k v = ground (arith, get_node-delete l key k v)

pub lookup-create :
    (list_allocated heads_allocated : Bool) (l : Hlist) (k : ℕ)
    → create list_allocated heads_allocated ≡ some l
    → lookup l k ≡ null
unfolding create lookup value_or_null get_node find
lookup-create false b l k e = cc
lookup-create true false l k e = cc
lookup-create true true l k e =
    let same : empty_heads ≡ l = cc in subst (λ m. lookup m k ≡ null) same refl

-- `__tpl_hashlist_lookup` returns the value of the contents, and NULL where there is none.
pub lookup-contents :
    (l : Hlist) (k : ℕ) → lookup l k ≡ elim (contents l k) [ none ↦ null | some p ↦ p ]
unfolding lookup contents
lookup-contents l k = ground arith

-- A key with a value other than NULL is refused.
pub insert_taken :
    (allocated : Bool) (l : Hlist) (key : ℕ) (value : Ptr)
    → lookup l key ≢ null
    → (insert allocated l key value).0 ≡ invalid_parameter
unfolding lookup value_or_null
insert_taken allocated l key value taken = ground (arith, insert_result allocated l key value)

pub insert_first : (key : ℕ) (value : Ptr) → succeeded (insert true empty_heads key value).0 ≡ true
unfolding insert get_node find
insert_first key value = refl
