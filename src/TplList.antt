-- ===== src/TplList.antt =====
-- The doubly linked list of src/tpl_utils.h, `__tpl_list_*`. A list is the data of its nodes from
-- the front to the back, with the count that the code keeps beside them; `prev` and `next` are the
-- order of the nodes, and a node is its position. Operations return the data on which they call
-- the free function. An `int` is its 32-bit pattern.
pub mod Count
pub mod Removal
pub mod Ends
pub mod Nodes
mod Tests
use mathlib.Core.List.{reverse}
use libtpl_egl.Base.{
  ℕ, zero, suc, ◌+◌, ◌-◌, ◌%◌, ◌^◌, Bool, true, false, Option, none, some, List, [], ◌∷◌, ◌++◌,
  ◌==◌, if◌then◌else◌,
}
use libtpl_egl.Types.{TplResult, error_none, out_of_memory, Ptr, null, Outcome, done, out_of_bounds}

-- `struct _tpl_list`
pub record TplList : Type 0 where
  pub nodes : List Ptr
  pub count : ℕ

-- `enum _tpl_occurrence`
pub data Occurrence : Type 0 where
  first last all : Occurrence

-- `list->count++` and `list->count--`
unfoldable pub count_up : ℕ → ℕ
count_up count = (count + 1) % 2 ^ 32

unfoldable pub count_down : ℕ → ℕ
count_down count = (count + 2 ^ 32 - 1) % 2 ^ 32

-- `__tpl_list_get_count`
pub get_count : TplList → ℕ
get_count l = l.count

-- `__tpl_list_is_empty`
unfoldable pub is_empty : TplList → Bool
is_empty l = l.count == 0

-- `__tpl_list_init`
unfoldable pub init : TplList
init = record { nodes = []; count = 0 }

-- `if (func) func(data)`
unfoldable pub freed : (func : Bool) → List Ptr → List Ptr
freed true datas = datas
freed false datas = []

-- `__tpl_list_fini`
pub fini : (func : Bool) → TplList → TplList × List Ptr
unfolding freed init
fini func l = (init, freed func l.nodes)

-- `__tpl_list_alloc`
pub alloc : (allocated : Bool) → Option TplList
unfolding init
alloc true = some init
alloc false = none

-- `__tpl_list_free`: the list is gone, and the calls are left.
pub free : (func : Bool) → TplList → List Ptr
unfolding fini
free func l = (fini func l).1

-- The data of the node at the front; a list that has a count but no node has its sentinel read.
pub front_data : List Ptr → Outcome Ptr
front_data [] = out_of_bounds
front_data (d ∷ ds) = done d

-- `__tpl_list_get_front`
pub get_front : TplList → Outcome Ptr
unfolding is_empty front_data
get_front l = if is_empty l then done null else front_data l.nodes

-- `__tpl_list_get_back`
pub get_back : TplList → Outcome Ptr
unfolding is_empty front_data
get_back l = if is_empty l then done null else front_data (reverse l.nodes)

-- `__tpl_list_insert` of a new node behind the sentinel at the front, and of one before the
-- sentinel at the back, as `__tpl_list_push_front` and `__tpl_list_push_back` call it.
pub push_front : (allocated : Bool) → TplList → Ptr → TplResult × TplList
unfolding count_up
push_front true l value = (error_none, record { nodes = value ∷ l.nodes; count = count_up l.count })
push_front false l value = (out_of_memory, l)

unfoldable pub push_back : (allocated : Bool) → TplList → Ptr → TplResult × TplList
unfolding count_up
push_back true l value =
    (error_none, record { nodes = l.nodes ++ value ∷ []; count = count_up l.count })
push_back false l value = (out_of_memory, l)

-- `__tpl_list_pop_front`: the data, the list, and what is freed.
unfoldable pub pop_front : (func : Bool) → TplList → Outcome (Ptr × TplList × List Ptr)
unfolding is_empty count_down freed
pop_front func l = if is_empty l then done (null, l, []) else elim l.nodes [
  | [] ↦ out_of_bounds
  | d ∷ ds ↦ done (d, record { nodes = ds; count = count_down l.count }, freed func (d ∷ []))
]

-- `tpl_list_pop_back`
pub pop_back : (func : Bool) → TplList → Outcome (Ptr × TplList × List Ptr)
unfolding is_empty count_down freed
pop_back func l = if is_empty l then done (null, l, []) else elim (reverse l.nodes) [
  | [] ↦ out_of_bounds
  | d ∷ ds ↦
      done (d, record { nodes = reverse ds; count = count_down l.count }, freed func (d ∷ []))
]

-- The loop of `__tpl_list_remove_data` up to the first node with the data, in the order in which
-- it walks: the nodes without that one, or `none` if there is none.
pub remove_one : Ptr → List Ptr → Option (List Ptr)
remove_one d [] = none
remove_one d (x ∷ xs) =
    let others = remove_one d xs in
    if x == d then some xs else elim others [ none ↦ none | some ys ↦ some (x ∷ ys) ]

-- Its loop over all nodes: the nodes left, the count, and the data of the nodes removed.
pub remove_all : Ptr → List Ptr → ℕ → List Ptr × ℕ × List Ptr
unfolding count_down
remove_all d [] count = ([], count, [])
remove_all d (x ∷ xs) count =
    let (kept, count', gone) = remove_all d xs (if x == d then count_down count else count) in
    if x == d then (kept, count', x ∷ gone) else (x ∷ kept, count', gone)

-- `__tpl_list_remove_data`
pub remove_data : TplList → Ptr → Occurrence → (func : Bool) → TplList × List Ptr
unfolding remove_one remove_all count_down freed
remove_data l d first func = elim (remove_one d l.nodes) [
  | none ↦ (l, [])
  | some ds ↦ (record { nodes = ds; count = count_down l.count }, freed func (d ∷ []))
]
remove_data l d last func = elim (remove_one d (reverse l.nodes)) [
  | none ↦ (l, [])
  | some ds ↦ (record { nodes = reverse ds; count = count_down l.count }, freed func (d ∷ []))
]
remove_data l d all func =
    let (kept, count, gone) = remove_all d l.nodes l.count in
    (record { nodes = kept; count = count }, freed func gone)
