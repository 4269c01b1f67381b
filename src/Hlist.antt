-- ===== src/Hlist.antt =====
-- The hash list of src/tpl_utils_hlist.c. A bucket is the list of its nodes, first node first;
-- `next` and `pprev` are the order of that list. The outcome of each `malloc` is an argument.
pub mod Buckets
pub mod Invariant
pub mod Contents
pub mod Traversal
mod Tests
use libtpl_egl.Base.{
  ℕ, zero, suc, ◌*◌, ◌/◌, ◌%◌, ◌^◌, Bool, true, false, Option, none, some, List, [], ◌∷◌, ◌++◌,
  ◌==◌, if◌then◌else◌, update,
}
use libtpl_egl.Types.{TplResult, error_none, invalid_parameter, out_of_memory, Ptr, null}

abbrev pub hash_head_bits : ℕ
hash_head_bits = 8

abbrev pub num_of_heads : ℕ
num_of_heads = 2 ^ hash_head_bits

-- `CALC_HASH`: the key is cut to 32 bits, and the product wraps.
pub calc_hash : ℕ → ℕ
calc_hash key = (key % 2 ^ 32 * 0x9e406cb5) % 2 ^ 32 / 2 ^ 24

pub record Node : Type 0 where
  pub key : ℕ
  pub value : Ptr

pub record Hlist : Type 0 where
  pub heads : ℕ → List Node

-- `__tpl_hlist_empty`
pub is_empty : List Node → Bool
is_empty [] = true
is_empty (n ∷ ns) = false

-- The loop of `__tpl_hlist_get_node`.
pub find : ℕ → List Node → Option Node
find key [] = none
find key (n ∷ ns) = if n.key == key then some n else find key ns

-- `__tpl_hlist_get_node`
pub get_node : Hlist → ℕ → Option Node
unfolding find
get_node l key = find key (l.heads (calc_hash key))

-- The loop of `__tpl_hlist_get_tail_node`, at a node and those behind it.
pub last_node : Node → List Node → Node
last_node n [] = n
last_node n (m ∷ ms) = last_node m ms

tail_of : List Node → Option Node
unfolding last_node
tail_of [] = none
tail_of (n ∷ ns) = some (last_node n ns)

-- `__tpl_hlist_get_tail_node`
pub get_tail_node : Hlist → ℕ → Option Node
unfolding tail_of
get_tail_node l key = tail_of (l.heads (calc_hash key))

-- `__tpl_hlist_del` of the node that `find` returns: its neighbours are linked to one another.
pub unlink : ℕ → List Node → List Node
unlink key [] = []
unlink key (n ∷ ns) = if n.key == key then ns else n ∷ unlink key ns

-- `__tpl_hlist_add_head`
pub add_head : Node → List Node → List Node
add_head n ns = n ∷ ns

-- The `memset` of `__tpl_hashlist_create`: every head is NULL.
abbrev pub empty_heads : Hlist
empty_heads = record { heads = λ i. [] }

-- `__tpl_hashlist_create`
pub create : (list_allocated heads_allocated : Bool) → Option Hlist
create false heads_allocated = none
create true false = none
create true true = some empty_heads

-- `__tpl_hashlist_insert`
pub insert : (node_allocated : Bool) → Hlist → ℕ → Ptr → TplResult × Hlist
unfolding get_node add_head
insert node_allocated l key value = elim (get_node l key) [
  | some n ↦ (invalid_parameter, l)
  | none ↦
      if node_allocated
      then (
        error_none,
        record l {
          heads =
              update l.heads (calc_hash key)
                (add_head (record { key = key; value = value }) (l.heads (calc_hash key)));
        },
      )
      else (out_of_memory, l)
]

-- The test `if (!list)` at the head of `__tpl_hashlist_insert`.
pub insert_checked : (node_allocated : Bool) → Option Hlist → ℕ → Ptr → TplResult × Option Hlist
unfolding insert
insert_checked node_allocated none key value = (invalid_parameter, none)
insert_checked node_allocated (some l) key value =
    let (r, l') = insert node_allocated l key value in (r, some l')

-- `__tpl_hashlist_delete`
pub delete : Hlist → ℕ → Hlist
unfolding get_node unlink
delete l key = elim (get_node l key) [
  | none ↦ l
  | some n ↦ record l {
    heads = update l.heads (calc_hash key) (unlink key (l.heads (calc_hash key)));
  }
]

unfoldable pub value_or_null : Option Node → Ptr
value_or_null none = null
value_or_null (some n) = n.value

-- `__tpl_hashlist_lookup`
pub lookup : Hlist → ℕ → Ptr
unfolding get_node value_or_null
lookup l key = value_or_null (get_node l key)

-- The inner loop of `__tpl_hashlist_do_for_all_nodes`.
pub for_nodes {ℓ} : {S : Type ℓ} → (Ptr → S → S) → List Node → S → S
for_nodes cb [] s = s
for_nodes cb (n ∷ ns) s = for_nodes cb ns (cb n.value s)

-- Its outer loop, after `n` rounds.
pub for_heads {ℓ} : {S : Type ℓ} → (Ptr → S → S) → ℕ → Hlist → S → S
unfolding for_nodes
for_heads cb zero l s = s
for_heads cb (suc n) l s = for_nodes cb (l.heads n) (for_heads cb n l s)

-- `__tpl_hashlist_do_for_all_nodes`; the callback acts on a state of its own, and may be NULL.
pub do_for_all_nodes {ℓ} : {S : Type ℓ} → Hlist → Option (Ptr → S → S) → S → S
unfolding for_heads
do_for_all_nodes l none s = s
do_for_all_nodes l (some cb) s = for_heads cb num_of_heads l s

-- The inner loop of `__tpl_hashlist_destroy`: each node is unlinked and freed. `freed` holds the
-- nodes freed so far, in order.
pub free_nodes : List Node → List Node → List Node
free_nodes [] freed = freed
free_nodes (n ∷ ns) freed = free_nodes ns (freed ++ n ∷ [])

-- Its outer loop, after `n` rounds.
pub free_heads : ℕ → Hlist → List Node
unfolding free_nodes is_empty
free_heads zero l = []
free_heads (suc n) l =
    let freed = free_heads n l in
    if is_empty (l.heads n) then freed else free_nodes (l.heads n) freed

-- `__tpl_hashlist_destroy`: the freed nodes, and the pointer that the caller is left with.
pub destroy : Option Hlist → List Node × Option Hlist
unfolding free_heads
destroy none = ([], none)
destroy (some l) = (free_heads num_of_heads l, none)
