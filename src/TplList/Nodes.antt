-- ===== src/TplList/Nodes.antt =====
-- The nodes of the doubly linked list of src/tpl_utils.h in memory, with `prev` and `next`. There is
-- one list: `node->list` leads to it, and `head` and `tail` are the addresses of its sentinels.
pub mod Chain
pub mod Distinct
pub mod Represents
pub mod Ends
mod Tests
use libtpl_egl.Base.{
  ℕ, zero, suc, Bool, true, false, not, ◌&&◌, ◌||◌, Option, none, some, List, [], ◌∷◌, ◌++◌, ◌==◌,
  if◌then◌else◌, update,
}
use libtpl_egl.Types.{
  TplResult, error_none, out_of_memory, Ptr, null, Outcome, done, out_of_bounds, assertion_failed,
  out_of_fuel, ◌>>=◌,
}
use libtpl_egl.TplList.{count_up, count_down, freed}

-- `struct _tpl_list_node` at its addresses, those that are allocated, and the `count` of the list. A
-- read or a write behind another address is `out_of_bounds`.
pub record Heap : Type 0 where
  pub prev : Ptr → Ptr
  pub next : Ptr → Ptr
  pub data_of : Ptr → Ptr
  pub live : Ptr → Bool
  pub count : ℕ

-- `node->data`
unfoldable pub data_at : Heap → (node : Ptr) → Outcome Ptr
data_at h node = if not (h.live node) then out_of_bounds else done (h.data_of node)

-- `__tpl_list_node_get_data`
unfoldable pub node_get_data : Heap → (node : Ptr) → Outcome Ptr
node_get_data h node = if node == null then assertion_failed else data_at h node

-- `__tpl_list_remove`: the heap, and the data for which the free function is called.
unfoldable pub remove : (func : Bool) → Heap → (node : Ptr) → Outcome (Heap × List Ptr)
unfolding count_down freed
remove func h node =
    let before = h.prev node in
    let behind = h.next node in
    if node == null
    then assertion_failed
    else if not (h.live node)
    then out_of_bounds
    else if before == null || behind == null
    then assertion_failed
    else if not (h.live before) || not (h.live behind)
    then out_of_bounds
    else done (
      record h {
        next = update h.next before behind;
        prev = update h.prev behind before;
        live = update h.live node false;
        count = count_down h.count;
      },
      freed func (h.data_of node ∷ []),
    )

-- `__tpl_list_insert`; `fresh` is what `malloc` returns.
unfoldable pub insert : (fresh : Option Ptr) → Heap → (pos value : Ptr) → Outcome (TplResult × Heap)
unfolding count_up
insert none h pos value = done (out_of_memory, h)
insert (some node) h pos value =
    let behind = h.next pos in
    if not (h.live pos) || not (h.live behind)
    then out_of_bounds
    else done (
      error_none,
      record {
        data_of = update h.data_of node value;
        prev = update (update h.prev behind node) node pos;
        next = update (update h.next node behind) pos node;
        live = update h.live node true;
        count = count_up h.count;
      },
    )

module _ (head tail : Ptr) where
  -- `__tpl_list_init`
  unfoldable pub init_nodes : Heap → Heap
  init_nodes h = record h {
    prev = update (update h.prev head null) tail head;
    next = update (update h.next head tail) tail null;
    count = 0;
  }

  -- `__tpl_list_get_front_node`
  unfoldable pub get_front_node : Heap → Ptr
  get_front_node h = if h.count == 0 then null else h.next head

  -- `__tpl_list_get_back_node`
  unfoldable pub get_back_node : Heap → Ptr
  get_back_node h = if h.count == 0 then null else h.prev tail

  -- `__tpl_list_node_prev`
  unfoldable pub node_prev : Heap → (node : Ptr) → Outcome Ptr
  node_prev h node =
      if node == null
      then assertion_failed
      else if not (h.live node)
      then out_of_bounds
      else done (if h.prev node == head then null else h.prev node)

  -- `__tpl_list_node_next`
  unfoldable pub node_next : Heap → (node : Ptr) → Outcome Ptr
  node_next h node =
      if node == null
      then assertion_failed
      else if not (h.live node)
      then out_of_bounds
      else done (if h.next node == tail then null else h.next node)

  -- `__tpl_list_push_front`, which returns nothing, and `__tpl_list_push_back`
  unfoldable pub push_front_node : (fresh : Option Ptr) → Heap → Ptr → Outcome Heap
  push_front_node fresh h value = do (r, h') ← insert fresh h head value; done h'

  unfoldable pub push_back_node : (fresh : Option Ptr) → Heap → Ptr → Outcome (TplResult × Heap)
  push_back_node fresh h value = insert fresh h (h.prev tail) value

  -- `__tpl_list_pop_front`: the data, the heap, and what is freed.
  unfoldable pub pop_front_node : (func : Bool) → Heap → Outcome (Ptr × Heap × List Ptr)
  pop_front_node func h =
      let node = h.next head in
      if h.count == 0
      then done (null, h, [])
      else do value ← data_at h node; (h', calls) ← remove func h node; done (value, h', calls)

  -- `tpl_list_pop_back`
  unfoldable pub pop_back_node : (func : Bool) → Heap → Outcome (Ptr × Heap × List Ptr)
  pop_back_node func h =
      let node = h.prev tail in
      if h.count == 0
      then done (null, h, [])
      else do value ← data_at h node; (h', calls) ← remove func h node; done (value, h', calls)

  -- The loop of `__tpl_list_fini`, on fuel: the heap, and the data for which the free function is
  -- called.
  unfoldable pub free_nodes :
      (fuel : ℕ) → (func : Bool) → Heap → (node : Ptr) → Outcome (Heap × List Ptr)
  unfolding freed
  free_nodes zero func h node = out_of_fuel
  free_nodes (suc fuel) func h node =
      let rest =
        free_nodes fuel func (record h { live = update h.live node false }) (h.next node) in
      if node == tail
      then done (h, [])
      else if not (h.live node)
      then out_of_bounds
      else if node == null
      then assertion_failed
      else do (h', calls) ← rest; done (h', freed func (h.data_of node ∷ []) ++ calls)

  -- `__tpl_list_fini`
  unfoldable pub fini_nodes : (fuel : ℕ) → (func : Bool) → Heap → Outcome (Heap × List Ptr)
  unfolding init_nodes
  fini_nodes fuel func h = do
    (h', calls) ← free_nodes fuel func h (h.next head)
    done (init_nodes h', calls)
