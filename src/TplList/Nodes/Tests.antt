-- ===== src/TplList/Nodes/Tests.antt =====
-- Nodes at addresses, between the sentinels at 0x100 and 0x200.
use libtpl_egl.Base.{◌≡◌, refl, true, some, none, [], ◌∷◌, ◌==◌, ◌||◌, if◌then◌else◌, arith}
use libtpl_egl.Types.{null, done, out_of_memory, assertion_failed, out_of_bounds}
use libtpl_egl.TplList.{TplList, fini, push_front, push_back, pop_front, pop_back}
use libtpl_egl.TplList.Nodes.{
  Heap, insert, data_at, node_get_data, init_nodes, get_front_node, get_back_node, node_prev,
  node_next, push_front_node, push_back_node, pop_front_node, pop_back_node, fini_nodes,
}
use libtpl_egl.TplList.Nodes.Represents.{Represents, IsMatched, pushes_refine}
use libtpl_egl.TplList.Nodes.Ends.{pops_refine, fini_refines}

-- The nodes 0x300 and 0x400 with the data 7 and 8, and another allocation at 0x500.
abbrev memory : Heap
memory = record {
  prev = λ y.
      if y == 0x200
      then 0x400
      else if y == 0x400
      then 0x300
      else if y == 0x300
      then 0x100
      else null;
  next = λ y.
      if y == 0x100
      then 0x300
      else if y == 0x300
      then 0x400
      else if y == 0x400
      then 0x200
      else null;
  data_of = λ y. if y == 0x300 then 7 else if y == 0x400 then 8 else null;
  live = λ y. y == 0x100 || y == 0x200 || y == 0x300 || y == 0x400 || y == 0x500;
  count = 2;
}

abbrev two : TplList
two = record { nodes = 7 ∷ 8 ∷ []; count = 2 }

memory-Represents : Represents 0x100 0x200 memory two
memory-Represents = (
  0x300 ∷ 0x400 ∷ [],
  record {
    chain = (refl, refl, (refl, refl, (refl, refl)));
    distinct = ground arith;
    live = ground arith;
  },
  refl,
  refl,
)

pushes_refine_example :
    ((h' : Heap) × (push_front_node 0x100 0x200 (some 0x600) memory 9 ≡ done h')
      × Represents 0x100 0x200 h' (push_front true two 9).1)
    × ((h' : Heap) × (push_back_node 0x100 0x200 (some 0x600) memory 9
          ≡ done ((push_back true two 9).0, h'))
        × Represents 0x100 0x200 h' (push_back true two 9).1)
pushes_refine_example =
    pushes_refine 0x100 0x200 memory two (some 0x600) 9 (ground arith, refl) memory-Represents

pops_refine_example :
    IsMatched 0x100 0x200 (pop_front true two) (pop_front_node 0x100 0x200 true memory)
    × IsMatched 0x100 0x200 (pop_back true two) (pop_back_node 0x100 0x200 true memory)
pops_refine_example = pops_refine 0x100 0x200 true memory two (refl, omega arith) memory-Represents

fini_refines_example :
    (h' : Heap) × (fini_nodes 0x100 0x200 3 true memory ≡ done (h', (fini true two).1))
    × Represents 0x100 0x200 h' (fini true two).0
fini_refines_example = fini_refines 0x100 0x200 true 3 memory two (omega arith) memory-Represents

-- The walk from one node to the next, and the data behind one.
walks :
    (get_front_node 0x100 0x200 memory ≡ 0x300)
    × (get_back_node 0x100 0x200 memory ≡ 0x400)
    × (node_next 0x100 0x200 memory 0x300 ≡ done 0x400)
    × (node_next 0x100 0x200 memory 0x400 ≡ done null)
    × (node_prev 0x100 0x200 memory 0x300 ≡ done null)
    × (node_prev 0x100 0x200 memory null ≡ assertion_failed)
    × (node_get_data memory 0x400 ≡ done 8)
    × (node_get_data memory 0x700 ≡ out_of_bounds)
    × (insert none memory 0x300 9 ≡ done (out_of_memory, memory))
    × (get_front_node 0x100 0x200 (init_nodes 0x100 0x200 memory) ≡ null)
unfolding get_front_node get_back_node node_next node_prev node_get_data data_at insert init_nodes
walks = (refl, refl, refl, refl, refl, refl, refl, refl, refl, refl)
