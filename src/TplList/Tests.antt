-- ===== src/TplList/Tests.antt =====
-- Runs of the doubly linked list on small inputs.
use libtpl_egl.Base.{List, ◌≡◌, refl, true, false, none, [], ◌∷◌, arith, length}
use libtpl_egl.Types.{Ptr, out_of_memory, null, done}
use libtpl_egl.TplList.{
  TplList, first, last, all, init, alloc, free, fini, freed, get_count, get_front, get_back,
  front_data, is_empty, push_front, remove_data, count_down, remove_one, remove_all,
}
use libtpl_egl.TplList.Ends.{push_all, pop_many, pops_in_order}
use libtpl_egl.TplList.Removal.{with_data, without_data, remove_all_lem}

abbrev three : TplList
three = record { nodes = 5 ∷ 6 ∷ 5 ∷ []; count = 3 }

looks :
    (get_count three ≡ 3)
    × (get_front three ≡ done 5)
    × (get_back init ≡ done null)
    × (alloc false ≡ none)
    × (free true three ≡ 5 ∷ 6 ∷ 5 ∷ [])
    × (push_front false three 9 ≡ (out_of_memory, three))
unfolding get_count get_front get_back alloc free fini freed init is_empty front_data push_front
looks = (refl, refl, refl, refl, refl, refl)

removals :
    ((remove_data three 5 first true).0.nodes ≡ 6 ∷ 5 ∷ [])
    × ((remove_data three 5 last true).0.nodes ≡ 5 ∷ 6 ∷ [])
    × (remove_data three 5 all true ≡ (record { nodes = 6 ∷ []; count = 1 }, 5 ∷ 5 ∷ []))
    × (remove_data three 7 all true ≡ (three, []))
unfolding remove_data remove_one remove_all count_down freed
removals = (refl, refl, refl, refl)

abbrev queued : List Ptr
queued = 4 ∷ 5 ∷ 6 ∷ []

pops_in_order_example : pop_many (length queued) (push_all init queued) ≡ done (queued, init)
pops_in_order_example = pops_in_order queued (omega arith)

remove_all_lem_example : remove_data three 5 all true ≡ (
  record { nodes = without_data 5 three.nodes; count = length (without_data 5 three.nodes) },
  freed true (with_data 5 three.nodes),
)
remove_all_lem_example = remove_all_lem true three 5 (refl, omega arith)
