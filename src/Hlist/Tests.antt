-- ===== src/Hlist/Tests.antt =====
-- Runs of the hash list on small inputs.
use libtpl_egl.Base.{gather, ℕ, ◌≡◌, refl, true, false, none, some, List, [], ◌∷◌}
use libtpl_egl.Types.{invalid_parameter, null, Ptr}
use libtpl_egl.Hlist.{
  num_of_heads, Hlist, calc_hash, find, get_node, get_tail_node, tail_of, last_node, create,
  empty_heads, insert, insert_checked, delete, lookup, value_or_null, destroy, add_head, unlink,
}
use libtpl_egl.Hlist.Invariant.{IsValid, create-IsValid, insert-IsValid}
use libtpl_egl.Hlist.Contents.{Call, inserts, deletes, run, step, dict_run, contents, run_refines}
use libtpl_egl.Hlist.Buckets.{Distinct}
use libtpl_egl.Hlist.Traversal.{destroy_frees}

abbrev calls : List Call
calls =
    inserts true 7 100
    ∷ inserts true 9 200
    ∷ inserts true 7 300
    ∷ inserts false 5 400
    ∷ deletes 9
    ∷ []

abbrev one_node : Hlist
one_node = (insert true empty_heads 7 100).1

one_node-IsValid : IsValid one_node
one_node-IsValid = insert-IsValid true empty_heads 7 100 create-IsValid

-- Of the five calls two change what is there in the end.
calls_leave_one :
    (lookup (run empty_heads calls) 7 ≡ 100)
    × (lookup (run empty_heads calls) 9 ≡ null)
    × (lookup (run empty_heads calls) 5 ≡ null)
unfolding lookup get_node value_or_null find run step insert delete calc_hash add_head unlink
calls_leave_one = (refl, refl, refl)

tail_is_oldest :
    get_tail_node
      (record { heads = λ i. record { key = 1; value = 10 } ∷ record { key = 2; value = 20 } ∷ [] })
      5
    ≡ some (record { key = 2; value = 20 })
unfolding get_tail_node tail_of last_node
tail_is_oldest = refl

null_list_refused : insert_checked true none 7 100 ≡ (invalid_parameter, none)
unfolding insert_checked
null_list_refused = refl

create_fails : create true false ≡ none
unfolding create
create_fails = refl

run_refines_example :
    (contents (run empty_heads calls) ≡ dict_run (λ k. none) calls)
    × IsValid (run empty_heads calls)
run_refines_example = run_refines calls

destroy_frees_example :
    ((destroy (some one_node)).0 ≡ gather num_of_heads one_node.heads)
    × Distinct (destroy (some one_node)).0
    × ((k : ℕ) → find k (destroy (some one_node)).0 ≡ get_node one_node k)
    × ((destroy (some one_node)).1 ≡ none)
destroy_frees_example = destroy_frees one_node one_node-IsValid

abbrev collect : Ptr → List Ptr → List Ptr
collect p ps = p ∷ ps
