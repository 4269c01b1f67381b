-- ===== src/Hlist/Invariant.antt =====
-- Every node lies in the bucket of its key, and no key occurs twice.
use mathlib.Core.Path.{subst}
use libtpl_egl.Base.{
  ℕ, ◌<◌, ◌≡◌, refl, Bool, true, false, inl, inr, some, List, arith, ◌==◌, All, update,
  Option-cases, Bool-cases, ==_eq,
}
use libtpl_egl.Types.{Ptr}
use libtpl_egl.Hlist.{
  Hlist, Node, calc_hash, num_of_heads, get_node, add_head, create, empty_heads, insert, delete,
}
use libtpl_egl.Hlist.Buckets.{Distinct, Distinct-unlink, All-unlink}

-- The index that `CALC_HASH` computes is within the array of heads, whatever the key.
pub calc_hash-lt : (key : ℕ) → calc_hash key < num_of_heads
unfolding calc_hash
calc_hash-lt key = omega arith

pub record IsValid (l : Hlist) : Type 0 where
  pub placed : (i : ℕ) → All (λ n. calc_hash n.key ≡ i) (l.heads i)
  pub unique : (i : ℕ) → Distinct (l.heads i)

pub create-IsValid : IsValid empty_heads
create-IsValid = record { placed = λ i. tt; unique = λ i. tt }

pub create_result-IsValid :
    (list_allocated heads_allocated : Bool) (l : Hlist)
    → create list_allocated heads_allocated ≡ some l
    → IsValid l
unfolding create
create_result-IsValid false b l e = cc
create_result-IsValid true false l e = cc
create_result-IsValid true true l e =
    let same : empty_heads ≡ l = cc in subst IsValid same create-IsValid

update-IsValid :
    (l : Hlist) (j : ℕ) (ns : List Node)
    → IsValid l
    → All (λ n. calc_hash n.key ≡ j) ns
    → Distinct ns
    → IsValid (record l { heads = update l.heads j ns })
update-IsValid l j ns v a d = record {
  placed =
      λ i. elim (Bool-cases (i == j)) [ inl e ↦ rw (e, ==_eq i j e) a | inr e ↦ rw e (v.placed i) ];
  unique = λ i. elim (Bool-cases (i == j)) [ inl e ↦ rw e d | inr e ↦ rw e (v.unique i) ];
}

-- `__tpl_hashlist_insert` keeps the invariant on every branch.
pub insert-IsValid :
    (allocated : Bool) (l : Hlist) (key : ℕ) (value : Ptr)
    → IsValid l
    → IsValid (insert allocated l key value).1
unfolding insert add_head get_node
insert-IsValid false l key value v = elim (Option-cases (get_node l key)) [
  | inl e ↦ rw (e, insert) v
  | inr (n, e) ↦ rw (e, insert) v
]
insert-IsValid true l key value v = elim (Option-cases (get_node l key)) [
  | inl e ↦
      rw (e, insert)
        (update-IsValid l (calc_hash key) _ v (refl, v.placed (calc_hash key))
          (e, v.unique (calc_hash key)))
  | inr (n, e) ↦ rw (e, insert) v
]

-- `__tpl_hashlist_delete` keeps the invariant.
pub delete-IsValid : (l : Hlist) (key : ℕ) → IsValid l → IsValid (delete l key)
unfolding delete
delete-IsValid l key v = elim (Option-cases (get_node l key)) [
  | inl e ↦ rw (e, delete) v
  | inr (n, e) ↦
      rw (e, delete)
        (update-IsValid l (calc_hash key) _ v
          (All-unlink _ key (l.heads (calc_hash key)) (v.placed (calc_hash key)))
          (Distinct-unlink key (l.heads (calc_hash key)) (v.unique (calc_hash key))))
]
