-- ===== src/TplList/Ends.antt =====
-- The two ends of the list: pushes and pops.
use mathlib.Core.List.{reverse-append, reverse-reverse, append-nil, append_assoc}
use libtpl_egl.Base.{
  ℕ, zero, suc, length-append, ◌+◌, ◌-◌, ◌^◌, ◌<◌, ◌≡◌, refl, Bool, true, false, List, [], ◌∷◌,
  ◌++◌, arith, length, ◌∙◌,
}
use libtpl_egl.Types.{Ptr, Outcome, done, ◌>>=◌}
use libtpl_egl.TplList.{
  TplList, init, count_up, count_down, push_front, push_back, pop_front, pop_back, is_empty, freed,
}
use libtpl_egl.TplList.Count.{IsCounted}

-- On a list with fewer than 2^32 - 1 nodes, a pop undoes a push at the same end: it returns the
-- data that was pushed, leaves the list as it was, and frees that data where it has a function.
pub pops_undo_pushes :
    (func : Bool) (l : TplList) (d : Ptr)
    → IsCounted l
    → length l.nodes < 2 ^ 32 - 1
    → (pop_front func (push_front true l d).1 ≡ done (d, l, freed func (d ∷ [])))
      × (pop_back func (push_back true l d).1 ≡ done (d, l, freed func (d ∷ [])))
unfolding pop_front push_front pop_back push_back is_empty count_up count_down
pops_undo_pushes func l d c small = (
  ground arith,
  rw (reverse-append l.nodes (d ∷ [])) (rw (reverse-reverse l.nodes) (ground arith)),
)

-- Pushes at the back, each with memory, and `n` pops at the front with the data that they return.
pub push_all : TplList → List Ptr → TplList
push_all l [] = l
push_all l (d ∷ ds) = push_all (push_back true l d).1 ds

pub pop_many : ℕ → TplList → Outcome (List Ptr × TplList)
pop_many zero l = done ([], l)
pop_many (suc n) l = do
  (d, l', calls) ← pop_front false l
  (ds, l'') ← pop_many n l'
  done (d ∷ ds, l'')

push_all_lem :
    (ds xs : List Ptr) (count : ℕ)
    → count ≡ length xs
    → length xs + length ds < 2 ^ 32
    → push_all (record { nodes = xs; count = count }) ds
      ≡ record { nodes = xs ++ ds; count = count + length ds }
unfolding push_all push_back count_up
push_all_lem [] xs count e small = ground (arith, append-nil xs)
push_all_lem (d ∷ ds) xs count e small =
    push_all_lem ds (xs ++ d ∷ []) (count_up count) (omega (arith, length-append xs (d ∷ [])))
      (omega (arith, length-append xs (d ∷ [])))
    ∙ ground (arith, append_assoc xs (d ∷ []) ds)

pop_many_lem :
    (ds : List Ptr)
    → length ds < 2 ^ 32
    → pop_many (length ds) (record { nodes = ds; count = length ds }) ≡ done (ds, init)
unfolding pop_many init
pop_many_lem [] small = refl
pop_many_lem (d ∷ ds) small = rw (pop_one d ds small, pop_many_lem ds (omega arith)) refl
  where
    pop_one :
        (x : Ptr) (xs : List Ptr)
        → length (x ∷ xs) < 2 ^ 32
        → pop_front false (record { nodes = x ∷ xs; count = length (x ∷ xs) })
          ≡ done (x, record { nodes = xs; count = length xs }, [])
    pop_one x xs h = unfold pop_front is_empty count_down freed in ground arith

-- First in, first out: of a new list to whose back fewer than 2^32 data were pushed, as many pops
-- at the front end, return the data in the order of the pushes, and leave an empty list.
pub pops_in_order :
    (ds : List Ptr) → length ds < 2 ^ 32 → pop_many (length ds) (push_all init ds) ≡ done (ds, init)
unfolding init
pops_in_order ds small =
    rw (push_all_lem ds [] 0 refl (omega arith)) (ground (arith, pop_many_lem ds small))
