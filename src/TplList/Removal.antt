-- ===== src/TplList/Removal.antt =====
-- `__tpl_list_remove_data`.
use mathlib.Core.List.{
  reverse, reverse_aux, reverse-cons, reverse-append, reverse-reverse, append_assoc,
}
use libtpl_egl.Base.{
  ℕ, ◌-◌, ◌^◌, ◌<◌, ◌≡◌, ◌∙◌, sym, ap, refl, Bool, false, none, some, inl, inr, List, [], ◌∷◌, ◌++◌,
  arith, ◌==◌, if◌then◌else◌, length, length-append, All, Bool-cases,
}
use libtpl_egl.Types.{Ptr}
use libtpl_egl.TplList.{
  TplList, first, last, all, count_down, remove_one, remove_all, remove_data, freed,
}
use libtpl_egl.TplList.Count.{IsCounted, remove_all-IsCounted}

-- The data is in no node.
abbrev pub IsAbsent : Ptr → List Ptr → Type 0
IsAbsent d xs = All (λ x. (x == d) ≡ false) xs

pub IsAbsent-append :
    (d : Ptr) (xs ys : List Ptr) → IsAbsent d xs → IsAbsent d ys → IsAbsent d (xs ++ ys)
IsAbsent-append d [] ys h k = k
IsAbsent-append d (x ∷ xs) ys h k = (h.0, IsAbsent-append d xs ys h.1 k)

-- The nodes with the data, and those without it.
pub with_data : Ptr → List Ptr → List Ptr
with_data d [] = []
with_data d (x ∷ xs) = if x == d then x ∷ with_data d xs else with_data d xs

pub without_data : Ptr → List Ptr → List Ptr
without_data d [] = []
without_data d (x ∷ xs) = if x == d then without_data d xs else x ∷ without_data d xs

remove_one_here :
    (d : Ptr) (xs ys : List Ptr) → IsAbsent d xs → remove_one d (xs ++ d ∷ ys) ≡ some (xs ++ ys)
unfolding remove_one
remove_one_here d [] ys h = ground arith
remove_one_here d (x ∷ xs) ys h = ground (arith, remove_one_here d xs ys h.1)

remove_one_absent : (d : Ptr) (xs : List Ptr) → IsAbsent d xs → remove_one d xs ≡ none
unfolding remove_one
remove_one_absent d [] h = refl
remove_one_absent d (x ∷ xs) h = ground (arith, remove_one_absent d xs h.1)

-- With TPL_FIRST `__tpl_list_remove_data` takes out the node with the data before which no node has
-- it. The others keep their order, and the count, that of the nodes, falls by one.
pub remove_first_lem :
    (func : Bool) (d : Ptr) (before behind : List Ptr) (count : ℕ)
    → count ≡ length (before ++ d ∷ behind)
    → count < 2 ^ 32
    → IsAbsent d before
    → remove_data (record { nodes = before ++ d ∷ behind; count = count }) d first func
      ≡ (record { nodes = before ++ behind; count = count - 1 }, freed func (d ∷ []))
unfolding remove_data count_down
remove_first_lem func d before behind count e small h =
    rw (remove_data, remove_one_here d before behind h)
      (ground (arith, length-append before (d ∷ behind)))

IsAbsent-reverse_aux :
    (d : Ptr) (xs ys : List Ptr) → IsAbsent d xs → IsAbsent d ys → IsAbsent d (reverse_aux xs ys)
IsAbsent-reverse_aux d [] ys h k = k
IsAbsent-reverse_aux d (x ∷ xs) ys h k = IsAbsent-reverse_aux d xs (x ∷ ys) h.1 (h.0, k)

-- The list from its end.
reverse-middle :
    (d : Ptr) (xs ys : List Ptr) → reverse (xs ++ d ∷ ys) ≡ reverse ys ++ d ∷ reverse xs
reverse-middle d xs ys =
    reverse-append xs (d ∷ ys)
    ∙ ap (λ zs. zs ++ reverse xs) (reverse-cons d ys)
    ∙ append_assoc (reverse ys) (d ∷ []) (reverse xs)

reverse-joined : (xs ys : List Ptr) → reverse (reverse ys ++ reverse xs) ≡ xs ++ ys
reverse-joined xs ys = sym (ap reverse (reverse-append xs ys)) ∙ reverse-reverse (xs ++ ys)

-- With TPL_LAST `__tpl_list_remove_data` takes out the node with the data behind which no node has it. The others keep
-- their order, and the count, that of the nodes, falls by one.
pub remove_last_lem :
    (func : Bool) (d : Ptr) (before behind : List Ptr) (count : ℕ)
    → count ≡ length (before ++ d ∷ behind)
    → count < 2 ^ 32
    → IsAbsent d behind
    → remove_data (record { nodes = before ++ d ∷ behind; count = count }) d last func
      ≡ (record { nodes = before ++ behind; count = count - 1 }, freed func (d ∷ []))
unfolding remove_data count_down
remove_last_lem func d before behind count e small h =
    rw
      (
        remove_data,
        reverse-middle d before behind,
        remove_one_here d (reverse behind) (reverse before) (IsAbsent-reverse_aux d behind [] h tt),
      )
      (ground (arith, length-append before (d ∷ behind), reverse-joined before behind))

remove_all-split :
    (d : Ptr) (xs : List Ptr) (count : ℕ)
    → ((remove_all d xs count).0 ≡ without_data d xs) × ((remove_all d xs count).2 ≡ with_data d xs)
unfolding remove_all without_data with_data
remove_all-split d [] count = (refl, refl)
remove_all-split d (x ∷ xs) count = elim (Bool-cases (x == d)) [
  | inl hit ↦ rw hit (
    (remove_all-split d xs (count_down count)).0,
    ap (λ ys. x ∷ ys) (remove_all-split d xs (count_down count)).1,
  )
  | inr miss ↦
      rw miss (ap (λ ys. x ∷ ys) (remove_all-split d xs count).0, (remove_all-split d xs count).1)
]

-- Where the count is that of the nodes, `__tpl_list_remove_data` with TPL_ALL takes out every node
-- with the data and no other, keeps the order of the others,
-- calls the free function once for each node that goes, and leaves the count of the nodes left.
pub remove_all_lem :
    (func : Bool) (l : TplList) (d : Ptr)
    → IsCounted l
    → remove_data l d all func ≡ (
      record { nodes = without_data d l.nodes; count = length (without_data d l.nodes) },
      freed func (with_data d l.nodes),
    )
unfolding remove_data
remove_all_lem func l d c =
    let h =
      remove_all-IsCounted d l.nodes l.count 0 (omega (arith, c.0)) (omega (arith, c.0, c.1)) in
    let s = remove_all-split d l.nodes l.count in ground (arith, h, s.0, s.1)
