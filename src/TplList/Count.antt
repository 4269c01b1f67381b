-- ===== src/TplList/Count.antt =====
-- The count beside the nodes.
use libtpl_egl.Base.{
  ℕ, suc, ◌+◌, ◌^◌, ◌<◌, ◌≡◌, inl, inr, List, [], ◌∷◌, arith, ◌==◌, length, Bool-cases,
}
use libtpl_egl.Types.{Ptr}
use libtpl_egl.TplList.{TplList, count_down, remove_all}

-- The count is the number of nodes, which an `int` can hold.
abbrev pub IsCounted : TplList → Type 0
IsCounted l = (l.count ≡ length l.nodes) × (length l.nodes < 2 ^ 32)

pub remove_all-IsCounted :
    (d : Ptr) (xs : List Ptr) (count extra : ℕ)
    → count ≡ length xs + extra
    → count < 2 ^ 32
    → (remove_all d xs count).1 ≡ length (remove_all d xs count).0 + extra
unfolding remove_all count_down
remove_all-IsCounted d [] count extra e small = ground arith
remove_all-IsCounted d (x ∷ xs) count extra e small = elim (Bool-cases (x == d)) [
  | inl hit ↦ rw hit (
      ground
        (arith, remove_all-IsCounted d xs (count_down count) extra (ground arith) (ground arith)))
  | inr miss ↦
      rw miss (ground (arith, remove_all-IsCounted d xs count (suc extra) (ground arith) small))
]
