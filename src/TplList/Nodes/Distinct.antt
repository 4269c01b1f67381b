-- ===== src/TplList/Nodes/Distinct.antt =====
-- Addresses that differ from each other and are allocated, in lists that gain or lose one.
use mathlib.Core.List.{map}
use libtpl_egl.Base.{
  ◌≡◌, ◌≢◌, refl, sym, Bool, true, false, List, [], ◌∷◌, ◌++◌, arith, update, All,
}
use libtpl_egl.Types.{Ptr, null}
use libtpl_egl.TplList.Nodes.Chain.{IsApart, IsDistinct}

module _ (P : Ptr → Type 0) (node : Ptr) (ys r : List Ptr) where
  pub All-insert :
      (xs : List Ptr) → P node → All P ((xs ++ ys) ++ r) → All P ((xs ++ node ∷ ys) ++ r)
  All-insert [] h k = (h, k)
  All-insert (x ∷ xs) h k = (k.0, All-insert xs h k.1)

  pub All-drop : (xs : List Ptr) → All P ((xs ++ node ∷ ys) ++ r) → P node × All P ((xs ++ ys) ++ r)
  All-drop [] h = h
  All-drop (x ∷ xs) h = let (k, l) = All-drop xs h.1 in (k, (h.0, l))

module _ (node : Ptr) (ys r : List Ptr) where
  pub IsDistinct-insert :
      (xs : List Ptr)
      → IsApart node ((xs ++ ys) ++ r)
      → IsDistinct ((xs ++ ys) ++ r)
      → IsDistinct ((xs ++ node ∷ ys) ++ r)
  IsDistinct-insert [] h d = (h, d)
  IsDistinct-insert (x ∷ xs) h d =
      (All-insert (λ y. y ≢ x) node ys r xs (λ e. h.0 (sym e)) d.0, IsDistinct-insert xs h.1 d.1)

  pub IsDistinct-drop :
      (xs : List Ptr)
      → IsDistinct ((xs ++ node ∷ ys) ++ r)
      → IsDistinct ((xs ++ ys) ++ r) × IsApart node ((xs ++ ys) ++ r)
  IsDistinct-drop [] d = (d.1, d.0)
  IsDistinct-drop (x ∷ xs) d =
      let (k, l) = IsDistinct-drop xs d.1 in
      let (here, there) = All-drop (λ y. y ≢ x) node ys r xs d.0 in
      ((there, k), ((λ e. here (sym e)), l))

abbrev pub IsLive : (live : Ptr → Bool) → List Ptr → Type 0
IsLive live l = All (λ y. (y ≢ null) × (live y ≡ true)) l

module _ (live : Ptr → Bool) (node : Ptr) where
  pub IsApart-live : (l : List Ptr) → live node ≡ false → IsLive live l → IsApart node l
  IsApart-live [] e h = tt
  IsApart-live (y ∷ l) e h = ((λ z. (ground arith)), IsApart-live l e h.1)

  pub IsLive-update :
      (b : Bool) (l : List Ptr) → IsApart node l → IsLive live l → IsLive (update live node b) l
  IsLive-update b [] h k = tt
  IsLive-update b (y ∷ l) h k = ((k.0.0, ground arith), IsLive-update b l h.1 k.1)

pub map-update :
    (f : Ptr → Ptr) (k v : Ptr) (l : List Ptr) → IsApart k l → map (update f k v) l ≡ map f l
map-update f k v [] h = refl
map-update f k v (x ∷ l) h = ground (arith, map-update f k v l h.1)
