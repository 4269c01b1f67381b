-- ===== src/TplList/Nodes/Chain.antt =====
-- Nodes linked by `next` and `prev` between two addresses.
use libtpl_egl.Base.{◌≡◌, ◌≢◌, List, [], ◌∷◌, ◌++◌, arith, update, All}
use libtpl_egl.Types.{Ptr}

-- From `a` the addresses of `l` in order, and then `b`, linked in both directions.
abbrev pub IsChain : (next prev : Ptr → Ptr) (a : Ptr) (l : List Ptr) (b : Ptr) → Type 0
IsChain next prev a [] b = (next a ≡ b) × (prev b ≡ a)
IsChain next prev a (x ∷ l) b = (next a ≡ x) × (prev x ≡ a) × IsChain next prev x l b

abbrev pub IsApart : (k : Ptr) → List Ptr → Type 0
IsApart k l = All (λ y. y ≢ k) l

abbrev pub IsDistinct : List Ptr → Type 0
IsDistinct [] = Unit
IsDistinct (x ∷ l) = IsApart x l × IsDistinct l

-- The address before the end, and the first one after the start.
abbrev pub last_of : (a : Ptr) (l : List Ptr) → Ptr
last_of a [] = a
last_of a (x ∷ l) = last_of x l

abbrev pub first_of : (l : List Ptr) (b : Ptr) → Ptr
first_of [] b = b
first_of (x ∷ l) b = x

module _ (P : Ptr → Type 0) where
  pub All-last_of : (a : Ptr) (l : List Ptr) → P a → All P l → P (last_of a l)
  All-last_of a [] h k = h
  All-last_of a (x ∷ l) h k = All-last_of x l k.0 k.1

  pub All-first_of : (l ys : List Ptr) (b : Ptr) → All P ((l ++ ys) ++ b ∷ []) → P (first_of ys b)
  All-first_of [] [] b h = h.0
  All-first_of [] (y ∷ ys) b h = h.0
  All-first_of (x ∷ l) ys b h = All-first_of l ys b h.1

  pub All-behind :
      (l : List Ptr) (z : Ptr) (ys : List Ptr) (b : Ptr)
      → All P ((l ++ z ∷ ys) ++ b ∷ [])
      → P (first_of ys b)
  All-behind [] z ys b h = All-first_of [] ys b h.1
  All-behind (x ∷ l) z ys b h = All-behind l z ys b h.1

  pub All-left : (xs ys : List Ptr) → All P (xs ++ ys) → All P xs
  All-left [] ys h = tt
  All-left (x ∷ xs) ys h = (h.0, All-left xs ys h.1)

-- A write behind an address that is not of the chain.
pub IsChain-next :
    (next prev : Ptr → Ptr) (k v a : Ptr) (l : List Ptr) (b : Ptr)
    → IsApart k (a ∷ l)
    → IsChain next prev a l b
    → IsChain (update next k v) prev a l b
IsChain-next next prev k v a [] b h c = (ground arith, c.1)
IsChain-next next prev k v a (x ∷ l) b h c =
    (ground arith, c.1, IsChain-next next prev k v x l b h.1 c.2)

pub IsChain-prev :
    (next prev : Ptr → Ptr) (k v a : Ptr) (l : List Ptr) (b : Ptr)
    → IsApart k (l ++ b ∷ [])
    → IsChain next prev a l b
    → IsChain next (update prev k v) a l b
IsChain-prev next prev k v a [] b h c = (c.0, ground arith)
IsChain-prev next prev k v a (x ∷ l) b h c =
    (c.0, ground arith, IsChain-prev next prev k v x l b h.1 c.2)

-- The two neighbours in the middle of a chain lead to each other.
pub neighbours :
    (next prev : Ptr → Ptr) (a : Ptr) (xs ys : List Ptr) (b : Ptr)
    → IsChain next prev a (xs ++ ys) b
    → (next (last_of a xs) ≡ first_of ys b) × (prev (first_of ys b) ≡ last_of a xs)
neighbours next prev a [] [] b c = c
neighbours next prev a [] (y ∷ ys) b c = (c.0, c.1)
neighbours next prev a (x ∷ xs) ys b c = neighbours next prev x xs ys b c.2

module _ (a x : Ptr) (xs ys : List Ptr) (b : Ptr)
    (d : IsDistinct (a ∷ (x ∷ xs ++ ys) ++ b ∷ [])) where
  pos-≢ : last_of x xs ≢ a
  pos-≢ =
      All-last_of (λ y. y ≢ a) x xs d.0.0
        (All-left (λ y. y ≢ a) xs ys (All-left (λ y. y ≢ a) (xs ++ ys) (b ∷ []) d.0.1))

  behind-≢ : first_of ys b ≢ x
  behind-≢ = All-first_of (λ y. y ≢ x) xs ys b d.1.0

pub next-first_of :
    (next prev : Ptr → Ptr) (a : Ptr) (xs : List Ptr) (z : Ptr) (ys : List Ptr) (b : Ptr)
    → IsChain next prev a (xs ++ z ∷ ys) b
    → next z ≡ first_of ys b
next-first_of next prev a [] z ys b c = (neighbours next prev z [] ys b c.2).0
next-first_of next prev a (x ∷ xs) z ys b c = next-first_of next prev x xs z ys b c.2

module _ (next prev : Ptr → Ptr) (node : Ptr) where
  -- The writes of an insertion, on the chain behind it.
  written :
      (a : Ptr) (l : List Ptr) (b pos behind node' : Ptr)
      → IsApart node (a ∷ l ++ b ∷ [])
      → IsApart behind (l ++ b ∷ [])
      → IsApart pos (a ∷ l)
      → IsChain next prev a l b
      → IsChain
          (update (update next node behind) pos node)
          (update (update prev behind node) node node')
          a
          l
          b
  written a l b pos behind node' new apart far c =
      IsChain-next (update next node behind) prev' pos node a l b far (
        IsChain-next next prev' node behind a l b (All-left (λ y. y ≢ node) (a ∷ l) (b ∷ []) new) (
          IsChain-prev next (update prev behind node) node node' a l b new.1
            (IsChain-prev next prev behind node a l b apart c)))
    where
      prev' : Ptr → Ptr
      prev' = update (update prev behind node) node node'

  -- The writes of an insertion between two neighbours.
  pub IsChain-insert :
      (a : Ptr) (xs ys : List Ptr) (b : Ptr)
      → IsDistinct (a ∷ (xs ++ ys) ++ b ∷ [])
      → IsApart node (a ∷ (xs ++ ys) ++ b ∷ [])
      → IsChain next prev a (xs ++ ys) b
      → let pos = last_of a xs in
        let behind = first_of ys b in
        IsChain
          (update (update next node behind) pos node)
          (update (update prev behind node) node pos)
          a
          (xs ++ node ∷ ys)
          b
  IsChain-insert a [] [] b d h c = (ground arith, ground arith, (ground arith, ground arith))
  IsChain-insert a [] (y ∷ ys) b d h c = (
    ground arith,
    ground arith,
    (
      ground arith,
      ground arith,
      written y ys b a y a h.1 d.1.0 (d.0.0, All-left (λ z. z ≢ a) ys (b ∷ []) d.0.1) c.2,
    ),
  )
  IsChain-insert a (x ∷ xs) ys b d h c = (
    ground (arith, pos-≢ a x xs ys b d),
    ground (arith, behind-≢ a x xs ys b d),
    IsChain-insert x xs ys b d.1 h.1 c.2,
  )

-- The writes of a removal: the neighbours of the node are linked to each other.
pub IsChain-remove :
    (next prev : Ptr → Ptr) (a : Ptr) (xs : List Ptr) (z : Ptr) (ys : List Ptr) (b : Ptr)
    → IsDistinct (a ∷ (xs ++ z ∷ ys) ++ b ∷ [])
    → IsChain next prev a (xs ++ z ∷ ys) b
    → let before = last_of a xs in
      let behind = first_of ys b in
      IsChain (update next before behind) (update prev behind before) a (xs ++ ys) b
IsChain-remove next prev a [] z [] b d c = (ground arith, ground arith)
IsChain-remove next prev a [] z (y ∷ ys) b d c = (
  ground arith,
  ground arith,
  IsChain-next next (update prev y a) a y y ys b (All-left (λ w. w ≢ a) (y ∷ ys) (b ∷ []) d.0.1)
      (IsChain-prev next prev y a y ys b d.1.1.0 c.2.2),
)
IsChain-remove next prev a (x ∷ xs) z ys b d c = (
  ground (arith, pos-≢ a x xs (z ∷ ys) b d),
  ground (arith, All-behind (λ w. w ≢ x) xs z ys b d.1.0),
  IsChain-remove next prev x xs z ys b d.1 c.2,
)
