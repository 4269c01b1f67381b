-- ===== src/Hlist/Buckets.antt =====
-- One bucket of the hash list: what `find` returns after a node is unlinked, and across buckets.
use libtpl_egl.Base.{
  ℕ, ◌≡◌, refl, Option, none, some, List, [], ◌∷◌, ◌++◌, arith, ◌==◌, if◌then◌else◌, All,
}
use libtpl_egl.Hlist.{Node, find, unlink}

-- No key occurs twice.
abbrev pub Distinct : List Node → Type 0
Distinct [] = Unit {0}
Distinct (n ∷ ns) = (find n.key ns ≡ none) × Distinct ns

pub find-unlink-none : (k j : ℕ) (ns : List Node) → find k ns ≡ none → find k (unlink j ns) ≡ none
unfolding find unlink
find-unlink-none k j [] h = refl
find-unlink-none k j (n ∷ ns) h = ground (arith, find-unlink-none k j ns)

pub find-unlink :
    (k j : ℕ) (ns : List Node)
    → Distinct ns
    → find k (unlink j ns) ≡ (if j == k then none else find k ns)
unfolding find unlink
find-unlink k j [] d = ground arith
find-unlink k j (n ∷ ns) d = ground (arith, find-unlink k j ns d.1)

pub Distinct-unlink : (j : ℕ) (ns : List Node) → Distinct ns → Distinct (unlink j ns)
unfolding unlink
Distinct-unlink j [] d = tt
Distinct-unlink j (n ∷ ns) d =
    ground (arith, Distinct-unlink j ns d.1, find-unlink-none n.key j ns d.0)

pub All-unlink : (P : Node → Type 0) (j : ℕ) (ns : List Node) → All P ns → All P (unlink j ns)
unfolding unlink
All-unlink P j [] a = tt
All-unlink P j (n ∷ ns) a = ground (arith, All-unlink P j ns a.1)

-- The first of two results.
abbrev pub or_else : Option Node → Option Node → Option Node
or_else none o = o
or_else (some n) o = some n

pub find-append : (k : ℕ) (xs ys : List Node) → find k (xs ++ ys) ≡ or_else (find k xs) (find k ys)
unfolding find
find-append k [] ys = refl
find-append k (n ∷ xs) ys = ground (arith, find-append k xs ys)

pub All-append : (P : Node → Type 0) (xs ys : List Node) → All P xs → All P ys → All P (xs ++ ys)
All-append P [] ys a b = b
All-append P (n ∷ xs) ys a b = (a.0, All-append P xs ys a.1 b)

pub Distinct-append :
    (xs ys : List Node)
    → Distinct xs
    → Distinct ys
    → All (λ n. find n.key ys ≡ none) xs
    → Distinct (xs ++ ys)
Distinct-append [] ys d e apart = e
Distinct-append (n ∷ xs) ys d e apart =
    (rw (find-append n.key xs ys, d.0) apart.0, Distinct-append xs ys d.1 e apart.1)
