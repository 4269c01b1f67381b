-- ===== src/Hlist/Traversal.antt =====
-- The two traversals of the whole hash list: `__tpl_hashlist_do_for_all_nodes` and
-- `__tpl_hashlist_destroy`.
use mathlib.Core.List.{append-nil, append_assoc}
use libtpl_egl.Base.{
  ℕ, zero, suc, ◌<◌, ◌≡◌, ◌≢◌, refl, sym, ap, ◌∙◌, none, some, List, [], ◌∷◌, ◌++◌, arith, ltb,
  if◌then◌else◌, All, gather,
}
use libtpl_egl.Types.{Ptr}
use libtpl_egl.Hlist.{
  Hlist, Node, calc_hash, num_of_heads, find, get_node, is_empty, for_nodes, for_heads,
  do_for_all_nodes, free_nodes, free_heads, destroy,
}
use libtpl_egl.Hlist.Buckets.{Distinct, Distinct-append, All-append, find-append}
use libtpl_egl.Hlist.Invariant.{IsValid, calc_hash-lt}

-- The nodes of the table, bucket by bucket.
pub nodes : Hlist → List Node
nodes l = gather num_of_heads l.heads

find_misplaced :
    (k i : ℕ) (ns : List Node)
    → All (λ n. calc_hash n.key ≡ i) ns
    → calc_hash k ≢ i
    → find k ns ≡ none
unfolding find
find_misplaced k i [] a h = refl
find_misplaced k i (n ∷ ns) a h = ground (arith, find_misplaced k i ns a.1)

find-gather :
    (l : Hlist) (k n : ℕ)
    → IsValid l
    → find k (gather n l.heads) ≡ (if ltb (calc_hash k) n then get_node l k else none)
unfolding get_node find
find-gather l k zero v = ground arith
find-gather l k (suc n) v =
    rw (find-append k (gather n l.heads) (l.heads n), find-gather l k n v)
      (ground (arith, find_misplaced k n (l.heads n) (v.placed n)))

All-misplaced :
    (n : ℕ) (xs ys : List Node)
    → All (λ m. calc_hash m.key < n) xs
    → All (λ m. calc_hash m.key ≡ n) ys
    → All (λ m. find m.key ys ≡ none) xs
All-misplaced n [] ys a b = tt
All-misplaced n (x ∷ xs) ys a b =
    (find_misplaced x.key n ys b (omega arith), All-misplaced n xs ys a.1 b)

All-mono : (P Q : Node → Type 0) (xs : List Node) → ((n : Node) → P n → Q n) → All P xs → All Q xs
All-mono P Q [] f a = tt
All-mono P Q (x ∷ xs) f a = (f x a.0, All-mono P Q xs f a.1)

gather_below : (l : Hlist) (n : ℕ) → IsValid l → All (λ m. calc_hash m.key < n) (gather n l.heads)
gather_below l zero v = tt
gather_below l (suc n) v =
    All-append _ (gather n l.heads) (l.heads n)
      (All-mono _ _ (gather n l.heads) (λ m h. omega arith) (gather_below l n v))
      (All-mono _ _ (l.heads n) (λ m h. omega arith) (v.placed n))

Distinct-gather : (l : Hlist) (n : ℕ) → IsValid l → Distinct (gather n l.heads)
Distinct-gather l zero v = tt
Distinct-gather l (suc n) v =
    Distinct-append (gather n l.heads) (l.heads n) (Distinct-gather l n v) (v.unique n)
      (All-misplaced n (gather n l.heads) (l.heads n) (gather_below l n v) (v.placed n))

find-nodes : (l : Hlist) (k : ℕ) → IsValid l → find k (nodes l) ≡ get_node l k
unfolding nodes
find-nodes l k v = rw (find-gather l k num_of_heads v) (ground (arith, calc_hash-lt k))

free_nodes-append : (ns freed : List Node) → free_nodes ns freed ≡ freed ++ ns
unfolding free_nodes
free_nodes-append [] freed = sym (append-nil freed)
free_nodes-append (n ∷ ns) freed = simp (free_nodes-append ns (freed ++ n ∷ []), append_assoc)

free_bucket :
    (ns freed : List Node) → (if is_empty ns then freed else free_nodes ns freed) ≡ freed ++ ns
unfolding is_empty
free_bucket [] freed = sym (append-nil freed)
free_bucket (n ∷ ns) freed = free_nodes-append (n ∷ ns) freed

free_heads-gather : (n : ℕ) (l : Hlist) → free_heads n l ≡ gather n l.heads
unfolding free_heads
free_heads-gather zero l = refl
free_heads-gather (suc n) l =
    rw (free_heads-gather n l) (free_bucket (l.heads n) (gather n l.heads))

-- On a list that satisfies the invariant `__tpl_hashlist_destroy` frees the nodes of the buckets
-- from the first bucket to the last, in each from its head on; no two of them have one key, and a
-- search among them finds for every key what a lookup found before; the caller is left with NULL.
pub destroy_frees :
    (l : Hlist)
    → IsValid l
    → ((destroy (some l)).0 ≡ gather num_of_heads l.heads)
      × Distinct (destroy (some l)).0
      × ((k : ℕ) → find k (destroy (some l)).0 ≡ get_node l k)
      × ((destroy (some l)).1 ≡ none)
unfolding destroy nodes
destroy_frees l v =
    rw (free_heads-gather num_of_heads l)
      (refl, Distinct-gather l num_of_heads v, λ k. find-nodes l k v, refl)

for_nodes-append {ℓ} :
    {S : Type ℓ} (cb : Ptr → S → S) (xs ys : List Node) (s : S)
    → for_nodes cb (xs ++ ys) s ≡ for_nodes cb ys (for_nodes cb xs s)
unfolding for_nodes
for_nodes-append cb [] ys s = refl
for_nodes-append cb (n ∷ xs) ys s = for_nodes-append cb xs ys (cb n.value s)

for_heads-gather {ℓ} :
    {S : Type ℓ} (cb : Ptr → S → S) (n : ℕ) (l : Hlist) (s : S)
    → for_heads cb n l s ≡ for_nodes cb (gather n l.heads) s
unfolding for_heads for_nodes
for_heads-gather cb zero l s = refl
for_heads-gather cb (suc n) l s =
    ap (for_nodes cb (l.heads n)) (for_heads-gather cb n l s)
    ∙ sym (for_nodes-append cb (gather n l.heads) (l.heads n) s)

-- On a list that satisfies the invariant `__tpl_hashlist_do_for_all_nodes` calls the callback once for each node, in bucket order: on a
-- list of nodes in which no key occurs twice and which holds a key exactly when a lookup finds it.
-- A NULL callback does nothing.
pub do_for_all_nodes_lem {ℓ} :
    {S : Type ℓ} (l : Hlist) (cb : Ptr → S → S) (s : S)
    → IsValid l
    → (do_for_all_nodes l (some cb) s ≡ for_nodes cb (nodes l) s)
      × (do_for_all_nodes l none s ≡ s)
      × Distinct (nodes l)
      × ((k : ℕ) → find k (nodes l) ≡ get_node l k)
unfolding do_for_all_nodes nodes
do_for_all_nodes_lem l cb s v = (
  for_heads-gather cb num_of_heads l s,
  refl,
  Distinct-gather l num_of_heads v,
  λ k. find-nodes l k v,
)
