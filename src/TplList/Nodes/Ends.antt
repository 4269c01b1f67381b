-- ===== src/TplList/Nodes/Ends.antt =====
-- The end of the nodes in memory, and the pop at their back.
use mathlib.Core.List.{map, map-append, reverse, reverse-append, reverse-reverse, append-nil}
use mathlib.Core.Path.{subst}
use libtpl_egl.Base.{
  ℕ, zero, suc, ◌<◌, ◌≡◌, ◌≢◌, ◌⊎◌, inl, inr, refl, sym, ap, ◌∙◌, Bool, true, false, List, [], ◌∷◌,
  ◌++◌, ◌==◌, arith, update, All, length, length-append,
}
use libtpl_egl.Types.{Ptr, null, done}
use libtpl_egl.TplList.{TplList, init, fini, freed, is_empty, pop_back, pop_front, count_down}
use libtpl_egl.TplList.Count.{IsCounted}
use libtpl_egl.TplList.Nodes.{
  Heap, init_nodes, free_nodes, fini_nodes, pop_back_node, pop_front_node, data_at,
}
use libtpl_egl.TplList.Nodes.Chain.{IsChain, IsApart, IsDistinct, All-left}
use libtpl_egl.TplList.Nodes.Distinct.{IsLive, IsLive-update, All-drop}
use libtpl_egl.TplList.Nodes.Represents.{
  IsLinked, Represents, IsMatched, remove_lem, pop_front_refines,
}

All-end : (P : Ptr → Type 0) (l : List Ptr) (b : Ptr) → All P (l ++ b ∷ []) → P b
All-end P [] b h = h.0
All-end P (x ∷ l) b h = All-end P l b h.1

IsApart-end : (l : List Ptr) (b : Ptr) → IsDistinct (l ++ b ∷ []) → IsApart b l
IsApart-end [] b d = tt
IsApart-end (x ∷ l) b d = (λ e. All-end (λ y. y ≢ x) l b d.0 (sym e), IsApart-end l b d.1)

length-map : (f : Ptr → Ptr) (l : List Ptr) → length (map f l) ≡ length l
length-map f [] = refl
length-map f (x ∷ l) = ap suc (length-map f l)

-- A list is empty or has a last element.
last_cases : (l : List Ptr) → (l ≡ []) ⊎ ((xs : List Ptr) × (x : Ptr) × (l ≡ xs ++ x ∷ []))
last_cases [] = inl refl
last_cases (x ∷ l) = elim (last_cases l) [
  | inl e ↦ inr ([], x, ap (λ (r : List Ptr). x ∷ r) e)
  | inr (xs, y, e) ↦ inr (x ∷ xs, y, ap (λ (r : List Ptr). x ∷ r) e)
]

prev-end :
    (next prev : Ptr → Ptr) (a : Ptr) (xs : List Ptr) (x b : Ptr)
    → IsChain next prev a (xs ++ x ∷ []) b
    → prev b ≡ x
prev-end next prev a [] x b c = c.2.1
prev-end next prev a (y ∷ xs) x b c = prev-end next prev y xs x b c.2

freed-nil : (func : Bool) → freed func [] ≡ []
unfolding freed
freed-nil true = refl
freed-nil false = refl

freed-cons :
    (func : Bool) (d : Ptr) (ds : List Ptr)
    → freed func (d ∷ []) ++ freed func ds ≡ freed func (d ∷ ds)
unfolding freed
freed-cons true d ds = refl
freed-cons false d ds = refl

module _ (head tail : Ptr) where
  -- The loop frees the nodes from one on to the sentinel, and writes nothing behind other addresses.
  free_nodes_lem :
      (func : Bool) (h : Heap) (l : List Ptr) (a : Ptr) (fuel : ℕ)
      → length l < fuel
      → IsChain h.next h.prev a l tail
      → IsDistinct (l ++ tail ∷ [])
      → IsLive h.live l
      → (live : Ptr → Bool) × (free_nodes head tail fuel func h (h.next a)
          ≡ done (record h { live = live }, freed func (map h.data_of l)))
        × ((y : Ptr) → IsApart y l → live y ≡ h.live y)
  unfolding free_nodes
  free_nodes_lem func h [] a zero enough c d k = elim enough [ ]
  free_nodes_lem func h (x ∷ l) a zero enough c d k = elim enough [ ]
  free_nodes_lem func h [] a (suc fuel) enough c d k =
      (h.live, ground (arith, c.0, freed-nil func), λ y e. refl)
  free_nodes_lem func h (x ∷ l) a (suc fuel) enough c d k =
      let (live, e, others) =
        free_nodes_lem func (record h { live = update h.live x false }) l x fuel (omega arith) c.2
          d.1 (IsLive-update h.live x false l (All-left (λ y. y ≢ x) l (tail ∷ []) d.0) k.1) in
      let apart : (x == tail) ≡ false = ground (arith, All-end (λ y. y ≢ x) l tail d.0) in
      let nonnull : (x == null) ≡ false = ground (arith, k.0.0) in
      (
        live,
        rw (c.0, apart, nonnull, k.0.1, e)
            (rw (freed-cons func (h.data_of x) (map h.data_of l)) refl),
        λ y f. others y f.1 ∙ ground (arith, f.0),
      )

  -- Between two sentinels that are allocated, an initialisation makes the nodes of the empty list.
  pub init_nodes-Represents :
      (h : Heap)
      → tail ≢ head
      → IsLive h.live (head ∷ tail ∷ [])
      → Represents head tail (init_nodes head tail h) init
  unfolding init_nodes init
  init_nodes-Represents h d k = (
    [],
    record { chain = (ground arith, ground arith); distinct = ((d, tt), (tt, tt)); live = k },
    refl,
    refl,
  )

  pop_back_node_lem :
      (func : Bool) (h : Heap) (l : TplList) (xs : List Ptr) (node : Ptr)
      → IsCounted l
      → IsLinked head tail h (xs ++ node ∷ [])
      → map h.data_of (xs ++ node ∷ []) ≡ l.nodes
      → h.count ≡ l.count
      → IsMatched head tail (pop_back func l) (pop_back_node head tail func h)
  unfolding pop_back pop_back_node data_at is_empty
  pop_back_node_lem func h l xs node c k e n =
      let datas = map h.data_of xs in
      let split : l.nodes ≡ datas ++ h.data_of node ∷ [] =
        sym e ∙ map-append h.data_of xs (node ∷ []) in
      let back : reverse l.nodes ≡ h.data_of node ∷ reverse datas =
        ap reverse split ∙ reverse-append datas (h.data_of node ∷ []) in
      let counted : l.count ≡ suc (length datas) =
        omega (arith, c.0, ap length split, length-append datas (h.data_of node ∷ [])) in
      let nonzero : (l.count == 0) ≡ false = ground arith in
      let nonempty : (h.count == 0) ≡ false = ground (arith, n) in
      let (h', e', k', d', n') = remove_lem head tail func h xs node [] k in
      let last = prev-end h.next h.prev head xs node tail k.chain in
      (
        h.data_of node,
        h',
        record { nodes = datas; count = count_down l.count },
        freed func (h.data_of node ∷ []),
        rw (nonzero, back) (rw (reverse-reverse datas) refl),
        rw
            (
              nonempty,
              last,
              (All-drop (λ y. (y ≢ null) × (h.live y ≡ true)) node [] (tail ∷ []) (head ∷ xs)
                  k.live).0.1,
              e',
            )
            refl,
        (
          xs,
          subst (IsLinked head tail h') (append-nil xs) k',
          ap (λ (g : Ptr → Ptr). map g xs) d',
          n' ∙ ap count_down n,
        ),
      )

  pop_back_refines :
      (func : Bool) (h : Heap) (l : TplList)
      → IsCounted l
      → Represents head tail h l
      → IsMatched head tail (pop_back func l) (pop_back_node head tail func h)
  unfolding pop_back pop_back_node data_at is_empty
  pop_back_refines func h l c (nodes, k, e, n) = elim (last_cases nodes) [
    | inl empty ↦
        let zero_data : l.nodes ≡ [] = sym e ∙ ap (map h.data_of) empty in
        let none_left : l.count ≡ 0 = c.0 ∙ ap length zero_data in
        (null, h, l, [], rw none_left refl, rw (n, none_left) refl, (nodes, k, e, n))
    | inr (xs, node, split) ↦
        pop_back_node_lem func h l xs node c (subst (IsLinked head tail h) split k)
          (ap (map h.data_of) (sym split) ∙ e) n
  ]

  -- On nodes in memory that stand for a list whose count is the number of its nodes, a pop at the
  -- front ends as the pop at the front of the list, and one at the back as the pop at the back: with
  -- the same data and the same calls of the free function, and nodes that stand for the list left.
  pub pops_refine :
      (func : Bool) (h : Heap) (l : TplList)
      → IsCounted l
      → Represents head tail h l
      → IsMatched head tail (pop_front func l) (pop_front_node head tail func h)
        × IsMatched head tail (pop_back func l) (pop_back_node head tail func h)
  pops_refine func h l c k =
      (pop_front_refines head tail func h l c k, pop_back_refines func h l c k)

  -- On nodes in memory that stand for a list, with fuel for more rounds than there are nodes,
  -- `__tpl_list_fini` ends, makes the calls of the free function that it makes on the list, and
  -- leaves nodes that stand for the empty list.
  pub fini_refines :
      (func : Bool) (fuel : ℕ) (h : Heap) (l : TplList)
      → length l.nodes < fuel
      → Represents head tail h l
      → (h' : Heap) × (fini_nodes head tail fuel func h ≡ done (h', (fini func l).1))
        × Represents head tail h' (fini func l).0
  unfolding fini_nodes fini
  fini_refines func fuel h l enough (nodes, k, e, n) =
      let counted : length nodes ≡ length l.nodes =
        sym (length-map h.data_of nodes) ∙ ap length e in
      let (live, freeing, others) =
        free_nodes_lem func h nodes head fuel (omega arith) k.chain k.distinct.1
          (All-left (λ y. (y ≢ null) × (h.live y ≡ true)) nodes (tail ∷ []) k.live.1) in
      let live_head : live head ≡ true =
        others head (All-left (λ y. y ≢ head) nodes (tail ∷ []) k.distinct.0) ∙ k.live.0.1 in
      let (nonnull, live_tail) =
        All-end (λ y. (y ≢ null) × (h.live y ≡ true)) nodes tail k.live.1 in
      let live_tail' : live tail ≡ true =
        others tail (IsApart-end nodes tail k.distinct.1) ∙ live_tail in
      (
        _,
        rw⁻¹ e (rw freeing refl),
        init_nodes-Represents (record h { live = live })
            (All-end (λ y. y ≢ head) nodes tail k.distinct.0)
            ((k.live.0.0, live_head), ((nonnull, live_tail'), tt)),
      )
