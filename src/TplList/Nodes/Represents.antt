-- ===== src/TplList/Nodes/Represents.antt =====
-- What the nodes in memory stand for: the list of TplList, whose operations they implement.
use mathlib.Core.List.{map, append-nil, map-append}
use mathlib.Core.Path.{subst}
use libtpl_egl.Base.{
  ◌≡◌, ◌≢◌, refl, sym, ap, ◌∙◌, Bool, true, false, Option, none, some, List, [], ◌∷◌, ◌++◌, ◌==◌,
  arith, update, length, is_some,
}
use libtpl_egl.Types.{error_none, Ptr, null, Outcome, done}
use libtpl_egl.TplList.{
  TplList, count_up, count_down, push_front, push_back, pop_front, freed, is_empty,
}
use libtpl_egl.TplList.Count.{IsCounted}
use libtpl_egl.TplList.Nodes.{
  Heap, insert, remove, data_at, push_front_node, push_back_node, pop_front_node,
}
use libtpl_egl.TplList.Nodes.Distinct.{
  IsLive, All-insert, All-drop, IsDistinct-insert, IsDistinct-drop, IsApart-live, IsLive-update,
  map-update,
}
use libtpl_egl.TplList.Nodes.Chain.{
  IsChain, IsApart, IsDistinct, last_of, first_of, neighbours, next-first_of, IsChain-insert,
  IsChain-remove, All-last_of, All-first_of, All-left, All-behind,
}

live_before :
    (live : Ptr → Bool) (a : Ptr) (xs rest r : List Ptr)
    → IsLive live (a ∷ (xs ++ rest) ++ r)
    → (last_of a xs ≢ null) × (live (last_of a xs) ≡ true)
live_before live a xs rest r h =
    All-last_of (λ y. (y ≢ null) × (live y ≡ true)) a xs h.0
      (All-left (λ y. (y ≢ null) × (live y ≡ true)) xs rest
        (All-left (λ y. (y ≢ null) × (live y ≡ true)) (xs ++ rest) r h.1))

-- The data once a node is written that stands in front of or behind the others.
module _ (f : Ptr → Ptr) (node value : Ptr) (nodes : List Ptr) {datas : List Ptr}
    (apart : IsApart node nodes) (e : map f nodes ≡ datas) where
  data_front : map (update f node value) (node ∷ nodes) ≡ value ∷ datas
  data_front = rw (map-update f node value nodes apart, e) (ground arith)

  data_back : map (update f node value) (nodes ++ node ∷ []) ≡ datas ++ value ∷ []
  data_back =
      rw
        (map-append (update f node value) nodes (node ∷ []), map-update f node value nodes apart, e)
        (ground arith)

module _ (head tail : Ptr) where
  -- The nodes of `l` between the sentinels: linked, different from each other, and allocated.
  pub record IsLinked (h : Heap) (l : List Ptr) : Type 0 where
    pub chain : IsChain h.next h.prev head l tail
    pub distinct : IsDistinct (head ∷ l ++ tail ∷ [])
    pub live : IsLive h.live (head ∷ l ++ tail ∷ [])

  -- The nodes in memory hold the data of the list in its order, beside the same count.
  abbrev pub Represents : Heap → TplList → Type 0
  Represents h l =
      (nodes : List Ptr) × IsLinked h nodes × (map h.data_of nodes ≡ l.nodes) × (h.count ≡ l.count)

  -- A pop on the list and one on the nodes in memory both end, with the same data and the same
  -- calls of the free function, and the nodes are those of the list that is left.
  abbrev pub IsMatched :
      Outcome (Ptr × TplList × List Ptr) → Outcome (Ptr × Heap × List Ptr) → Type 0
  IsMatched popped coded =
      (d : Ptr) × (h' : Heap) × (l' : TplList) × (calls : List Ptr) × (popped ≡ done (d, l', calls))
      × (coded ≡ done (d, h', calls))
      × Represents h' l'

  -- What `malloc` returns is no address in use.
  abbrev pub IsFresh : Heap → Option Ptr → Type 0
  IsFresh h none = Unit
  IsFresh h (some node) = (node ≢ null) × (h.live node ≡ false)

  insert_lem :
      (h : Heap) (node value : Ptr) (xs ys : List Ptr)
      → IsFresh h (some node)
      → IsLinked h (xs ++ ys)
      → (h' : Heap) × (insert (some node) h (last_of head xs) value ≡ done (error_none, h'))
        × IsLinked h' (xs ++ node ∷ ys)
        × (h'.data_of ≡ update h.data_of node value)
        × (h'.count ≡ count_up h.count)
  unfolding insert
  insert_lem h node value xs ys f k =
      let (next_pos, prev_behind) = neighbours h.next h.prev head xs ys tail k.chain in
      let live_pos : h.live (last_of head xs) ≡ true =
        (live_before h.live head xs ys (tail ∷ []) k.live).1 in
      let live_behind : h.live (first_of ys tail) ≡ true =
        (All-first_of (λ y. (y ≢ null) × (h.live y ≡ true)) xs ys tail k.live.1).1 in
      let apart = IsApart-live h.live node (head ∷ (xs ++ ys) ++ tail ∷ []) f.1 k.live in
      (
        _,
        rw (next_pos, live_pos, live_behind) refl,
        record {
          chain = IsChain-insert h.next h.prev node head xs ys tail k.distinct apart k.chain;
          distinct = IsDistinct-insert node ys (tail ∷ []) (head ∷ xs) apart k.distinct;
          live =
              All-insert (λ y. (y ≢ null) × (update h.live node true y ≡ true)) node ys (tail ∷ [])
                (head ∷ xs) (f.0, ground arith)
                (IsLive-update h.live node true (head ∷ (xs ++ ys) ++ tail ∷ []) apart k.live);
        },
        refl,
        refl,
      )

  pub remove_lem :
      (func : Bool) (h : Heap) (xs : List Ptr) (node : Ptr) (ys : List Ptr)
      → IsLinked h (xs ++ node ∷ ys)
      → (h' : Heap) × (remove func h node ≡ done (h', freed func (h.data_of node ∷ [])))
        × IsLinked h' (xs ++ ys)
        × (h'.data_of ≡ h.data_of)
        × (h'.count ≡ count_down h.count)
  unfolding remove
  remove_lem func h xs node ys k =
      let (next_before, prev_node) = neighbours h.next h.prev head xs (node ∷ ys) tail k.chain in
      let next_node = next-first_of h.next h.prev head xs node ys tail k.chain in
      let before = live_before h.live head xs (node ∷ ys) (tail ∷ []) k.live in
      let behind = All-behind (λ y. (y ≢ null) × (h.live y ≡ true)) xs node ys tail k.live.1 in
      let (here, others) =
        All-drop (λ y. (y ≢ null) × (h.live y ≡ true)) node ys (tail ∷ []) (head ∷ xs) k.live in
      let (distinct, apart) = IsDistinct-drop node ys (tail ∷ []) (head ∷ xs) k.distinct in
      (
        _,
        rw (prev_node, next_node, here.1, before.1, behind.1) (ground arith),
        record {
          chain = IsChain-remove h.next h.prev head xs node ys tail k.distinct k.chain;
          distinct = distinct;
          live = IsLive-update h.live node false (head ∷ (xs ++ ys) ++ tail ∷ []) apart others;
        },
        refl,
        refl,
      )

  -- On nodes in memory that stand for a list, where `malloc` fails or returns no address in use,
  -- a push at the front or at the back ends and leaves nodes that stand for the list after the push
  -- at that end; the one at the back returns what the push on the list returns.
  pub pushes_refine :
      (h : Heap) (l : TplList) (fresh : Option Ptr) (value : Ptr)
      → IsFresh h fresh
      → Represents h l
      → let l₁ = (push_front (is_some fresh) l value).1 in
        let (back, l₂) = push_back (is_some fresh) l value in
        ((h' : Heap) × (push_front_node head tail fresh h value ≡ done h') × Represents h' l₁)
        × ((h' : Heap) × (push_back_node head tail fresh h value ≡ done (back, h'))
            × Represents h' l₂)
  unfolding push_front push_back push_front_node push_back_node insert
  pushes_refine h l none value f k = ((h, refl, k), (h, refl, k))
  pushes_refine h l (some node) value f (nodes, k, e, n) =
      let appended = subst (IsLinked h) (sym (append-nil nodes)) k in
      let (h₁, e₁, k₁, d₁, n₁) = insert_lem h node value [] nodes f k in
      let (h₂, e₂, k₂, d₂, n₂) = insert_lem h node value nodes [] f appended in
      let apart =
        All-left (λ y. y ≢ node) nodes (tail ∷ [])
          (IsApart-live h.live node (nodes ++ tail ∷ []) f.1 k.live.1) in
      let last = (neighbours h.next h.prev head nodes [] tail appended.chain).1 in
      (
        (
          h₁,
          rw e₁ refl,
          (
            node ∷ nodes,
            k₁,
            ap (λ (g : Ptr → Ptr). map g (node ∷ nodes)) d₁
                ∙ data_front h.data_of node value nodes apart e,
            n₁ ∙ ap count_up n,
          ),
        ),
        (
          h₂,
          rw last e₂,
          (
            nodes ++ node ∷ [],
            k₂,
            ap (λ (g : Ptr → Ptr). map g (nodes ++ node ∷ [])) d₂
                ∙ data_back h.data_of node value nodes apart e,
            n₂ ∙ ap count_up n,
          ),
        ),
      )

  pub pop_front_refines :
      (func : Bool) (h : Heap) (l : TplList)
      → IsCounted l
      → Represents h l
      → IsMatched (pop_front func l) (pop_front_node head tail func h)
  unfolding pop_front pop_front_node data_at is_empty
  pop_front_refines func h l c ([], k, e, n) =
      let zero : l.count ≡ 0 = c.0 ∙ ap length (sym e) in
      (null, h, l, [], rw zero refl, rw (n, zero) refl, ([], k, e, n))
  pop_front_refines func h l c (node ∷ nodes, k, e, n) =
      let counted : l.count ≡ length (h.data_of node ∷ map h.data_of nodes) =
        c.0 ∙ ap length (sym e) in
      let nonempty : (h.count == 0) ≡ false = ground (arith, n) in
      let nonzero : (l.count == 0) ≡ false = ground arith in
      let (h', e', k', d', n') = remove_lem func h [] node nodes k in
      (
        h.data_of node,
        h',
        record { nodes = map h.data_of nodes; count = count_down l.count },
        freed func (h.data_of node ∷ []),
        rw (nonzero, sym e) refl,
        rw (nonempty, k.chain.0, k.live.1.0.1, e') refl,
        (nodes, k', ap (λ (g : Ptr → Ptr). map g nodes) d', n' ∙ ap count_down n),
      )
