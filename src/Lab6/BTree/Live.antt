-- ===== src/Lab6/BTree/Live.antt =====
-- The nodes that a tree holds, its representation invariant, and what btree_add does to them.
use mai_os.Base.{
  ℕ, ◌+◌, ◌*◌, ◌/◌, ◌^◌, ◌≤◌, ◌<◌, ◌≡◌, refl, ap, ◌∙◌, inl, inr, Bool, true, false, ◌||◌, none,
  some, List, [], ◌∷◌, ◌++◌, arith, ltb, ◌==◌, if◌then◌else◌, Bool-cases, length, set, take,
  replicate, length-append, length-set, get_elem?-ge, length-take, length-replicate, take-append_le,
  take-take, take-set_next,
}
use mai_os.Lab6.BTree.{
  BTreeNode, BTree, mul_size, sub_size, add_size, node_bytes, realloc, grow, set_size, add,
  last_elem,
}

abbrev pub live : BTree → List BTreeNode
live t = take t.size t.buf

-- The array is as long as `pool_size` says, holds every node, and its bytes can be counted.
pub record IsValid (t : BTree) : Type 0 where
  pub allocated : length t.buf ≡ t.pool_size
  pub fits : t.size ≤ t.pool_size
  pub small : t.pool_size ≤ 2 ^ 58

pub length-live : {t : BTree} → IsValid t → length (live t) ≡ t.size
length-live {t} v = omega (arith, length-take t.size t.buf, v.allocated, v.fits)

-- the capacity that btree_add asks for when the array is full
abbrev pub next_pool : BTree → ℕ
next_pool t = if t.pool_size == 0 then 4 else t.pool_size * 2

module _ (grants : ℕ → Bool) (junk : BTreeNode) where
  abbrev grown : BTree → List BTreeNode
  grown t = take (next_pool t) (t.buf ++ replicate (next_pool t) junk)

  realloc_lem :
      (buf : List BTreeNode) (n : ℕ)
      → n ≤ 2 ^ 59
      → realloc grants junk buf (mul_size n node_bytes)
        ≡ (if grants (n * node_bytes) then some (take n (buf ++ replicate n junk)) else none)
  unfolding realloc
  realloc_lem buf n small =
      let bytes : mul_size n node_bytes ≡ n * node_bytes = omega arith in
      let cells : n * node_bytes / node_bytes ≡ n = omega arith in rw (bytes, cells)

  add_room :
      (t : BTree) (e : BTreeNode)
      → IsValid t
      → t.size < t.pool_size
      → add grants junk t e ≡ (record t { buf = set t.buf t.size e; size = t.size + 1 }, true)
  unfolding add set_size grow
  add_room t e v h =
      let more : add_size t.size 1 ≡ t.size + 1 = omega arith in
      let back : sub_size (t.size + 1) 1 ≡ t.size = omega arith in rw more (ground (arith, back))

  pool_lem :
      (t : BTree)
      → IsValid t
      → (if t.pool_size == 0 then 2 * 2 else mul_size t.pool_size 2) ≡ next_pool t
  pool_lem t v = ground arith

  grow_full :
      (t : BTree)
      → IsValid t
      → t.size ≡ t.pool_size
      → grow grants junk t (t.size + 1) ≡ (
          if grants (next_pool t * node_bytes)
          then (record { buf = grown t; pool_size = next_pool t; size = t.size + 1 }, true)
          else (record t { size = t.size + 1 }, false))
  unfolding grow
  grow_full t v full =
      let more : ltb t.pool_size (t.size + 1) ≡ true = ground arith in
      rw more (
        rw (pool_lem t v) (
          rw (realloc_lem t.buf (next_pool t) (ground arith))
            (elim (Bool-cases (grants (next_pool t * node_bytes))) [
              | inl given ↦ rw given (ground (arith, pool_lem t v))
              | inr refused ↦ rw refused
            ])))

  add_full :
      (t : BTree) (e : BTreeNode)
      → IsValid t
      → t.size ≡ t.pool_size
      → add grants junk t e ≡ (
          if grants (next_pool t * node_bytes)
          then (
            record { buf = set (grown t) t.size e; pool_size = next_pool t; size = t.size + 1 },
            true,
          )
          else (record t { size = t.size + 1 }, false))
  unfolding add set_size
  add_full t e v full =
      let more : add_size t.size 1 ≡ t.size + 1 = omega arith in
      let back : sub_size (t.size + 1) 1 ≡ t.size = omega arith in
      rw more (ground (arith, back, grow_full t v full))

  length-grown : (t : BTree) → length (grown t) ≡ next_pool t
  length-grown t = omega (
    arith,
    length-take (next_pool t) (t.buf ++ replicate (next_pool t) junk),
    length-append t.buf (replicate (next_pool t) junk),
    length-replicate (next_pool t) junk,
  )

  take-grown : (t : BTree) → IsValid t → take t.size (grown t) ≡ live t
  take-grown t v =
      take-take t.size (next_pool t) (t.buf ++ replicate (next_pool t) junk) (ground arith)
      ∙ take-append_le t.size t.buf (replicate (next_pool t) junk) (omega arith)

  -- On a valid tree btree_add returns true exactly if the array has a free cell or the allocator
  -- grants an array of four nodes for an empty one, or else of twice the nodes.
  pub add_succeeds :
      (t : BTree) (e : BTreeNode)
      → IsValid t
      → (add grants junk t e).1 ≡ (ltb t.size t.pool_size || grants (next_pool t * node_bytes))
  add_succeeds t e v = elim (Bool-cases (ltb t.size t.pool_size)) [
    | inl room ↦ rw (add_room t e v (ground arith)) (ground arith)
    | inr full ↦ rw (add_full t e v (ground arith)) (ground arith)
  ]

  room-live :
      (t : BTree) (e : BTreeNode) (buf : List BTreeNode) (pool : ℕ)
      → length buf ≡ pool
      → t.size < pool
      → pool ≤ 2 ^ 58
      → take t.size buf ≡ live t
      → let t' : BTree = record { buf = set buf t.size e; pool_size = pool; size = t.size + 1 } in
        IsValid t' × (live t' ≡ live t ++ (e ∷ []))
  room-live t e buf pool long h small same = (
    record { allocated = length-set buf t.size e ∙ long; fits = omega arith; small = small },
    take-set_next t.size buf e (omega arith) ∙ ap (λ xs. xs ++ (e ∷ [])) same,
  )

  -- If btree_add returns true on a valid tree of at most 2 ^ 57 nodes, the tree stays valid and
  -- the new node comes after the old ones, which are as they were, also where the array was
  -- moved to a larger one.
  pub add-live :
      (t : BTree) (e : BTreeNode)
      → IsValid t
      → t.size ≤ 2 ^ 57
      → (add grants junk t e).1 ≡ true
      → IsValid (add grants junk t e).0 × (live (add grants junk t e).0 ≡ live t ++ (e ∷ []))
  add-live t e v small = elim (Bool-cases (ltb t.size t.pool_size)) [
    | inl room ↦
        rw (add_room t e v (ground arith))
          (λ done. room-live t e t.buf t.pool_size v.allocated (ground arith) v.small refl)
    | inr full ↦ elim (Bool-cases (grants (next_pool t * node_bytes))) [
      | inl given ↦
          rw (add_full t e v (ground arith), given)
            (λ done.
              room-live t e (grown t) (next_pool t) (length-grown t) (ground arith) (ground arith)
                (take-grown t v))
      | inr refused ↦ rw (add_full t e v (ground arith), refused) (λ done. cc)
    ]
  ]

  -- After a btree_add that returns false on a valid tree, the tree is no longer valid: it counts
  -- a node that it has no cell for, and reading its last node leaves the array.
  pub add-false-not-IsValid :
      (t : BTree) (e : BTreeNode)
      → IsValid t
      → (add grants junk t e).1 ≡ false
      → (¬ IsValid (add grants junk t e).0) × (last_elem (add grants junk t e).0 ≡ none)
  unfolding last_elem
  add-false-not-IsValid t e v = elim (Bool-cases (ltb t.size t.pool_size)) [
    | inl room ↦ rw (add_room t e v (ground arith)) (λ done. cc)
    | inr full ↦ elim (Bool-cases (grants (next_pool t * node_bytes))) [
      | inl given ↦ rw (add_full t e v (ground arith), given) (λ done. cc)
      | inr refused ↦
          rw (add_full t e v (ground arith), refused)
            (λ done. (
              (λ v'. let over : t.pool_size ≤ t.size = ground arith in omega (arith, v'.fits)),
              get_elem?-ge t.buf (sub_size (t.size + 1) 1) (ground arith),
            ))
    ]
  ]
