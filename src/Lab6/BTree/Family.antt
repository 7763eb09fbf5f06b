-- ===== src/Lab6/BTree/Family.antt =====
-- Sons and parents: the layout of the array is a binary tree.
use mai_os.Base.{
  ℕ, ◌+◌, ◌-◌, ◌*◌, ◌/◌, ◌≤◌, ◌<◌, ◌≡◌, sym, ◌∙◌, false, Option, some, arith, ◌==◌, if◌then◌else◌,
  get_elem?, lt-get_elem?, get_elem?-lt, get_elem?-take,
}
use mai_os.Lab6.BTree.{
  BTreeNode, BTree, no_node, sub_size, son, get_parent, get_left, get_right, last_elem,
  last_elem_parent,
}
use mai_os.Lab6.BTree.Live.{live, IsValid, length-live}
use mai_os.Lab6.BTree.Find.{UniqueIds, search-found}

-- the node at an index, if the tree has one there
abbrev pub node_at : BTree → ℕ → Option BTreeNode
node_at t i = get_elem? (live t) i

buf_at : (t : BTree) (i : ℕ) → i < t.size → get_elem? t.buf i ≡ node_at t i
buf_at t i h = sym (get_elem?-take t.size t.buf i h)

lt_size : (t : BTree) (i : ℕ) (x : BTreeNode) → IsValid t → node_at t i ≡ some x → i < t.size
lt_size t i x v at = omega (arith, lt-get_elem? (live t) i at, length-live v)

son_lem : (t : BTree) (j : ℕ) (c : BTreeNode) → IsValid t → node_at t j ≡ some c → son t j ≡ some c
son_lem t j c v at = ground (arith, lt_size t j c v at, buf_at t j (lt_size t j c v at))

son-none : (t : BTree) (j : ℕ) → t.size ≤ j → son t j ≡ some no_node
son-none t j h = ground arith

module _ (t : BTree) (v : IsValid t) (unique : UniqueIds (live t)) where
  pub get_left_at :
      (i : ℕ) (p : BTreeNode) → node_at t i ≡ some p → get_left t p.id ≡ son t (2 * i + 1)
  unfolding get_left
  get_left_at i p at = rw (search-found t i p v unique at, get_left)

  pub get_right_at :
      (i : ℕ) (p : BTreeNode) → node_at t i ≡ some p → get_right t p.id ≡ son t (2 * i + 2)
  unfolding get_right
  get_right_at i p at = rw (search-found t i p v unique at, get_right)

  pub get_parent_at :
      (j : ℕ) (c : BTreeNode)
      → node_at t j ≡ some c
      → get_parent t c.id ≡ (if j == 0 then some no_node else node_at t ((j - 1) / 2))
  unfolding get_parent
  get_parent_at j c at =
      let h : j < t.size = lt_size t j c v at in
      rw (search-found t j c v unique at, get_parent)
        (ground (arith, buf_at t ((j - 1) / 2) (omega arith)))

  parent_of :
      (i j : ℕ) (p c : BTreeNode)
      → (j - 1) / 2 ≡ i
      → 0 < j
      → node_at t i ≡ some p
      → node_at t j ≡ some c
      → get_parent t c.id ≡ some p
  parent_of i j p c half h at at' = ground (arith, get_parent_at j c at')

  -- In a valid tree with unique identifiers, btree_get_left returns the node at index 2i + 1 for
  -- the node at index i, and btree_get_parent of that son returns the node again; without such
  -- an index in use it returns the node of identifier -1.
  pub get_left-get_parent :
      (i : ℕ) (p : BTreeNode)
      → node_at t i ≡ some p
      → ((c : BTreeNode)
          → node_at t (2 * i + 1) ≡ some c
          → (get_left t p.id ≡ some c) × (get_parent t c.id ≡ some p))
        × (t.size ≤ 2 * i + 1 → get_left t p.id ≡ some no_node)
  get_left-get_parent i p at = (
    λ c at'. (
      get_left_at i p at ∙ son_lem t (2 * i + 1) c v at',
      parent_of i (2 * i + 1) p c (omega arith) (omega arith) at at',
    ),
    λ h. get_left_at i p at ∙ son-none t (2 * i + 1) h,
  )

  -- In a valid tree with unique identifiers, btree_get_right returns the node at index 2i + 2
  -- for the node at index i, and btree_get_parent of that son returns the node again; without
  -- such an index in use it returns the node of identifier -1.
  pub get_right-get_parent :
      (i : ℕ) (p : BTreeNode)
      → node_at t i ≡ some p
      → ((c : BTreeNode)
          → node_at t (2 * i + 2) ≡ some c
          → (get_right t p.id ≡ some c) × (get_parent t c.id ≡ some p))
        × (t.size ≤ 2 * i + 2 → get_right t p.id ≡ some no_node)
  get_right-get_parent i p at = (
    λ c at'. (
      get_right_at i p at ∙ son_lem t (2 * i + 2) c v at',
      parent_of i (2 * i + 2) p c (omega arith) (omega arith) at at',
    ),
    λ h. get_right_at i p at ∙ son-none t (2 * i + 2) h,
  )

  -- In a valid tree of two nodes or more with unique identifiers, btree_last_elem_parent returns
  -- what btree_get_parent returns for the identifier of the last node.
  pub last_elem_parent-get_parent :
      2 ≤ t.size
      → (l : BTreeNode) × (last_elem t ≡ some l) × (last_elem_parent t ≡ get_parent t l.id)
  unfolding last_elem last_elem_parent
  last_elem_parent-get_parent h =
      let n = t.size - 1 in
      let (l, at) = get_elem?-lt (live t) n (omega (arith, length-live v)) in
      let last : sub_size t.size 1 ≡ n = omega (arith, v.fits, v.small) in
      let mid : sub_size t.size 2 / 2 ≡ (n - 1) / 2 = omega (arith, v.fits, v.small) in
      let some_parent : (n == 0) ≡ false = ground arith in
      (
        l,
        rw last (buf_at t n (omega arith) ∙ at),
        rw (mid, get_parent_at n l at, some_parent) (buf_at t ((n - 1) / 2) (omega arith)),
      )
