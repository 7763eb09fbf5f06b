-- ===== src/Lab6/BTree/Find.antt =====
-- What the search loops of balanced_tree.c find among the nodes of a tree.
use mai_os.Base.{
  ℕ, zero, suc, ◌+◌, ◌≤◌, ◌<◌, ◌≡◌, refl, ◌≢◌, ◌⊎◌, inl, inr, Option, none, some, List, [], ◌∷◌,
  arith, ℤ, Bool-cases, length, lt-get_elem?, sym, get_elem?, take, eq_ℤ, eq_ℤ_iff,
}
use mai_os.Lab6.BTree.{
  BTreeNode, BTree, no_node, Search, fault, absent, found, locate, search, find,
}
use mai_os.Lab6.BTree.Live.{live, IsValid}

-- No cell of `xs` before index `n` has the identifier.
abbrev pub Lacks : ℤ → List BTreeNode → ℕ → Type 0
Lacks elem_id xs n = (j : ℕ) (y : BTreeNode) → j < n → get_elem? xs j ≡ some y → y.id ≢ elem_id

-- The outcome of a search of `xs`, whose first cell has index `i`: the first cell with the
-- identifier, or that there is none, and never a read outside the array.
abbrev pub Finds : ℤ → ℕ → List BTreeNode → Search → Type 0
Finds elem_id i xs fault = ⊥
Finds elem_id i xs absent = Lacks elem_id xs (length xs)
Finds elem_id i xs (found k x) =
    (j : ℕ) × (k ≡ i + j) × (get_elem? xs j ≡ some x) × (x.id ≡ elem_id) × Lacks elem_id xs j

Lacks-cons :
    (elem_id : ℤ) (x : BTreeNode) (xs : List BTreeNode) (n : ℕ)
    → x.id ≢ elem_id
    → Lacks elem_id xs n
    → Lacks elem_id (x ∷ xs) (suc n)
Lacks-cons elem_id x xs n ne lacks zero y h e = ground arith
Lacks-cons elem_id x xs n ne lacks (suc j) y h e = lacks j y (omega arith) e

Finds-cons :
    (elem_id : ℤ) (i : ℕ) (x : BTreeNode) (xs : List BTreeNode) (s : Search)
    → x.id ≢ elem_id
    → Finds elem_id (i + 1) xs s
    → Finds elem_id i (x ∷ xs) s
Finds-cons elem_id i x xs fault ne f = f
Finds-cons elem_id i x xs absent ne f = Lacks-cons elem_id x xs (length xs) ne f
Finds-cons elem_id i x xs (found k y) ne (j, e, at, same, lacks) =
    (suc j, omega arith, at, same, Lacks-cons elem_id x xs j ne lacks)

locate-Finds :
    (elem_id : ℤ) (n i : ℕ) (xs : List BTreeNode)
    → n ≤ length xs
    → Finds elem_id i (take n xs) (locate elem_id n i xs)
unfolding locate
locate-Finds elem_id zero i xs h = λ j y lt. elim lt [ ]
locate-Finds elem_id (suc n) i [] h = elim h [ ]
locate-Finds elem_id (suc n) i (x ∷ xs) h = elim (Bool-cases (eq_ℤ x.id elem_id)) [
  | inl hit ↦ rw hit (0, omega arith, refl, (eq_ℤ_iff x.id elem_id).0 hit, λ j y lt. elim lt [ ])
  | inr miss ↦ rw miss (
      Finds-cons elem_id i x (take n xs) (locate elem_id n (i + 1) xs)
        (ground (arith, eq_ℤ_iff x.id elem_id)) (locate-Finds elem_id n (i + 1) xs (omega arith)))
]

pub search-Finds :
    (t : BTree) (elem_id : ℤ) → IsValid t → Finds elem_id 0 (live t) (search t elem_id)
search-Finds t elem_id v = locate-Finds elem_id t.size 0 t.buf (omega (arith, v.allocated, v.fits))

-- At most one node has a given identifier.
abbrev pub UniqueIds : List BTreeNode → Type 0
UniqueIds xs =
    (i j : ℕ) (x y : BTreeNode)
    → get_elem? xs i ≡ some x
    → get_elem? xs j ≡ some y
    → x.id ≡ y.id
    → i ≡ j

found_of_Finds :
    (xs : List BTreeNode) (i : ℕ) (x : BTreeNode) (s : Search)
    → UniqueIds xs
    → get_elem? xs i ≡ some x
    → Finds x.id 0 xs s
    → s ≡ found i x
found_of_Finds xs i x fault unique at f = absurd f
found_of_Finds xs i x absent unique at f = absurd (f i x (lt-get_elem? xs i at) at refl)
found_of_Finds xs i x (found k y) unique at (j, e, at', same, lacks) =
    ground (arith, unique i j x y at at' (sym same))

-- Where identifiers are unique, the loop stops at the one cell that has the identifier.
pub search-found :
    (t : BTree) (i : ℕ) (x : BTreeNode)
    → IsValid t
    → UniqueIds (live t)
    → get_elem? (live t) i ≡ some x
    → search t x.id ≡ found i x
search-found t i x v unique at =
    found_of_Finds (live t) i x (search t x.id) unique at (search-Finds t x.id v)

-- What btree_find returns for a search of `xs`.
abbrev pub FirstOrNone : ℤ → List BTreeNode → Option BTreeNode → Type 0
FirstOrNone elem_id xs r =
    ((r ≡ some no_node) × Lacks elem_id xs (length xs))
    ⊎ ((j : ℕ) × (x : BTreeNode) × (r ≡ some x)
        × (get_elem? xs j ≡ some x)
        × (x.id ≡ elem_id)
        × Lacks elem_id xs j)

-- btree_find on a valid tree stays inside the array, and returns the first node with the
-- identifier, or the node of identifier and process -1 if no node has the identifier.
pub find-FirstOrNone :
    (t : BTree) (elem_id : ℤ) → IsValid t → FirstOrNone elem_id (live t) (find t elem_id)
unfolding find
find-FirstOrNone t elem_id v = go (search t elem_id) (search-Finds t elem_id v)
  where
    go :
        (s : Search)
        → Finds elem_id 0 (live t) s
        → FirstOrNone elem_id
            (live t)
            (elim s [ fault ↦ none | absent ↦ some no_node | found i x ↦ some x ])
    go fault f = absurd f
    go absent f = inl (refl, f)
    go (found k x) (j, e, at, same, lacks) = inr (j, x, refl, at, same, lacks)
