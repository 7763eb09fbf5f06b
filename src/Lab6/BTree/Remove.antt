-- ===== src/Lab6/BTree/Remove.antt =====
-- btree_remove: the last node takes the place of the removed one.
use mathlib.Core.List.{Perm, perm_append_singleton}
use mathlib.Core.List.Perm
use native.Mathlib.Decide.{dec_lt}
use mathlib.Core.Path.{subst}
use mai_os.Base.{
  ℕ, zero, suc, ◌-◌, ◌<◌, ◌≡◌, refl, sym, ap, ◌∙◌, some, List, [], ◌∷◌, ◌++◌, arith, ℤ, length,
  get_elem?, take, set, ◌≢◌, lt-get_elem?, get_elem?-lt, get_elem?-take, length-set, take-set_lt,
  take-take, take-set_ge,
}
use mai_os.Lab6.BTree.{BTreeNode, BTree, sub_size, search, found, absent, last_elem, remove}
use mai_os.Lab6.BTree.Live.{live, IsValid, length-live}
use mai_os.Lab6.BTree.Find.{Finds, Lacks, search-Finds}

-- the nodes after the one at index `i` was taken out: the last one moved there
abbrev pub moved_last : List BTreeNode → ℕ → BTreeNode → ℕ → List BTreeNode
moved_last xs i r n = take n (set xs i r)

swap_out-perm :
    (ys : List BTreeNode) (i : ℕ) (x r : BTreeNode)
    → get_elem? ys i ≡ some x
    → Perm (x ∷ set ys i r) (ys ++ (r ∷ []))
swap_out-perm [] i x r at = cc
swap_out-perm (y ∷ ys) zero x r at =
    let e : y ≡ x = ground arith in rw (← e) (Perm.cons y (Perm.symm (perm_append_singleton r ys)))
swap_out-perm (y ∷ ys) (suc i) x r at =
    Perm.trans (Perm.swap y x (set ys i r)) (Perm.cons y (swap_out-perm ys i x r at))

take-suc-snoc :
    (xs : List BTreeNode) (m : ℕ) (r : BTreeNode)
    → get_elem? xs m ≡ some r
    → take (suc m) xs ≡ take m xs ++ (r ∷ [])
take-suc-snoc [] m r at = cc
take-suc-snoc (x ∷ xs) zero r at = ground arith
take-suc-snoc (x ∷ xs) (suc m) r at = ap (λ ys. x ∷ ys) (take-suc-snoc xs m r at)

take-snoc :
    (xs : List BTreeNode) (n : ℕ) (r : BTreeNode)
    → 0 < n
    → get_elem? xs (n - 1) ≡ some r
    → take n xs ≡ take (n - 1) xs ++ (r ∷ [])
take-snoc xs n r h at =
    let e : n ≡ suc (n - 1) = omega arith in ap (λ k. take k xs) e ∙ take-suc-snoc xs (n - 1) r at

take_out-perm :
    (xs : List BTreeNode) (n i : ℕ) (x r : BTreeNode)
    → get_elem? xs (n - 1) ≡ some r
    → get_elem? xs i ≡ some x
    → i < n
    → Perm (x ∷ moved_last xs i r (n - 1)) (take n xs)
take_out-perm xs n i x r last at h = elim (dec_lt i (n - 1)) [
  | yes lt ↦
      rw (take-snoc xs n r (omega arith) last, take-set_lt (n - 1) xs i r)
        (swap_out-perm (take (n - 1) xs) i x r (get_elem?-take (n - 1) xs i lt ∙ at))
  | no ge ↦
      let e : i ≡ n - 1 = omega arith in
      let same : x ≡ r = ground arith in
      rw (take-snoc xs n r (omega arith) last, take-set_ge (n - 1) xs i r (omega arith), same)
        (Perm.symm (perm_append_singleton r (take (n - 1) xs)))
]

module _ (t : BTree) (elem_id : ℤ) (v : IsValid t) (h : 0 < t.size) where
  pub last_at : (r : BTreeNode) × (last_elem t ≡ some r) × (get_elem? t.buf (t.size - 1) ≡ some r)
  unfolding last_elem
  last_at =
      let (r, at) = get_elem?-lt t.buf (t.size - 1) (omega (arith, v.fits, v.allocated)) in
      let e : sub_size t.size 1 ≡ t.size - 1 = omega (arith, v.fits, v.small) in (r, rw e at, at)

  shrunk-IsValid :
      (buf : List BTreeNode)
      → length buf ≡ length t.buf
      → IsValid (record t { buf = buf; size = t.size - 1 })
  shrunk-IsValid buf e = record {
    allocated = e ∙ v.allocated;
    fits = omega (arith, v.fits);
    small = v.small;
  }

  one_less : sub_size t.size 1 ≡ t.size - 1
  one_less = omega (arith, v.fits, v.small)

  remove_found :
      (i : ℕ) (x r : BTreeNode)
      → search t elem_id ≡ found i x
      → last_elem t ≡ some r
      → remove t elem_id ≡ some (r, record t { buf = set t.buf i r; size = t.size - 1 })
  unfolding remove
  remove_found i x r s last = rw (last, s, remove, one_less)

  -- Where the search loop stops at a node with the identifier, btree_remove on a valid tree that
  -- is not empty returns the last node and leaves a valid tree that holds exactly the other
  -- nodes, as often, with the last one at the index of the removed one.
  pub remove-perm :
      (i : ℕ) (x : BTreeNode)
      → search t elem_id ≡ found i x
      → (r : BTreeNode) × (t' : BTree) × (remove t elem_id ≡ some (r, t'))
        × (last_elem t ≡ some r)
        × IsValid t'
        × Perm (x ∷ live t') (live t)
        × (live t' ≡ moved_last (live t) i r (t.size - 1))
  remove-perm i x s =
      let (r, last, raw) = last_at in
      let (j, e, at, same, lacks) = subst (Finds elem_id 0 (live t)) s (search-Finds t elem_id v) in
      let lt : j < t.size = omega (arith, lt-get_elem? (live t) j at, length-live v) in
      let ij : i ≡ j = omega arith in
      let at' : get_elem? t.buf i ≡ some x = rw ij (sym (get_elem?-take t.size t.buf j lt) ∙ at) in
      (
        r,
        record t { buf = set t.buf i r; size = t.size - 1 },
        remove_found i x r s last,
        last,
        shrunk-IsValid (set t.buf i r) (length-set t.buf i r),
        take_out-perm t.buf t.size i x r raw at' (omega arith),
        sym (take-take (t.size - 1) t.size (set t.buf i r) (omega arith))
            ∙ ap (take (t.size - 1)) (take-set_lt t.size t.buf i r),
      )

  -- Where the search loop finds no node with the identifier, btree_remove on a valid tree that
  -- is not empty drops the last node, which has another identifier, and nothing else.
  pub remove-absent :
      search t elem_id ≡ absent
      → (r : BTreeNode) × (t' : BTree) × (remove t elem_id ≡ some (r, t'))
        × IsValid t'
        × (live t ≡ live t' ++ (r ∷ []))
        × (r.id ≢ elem_id)
  unfolding remove
  remove-absent s =
      let (r, last, raw) = last_at in
      let lacks : Lacks elem_id (live t) (length (live t)) =
        subst (Finds elem_id 0 (live t)) s (search-Finds t elem_id v) in
      (
        r,
        record t { size = t.size - 1 },
        rw (last, s, remove, one_less),
        shrunk-IsValid t.buf refl,
        take-snoc t.buf t.size r h raw,
        lacks (t.size - 1) r (omega (arith, length-live v))
            (get_elem?-take t.size t.buf (t.size - 1) (omega arith) ∙ raw),
      )
