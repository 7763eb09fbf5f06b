-- ===== src/Lab6/BTree/Ids.antt =====
-- The identifiers of the nodes stay pairwise different.
use native.Mathlib.Decide.{ℕ_discrete}
use mathlib.Core.Path.{subst}
use mai_os.Base.{
  ℕ, zero, suc, ◌-◌, ◌≤◌, ◌<◌, ◌^◌, ◌≡◌, sym, ap, ◌∙◌, Bool, true, some, List, [], ◌∷◌, ◌++◌, arith,
  ◌==◌, if◌then◌else◌, length, length-take, get_elem?, set, lt-get_elem?, get_elem?-take,
  get_elem?-set_self, get_elem?-set_ne,
}
use mai_os.Lab6.BTree.{BTreeNode, BTree, add, remove}
use mai_os.Lab6.BTree.Live.{live, IsValid, length-live, add-live}
use mai_os.Lab6.BTree.Find.{UniqueIds, Lacks, search-found}
use mai_os.Lab6.BTree.Remove.{moved_last, last_at, remove-perm}

get_elem?-append :
    (xs : List BTreeNode) (e : BTreeNode) (i : ℕ) (x : BTreeNode)
    → get_elem? (xs ++ (e ∷ [])) i ≡ some x
    → (if i == length xs then some e else get_elem? xs i) ≡ some x
get_elem?-append [] e zero x at = at
get_elem?-append [] e (suc i) x at = ground arith
get_elem?-append (y ∷ xs) e zero x at = ground arith
get_elem?-append (y ∷ xs) e (suc i) x at = ground (arith, get_elem?-append xs e i x at)

UniqueIds-append :
    (xs : List BTreeNode) (e : BTreeNode)
    → UniqueIds xs
    → Lacks e.id xs (length xs)
    → UniqueIds (xs ++ (e ∷ []))
UniqueIds-append xs e unique lacks i j x y p q same = ground (
  arith,
  get_elem?-append xs e i x p,
  get_elem?-append xs e j y q,
  unique i j x y,
  lacks i x,
  lacks j y,
  lt-get_elem? xs i {a = x},
  lt-get_elem? xs j {a = y},
)

-- where the node at an index of the shorter list stood before
from_index : ℕ → ℕ → ℕ → ℕ
from_index i last j = if j == i then last else j

moved_last_at :
    (xs : List BTreeNode) (i n j : ℕ) (r y : BTreeNode)
    → get_elem? xs n ≡ some r
    → get_elem? (moved_last xs i r n) j ≡ some y
    → (j < n) × (get_elem? xs (from_index i n j) ≡ some y)
unfolding from_index
moved_last_at xs i n j r y last at =
    let lt : j < n =
      omega (arith, lt-get_elem? (moved_last xs i r n) j at, length-take n (set xs i r)) in
    let at' : get_elem? (set xs i r) j ≡ some y = sym (get_elem?-take n (set xs i r) j lt) ∙ at in
    (
      lt,
      elim (ℕ_discrete j i) [
        | yes e ↦ ground (arith, lt-get_elem? xs n last, get_elem?-set_self xs i r)
        | no ne ↦ ground (arith, get_elem?-set_ne xs i j r)
      ],
    )

UniqueIds-moved_last :
    (xs : List BTreeNode) (i n : ℕ) (r : BTreeNode)
    → UniqueIds xs
    → get_elem? xs n ≡ some r
    → UniqueIds (moved_last xs i r n)
unfolding from_index
UniqueIds-moved_last xs i n r unique last j k x y p q same =
    let (lt, at) = moved_last_at xs i n j r x last p in
    let (lt', at') = moved_last_at xs i n k r y last q in
    ground (arith, unique (from_index i n j) (from_index i n k) x y at at' same)

-- btree_add of a node with a new identifier keeps the identifiers different.
pub add-UniqueIds :
    (grants : ℕ → Bool) (junk : BTreeNode) (t : BTree) (e : BTreeNode)
    → IsValid t
    → t.size ≤ 2 ^ 57
    → (add grants junk t e).1 ≡ true
    → UniqueIds (live t)
    → Lacks e.id (live t) (length (live t))
    → UniqueIds (live (add grants junk t e).0)
add-UniqueIds grants junk t e v small done unique lacks =
    rw ((add-live grants junk t e v small done).1) (UniqueIds-append (live t) e unique lacks)

-- btree_remove of a node of a valid tree with unique identifiers leaves a tree with unique
-- identifiers.
pub remove-UniqueIds :
    (t : BTree) (i : ℕ) (x r : BTreeNode) (t' : BTree)
    → IsValid t
    → UniqueIds (live t)
    → get_elem? (live t) i ≡ some x
    → remove t x.id ≡ some (r, t')
    → UniqueIds (live t')
remove-UniqueIds t i x r t' v unique at e =
    let h : i < t.size = omega (arith, lt-get_elem? (live t) i at, length-live v) in
    let s = search-found t i x v unique at in
    let (r₁, last, raw) = last_at t x.id v (omega arith) in
    let (r₂, t₂, e₂, last₂, valid, perm, moved) = remove-perm t x.id v (omega arith) i x s in
    let same : t₂ ≡ t' = ground arith in
    let same_r : r₁ ≡ r₂ = ground arith in
    let last' : get_elem? (live t) (t.size - 1) ≡ some r₂ =
      get_elem?-take t.size t.buf (t.size - 1) (omega arith) ∙ raw ∙ ap some same_r in
    subst UniqueIds (sym moved ∙ ap live same)
      (UniqueIds-moved_last (live t) i (t.size - 1) r₂ unique last')
