-- ===== src/Lab6/BTree/Tests.antt =====
-- Runs of balanced_tree.c, and the theorems at a tree of three nodes.
use mathlib.Core.List.{Perm}
use mai_os.Base.{
  ℕ, ◌≡◌, refl, ◌≢◌, Bool, true, false, none, some, [], ◌∷◌, ◌++◌, arith, ℤ, pos, negsuc, zero, suc,
}
use mai_os.Base.Text.{codes}
use mai_os.Lab6.BTree.{
  BTreeNode, BTree, no_node, init, realloc, grow, set_size, add, locate, last_elem, remove,
}
use mai_os.Lab6.BTree.Live.{live, IsValid, add-false-not-IsValid}
use mai_os.Lab6.BTree.Find.{UniqueIds, Lacks}
use mai_os.Lab6.BTree.Remove.{moved_last, remove-perm, remove-absent}
use mai_os.Lab6.BTree.Ids.{add-UniqueIds, remove-UniqueIds}

abbrev node : ℤ → BTreeNode
node id = record {
  id = id;
  pid = pos 100;
  main_address = some (codes "tcp://localhost:5002");
  ping_address = some (codes "tcp://localhost:5003");
}

abbrev control : BTreeNode
control = node (negsuc 0)

-- the control node with the sons 7 and 8, in the four cells of the first allocation
abbrev three : BTree
three = record {
  buf = control ∷ node (pos 7) ∷ node (pos 8) ∷ no_node ∷ [];
  pool_size = 4;
  size = 3;
}

abbrev four : BTree
four = record {
  buf = control ∷ node (pos 7) ∷ node (pos 8) ∷ node (pos 9) ∷ [];
  pool_size = 4;
  size = 4;
}

abbrev always : ℕ → Bool
always n = true

abbrev never : ℕ → Bool
never n = false

three-IsValid : IsValid three
three-IsValid = omega arith

four-IsValid : IsValid four
four-IsValid = omega arith

three-UniqueIds : UniqueIds (live three)
three-UniqueIds zero zero x y p q e = refl
three-UniqueIds zero (suc zero) x y p q e = ground arith
three-UniqueIds zero (suc (suc zero)) x y p q e = ground arith
three-UniqueIds zero (suc (suc (suc j))) x y p q e = cc
three-UniqueIds (suc zero) zero x y p q e = ground arith
three-UniqueIds (suc zero) (suc zero) x y p q e = refl
three-UniqueIds (suc zero) (suc (suc zero)) x y p q e = ground arith
three-UniqueIds (suc zero) (suc (suc (suc j))) x y p q e = cc
three-UniqueIds (suc (suc zero)) zero x y p q e = ground arith
three-UniqueIds (suc (suc zero)) (suc zero) x y p q e = ground arith
three-UniqueIds (suc (suc zero)) (suc (suc zero)) x y p q e = refl
three-UniqueIds (suc (suc zero)) (suc (suc (suc j))) x y p q e = cc
three-UniqueIds (suc (suc (suc i))) j x y p q e = cc

three-Lacks-9 : Lacks (pos 9) (live three) 3
three-Lacks-9 zero y h at e = ground arith
three-Lacks-9 (suc zero) y h at e = ground arith
three-Lacks-9 (suc (suc zero)) y h at e = ground arith
three-Lacks-9 (suc (suc (suc j))) y h at e = cc

add_first :
    add always no_node init control
    ≡ (record { buf = control ∷ no_node ∷ no_node ∷ no_node ∷ []; pool_size = 4; size = 1 }, true)
unfolding add set_size grow realloc init
add_first = refl

add-false-not-IsValid_example :
    (¬ IsValid (add never no_node four (node (pos 10))).0)
    × (last_elem (add never no_node four (node (pos 10))).0 ≡ none)
unfolding add set_size grow realloc
add-false-not-IsValid_example =
    add-false-not-IsValid never no_node four (node (pos 10)) four-IsValid refl

remove-perm_example :
    (r : BTreeNode) × (t : BTree) × (remove three (pos 7) ≡ some (r, t))
    × (last_elem three ≡ some r)
    × IsValid t
    × Perm (node (pos 7) ∷ live t) (live three)
    × (live t ≡ moved_last (live three) 1 r 2)
unfolding locate
remove-perm_example = remove-perm three (pos 7) three-IsValid (omega arith) 1 (node (pos 7)) refl

remove-absent_example :
    (r : BTreeNode) × (t : BTree) × (remove three (pos 9) ≡ some (r, t))
    × IsValid t
    × (live three ≡ live t ++ (r ∷ []))
    × (r.id ≢ pos 9)
unfolding locate
remove-absent_example = remove-absent three (pos 9) three-IsValid (omega arith) refl

add-UniqueIds_example : UniqueIds (live (add always no_node three (node (pos 9))).0)
unfolding add set_size grow realloc
add-UniqueIds_example =
    add-UniqueIds always no_node three (node (pos 9)) three-IsValid (omega arith) refl
      three-UniqueIds three-Lacks-9

remove-UniqueIds_example :
    UniqueIds
      (live (record three { buf = control ∷ node (pos 8) ∷ node (pos 8) ∷ no_node ∷ []; size = 2 }))
unfolding remove locate last_elem
remove-UniqueIds_example =
    remove-UniqueIds three 1 (node (pos 7)) (node (pos 8)) _ three-IsValid three-UniqueIds refl refl
