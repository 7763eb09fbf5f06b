-- ===== src/Lab6/ControlNode/Create.antt =====
-- lab6/control_node.c: what `create ID` does to the tree.
use mai_os.Base.{
  ◌+◌, ◌≤◌, ◌^◌, ◌≡◌, ◌≢◌, inl, inr, true, false, Option, none, some, [], ◌∷◌, ◌++◌, arith,
  Bool-cases, ℤ, pos, minus_one, eq_ℤ, eq_ℤ_of_ne, is_neg, length, lt-get_elem?,
}
use mai_os.Base.Text.{Text, codes}
use mai_os.Base.Decimal.{int_to_str}
use mai_os.Lab6.Zmq.{Zmq}
use mai_os.Lab6.HashMap.{HashMap}
use mai_os.Lab6.BTree
use mai_os.Lab6.BTree.{BTree, BTreeNode, no_node}
use mai_os.Lab6.BTree.Live.{live, IsValid, add-live}
use mai_os.Lab6.BTree.Find.{UniqueIds, Lacks, find-FirstOrNone}
use mai_os.Lab6.BTree.Ids.{add-UniqueIds}
use mai_os.Lab6.MqNode
use mai_os.Lab6.MqNode.{Message}
use mai_os.Lab6.Protocol.{code_ok}
use mai_os.Lab6.Run.{ok, lift, bind_ok}
use mai_os.Lab6.ControlNode.{
  Control, Env, print, gen_address, answer_count_push, rec_create, push_create, cmd_create, connect,
  push_all,
}

-- the node that `create` adds: the next two ports are its addresses
abbrev pub new_node : {z : Zmq} {h : HashMap} → Control z h → ℤ → ℤ → BTreeNode
new_node s id pid = record {
  id = id;
  pid = pid;
  main_address = some (codes "tcp://localhost:" ++ int_to_str (pos s.address_shift));
  ping_address = some (codes "tcp://localhost:" ++ int_to_str (pos (s.address_shift + 1)));
}

-- The tree, the chains of removals and the next port are as they were.
abbrev pub Same : {z : Zmq} {h : HashMap} → Control z h → Control z h → Type 0
Same s s' =
    (s'.tree ≡ s.tree) × (s'.remove_list ≡ s.remove_list) × (s'.address_shift ≡ s.address_shift)

module _ (z : Zmq) (h : HashMap) where
  pub push_all-Same : (s s' : Control z h) (m : Message) → push_all z h s m ≡ ok s' → Same s s'
  push_all-Same s s' m e =
      let (w, e₁, e₂) = bind_ok (lift (MqNode.push_all z s.mq m s.world)) _ e in ground arith

  pub connect-Same :
      (s s' : Control z h) (id : ℤ) (main ping : Option Text)
      → connect z h s id main ping ≡ ok s'
      → Same s s'
  connect-Same s s' id main ping e =
      let (r, e₁, e₂) = bind_ok (lift (MqNode.connect z s.mq id main ping s.world)) _ e in
      ground arith

  rec_create-Same :
      (s s' : Control z h) (id : ℤ)
      → rec_create z h s id code_ok (codes "OK") (pos 0) ≡ ok s'
      → Same s s'
  unfolding rec_create
  rec_create-Same s s' id e =
      let (created, e₁, e₂) = bind_ok (lift (BTree.find s.tree id)) _ e in ground arith

module _ (z : Zmq) (h : HashMap) (env : Env) where
  push_create-Same :
      (s s' : Control z h) (id parent_id : ℤ) (main ping : Text)
      → push_create z h env s id parent_id main ping ≡ ok s'
      → Same s s'
  unfolding push_create answer_count_push
  push_create-Same s s' id parent_id main ping e = elim (Bool-cases (eq_ℤ parent_id s.c_node.id)) [
    | inl own ↦
        let (s₁, e₁, e₂) =
          bind_ok (connect z h s id (some main) (some ping))
            (λ s. rec_create z h s id code_ok (codes "OK") (pos 0)) {b = s'} (ground arith) in
        ground (
          arith,
          connect-Same z h s s₁ id (some main) (some ping) e₁,
          rec_create-Same z h s₁ s' id e₂,
        )
    | inr other ↦ ground (
      arith,
      push_all-Same z h
          (answer_count_push z h (record s { drawn = s.drawn + 1 }) (env.uuid s.drawn)) s'
          (some (env.uuid s.drawn)
            ∷ some (codes "create")
            ∷ some (int_to_str id)
            ∷ some (int_to_str parent_id)
            ∷ some main
            ∷ some ping
            ∷ none
            ∷ []),
    )
  ]

  -- No process is created for an identifier that the tree has: the command prints an error and
  -- changes nothing else.
  pub cmd_create-known :
      (s : Control z h) (id pid : ℤ) (x : BTreeNode)
      → BTree.find s.tree id ≡ some x
      → x.pid ≢ minus_one
      → cmd_create z h env s id pid ≡ ok (print z h s (codes "Error: Already exists\n"))
  unfolding cmd_create
  cmd_create-known s id pid x e ne =
      let old : eq_ℤ x.pid minus_one ≡ false = eq_ℤ_of_ne x.pid minus_one ne in rw (e, old)

  find-absent :
      (t : BTree) (id : ℤ)
      → IsValid t
      → Lacks id (live t) (length (live t))
      → BTree.find t id ≡ some no_node
  find-absent t id v lacks = elim (find-FirstOrNone t id v) [
    | inl (e, none_there) ↦ e
    | inr (j, x, e, at, same, before) ↦ absurd (lacks j x (lt-get_elem? (live t) j at) at same)
  ]

  create_pushes :
      (s s' : Control z h) (id pid : ℤ)
      → BTree.find s.tree id ≡ some no_node
      → cmd_create z h env s id pid ≡ ok s'
      → let t = (BTree.add env.grants env.junk s.tree (new_node s id pid)).0 in
        let s₁ : Control z h = record s { address_shift = s.address_shift + 1 + 1; tree = t } in
        (parent : BTreeNode) × (push_create z h env s₁ id parent.id
            (codes "tcp://localhost:" ++ int_to_str (pos s.address_shift))
            (codes "tcp://localhost:" ++ int_to_str (pos (s.address_shift + 1)))
          ≡ ok s')
  unfolding cmd_create gen_address
  create_pushes s s' id pid found e =
      let t = (BTree.add env.grants env.junk s.tree (new_node s id pid)).0 in
      let s₁ : Control z h = record s { address_shift = s.address_shift + 1 + 1; tree = t } in
      let push = λ (parent : BTreeNode).
        push_create z h env s₁ id parent.id
          (codes "tcp://localhost:" ++ int_to_str (pos s.address_shift))
          (codes "tcp://localhost:" ++ int_to_str (pos (s.address_shift + 1))) in
      elim (Bool-cases (is_neg pid)) [
        | inl bad ↦ absurd (ground (arith, found))
        | inr good ↦
            let (parent, e₁, e₂) =
              bind_ok (lift (BTree.last_elem_parent t)) push {b = s'} (ground (arith, found)) in
            (parent, e₂)
      ]

  -- A create command that goes through for an identifier that no node has, with the array of the
  -- tree able to take a node, puts a node with the identifier, the process of fork and the
  -- addresses of the next two ports behind the other nodes, which stay as they are; the tree
  -- stays valid, identifiers stay unique, two ports are used up and the list of removals is as
  -- it was.
  pub cmd_create-live :
      (s s' : Control z h) (id pid : ℤ)
      → IsValid s.tree
      → s.tree.size ≤ 2 ^ 57
      → UniqueIds (live s.tree)
      → Lacks id (live s.tree) (length (live s.tree))
      → (BTree.add env.grants env.junk s.tree (new_node s id pid)).1 ≡ true
      → cmd_create z h env s id pid ≡ ok s'
      → IsValid s'.tree
        × (live s'.tree ≡ live s.tree ++ (new_node s id pid ∷ []))
        × UniqueIds (live s'.tree)
        × (s'.address_shift ≡ s.address_shift + 2)
        × (s'.remove_list ≡ s.remove_list)
  cmd_create-live s s' id pid v small unique lacks done e =
      let n = new_node s id pid in
      let (parent, pushed) = create_pushes s s' id pid (find-absent s.tree id v lacks) e in
      let (tree, list, shift) = push_create-Same _ s' id parent.id _ _ pushed in
      let (valid, nodes) = add-live env.grants env.junk s.tree n v small done in
      (
        rw tree valid,
        rw tree nodes,
        rw tree (add-UniqueIds env.grants env.junk s.tree n v small done unique lacks),
        omega arith,
        list,
      )
