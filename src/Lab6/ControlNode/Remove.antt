-- ===== src/Lab6/ControlNode/Remove.antt =====
-- lab6/control_node.c: cmd_remove writes the chain of commands that takes a node out of the tree.
pub mod Plan
pub mod Start
use mai_os.Base.{
  ℕ, suc, ◌+◌, Bool, true, false, ◌&&◌, not, Option, none, some, List, [], ◌∷◌, ◌++◌, ℤ, minus_one,
  eq_ℤ, if◌then◌else◌,
}
use mai_os.Base.Text.{Text, codes}
use mai_os.Base.Decimal.{int_to_str}
use mai_os.Lab6.Zmq.{Zmq}
use mai_os.Lab6.HashMap.{HashMap}
use mai_os.Lab6.BTree
use mai_os.Lab6.BTree.{BTree, BTreeNode}
use mai_os.Lab6.MqNode.{Message}
use mai_os.Lab6.Run.{Run, ok, ◌>>=◌, lift}
use mai_os.Lab6.ControlNode.{Control, Env, RemoveStruct, print}
use mai_os.Lab6.ControlNode.Chain.{push_next_remove}

-- the chain for the last node of the array
unfoldable pub last_chain : BTreeNode → RemoveStruct
last_chain removed =
    let str_id = int_to_str removed.id in
    record {
      len_commands = 6;
      remove_node_id = removed.id;
      commands =
          some (codes "remove")
          ∷ some str_id
          ∷ none
          ∷ some (codes "disconnect")
          ∷ some str_id
          ∷ none
          ∷ [];
      number_commands = 2;
      now_command = 0;
    }

-- a son that the last node has to take over
abbrev pub takes_over : BTreeNode → BTreeNode → Bool
takes_over last son = not (eq_ℤ son.id last.id) && not (eq_ℤ son.id minus_one)

abbrev pub count : Bool → ℕ
count false = 0
count true = 1

abbrev pub connect_command : Text → Text → BTreeNode → Message → Message
connect_command id parent_id node rest =
    some (codes "connect")
    ∷ some id
    ∷ some parent_id
    ∷ node.main_address
    ∷ node.ping_address
    ∷ none
    ∷ rest

-- The chain for any other node, which the last node replaces: `removed`, the last node, the parent
-- and the two sons of `removed`.
unfoldable pub replace_chain :
    BTreeNode → BTreeNode → BTreeNode → BTreeNode → BTreeNode → RemoveStruct
replace_chain removed last parent left right =
    let remove_id = int_to_str removed.id in
    let last_id = int_to_str last.id in
    record {
      len_commands = 31;
      remove_node_id = removed.id;
      commands =
          some (codes "ping")
          ∷ some remove_id
          ∷ none
          ∷ some (codes "disconnect")
          ∷ some last_id
          ∷ none
          ∷ some (codes "remove")
          ∷ some remove_id
          ∷ none
          ∷ some (codes "disconnect")
          ∷ some remove_id
          ∷ none
          ∷ connect_command last_id (int_to_str parent.id) last (
              connect_command (int_to_str left.id) last_id left
                (connect_command (int_to_str right.id) last_id right []));
      number_commands = 5 + count (takes_over last left) + count (takes_over last right);
      now_command = 0;
    }

module _ (z : Zmq) (h : HashMap) (env : Env) where
  -- The chain goes to the front of the list, and its first command is sent; `fuel` bounds the
  -- commands that this process carries out itself.
  unfoldable pub start_chain : ℕ → Control z h → RemoveStruct → Run (Control z h)
  start_chain fuel s rms =
      push_next_remove z h env fuel (record s { remove_list = rms ∷ s.remove_list }) rms

  unfoldable pub cmd_remove : ℕ → Control z h → ℤ → Run (Control z h)
  cmd_remove fuel s id = do
    removed ← lift (BTree.find s.tree id)
    if eq_ℤ removed.pid minus_one
        then ok (print z h s (codes "Error: Not found\n"))
        else if eq_ℤ removed.pid s.c_node.pid
        then ok (print z h s (codes "Error: The control removed_node cannot be deleted\n"))
        else (do
          last ← lift (BTree.last_elem s.tree)
          left ← lift (BTree.get_left s.tree id)
          right ← lift (BTree.get_right s.tree id)
          parent ← lift (BTree.get_parent s.tree id)
          start_chain fuel s (
              if eq_ℤ last.id removed.id
              then last_chain removed
              else replace_chain removed last parent left right))
