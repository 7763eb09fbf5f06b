-- ===== src/Lab6/ControlNode/Chain.antt =====
-- lab6/control_node.c: the removal of a node as a chain of commands. cmd_remove writes the chain,
-- push_next_remove sends its next command or carries it out on the own sockets, and rec_remove
-- takes the answer, which calls push_next_remove again.
use mai_os.Base.{
  ℕ, zero, suc, ◌+◌, ltb, Bool, false, ◌&&◌, ◌||◌, Option, none, some, List, [], ◌∷◌, ◌++◌, ℤ, pos,
  eq_ℤ, is_pos, if◌then◌else◌, set,
}
use mai_os.Base.Text.{Text, codes, str_eq}
use mai_os.Base.Decimal.{int_to_str, str_to_int, strtol}
use mai_os.Lab6.Zmq.{Zmq}
use mai_os.Lab6.HashMap.{HashMap}
use mai_os.Lab6.BTree
use mai_os.Lab6.BTree.{BTree, BTreeNode}
use mai_os.Lab6.MqNode.{Message}
use mai_os.Lab6.Protocol.{code_ok, code_error_not_found, code_error_custom, cell}
use mai_os.Lab6.Run.{Run, ok, fault, out_of_fuel, ◌>>=◌, lift}
use mai_os.Lab6.ControlNode.{
  Control, Env, waited, RemoveStruct, log, print, answer_count_push, push_all, connect, close,
  gen_uuid,
}

-- The array of commands from the one that has `now` ended commands before it. A loop past the end
-- of the array is a fault.
unfoldable pub seek : ℕ → Message → Run Message
seek zero commands = ok commands
seek (suc now) [] = fault
seek (suc now) (none ∷ commands) = seek now commands
seek (suc now) (some t ∷ commands) = seek (suc now) commands

-- `!strcmp(command, commands[i]) && !strcmp(str_id, commands[i + 1])`, where NULL is a fault
unfoldable pub matches : Text → Text → Message → Run Bool
matches command str_id at = do
  c ← lift (cell at 0)
  if str_eq command c then (do i ← lift (cell at 1); ok (str_eq str_id i)) else ok false

-- How the search of `remove_list` ends: at an element, or past all, with the one read last.
pub data Found : Type 0 where
  element : ℕ → RemoveStruct → Found
  none_after : Option RemoveStruct → Found

unfoldable pub find_command : Text → Text → ℕ → Option RemoveStruct → List RemoveStruct → Run Found
find_command command str_id i last [] = ok (none_after last)
find_command command str_id i last (rs ∷ rest) = do
  at ← seek rs.now_command rs.commands
  hit ← matches command str_id at
  let tail = find_command command str_id (i + 1) (some rs) rest
  if hit then ok (element i rs) else tail

-- list_iter_remove at an element
unfoldable pub remove_at : List RemoveStruct → ℕ → List RemoveStruct
remove_at [] i = []
remove_at (x ∷ xs) zero = xs
remove_at (x ∷ xs) (suc i) = x ∷ remove_at xs i

-- a string, or NULL, as an argument of strtol
abbrev pub number : Option Text → Run ℤ
number none = fault
number (some t) = ok (str_to_int t)

module _ (z : Zmq) (h : HashMap) where
  -- the end of a chain: the process is reaped, and the tree loses the node
  unfoldable pub finish_remove : Control z h → RemoveStruct → Run (Control z h)
  finish_remove s rs = do
    let key = int_to_str rs.remove_node_id
    node ← lift (BTree.find s.tree rs.remove_node_id)
    (r, t) ← lift (BTree.remove s.tree rs.remove_node_id)
    let pings : h.Map = elim (h.get s.nodes_ping_map key) [
      | none ↦ s.nodes_ping_map
      | some v ↦ h.remove s.nodes_ping_map key
    ]
    ok (
        print z h (record (log z h s (waited node.pid)) { tree = t; nodes_ping_map = pings })
          (codes "Ok\n"))

  abbrev pub failed_text : Text → Text → Text → Text
  failed_text command str_id answer =
      codes "Error: Failed to "
      ++ (command ++ (codes " " ++ (str_id ++ (codes ": " ++ (answer ++ codes "\n")))))

  -- What the answer does with the element at index `i`; `next` is push_next_remove.
  unfoldable pub answered :
      (Control z h → RemoveStruct → Run (Control z h))
      → Control z h
      → Text
      → Text
      → ℤ
      → Text
      → ℤ
      → ℕ
      → RemoveStruct
      → Run (Control z h)
  answered next s command str_id code answer count_answers i rs =
      let rs' : RemoveStruct = record rs { now_command = rs.now_command + 1 } in
      let removed : Control z h = record s { remove_list = remove_at s.remove_list i } in
      if eq_ℤ code code_error_not_found && eq_ℤ count_answers (pos 0) || eq_ℤ code code_error_custom
      then ok (print z h removed (failed_text command str_id answer))
      else if eq_ℤ code code_ok
      then (if ltb rs'.now_command rs.number_commands
          then next (record s { remove_list = set s.remove_list i rs' }) rs'
          else finish_remove removed rs')
      else ok (record s { remove_list = set s.remove_list i rs' })

  -- The search ran past the list: the next command of the element read last is sent, or the node
  -- of the list itself is freed, which is a fault, as is the use of a value that was never read.
  unfoldable pub unanswered :
      (Control z h → RemoveStruct → Run (Control z h))
      → Control z h
      → ℤ
      → ℤ
      → Option RemoveStruct
      → Run (Control z h)
  unanswered next s code count_answers none = fault
  unanswered next s code count_answers (some rs) =
      let rs' : RemoveStruct = record rs { now_command = rs.now_command + 1 } in
      if eq_ℤ code code_error_not_found && eq_ℤ count_answers (pos 0) || eq_ℤ code code_error_custom
      then fault
      else if eq_ℤ code code_ok
      then (if ltb rs'.now_command rs.number_commands then next s rs' else fault)
      else ok s

  unfoldable pub rec_remove_with :
      (Control z h → RemoveStruct → Run (Control z h))
      → Control z h
      → Text
      → ℤ
      → ℤ
      → Text
      → ℤ
      → Run (Control z h)
  rec_remove_with next s command id code answer count_answers =
      if eq_ℤ code code_error_not_found && is_pos count_answers then ok s else (do
        let str_id = int_to_str id
        found ← find_command command str_id 0 none s.remove_list
        elim found [
          | element i rs ↦ answered next s command str_id code answer count_answers i rs
          | none_after last ↦
              unanswered next (print z h s (codes "Error: Not found in remove_list\n")) code
                count_answers last
        ])

  module _ (env : Env) where
    -- a command that goes to the processes
    abbrev pub send_command : Control z h → Text → Text → Message → Run (Control z h)
    send_command s uuid cmd operands =
        push_all z h (answer_count_push z h s uuid) (some uuid ∷ some cmd ∷ operands)

    -- A command that this process carries out itself is answered at once, by the recursive call.
    unfoldable pub push_next_remove : ℕ → Control z h → RemoveStruct → Run (Control z h)
    push_next_remove zero s rms = out_of_fuel
    push_next_remove (suc fuel) s rms = do
      at ← seek rms.now_command rms.commands
      cmd ← lift (cell at 0)
      let (uuid, s₁) = gen_uuid z h env s
      let done = λ (s : Control z h) (id : ℤ).
          rec_remove_with (push_next_remove fuel) s cmd id code_ok (codes "OK") (pos 0)
      if str_eq cmd (codes "remove")
          then send_command s₁ uuid cmd (cell at 1 ∷ none ∷ none ∷ none ∷ none ∷ [])
          else if str_eq cmd (codes "disconnect")
          then (do
            node_id ← number (cell at 1)
            if eq_ℤ s.mq.left_child_id node_id || eq_ℤ s.mq.right_child_id node_id
                then (do s₂ ← close z h s₁ node_id; done s₂ node_id)
                else send_command s₁ uuid cmd (cell at 1 ∷ none ∷ none ∷ none ∷ none ∷ []))
          else if str_eq cmd (codes "connect")
          then (do
            node_id ← number (cell at 1)
            parent_id ← lift (cell at 2)
            if eq_ℤ (strtol parent_id) s.c_node.id
                then (do s₂ ← connect z h s₁ node_id (cell at 3) (cell at 4); done s₂ node_id)
                else send_command s₁ uuid cmd
                    (cell at 1 ∷ cell at 2 ∷ cell at 3 ∷ cell at 4 ∷ none ∷ []))
          else if str_eq cmd (codes "ping")
          then (do
            ping_id ← lift (cell at 1)
            if eq_ℤ s.c_node.id (strtol ping_id)
                then done s₁ s.c_node.id
                else send_command s₁ uuid cmd (cell at 1 ∷ none ∷ none ∷ none ∷ none ∷ []))
          else send_command s₁ uuid cmd (none ∷ none ∷ none ∷ none ∷ none ∷ [])

    -- rec_remove, the local answers included
    unfoldable pub rec_remove : ℕ → Control z h → Text → ℤ → ℤ → Text → ℤ → Run (Control z h)
    rec_remove fuel = rec_remove_with (push_next_remove fuel)
