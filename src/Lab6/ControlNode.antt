-- ===== src/Lab6/ControlNode.antt =====
-- lab6/control_node.c: the process that the user talks to. Its global variables are a record, and
-- each function takes and returns that record. The child's side of fork is compute_node.c.
pub mod Chain
mod Tests
pub mod Create
pub mod Requests
pub mod Remove
pub mod Fuel
pub mod Receive
use mai_os.Base.{
  ℕ, zero, suc, ◌+◌, ◌/◌, ◌==◌, leb, Bool, true, false, ◌&&◌, ◌||◌, not, Option, none, some, List,
  [], ◌∷◌, ◌++◌, ℤ, pos, minus_one, is_neg, eq_ℤ, to_int, if◌then◌else◌,
}
use mai_os.Base.Text.{Text, codes}
use mai_os.Base.Decimal.{int_to_str}
use mai_os.Lab6.Zmq.{Zmq}
use mai_os.Lab6.HashMap.{HashMap}
use mai_os.Lab6.BTree
use mai_os.Lab6.BTree.{BTree, BTreeNode}
use mai_os.Lab6.MqNode
use mai_os.Lab6.MqNode.{MqNode, Message}
use mai_os.Lab6.Protocol.{code_ok, code_error_not_found, code_error_custom}
use mai_os.Lab6.Run.{Run, ok, fault, ◌>>=◌, lift}

-- What the process does besides sending messages.
pub data Event : Type 0 where
  printed : Text → Event
  killed : ℤ → Event
  waited : ℤ → Event

-- `remove_struct` of lab6/structures/rm_list.h: a chain of commands, each ended by NULL, and the
-- number of those that are to be carried out
pub record RemoveStruct : Type 0 where
  pub len_commands : ℕ
  pub remove_node_id : ℤ
  pub commands : Message
  pub number_commands : ℕ
  pub now_command : ℕ

-- `remove_list` is the sequence of its values, and `drawn` counts the calls of gen_uuid.
pub record Control (z : Zmq) (h : HashMap) : Type 0 where
  pub address_shift : ℕ
  pub tree : BTree
  pub c_node : BTreeNode
  pub mq : MqNode z
  pub heartbeat_time : ℤ
  pub answer_count_map : h.Map
  pub nodes_ping_map : h.Map
  pub remove_list : List RemoveStruct
  pub drawn : ℕ
  pub events : List Event
  pub world : z.World

-- What the process gets from elsewhere: the results of uuid_generate_random in order, the sizes
-- that the allocator grants to the tree, and what new cells of the array hold.
pub record Env : Type 0 where
  pub uuid : ℕ → Text
  pub grants : ℕ → Bool
  pub junk : BTreeNode

module _ (z : Zmq) (h : HashMap) where
  abbrev pub log : Control z h → Event → Control z h
  log s e = record s { events = s.events ++ (e ∷ []) }

  abbrev pub print : Control z h → Text → Control z h
  print s t = log s (printed t)

  -- the addresses for binding and for connecting
  unfoldable pub gen_address : Control z h → Text × Text × Control z h
  gen_address s =
      let port = int_to_str (pos s.address_shift) in
      (
        codes "tcp://*:" ++ port,
        codes "tcp://localhost:" ++ port,
        record s { address_shift = s.address_shift + 1 },
      )

  -- The answers that may come: one for each leaf of the tree.
  unfoldable pub answer_count_push : Control z h → Text → Control z h
  answer_count_push s uuid =
      let val = to_int (pos (BTree.add_size s.tree.size 1 / 2)) in
      record s { answer_count_map = (h.put s.answer_count_map uuid val).1 }

  abbrev pub push_all : Control z h → Message → Run (Control z h)
  push_all s message = do
    w ← lift (MqNode.push_all z s.mq message s.world)
    ok (record s { world = w })

  -- mqn_connect and mqn_close on CONTROL_NODE
  abbrev pub connect : Control z h → ℤ → Option Text → Option Text → Run (Control z h)
  connect s id main_address ping_address = do
    (mq, w) ← lift (MqNode.connect z s.mq id main_address ping_address s.world)
    ok (record s { mq = mq; world = w })

  abbrev pub close : Control z h → ℤ → Run (Control z h)
  close s id = do
    (mq, w) ← lift (MqNode.close z s.mq id s.world)
    ok (record s { mq = mq; world = w })

  unfoldable pub rec_create : Control z h → ℤ → ℤ → Text → ℤ → Run (Control z h)
  rec_create s id code answer count_answers =
      if eq_ℤ code code_error_not_found
      then ok (
          if eq_ℤ count_answers (pos 0)
          then print s (codes "Error:" ++ (int_to_str id ++ codes ": Node not found\n"))
          else s)
      else do
        created_node ← lift (BTree.find s.tree id)
        if eq_ℤ code code_error_custom
            then (do
              (r, t) ← lift (BTree.remove s.tree id)
              ok (
                  log (record (print s (codes "Error: " ++ (answer ++ codes "\n"))) { tree = t })
                    (killed created_node.pid)))
            else ok (
                if eq_ℤ code code_ok
                then print
                    (record s {
                      nodes_ping_map = (h.put s.nodes_ping_map (int_to_str id) (pos 0)).1;
                    })
                    (codes "Ok: " ++ (int_to_str created_node.pid ++ codes "\n"))
                else s)

  unfoldable pub rec_exec : Control z h → ℤ → ℤ → Text → ℤ → Control z h
  rec_exec s id code answer count_answers =
      if eq_ℤ code code_error_not_found && eq_ℤ count_answers (pos 0) || eq_ℤ code code_error_custom
      then print s (codes "Error:" ++ (int_to_str id ++ (codes ": " ++ (answer ++ codes "\n"))))
      else if eq_ℤ code code_ok
      then print s (codes "Ok:" ++ (int_to_str id ++ (codes ": " ++ (answer ++ codes "\n"))))
      else s

  module _ (env : Env) where
    abbrev pub gen_uuid : Control z h → Text × Control z h
    gen_uuid s = (env.uuid s.drawn, record s { drawn = s.drawn + 1 })

    unfoldable pub push_create : Control z h → ℤ → ℤ → Text → Text → Run (Control z h)
    push_create s id parent_id main_address ping_address =
        if eq_ℤ parent_id s.c_node.id
        then (connect s id (some main_address) (some ping_address) >>= λ s.
            rec_create s id code_ok (codes "OK") (pos 0))
        else let (uuid, s₁) = gen_uuid s in
          push_all (answer_count_push s₁ uuid) (
            some uuid
            ∷ some (codes "create")
            ∷ some (int_to_str id)
            ∷ some (int_to_str parent_id)
            ∷ some main_address
            ∷ some ping_address
            ∷ none
            ∷ [])

    -- `pid` is what fork returns to this process; the result of btree_add is not looked at.
    unfoldable pub cmd_create : Control z h → ℤ → ℤ → Run (Control z h)
    cmd_create s id pid = do
      known ← lift (BTree.find s.tree id)
      if not (eq_ℤ known.pid minus_one)
          then ok (print s (codes "Error: Already exists\n"))
          else (let (rep_main, req_main, s₁) = gen_address s in
              let (rep_ping, req_ping, s₂) = gen_address s₁ in
              let node : BTreeNode = record {
                id = id;
                pid = pid;
                main_address = some req_main;
                ping_address = some req_ping;
              } in
              let (t, done) = BTree.add env.grants env.junk s.tree node in
              if is_neg pid then fault else do
                parent ← lift (BTree.last_elem_parent t)
                push_create (record s₂ { tree = t }) id parent.id req_main req_ping)

    unfoldable pub cmd_exec : Control z h → Bool → ℤ → Text → ℤ → Run (Control z h)
    cmd_exec s is_set id name value = do
      node ← lift (BTree.find s.tree id)
      if eq_ℤ node.pid minus_one
          then ok (print s (codes "Error: Not found\n"))
          else if eq_ℤ node.pid s.c_node.pid
          then ok (print s (codes "Error: The control node cannot be computational\n"))
          else (let (uuid, s₁) = gen_uuid s in
              let s₂ = answer_count_push s₁ uuid in
              let request = λ (rest : Message).
                some uuid ∷ some (codes "exec") ∷ some (int_to_str id) ∷ some name ∷ rest in
              push_all s₂
                (request (if is_set then some (int_to_str value) ∷ none ∷ [] else none ∷ [])))

  -- Whether the heartbeat thread is to be started.
  unfoldable pub cmd_heartbeat : Control z h → ℤ → Bool × Control z h
  cmd_heartbeat s time =
      if is_neg time
      then (false, print s (codes "Error: time must be equal or greater than zero\n"))
      else if eq_ℤ time (pos 0)
      then (false, record (print s (codes "Heartbeat stopped\n")) { heartbeat_time = time })
      else (
        eq_ℤ s.heartbeat_time (pos 0),
        record (print s (codes "OK\n")) { heartbeat_time = time },
      )
