-- ===== src/Lab6/ComputeNode.antt =====
-- lab6/compute_node.c: a process of the tree. It answers what is meant for it and passes the rest
-- on. A handler returns `none` where the C code fails an assertion, reads a NULL string or leaves
-- an array.
pub mod Loop
mod Tests
pub mod Answers
pub mod Exec
pub mod Keeps
use mai_os.Base.{
  ℕ, zero, suc, ◌==◌, ltb, ◌≡◌, Bool, true, false, not, ◌&&◌, ◌||◌, Option, none, some, List, [],
  ◌∷◌, ◌++◌, ◌>>=◌, ℤ, pos, minus_one, eq_ℤ, if◌then◌else◌, replicate,
}
use mai_os.Base.Text.{Text, codes, str_eq, starts_with}
use mai_os.Base.Decimal.{int_to_str, str_to_int}
use mai_os.Lab6.Zmq.{Zmq}
use mai_os.Lab6.HashMap.{HashMap, PutResult, stored, exists, failed}
use mai_os.Lab6.MqNode
use mai_os.Lab6.MqNode.{MqNode, Message}
use mai_os.Lab6.Protocol.{error_not_found, code_ok, code_error_not_found, code_error_custom, cell}

-- NODE_ID, COMPUTE_NODE and CHI_MAP
pub record ComputeNode (z : Zmq) (h : HashMap) : Type 0 where
  pub node_id : Text
  pub mq : MqNode z
  pub chi_map : h.Map

pub data Outcome (z : Zmq) (h : HashMap) : Type 0 where
  running : ComputeNode z h → z.World → Outcome z h
  exited : z.World → Outcome z h

abbrev pub is_there {ℓ} : {A : Type ℓ} → Option A → Bool
is_there none = false
is_there (some a) = true

module _ (z : Zmq) (h : HashMap) where
  abbrev pub Node : Type 0
  Node = ComputeNode z h

  abbrev pub Result : Type 0
  Result = Option (Outcome z h)

  -- the answer of five parts to the process above
  abbrev pub answer : Option Text → Option Text → Option Text → ℤ → Text → Message
  answer uuid command node_id code text =
      uuid ∷ command ∷ node_id ∷ some (int_to_str code) ∷ some text ∷ none ∷ []

  unfoldable pub reply_with :
      Node → Option Text → Option Text → Option Text → ℤ → Text → z.World → Option z.World
  reply_with n uuid command node_id code text w =
      MqNode.reply z n.mq (answer uuid command node_id code text) w

  unfoldable pub reply_not_found :
      Node → Option Text → Option Text → Option Text → z.World → Option z.World
  reply_not_found n uuid command node_id w =
      reply_with n uuid command node_id code_error_not_found error_not_found w

  unfoldable pub reply_ok :
      Node → Option Text → Option Text → Option Text → z.World → Option z.World
  reply_ok n uuid command node_id w = reply_with n uuid command node_id code_ok (codes "OK") w

  unfoldable pub push_next : Node → Message → z.World → Option z.World
  push_next n message w =
      if is_there n.mq.left_child_main_socket || is_there n.mq.right_child_main_socket
      then MqNode.push_all z n.mq message w
      else reply_not_found n (cell message 0) (cell message 1) (cell message 2) w

  -- a handler that only sends
  abbrev pub after : Node → Option z.World → Result
  after n sent = sent >>= λ w. some (running n w)

  unfoldable pub cmd_connect : Node → Message → z.World → Result
  cmd_connect n message w = do
    parent_id ← cell message 3
    if str_eq n.node_id parent_id
        then (do
          node_id ← cell message 2
          (mq, w) ← MqNode.connect z n.mq (str_to_int node_id) (cell message 4) (cell message 5) w
          let n' : Node = record n { mq = mq }
          after n' (reply_ok n' (cell message 0) (cell message 1) (some node_id) w))
        else (do
          node_id ← cell message 2
          if str_eq n.node_id node_id then some (running n w) else after n (push_next n message w))

  unfoldable pub cmd_remove : Node → Message → z.World → Result
  cmd_remove n message w = do
    node_id ← cell message 2
    if str_eq node_id n.node_id
        then (do
          w ← reply_ok n (cell message 0) (cell message 1) (some node_id) w
          (mq, w) ← MqNode.destroy z n.mq w
          some (exited w))
        else after n (push_next n message w)

  -- `exec` with four parts reads a value
  unfoldable pub exec_get : Node → Message → Text → z.World → Result
  exec_get n message node_id w = do
    name ← cell message 3
    let found : Option ℤ = h.get n.chi_map name
    after n (elim found [
      | none ↦
          reply_with n (cell message 0) (cell message 1) (some node_id) code_error_custom
            (name ++ codes " not found") w
      | some v ↦
          reply_with n (cell message 0) (cell message 1) (some node_id) code_ok (int_to_str v) w
    ])

  abbrev pub put_answer : PutResult → ℤ × Text
  put_answer stored = (code_ok, [])
  put_answer exists = (code_error_custom, codes "Already exists")
  put_answer failed = (code_error_custom, codes "Unknown error")

  unfoldable pub exec_set : Node → Message → Text → z.World → Result
  exec_set n message node_id w = do
    value ← cell message 4
    name ← cell message 3
    let (res, m) = h.put n.chi_map name (str_to_int value)
    let (code, text) = put_answer res
    let n' : Node = record n { chi_map = m }
    after n' (reply_with n' (cell message 0) (cell message 1) (some node_id) code text w)

  unfoldable pub cmd_exec : Node → Message → ℕ → z.World → Result
  cmd_exec n message size_message w = do
    node_id ← cell message 2
    if str_eq node_id n.node_id
        then (if size_message == 4
            then exec_get n message node_id w
            else exec_set n message node_id w)
        else after n (push_next n message w)

  unfoldable pub cmd_ping : Node → Message → z.World → Result
  cmd_ping n message w = do
    node_id ← cell message 2
    after n (
        if str_eq node_id n.node_id
        then reply_ok n (cell message 0) (cell message 1) (some node_id) w
        else push_next n message w)

  unfoldable pub cmd_disconnect : Node → Message → z.World → Result
  cmd_disconnect n message w = do
    node_id ← cell message 2
    let int_node_id = str_to_int node_id
    if eq_ℤ n.mq.left_child_id int_node_id || eq_ℤ n.mq.right_child_id int_node_id
        then (do
          (mq, w) ← MqNode.close z n.mq int_node_id w
          let n' : Node = record n { mq = mq }
          after n' (reply_ok n' (cell message 0) (cell message 1) (some node_id) w))
        else after n (push_next n message w)
