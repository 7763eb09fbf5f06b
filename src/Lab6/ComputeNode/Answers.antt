-- ===== src/Lab6/ComputeNode/Answers.antt =====
-- What the process above reads of the answers of compute_node.c.
use mai_os.Base.{ℕ, ◌≡◌, ◌≢◌, Option, none, some, List, [], ◌∷◌, ◌++◌, ℤ}
use mai_os.Base.Text.{Text, codes, str_eq_refl, str_eq_of_ne}
use mai_os.Base.Decimal.{int_to_str}
use mai_os.Lab6.Zmq.{Zmq, PairLaws}
use mai_os.Lab6.HashMap.{HashMap}
use mai_os.Lab6.MqNode
use mai_os.Lab6.MqNode.{Message}
use mai_os.Lab6.MqNode.Frames.{parts, push-waiting}
use mai_os.Lab6.Protocol.{code_ok, code_error_not_found, error_not_found, cell}
use mai_os.Lab6.ComputeNode.{
  ComputeNode, running, Result, after, reply_with, reply_ok, reply_not_found, push_next, cmd_ping,
  cmd_remove, cmd_exec,
}

-- The process goes on as it was, and one message of five parts more waits for the process above.
abbrev pub Answers :
    (z : Zmq) (h : HashMap) (n : ComputeNode z h) (dst : Option z.Socket)
    → PairLaws z n.mq.main_socket dst
    → z.World
    → Text
    → List Text
    → Result z h
    → Type 0
Answers z h n dst laws w t ts r =
    (w' : z.World) × (r ≡ some (running n w')) × (laws.waiting w' ≡ laws.waiting w ++ parts t ts)

module _ (z : Zmq) (h : HashMap) (n : ComputeNode z h) (dst : Option z.Socket)
    (laws : PairLaws z n.mq.main_socket dst) (message : Message) (uuid command : Text)
    (uuid_at : cell message 0 ≡ some uuid) (command_at : cell message 1 ≡ some command) where
  reply_with-Answers :
      (node_id : Text) (code : ℤ) (text : Text) (w : z.World)
      → Answers z h n dst laws w uuid (command ∷ node_id ∷ int_to_str code ∷ text ∷ []) (
          after z h n
            (reply_with z h n (cell message 0) (cell message 1) (some node_id) code text w))
  unfolding reply_with MqNode.reply
  reply_with-Answers node_id code text w =
      let (w', pushed, wait) =
        push-waiting z n.mq.main_socket dst laws uuid
          (command ∷ node_id ∷ int_to_str code ∷ text ∷ []) [] w in
      (w', rw (uuid_at, command_at, pushed), wait)

  -- A ping that names the process is answered with exactly one message of five parts, with code
  -- 1 and "OK", on its connection to the process above, and the process goes on unchanged, under
  -- the laws of two connected sockets.
  pub cmd_ping-Answers :
      (w : z.World)
      → cell message 2 ≡ some n.node_id
      → Answers z h n dst laws w uuid
          (command ∷ n.node_id ∷ codes "1" ∷ codes "OK" ∷ [])
          (cmd_ping z h n message w)
  unfolding cmd_ping reply_ok int_to_str
  cmd_ping-Answers w id =
      let (w', e, wait) = reply_with-Answers n.node_id code_ok (codes "OK") w in
      (w', rw (id, str_eq_refl n.node_id) e, wait)

  push_next-leaf :
      (w : z.World)
      → n.mq.left_child_main_socket ≡ none
      → n.mq.right_child_main_socket ≡ none
      → push_next z h n message w
        ≡ reply_with z h n
            (cell message 0)
            (cell message 1)
            (cell message 2)
            code_error_not_found
            error_not_found
            w
  unfolding push_next reply_not_found
  push_next-leaf w left right = rw (left, right)

  -- A process without sons answers a ping, remove or exec that names another process with
  -- exactly one message of five parts, with code 2 and "Not found", on its connection to the
  -- process above, and goes on unchanged, under the laws of two connected sockets.
  pub leaf-Answers :
      (w : z.World) (size : ℕ) (node_id : Text)
      → cell message 2 ≡ some node_id
      → node_id ≢ n.node_id
      → n.mq.left_child_main_socket ≡ none
      → n.mq.right_child_main_socket ≡ none
      → let missing =
          Answers z h n dst laws w uuid (command ∷ node_id ∷ codes "2" ∷ error_not_found ∷ []) in
        missing (cmd_ping z h n message w)
        × missing (cmd_remove z h n message w)
        × missing (cmd_exec z h n message size w)
  unfolding cmd_ping cmd_remove cmd_exec int_to_str
  leaf-Answers w size node_id id ne left right =
      let (w', e, wait) = reply_with-Answers node_id code_error_not_found error_not_found w in
      let other = str_eq_of_ne node_id n.node_id ne in
      let sent : after z h n (push_next z h n message w) ≡ some (running n w') =
        rw (push_next-leaf w left right, id) e in
      (
        (w', rw (id, other) sent, wait),
        (w', rw (id, other) sent, wait),
        (w', rw (id, other) sent, wait),
      )
