-- ===== src/Lab6/ComputeNode/Loop.antt =====
-- The loop of main in lab6/compute_node.c: each round looks at the six sockets of the process.
use mai_os.Base.{ℕ, ◌==◌, ◌||◌, Option, none, some, List, [], ◌∷◌, ◌>>=◌, if◌then◌else◌, replicate}
use mai_os.Base.Text.{Text, codes, starts_with}
use mai_os.Lab6.Zmq.{Zmq}
use mai_os.Lab6.HashMap.{HashMap}
use mai_os.Lab6.MqNode
use mai_os.Lab6.MqNode.{Message}
use mai_os.Lab6.Protocol.{cell}
use mai_os.Lab6.ComputeNode.{
  ComputeNode, running, exited, Result, after, cmd_exec, cmd_ping, cmd_remove, cmd_connect,
  cmd_disconnect,
}

-- clean_buffer on an array: everything before the first NULL is freed; an array with no NULL is
-- left by the loop.
unfoldable pub clean_buffer : Message → Option Message
clean_buffer [] = none
clean_buffer (none ∷ rest) = some (none ∷ rest)
clean_buffer (some t ∷ rest) = clean_buffer rest >>= λ r. some (none ∷ r)

module _ (z : Zmq) (h : HashMap) where
  -- the tests of the loop of main on the command, in their order
  unfoldable pub dispatch : ComputeNode z h → Message → ℕ → z.World → Result z h
  dispatch n message size w = do
    command ← cell message 1
    if starts_with command (codes "exec")
        then cmd_exec z h n message size w
        else if starts_with command (codes "ping")
        then cmd_ping z h n message w
        else if starts_with command (codes "remove")
        then cmd_remove z h n message w
        else if starts_with command (codes "connect") || starts_with command (codes "create")
        then cmd_connect z h n message w
        else if starts_with command (codes "disconnect")
        then cmd_disconnect z h n message w
        else some (running n w)

  abbrev pub no_message : Message
  no_message = replicate 7 none

  -- What a round of the loop does with one socket: the parts that are waiting, if any, go to the
  -- handler, and the buffer is cleaned.
  unfoldable pub poll :
      Option z.Socket
      → (Message → ℕ → z.World → Result z h)
      → ComputeNode z h
      → z.World
      → Result z h
  poll socket handle n w = do
    (size, buffer, w) ← MqNode.receive z socket no_message w
    if size == 0 then some (running n w) else (do
      outcome ← handle buffer size w
      elim outcome [
        | exited w ↦ some (exited w)
        | running n w ↦ clean_buffer buffer >>= λ _. some (running n w)
      ])

  -- the next part of the round, unless the process has exited
  infixl 5 ◌and_then◌
  unfoldable pub ◌and_then◌ : Result z h → (ComputeNode z h → z.World → Result z h) → Result z h
  none and_then k = none
  some (exited w) and_then k = some (exited w)
  some (running n w) and_then k = k n w

  -- A ping is answered with "pong" and the own identifier, and goes on to the sons.
  unfoldable pub answer_ping : ComputeNode z h → Message → z.World → Option z.World
  answer_ping n buffer w = do
    w ← MqNode.push z n.mq.ping_socket (some (codes "pong") ∷ some n.node_id ∷ none ∷ []) w
    w ← MqNode.push_if z n.mq.left_child_ping_socket buffer w
    MqNode.push_if z n.mq.right_child_ping_socket buffer w

  -- one round of the loop of main
  unfoldable pub round : ComputeNode z h → z.World → Result z h
  round n w =
      poll n.mq.main_socket (dispatch n) n w
      and_then (λ n w.
          poll n.mq.left_child_main_socket (λ b s w. after z h n (MqNode.reply z n.mq b w)) n w)
      and_then (λ n w.
          poll n.mq.right_child_main_socket (λ b s w. after z h n (MqNode.reply z n.mq b w)) n w)
      and_then (λ n w. poll n.mq.ping_socket (λ b s w. after z h n (answer_ping n b w)) n w)
      and_then (λ n w.
          poll n.mq.left_child_ping_socket
            (λ b s w. after z h n (MqNode.push z n.mq.ping_socket b w)) n w)
      and_then (λ n w.
          poll n.mq.right_child_ping_socket
            (λ b s w. after z h n (MqNode.push z n.mq.ping_socket b w)) n w)

  -- main, up to the loop
  unfoldable pub start : List Text → z.World → Option (ComputeNode z h × z.World)
  start (prog ∷ id ∷ main_address ∷ ping_address ∷ []) w =
      let (mq, w₁) = MqNode.init z w in
      do
        w₂ ← MqNode.bind z mq (some main_address) (some ping_address) w₁
        some (record { node_id = id; mq = mq; chi_map = h.empty }, w₂)
  start argv w = none
