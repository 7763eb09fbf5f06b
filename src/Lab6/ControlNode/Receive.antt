-- ===== src/Lab6/ControlNode/Receive.antt =====
-- lab6/control_node.c: the thread that takes the answers, and the heartbeat.
use mai_os.Base.{
  ℕ, zero, suc, ltb, ◌==◌, Bool, ◌&&◌, ◌||◌, Option, none, some, List, [], ◌∷◌, ◌++◌, ℤ, pos, eq_ℤ,
  pred_ℤ, suc_ℤ, if◌then◌else◌, replicate,
}
use mai_os.Base.Text.{Text, codes, str_eq}
use mai_os.Lab6.Zmq.{Zmq}
use mai_os.Lab6.HashMap.{HashMap}
use mai_os.Lab6.MqNode
use mai_os.Lab6.MqNode.{Message}
use mai_os.Lab6.Protocol.{code_ok, code_error_not_found, code_error_custom, cell}
use mai_os.Lab6.Run.{Run, ok, out_of_fuel, ◌>>=◌, lift}
use mai_os.Lab6.ControlNode.{Control, Env, print, rec_create, rec_exec}
use mai_os.Lab6.ControlNode.Chain.{rec_remove, number}

-- an answer that ends the waiting for a request
abbrev pub is_final : ℤ → ℤ → Bool
is_final code count =
    (eq_ℤ code code_error_not_found && eq_ℤ count (pos 0))
    || (eq_ℤ code code_error_custom || eq_ℤ code code_ok)

-- the commands whose answers go to rec_remove
abbrev pub is_removal : Text → Bool
is_removal command =
    (str_eq command (codes "remove") || str_eq command (codes "ping"))
    || (str_eq command (codes "connect") || str_eq command (codes "disconnect"))

module _ (z : Zmq) (h : HashMap) (env : Env) (fuel : ℕ) where
  -- the calls of the functions for the answers
  unfoldable pub handle_answer : Control z h → Text → ℤ → ℤ → Text → ℤ → Run (Control z h)
  handle_answer s command id code answer count =
      if str_eq command (codes "create")
      then rec_create z h s id code answer count
      else if is_removal command
      then rec_remove z h env fuel s command id code answer count
      else if str_eq command (codes "exec")
      then ok (rec_exec z h s id code answer count)
      else ok (print z h s (codes "unknown command " ++ (command ++ codes "\n")))

  -- receive_process behind the look-up of the counter, which was at `waiting`
  unfoldable pub take_answer : Control z h → Text → ℤ → Message → Run (Control z h)
  take_answer s uuid waiting message = do
    let count = pred_ℤ waiting
    let s₁ : Control z h = record s { answer_count_map = h.write s.answer_count_map uuid count }
    id ← number (cell message 2)
    code ← number (cell message 3)
    command ← lift (cell message 1)
    answer ← lift (cell message 4)
    s₂ ← handle_answer s₁ command id code answer count
    ok (
        if is_final code count
        then record s₂ { answer_count_map = h.remove s₂.answer_count_map uuid }
        else s₂)

  -- An answer to an unknown request is ignored. An answer of fewer than five parts is a fault.
  unfoldable pub receive_process : Control z h → Message → Run (Control z h)
  receive_process s message = do
    uuid ← lift (cell message 0)
    elim (h.get s.answer_count_map uuid) [
      | none ↦ ok s
      | some waiting ↦ take_answer s uuid waiting message
    ]

  -- The loop over the messages that wait at a socket. The strings of a message stay in the array
  -- until the next one overwrites them.
  unfoldable pub receive_from_socket :
      ℕ → Control z h → Option z.Socket → Message → Run (Control z h)
  receive_from_socket zero s socket message = out_of_fuel
  receive_from_socket (suc rounds) s none message = ok s
  receive_from_socket (suc rounds) s (some socket) message = do
    (size, message', w) ← lift (MqNode.receive z (some socket) message s.world)
    let s₁ : Control z h = record s { world = w }
    let rest = λ (s₂ : Control z h). receive_from_socket rounds s₂ (some socket) message'
    if ltb 0 size then receive_process s₁ message' >>= rest else ok s₁

  -- one round of receive_worker
  unfoldable pub receive_round : ℕ → Control z h → Run (Control z h)
  receive_round rounds s = do
    s ← receive_from_socket rounds s s.mq.left_child_main_socket (replicate 5 none)
    receive_from_socket rounds s s.mq.right_child_main_socket (replicate 5 none)

module _ (z : Zmq) (h : HashMap) where
  -- A pong sets the counter of the process that it names to 0.
  unfoldable pub take_pong : Control z h → Text → Control z h
  take_pong s id = elim (h.get s.nodes_ping_map id) [
    | none ↦ s
    | some v ↦ record s { nodes_ping_map = h.write s.nodes_ping_map id (pos 0) }
  ]

  unfoldable pub receive_pong_from_socket :
      ℕ → Control z h → Option z.Socket → Message → Run (Control z h)
  receive_pong_from_socket zero s socket message = out_of_fuel
  receive_pong_from_socket (suc rounds) s none message = ok s
  receive_pong_from_socket (suc rounds) s (some socket) message = do
    (size, message', w) ← lift (MqNode.receive z (some socket) message s.world)
    let s₁ : Control z h = record s { world = w }
    let rest = λ (s₂ : Control z h). receive_pong_from_socket rounds s₂ (some socket) message'
    if size == 0 then ok s₁ else (do
      word ← lift (cell message' 0)
      if str_eq word (codes "pong")
          then (do id ← lift (cell message' 1); rest (take_pong s₁ id))
          else ok s₁)

  -- the first loop of a heartbeat: every counter goes up by one
  unfoldable pub count_up : List Text → Control z h → Control z h
  count_up [] s = s
  count_up (k ∷ ks) s = count_up ks (elim (h.get s.nodes_ping_map k) [
    | none ↦ s
    | some v ↦ record s { nodes_ping_map = h.write s.nodes_ping_map k (suc_ℤ v) }
  ])

  -- the last loop: a process whose counter is 4 is reported
  unfoldable pub report : List Text → Control z h → Control z h
  report [] s = s
  report (k ∷ ks) s = report ks (elim (h.get s.nodes_ping_map k) [
    | none ↦ s
    | some v ↦
        if eq_ℤ v (pos 4)
        then print z h s (codes "Heartbeat: node " ++ (k ++ codes " is unavailable now\n"))
        else s
  ])

  -- the pings at the start of a period
  unfoldable pub send_pings : Control z h → Run (Control z h)
  send_pings s = do
    let ping : Message = some (codes "ping") ∷ none ∷ []
    w ← lift (MqNode.push_if z s.mq.left_child_ping_socket ping s.world)
    w ← lift (MqNode.push_if z s.mq.right_child_ping_socket ping w)
    ok (record s { world = w })

  -- One period of heartbeat_worker: `looks` is how often the inner loop looks at the two sockets
  -- before the time is over, and `rounds` bounds the messages of one look.
  unfoldable pub look : ℕ → ℕ → Control z h → Run (Control z h)
  look rounds zero s = ok s
  look rounds (suc looks) s = do
    s ← receive_pong_from_socket rounds s s.mq.left_child_ping_socket (replicate 2 none)
    s ← receive_pong_from_socket rounds s s.mq.right_child_ping_socket (replicate 2 none)
    look rounds looks s

  unfoldable pub heartbeat_period : ℕ → ℕ → Control z h → Run (Control z h)
  heartbeat_period rounds looks s = do
    s ← send_pings (count_up (h.keys s.nodes_ping_map) s)
    s ← look rounds looks s
    ok (report (h.keys s.nodes_ping_map) s)
