-- ===== src/Lab6/ComputeNode/Keeps.antt =====
-- What the handlers of compute_node.c leave as it was.
use mai_os.Base.{
  ℕ, ◌==◌, ◌≡◌, refl, ap, ◌∙◌, ◌≢◌, Bool, true, false, ◌||◌, Option, none, some, ◌>>=◌, minus_one,
  eq_ℤ, if◌then◌else◌,
}
use mai_os.Base.Text.{Text, codes, str_eq, str_eq_iff, starts_with}
use mai_os.Base.Decimal.{str_to_int}
use mai_os.Lab6.Zmq.{Zmq, NullLaws}
use mai_os.Lab6.HashMap.{HashMap}
use mai_os.Lab6.MqNode
use mai_os.Lab6.MqNode.{MqNode, Message}
use mai_os.Lab6.MqNode.Children.{IsLinked, connect-IsLinked, close-IsLinked}
use mai_os.Lab6.Protocol.{cell}
use mai_os.Lab6.ComputeNode.{
  ComputeNode, running, exited, Result, after, cmd_exec, cmd_ping, cmd_remove, cmd_connect,
  cmd_disconnect, exec_get, exec_set, reply_ok,
}
use mai_os.Lab6.ComputeNode.Loop.{dispatch}

-- A handler that leaves the process running establishes `P`, and one that ends it `Q`.
abbrev pub Ends :
    (z : Zmq) (h : HashMap) → (ComputeNode z h → Type 0) → Type 0 → Result z h → Type 0
Ends z h P Q none = Unit
Ends z h P Q (some (running n w)) = P n
Ends z h P Q (some (exited w)) = Q

module _ (z : Zmq) (h : HashMap) (P : ComputeNode z h → Type 0) (Q : Type 0) where
  Ends-bind :
      {A : Type 0} (o : Option A) (k : A → Result z h)
      → ((a : A) → o ≡ some a → Ends z h P Q (k a))
      → Ends z h P Q (o >>= k)
  Ends-bind none k f = tt
  Ends-bind (some a) k f = f a refl

  Ends-after : (n : ComputeNode z h) (o : Option z.World) → P n → Ends z h P Q (after z h n o)
  Ends-after n none p = tt
  Ends-after n (some w) p = p

  Ends-if :
      (b : Bool) (r s : Result z h)
      → (b ≡ true → Ends z h P Q r)
      → (b ≡ false → Ends z h P Q s)
      → Ends z h P Q (if b then r else s)
  Ends-if true r s f g = f refl
  Ends-if false r s f g = g refl

module _ (z : Zmq) (h : HashMap) (null : NullLaws z) (n : ComputeNode z h)
    (linked : IsLinked z n.mq) (message : Message) where
  abbrev Linked : ComputeNode z h → Type 0
  Linked n' = (n'.node_id ≡ n.node_id) × IsLinked z n'.mq

  abbrev Named : Type 0
  Named = cell message 2 ≡ some n.node_id

  cmd_connect-Ends :
      (w : z.World)
      → ((t : Text) → cell message 2 ≡ some t → str_to_int t ≢ minus_one)
      → Ends z h Linked Named (cmd_connect z h n message w)
  unfolding cmd_connect
  cmd_connect-Ends w valid = Ends-bind z h Linked Named (cell message 3) _ λ parent_id e.
      Ends-if z h Linked Named (str_eq n.node_id parent_id) _ _
        (λ mine. Ends-bind z h Linked Named (cell message 2) _ λ node_id e'.
          Ends-bind z h Linked Named
            (MqNode.connect z n.mq (str_to_int node_id) (cell message 4) (cell message 5) w) _
            λ (mq, w') e''. Ends-after z h Linked Named _ _ (
              refl,
              connect-IsLinked z null n.mq mq (str_to_int node_id) (cell message 4) (cell message 5)
                  w w' linked (valid node_id e') e'',
            ))
        (λ other. Ends-bind z h Linked Named (cell message 2) _ λ node_id e'.
          Ends-if z h Linked Named (str_eq n.node_id node_id) _ _ (λ own. (refl, linked))
            (λ far. Ends-after z h Linked Named _ _ (refl, linked)))

  cmd_remove-Ends : (w : z.World) → Ends z h Linked Named (cmd_remove z h n message w)
  unfolding cmd_remove
  cmd_remove-Ends w = Ends-bind z h Linked Named (cell message 2) _ λ node_id e.
      Ends-if z h Linked Named (str_eq node_id n.node_id) _ _
        (λ own.
          Ends-bind z h Linked Named
            (reply_ok z h n (cell message 0) (cell message 1) (some node_id) w)
            (λ w₁. MqNode.destroy z n.mq w₁ >>= λ (mq, w₂). some (exited w₂))
            λ w₁ e₁.
              Ends-bind z h Linked Named (MqNode.destroy z n.mq w₁) (λ (mq, w₂). some (exited w₂))
                λ (mq, w₂) e₂. e ∙ ap some ((str_eq_iff node_id n.node_id).0 own))
        (λ other. Ends-after z h Linked Named _ _ (refl, linked))

  exec_set-Ends :
      (node_id : Text) (w : z.World) → Ends z h Linked Named (exec_set z h n message node_id w)
  unfolding exec_set
  exec_set-Ends node_id w = Ends-bind z h Linked Named (cell message 4) _ λ value e.
      Ends-bind z h Linked Named (cell message 3) _
        λ name e'. Ends-after z h Linked Named _ _ (refl, linked)

  exec_get-Ends :
      (node_id : Text) (w : z.World) → Ends z h Linked Named (exec_get z h n message node_id w)
  unfolding exec_get
  exec_get-Ends node_id w =
      Ends-bind z h Linked Named (cell message 3) _
        λ name e. Ends-after z h Linked Named _ _ (refl, linked)

  cmd_exec-Ends : (size : ℕ) (w : z.World) → Ends z h Linked Named (cmd_exec z h n message size w)
  unfolding cmd_exec
  cmd_exec-Ends size w = Ends-bind z h Linked Named (cell message 2) _ λ node_id e.
      Ends-if z h Linked Named (str_eq node_id n.node_id) _ _
        (λ own.
          Ends-if z h Linked Named (size == 4) _ _ (λ get. exec_get-Ends node_id w)
            (λ put. exec_set-Ends node_id w))
        (λ other. Ends-after z h Linked Named _ _ (refl, linked))

  cmd_ping-Ends : (w : z.World) → Ends z h Linked Named (cmd_ping z h n message w)
  unfolding cmd_ping
  cmd_ping-Ends w =
      Ends-bind z h Linked Named (cell message 2) _
        λ node_id e. Ends-after z h Linked Named _ _ (refl, linked)

  cmd_disconnect-Ends : (w : z.World) → Ends z h Linked Named (cmd_disconnect z h n message w)
  unfolding cmd_disconnect
  cmd_disconnect-Ends w = Ends-bind z h Linked Named (cell message 2) _ λ node_id e.
      Ends-if z h Linked Named
        (eq_ℤ n.mq.left_child_id (str_to_int node_id)
          || eq_ℤ n.mq.right_child_id (str_to_int node_id))
        _ _
        (λ son.
          Ends-bind z h Linked Named (MqNode.close z n.mq (str_to_int node_id) w) _ λ (mq, w') e'.
            Ends-after z h Linked Named _ _
              (refl, close-IsLinked z null n.mq mq (str_to_int node_id) w w' linked e'))
        (λ other. Ends-after z h Linked Named _ _ (refl, linked))

  -- Whatever message a process handles, if it goes on it has the same identifier and the sockets
  -- of its two places are still in step with their identifiers, and if it exits the message
  -- names it, provided that the message does not name the son -1.
  pub dispatch-Ends :
      (size : ℕ) (w : z.World)
      → ((t : Text) → cell message 2 ≡ some t → str_to_int t ≢ minus_one)
      → Ends z h
          (λ n'. (n'.node_id ≡ n.node_id) × IsLinked z n'.mq)
          (cell message 2 ≡ some n.node_id)
          (dispatch z h n message size w)
  unfolding dispatch
  dispatch-Ends size w valid = Ends-bind z h Linked Named (cell message 1) _ λ command e.
      Ends-if z h Linked Named (starts_with command (codes "exec")) _ _ (λ _. cmd_exec-Ends size w)
        (λ _.
          Ends-if z h Linked Named (starts_with command (codes "ping")) _ _ (λ _. cmd_ping-Ends w)
            (λ _.
              Ends-if z h Linked Named (starts_with command (codes "remove")) _ _
                (λ _. cmd_remove-Ends w)
                (λ _.
                  Ends-if z h Linked Named
                    (starts_with command (codes "connect") || starts_with command (codes "create"))
                    _ _ (λ _. cmd_connect-Ends w valid)
                    (λ _.
                      Ends-if z h Linked Named (starts_with command (codes "disconnect")) _ _
                        (λ _. cmd_disconnect-Ends w) (λ _. (refl, linked))))))
