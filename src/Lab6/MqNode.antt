-- ===== src/Lab6/MqNode.antt =====
-- lab6/structures/mq_node.h and mq_node.c: the sockets of one process of the tree, and messages of
-- several parts. `none` is a failed assertion or an access through NULL or outside an array.
pub mod Frames
mod Tests
pub mod Children
use mai_os.Base.{
  ℕ, suc, ◌≡◌, Bool, true, false, Option, none, some, List, [], ◌∷◌, ◌>>=◌, ℤ, minus_one, eq_ℤ,
  if◌then◌else◌,
}
use mai_os.Base.Text.{Text}
use mai_os.Lab6.Zmq.{Zmq}

pub record MqNode (z : Zmq) : Type 0 where
  pub context : Option z.Context
  pub main_socket : Option z.Socket
  pub ping_socket : Option z.Socket
  pub left_child_id : ℤ
  pub right_child_id : ℤ
  pub left_child_main_socket : Option z.Socket
  pub right_child_main_socket : Option z.Socket
  pub left_child_ping_socket : Option z.Socket
  pub right_child_ping_socket : Option z.Socket

-- `char* message[]`: an array of strings in which NULL ends the message
abbrev pub Message : Type 0
Message = List (Option Text)

module _ (z : Zmq) where
  unfoldable pub init : z.World → MqNode z × z.World
  init w =
      let (ctx, w₁) = z.ctx_new w in
      let (main, w₂) = z.socket ctx w₁ in
      let (ping, w₃) = z.socket ctx w₂ in
      (
        record {
          context = ctx;
          main_socket = main;
          ping_socket = ping;
          left_child_id = minus_one;
          right_child_id = minus_one;
          left_child_main_socket = none;
          right_child_main_socket = none;
          left_child_ping_socket = none;
          right_child_ping_socket = none;
        },
        w₃,
      )

  unfoldable pub bind : MqNode z → Option Text → Option Text → z.World → Option z.World
  bind m main_address ping_address w = do
    w ← z.bind m.main_socket main_address w
    z.bind m.ping_socket ping_address w

  unfoldable pub connect_left :
      MqNode z → ℤ → Option Text → Option Text → z.World → Option (MqNode z × z.World)
  connect_left m node_id main_address ping_address w =
      let (main, w₁) = z.socket m.context w in
      let (ping, w₂) = z.socket m.context w₁ in
      do
        w₃ ← z.connect main main_address w₂
        w₄ ← z.connect ping ping_address w₃
        some (
          record m {
            left_child_id = node_id;
            left_child_main_socket = main;
            left_child_ping_socket = ping;
          },
          w₄,
        )

  unfoldable pub connect_right :
      MqNode z → ℤ → Option Text → Option Text → z.World → Option (MqNode z × z.World)
  connect_right m node_id main_address ping_address w =
      let (main, w₁) = z.socket m.context w in
      let (ping, w₂) = z.socket m.context w₁ in
      do
        w₃ ← z.connect main main_address w₂
        w₄ ← z.connect ping ping_address w₃
        some (
          record m {
            right_child_id = node_id;
            right_child_main_socket = main;
            right_child_ping_socket = ping;
          },
          w₄,
        )

  -- With both places taken nothing is connected.
  unfoldable pub connect :
      MqNode z → ℤ → Option Text → Option Text → z.World → Option (MqNode z × z.World)
  connect m node_id main_address ping_address w =
      if eq_ℤ m.left_child_id minus_one
      then connect_left m node_id main_address ping_address w
      else if eq_ℤ m.right_child_id minus_one
      then connect_right m node_id main_address ping_address w
      else some (m, w)

  -- The loop of mqn_receive over the slots from message[i] on: the parts that it stored, and the
  -- slots. A part for which the array has no slot is a write outside it.
  unfoldable pub receive : Option z.Socket → Message → z.World → Option (ℕ × Message × z.World)
  receive socket [] w =
      let (part, w₁) = z.recv socket w in elim part [ none ↦ some (0, [], w₁) | some t ↦ none ]
  receive socket (slot ∷ slots) w =
      let (part, w₁) = z.recv socket w in
      elim part [
        | none ↦ some (0, slot ∷ slots, w₁)
        | some t ↦ elim (z.rcvmore socket w₁) [
          | none ↦ none
          | some more ↦ elim more [
            | false ↦ some (1, some t ∷ slots, w₁)
            | true ↦ elim (receive socket slots w₁) [
              | none ↦ none
              | some (n, slots', w₂) ↦ some (suc n, some t ∷ slots', w₂)
            ]
          ]
        ]
      ]

  unfoldable pub push : Option z.Socket → Message → z.World → Option z.World
  push socket [] w = none
  push socket (none ∷ rest) w = none
  push socket (some t ∷ []) w = none
  push socket (some t ∷ none ∷ rest) w = z.send socket t false w
  push socket (some t ∷ some u ∷ rest) w = z.send socket t true w >>= push socket (some u ∷ rest)

  -- a push on a socket that is there
  abbrev pub push_if : Option z.Socket → Message → z.World → Option z.World
  push_if none message w = some w
  push_if (some s) message w = push (some s) message w

  unfoldable pub push_all : MqNode z → Message → z.World → Option z.World
  push_all m message w = do
    w ← push_if m.left_child_main_socket message w
    push_if m.right_child_main_socket message w

  unfoldable pub reply : MqNode z → Message → z.World → Option z.World
  reply m message w = push m.main_socket message w

  unfoldable pub close_left : MqNode z → z.World → Option (MqNode z × z.World)
  close_left m w = do
    w ← z.close m.left_child_main_socket w
    w ← z.close m.left_child_ping_socket w
    some (
      record m {
        left_child_id = minus_one;
        left_child_main_socket = none;
        left_child_ping_socket = none;
      },
      w,
    )

  unfoldable pub close_right : MqNode z → z.World → Option (MqNode z × z.World)
  close_right m w = do
    w ← z.close m.right_child_main_socket w
    w ← z.close m.right_child_ping_socket w
    some (
      record m {
        right_child_id = minus_one;
        right_child_main_socket = none;
        right_child_ping_socket = none;
      },
      w,
    )

  unfoldable pub close : MqNode z → ℤ → z.World → Option (MqNode z × z.World)
  close m node_id w =
      if eq_ℤ m.left_child_id node_id
      then close_left m w
      else if eq_ℤ m.right_child_id node_id
      then close_right m w
      else some (m, w)

  abbrev pub close_unless_free : ℤ → MqNode z → z.World → Option (MqNode z × z.World)
  close_unless_free id m w = if eq_ℤ id minus_one then some (m, w) else close m id w

  unfoldable pub destroy : MqNode z → z.World → Option (MqNode z × z.World)
  destroy m w = do
    (m, w) ← close_unless_free m.left_child_id m w
    (m, w) ← close_unless_free m.right_child_id m w
    w ← z.close m.main_socket w
    w ← z.close m.ping_socket w
    some (
      record m { main_socket = none; ping_socket = none; context = none },
      z.ctx_destroy m.context w,
    )
