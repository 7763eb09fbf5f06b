-- ===== src/Lab6/Zmq.antt =====
-- What lab6 uses of ZeroMQ: a parameter of the models of mq_node.c, compute_node.c and
-- control_node.c. A handle is `none` where the C pointer is NULL.
use mai_os.Base.{◌≡◌, Bool, Option, none, some, List, [], ◌∷◌, ◌++◌}
use mai_os.Base.Text.{Text}

pub record Zmq : Type 1 where
  -- the state of the library, the network and the peers
  pub World : Type 0
  pub Socket : Type 0
  pub Context : Type 0
  pub ctx_new : World → Option Context × World
  pub ctx_destroy : Option Context → World → World
  -- zmq_socket for ZMQ_PAIR
  pub socket : Option Context → World → Option Socket × World
  -- `none` is a return code that the callers' assertions refuse
  pub bind : Option Socket → Option Text → World → Option World
  pub connect : Option Socket → Option Text → World → Option World
  pub close : Option Socket → World → Option World
  -- zmq_msg_send; the flag is ZMQ_SNDMORE
  pub send : Option Socket → Text → Bool → World → Option World
  -- zmq_msg_recv under ZMQ_DONTWAIT; no text is the return code -1
  pub recv : Option Socket → World → Option Text × World
  -- zmq_getsockopt for ZMQ_RCVMORE; `none` is a return code other than 0
  pub rcvmore : Option Socket → World → Option Bool

-- The calls on a NULL handle fail and change nothing.
pub record NullLaws (z : Zmq) : Type 0 where
  pub connect-null : (a : Option Text) (w : z.World) → z.connect none a w ≡ none
  pub recv-null : (w : z.World) → z.recv none w ≡ (none, w)

-- What two connected sockets promise: `dst` receives the parts that `src` sends, in order, each
-- with the flag that says whether more parts follow.
pub record PairLaws (z : Zmq) (src dst : Option z.Socket) : Type 0 where
  pub waiting : z.World → List (Text × Bool)
  pub send-waiting :
      (t : Text) (more : Bool) (w : z.World)
      → (w' : z.World) × (z.send src t more w ≡ some w')
        × (waiting w' ≡ waiting w ++ ((t, more) ∷ []))
  pub recv-waiting :
      (t : Text) (more : Bool) (rest : List (Text × Bool)) (w : z.World)
      → waiting w ≡ (t, more) ∷ rest
      → (w' : z.World) × (z.recv dst w ≡ (some t, w'))
        × (waiting w' ≡ rest)
        × (z.rcvmore dst w' ≡ some more)
