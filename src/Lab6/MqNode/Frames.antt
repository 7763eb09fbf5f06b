-- ===== src/Lab6/MqNode/Frames.antt =====
-- mqn_push and mqn_receive: a message of several parts over a pair of connected sockets.
use mai_os.Base.{
  ℕ, suc, ◌≤◌, ◌<◌, ◌≡◌, sym, ap, ◌∙◌, Bool, true, false, Option, none, some, List, [], ◌∷◌, ◌++◌,
  map, append_assoc, append-nil, arith, ◌>>=◌, length, drop,
}
use mai_os.Base.Text.{Text}
use mai_os.Lab6.Zmq.{Zmq, PairLaws}
use mai_os.Lab6.MqNode.{Message, receive, push}

-- A message of one or more parts on the wire: each part says whether more follow.
abbrev pub parts : Text → List Text → List (Text × Bool)
parts t [] = (t, false) ∷ []
parts t (u ∷ ts) = (t, true) ∷ parts u ts

-- the array of a message: its strings, NULL, and what stands behind
abbrev pub as_array : Text → List Text → Message → Message
as_array t ts rest = some t ∷ map some ts ++ (none ∷ rest)

-- the array after strings were stored in its first slots
abbrev pub stored : Text → List Text → Message → Message
stored t ts slots = some t ∷ map some ts ++ drop (suc (length ts)) slots

module _ (z : Zmq) (socket : Option z.Socket) (slot : Option Text) (slots : Message)
    (w w₁ : z.World) (t : Text) (got : z.recv socket w ≡ (some t, w₁)) where
  receive_full : receive z socket [] w ≡ none
  unfolding receive
  receive_full = ground (arith, got)

  receive_last :
      z.rcvmore socket w₁ ≡ some false
      → receive z socket (slot ∷ slots) w ≡ some (1, some t ∷ slots, w₁)
  unfolding receive
  receive_last more = ground (arith, got)

  receive_more :
      (r : Option (ℕ × Message × z.World))
      → z.rcvmore socket w₁ ≡ some true
      → receive z socket slots w₁ ≡ r
      → receive z socket (slot ∷ slots) w
        ≡ (r >>= λ (n, slots', w₂). some (suc n, some t ∷ slots', w₂))
  unfolding receive
  receive_more none more rest = ground (arith, got)
  receive_more (some r) more rest = ground (arith, got)

module _ (z : Zmq) (src dst : Option z.Socket) (laws : PairLaws z src dst) where
  open laws use {waiting, send-waiting, recv-waiting}

  pub push-waiting :
      (t : Text) (ts : List Text) (rest : Message) (w : z.World)
      → (w' : z.World) × (push z src (as_array t ts rest) w ≡ some w')
        × (waiting w' ≡ waiting w ++ parts t ts)
  unfolding push
  push-waiting t [] rest w = send-waiting t false w
  push-waiting t (u ∷ ts) rest w =
      let (w₁, sent, wait₁) = send-waiting t true w in
      let (w₂, pushed, wait₂) = push-waiting u ts rest w₁ in
      (
        w₂,
        rw sent pushed,
        wait₂
            ∙ ap (λ q. q ++ parts u ts) wait₁
            ∙ append_assoc (waiting w) ((t, true) ∷ []) (parts u ts),
      )

  receive-waiting :
      (t : Text) (ts : List Text) (slots : Message) (q : List (Text × Bool)) (w : z.World)
      → length ts < length slots
      → waiting w ≡ parts t ts ++ q
      → (w' : z.World) × (receive z dst slots w ≡ some (suc (length ts), stored t ts slots, w'))
        × (waiting w' ≡ q)
  receive-waiting t ts [] q w h e = absurd (omega arith)
  receive-waiting t [] (slot ∷ slots) q w h e =
      let (w₁, got, rest, more) = recv-waiting t false q w e in
      (w₁, receive_last z dst slot slots w w₁ t got more, rest)
  receive-waiting t (u ∷ ts) (slot ∷ slots) q w h e =
      let (w₁, got, rest, more) = recv-waiting t true (parts u ts ++ q) w e in
      let (w₂, got', rest') = receive-waiting u ts slots q w₁ (omega arith) rest in
      (w₂, receive_more z dst slot slots w w₁ t got _ more got', rest')

  -- Over two connected sockets that keep their laws, with nothing waiting, what mqn_push sends
  -- of a message that has a part and ends in NULL is what mqn_receive stores in the first slots
  -- of an array with slots enough, the other slots being left alone, with the number of parts as
  -- its result and nothing left waiting.
  pub receive-push :
      (t : Text) (ts : List Text) (rest slots : Message) (w : z.World)
      → length ts < length slots
      → waiting w ≡ []
      → (w₁ w₂ : z.World) × (push z src (as_array t ts rest) w ≡ some w₁)
        × (receive z dst slots w₁ ≡ some (suc (length ts), stored t ts slots, w₂))
        × (waiting w₂ ≡ [])
  receive-push t ts rest slots w h e =
      let (w₁, pushed, wait) = push-waiting t ts rest w in
      let queued : waiting w₁ ≡ parts t ts ++ [] =
        wait ∙ ap (λ q. q ++ parts t ts) e ∙ sym (append-nil (parts t ts)) in
      let (w₂, got, empty) = receive-waiting t ts slots [] w₁ h queued in
      (w₁, w₂, pushed, got, empty)

  -- mqn_receive stores outside its array if the message that waits has more parts than the array
  -- has slots.
  pub receive-overflow :
      (t : Text) (ts : List Text) (slots : Message) (q : List (Text × Bool)) (w : z.World)
      → length slots ≤ length ts
      → waiting w ≡ parts t ts ++ q
      → receive z dst slots w ≡ none
  receive-overflow t [] [] q w h e =
      let (w₁, got, rest, more) = recv-waiting t false q w e in
      receive_full z dst none [] w w₁ t got
  receive-overflow t (u ∷ ts) [] q w h e =
      let (w₁, got, rest, more) = recv-waiting t true (parts u ts ++ q) w e in
      receive_full z dst none [] w w₁ t got
  receive-overflow t [] (slot ∷ slots) q w h e = absurd (omega arith)
  receive-overflow t (u ∷ ts) (slot ∷ slots) q w h e =
      let (w₁, got, rest, more) = recv-waiting t true (parts u ts ++ q) w e in
      receive_more z dst slot slots w w₁ t got none more
        (receive-overflow u ts slots q w₁ (omega arith) rest)
