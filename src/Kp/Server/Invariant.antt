-- ===== src/Kp/Server/Invariant.antt =====
-- What holds of the server between two requests.
use mai_os.Base.{ℕ, ◌+◌, ◌^◌, ◌≤◌, ◌<◌, ◌≡◌, ◌≢◌, List, [], ◌∷◌, ◌++◌, false, arith, length}
use mai_os.Base.Text.{Text}
use mai_os.Kp.Constants.{none_user_name, system_name}
use mai_os.Kp.Server.{User, Message, GroupChat, PrivateChat, Server, next_id, response, new_server}
use mai_os.Kp.Server.Commands.{is_between}
use mai_os.Kp.Server.Lists.{All, Apart, Distinct, All-map}

-- The ids grow along the list, above `low` and up to the counter.
abbrev pub Increasing : ℕ → List Message → ℕ → Type 0
Increasing low [] counter = low ≤ counter
Increasing low (m ∷ ms) counter = (low < m.id) × Increasing m.id ms counter

pub Increasing-le :
    (low : ℕ) (ms : List Message) (c d : ℕ) → c ≤ d → Increasing low ms c → Increasing low ms d
Increasing-le low [] c d le h = omega arith
Increasing-le low (m ∷ ms) c d le h = (h.0, Increasing-le m.id ms c d le h.1)

pub Increasing-snoc :
    (low : ℕ) (ms : List Message) (c : ℕ) (m : Message)
    → c < m.id
    → Increasing low ms c
    → Increasing low (ms ++ (m ∷ [])) m.id
Increasing-snoc low [] c m lt h = (omega arith, omega arith)
Increasing-snoc low (x ∷ ms) c m lt h = (h.0, Increasing-snoc x.id ms c m lt h.1)

-- The members are users, each once, and the messages are in order.
pub record GroupIsValid (users counter : ℕ) (c : GroupChat) : Type 0 where
  pub members : All (λ (u : ℕ). u < users) c.users
  pub once : Apart (λ (u v : ℕ). u ≢ v) c.users
  pub order : Increasing 0 c.messages counter

-- Two different users.
pub record PrivateIsValid (users counter : ℕ) (c : PrivateChat) : Type 0 where
  pub first : c.user1 < users
  pub second : c.user2 < users
  pub differ : c.user1 ≢ c.user2
  pub order : Increasing 0 c.messages counter

abbrev pub OtherPair : PrivateChat → PrivateChat → Type 0
OtherPair c d = is_between d.user1 d.user2 c ≡ false

abbrev pub IsAllowed : User → Type 0
IsAllowed u = (u.login ≢ none_user_name) × (u.login ≢ system_name)

pub record IsValid (s : Server) : Type 0 where
  pub logins : Distinct User.login s.users
  pub allowed : All IsAllowed s.users
  pub names : Distinct GroupChat.name s.group_chats
  pub groups : All (GroupIsValid (length s.users) s.message_counter_id) s.group_chats
  pub pairs : Apart OtherPair s.private_chats
  pub privates : All (PrivateIsValid (length s.users) s.message_counter_id) s.private_chats
  pub order : Increasing 0 s.messages s.message_counter_id
  pub counter : s.message_counter_id < 2 ^ 64

-- More users and a larger counter.
pub GroupIsValid-le :
    (n m c d : ℕ) → n ≤ m → c ≤ d → (x : GroupChat) → GroupIsValid n c x → GroupIsValid m d x
GroupIsValid-le n m c d users counter x v = record {
  members = All-map (λ (u : ℕ). u < n) (λ (u : ℕ). u < m) (λ u lt. omega arith) x.users v.members;
  once = v.once;
  order = Increasing-le 0 x.messages c d counter v.order;
}

pub PrivateIsValid-le :
    (n m c d : ℕ) → n ≤ m → c ≤ d → (x : PrivateChat) → PrivateIsValid n c x → PrivateIsValid m d x
PrivateIsValid-le n m c d users counter x v =
    let first = v.first in
    let second = v.second in
    record {
      first = omega arith;
      second = omega arith;
      differ = v.differ;
      order = Increasing-le 0 x.messages c d counter v.order;
    }

-- An answer changes nothing that the invariant reads.
pub response-IsValid :
    (pipe cmd status answer : Text) {s : Server}
    → IsValid s
    → IsValid (response pipe cmd status answer s)
unfolding response
response-IsValid pipe cmd status answer v = record {
  logins = v.logins;
  allowed = v.allowed;
  names = v.names;
  groups = v.groups;
  pairs = v.pairs;
  privates = v.privates;
  order = v.order;
  counter = v.counter;
}

pub new_server-IsValid : IsValid new_server
new_server-IsValid = record {
  logins = tt;
  allowed = tt;
  names = tt;
  groups = tt;
  pairs = tt;
  privates = tt;
  order = omega arith;
  counter = omega arith;
}

pub next_id_lem :
    (s : Server) → s.message_counter_id + 1 < 2 ^ 64 → next_id s ≡ s.message_counter_id + 1
next_id_lem s h = omega arith
