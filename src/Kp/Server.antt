-- ===== src/Kp/Server.antt =====
-- The messenger's server, KP/server/ and KP/structs/. An object's pointer is its index in the
-- server's list of such objects, since the server never removes a user, a chat or a message.
pub mod Sort
pub mod Commands
pub mod Messages
pub mod Requests
pub mod Lists
pub mod Users
pub mod Invariant
pub mod Preserve
pub mod PreserveChats
pub mod Frame
pub mod Reachable
pub mod Logins
pub mod Sessions
pub mod Polling
pub mod Delivery
pub mod ChatList
pub mod Tests
use mai_os.Base.{
  ℕ, zero, suc, ◌+◌, ◌%◌, ◌^◌, List, [], ◌∷◌, ◌++◌, Bool, true, false, ◌&&◌, ◌||◌, Option, some,
  none, ◌==◌, if◌then◌else◌, get_elem?, set,
}
use mai_os.Base.Text.{Text, codes, str_eq}
use mai_os.Kp.Constants.{bar, newline}

pub record User : Type 0 where
  pub login : Text
  pub authorized : Bool

pub record Message : Type 0 where
  pub from_login : Text
  pub text : Text
  pub timestamp : ℕ
  pub id : ℕ

pub record GroupChat : Type 0 where
  pub name : Text
  pub owner_name : Text
  pub users : List ℕ
  pub messages : List Message

pub record PrivateChat : Type 0 where
  pub user1 : ℕ
  pub user2 : ℕ
  pub messages : List Message

-- The server's fields, the lines that it printed, and the lines that it wrote with the name of
-- the pipe that each went to.
pub record Server : Type 0 where
  pub users : List User
  pub group_chats : List GroupChat
  pub private_chats : List PrivateChat
  pub messages : List Message
  pub message_counter_id : ℕ
  pub printed : List Text
  pub answers : List (Text × Text)

-- The constructors: a new user is authorized, a new chat is empty.
abbrev pub new_user : Text → User
new_user login = record { login = login; authorized = true }

abbrev pub new_message : Text → Text → ℕ → ℕ → Message
new_message from_login text timestamp id = record {
  from_login = from_login;
  text = text;
  timestamp = timestamp;
  id = id;
}

abbrev pub new_group_chat : Text → Text → GroupChat
new_group_chat name owner_name = record {
  name = name;
  owner_name = owner_name;
  users = [];
  messages = [];
}

abbrev pub new_private_chat : ℕ → ℕ → PrivateChat
new_private_chat user1 user2 = record { user1 = user1; user2 = user2; messages = [] }

abbrev pub new_server : Server
new_server = record {
  users = [];
  group_chats = [];
  private_chats = [];
  messages = [];
  message_counter_id = 0;
  printed = [];
  answers = [];
}

-- The index of the first element that passes the test, counted from `i`; `none` is the null
-- pointer.
module _ {A : Type 0} where
  unfoldable pub find_from : (A → Bool) → ℕ → List A → Option ℕ
  find_from test i [] = none
  find_from test i (x ∷ xs) = if test x then some i else find_from test (suc i) xs

  abbrev pub find : (A → Bool) → List A → Option ℕ
  find test xs = find_from test 0 xs

  -- A change of the object that a pointer points to.
  unfoldable pub modify : (A → A) → ℕ → List A → List A
  modify f i [] = []
  modify f zero (x ∷ xs) = f x ∷ xs
  modify f (suc i) (x ∷ xs) = x ∷ modify f i xs

unfoldable pub find_user : List User → Text → Option ℕ
find_user users user_login = find (λ (u : User). str_eq u.login user_login) users

-- `user->login`. The index of a user in use is below the number of users.
unfoldable pub login_of : List User → ℕ → Text
login_of [] user = []
login_of (u ∷ users) zero = u.login
login_of (u ∷ users) (suc user) = login_of users user

-- `user->authorized = b`
abbrev pub set_authorized : Bool → ℕ → List User → List User
set_authorized b user users = modify (λ (u : User). record u { authorized = b }) user users

-- `++this->message_counter_id`, an `unsigned long`
abbrev pub next_id : Server → ℕ
next_id s = (s.message_counter_id + 1) % 2 ^ 64

-- `std::cout << line << std::endl`
abbrev pub print : Text → Server → Server
print line s = record s { printed = s.printed ++ ((line ++ (newline ∷ [])) ∷ []) }

-- `pipe.put_message(message, separator)`
abbrev pub put_message : Text → Text → ℕ → Server → Server
put_message pipe message separator s = record s {
  answers = s.answers ++ ((pipe, message ++ (separator ∷ [])) ∷ []);
}

abbrev pub answer_text : Text → Text → Text → Text
answer_text cmd status answer =
    cmd ++ (bar ∷ (status ++ (elim answer [ [] ↦ [] | c ∷ rest ↦ bar ∷ (c ∷ rest) ])))

unfoldable pub response : Text → Text → Text → Text → Server → Server
response answer_pipe cmd status answer s =
    put_message answer_pipe (answer_text cmd status answer) newline
      (print (codes "push " ++ answer_text cmd status answer) s)
