-- ===== src/Kp/Server/Messages.antt =====
-- The commands on a chat's messages, KP/server/server.cpp: posting, polling, and the list of the
-- chats. `none` is a use of the null pointer, which C++ leaves undefined.
use mai_os.Base.{
  ℕ, zero, suc, ◌-◌, ◌%◌, ◌^◌, List, [], ◌∷◌, ◌++◌, Bool, ◌&&◌, ◌||◌, Option, some, none, ◌==◌, ltb,
  if◌then◌else◌, ℤ, pos, negsuc, to_int,
}
use mai_os.Base.Text.{Text, codes, str_eq}
use mai_os.Base.Decimal.{strtol, int_to_str}
use mai_os.Kp.Constants.{
  bar, status_ok, status_error, cmd_push_msg_word, cmd_get_msg_word, cmd_chats_word, group_word,
  private_word,
}
use mai_os.Kp.Server.{
  User, Message, GroupChat, PrivateChat, Server, new_message, find, modify, login_of, next_id,
  response,
}
use mai_os.Kp.Server.Sort.{sort_pairs}
use mai_os.Kp.Server.Commands.{find_group, is_member}

-- `std::list<Message*> *msgs`: the null pointer, or the list of a chat
pub data MessagesPtr : Type 0 where
  null : MessagesPtr
  of_group : ℕ → MessagesPtr
  of_private : ℕ → MessagesPtr

unfoldable pub group_messages : List GroupChat → ℕ → List Message
group_messages [] chat = []
group_messages (c ∷ chats) zero = c.messages
group_messages (c ∷ chats) (suc chat) = group_messages chats chat

unfoldable pub private_messages : List PrivateChat → ℕ → List Message
private_messages [] chat = []
private_messages (c ∷ chats) zero = c.messages
private_messages (c ∷ chats) (suc chat) = private_messages chats chat

-- The private chat of a user with the user of that name.
abbrev pub is_with : List User → ℕ → Text → PrivateChat → Bool
is_with users user name c =
    (c.user1 == user) && str_eq (login_of users c.user2) name
    || (c.user2 == user) && str_eq (login_of users c.user1) name

-- A private chat of the user, whoever the other is.
abbrev pub is_of : ℕ → PrivateChat → Bool
is_of user c = (c.user1 == user) || (c.user2 == user)

-- What the look-up gives: a list, or the error answer's text.
pub data Target : Type 0 where
  messages_at : MessagesPtr → Target
  missing : Text → Target

abbrev pub group_target : Text → Option ℕ → Target
group_target name (some chat) = messages_at (of_group chat)
group_target name none = missing (codes "chat " ++ (name ++ codes " not found"))

abbrev pub private_target : Text → Option ℕ → Target
private_target name (some chat) = messages_at (of_private chat)
private_target name none = missing (codes "user " ++ (name ++ codes " not found"))

-- The part of `cmd_get_msg` before its loop.
unfoldable pub get_target : ℕ → Text → Text → Server → Target
get_target user mode name s =
    if str_eq mode group_word
    then group_target name (find_group s.group_chats name)
    else if str_eq mode private_word
    then private_target name (find (is_with s.users user name) s.private_chats)
    else messages_at null

-- The part of `cmd_put_msg` before the message is made.
unfoldable pub put_target : ℕ → Text → Text → Server → Target
put_target user mode name s =
    if str_eq mode group_word
    then group_target name (find_group s.group_chats name)
    else if str_eq mode private_word
    then private_target name (find (is_of user) s.private_chats)
    else messages_at null

-- `unsigned long id = std::strtol(last_id.data(), nullptr, 10)`
abbrev pub to_ulong : ℤ → ℕ
to_ulong (pos n) = n
to_ulong (negsuc n) = 2 ^ 64 - 1 - n

abbrev pub max : ℕ → ℕ → ℕ
max a b = if ltb a b then b else a

-- The loop over the list: the texts of the messages that are newer than `id`, and their largest id.
unfoldable pub new_text : ℕ → List Message → Text
new_text id [] = []
new_text id (m ∷ ms) =
    (if ltb id m.id then m.from_login ++ (bar ∷ (m.text ++ (bar ∷ []))) else []) ++ new_text id ms

unfoldable pub last_new : ℕ → ℕ → List Message → ℕ
last_new id lid [] = lid
last_new id lid (m ∷ ms) = last_new id (if ltb id m.id then max lid m.id else lid) ms

-- `if (!answer.empty()) answer = answer.substr(0, answer.size()-1)`
unfoldable pub drop_last : Text → Text
drop_last [] = []
drop_last (c ∷ []) = []
drop_last (c ∷ d ∷ s) = c ∷ drop_last (d ∷ s)

abbrev pub poll_answer : ℕ → List Message → Text
poll_answer id msgs = int_to_str (pos (last_new id id msgs)) ++ (bar ∷ drop_last (new_text id msgs))

abbrev pub poll : Text → ℕ → Target → Server → Option Server
poll answer_pipe id (missing text) s =
    some (response answer_pipe cmd_get_msg_word status_error text s)
poll answer_pipe id (messages_at null) s = none
poll answer_pipe id (messages_at (of_group chat)) s =
    let answer = poll_answer id (group_messages s.group_chats chat) in
    some (response answer_pipe cmd_get_msg_word status_ok answer s)
poll answer_pipe id (messages_at (of_private chat)) s =
    let answer = poll_answer id (private_messages s.private_chats chat) in
    some (response answer_pipe cmd_get_msg_word status_ok answer s)

unfoldable pub cmd_get_msg : Text → ℕ → Text → Text → Text → Server → Option Server
cmd_get_msg answer_pipe user mode name last_id s =
    poll answer_pipe (to_ulong (strtol last_id)) (get_target user mode name s) s

abbrev pub push_group : Message → GroupChat → GroupChat
push_group m c = record c { messages = c.messages ++ (m ∷ []) }

abbrev pub push_private : Message → PrivateChat → PrivateChat
push_private m c = record c { messages = c.messages ++ (m ∷ []) }

-- The message joins the list of all messages and the chat's.
abbrev pub post : Text → Message → Target → Server → Option Server
post answer_pipe um (missing text) s =
    some (response answer_pipe cmd_get_msg_word status_error text s)
post answer_pipe um (messages_at null) s = none
post answer_pipe um (messages_at (of_group chat)) s = some (
    response answer_pipe cmd_push_msg_word status_ok [] (record s {
      message_counter_id = um.id;
      messages = s.messages ++ (um ∷ []);
      group_chats = modify (push_group um) chat s.group_chats;
    }))
post answer_pipe um (messages_at (of_private chat)) s = some (
    response answer_pipe cmd_push_msg_word status_ok [] (record s {
      message_counter_id = um.id;
      messages = s.messages ++ (um ∷ []);
      private_chats = modify (push_private um) chat s.private_chats;
    }))

unfoldable pub cmd_put_msg : ℕ → Text → ℕ → Text → Text → Text → Server → Option Server
cmd_put_msg now answer_pipe user mode name text s =
    post answer_pipe (new_message (login_of s.users user) text now (next_id s))
      (put_target user mode name s) s

-- The last message of a list, `c->messages.back()`.
unfoldable pub last_message : List Message → Option Message
last_message [] = none
last_message (m ∷ []) = some m
last_message (m ∷ m' ∷ ms) = last_message (m' ∷ ms)

-- The negated id, an `unsigned long` that becomes an `int`.
unfoldable pub id_key : ℕ → ℤ
id_key id = to_int (pos ((2 ^ 64 - id) % 2 ^ 64))

-- The pair that the chats are sorted by.
abbrev pub chat_entry : Text → Text → Message → ℤ × Text
chat_entry mode name m = (
  id_key m.id,
  mode ++ (bar ∷ (name ++ (bar ∷ (m.from_login ++ (bar ∷ (m.text ++ (bar ∷ []))))))),
)

abbrev pub other_name : List User → ℕ → PrivateChat → Text
other_name users user c =
    if c.user2 == user
    then login_of users c.user1
    else if c.user1 == user
    then login_of users c.user2
    else []

abbrev pub entry_of : Text → Text → Option Message → List (ℤ × Text)
entry_of mode name none = []
entry_of mode name (some m) = chat_entry mode name m ∷ []

abbrev pub private_entry : List User → ℕ → PrivateChat → List (ℤ × Text)
private_entry users user c = elim (other_name users user c) [
  | [] ↦ []
  | d ∷ ds ↦ entry_of private_word (d ∷ ds) (last_message c.messages)
]

abbrev pub group_entry : ℕ → GroupChat → List (ℤ × Text)
group_entry user c =
    if is_member user c.users then entry_of group_word c.name (last_message c.messages) else []

unfoldable pub private_entries : List User → ℕ → List PrivateChat → List (ℤ × Text)
private_entries users user [] = []
private_entries users user (c ∷ chats) =
    private_entry users user c ++ private_entries users user chats

unfoldable pub group_entries : ℕ → List GroupChat → List (ℤ × Text)
group_entries user [] = []
group_entries user (c ∷ chats) = group_entry user c ++ group_entries user chats

unfoldable pub entry_texts : List (ℤ × Text) → Text
entry_texts [] = []
entry_texts ((id, text) ∷ vec) = text ++ entry_texts vec

unfoldable pub cmd_chats : Text → ℕ → Server → Server
cmd_chats answer_pipe user s =
    let vec = private_entries s.users user s.private_chats ++ group_entries user s.group_chats in
    response answer_pipe cmd_chats_word status_ok (drop_last (entry_texts (sort_pairs vec))) s
