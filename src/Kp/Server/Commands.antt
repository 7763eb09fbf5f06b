-- ===== src/Kp/Server/Commands.antt =====
-- The commands that change the server's users and chats, KP/server/server.cpp.
use mai_os.Base.{
  ℕ, zero, suc, List, [], ◌∷◌, ◌++◌, Bool, true, false, ◌&&◌, ◌||◌, Option, some, none, ◌==◌,
  if◌then◌else◌,
}
use mai_os.Base.Text.{Text, codes, str_eq}
use mai_os.Kp.Constants.{
  status_ok, status_error, none_user_name, system_name, cmd_login_word, cmd_private_word,
  cmd_join_word, cmd_create_word,
}
use mai_os.Kp.Server.{
  User, Message, GroupChat, PrivateChat, Server, new_user, new_message, new_private_chat, find,
  modify, find_user, login_of, set_authorized, next_id, response,
}

-- `user != nullptr && user->authorized`
unfoldable pub is_authorized : List User → ℕ → Bool
is_authorized [] user = false
is_authorized (u ∷ users) zero = u.authorized
is_authorized (u ∷ users) (suc user) = is_authorized users user

abbrev pub already_in : List User → Option ℕ → Bool
already_in users none = false
already_in users (some user) = is_authorized users user

-- `new User(login)` at the end of the list, or the user that is there becomes authorized
abbrev pub admit : Text → Option ℕ → Server → Server
admit login none s = record s { users = s.users ++ (new_user login ∷ []) }
admit login (some user) s = record s { users = set_authorized true user s.users }

unfoldable pub cmd_login : Text → Text → Server → Server
cmd_login answer_pipe login s =
    let user = find_user s.users login in
    if already_in s.users user
    then response answer_pipe cmd_login_word status_error
        (codes "user " ++ (login ++ codes " already logged in")) s
    else if str_eq login none_user_name || str_eq login system_name
    then response answer_pipe cmd_login_word status_error (codes "forbidden name") s
    else response answer_pipe cmd_login_word status_ok [] (admit login user s)

unfoldable pub cmd_logout : ℕ → Server → Server
cmd_logout user s = record s { users = set_authorized false user s.users }

-- "нельзя говорить с самим собой": one cannot talk with oneself, in UTF-8
abbrev pub self_talk : Text
self_talk =
    208 ∷ 189 ∷ 208 ∷ 181 ∷ 208 ∷ 187 ∷ 209 ∷ 140 ∷ 208 ∷ 183 ∷ 209 ∷ 143 ∷ 32 ∷ 208 ∷ 179 ∷ 208
    ∷ 190 ∷ 208 ∷ 178 ∷ 208 ∷ 190 ∷ 209 ∷ 128 ∷ 208 ∷ 184 ∷ 209 ∷ 130 ∷ 209 ∷ 140 ∷ 32 ∷ 209 ∷ 129
    ∷ 32 ∷ 209 ∷ 129 ∷ 208 ∷ 176 ∷ 208 ∷ 188 ∷ 208 ∷ 184 ∷ 208 ∷ 188 ∷ 32 ∷ 209 ∷ 129 ∷ 208 ∷ 190
    ∷ 208 ∷ 177 ∷ 208 ∷ 190 ∷ 208 ∷ 185 ∷ []

-- The chat of the two users, in either order.
abbrev pub is_between : ℕ → ℕ → PrivateChat → Bool
is_between user to_user c =
    (c.user1 == user) && (c.user2 == to_user) || (c.user2 == user) && (c.user1 == to_user)

-- A private chat is added unless the two users have one.
abbrev pub add_private : ℕ → ℕ → Option ℕ → Server → Server
add_private user to_user none s = record s {
  private_chats = s.private_chats ++ (new_private_chat user to_user ∷ []);
}
add_private user to_user (some chat) s = s

abbrev pub private_with : Text → ℕ → Text → Option ℕ → Server → Server
private_with answer_pipe user login none s =
    response answer_pipe cmd_private_word status_error
      (codes "user " ++ (login ++ codes " not found")) s
private_with answer_pipe user login (some to_user) s =
    let chat = find (is_between user to_user) s.private_chats in
    response answer_pipe cmd_private_word status_ok login (add_private user to_user chat s)

unfoldable pub cmd_private : Text → ℕ → Text → Server → Server
cmd_private answer_pipe user login s =
    if str_eq (login_of s.users user) login
    then response answer_pipe cmd_private_word status_error self_talk s
    else private_with answer_pipe user login (find_user s.users login) s

unfoldable pub find_group : List GroupChat → Text → Option ℕ
find_group chats name = find (λ (c : GroupChat). str_eq c.name name) chats

-- The message that a user has joined.
abbrev pub joined : ℕ → ℕ → Server → Message
joined now user s =
    let text = codes "User " ++ (login_of s.users user ++ codes " joined the chat") in
    new_message system_name text now (next_id s)

-- A new chat with its owner as the one member, and its first message.
abbrev pub add_group : ℕ → ℕ → Text → Server → Server
add_group now user name s =
    let gc : GroupChat = record {
      name = name;
      owner_name = login_of s.users user;
      users = user ∷ [];
      messages = joined now user s ∷ [];
    } in
    record s { group_chats = s.group_chats ++ (gc ∷ []); message_counter_id = next_id s }

abbrev pub create_unless : ℕ → Text → ℕ → Text → Option ℕ → Server → Server
create_unless now answer_pipe user name (some chat) s =
    response answer_pipe cmd_create_word status_error
      (codes "chat " ++ (name ++ codes " already exists")) s
create_unless now answer_pipe user name none s =
    response answer_pipe cmd_create_word status_ok name (add_group now user name s)

unfoldable pub cmd_create : ℕ → Text → ℕ → Text → Server → Server
cmd_create now answer_pipe user name s =
    create_unless now answer_pipe user name (find_group s.group_chats name) s

-- `std::find(users.begin(), users.end(), user) != users.end()`
unfoldable pub is_member : ℕ → List ℕ → Bool
is_member user [] = false
is_member user (u ∷ users) = (u == user) || is_member user users

abbrev pub members_of : List GroupChat → ℕ → List ℕ
members_of [] chat = []
members_of (c ∷ chats) zero = c.users
members_of (c ∷ chats) (suc chat) = members_of chats chat

-- The user and the message are added to the chat.
abbrev pub add_member : ℕ → Message → GroupChat → GroupChat
add_member user m gc = record gc {
  users = gc.users ++ (user ∷ []);
  messages = gc.messages ++ (m ∷ []);
}

abbrev pub enter : ℕ → ℕ → ℕ → Server → Server
enter now user chat s = if is_member user (members_of s.group_chats chat) then s else record s {
  group_chats = modify (add_member user (joined now user s)) chat s.group_chats;
  message_counter_id = next_id s;
}

abbrev pub join_found : ℕ → Text → ℕ → Text → Option ℕ → Server → Server
join_found now answer_pipe user name none s =
    response answer_pipe cmd_join_word status_error (codes "chat " ++ (name ++ codes " not found"))
      s
join_found now answer_pipe user name (some chat) s =
    response answer_pipe cmd_join_word status_ok name (enter now user chat s)

unfoldable pub cmd_join : ℕ → Text → ℕ → Text → Server → Server
cmd_join now answer_pipe user name s =
    join_found now answer_pipe user name (find_group s.group_chats name) s
