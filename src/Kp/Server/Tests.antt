-- ===== src/Kp/Server/Tests.antt =====
-- A server with three users, two of whom are in a group chat, and runs of it.
use mai_os.Base.{ℤ, to_int, ℕ, ◌≡◌, ◌≢◌, refl, none, some, Option, List, [], ◌∷◌, ◌++◌, arith, pos}
use mai_os.Base.Text.{Text, codes, str_eq}
use mai_os.Base.Decimal.{strtol, int_to_str}
use mai_os.Kp.Constants.{status_ok, cmd_chats_word, private_word, cmd_login_word, none_user_name}
use mai_os.Kp.StringParser.{string_parser}
use mai_os.Kp.Server.{
  Message, Server, new_server, find_from, modify, find_user, login_of, response, new_user,
  new_message, new_private_chat,
}
use mai_os.Kp.Server.Commands.{
  is_authorized, cmd_login, cmd_private, find_group, cmd_create, is_member, cmd_join,
}
use mai_os.Kp.Server.Messages.{
  id_key, private_messages, put_target, new_text, last_new, drop_last, cmd_put_msg, to_ulong,
  last_message, private_entries, group_entries, entry_texts, cmd_chats,
}
use mai_os.Kp.Server.Sort.{sort_pairs, pair_lt, insert_pair}
use mai_os.Kp.Server.Requests.{with_three, dispatch, serve, request_handler, loop_round, loop}
use mai_os.Kp.Server.Invariant.{IsValid}
use mai_os.Kp.Server.Reachable.{reached-IsValid}
use mai_os.Kp.Server.Logins.{is_logged_in}
use mai_os.Kp.Server.Sessions.{session, serve-session}
use mai_os.Kp.Server.Polling.{poll-poll}
use mathlib.Core.List.{Perm}
use mai_os.Kp.Server.ChatList.{NewestFirst, cmd_chats-NewestFirst}
use mai_os.Kp.Server.Delivery.{put_private-first, posted}

abbrev ann : Text
ann = codes "ann"

abbrev bob : Text
bob = codes "bob"

abbrev eve : Text
eve = codes "eve"

abbrev club : Text
club = codes "club"

abbrev first_message : Message
first_message = new_message (codes "SYSTEM") (codes "User ann joined the chat") 7 1

abbrev second_message : Message
second_message = new_message bob (codes "hi") 8 2

abbrev requests : List (ℕ × Text)
requests =
    (5, codes "login|/tmp/a|__NONE|ann")
    ∷ (6, codes "login|/tmp/b|__NONE|bob")
    ∷ (7, codes "create|/tmp/a|ann|club")
    ∷ (8, codes "private|/tmp/b|bob|ann")
    ∷ (9, codes "push_msg|/tmp/b|bob|PRIVATE|ann|hi")
    ∷ (10, codes "chats|/tmp/a|ann")
    ∷ []

abbrev state_of : Option Server → Server
state_of none = new_server
state_of (some s) = s

reached-IsValid_example : IsValid (state_of (loop requests new_server))
unfolding loop loop_round request_handler string_parser serve dispatch str_eq find_from find_user
    login_of response cmd_login is_authorized cmd_create cmd_private find_group with_three
    cmd_put_msg put_target modify cmd_chats private_entries group_entries entry_texts sort_pairs
    pair_lt insert_pair is_member last_message drop_last
reached-IsValid_example = reached-IsValid requests (omega arith) refl

serve-session_example :
    is_logged_in
      (state_of (serve 5 cmd_login_word (codes "/tmp/a") none_user_name ann new_server)).users
      ann
    ≡ session cmd_login_word none_user_name ann (is_logged_in []) ann
unfolding serve str_eq cmd_login find_user find_from response
serve-session_example =
    serve-session 5 cmd_login_word (codes "/tmp/a") none_user_name ann new_server refl ann

poll-poll_example :
    let lid = to_ulong (strtol (int_to_str (pos (last_new 0 0 (first_message ∷ []))))) in
    new_text 0 ((first_message ∷ []) ++ (second_message ∷ []))
    ≡ new_text 0 (first_message ∷ [])
      ++ new_text lid ((first_message ∷ []) ++ (second_message ∷ []))
unfolding last_new
poll-poll_example =
    poll-poll 0 1 2 (first_message ∷ []) (second_message ∷ []) (omega arith) (omega arith)
      (omega arith)

-- Ann has private chats with Bob and with Eve, in this order.
abbrev two_chats : Server
two_chats = record new_server {
  users = new_user ann ∷ new_user bob ∷ new_user eve ∷ [];
  private_chats = new_private_chat 0 1 ∷ new_private_chat 2 0 ∷ [];
}

put_private-first_example :
    (t : Server) × (cmd_put_msg 9 (codes "/tmp/a") 0 private_word eve (codes "hi") two_chats
      ≡ some t)
    × (private_messages t.private_chats 0
        ≡ private_messages two_chats.private_chats 0 ++ (posted 9 0 (codes "hi") two_chats ∷ []))
    × ((chat : ℕ)
        → chat ≢ 0
        → private_messages t.private_chats chat ≡ private_messages two_chats.private_chats chat)
unfolding find_from
put_private-first_example = put_private-first 9 (codes "/tmp/a") 0 eve (codes "hi") two_chats 0 refl

-- Ann polls her chat with Eve, who wrote last, and Bob.
abbrev talked : Server
talked = record two_chats {
  private_chats =
      record (new_private_chat 0 1) { messages = new_message bob (codes "hi") 8 1 ∷ [] }
      ∷ record (new_private_chat 2 0) { messages = new_message eve (codes "yes") 9 2 ∷ [] }
      ∷ [];
}

cmd_chats-NewestFirst_example :
    (vec : List (ℤ × Text)) × (cmd_chats (codes "/tmp/a") 0 talked
      ≡ response (codes "/tmp/a") cmd_chats_word status_ok (drop_last (entry_texts vec)) talked)
    × Perm vec
        (private_entries talked.users 0 talked.private_chats ++ group_entries 0 talked.group_chats)
    × NewestFirst vec
cmd_chats-NewestFirst_example = cmd_chats-NewestFirst (codes "/tmp/a") 0 talked

chats_answer :
    (cmd_chats (codes "/tmp/a") 0 talked).answers
    ≡ (codes "/tmp/a", codes "chats|OK|PRIVATE|eve|eve|yes|PRIVATE|bob|bob|hi\n") ∷ []
unfolding cmd_chats private_entries group_entries entry_texts sort_pairs insert_pair pair_lt
    drop_last response login_of last_message id_key to_int
chats_answer = refl

-- Bob's request to join a chat that there is not.
answers_error :
    (state_of (request_handler 9 (codes "join|/tmp/b|bob|den") two_chats)).answers
    ≡ (codes "/tmp/b", codes "join|ERROR|chat den not found\n") ∷ []
unfolding request_handler string_parser serve dispatch str_eq find_from find_user response cmd_join
    find_group
answers_error = refl
