-- ===== src/Kp/Client/Tests.antt =====
-- Two clients in a group chat, and their runs.
use mai_os.Base.{◌≡◌, refl, false, none, some, Option, List, [], ◌∷◌, ◌++◌, arith}
use mai_os.Base.Text.{codes, str_eq}
use mai_os.Base.Decimal.{int_to_str}
use mai_os.Kp.Constants.{
  bar, group_word, status_ok, cmd_login_word, cmd_logout_word, cmd_push_msg_word,
}
use mai_os.Kp.StringParser.{string_parser}
use mai_os.Kp.Server.{GroupChat, Server, new_server, new_user, new_message, find_from, find_user}
use mai_os.Kp.Server.Lists.{All}
use mai_os.Kp.Server.Commands.{find_group}
use mai_os.Kp.Server.Messages.{group_messages}
use mai_os.Kp.Server.Requests.{serve}
use mai_os.Kp.Server.Invariant.{IsValid}
use mai_os.Kp.Server.Logins.{is_logged_in}
use mai_os.Kp.Server.Delivery.{posted}
use mai_os.Kp.Client.{
  in_group_chat, in_main_menu, Client, new_client, request, has_bar, cmd_login, cmd_create_chat,
  cmd_push, cmd_chats, update_chat,
}
use mai_os.Kp.Client.Handlers.{
  receive, answer_handler, receive_round, rec_login, rec_create_chat, rec_get_msg,
}
use mai_os.Kp.Client.Calls.{
  Call, login, push, create_chat, update, answer, chats, run_call, run_calls, run_calls-IsServed,
}
use mai_os.Kp.Client.Valid.{IsServed}
use mai_os.Kp.Client.EndToEnd.{Ready, Delivered, push-Delivered}
use mai_os.Kp.Client.Flaws.{logout-put, cmd_login-cmd_login}

abbrev ann : Client
ann = record (new_client (codes "/tmp/a")) {
  state = in_group_chat;
  login = codes "ann";
  chat_name = codes "club";
  last_update_id = codes "1";
}

abbrev bob : Client
bob = record (new_client (codes "/tmp/b")) {
  state = in_group_chat;
  login = codes "bob";
  chat_name = codes "club";
  last_update_id = codes "1";
}

abbrev club : GroupChat
club = record {
  name = codes "club";
  owner_name = codes "ann";
  users = 0 ∷ [];
  messages = new_message (codes "SYSTEM") (codes "User ann joined the chat") 7 1 ∷ [];
}

abbrev server : Server
server = record new_server {
  users = new_user (codes "ann") ∷ new_user (codes "bob") ∷ [];
  group_chats = club ∷ [];
  message_counter_id = 1;
}

server-IsValid : IsValid server
server-IsValid = record {
  logins = (((ground arith), tt), (tt, tt));
  allowed = (((ground arith), (ground arith)), (((ground arith), (ground arith)), tt));
  names = (tt, tt);
  groups = (
    record { members = (omega arith, tt); once = (tt, tt); order = (omega arith, omega arith) },
    tt,
  );
  pairs = tt;
  privates = tt;
  order = omega arith;
  counter = omega arith;
}

ann-Ready : Ready ann (codes "club") server
unfolding find_user find_from str_eq
ann-Ready = record {
  state = refl;
  chat_name = refl;
  free_login = omega arith;
  free_pipe = omega arith;
  user = 0;
  known = refl;
}

bob-Ready : Ready bob (codes "club") server
unfolding find_user find_from str_eq
bob-Ready = record {
  state = refl;
  chat_name = refl;
  free_login = omega arith;
  free_pipe = omega arith;
  user = 1;
  known = refl;
}

push-Delivered_example : Delivered 9 10 ann bob (codes "hi") server
unfolding find_group find_from str_eq int_to_str has_bar
push-Delivered_example =
    push-Delivered 9 10 ann bob (codes "club") (codes "hi") server 0 server-IsValid (omega arith)
      ann-Ready bob-Ready (omega arith) refl refl refl refl

abbrev calls : List Call
calls =
    login (codes "ann")
    ∷ answer (codes "login|OK")
    ∷ create_chat (codes "club")
    ∷ answer (codes "create|OK|club")
    ∷ push (codes "hi")
    ∷ update (codes "0")
    ∷ answer (codes "get_msg|OK|2|SYSTEM|User ann joined the chat|ann|hi")
    ∷ chats
    ∷ []

abbrev client_of : Option Client → Client
client_of none = ann
client_of (some c) = c

run_calls-IsServed_example :
    All IsServed (client_of (run_calls calls (new_client (codes "/tmp/a")))).requests
unfolding run_calls run_call cmd_login has_bar request receive_round answer_handler string_parser
    receive str_eq rec_login cmd_create_chat rec_create_chat cmd_push update_chat rec_get_msg
    cmd_chats
run_calls-IsServed_example = run_calls-IsServed (codes "/tmp/a") calls (omega arith) refl

logout-put_example :
    (t u : Server) × (serve 9 cmd_logout_word (codes "/tmp/a") (codes "ann") [] server ≡ some t)
    × (is_logged_in t.users (codes "ann") ≡ false)
    × (serve 10 cmd_push_msg_word
          (codes "/tmp/a")
          (codes "ann")
          (group_word ++ (bar ∷ (codes "club" ++ (bar ∷ codes "hi"))))
          t
        ≡ some u)
    × (group_messages u.group_chats 0
        ≡ group_messages server.group_chats 0 ++ (posted 10 0 (codes "hi") t ∷ []))
unfolding find_user find_group find_from str_eq
logout-put_example =
    logout-put 9 10 (codes "/tmp/a") (codes "ann") (codes "club") (codes "hi") server 0 0 refl refl
      (omega arith)

cmd_login-cmd_login_example :
    (d : Client) × (receive cmd_login_word status_ok []
        (cmd_login (codes "bob") (cmd_login (codes "ann") (new_client (codes "/tmp/a"))))
      ≡ some d)
    × (d.state ≡ in_main_menu)
    × (d.login ≡ codes "bob")
unfolding has_bar
cmd_login-cmd_login_example =
    cmd_login-cmd_login (codes "ann") (codes "bob") (new_client (codes "/tmp/a")) refl refl refl
      refl refl
