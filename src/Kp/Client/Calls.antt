-- ===== src/Kp/Client/Calls.antt =====
-- Any sequence of calls of the client writes requests that the server can serve.
use mai_os.Base.{
  ◌≡◌, refl, inl, List, [], ◌∷◌, ◌++◌, Bool, true, false, Option, some, arith, if◌then◌else◌, ◌>>=◌,
  bind_some,
}
use mathlib.Core.Path.{subst}
use mai_os.Base.Text.{Text, codes, str_eq}
use mai_os.Kp.Constants.{
  status_error, bar, cmd_login_word, cmd_private_word, cmd_join_word, cmd_create_word,
  cmd_get_msg_word, cmd_chats_word,
}
use mai_os.Kp.StringParser.{FreeOf, string_parser}
use mai_os.Kp.Server.Lists.{All}
use mai_os.Kp.Client.{
  ClientState, in_group_chat, in_private_chat, in_main_menu, Client, cmd_login, cmd_logout,
  cmd_join, cmd_private, cmd_create_chat, cmd_push, cmd_chats, update_chat, new_client,
  system_info_ok, system_info_err,
}
use mai_os.Kp.Client.Handlers.{
  receive, receive_parts, answer_handler, receive_round, rec_login, rec_join, rec_private,
  rec_create_chat, rec_chats, take_messages, rec_get_msg,
}
use mai_os.Kp.Client.Valid.{
  IsServed, IsValid, print-IsValid, request-IsValid, with_chat-IsValid, cmd_login-IsValid,
  cmd_logout-IsValid, cmd_join-IsValid, cmd_private-IsValid, cmd_create_chat-IsValid,
  cmd_push-IsValid, update_chat-IsValid,
}

-- A call of the client, by the input, the updater or the receiver.
pub data Call : Type 0 where
  login : Text → Call
  logout : Call
  join : Text → Call
  private : Text → Call
  create_chat : Text → Call
  push : Text → Call
  chats : Call
  update : Text → Call
  answer : Text → Call

unfoldable pub run_call : Call → Client → Option Client
run_call (login name) c = some (cmd_login name c)
run_call logout c = some (cmd_logout c)
run_call (join name) c = some (cmd_join name c)
run_call (private name) c = some (cmd_private name c)
run_call (create_chat name) c = some (cmd_create_chat name c)
run_call (push text) c = some (cmd_push text c)
run_call chats c = some (cmd_chats c)
run_call (update id) c = some (update_chat id c)
run_call (answer line) c = receive_round line c

unfoldable pub run_calls : List Call → Client → Option Client
run_calls [] c = some c
run_calls (call ∷ calls) c = run_call call c >>= run_calls calls

-- What an answer does, if its parts are there.
abbrev Keeps : Option Client → Type 0
Keeps o = (d : Client) → o ≡ some d → IsValid d

Keeps-some : (c : Client) → IsValid c → Keeps (some c)
Keeps-some c v d e = subst IsValid (cc) v

Keeps-if : (b : Bool) (x y : Option Client) → Keeps x → Keeps y → Keeps (if b then x else y)
Keeps-if true x y kx ky = kx
Keeps-if false x y kx ky = ky

take_messages-Keeps : (parts : List Text) (c : Client) → IsValid c → Keeps (take_messages parts c)
take_messages-Keeps [] c v d e = cc
take_messages-Keeps (id ∷ []) c v d e = cc
take_messages-Keeps (id ∷ [] ∷ more) c v d e =
    Keeps-some _ (with_chat-IsValid c.state c.chat_name id v) d e
take_messages-Keeps (id ∷ (x ∷ text) ∷ more) c v d e =
    Keeps-some _ (print-IsValid _ _ (with_chat-IsValid c.state c.chat_name id v)) d e

rec_chats-IsValid : (args : Text) {c : Client} → IsValid c → IsValid (rec_chats args c)
unfolding rec_chats
rec_chats-IsValid [] v = v
rec_chats-IsValid (x ∷ args) v = print-IsValid _ _ v

receive-Keeps :
    (cmd status args : Text) (c : Client) → IsValid c → Keeps (receive cmd status args c)
unfolding receive rec_login rec_private rec_join rec_create_chat rec_get_msg
receive-Keeps cmd status args c v =
    let opened = λ (s : ClientState) (t : Text).
      Keeps-some _
        (print-IsValid (t ++ args) system_info_ok (with_chat-IsValid s args (codes "0") v)) in
    let is = str_eq cmd in
    let failed = print-IsValid (codes "Error: " ++ args) system_info_err v in
    let logged_in =
      print-IsValid (codes "successful authorization") system_info_ok
        (with_chat-IsValid in_main_menu c.chat_name c.last_update_id v) in
    let listed = rec_chats-IsValid args v in
    Keeps-if (str_eq status status_error) _ _ (Keeps-some _ failed) (
      Keeps-if (is cmd_login_word) _ _ (Keeps-some _ logged_in) (
        Keeps-if (is cmd_private_word) _ _ (opened in_private_chat (codes "Chat with the user ")) (
          Keeps-if (is cmd_create_word) _ _ (opened in_group_chat (codes "Group chat ")) (
            Keeps-if (is cmd_join_word) _ _ (opened in_group_chat (codes "Group chat ")) (
              Keeps-if (is cmd_get_msg_word) _ _
                (take_messages-Keeps (string_parser args 2 bar) c v)
                (Keeps-if (is cmd_chats_word) _ _ (Keeps-some _ listed) (Keeps-some c v)))))))

receive_parts-Keeps : (parts : List Text) (c : Client) → IsValid c → Keeps (receive_parts parts c)
receive_parts-Keeps [] c v d e = cc
receive_parts-Keeps (cmd ∷ []) c v d e = cc
receive_parts-Keeps (cmd ∷ status ∷ []) c v d e = receive-Keeps cmd status [] c v d e
receive_parts-Keeps (cmd ∷ status ∷ args ∷ more) c v d e = receive-Keeps cmd status args c v d e

receive_round-Keeps : (line : Text) (c : Client) → IsValid c → Keeps (receive_round line c)
unfolding receive_round answer_handler
receive_round-Keeps [] c v d e = Keeps-some c v d e
receive_round-Keeps (x ∷ line) c v d e =
    receive_parts-Keeps (string_parser (x ∷ line) 3 bar) c v d e

run_call-Keeps : (call : Call) (c : Client) → IsValid c → Keeps (run_call call c)
unfolding run_call cmd_chats str_eq
run_call-Keeps (login name) c v d e = Keeps-some _ (cmd_login-IsValid name v) d e
run_call-Keeps logout c v d e = Keeps-some _ (cmd_logout-IsValid v) d e
run_call-Keeps (join name) c v d e = Keeps-some _ (cmd_join-IsValid name v) d e
run_call-Keeps (private name) c v d e = Keeps-some _ (cmd_private-IsValid name v) d e
run_call-Keeps (create_chat name) c v d e = Keeps-some _ (cmd_create_chat-IsValid name v) d e
run_call-Keeps (push text) c v d e = Keeps-some _ (cmd_push-IsValid text v) d e
run_call-Keeps chats c v d e =
    Keeps-some _ (request-IsValid cmd_chats_word [] v (omega arith) (inl (refl, refl))) d e
run_call-Keeps (update id) c v d e = Keeps-some _ (update_chat-IsValid id v) d e
run_call-Keeps (answer line) c v d e = receive_round-Keeps line c v d e

run_calls-Keeps : (calls : List Call) (c : Client) → IsValid c → Keeps (run_calls calls c)
unfolding run_calls
run_calls-Keeps [] c v d e = Keeps-some c v d e
run_calls-Keeps (call ∷ calls) c v d e =
    let (next, first, rest) = bind_some (run_call call c) (run_calls calls) e in
    run_calls-Keeps calls next (run_call-Keeps call c v next first) d rest

-- Whatever sequence of commands, polls and answer lines a new client with a pipe name without a
-- separator goes through without an answer that lacks its parts, each line that it wrote to the
-- request pipe is a text and a newline such that the server serves the text in every state and
-- at every time, with no missing part and no null list
pub run_calls-IsServed :
    (pipe_name : Text) (calls : List Call) {c : Client}
    → FreeOf bar pipe_name
    → run_calls calls (new_client pipe_name) ≡ some c
    → All IsServed c.requests
run_calls-IsServed pipe_name calls {c} free e =
    let start : IsValid (new_client pipe_name) = record { pipe = free; name = tt; written = tt } in
    (run_calls-Keeps calls (new_client pipe_name) start c e).written
