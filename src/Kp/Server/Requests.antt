-- ===== src/Kp/Server/Requests.antt =====
-- One request to the server, KP/server/server.cpp. `none` is an access that C++ leaves undefined:
-- a missing part of the request, or the null pointer.
use mai_os.Base.{ℕ, List, [], ◌∷◌, ◌++◌, Option, some, none, if◌then◌else◌, get_elem?, ◌>>=◌}
use mai_os.Base.Text.{Text, codes, str_eq}
use mai_os.Kp.Constants.{
  bar, cmd_login_word, cmd_logout_word, cmd_private_word, cmd_join_word, cmd_create_word,
  cmd_push_msg_word, cmd_get_msg_word, cmd_chats_word,
}
use mai_os.Kp.StringParser.{string_parser}
use mai_os.Kp.Server.{Server, find_user, print}
use mai_os.Kp.Server.Commands.{cmd_login, cmd_logout, cmd_private, cmd_create, cmd_join}
use mai_os.Kp.Server.Messages.{cmd_put_msg, cmd_get_msg, cmd_chats}

-- The three parts of the arguments of a command on messages.
unfoldable pub with_three :
    Text → (Text → Text → Text → Server → Option Server) → Server → Option Server
with_three args act s =
    let args_p = string_parser args 3 bar in
    do
      mode ← get_elem? args_p 0
      name ← get_elem? args_p 1
      text ← get_elem? args_p 2
      act mode name text s

-- The command of a user that the server knows; any other word does nothing.
unfoldable pub dispatch : ℕ → Text → Text → ℕ → Text → Server → Option Server
dispatch now cmd answer_pipe user args s =
    if str_eq cmd cmd_logout_word
    then some (cmd_logout user s)
    else if str_eq cmd cmd_private_word
    then some (cmd_private answer_pipe user args s)
    else if str_eq cmd cmd_create_word
    then some (cmd_create now answer_pipe user args s)
    else if str_eq cmd cmd_join_word
    then some (cmd_join now answer_pipe user args s)
    else if str_eq cmd cmd_push_msg_word
    then with_three args (cmd_put_msg now answer_pipe user) s
    else if str_eq cmd cmd_get_msg_word
    then with_three args (cmd_get_msg answer_pipe user) s
    else if str_eq cmd cmd_chats_word
    then some (cmd_chats answer_pipe user s)
    else some s

abbrev pub dispatch_user : ℕ → Text → Text → Text → Option ℕ → Text → Server → Option Server
dispatch_user now cmd answer_pipe user_login none args s =
    some (print (codes "Error: User " ++ (user_login ++ codes " not authorized")) s)
dispatch_user now cmd answer_pipe user_login (some user) args s =
    dispatch now cmd answer_pipe user args s

unfoldable pub serve : ℕ → Text → Text → Text → Text → Server → Option Server
serve now cmd user_pipe_name user_login args s =
    if str_eq cmd cmd_login_word
    then some (cmd_login user_pipe_name args s)
    else dispatch_user now cmd user_pipe_name user_login (find_user s.users user_login) args s

-- The parts of a request: `string_p[2]` is read also where there are only two.
abbrev pub serve_parts : ℕ → Text → List Text → Server → Option Server
serve_parts now request [] s = none
serve_parts now request (cmd ∷ []) s = some (print (codes "Error: Bad request: " ++ request) s)
serve_parts now request (cmd ∷ user_pipe_name ∷ []) s = none
serve_parts now request (cmd ∷ user_pipe_name ∷ user_login ∷ []) s =
    serve now cmd user_pipe_name user_login [] s
serve_parts now request (cmd ∷ user_pipe_name ∷ user_login ∷ args ∷ more) s =
    serve now cmd user_pipe_name user_login args s

unfoldable pub request_handler : ℕ → Text → Server → Option Server
request_handler now request s = serve_parts now request (string_parser request 4 bar) s

-- One round of the server's loop.
unfoldable pub loop_round : ℕ → Text → Server → Option Server
loop_round now request s = request_handler now request (print (codes "get " ++ request) s)

-- The rounds for the requests as they arrive, each with its time.
unfoldable pub loop : List (ℕ × Text) → Server → Option Server
loop [] s = some s
loop ((now, request) ∷ requests) s = loop_round now request s >>= loop requests
