-- ===== src/Kp/Client.antt =====
-- The messenger's client, KP/client/client.cpp.
pub mod Handlers
pub mod Requests
pub mod Served
pub mod Valid
pub mod Calls
pub mod EndToEnd
pub mod Flaws
pub mod Tests
use mai_os.Base.{
  ℕ, ◌-◌, ◌+◌, List, [], ◌∷◌, ◌++◌, Bool, true, false, ◌||◌, ltb, ◌==◌, if◌then◌else◌, length, take,
  pos,
}
use mai_os.Base.Text.{Text, codes}
use mai_os.Base.Decimal.{int_to_str}
use mai_os.Kp.Constants.{
  bar, newline, none_user_name, min_name_size, max_name_size, max_message_characters,
  cmd_login_word, cmd_logout_word, cmd_private_word, cmd_join_word, cmd_create_word,
  cmd_push_msg_word, cmd_get_msg_word, cmd_chats_word, group_word, private_word,
}

pub data ClientState : Type 0 where
  not_login : ClientState
  in_group_chat : ClientState
  in_private_chat : ClientState
  in_main_menu : ClientState

pub data PrintType : Type 0 where
  system_info_ok : PrintType
  system_info_err : PrintType
  chat_info : PrintType
  message : PrintType

-- The client's fields, the name of its response pipe, the lines that it wrote to the request pipe,
-- and the calls of its print function, each with the end "\n".
pub record Client : Type 0 where
  pub state : ClientState
  pub login : Text
  pub chat_name : Text
  pub last_update_id : Text
  pub pipe_name : Text
  pub requests : List Text
  pub prints : List (Text × PrintType)

abbrev pub new_client : Text → Client
new_client pipe_name = record {
  state = not_login;
  login = [];
  chat_name = [];
  last_update_id = codes "0";
  pipe_name = pipe_name;
  requests = [];
  prints = [];
}

-- `state == NotLogin` and `state == InGroupChat`
abbrev pub is_not_login : ClientState → Bool
is_not_login not_login = true
is_not_login in_group_chat = false
is_not_login in_private_chat = false
is_not_login in_main_menu = false

abbrev pub is_in_group_chat : ClientState → Bool
is_in_group_chat not_login = false
is_in_group_chat in_group_chat = true
is_in_group_chat in_private_chat = false
is_in_group_chat in_main_menu = false

abbrev pub print : Text → PrintType → Client → Client
print text print_type c = record c { prints = c.prints ++ ((text, print_type) ∷ []) }

-- The text of a request, without the newline that ends it in the pipe.
abbrev pub request_text : Text → Text → Text → Text → Text
request_text command pipe_name name arguments =
    command
    ++ (bar
        ∷ (pipe_name
            ++ (bar ∷ (name ++ (elim arguments [ [] ↦ [] | d ∷ rest ↦ bar ∷ (d ∷ rest) ])))))

unfoldable pub request : Text → Text → Client → Client
request command arguments c =
    let name = if is_not_login c.state then none_user_name else c.login in
    let text = request_text command c.pipe_name name arguments in
    record c { requests = c.requests ++ ((text ++ (newline ∷ [])) ∷ []) }

-- `text.find(COMMAND_ARGS_SEPARATOR) != -1`
unfoldable pub has_bar : Text → Bool
has_bar [] = false
has_bar (d ∷ text) = (d == bar) || has_bar text

abbrev pub is_bad_size : Text → Bool
is_bad_size name = ltb (length name) min_name_size || ltb max_name_size (length name)

-- "PREFIX must be greater than 1 and less than 21"
abbrev pub size_error : Text → Text
size_error prefix =
    prefix
    ++ (codes " must be greater than "
        ++ (int_to_str (pos (min_name_size - 1))
            ++ (codes " and less than " ++ int_to_str (pos (max_name_size + 1)))))

abbrev pub not_logged_in : Text
not_logged_in = codes "user is not logged in"

unfoldable pub cmd_login : Text → Client → Client
cmd_login login c =
    if is_not_login c.state
    then if is_bad_size login
      then print (size_error (codes "Name size")) system_info_err c
      else if has_bar login
      then print (codes "Name contains forbidden characters") system_info_err c
      else request cmd_login_word login (record c { login = login })
    else print (codes "user is already logged in") system_info_err c

unfoldable pub cmd_logout : Client → Client
cmd_logout c =
    if is_not_login c.state
    then print not_logged_in system_info_err c
    else let c' = request cmd_logout_word [] c in
      print (codes "logout successful") system_info_ok (record c' { state = not_login })

unfoldable pub cmd_join : Text → Client → Client
cmd_join chat_name c =
    if is_not_login c.state
    then print not_logged_in system_info_err c
    else request cmd_join_word chat_name c

unfoldable pub cmd_private : Text → Client → Client
cmd_private login c =
    if is_not_login c.state
    then print not_logged_in system_info_err c
    else request cmd_private_word login c

unfoldable pub cmd_create_chat : Text → Client → Client
cmd_create_chat chat_name c =
    if is_not_login c.state
    then print not_logged_in system_info_err c
    else if is_bad_size chat_name
    then print (size_error (codes "Chat name size")) system_info_err c
    else if has_bar chat_name
    then print (codes "Chat name contains forbidden characters") system_info_err c
    else request cmd_create_word chat_name c

-- GROUP or PRIVATE, by the state; the chat's name; and the last argument.
abbrev pub chat_args : Client → Text → Text
chat_args c last =
    (if is_in_group_chat c.state then group_word else private_word)
    ++ (bar ∷ (c.chat_name ++ (bar ∷ last)))

abbrev pub is_long : Text → Bool
is_long text = ltb max_message_characters (length text)

abbrev pub truncated : Text → Text
truncated text = if is_long text then take max_message_characters text else text

abbrev pub warn_long : Text → Client → Client
warn_long text c =
    if is_long text
    then print (codes "The message is truncated") system_info_err (
        print
          (codes "Message size must be less than " ++ int_to_str (pos (max_message_characters + 1)))
          system_info_err c)
    else c

unfoldable pub cmd_push : Text → Client → Client
cmd_push text c =
    if is_not_login c.state
    then print not_logged_in system_info_err c
    else if has_bar text
    then print (codes "Text contains forbidden characters") system_info_err c
    else request cmd_push_msg_word (chat_args c (truncated text)) (warn_long text c)

unfoldable pub cmd_chats : Client → Client
cmd_chats c = request cmd_chats_word [] c

-- The client's poll of its chat.
unfoldable pub update_chat : Text → Client → Client
update_chat last_update_id c = request cmd_get_msg_word (chat_args c last_update_id) c
