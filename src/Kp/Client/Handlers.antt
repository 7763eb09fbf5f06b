-- ===== src/Kp/Client/Handlers.antt =====
-- The server's answers in the client, KP/client/client.cpp. `none` is a read of a missing part of
-- an answer, which C++ leaves undefined.
use mai_os.Base.{List, [], ◌∷◌, ◌++◌, Option, some, none, if◌then◌else◌}
use mai_os.Base.Text.{Text, codes, str_eq}
use mai_os.Kp.Constants.{
  bar, status_error, cmd_login_word, cmd_private_word, cmd_join_word, cmd_create_word,
  cmd_get_msg_word, cmd_chats_word,
}
use mai_os.Kp.StringParser.{string_parser}
use mai_os.Kp.Client.{
  ClientState, in_group_chat, in_private_chat, in_main_menu, system_info_ok, system_info_err,
  chat_info, message, Client, print,
}

unfoldable pub rec_login : Text → Client → Client
rec_login args c =
    print (codes "successful authorization") system_info_ok (record c { state = in_main_menu })

abbrev pub open_chat : ClientState → Text → Text → Client → Client
open_chat state args what c =
    let c' = record c { state = state; chat_name = args; last_update_id = codes "0" } in
    print (what ++ args) system_info_ok c'

unfoldable pub rec_join : Text → Client → Client
rec_join args c = open_chat in_group_chat args (codes "Group chat ") c

unfoldable pub rec_private : Text → Client → Client
rec_private args c = open_chat in_private_chat args (codes "Chat with the user ") c

unfoldable pub rec_create_chat : Text → Client → Client
rec_create_chat args c = open_chat in_group_chat args (codes "Group chat ") c

unfoldable pub rec_chats : Text → Client → Client
rec_chats [] c = c
rec_chats (d ∷ args) c = print (d ∷ args) chat_info c

-- The last id, and the new messages if there are some.
abbrev pub take_messages : List Text → Client → Option Client
take_messages [] c = none
take_messages (id ∷ []) c = none
take_messages (id ∷ [] ∷ more) c = some (record c { last_update_id = id })
take_messages (id ∷ (d ∷ text) ∷ more) c =
    some (print (d ∷ text) message (record c { last_update_id = id }))

unfoldable pub rec_get_msg : Text → Client → Option Client
rec_get_msg args c = take_messages (string_parser args 2 bar) c

unfoldable pub receive : Text → Text → Text → Client → Option Client
receive cmd status args c =
    if str_eq status status_error
    then some (print (codes "Error: " ++ args) system_info_err c)
    else if str_eq cmd cmd_login_word
    then some (rec_login args c)
    else if str_eq cmd cmd_private_word
    then some (rec_private args c)
    else if str_eq cmd cmd_create_word
    then some (rec_create_chat args c)
    else if str_eq cmd cmd_join_word
    then some (rec_join args c)
    else if str_eq cmd cmd_get_msg_word
    then rec_get_msg args c
    else if str_eq cmd cmd_chats_word
    then some (rec_chats args c)
    else some c

abbrev pub receive_parts : List Text → Client → Option Client
receive_parts [] c = none
receive_parts (cmd ∷ []) c = none
receive_parts (cmd ∷ status ∷ []) c = receive cmd status [] c
receive_parts (cmd ∷ status ∷ args ∷ more) c = receive cmd status args c

unfoldable pub answer_handler : Text → Client → Option Client
answer_handler answer c = receive_parts (string_parser answer 3 bar) c

-- One round of the receiving loop: an empty line is passed over.
unfoldable pub receive_round : Text → Client → Option Client
receive_round [] c = some c
receive_round (d ∷ answer) c = answer_handler (d ∷ answer) c
