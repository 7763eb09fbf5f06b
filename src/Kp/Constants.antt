-- ===== src/Kp/Constants.antt =====
-- The words of the messenger's protocol, KP/constants.h.
use mai_os.Base.{ℕ}
use mai_os.Base.Text.{Text, codes}

abbrev pub status_ok : Text
status_ok = codes "OK"

abbrev pub status_error : Text
status_error = codes "ERROR"

abbrev pub none_user_name : Text
none_user_name = codes "__NONE"

abbrev pub system_name : Text
system_name = codes "SYSTEM"

-- COMMAND_ARGS_SEPARATOR and COMMAND_SEPARATOR
abbrev pub bar : ℕ
bar = b'|'

abbrev pub newline : ℕ
newline = 10

abbrev pub min_name_size : ℕ
min_name_size = 2

abbrev pub max_name_size : ℕ
max_name_size = 20

abbrev pub max_message_characters : ℕ
max_message_characters = 2048

abbrev pub cmd_help_word : Text
cmd_help_word = codes "help"

abbrev pub cmd_login_word : Text
cmd_login_word = codes "login"

abbrev pub cmd_logout_word : Text
cmd_logout_word = codes "logout"

abbrev pub cmd_private_word : Text
cmd_private_word = codes "private"

abbrev pub cmd_join_word : Text
cmd_join_word = codes "join"

abbrev pub cmd_create_word : Text
cmd_create_word = codes "create"

abbrev pub cmd_push_msg_word : Text
cmd_push_msg_word = codes "push_msg"

abbrev pub cmd_get_msg_word : Text
cmd_get_msg_word = codes "get_msg"

abbrev pub cmd_chats_word : Text
cmd_chats_word = codes "chats"

abbrev pub group_word : Text
group_word = codes "GROUP"

abbrev pub private_word : Text
private_word = codes "PRIVATE"
