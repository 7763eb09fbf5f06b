-- ===== src/Kp/Messenger.antt =====
-- The messenger's program, KP/messenger.cpp, with the key loop of its interface, KP/tui/tui.cpp:
-- the client and the text interface, which the keys, the updater and the receiver act on.
pub mod Screen
pub mod Runs
pub mod Inputs
pub mod Printing
pub mod Tests
use mai_os.Base.{
  ℕ, List, [], ◌∷◌, ◌++◌, ◌%◌, Bool, true, false, ◌==◌, Option, some, none, ◌>>=◌, if◌then◌else◌,
}
use mai_os.Base.Text.{Text, codes, str_eq}
use mai_os.Kp.Constants.{
  bar, cmd_help_word, cmd_login_word, cmd_logout_word, cmd_private_word, cmd_join_word,
  cmd_create_word, cmd_chats_word,
}
use mai_os.Kp.StringParser.{string_parser}
use mai_os.Kp.Client.{
  ClientState, not_login, in_group_chat, in_private_chat, in_main_menu, PrintType, system_info_ok,
  system_info_err, chat_info, message, Client, new_client, cmd_login, cmd_logout, cmd_join,
  cmd_private, cmd_create_chat, cmd_push, cmd_chats,
}
use mai_os.Kp.Client
use mai_os.Kp.Client.Handlers.{receive_round}
use mai_os.Kp.Tui.{
  Tui, new_tui, Window, input_window, chats_window, color_white, color_blue, color_magenta,
  color_red, output, clear_output, clear_chats, update_chats, update_windows, ChatBuffer,
  ChatBufElem, now_choice_get, now_choice_up, now_choice_down, is_empty, print_chats, toggle_window,
}

-- The loop of `print` over user|message|...: `user` tells that the part is a user, `part` is what
-- stands after the last separator.
unfoldable pub print_messages : Bool → Text → Text → Tui → Tui
print_messages user part [] t = output (part ++ (10 ∷ [])) color_white t
print_messages user part (c ∷ text) t = elim (c == bar) [
  | false ↦ print_messages user (part ++ (c ∷ [])) text t
  | true ↦ elim user [
    | true ↦
        print_messages false [] text (output (codes ": ") color_white (output part color_blue t))
    | false ↦ print_messages true [] text (output (part ++ (10 ∷ [])) color_white t)
  ]
]

-- The loop of `print` that splits the list of the chats.
unfoldable pub split_parts : Text → Text → List Text
split_parts part [] = part ∷ []
split_parts part (c ∷ text) = elim (c == bar) [
  | false ↦ split_parts (part ++ (c ∷ [])) text
  | true ↦ part ∷ split_parts [] text
]

-- `print` with the end "\n"; a list of messages is put out without it.
unfoldable pub print : Text → PrintType → Tui → Option Tui
print text system_info_ok t = some (output (text ++ (10 ∷ [])) color_magenta t)
print text system_info_err t = some (output (text ++ (10 ∷ [])) color_red t)
print text message t = some (print_messages true [] text t)
print text chat_info t = update_chats (split_parts [] text) t

unfoldable pub print_all : List (Text × PrintType) → Tui → Option Tui
print_all [] t = some t
print_all ((text, print_type) ∷ prints) t = print text print_type t >>= print_all prints

-- The two objects of the program.
pub record App : Type 0 where
  pub client : Client
  pub tui : Tui

abbrev pub new_app : Text → App
new_app pipe_name = record { client = new_client pipe_name; tui = new_tui }

-- What the client's print calls, which do not change the client, make of the interface.
abbrev pub show_prints : Client → Tui → Option App
show_prints c t = do
  t' ← print_all c.prints t
  some (record { client = record c { prints = [] }; tui = t' })

-- A call of the client from the program.
abbrev pub call_client : (Client → Client) → App → Option App
call_client f a = show_prints (f a.client) a.tui

abbrev pub help_line : Text → Tui → Tui
help_line line t = output (line ++ (10 ∷ [])) color_magenta t

abbrev pub help_main_menu : Tui → Tui
help_main_menu t = help_line (codes "logout - log out of the system") (
    help_line (codes "create CHAT_NAME - create a group chat with the name CHAT_NAME") (
      help_line (codes "join CHAT_NAME - log in to a group chat with the name CHAT_NAME") (
        help_line (codes "private LOGIN - log in to a personal chat with a LOGIN user") (
          help_line (codes "chats - view the list of chats in which there was communication")
            (help_line (codes "Main menu") t)))))

abbrev pub help_in : ClientState → Tui → Tui
help_in not_login t = help_line (codes "login LOGIN - log in under the login LOGIN") t
help_in in_main_menu t = help_main_menu t
help_in in_group_chat t = help_line (codes "F2 - go back to the menu") t
help_in in_private_chat t = help_line (codes "F2 - go back to the menu") t

unfoldable pub print_help : App → App
print_help a =
    let keys = help_line (codes "F12 - exit") (help_line (codes "F1 - print help") a.tui) in
    record a { tui = help_in a.client.state keys }

abbrev pub is_in_chat : ClientState → Bool
is_in_chat not_login = false
is_in_chat in_group_chat = true
is_in_chat in_private_chat = true
is_in_chat in_main_menu = false

unfoldable pub back_to_menu : App → App
back_to_menu a =
    if is_in_chat a.client.state
    then print_help
        (record { client = record a.client { state = in_main_menu }; tui = clear_output a.tui })
    else a

-- A command and its argument; `none` where the argument is read and there is none.
abbrev pub with_argument : List Text → (Text → Client → Client) → App → Option App
with_argument (argument ∷ more) f a = call_client (f argument) a
with_argument [] f a = none

abbrev pub run_command : Text → List Text → App → Option App
run_command cmd arguments a =
    if str_eq cmd cmd_help_word
    then some (print_help a)
    else if str_eq cmd cmd_login_word
    then with_argument arguments cmd_login a
    else if str_eq cmd cmd_logout_word
    then call_client cmd_logout (record a { tui = clear_chats (clear_output a.tui) })
    else if str_eq cmd cmd_private_word
    then with_argument arguments cmd_private a
    else if str_eq cmd cmd_join_word
    then with_argument arguments cmd_join a
    else if str_eq cmd cmd_create_word
    then with_argument arguments cmd_create_chat a
    else if str_eq cmd cmd_chats_word
    then call_client cmd_chats a
    else some
        (record a { tui = output (codes "Unknown command " ++ (cmd ++ (10 ∷ []))) color_red a.tui })

abbrev pub run_parts : List Text → App → Option App
run_parts [] a = none
run_parts (cmd ∷ arguments) a = run_command cmd arguments a

unfoldable pub input_handler : Text → App → Option App
input_handler [] a = some a
input_handler (c ∷ text) a =
    if is_in_chat a.client.state
    then call_client (cmd_push (c ∷ text)) a
    else run_parts (string_parser (c ∷ text) 2 b' ') a

-- The chosen chat is entered.
unfoldable pub update_chat : Text → Bool → App → Option App
update_chat chat_name is_public a =
    call_client (if is_public then cmd_join chat_name else cmd_private chat_name)
      (record a { tui = clear_output a.tui })

-- The two halves of a round of the updater's loop: the client polls the chat that it is in, and after
-- a pause, in which the state may change, it asks for the list of its chats.
abbrev pub poll_in : ClientState → App → Option App
poll_in not_login a = some a
poll_in in_main_menu a = some a
poll_in in_group_chat a = call_client (Client.update_chat a.client.last_update_id) a
poll_in in_private_chat a = call_client (Client.update_chat a.client.last_update_id) a

unfoldable pub updater_poll : App → Option App
updater_poll a = poll_in a.client.state a

unfoldable pub updater_chats : App → Option App
updater_chats a = call_client cmd_chats a

-- One round of the receiver's loop.
unfoldable pub receiver_round : Text → App → Option App
receiver_round answer a = receive_round answer a.client >>= λ c. show_prints c a.tui

-- The keys that the loop tells apart, without the one that ends it.
pub data Key : Type 0 where
  resize : Key
  help : Key
  back : Key
  tab : Key
  enter : Key
  down : Key
  up : Key
  backspace : Key
  char : ℕ → Key

abbrev pub clear_input : App → App
clear_input a = let t = a.tui in record a { tui = record t { input_text = [] } }

abbrev pub enter_chosen : App → Option App
enter_chosen a =
    if is_empty a.tui.chat_list
    then some a
    else do el ← now_choice_get a.tui.chat_list; update_chat el.chat_name el.is_public a

abbrev pub on_tui : (Tui → Option Tui) → App → Option App
on_tui f a = f a.tui >>= λ t. some (record a { tui = t })

-- The choice moves, and the list is written again.
abbrev pub move_choice : ChatBuffer × Bool → App → Option App
move_choice (chats, false) a = some a
move_choice (chats, true) a =
    on_tui (λ t. print_chats (record t { chat_list = chats; chats_overlay = [] })) a

unfoldable pub pop_back : Text → Text
pop_back [] = []
pop_back (c ∷ []) = []
pop_back (c ∷ d ∷ s) = c ∷ pop_back (d ∷ s)

-- What a key does while the input window is the current one.
abbrev pub on_input_key : Key → App → Option App
on_input_key resize a = on_tui update_windows a
on_input_key help a = some (print_help a)
on_input_key back a = some (back_to_menu a)
on_input_key tab a = some (record a { tui = toggle_window a.tui })
on_input_key enter a = input_handler a.tui.input_text a >>= λ (b : App). some (clear_input b)
on_input_key down a = some a
on_input_key up a = some a
on_input_key backspace a =
    let t = a.tui in some (record a { tui = record t { input_text = pop_back t.input_text } })
on_input_key (char c) a =
    let t = a.tui in
    some (record a { tui = record t { input_text = t.input_text ++ (c % 256 ∷ []) } })

-- The same for the window of the chats.
abbrev pub on_chats_key : Key → App → Option App
on_chats_key resize a = on_tui update_windows a
on_chats_key help a = some (print_help a)
on_chats_key back a = some (back_to_menu a)
on_chats_key tab a = some (record a { tui = toggle_window a.tui })
on_chats_key enter a = enter_chosen a
on_chats_key down a = move_choice (now_choice_down a.tui.chat_list) a
on_chats_key up a = move_choice (now_choice_up a.tui.chat_list) a
on_chats_key backspace a = some a
on_chats_key (char c) a = some a

abbrev pub key_in : Window → Key → App → Option App
key_in input_window key a = on_input_key key a
key_in chats_window key a = on_chats_key key a

unfoldable pub on_key : Key → App → Option App
on_key key a = key_in a.tui.now_window key a

-- What happens in the program's three threads: a key is pressed, the updater does one of the
-- two halves of its round, or the
-- receiver reads a line.
pub data Event : Type 0 where
  pressed : Key → Event
  polls : Event
  lists : Event
  received : Text → Event

unfoldable pub step : Event → App → Option App
step (pressed key) a = on_key key a
step polls a = updater_poll a
step lists a = updater_chats a
step (received line) a = receiver_round line a

unfoldable pub steps : List Event → App → Option App
steps [] a = some a
steps (event ∷ events) a = step event a >>= steps events
