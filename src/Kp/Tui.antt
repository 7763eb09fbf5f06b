-- ===== src/Kp/Tui.antt =====
-- The messenger's text interface, KP/tui/: the list of the chats with the one that is chosen, the
-- texts that were put out, and the windows. ncurses is not modelled: a window's overlay is the list
-- of the texts that were written to it since it was cleared, each with its colour.
pub mod Choice
pub mod Stays
pub mod Tests
use mai_os.Base.{
  ℕ, zero, suc, ◌+◌, ◌-◌, ◌/◌, ◌^◌, List, [], ◌∷◌, ◌++◌, Bool, true, false, ◌&&◌, ltb, leb, ◌==◌,
  Option, some, none, ◌>>=◌, if◌then◌else◌, length, get_elem?,
}
use mai_os.Base.Text.{Text, codes, str_eq}
use mai_os.Kp.Constants.{group_word}

abbrev pub color_white : ℕ
color_white = 1

abbrev pub color_blue : ℕ
color_blue = 2

abbrev pub color_magenta : ℕ
color_magenta = 3

abbrev pub color_red : ℕ
color_red = 4

pub record ChatBufElem : Type 0 where
  pub is_public : Bool
  pub chat_name : Text
  pub chat_name_color : ℕ
  pub last_user_name : Text
  pub last_user_name_color : ℕ
  pub last_message : Text
  pub last_message_color : ℕ

pub record ChatBuffer : Type 0 where
  pub now_choice : ℕ
  pub buffer : List ChatBufElem

abbrev pub add : ChatBufElem → ChatBuffer → ChatBuffer
add el b = record b { buffer = b.buffer ++ (el ∷ []) }

abbrev pub clear : ChatBuffer → ChatBuffer
clear b = record { now_choice = 0; buffer = [] }

abbrev pub set_now_choice : ℕ → ChatBuffer → ChatBuffer
set_now_choice pos b = record b { now_choice = pos }

-- The element of that name, `nullptr` if there is none.
unfoldable pub get : Text → List ChatBufElem → Option ChatBufElem
get chat_name [] = none
get chat_name (el ∷ els) = if str_eq el.chat_name chat_name then some el else get chat_name els

abbrev pub is_empty : ChatBuffer → Bool
is_empty b = length b.buffer == 0

unfoldable pub now_choice_up : ChatBuffer → ChatBuffer × Bool
now_choice_up b =
    if leb b.now_choice 0 then (b, false) else (record b { now_choice = b.now_choice - 1 }, true)

-- `buffer.size()-1`, an unsigned number: that of an empty list is 2^64 - 1.
abbrev pub size_minus_one : ℕ → ℕ
size_minus_one n = if n == 0 then 2 ^ 64 - 1 else n - 1

unfoldable pub now_choice_down : ChatBuffer → ChatBuffer × Bool
now_choice_down b =
    if leb (size_minus_one (length b.buffer)) b.now_choice
    then (b, false)
    else (record b { now_choice = b.now_choice + 1 }, true)

-- `buffer.at(now_choice)`; `none` is the exception that ends the program.
abbrev pub now_choice_get : ChatBuffer → Option ChatBufElem
now_choice_get b = get_elem? b.buffer b.now_choice

pub record TextBufElem : Type 0 where
  pub text : Text
  pub color : ℕ

pub data Window : Type 0 where
  input_window : Window
  chats_window : Window

pub record Tui : Type 0 where
  pub chat_list : ChatBuffer
  pub output_text : List TextBufElem
  pub input_text : Text
  pub now_window : Window
  pub chats_overlay : List TextBufElem
  pub output_overlay : List TextBufElem

abbrev pub new_tui : Tui
new_tui = record {
  chat_list = record { now_choice = 0; buffer = [] };
  output_text = [];
  input_text = [];
  now_window = input_window;
  chats_overlay = [];
  output_overlay = [];
}

abbrev pub text_elem : Text → ℕ → TextBufElem
text_elem text color = record { text = text; color = color }

unfoldable pub output : Text → ℕ → Tui → Tui
output s color t = record t {
  output_text = t.output_text ++ (text_elem s color ∷ []);
  output_overlay = t.output_overlay ++ (text_elem s color ∷ []);
}

unfoldable pub clear_output : Tui → Tui
clear_output t = record t { output_text = []; output_overlay = [] }

unfoldable pub clear_chats : Tui → Tui
clear_chats t = record t { chat_list = clear t.chat_list; chats_overlay = [] }

-- The texts for one chat: the sign of the choice, the name, the last author and message.
abbrev pub chat_texts : Bool → ChatBufElem → List TextBufElem
chat_texts chosen chat =
    text_elem (if chosen then codes ">" else codes " ") color_white
    ∷ text_elem chat.chat_name chat.chat_name_color
    ∷ text_elem (codes " ") color_white
    ∷ text_elem chat.last_user_name chat.last_user_name_color
    ∷ text_elem (codes ": ") color_white
    ∷ text_elem chat.last_message chat.last_message_color
    ∷ text_elem (10 ∷ []) color_white
    ∷ []

-- The chats from the `i`th on; the one at `now_choice` is chosen.
unfoldable pub chats_texts : ℕ → ℕ → List ChatBufElem → List TextBufElem
chats_texts now_choice i [] = []
chats_texts now_choice i (chat ∷ chats) =
    chat_texts (i == now_choice) chat ++ chats_texts now_choice (suc i) chats

unfoldable pub print_chats : Tui → Option Tui
print_chats t = elim (is_empty t.chat_list) [
  | true ↦ some t
  | false ↦ do
    now_chat ← now_choice_get t.chat_list
    some (record t {
      chats_overlay = t.chats_overlay ++ chats_texts t.chat_list.now_choice 0 t.chat_list.buffer;
    })
]

-- A chat of the server's list, with the colours of its parts.
abbrev pub listed_chat : Text → Text → Text → Text → ChatBufElem
listed_chat public chat_name user_name message = record {
  is_public = str_eq public group_word;
  chat_name = chat_name;
  chat_name_color = color_blue;
  last_user_name = user_name;
  last_user_name_color = color_magenta;
  last_message = message;
  last_message_color = color_white;
}

-- Four parts make a chat; the chat of the name `now_ch` becomes the chosen one. `i` is the index
-- of the first part in the vector, so the fourth part's is `i + 3`.
unfoldable pub add_chats : Text → ℕ → List Text → ChatBuffer → ChatBuffer
add_chats now_ch i [] b = b
add_chats now_ch i (public ∷ []) b = b
add_chats now_ch i (public ∷ chat_name ∷ []) b = b
add_chats now_ch i (public ∷ chat_name ∷ user_name ∷ []) b = b
add_chats now_ch i (public ∷ chat_name ∷ user_name ∷ message ∷ chats) b =
    let added = add (listed_chat public chat_name user_name message) b in
    add_chats now_ch (i + 4) chats
      (if str_eq chat_name now_ch then set_now_choice ((i + 3) / 4) added else added)

-- The first chat of the list is the one of the first four parts already.
abbrev pub is_same_first : List Text → List ChatBufElem → Bool
is_same_first (public ∷ chat_name ∷ user_name ∷ message ∷ chats) (el ∷ els) =
    str_eq chat_name el.chat_name
    && (str_eq user_name el.last_user_name && str_eq message el.last_message)
is_same_first chats els = false

abbrev pub is_empty_text : Text → Bool
is_empty_text [] = true
is_empty_text (c ∷ s) = false

-- The name of the chosen chat, empty if there is no chat.
abbrev pub chosen_name : ChatBuffer → Option Text
chosen_name b =
    if is_empty b then some [] else (now_choice_get b >>= λ (el : ChatBufElem). some el.chat_name)

abbrev pub renew_chats : List Text → Text → Tui → Option Tui
renew_chats chats now_ch t =
    let cleared = clear_chats t in
    let added = add_chats now_ch 0 chats cleared.chat_list in
    let chosen = if is_empty_text now_ch then set_now_choice 0 added else added in
    print_chats (record cleared { chat_list = chosen })

unfoldable pub update_chats : List Text → Tui → Option Tui
update_chats [] t = some t
update_chats (part ∷ chats) t =
    if is_same_first (part ∷ chats) t.chat_list.buffer
    then some t
    else (chosen_name t.chat_list >>= λ now_ch. renew_chats (part ∷ chats) now_ch t)

unfoldable pub toggle_window : Tui → Tui
toggle_window t = record t {
  now_window = elim t.now_window [ input_window ↦ chats_window | chats_window ↦ input_window ];
}

-- New windows, with all that the old ones showed written again.
unfoldable pub update_windows : Tui → Option Tui
update_windows t = print_chats (record t { output_overlay = t.output_text; chats_overlay = [] })
