-- ===== src/Kp/Tui/Tests.antt =====
-- A list of two chats with the second one chosen, and its renewal.
use mai_os.Base.{◌≡◌, refl, none, some, Option, List, [], ◌∷◌, arith, inr}
use mai_os.Base.Text.{Text, codes, str_eq}
use mai_os.Kp.Tui.{
  Tui, new_tui, listed_chat, update_chats, add_chats, clear_chats, print_chats, chats_texts,
  chosen_name,
}
use mai_os.Kp.Tui.Stays.{has_chat, update_chats-chosen_name}

abbrev two : Tui
two = record new_tui {
  chat_list = record {
    now_choice = 1;
    buffer =
        listed_chat (codes "GROUP") (codes "club") (codes "ann") (codes "hi")
        ∷ listed_chat (codes "PRIVATE") (codes "bob") (codes "bob") (codes "yes")
        ∷ [];
  };
}

-- Bob's chat comes first in the new list.
abbrev newer : List Text
newer =
    codes "PRIVATE"
    ∷ codes "bob"
    ∷ codes "bob"
    ∷ codes "no"
    ∷ codes "GROUP"
    ∷ codes "club"
    ∷ codes "ann"
    ∷ codes "hi"
    ∷ []

abbrev tui_of : Option Tui → Tui
tui_of none = new_tui
tui_of (some t) = t

update_chats-chosen_name_example :
    chosen_name (tui_of (update_chats newer two)).chat_list ≡ some (codes "bob")
unfolding update_chats str_eq clear_chats add_chats print_chats chats_texts has_chat
update_chats-chosen_name_example =
    update_chats-chosen_name newer two b'b' (codes "ob") (inr (omega arith)) refl refl refl
