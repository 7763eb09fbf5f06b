-- ===== src/Kp/Messenger/Screen.antt =====
-- The screen shows what the interface holds: the texts that were put out, and the chats with the
-- chosen one marked. `none` never comes from the interface.
use mai_os.Base.{
  ℕ, ◌≡◌, refl, ap, sym, ◌∙◌, inl, inr, List, [], ◌∷◌, ◌++◌, Bool, true, false, ◌==◌, Option, some,
  length, arith, Bool-cases, get_elem?-lt,
}
use mai_os.Base.Text.{Text, codes}
use mai_os.Kp.Constants.{bar}
use mai_os.Kp.Client.{PrintType, system_info_ok, system_info_err, chat_info, message}
use mai_os.Kp.Tui.{
  Tui, ChatBuffer, ChatBufElem, text_elem, color_white, color_blue, color_magenta, color_red,
  output, clear_output, clear_chats, chats_texts, print_chats, is_empty, renew_chats, is_same_first,
  update_chats, update_windows,
}
use mai_os.Kp.Tui.Choice.{IsChosen, chosen_list, chosen_list-IsChosen, chosen_name-some}
use mai_os.Kp.Messenger.{print_messages, split_parts, print, print_all}

pub record IsShown (t : Tui) : Type 0 where
  pub chosen : IsChosen t.chat_list
  pub chats : t.chats_overlay ≡ chats_texts t.chat_list.now_choice 0 t.chat_list.buffer
  pub texts : t.output_overlay ≡ t.output_text

-- A step gives an interface that is shown.
pub record Shows (o : Option Tui) : Type 0 where
  pub result : Tui
  pub gives : o ≡ some result
  pub shown : IsShown result

pub output-IsShown : (s : Text) (color : ℕ) {t : Tui} → IsShown t → IsShown (output s color t)
unfolding output
output-IsShown s color v = record {
  chosen = v.chosen;
  chats = v.chats;
  texts = ap (λ l. l ++ (text_elem s color ∷ [])) v.texts;
}

pub clear_output-IsShown : {t : Tui} → IsShown t → IsShown (clear_output t)
unfolding clear_output
clear_output-IsShown v = record { chosen = v.chosen; chats = v.chats; texts = refl }

pub clear_chats-IsShown : {t : Tui} → IsShown t → IsShown (clear_chats t)
unfolding clear_chats chats_texts
clear_chats-IsShown v = record { chosen = inl refl; chats = refl; texts = v.texts }

no_elements : (els : List ChatBufElem) → length els ≡ 0 → els ≡ []
no_elements [] e = refl
no_elements (el ∷ els) e = absurd (omega arith)

-- A list that is written to an empty window.
print_chats-Shows :
    (t : Tui)
    → IsChosen t.chat_list
    → t.chats_overlay ≡ []
    → t.output_overlay ≡ t.output_text
    → Shows (print_chats t)
unfolding print_chats chats_texts
print_chats-Shows t (inl e) fresh texts =
    let empty : is_empty t.chat_list ≡ true = ground arith in
    let nothing : t.chat_list.buffer ≡ [] = no_elements t.chat_list.buffer e in
    rw (empty, print_chats)
      (record {
        result = t;
        gives = refl;
        shown = record {
          chosen = inl e;
          chats = fresh ∙ sym (ap (chats_texts t.chat_list.now_choice 0) nothing);
          texts = texts;
        };
      })
print_chats-Shows t (inr lt) fresh texts =
    let full : is_empty t.chat_list ≡ false = ground arith in
    let (el, here) = get_elem?-lt t.chat_list.buffer t.chat_list.now_choice lt in
    rw (full, here, print_chats)
      (record {
        result = record t {
          chats_overlay =
              t.chats_overlay ++ chats_texts t.chat_list.now_choice 0 t.chat_list.buffer;
        };
        gives = refl;
        shown = record {
          chosen = inr lt;
          chats = ap (λ l. l ++ chats_texts t.chat_list.now_choice 0 t.chat_list.buffer) fresh;
          texts = texts;
        };
      })

pub update_windows-Shows : {t : Tui} → IsShown t → Shows (update_windows t)
unfolding update_windows
update_windows-Shows {t} v =
    print_chats-Shows (record t { output_overlay = t.output_text; chats_overlay = [] }) v.chosen
      refl refl

pub choice-Shows :
    (b : ChatBuffer) {t : Tui}
    → IsShown t
    → IsChosen b
    → Shows (print_chats (record t { chat_list = b; chats_overlay = [] }))
choice-Shows b {t} v h =
    print_chats-Shows (record t { chat_list = b; chats_overlay = [] }) h refl v.texts

renew_chats-Shows :
    (chats : List Text) (now_ch : Text) {t : Tui} → IsShown t → Shows (renew_chats chats now_ch t)
unfolding clear_chats
renew_chats-Shows chats now_ch {t} v =
    print_chats-Shows (record (clear_chats t) { chat_list = chosen_list chats now_ch })
      (chosen_list-IsChosen chats now_ch) refl v.texts

pub update_chats-Shows : (chats : List Text) {t : Tui} → IsShown t → Shows (update_chats chats t)
unfolding update_chats
update_chats-Shows [] {t} v = record { result = t; gives = refl; shown = v }
update_chats-Shows (part ∷ chats) {t} v =
    elim (Bool-cases (is_same_first (part ∷ chats) t.chat_list.buffer)) [
      | inl same ↦ rw same (record { result = t; gives = refl; shown = v })
      | inr other ↦
          let (name, named) = chosen_name-some t.chat_list v.chosen in
          rw (other, named) (renew_chats-Shows (part ∷ chats) name v)
    ]

print_messages-IsShown :
    (user : Bool) (part text : Text) {t : Tui}
    → IsShown t
    → IsShown (print_messages user part text t)
unfolding print_messages
print_messages-IsShown user part [] v = output-IsShown _ _ v
print_messages-IsShown user part (c ∷ text) v = elim (Bool-cases (c == bar)) [
  | inl cut ↦ elim (Bool-cases user) [
    | inl name ↦
        rw (cut, name, print_messages)
          (print_messages-IsShown false [] text
            (output-IsShown (codes ": ") color_white (output-IsShown part color_blue v)))
    | inr body ↦
        rw (cut, body, print_messages)
          (print_messages-IsShown true [] text (output-IsShown (part ++ (10 ∷ [])) color_white v))
  ]
  | inr next ↦ rw (next, print_messages) (print_messages-IsShown user (part ++ (c ∷ [])) text v)
]

pub print-Shows : (text : Text) (type : PrintType) {t : Tui} → IsShown t → Shows (print text type t)
unfolding print
print-Shows text system_info_ok v = record {
  result = _;
  gives = refl;
  shown = output-IsShown (text ++ (10 ∷ [])) color_magenta v;
}
print-Shows text system_info_err v = record {
  result = _;
  gives = refl;
  shown = output-IsShown (text ++ (10 ∷ [])) color_red v;
}
print-Shows text message v = record {
  result = _;
  gives = refl;
  shown = print_messages-IsShown true [] text v;
}
print-Shows text chat_info v = update_chats-Shows (split_parts [] text) v

-- All calls of the print function succeed.
pub print_all-Shows :
    (prints : List (Text × PrintType)) {t : Tui} → IsShown t → Shows (print_all prints t)
unfolding print_all
print_all-Shows [] {t} v = record { result = t; gives = refl; shown = v }
print_all-Shows ((text, type) ∷ prints) v =
    let first = print-Shows text type v in rw (first.gives) (print_all-Shows prints first.shown)
