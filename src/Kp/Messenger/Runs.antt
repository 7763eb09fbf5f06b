-- ===== src/Kp/Messenger/Runs.antt =====
-- The program runs on: each step gives a state that is shown, but for a command without its
-- argument and an answer without its parts.
use mai_os.Base.{
  ◌≡◌, refl, ap, sym, ◌∙◌, inl, inr, ◌⊎◌, List, [], ◌∷◌, Bool, true, false, ◌||◌, Option, some,
  if◌then◌else◌, arith, Bool-cases, get_elem?-lt,
}
use mathlib.Core.Path.{subst}
use mai_os.Base.Text.{Text, str_eq}
use mai_os.Kp.Constants.{
  cmd_help_word, cmd_login_word, cmd_logout_word, cmd_private_word, cmd_join_word, cmd_create_word,
  cmd_chats_word,
}
use mai_os.Kp.StringParser.{string_parser, string_parser_cons, join, join-string_parser}
use mai_os.Kp.Client
use mai_os.Kp.Client.{
  ClientState, not_login, in_group_chat, in_private_chat, in_main_menu, Client, cmd_login,
  cmd_logout, cmd_join, cmd_private, cmd_create_chat, cmd_push, cmd_chats,
}
use mai_os.Kp.Client.Handlers.{receive_round}
use mai_os.Kp.Tui.{
  Tui, Window, input_window, chats_window, ChatBuffer, is_empty, now_choice_up, now_choice_down,
  toggle_window, clear_output, clear_chats, color_red, update_windows, print_chats,
}
use mai_os.Kp.Tui.Choice.{IsChosen, now_choice_up-IsChosen, now_choice_down-IsChosen}
use mai_os.Kp.Messenger.{
  App, show_prints, call_client, help_in, poll_in, key_in, updater_chats, print_help, is_in_chat,
  back_to_menu, with_argument, run_command, run_parts, input_handler, update_chat, updater_poll,
  receiver_round, Key, resize, help, back, tab, enter, down, up, backspace, char, enter_chosen,
  on_tui, move_choice, on_input_key, on_chats_key, on_key, Event, pressed, polls, lists, received,
  step,
}
use mai_os.Kp.Messenger.Screen.{
  IsShown, Shows, output-IsShown, clear_output-IsShown, clear_chats-IsShown, print_all-Shows,
  update_windows-Shows, choice-Shows,
}

-- A step gives a state that is shown.
pub record Runs (o : Option App) : Type 0 where
  pub result : App
  pub gives : o ≡ some result
  pub shown : IsShown result.tui

Runs-some : (a : App) → IsShown a.tui → Runs (some a)
Runs-some a v = record { result = a; gives = refl; shown = v }

Runs-if : (b : Bool) (x y : Option App) → (b ≡ false) ⊎ Runs x → Runs y → Runs (if b then x else y)
Runs-if true x y (inl e) ry = cc
Runs-if true x y (inr rx) ry = rx
Runs-if false x y rx ry = ry

show_prints-Runs : (c : Client) (t : Tui) → IsShown t → Runs (show_prints c t)
show_prints-Runs c t v =
    let shown = print_all-Shows c.prints v in rw (shown.gives) (Runs-some _ shown.shown)

call_client-Runs : (f : Client → Client) (a : App) → IsShown a.tui → Runs (call_client f a)
call_client-Runs f a v = show_prints-Runs (f a.client) a.tui v

help_in-IsShown : (s : ClientState) {t : Tui} → IsShown t → IsShown (help_in s t)
help_in-IsShown not_login v = output-IsShown _ _ v
help_in-IsShown in_group_chat v = output-IsShown _ _ v
help_in-IsShown in_private_chat v = output-IsShown _ _ v
help_in-IsShown in_main_menu v = output-IsShown _ _ (
    output-IsShown _ _
      (output-IsShown _ _ (output-IsShown _ _ (output-IsShown _ _ (output-IsShown _ _ v)))))

print_help-IsShown : (a : App) → IsShown a.tui → IsShown (print_help a).tui
unfolding print_help
print_help-IsShown a v = help_in-IsShown a.client.state (output-IsShown _ _ (output-IsShown _ _ v))

back_to_menu-IsShown : (a : App) → IsShown a.tui → IsShown (back_to_menu a).tui
unfolding back_to_menu
back_to_menu-IsShown a v = elim (Bool-cases (is_in_chat a.client.state)) [
  | inl inside ↦ rw inside (print_help-IsShown _ (clear_output-IsShown v))
  | inr outside ↦ rw outside v
]

on_tui-Runs : (f : Tui → Option Tui) (a : App) → Shows (f a.tui) → Runs (on_tui f a)
on_tui-Runs f a s = rw (s.gives) (Runs-some _ s.shown)

move_choice-Runs :
    (moved : ChatBuffer × Bool) (a : App)
    → IsChosen moved.0
    → IsShown a.tui
    → Runs (move_choice moved a)
move_choice-Runs (chats, false) a h v = Runs-some a v
move_choice-Runs (chats, true) a h v =
    on_tui-Runs (λ t. print_chats (record t { chat_list = chats; chats_overlay = [] })) a
      (choice-Shows chats v h)

enter_chosen-Runs : (a : App) → IsShown a.tui → Runs (enter_chosen a)
unfolding update_chat
enter_chosen-Runs a v =
    let b = a.tui.chat_list in
    elim v.chosen [
      | inl e ↦ let empty : is_empty b ≡ true = ground arith in rw empty (Runs-some a v)
      | inr lt ↦
          let full : is_empty b ≡ false = ground arith in
          let (el, here) = get_elem?-lt b.buffer b.now_choice lt in
          rw (full, here) (show_prints-Runs _ _ (clear_output-IsShown v))
    ]

-- The words of the commands that want an argument.
unfoldable pub wants_argument : Text → Bool
wants_argument text =
    str_eq text cmd_login_word
    || (str_eq text cmd_private_word || (str_eq text cmd_join_word || str_eq text cmd_create_word))

with_argument-Runs :
    (x : Text) (more : List Text) (f : Text → Client → Client) (a : App)
    → IsShown a.tui
    → Runs (with_argument (x ∷ more) f a)
with_argument-Runs x more f a v = call_client-Runs (f x) a v

with_input-IsShown :
    (input : Text) {t : Tui} → IsShown t → IsShown (record t { input_text = input })
with_input-IsShown input v = record { chosen = v.chosen; chats = v.chats; texts = v.texts }

toggle_window-IsShown : {t : Tui} → IsShown t → IsShown (toggle_window t)
unfolding toggle_window
toggle_window-IsShown v = record { chosen = v.chosen; chats = v.chats; texts = v.texts }

abbrev HasArgument : List Text → Type 0
HasArgument arguments = (x : Text) × (more : List Text) × (arguments ≡ x ∷ more)

argument-Runs :
    (b : Bool) (arguments : List Text) (f : Text → Client → Client) (a : App)
    → IsShown a.tui
    → (b ≡ false) ⊎ HasArgument arguments
    → (b ≡ false) ⊎ Runs (with_argument arguments f a)
argument-Runs b arguments f a v (inl e) = inl e
argument-Runs b arguments f a v (inr (x, more, e)) = inr (
    subst (λ (l : List Text). Runs (with_argument l f a)) (sym e) (with_argument-Runs x more f a v))

run_command-Runs :
    (cmd : Text) (arguments : List Text) (a : App)
    → (wants_argument cmd ≡ false) ⊎ HasArgument arguments
    → IsShown a.tui
    → Runs (run_command cmd arguments a)
unfolding wants_argument
run_command-Runs cmd arguments a ok v =
    let is = str_eq cmd in
    let logged : (is cmd_login_word ≡ false) ⊎ HasArgument arguments = elim ok [
      | inl e ↦ inl (ground arith)
      | inr g ↦ inr g
    ] in
    let alone : (is cmd_private_word ≡ false) ⊎ HasArgument arguments = elim ok [
      | inl e ↦ inl (ground arith)
      | inr g ↦ inr g
    ] in
    let joined : (is cmd_join_word ≡ false) ⊎ HasArgument arguments = elim ok [
      | inl e ↦ inl (ground arith)
      | inr g ↦ inr g
    ] in
    let created : (is cmd_create_word ≡ false) ⊎ HasArgument arguments = elim ok [
      | inl e ↦ inl (ground arith)
      | inr g ↦ inr g
    ] in
    let out : App = record a { tui = clear_chats (clear_output a.tui) } in
    Runs-if (is cmd_help_word) _ _ (inr (Runs-some (print_help a) (print_help-IsShown a v))) (
      Runs-if (is cmd_login_word) _ _ (argument-Runs _ arguments cmd_login a v logged) (
        Runs-if (is cmd_logout_word) _ _
          (inr (call_client-Runs cmd_logout out (clear_chats-IsShown (clear_output-IsShown v))))
          (Runs-if (is cmd_private_word) _ _ (argument-Runs _ arguments cmd_private a v alone) (
            Runs-if (is cmd_join_word) _ _ (argument-Runs _ arguments cmd_join a v joined) (
              Runs-if (is cmd_create_word) _ _
                (argument-Runs _ arguments cmd_create_chat a v created)
                (Runs-if (is cmd_chats_word) _ _ (inr (call_client-Runs cmd_chats a v))
                  (Runs-some _ (output-IsShown _ color_red v))))))))

run_parts-Runs :
    (text : Text) (parts : List Text) (a : App)
    → join b' ' parts ≡ text
    → wants_argument text ≡ false
    → IsShown a.tui
    → (q : Text) (qs : List Text) → parts ≡ q ∷ qs
    → Runs (run_parts parts a)
run_parts-Runs text parts a whole plain v q [] e =
    let same : q ≡ text = ap (join b' ') (sym e) ∙ whole in
    let fine : wants_argument q ≡ false = ap wants_argument same ∙ plain in
    subst (λ (l : List Text). Runs (run_parts l a)) (sym e) (run_command-Runs q [] a (inl fine) v)
run_parts-Runs text parts a whole plain v q (r ∷ rs) e =
    subst (λ (l : List Text). Runs (run_parts l a)) (sym e)
      (run_command-Runs q (r ∷ rs) a (inr (r, rs, refl)) v)

-- The input is not a bare word of a command that wants an argument, or goes to a chat.
abbrev pub IsComplete : Text → App → Type 0
IsComplete text a = (is_in_chat a.client.state ≡ true) ⊎ (wants_argument text ≡ false)

input_handler-Runs :
    (text : Text) (a : App) → IsComplete text a → IsShown a.tui → Runs (input_handler text a)
unfolding input_handler
input_handler-Runs [] a ok v = Runs-some a v
input_handler-Runs (c ∷ text) a ok v = elim (Bool-cases (is_in_chat a.client.state)) [
  | inl inside ↦ rw inside (call_client-Runs (cmd_push (c ∷ text)) a v)
  | inr outside ↦
      let plain : wants_argument (c ∷ text) ≡ false = elim ok [ inl e ↦ cc | inr e ↦ e ] in
      let (q, qs, e) = string_parser_cons (c ∷ text) 2 b' ' in
      rw outside (
        run_parts-Runs (c ∷ text) (string_parser (c ∷ text) 2 b' ') a
          (join-string_parser (c ∷ text) 2 b' ') plain v q qs e)
]

on_input_key-Runs :
    (key : Key) (a : App)
    → IsComplete a.tui.input_text a
    → IsShown a.tui
    → Runs (on_input_key key a)
on_input_key-Runs resize a ok v = on_tui-Runs update_windows a (update_windows-Shows v)
on_input_key-Runs help a ok v = Runs-some _ (print_help-IsShown a v)
on_input_key-Runs back a ok v = Runs-some _ (back_to_menu-IsShown a v)
on_input_key-Runs tab a ok v = Runs-some _ (toggle_window-IsShown v)
on_input_key-Runs enter a ok v =
    let r = input_handler-Runs a.tui.input_text a ok v in
    rw (r.gives) (Runs-some _ (with_input-IsShown [] r.shown))
on_input_key-Runs down a ok v = Runs-some a v
on_input_key-Runs up a ok v = Runs-some a v
on_input_key-Runs backspace a ok v = Runs-some _ (with_input-IsShown _ v)
on_input_key-Runs (char c) a ok v = Runs-some _ (with_input-IsShown _ v)

on_chats_key-Runs : (key : Key) (a : App) → IsShown a.tui → Runs (on_chats_key key a)
on_chats_key-Runs resize a v = on_tui-Runs update_windows a (update_windows-Shows v)
on_chats_key-Runs help a v = Runs-some _ (print_help-IsShown a v)
on_chats_key-Runs back a v = Runs-some _ (back_to_menu-IsShown a v)
on_chats_key-Runs tab a v = Runs-some _ (toggle_window-IsShown v)
on_chats_key-Runs enter a v = enter_chosen-Runs a v
on_chats_key-Runs down a v =
    move_choice-Runs (now_choice_down a.tui.chat_list) a
      (now_choice_down-IsChosen a.tui.chat_list v.chosen) v
on_chats_key-Runs up a v =
    move_choice-Runs (now_choice_up a.tui.chat_list) a
      (now_choice_up-IsChosen a.tui.chat_list v.chosen) v
on_chats_key-Runs backspace a v = Runs-some a v
on_chats_key-Runs (char c) a v = Runs-some a v

key_in-Runs :
    (w : Window) (key : Key) (a : App)
    → IsComplete a.tui.input_text a
    → IsShown a.tui
    → Runs (key_in w key a)
key_in-Runs input_window key a ok v = on_input_key-Runs key a ok v
key_in-Runs chats_window key a ok v = on_chats_key-Runs key a v

poll_in-Runs : (s : ClientState) (a : App) → IsShown a.tui → Runs (poll_in s a)
poll_in-Runs not_login a v = Runs-some a v
poll_in-Runs in_group_chat a v = call_client-Runs (Client.update_chat a.client.last_update_id) a v
poll_in-Runs in_private_chat a v = call_client-Runs (Client.update_chat a.client.last_update_id) a v
poll_in-Runs in_main_menu a v = Runs-some a v

receiver_round-Runs :
    (line : Text) (a : App) {c : Client}
    → receive_round line a.client ≡ some c
    → IsShown a.tui
    → Runs (receiver_round line a)
unfolding receiver_round
receiver_round-Runs line a {c} e v = rw e (show_prints-Runs c a.tui v)

-- What an event needs: a complete input, or an answer with its parts.
abbrev pub Possible : Event → App → Type 0
Possible (pressed key) a = IsComplete a.tui.input_text a
Possible polls a = Unit {0}
Possible lists a = Unit {0}
Possible (received line) a = (c : Client) × (receive_round line a.client ≡ some c)

-- In a state where the choice points into the list of chats or the list is empty, the chats on
-- the screen are those of the list with the chosen one marked, and the texts on the screen are
-- those that were put out, each event gives such a state again and never an exception or a
-- missing part: a key if the input is not a bare word of a command that wants an argument or the
-- client is in a chat, either half of a round of the updater, and a line that the client takes
pub step-Runs : (event : Event) (a : App) → Possible event a → IsShown a.tui → Runs (step event a)
unfolding step on_key updater_poll updater_chats
step-Runs (pressed key) a ok v = key_in-Runs a.tui.now_window key a ok v
step-Runs polls a ok v = poll_in-Runs a.client.state a v
step-Runs lists a ok v = call_client-Runs cmd_chats a v
step-Runs (received line) a (c, e) v = receiver_round-Runs line a e v
