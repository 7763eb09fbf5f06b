-- ===== src/Kp/Messenger/Tests.antt =====
-- The program at its start, a line that is typed, and messages on the screen.
use mai_os.Base.{◌≡◌, ◌≢◌, refl, true, none, List, [], ◌∷◌, ◌++◌, arith, inl, inr}
use mai_os.Base.Text.{codes, str_eq}
use mai_os.Kp.Server.{Message, new_message}
use mai_os.Kp.Server.Messages.{new_text, drop_last}
use mai_os.Kp.Tui.{new_tui, chats_texts}
use mai_os.Kp.Messenger.{App, new_app, pressed, enter, step, input_handler, print_messages}
use mai_os.Kp.Messenger.Screen.{IsShown}
use mai_os.Kp.Messenger.Runs.{Runs, step-Runs, wants_argument}
use mai_os.Kp.Messenger.Inputs.{input_handler-none}
use mai_os.Kp.Messenger.Printing.{messages_texts, print_messages-new_text}

abbrev app : App
app =
    let a = new_app (codes "/tmp/a") in
    record a { tui = record a.tui { input_text = codes "login ann" } }

app-IsShown : IsShown app.tui
unfolding chats_texts
app-IsShown = record { chosen = inl refl; chats = refl; texts = refl }

step-Runs_example : Runs (step (pressed enter) app)
unfolding wants_argument str_eq
step-Runs_example = step-Runs (pressed enter) app (inr refl) app-IsShown

input_handler-none_example : input_handler (codes "join") app ≡ none
unfolding wants_argument str_eq
input_handler-none_example = input_handler-none b'j' (codes "oin") app refl refl

abbrev two_messages : List Message
two_messages =
    new_message (codes "ann") (codes "hi") 7 1 ∷ new_message (codes "bob") (codes "yes") 8 2 ∷ []

some_new : new_text 0 two_messages ≢ []
unfolding new_text
some_new e = cc

print_messages-new_text_example :
    (print_messages true [] (drop_last (new_text 0 two_messages)) new_tui).output_text
    ≡ new_tui.output_text ++ messages_texts 0 two_messages
print_messages-new_text_example =
    print_messages-new_text 0 two_messages new_tui
      ((omega arith, omega arith), ((omega arith, omega arith), tt)) some_new
