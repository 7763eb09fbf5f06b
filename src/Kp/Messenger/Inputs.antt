-- ===== src/Kp/Messenger/Inputs.antt =====
-- A command word that is typed without its argument.
use mai_os.Base.{ℕ, ◌≡◌, refl, ap, sym, ◌∙◌, inl, inr, [], ◌∷◌, true, false, none, Bool-cases}
use mathlib.Core.Path.{subst}
use mai_os.Base.Text.{Text, str_eq, str_eq_iff}
use mai_os.Kp.Constants.{cmd_login_word, cmd_private_word, cmd_join_word, cmd_create_word}
use mai_os.Kp.StringParser.{string_parser}
use mai_os.Kp.Messenger.{App, is_in_chat, run_parts, input_handler}
use mai_os.Kp.Messenger.Runs.{wants_argument}

bare_word :
    (cmd word : Text) (a : App)
    → str_eq cmd word ≡ true
    → run_parts (word ∷ []) a ≡ none
    → run_parts (cmd ∷ []) a ≡ none
bare_word cmd word a e h = ap (λ (w : Text). run_parts (w ∷ []) a) ((str_eq_iff cmd word).0 e) ∙ h

run_parts-bare : (cmd : Text) (a : App) → wants_argument cmd ≡ true → run_parts (cmd ∷ []) a ≡ none
unfolding wants_argument str_eq
run_parts-bare cmd a e = elim (Bool-cases (str_eq cmd cmd_login_word)) [
  | inl h ↦ bare_word cmd cmd_login_word a h refl
  | inr n1 ↦ elim (Bool-cases (str_eq cmd cmd_private_word)) [
    | inl h ↦ bare_word cmd cmd_private_word a h refl
    | inr n2 ↦ elim (Bool-cases (str_eq cmd cmd_join_word)) [
      | inl h ↦ bare_word cmd cmd_join_word a h refl
      | inr n3 ↦ bare_word cmd cmd_create_word a (rw (n1, n2, n3) at e) refl
    ]
  ]
]

-- A command word that wants an argument, typed alone: the argument is read where there is none.
alone :
    (cmd word : Text)
    → str_eq cmd word ≡ true
    → string_parser word 2 b' ' ≡ word ∷ []
    → string_parser cmd 2 b' ' ≡ cmd ∷ []
alone cmd word e h =
    let same : word ≡ cmd = sym ((str_eq_iff cmd word).0 e) in
    subst (λ (w : Text). string_parser w 2 b' ' ≡ w ∷ []) same h

bare_word-alone : (word : Text) → wants_argument word ≡ true → string_parser word 2 b' ' ≡ word ∷ []
unfolding wants_argument string_parser str_eq
bare_word-alone word e = elim (Bool-cases (str_eq word cmd_login_word)) [
  | inl h ↦ alone word cmd_login_word h refl
  | inr n1 ↦ elim (Bool-cases (str_eq word cmd_private_word)) [
    | inl h ↦ alone word cmd_private_word h refl
    | inr n2 ↦ elim (Bool-cases (str_eq word cmd_join_word)) [
      | inl h ↦ alone word cmd_join_word h refl
      | inr n3 ↦ alone word cmd_create_word (rw (n1, n2, n3) at e) refl
    ]
  ]
]

-- Outside a chat, an input that is just the word login, private, join or create makes the
-- program read an argument that is not there
pub input_handler-none :
    (c : ℕ) (text : Text) (a : App)
    → wants_argument (c ∷ text) ≡ true
    → is_in_chat a.client.state ≡ false
    → input_handler (c ∷ text) a ≡ none
unfolding input_handler
input_handler-none c text a e outside =
    rw outside (
      ap (λ parts. run_parts parts a) (bare_word-alone (c ∷ text) e)
      ∙ run_parts-bare (c ∷ text) a e)
