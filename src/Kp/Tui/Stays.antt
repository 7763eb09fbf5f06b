-- ===== src/Kp/Tui/Stays.antt =====
-- The chosen chat stays chosen when the list is renewed.
use mai_os.Base.{
  ℕ, zero, suc, ◌+◌, ◌*◌, ◌/◌, ◌≡◌, refl, ap, sym, ◌∙◌, inl, inr, ◌⊎◌, List, [], ◌∷◌, ◌++◌, Bool,
  true, false, ◌||◌, some, if◌then◌else◌, length, get_elem?, arith, Bool-cases, length-append,
  lt-get_elem?,
}
use mai_os.Base.Text.{Text, str_eq, str_eq_iff}
use mathlib.Core.Path.{subst}
use mai_os.Kp.Tui.{
  listed_chat, ChatBufElem, ChatBuffer, Tui, add, set_now_choice, is_empty, add_chats,
  is_same_first, chosen_name, update_chats,
}
use mai_os.Kp.Tui.Choice.{IsChosen, renew_chats-some, chosen_list}

-- The names in a list of parts.
unfoldable pub has_chat : Text → List Text → Bool
has_chat name (p ∷ n ∷ u ∷ m ∷ chats) = str_eq n name || has_chat name chats
has_chat name chats = false

-- The chosen chat has the name.
abbrev ChosenIs : Text → ChatBuffer → Type 0
ChosenIs name b =
    (el : ChatBufElem) × (get_elem? b.buffer b.now_choice ≡ some el) × (el.chat_name ≡ name)

get_elem?-append :
    (xs ys : List ChatBufElem) (i : ℕ) {el : ChatBufElem}
    → get_elem? xs i ≡ some el
    → get_elem? (xs ++ ys) i ≡ some el
get_elem?-append [] ys i e = cc
get_elem?-append (x ∷ xs) ys zero e = e
get_elem?-append (x ∷ xs) ys (suc i) e = get_elem?-append xs ys i e

get_elem?-last :
    (xs : List ChatBufElem) (el : ChatBufElem) → get_elem? (xs ++ (el ∷ [])) (length xs) ≡ some el
get_elem?-last [] el = refl
get_elem?-last (x ∷ xs) el = get_elem?-last xs el

-- After one more chat: the new one if it has the name, the old choice otherwise.
added-ChosenIs :
    (name : Text) (k : ℕ) (el : ChatBufElem) (b : ChatBuffer)
    → length b.buffer ≡ k
    → (str_eq el.chat_name name ≡ true) ⊎ ChosenIs name b
    → ChosenIs name
        (if str_eq el.chat_name name then set_now_choice ((4 * k + 3) / 4) (add el b) else add el b)
added-ChosenIs name k el b e h = elim (Bool-cases (str_eq el.chat_name name)) [
  | inl hit ↦
      let at_end : (4 * k + 3) / 4 ≡ length b.buffer = omega arith in
      rw (hit, at_end) (el, get_elem?-last b.buffer el, (str_eq_iff _ _).0 hit)
  | inr miss ↦ elim h [
    | inl hit ↦ absurd (ground arith)
    | inr old ↦ rw miss (old.0, get_elem?-append b.buffer (el ∷ []) b.now_choice old.1, old.2)
  ]
]

length-added :
    (c : Bool) (pos : ℕ) (el : ChatBufElem) (b : ChatBuffer)
    → length (if c then set_now_choice pos (add el b) else add el b).buffer ≡ suc (length b.buffer)
length-added true pos el b = let l = length-append b.buffer (el ∷ []) in omega arith
length-added false pos el b = let l = length-append b.buffer (el ∷ []) in omega arith

add_chats-ChosenIs :
    (name : Text) (k : ℕ) (chats : List Text) (b : ChatBuffer)
    → length b.buffer ≡ k
    → (has_chat name chats ≡ true) ⊎ ChosenIs name b
    → ChosenIs name (add_chats name (4 * k) chats b)
unfolding add_chats has_chat
add_chats-ChosenIs name k [] b e h = elim h [ inl h' ↦ cc | inr h' ↦ h' ]
add_chats-ChosenIs name k (p ∷ []) b e h = elim h [ inl h' ↦ cc | inr h' ↦ h' ]
add_chats-ChosenIs name k (p ∷ n ∷ []) b e h = elim h [ inl h' ↦ cc | inr h' ↦ h' ]
add_chats-ChosenIs name k (p ∷ n ∷ u ∷ []) b e h = elim h [ inl h' ↦ cc | inr h' ↦ h' ]
add_chats-ChosenIs name k (p ∷ n ∷ u ∷ m ∷ chats) b e h =
    let el = listed_chat p n u m in
    let next = if str_eq n name then set_now_choice ((4 * k + 3) / 4) (add el b) else add el b in
    let len : length next.buffer ≡ suc k =
      length-added (str_eq n name) ((4 * k + 3) / 4) el b ∙ ap suc e in
    let there : (has_chat name chats ≡ true) ⊎ ChosenIs name next = elim h [
      | inl listed ↦ elim (Bool-cases (str_eq n name)) [
        | inl hit ↦ inr (added-ChosenIs name k el b e (inl hit))
        | inr miss ↦ inl (rw miss at listed)
      ]
      | inr old ↦ inr (added-ChosenIs name k el b e (inr old))
    ] in
    let same : 4 * suc k ≡ 4 * k + 4 = omega arith in
    subst (λ (i : ℕ). ChosenIs name (add_chats name i chats next)) same
      (add_chats-ChosenIs name (suc k) chats next len there)

ChosenIs-chosen_name : (name : Text) (b : ChatBuffer) → ChosenIs name b → chosen_name b ≡ some name
ChosenIs-chosen_name name b (el, here, named) =
    let lt = lt-get_elem? b.buffer b.now_choice here in
    let full : is_empty b ≡ false = ground arith in rw (full, here) (ap some named)

-- If the choice points into the list of chats or the list is empty, the chosen chat has a name
-- that is not empty, the new list has a chat of that name, and the update goes through, then the
-- chosen chat has that name afterwards
pub update_chats-chosen_name :
    (chats : List Text) (t : Tui) (c : ℕ) (name : Text) {t' : Tui}
    → IsChosen t.chat_list
    → chosen_name t.chat_list ≡ some (c ∷ name)
    → has_chat (c ∷ name) chats ≡ true
    → update_chats chats t ≡ some t'
    → chosen_name t'.chat_list ≡ some (c ∷ name)
unfolding update_chats has_chat
update_chats-chosen_name [] t c name h named listed e = cc
update_chats-chosen_name (part ∷ chats) t c name {t'} h named listed e =
    elim (Bool-cases (is_same_first (part ∷ chats) t.chat_list.buffer)) [
      | inl same ↦ let e' = rw same at e in let kept : t ≡ t' = cc in rw (← kept) named
      | inr other ↦
          let e' = rw (other, named) at e in
          let (u, done, list) = renew_chats-some (part ∷ chats) (c ∷ name) t in
          let kept : u ≡ t' = cc in
          let start : ChatBuffer = record { now_choice = 0; buffer = [] } in
          let chosen = add_chats-ChosenIs (c ∷ name) 0 (part ∷ chats) start refl (inl listed) in
          ap (λ (x : Tui). chosen_name x.chat_list) (sym kept)
          ∙ ap chosen_name list
          ∙ ChosenIs-chosen_name (c ∷ name) (chosen_list (part ∷ chats) (c ∷ name)) chosen
    ]
