-- ===== src/Kp/Tui/Choice.antt =====
-- The chosen chat is always in the list.
use mai_os.Base.{
  ℕ, suc, ◌+◌, ◌*◌, ◌/◌, ◌<◌, ◌≡◌, refl, sym, inl, inr, ◌⊎◌, List, [], ◌∷◌, ◌++◌, Bool, true, false,
  ◌==◌, some, if◌then◌else◌, length, arith, Bool-cases, length-append, get_elem?-lt,
}
use mai_os.Base.Text.{Text, str_eq}
use mathlib.Core.Path.{subst}
use mai_os.Kp.Tui.{
  listed_chat, ChatBufElem, ChatBuffer, Tui, add, set_now_choice, is_empty, now_choice_up,
  now_choice_down, clear_chats, print_chats, add_chats, is_same_first, is_empty_text, chosen_name,
  renew_chats, update_chats, chats_texts,
}

-- The choice points into the list, unless the list is empty.
abbrev pub IsChosen : ChatBuffer → Type 0
IsChosen b = (length b.buffer ≡ 0) ⊎ (b.now_choice < length b.buffer)

pub now_choice_up-IsChosen : (b : ChatBuffer) → IsChosen b → IsChosen (now_choice_up b).0
unfolding now_choice_up
now_choice_up-IsChosen b h = ground arith

pub now_choice_down-IsChosen : (b : ChatBuffer) → IsChosen b → IsChosen (now_choice_down b).0
unfolding now_choice_down
now_choice_down-IsChosen b (inl e) = elim (Bool-cases (length b.buffer == 0)) [
  | inl none_there ↦ ground arith
  | inr some_there ↦ absurd (ground arith)
]
now_choice_down-IsChosen b (inr lt) = ground arith

-- While the list is filled, the choice is 0 or points into it.
abbrev Filling : ChatBuffer → Type 0
Filling b = (b.now_choice ≡ 0) ⊎ (b.now_choice < length b.buffer)

added-Filling :
    (chosen : Bool) (k : ℕ) (el : ChatBufElem) (b : ChatBuffer)
    → length b.buffer ≡ k
    → Filling b
    → let next = if chosen then set_now_choice ((4 * k + 3) / 4) (add el b) else add el b in
      (length next.buffer ≡ suc k) × Filling next
added-Filling true k el b e h =
    let l = length-append b.buffer (el ∷ []) in (omega arith, inr (omega arith))
added-Filling false k el b e (inl zero_choice) =
    let l = length-append b.buffer (el ∷ []) in (omega arith, inl zero_choice)
added-Filling false k el b e (inr lt) =
    let l = length-append b.buffer (el ∷ []) in (omega arith, inr (omega arith))

add_chats-Filling :
    (now_ch : Text) (k : ℕ) (chats : List Text) (b : ChatBuffer)
    → length b.buffer ≡ k
    → Filling b
    → Filling (add_chats now_ch (4 * k) chats b)
unfolding add_chats
add_chats-Filling now_ch k [] b e h = h
add_chats-Filling now_ch k (p ∷ []) b e h = h
add_chats-Filling now_ch k (p ∷ n ∷ []) b e h = h
add_chats-Filling now_ch k (p ∷ n ∷ u ∷ []) b e h = h
add_chats-Filling now_ch k (p ∷ n ∷ u ∷ m ∷ chats) b e h =
    let el = listed_chat p n u m in
    let (len, fill) = added-Filling (str_eq n now_ch) k el b e h in
    let same : 4 * suc k ≡ 4 * k + 4 = omega arith in
    subst
      (λ (i : ℕ). Filling (
        add_chats now_ch i chats
          (if str_eq n now_ch then set_now_choice ((4 * k + 3) / 4) (add el b) else add el b)))
      same (add_chats-Filling now_ch (suc k) chats _ len fill)

pub print_chats-some :
    (t : Tui)
    → IsChosen t.chat_list
    → (t' : Tui) × (print_chats t ≡ some t') × (t'.chat_list ≡ t.chat_list)
unfolding print_chats
print_chats-some t (inl e) =
    let empty : is_empty t.chat_list ≡ true = ground arith in
    rw (empty, print_chats) (t, refl, refl)
print_chats-some t (inr lt) =
    let full : is_empty t.chat_list ≡ false = ground arith in
    let (el, here) = get_elem?-lt t.chat_list.buffer t.chat_list.now_choice lt in
    rw (full, here, print_chats)
      (
        record t {
          chats_overlay =
              t.chats_overlay ++ chats_texts t.chat_list.now_choice 0 t.chat_list.buffer;
        },
        refl,
        refl,
      )

pub chosen_name-some : (b : ChatBuffer) → IsChosen b → (name : Text) × (chosen_name b ≡ some name)
chosen_name-some b (inl e) = let empty : is_empty b ≡ true = ground arith in rw empty ([], refl)
chosen_name-some b (inr lt) =
    let full : is_empty b ≡ false = ground arith in
    let (el, here) = get_elem?-lt b.buffer b.now_choice lt in rw (full, here) (el.chat_name, refl)

IsChosen-of_Filling : (b : ChatBuffer) → Filling b → IsChosen b
IsChosen-of_Filling b h = ground arith

abbrev pub chosen_list : List Text → Text → ChatBuffer
chosen_list chats now_ch =
    let added = add_chats now_ch 0 chats (record { now_choice = 0; buffer = [] }) in
    if is_empty_text now_ch then set_now_choice 0 added else added

pub chosen_list-IsChosen : (chats : List Text) (now_ch : Text) → IsChosen (chosen_list chats now_ch)
chosen_list-IsChosen chats now_ch =
    let start : ChatBuffer = record { now_choice = 0; buffer = [] } in
    let added = add_chats now_ch 0 chats start in
    let fill : Filling added = add_chats-Filling now_ch 0 chats start refl (inl refl) in
    elim (Bool-cases (is_empty_text now_ch)) [
      | inl reset ↦ rw reset (IsChosen-of_Filling (set_now_choice 0 added) (inl refl))
      | inr stays ↦ rw stays (IsChosen-of_Filling added fill)
    ]

pub renew_chats-some :
    (chats : List Text) (now_ch : Text) (t : Tui)
    → (t' : Tui) × (renew_chats chats now_ch t ≡ some t')
      × (t'.chat_list ≡ chosen_list chats now_ch)
unfolding clear_chats
renew_chats-some chats now_ch t =
    print_chats-some (record (clear_chats t) { chat_list = chosen_list chats now_ch })
      (chosen_list-IsChosen chats now_ch)

-- An update never looks for a chat that is not there, and the choice stays in the list.
pub update_chats-IsChosen :
    (chats : List Text) (t : Tui)
    → IsChosen t.chat_list
    → (t' : Tui) × (update_chats chats t ≡ some t') × IsChosen t'.chat_list
unfolding update_chats
update_chats-IsChosen [] t h = (t, refl, h)
update_chats-IsChosen (part ∷ chats) t h =
    elim (Bool-cases (is_same_first (part ∷ chats) t.chat_list.buffer)) [
      | inl same ↦ rw same (t, refl, h)
      | inr other ↦
          let (name, named) = chosen_name-some t.chat_list h in
          let (t', done, list) = renew_chats-some (part ∷ chats) name t in
          rw (other, named) (t', done, subst IsChosen (sym list) (chosen_list-IsChosen _ name))
    ]
