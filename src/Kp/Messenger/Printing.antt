-- ===== src/Kp/Messenger/Printing.antt =====
-- The messages that a poll answers with, on the screen.
use mai_os.Base.{
  ℕ, ◌≡◌, ◌≢◌, refl, ap, sym, ◌∙◌, inl, inr, ◌⊎◌, List, [], ◌∷◌, ◌++◌, Bool, true, false, ◌==◌, ltb,
  if◌then◌else◌, arith, Bool-cases, append_assoc, append-nil,
}
use mai_os.Base.Text.{Text, codes}
use mai_os.Kp.Constants.{bar}
use mai_os.Kp.StringParser.{FreeOf}
use mai_os.Kp.Server.{Message}
use mai_os.Kp.Server.Lists.{All}
use mai_os.Kp.Server.Messages.{new_text, drop_last}
use mai_os.Kp.Server.Delivery.{drop_last-snoc}
use mai_os.Kp.Tui.{Tui, TextBufElem, text_elem, output, color_white, color_blue}
use mai_os.Kp.Messenger.{print_messages}

-- A message on the screen: the author in blue, a colon, and the text on a line.
abbrev pub message_texts : Text → Text → List TextBufElem
message_texts login text =
    text_elem login color_blue
    ∷ text_elem (codes ": ") color_white
    ∷ text_elem (text ++ (10 ∷ [])) color_white
    ∷ []

-- The messages that are newer than `id`.
unfoldable pub messages_texts : ℕ → List Message → List TextBufElem
messages_texts id [] = []
messages_texts id (m ∷ ms) =
    (if ltb id m.id then message_texts m.from_login m.text else []) ++ messages_texts id ms

print-next :
    (user : Bool) (part : Text) (c : ℕ) (text : Text) (t : Tui)
    → c ≢ bar
    → print_messages user part (c ∷ text) t ≡ print_messages user (part ++ (c ∷ [])) text t
unfolding print_messages
print-next user part c text t differs =
    let step : (c == bar) ≡ false = ground arith in rw (step, print_messages) refl

print-free :
    (user : Bool) (part p rest : Text) (t : Tui)
    → FreeOf bar p
    → print_messages user part (p ++ rest) t ≡ print_messages user (part ++ p) rest t
print-free user part [] rest t free = ap (λ q. print_messages user q rest t) (sym (append-nil part))
print-free user part (c ∷ p) rest t (differs, free) =
    print-next user part c (p ++ rest) t differs
    ∙ print-free user (part ++ (c ∷ [])) p rest t free
    ∙ ap (λ q. print_messages user q rest t) (append_assoc part (c ∷ []) p)

abbrev put_user : Text → Tui → Tui
put_user login t = output (codes ": ") color_white (output login color_blue t)

abbrev put_text : Text → Tui → Tui
put_text text t = output (text ++ (10 ∷ [])) color_white t

cut :
    (login rest : Text) (t : Tui)
    → print_messages true login (bar ∷ rest) t ≡ print_messages false [] rest (put_user login t)
unfolding print_messages
cut login rest t = refl

cut_text :
    (text rest : Text) (t : Tui)
    → print_messages false text (bar ∷ rest) t ≡ print_messages true [] rest (put_text text t)
unfolding print_messages
cut_text text rest t = refl

end : (text : Text) (t : Tui) → print_messages false text [] t ≡ put_text text t
unfolding print_messages
end text t = refl

print-user :
    (login rest : Text) (t : Tui)
    → FreeOf bar login
    → print_messages true [] (login ++ (bar ∷ rest)) t
      ≡ print_messages false [] rest (put_user login t)
print-user login rest t free = print-free true [] login (bar ∷ rest) t free ∙ cut login rest t

print-text :
    (text rest : Text) (t : Tui)
    → FreeOf bar text
    → print_messages false [] (text ++ (bar ∷ rest)) t
      ≡ print_messages true [] rest (put_text text t)
print-text text rest t free = print-free false [] text (bar ∷ rest) t free ∙ cut_text text rest t

print-end :
    (text : Text) (t : Tui) → FreeOf bar text → print_messages false [] text t ≡ put_text text t
print-end text t free =
    ap (λ q. print_messages false [] q t) (sym (append-nil text))
    ∙ print-free false [] text [] t free
    ∙ end text t

output-output_text :
    (s : Text) (color : ℕ) (t : Tui)
    → (output s color t).output_text ≡ t.output_text ++ (text_elem s color ∷ [])
unfolding output
output-output_text s color t = refl

put-output_text :
    (login text : Text) (t : Tui)
    → (put_text text (put_user login t)).output_text ≡ t.output_text ++ message_texts login text
unfolding output
put-output_text login text t =
    append_assoc (t.output_text ++ (text_elem login color_blue ∷ []))
      (text_elem (codes ": ") color_white ∷ []) (text_elem (text ++ (10 ∷ [])) color_white ∷ [])
    ∙ append_assoc t.output_text (text_elem login color_blue ∷ []) _

-- The author and the text of a message have no separator in them.
abbrev pub IsPlain : Message → Type 0
IsPlain m = FreeOf bar m.from_login × FreeOf bar m.text

-- What a list of messages reads as: nothing, or a body that prints all of them.
abbrev Reads : ℕ → List Message → Type 0
Reads id ms =
    ((new_text id ms ≡ []) × (messages_texts id ms ≡ []))
    ⊎ ((body : Text) × (new_text id ms ≡ body ++ (bar ∷ []))
        × ((t : Tui)
            → (print_messages true [] body t).output_text ≡ t.output_text ++ messages_texts id ms))

reads : (id : ℕ) (ms : List Message) → All IsPlain ms → Reads id ms
unfolding new_text messages_texts
reads id [] h = inl (refl, refl)
reads id (m ∷ ms) (plain, h) =
    let login = m.from_login in
    let text = m.text in
    elim (Bool-cases (ltb id m.id)) [
      | inr old ↦ rw old (reads id ms h)
      | inl new ↦ rw new (elim (reads id ms h) [
        | inl (no_text, no_texts) ↦ inr (
          login ++ (bar ∷ text),
          rw no_text (
              append-nil (login ++ (bar ∷ (text ++ (bar ∷ []))))
              ∙ sym (append_assoc login (bar ∷ text) (bar ∷ []))),
          λ t.
              ap Tui.output_text
                (print-user login text t plain.0 ∙ print-end text (put_user login t) plain.1)
              ∙ put-output_text login text t
              ∙ ap (λ (l : List TextBufElem). t.output_text ++ (message_texts login text ++ l))
                  (sym no_texts),
        )
        | inr (body, reads_body, prints_body) ↦ inr (
          login ++ (bar ∷ (text ++ (bar ∷ body))),
          rw reads_body (simp append_assoc),
          λ t.
              ap Tui.output_text (
                print-user login (text ++ (bar ∷ body)) t plain.0
                ∙ print-text text body (put_user login t) plain.1)
              ∙ prints_body (put_text text (put_user login t))
              ∙ ap (λ l. l ++ messages_texts id ms) (put-output_text login text t)
              ∙ append_assoc t.output_text (message_texts login text) (messages_texts id ms),
        )
      ])
    ]

-- For messages whose authors and texts have no separator, if some are newer than the id,
-- printing the text that the server makes of the new ones puts out exactly these messages in
-- their order, each as its author in blue, a colon and its text with a newline in white
pub print_messages-new_text :
    (id : ℕ) (ms : List Message) (t : Tui)
    → All IsPlain ms
    → new_text id ms ≢ []
    → (print_messages true [] (drop_last (new_text id ms)) t).output_text
      ≡ t.output_text ++ messages_texts id ms
print_messages-new_text id ms t plain some_new = elim (reads id ms plain) [
  | inl (no_text, no_texts) ↦ absurd (some_new no_text)
  | inr (body, reads_body, prints_body) ↦
      let whole : drop_last (new_text id ms) ≡ body =
        ap drop_last reads_body ∙ drop_last-snoc body bar in
      ap (λ (b : Text). (print_messages true [] b t).output_text) whole ∙ prints_body t
]
