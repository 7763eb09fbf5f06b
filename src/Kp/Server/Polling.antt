-- ===== src/Kp/Server/Polling.antt =====
-- Polling: a client receives each message of a chat once.
use mai_os.Base.{
  ℕ, ◌^◌, ◌≤◌, ◌<◌, ◌≡◌, refl, ap, sym, inl, inr, ◌⊎◌, List, [], ◌∷◌, ◌++◌, false, ltb, arith,
  Bool-cases, append_assoc, if◌then◌else◌, pos,
}
use mai_os.Base.Decimal.{strtol, strtol-natural, int_to_str}
use mai_os.Kp.Server.{Message}
use mai_os.Kp.Server.Messages.{to_ulong, max, new_text, last_new}
use mai_os.Kp.Server.Lists.{All, All-map}
use mai_os.Kp.Server.Invariant.{Increasing}

pub new_text-append :
    (id : ℕ) (xs ys : List Message) → new_text id (xs ++ ys) ≡ new_text id xs ++ new_text id ys
unfolding new_text
new_text-append id [] ys = refl
new_text-append id (m ∷ xs) ys =
    rw (new_text-append id xs ys) (sym (append_assoc _ (new_text id xs) (new_text id ys)))

-- Messages that were seen are not sent again.
pub new_text-old :
    (id : ℕ) (ms : List Message) → All (λ (m : Message). m.id ≤ id) ms → new_text id ms ≡ []
unfolding new_text
new_text-old id [] h = refl
new_text-old id (m ∷ ms) (le, h) =
    let old : ltb id m.id ≡ false = ground arith in rw old (new_text-old id ms h)

-- The largest id that a poll answers with.
last_new-ge : (id lid : ℕ) (ms : List Message) → lid ≤ last_new id lid ms
unfolding last_new
last_new-ge id lid [] = omega arith
last_new-ge id lid (m ∷ ms) =
    let rest = last_new-ge id (if ltb id m.id then max lid m.id else lid) ms in ground arith

last_new-covers :
    (id lid : ℕ) (ms : List Message)
    → id ≤ lid
    → All (λ (m : Message). m.id ≤ last_new id lid ms) ms
unfolding last_new
last_new-covers id lid [] h = tt
last_new-covers id lid (m ∷ ms) h =
    let next = if ltb id m.id then max lid m.id else lid in
    let ge = last_new-ge id next ms in (ground arith, last_new-covers id next ms (ground arith))

Increasing-le-counter : (low c : ℕ) (ms : List Message) → Increasing low ms c → low ≤ c
Increasing-le-counter low c [] h = h
Increasing-le-counter low c (m ∷ ms) h = omega (arith, Increasing-le-counter m.id c ms h.1)

next_near :
    (id lid n c : ℕ)
    → n ≤ c
    → let next = if ltb id n then max lid n else lid in (next ≤ lid) ⊎ (next ≤ c)
next_near id lid n c h = elim (Bool-cases (ltb id n)) [
  | inl new ↦ rw new (elim (Bool-cases (ltb lid n)) [
    | inl more ↦ rw more (inr h)
    | inr less ↦ rw less (inl (omega arith))
  ])
  | inr old ↦ rw old (inl (omega arith))
]

-- It is the one that the client sent, or the id of a message of the list.
last_new-le :
    (id lid low c : ℕ) (ms : List Message)
    → Increasing low ms c
    → (last_new id lid ms ≤ lid) ⊎ (last_new id lid ms ≤ c)
unfolding last_new
last_new-le id lid low c [] h = inl (omega arith)
last_new-le id lid low c (m ∷ ms) h =
    let next = if ltb id m.id then max lid m.id else lid in
    let top = Increasing-le-counter m.id c ms h.1 in
    let near : (next ≤ lid) ⊎ (next ≤ c) = next_near id lid m.id c top in
    elim (last_new-le id next m.id c ms h.1) [
      | inl le ↦ elim near [ inl a ↦ inl (omega arith) | inr b ↦ inr (omega arith) ]
      | inr le ↦ inr le
    ]

Increasing-above :
    (low c : ℕ) (ms : List Message) → Increasing low ms c → All (λ (m : Message). low < m.id) ms
Increasing-above low c [] h = tt
Increasing-above low c (m ∷ ms) (lt, h) =
    (lt, All-map _ _ (λ (x : Message) above. omega arith) ms (Increasing-above m.id c ms h))

pub Increasing-below :
    (low c : ℕ) (ms : List Message) → Increasing low ms c → All (λ (m : Message). m.id ≤ c) ms
Increasing-below low c [] h = tt
Increasing-below low c (m ∷ ms) (lt, h) =
    (Increasing-le-counter m.id c ms h, Increasing-below m.id c ms h)

-- Two bounds that no message lies between ask for the same messages.
new_text-same :
    (id lid c : ℕ) (ms : List Message)
    → (lid ≤ id) ⊎ (lid ≤ c)
    → id ≤ lid
    → All (λ (m : Message). c < m.id) ms
    → new_text id ms ≡ new_text lid ms
unfolding new_text
new_text-same id lid c [] near le h = refl
new_text-same id lid c (m ∷ ms) near le (above, h) =
    let same : ltb id m.id ≡ ltb lid m.id = elim near [
      | inl a ↦ ground arith
      | inr b ↦ ground arith
    ] in
    rw (same, new_text-same id lid c ms near le h) refl

-- If the ids of a list of messages grow up to a number, those of later messages grow above it,
-- and the last id that a poll of the list answers with is below 2 ^ 63, then the messages that a
-- poll of the longer list from the first id would give are those of the first poll followed by
-- those of a poll from the last id as it is printed and read back: no message is lost or sent
-- twice
pub poll-poll :
    (id c d : ℕ) (ms more : List Message)
    → Increasing 0 ms c
    → Increasing c more d
    → last_new id id ms < 2 ^ 63
    → let lid = to_ulong (strtol (int_to_str (pos (last_new id id ms)))) in
      new_text id (ms ++ more) ≡ new_text id ms ++ new_text lid (ms ++ more)
poll-poll id c d ms more old later small =
    let lid = last_new id id ms in
    let reads : to_ulong (strtol (int_to_str (pos lid))) ≡ lid =
      ap to_ulong (strtol-natural lid small) in
    let seen = new_text-old lid ms (last_new-covers id id ms (omega arith)) in
    let same =
      new_text-same id lid c more (last_new-le id id 0 c ms old) (last_new-ge id id ms)
        (Increasing-above c d more later) in
    rw (reads, new_text-append id ms more, new_text-append lid ms more, seen, same) refl
