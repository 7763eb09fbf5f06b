-- ===== src/Lab4/Chunks/Lines.antt =====
-- main.c: what the child gets of a line.
use mai_os.Base.{
  ℕ, zero, suc, ◌+◌, ◌-◌, ◌*◌, ◌/◌, ◌≤◌, ◌<◌, ltb, ◌≡◌, refl, sym, ap, ◌∙◌, true, none, some, ◌>>=◌,
  [], ◌∷◌, ◌++◌, length, length-set, set, take, take-set_next, get_elem?, get_elem?-lt, arith,
  if◌then◌else◌, Bool-cases, inl, inr, Option-cases,
}
use mathlib.Core.Path.{subst}
use mai_os.Base.Text.{Text}
use mai_os.Lab4.Chunks.{copy, send_chunk, send_chunks, send_line}

take-next :
    (i : ℕ) (xs : Text) (c : ℕ) → get_elem? xs i ≡ some c → take (i + 1) xs ≡ take i xs ++ (c ∷ [])
take-next i [] c e = cc
take-next zero (x ∷ xs) c e = cc
take-next (suc i) (x ∷ xs) c e =
    let place : suc i + 1 ≡ suc (i + 1) = omega arith in
    rw place (ap (λ r. x ∷ r) (take-next i xs c e))

-- The loop copies what there is room for.
copy_lem :
    (count i : ℕ) (msg st : Text)
    → take i msg ≡ take i st
    → i + count ≤ length st
    → i + count ≤ length msg
    → (msg' : Text) × (copy count i msg st ≡ some msg')
      × (take (i + count) msg' ≡ take (i + count) st)
      × (length msg' ≡ length msg)
unfolding copy
copy_lem zero i msg st same h k =
    let place : i + 0 ≡ i = omega arith in (msg, refl, rw place same, refl)
copy_lem (suc count) i msg st same h k =
    let (c, got) = get_elem?-lt st i (omega arith) in
    let inside : ltb i (length msg) ≡ true = ground arith in
    let size = length-set msg i c in
    let next : take (i + 1) (set msg i c) ≡ take (i + 1) st =
      take-set_next i msg c (omega arith)
      ∙ ap (λ l. l ++ (c ∷ [])) same
      ∙ sym (take-next i st c got) in
    let (msg', run, same', size') =
      copy_lem count (i + 1) (set msg i c) st next (omega arith) (omega (arith, size)) in
    let place : i + suc count ≡ i + 1 + count = omega arith in
    (msg', rw (got, inside) run, rw place same', size' ∙ size)

-- A loop that goes past the end of the memory leaves it.
copy_past :
    (count i : ℕ) (msg st : Text)
    → i ≤ length msg
    → length msg < i + count
    → copy count i msg st ≡ none
unfolding copy
copy_past zero i msg st h k = absurd (omega arith)
copy_past (suc count) i msg st h k = elim (Option-cases (get_elem? st i)) [
  | inl gone ↦ rw gone refl
  | inr (c, got) ↦ elim (Bool-cases (ltb i (length msg))) [
    | inr outside ↦ rw (got, outside) refl
    | inl inside ↦
        let size = length-set msg i c in
        rw (got, inside)
          (copy_past count (i + 1) (set msg i c) st (ground (arith, size)) (omega (arith, size)))
  ]
]

-- the last index of the first chunk
abbrev pub first_end : ℕ → ℕ
first_end st_len = if ltb st_len ((0 + 1) * 1024) then st_len else (0 + 1) * 1024

first_chunk :
    (count : ℕ) (msg st : Text) (st_len : ℕ)
    → send_chunks (suc count) 0 msg st st_len ≡ (
        copy (first_end st_len + 1 - 0) 0 msg st >>= λ m.
        send_chunks count 1 m st st_len >>= λ rest. some (m ∷ rest))
unfolding send_chunks send_chunk
first_chunk count msg st st_len = refl

no_more : (j : ℕ) (msg st : Text) (st_len : ℕ) → send_chunks 0 j msg st st_len ≡ some []
unfolding send_chunks
no_more j msg st st_len = refl

send_line_stored :
    (msg st : Text) (st_len end count : ℕ)
    → st_len < length st
    → (st_len + 1024) / 1024 ≡ count
    → send_line msg st st_len end ≡ send_chunks count 0 msg (set st st_len end) st_len
unfolding send_line
send_line_stored msg st st_len end count room same =
    let inside : ltb st_len (length st) ≡ true = ground arith in rw inside (rw same refl)

-- A line shorter than the shared memory of 1024 bytes, in an array with room for its end, is
-- sent as one chunk, and the memory then starts with the line and its end.
pub send_line-short :
    (msg st : Text) (st_len end : ℕ)
    → length msg ≡ 1024
    → st_len < 1024
    → st_len < length st
    → (msg' : Text) × (send_line msg st st_len end ≡ some (msg' ∷ []))
      × (take (st_len + 1) msg' ≡ take st_len st ++ (end ∷ []))
      × (length msg' ≡ length msg)
send_line-short msg st st_len end size small room =
    let line = set st st_len end in
    let to : first_end st_len + 1 - 0 ≡ st_len + 1 = ground arith in
    let (msg', run, same, whole) =
      copy_lem (st_len + 1) 0 msg line refl (omega (arith, length-set st st_len end))
        (omega arith) in
    let place : 0 + (st_len + 1) ≡ st_len + 1 = omega arith in
    let run' : copy (first_end st_len + 1 - 0) 0 msg line ≡ some msg' =
      ap (λ k. copy k 0 msg line) to ∙ run in
    (
      msg',
      send_line_stored msg st st_len end 1 room (omega arith)
          ∙ first_chunk 0 msg line st_len
          ∙ ap (λ o. o >>= λ m. send_chunks 0 1 m line st_len >>= λ rest. some (m ∷ rest)) run'
          ∙ ap (λ o. o >>= λ rest. some (msg' ∷ rest)) (no_more 1 msg' line st_len),
      subst (λ k. take k msg' ≡ take k line) place same ∙ take-set_next st_len st end room,
      whole,
    )

-- The first chunk of a line of 1024 bytes or more, in an array with room for its end, is written
-- past the end of the shared memory of 1024 bytes.
pub send_line-long :
    (msg st : Text) (st_len end : ℕ)
    → length msg ≡ 1024
    → 1024 ≤ st_len
    → st_len < length st
    → send_line msg st st_len end ≡ none
send_line-long msg st st_len end size long room =
    let line = set st st_len end in
    let to : first_end st_len + 1 - 0 ≡ 1024 + 1 = ground arith in
    let count : (st_len + 1024) / 1024 ≡ suc (st_len / 1024) = omega arith in
    send_line_stored msg st st_len end (suc (st_len / 1024)) room count
    ∙ first_chunk (st_len / 1024) msg line st_len
    ∙ ap (λ o. o >>= λ m. send_chunks (st_len / 1024) 1 m line st_len >>= λ rest. some (m ∷ rest))
        (ap (λ k. copy k 0 msg line) to
          ∙ copy_past (1024 + 1) 0 msg line (omega arith) (omega arith))
