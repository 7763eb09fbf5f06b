-- ===== src/Lab4/Child/Exchange.antt =====
-- child.c and main.c: what becomes of lines that the parent sends.
use mai_os.Base.{
  ℕ, zero, suc, ◌+◌, ◌<◌, ◌≡◌, refl, sym, ap, ◌∙◌, Bool, true, false, some, List, [], ◌∷◌, ◌++◌,
  append_assoc, append-nil, length, take, arith, if◌then◌else◌, Bool-cases, inl, inr,
}
use mai_os.Base.Text.{Text}
use mai_os.Lab4.Child.{Child, returns, is_upper, read_chunk, read_chunks, exchange}
use mai_os.Lab4.Chunks.{send_line}
use mai_os.Lab4.Chunks.Lines.{send_line-short}
use mai_os.Lab4.Child.Line.{IsLine, with_buf}
use mai_os.Lab4.Child.Accept.{with_line, IsReady, read_chunk-line, with_line-IsReady}

abbrev pub is_kept : Text → Bool
is_kept [] = false
is_kept (b ∷ line) = is_upper b

-- what lines do: what is kept of them, and how many are reported
abbrev pub kept_lines : List Text → Text
kept_lines [] = []
kept_lines (line ∷ lines) =
    if is_kept line then line ++ (10 ∷ kept_lines lines) else kept_lines lines

abbrev pub reported : List Text → ℕ
reported [] = 0
reported ([] ∷ lines) = reported lines
reported ((b ∷ line) ∷ lines) = if is_upper b then reported lines else 1 + reported lines

-- Arrays with the lines and their lengths, with room for an end each.
abbrev pub AreArrays : List Text → List (Text × ℕ) → Type 0
AreArrays [] [] = Unit {0}
AreArrays [] (a ∷ arrays) = ⊥
AreArrays (line ∷ lines) [] = ⊥
AreArrays (line ∷ lines) ((st, st_len) ∷ arrays) =
    (st_len ≡ length line) × (st_len < length st) × (take st_len st ≡ line) × AreArrays lines arrays

-- lines that fit into the memory
abbrev pub AllShort : List Text → Type 0
AllShort [] = Unit {0}
AllShort (line ∷ lines) = IsLine line × (length line < 1024) × AllShort lines

take-rest : (n : ℕ) (m : Text) → (rest : Text) × (m ≡ take n m ++ rest)
take-rest zero m = (m, refl)
take-rest (suc n) [] = ([], refl)
take-rest (suc n) (b ∷ m) = let (rest, e) = take-rest n m in (rest, ap (λ l. b ∷ l) e)

starts_with :
    (n : ℕ) (m line : Text) (end : ℕ)
    → take n m ≡ line ++ (end ∷ [])
    → (rest : Text) × (m ≡ line ++ (end ∷ rest))
starts_with n m line end e =
    let (rest, split) = take-rest n m in
    (rest, split ∙ ap (λ l. l ++ rest) e ∙ append_assoc line (end ∷ []) rest)

with_line-out :
    (line : Text) (lines : List Text) (c : Child)
    → (with_line line c).out ++ kept_lines lines ≡ c.out ++ kept_lines (line ∷ lines)
with_line-out [] lines c = refl
with_line-out (b ∷ line) lines c = elim (Bool-cases (is_upper b)) [
  | inl upper ↦ rw upper (
      rw
        (
          append_assoc c.out ((b ∷ line) ++ (10 ∷ [])) (kept_lines lines),
          append_assoc (b ∷ line) (10 ∷ []) (kept_lines lines),
        )
        refl)
  | inr lower ↦ rw lower refl
]

with_line-signals :
    (line : Text) (lines : List Text) (c : Child)
    → (with_line line c).signals + reported lines ≡ c.signals + reported (line ∷ lines)
with_line-signals [] lines c = refl
with_line-signals (b ∷ line) lines c = elim (Bool-cases (is_upper b)) [
  | inl upper ↦ rw upper refl
  | inr lower ↦ rw lower (omega arith)
]

module _ (grants : ℕ → Bool) (junk : ℕ) (memory : (size : ℕ) → grants size ≡ true) where
  exchange-round :
      (lines : List (Text × ℕ)) (shared st message : Text) (st_len : ℕ) (c c' : Child)
      → send_line shared st st_len 10 ≡ some (message ∷ [])
      → read_chunk grants junk message c ≡ some (returns c')
      → exchange grants junk ((st, st_len) ∷ lines) shared c ≡ exchange grants junk lines message c'
  unfolding exchange read_chunks
  exchange-round lines shared st message st_len c c' sent took =
      rw (exchange, sent, read_chunks, took) refl

  exchange-line :
      (lines : List (Text × ℕ)) (shared line st : Text) (st_len : ℕ) (c : Child)
      → IsReady c
      → IsLine line
      → length line < 1024
      → length shared ≡ 1024
      → st_len ≡ length line
      → st_len < length st
      → take st_len st ≡ line
      → (shared' buf : Text) × (max : ℕ) × (exchange grants junk ((st, st_len) ∷ lines) shared c
          ≡ exchange grants junk lines shared' (with_line line (with_buf c buf 0 max)))
        × (length shared' ≡ 1024)
        × (length buf ≡ max)
        × (0 < max)
  exchange-line lines shared line st st_len c ready plain small full size room held =
      let (shared', sent, starts, full') =
        send_line-short shared st st_len 10 full (omega arith) room in
      let (rest, whole) =
        starts_with (st_len + 1) shared' line 10 (starts ∙ ap (λ l. l ++ (10 ∷ [])) held) in
      let (buf, max, run, size', room') =
        read_chunk-line grants junk memory c line rest ready plain small in
      (
        shared',
        buf,
        max,
        exchange-round lines shared st shared' st_len c (with_line line (with_buf c buf 0 max)) sent
            (ap (λ m. read_chunk grants junk m c) whole ∙ run),
        full' ∙ full,
        size',
        room',
      )

  -- If there is memory, the child has nothing in its array, and the shared memory has 1024
  -- bytes, then for lines shorter than that, without the bytes 0, 10 and 255, that the parent
  -- has in arrays with room for an end, and a child that takes each chunk before the next is
  -- written, every access is inside its array, the child returns each time, it adds to the
  -- answers the lines that start with a capital letter, each with a newline, and it tells the
  -- parent once for each other line that is not empty
  pub exchange-kept_lines :
      (lines : List Text) (arrays : List (Text × ℕ)) (shared : Text) (c : Child)
      → IsReady c
      → AllShort lines
      → AreArrays lines arrays
      → length shared ≡ 1024
      → (c' : Child) × (exchange grants junk arrays shared c ≡ some (returns c'))
        × (c'.out ≡ c.out ++ kept_lines lines)
        × (c'.signals ≡ c.signals + reported lines)
  unfolding exchange
  exchange-kept_lines [] [] shared c ready short are full =
      (c, refl, sym (append-nil c.out), omega arith)
  exchange-kept_lines [] (a ∷ arrays) shared c ready short are full = absurd are
  exchange-kept_lines (line ∷ lines) [] shared c ready short are full = absurd are
  exchange-kept_lines (line ∷ lines) ((st, st_len) ∷ arrays) shared c ready (plain, small, short)
        (size, room, held, are) full =
      let (shared', buf, max, run, full', size', room') =
        exchange-line arrays shared line st st_len c ready plain small full size room held in
      let next = with_line line (with_buf c buf 0 max) in
      let (c', ended, out, signals) =
        exchange-kept_lines lines arrays shared' next (with_line-IsReady line buf c max size' room')
          short are full' in
      (
        c',
        run ∙ ended,
        out ∙ with_line-out line lines (with_buf c buf 0 max),
        signals ∙ with_line-signals line lines (with_buf c buf 0 max),
      )
