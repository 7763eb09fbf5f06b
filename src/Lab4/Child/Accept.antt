-- ===== src/Lab4/Child/Accept.antt =====
-- child.c: what a chunk with a line does.
use mai_os.Base.{
  ℕ, suc, ◌+◌, ◌<◌, ◌==◌, ltb, ◌≡◌, refl, ap, ◌∙◌, Bool, true, false, none, some, ◌>>=◌, Option, [],
  ◌∷◌, ◌++◌, length, length-set, set, take, take-set_next, replicate, length-replicate, arith,
  if◌then◌else◌, Bool-cases, inl, inr, ◌⊎◌,
}
use mathlib.Core.Path.{subst}
use mai_os.Base.Text.{Text}
use mai_os.Lab2.Child.Filter.{IsText, c_string-take, first_same}
use mai_os.Lab4.Child.{
  Child, returns, Read, stopped, report, judge, end_line, after_loop, is_upper, allocate,
  read_chunk,
}
use mai_os.Lab4.Child.Line.{IsLine, with_buf, read_bytes-line}

line-IsText : (line : Text) → IsLine line → IsText line
line-IsText [] plain = tt
line-IsText (b ∷ line) (plain, more) = (plain.0, line-IsText line more)

-- what a line does to the answers file and to the memory for errors
abbrev pub with_line : Text → Child → Child
with_line [] c = c
with_line (b ∷ line) c =
    if is_upper b then record c { out = c.out ++ ((b ∷ line) ++ (10 ∷ [])) } else report c

judge_lem :
    (b : ℕ) (line str : Text) (c : Child)
    → take (suc (suc (length line))) str ≡ (b ∷ line) ++ (0 ∷ [])
    → IsText (b ∷ line)
    → judge str c ≡ some (with_line (b ∷ line) c)
judge_lem b line [] c e is = cc
judge_lem b line (d ∷ str) c e is =
    let same = first_same d b (take (suc (length line)) str) (line ++ (0 ∷ [])) e in
    let whole = c_string-take (b ∷ line) (d ∷ str) e is in rw (whole, same) refl

end_line_lem :
    (b : ℕ) (line buf : Text) (c : Child) (len max : ℕ)
    → length buf ≡ max
    → suc (length line) < max
    → take (suc (length line)) buf ≡ b ∷ line
    → IsText (b ∷ line)
    → end_line (suc (length line)) (with_buf c buf len max)
      ≡ some (with_line (b ∷ line) (with_buf c (set buf (suc (length line)) 0) 0 max))
unfolding end_line
end_line_lem b line buf c len max size room held is =
    let n = suc (length line) in
    let next : n + 1 ≡ suc n = omega arith in
    let inside : ltb n (length buf) ≡ true = ground arith in
    let kept : take (suc n) (set buf n 0) ≡ (b ∷ line) ++ (0 ∷ []) =
      subst (λ k. take k (set buf n 0) ≡ (b ∷ line) ++ (0 ∷ [])) next
        (take-set_next n buf 0 (omega arith) ∙ ap (λ l. l ++ (0 ∷ [])) held) in
    let judged = judge_lem b line (set buf n 0) (with_buf c (set buf n 0) len max) kept is in
    rw (inside, judged)
      (elim (Bool-cases (is_upper b)) [ inl upper ↦ rw upper refl | inr lower ↦ rw lower refl ])

-- what follows the loop, when it has stopped at the end of a line
after_loop-line :
    (line buf : Text) (c : Child) (max : ℕ)
    → IsText line
    → length buf ≡ max
    → length line < max
    → take (length line) buf ≡ line
    → (buf' : Text) × (after_loop (stopped (length line) 10 (with_buf c buf (length line) max))
        ≡ some (returns (with_line line (with_buf c buf' 0 max))))
      × (length buf' ≡ max)
after_loop-line [] buf c max is size room held = (buf, refl, size)
after_loop-line (b ∷ line) buf c max is size room held =
    let not_first : (suc (length line) == 0) ≡ false = ground arith in
    (
      set buf (suc (length line)) 0,
      rw (not_first, end_line_lem b line buf c (suc (length line)) max size room held is) refl,
      length-set buf (suc (length line)) 0 ∙ size,
    )

-- Nothing is in the array of the child, or it has none yet.
abbrev pub IsReady : Child → Type 0
IsReady c =
    (c.len_read_st ≡ 0)
    × (0 < c.max_read_len)
    × ((c.read_st ≡ none) ⊎ ((buf : Text) × (c.read_st ≡ some buf) × (length buf ≡ c.max_read_len)))

pub with_line-IsReady :
    (line buf : Text) (c : Child) (max : ℕ)
    → length buf ≡ max
    → 0 < max
    → IsReady (with_line line (with_buf c buf 0 max))
with_line-IsReady [] buf c max size room = (refl, room, inr (buf, refl, size))
with_line-IsReady (b ∷ line) buf c max size room = elim (Bool-cases (is_upper b)) [
  | inl upper ↦ rw upper (refl, room, inr (buf, refl, size))
  | inr lower ↦ rw lower (refl, room, inr (buf, refl, size))
]

module _ (grants : ℕ → Bool) (junk : ℕ) (memory : (size : ℕ) → grants size ≡ true) where
  ready-allocate :
      (c : Child)
      → IsReady c
      → (buf : Text) × (allocate grants junk c ≡ with_buf c buf 0 c.max_read_len)
        × (length buf ≡ c.max_read_len)
  ready-allocate c (no_len, room, array) = elim array [
    | inl gone ↦ (
      replicate c.max_read_len junk,
      rw (gone, memory c.max_read_len)
          (ap (λ l. record c { read_st = some (replicate c.max_read_len junk); len_read_st = l })
            no_len),
      length-replicate c.max_read_len junk,
    )
    | inr (buf, there, size) ↦
        (buf, rw there (ap (λ l. record c { read_st = some buf; len_read_st = l }) no_len), size)
  ]

  -- The child takes a line that the memory starts with.
  pub read_chunk-line :
      (c : Child) (line rest : Text)
      → IsReady c
      → IsLine line
      → length line < 1024
      → (buf : Text) × (max : ℕ) × (read_chunk grants junk (line ++ (10 ∷ rest)) c
          ≡ some (returns (with_line line (with_buf c buf 0 max))))
        × (length buf ≡ max)
        × (0 < max)
  unfolding read_chunk
  read_chunk-line c line rest ready plain short =
      let (buf, given, size) = ready-allocate c ready in
      let (buf', max', run, size', room', held) =
        read_bytes-line grants junk memory c line rest buf 10 0 0 c.max_read_len plain refl size
          ready.1 (omega arith) in
      let place : 0 + length line ≡ length line = omega arith in
      let held' = subst (λ k. take k buf' ≡ line) place held in
      let (buf'', ended, size'') =
        after_loop-line line buf' c max' (line-IsText line plain) size' (omega arith) held' in
      (
        buf'',
        max',
        rw given (
            ap (λ (r : Option Read). r >>= after_loop) run
            ∙ ap (λ k. after_loop (stopped k 10 (with_buf c buf' k max'))) place
            ∙ ended),
        size'',
        omega arith,
      )
