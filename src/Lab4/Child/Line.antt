-- ===== src/Lab4/Child/Line.antt =====
-- child.c: what becomes of a line that fits into the shared memory.
use mai_os.Base.{
  ℕ, suc, ◌+◌, ◌*◌, ◌<◌, ◌^◌, ◌==◌, ltb, leb, ◌≡◌, ◌≢◌, refl, sym, ap, ◌∙◌, Bool, true, false, ◌||◌,
  some, ◌>>=◌, Option, [], ◌∷◌, ◌++◌, length, length-set, length-append, length-replicate, set,
  replicate, take, take-set_next, take-append_le, append_assoc, append-nil, arith, Bool-cases, inl,
  inr,
}
use mai_os.Base.Text.{Text}
use mai_os.Lab4.Child.{Child, Read, stopped, failed, put, is_last, resize, read_bytes}

-- A byte that does not end the loop.
abbrev pub IsPlain : ℕ → Type 0
IsPlain b = (b ≢ 0) × (b ≢ 10) × (b ≢ 255)

abbrev pub IsLine : Text → Type 0
IsLine [] = Unit {0}
IsLine (b ∷ line) = IsPlain b × IsLine line

-- READ_ST, its length and its size.
abbrev pub with_buf : Child → Text → ℕ → ℕ → Child
with_buf c buf len max = record c { read_st = some buf; len_read_st = len; max_read_len = max }

module _ (grants : ℕ → Bool) (junk : ℕ) (memory : (size : ℕ) → grants size ≡ true) where
  -- The array after a byte was stored.
  grown :
      (c : Child) (buf : Text) (len max b : ℕ)
      → length buf ≡ max
      → len < max
      → len + 1 < 2 ^ 30
      → (buf' : Text) × (max' : ℕ) × (resize grants junk (set buf len b) (with_buf c buf len max)
          ≡ some (with_buf c buf' (len + 1) max', true))
        × (length buf' ≡ max')
        × (len + 1 < max')
        × (take (len + 1) buf' ≡ take len buf ++ (b ∷ []))
  unfolding resize
  grown c buf len max b size room short =
      let stored = take-set_next len buf b (omega arith) in
      let same = length-set buf len b in
      elim (Bool-cases (leb max (len + 1))) [
        | inl full ↦
            let int : ltb (max * 2) (2 ^ 31) ≡ true = ground arith in
            let more = length-append (set buf len b) (replicate (length (set buf len b)) junk) in
            let added = length-replicate (length (set buf len b)) junk in
            let kept : take (len + 1) (set buf len b ++ replicate (length (set buf len b)) junk)
                ≡ take (len + 1) (set buf len b) =
              take-append_le (len + 1) (set buf len b) (replicate (length (set buf len b)) junk)
                (omega arith) in
            (
              set buf len b ++ replicate (length (set buf len b)) junk,
              max * 2,
              rw (full, int, memory (max * 2)) refl,
              omega arith,
              omega arith,
              kept ∙ stored,
            )
        | inr free ↦ (set buf len b, max, rw free refl, omega arith, ground arith, stored)
      ]

  -- a round of the loop
  next_round :
      (b : ℕ) (message : Text) (i : ℕ) (c : Child) (buf : Text) (c' : Child)
      → (b == 0 || is_last b) ≡ false
      → put c c.len_read_st b ≡ some buf
      → resize grants junk buf c ≡ some (c', true)
      → read_bytes grants junk (b ∷ message) i c ≡ read_bytes grants junk message (i + 1) c'
  unfolding read_bytes
  next_round b message i c buf c' goes_on stored resized =
      rw (read_bytes, goes_on)
        (ap (λ (o : Option Text). o >>= λ (buf : Text). after buf) stored
          ∙ ap
              (λ (o : Option (Child × Bool)). o >>= λ (r : Child × Bool). elim r.1 [
                | true ↦ read_bytes grants junk message (i + 1) r.0
                | false ↦ some (failed r.0)
              ])
              resized)
    where
      after : Text → Option Read
      after buf = do
        (c, ok) ← resize grants junk buf c
        elim ok [ true ↦ read_bytes grants junk message (i + 1) c | false ↦ some (failed c) ]

  -- The loop reads the line to its end.
  pub read_bytes-line :
      (c : Child) (line rest buf : Text) (last i len max : ℕ)
      → IsLine line
      → is_last last ≡ true
      → length buf ≡ max
      → len < max
      → len + length line < 2 ^ 30
      → (buf' : Text) × (max' : ℕ) × (read_bytes grants junk
            (line ++ (last ∷ rest))
            i
            (with_buf c buf len max)
          ≡ some (stopped (i + length line) last (with_buf c buf' (len + length line) max')))
        × (length buf' ≡ max')
        × (len + length line < max')
        × (take (len + length line) buf' ≡ take len buf ++ line)
  unfolding read_bytes
  read_bytes-line c [] rest buf last i len max plain ends size room short =
      let stops : (last == 0 || is_last last) ≡ true = ground arith in
      let e1 : i ≡ i + 0 = omega arith in
      let e2 : len ≡ len + 0 = omega arith in
      (
        buf,
        max,
        rw (read_bytes, stops, ← e1, ← e2) refl,
        size,
        omega arith,
        rw (← e2) (sym (append-nil (take len buf))),
      )
  read_bytes-line c (b ∷ line) rest buf last i len max (plain, more) ends size room short =
      let not_zero = plain.0 in
      let not_line = plain.1 in
      let not_eof = plain.2 in
      let goes_on : (b == 0 || is_last b) ≡ false = ground arith in
      let inside : ltb len (length buf) ≡ true = ground arith in
      let (buf', max', step, size', room', held) = grown c buf len max b size room (omega arith) in
      let (buf'', max'', run, size'', room'', held') =
        read_bytes-line c line rest buf' last (i + 1) (len + 1) max' more ends size' room'
          (omega arith) in
      let e1 : i + suc (length line) ≡ i + 1 + length line = omega arith in
      let e2 : len + suc (length line) ≡ len + 1 + length line = omega arith in
      (
        buf'',
        max'',
        rw (e1, e2)
            (next_round b (line ++ (last ∷ rest)) i (with_buf c buf len max) (set buf len b)
                (with_buf c buf' (len + 1) max') goes_on (rw inside refl) step
              ∙ run),
        size'',
        omega arith,
        rw e2 (held' ∙ ap (λ l. l ++ line) held ∙ append_assoc (take len buf) (b ∷ []) line),
      )
