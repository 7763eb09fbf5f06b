-- ===== src/Lab2/Child/Scan.antt =====
-- d_string.c: scan_string reads a line.
use mai_os.Base.{
  ℕ, ◌+◌, ◌*◌, ◌==◌, ◌<◌, ◌^◌, ◌≡◌, ◌≢◌, refl, sym, ap, ◌∙◌, ltb, leb, Bool, true, false, Option,
  none, some, ◌>>=◌, [], ◌∷◌, ◌++◌, append_assoc, append-nil, length, length-append, length-set,
  length-replicate, set, take, take-set_next, take-append_le, replicate, arith, Bool-cases, inl,
  inr,
}
use mathlib.Core.Path.{subst}
use mai_os.Base.Text.{Text}
use mai_os.Lab2.Child.{
  Scanned, Status, line_read, end_of_file, no_memory, store, grow, terminate, scan_from,
  scan_string,
}

-- no byte of the line ends it
abbrev pub IsLine : Text → Type 0
IsLine [] = Unit
IsLine (c ∷ cs) = (c ≢ 10) × IsLine cs

module _ (grants : ℕ → Bool) (junk : ℕ) (memory : (n : ℕ) → grants n ≡ true) where
  -- There is room for a byte behind those that were stored.
  abbrev pub Room : Text → ℕ → Text → Type 0
  Room buf new_len line = (new_len < length buf) × (take new_len buf ≡ line)

  grow-Room :
      (buf : Text) (new_len c : ℕ) (line : Text)
      → Room buf new_len line
      → new_len + 1 < 2 ^ 30
      → (buf' : Text) × (grow grants junk (set buf new_len c) (new_len + 1) ≡ some (some buf'))
        × Room buf' (new_len + 1) (line ++ (c ∷ []))
  unfolding grow
  grow-Room buf new_len c line (room, held) short =
      let size = length-set buf new_len c in
      let next : take (new_len + 1) (set buf new_len c) ≡ line ++ (c ∷ []) =
        take-set_next new_len buf c room ∙ ap (λ l. l ++ (c ∷ [])) held in
      elim (Bool-cases (leb (length (set buf new_len c)) (new_len + 1))) [
        | inl full ↦
            let b = set buf new_len c in
            let int : ltb (length b * 2) (2 ^ 31) ≡ true = ground arith in
            (
              b ++ replicate (length b) junk,
              rw (full, int, memory (length b * 2)) refl,
              (
                omega (
                  arith,
                  length-append b (replicate (length b) junk),
                  length-replicate (length b) junk,
                  size,
                ),
                take-append_le (new_len + 1) b (replicate (length b) junk) (omega (arith, size))
                    ∙ next,
              ),
            )
        | inr free ↦ (set buf new_len c, rw free refl, (ground arith, next))
      ]

  -- The result holds the line, ended by 0.
  abbrev pub Reads : Option Scanned → Status → Text → Text → Type 0
  Reads result status line rest =
      (s : Scanned) × (result ≡ some s)
      × (s.status ≡ status)
      × (take (length line + 1) s.str ≡ line ++ (0 ∷ []))
      × (s.len ≡ length line)
      × (s.rest ≡ rest)

  terminate-Reads :
      (status : Status) (buf : Text) (new_len : ℕ) (line rest : Text)
      → Room buf new_len line
      → length line ≡ new_len
      → Reads (terminate grants junk status buf new_len rest) status line rest
  unfolding terminate
  terminate-Reads status buf new_len line rest (room, held) size =
      let inside : ltb new_len (length buf) ≡ true = ground arith in
      (
        record { status = status; str = set buf new_len 0; len = new_len; rest = rest },
        rw inside refl,
        refl,
        ap (λ k. take (k + 1) (set buf new_len 0)) size
            ∙ take-set_next new_len buf 0 room
            ∙ ap (λ l. l ++ (0 ∷ [])) held,
        sym size,
        refl,
      )

  -- what the loop does with a byte that was stored
  abbrev pub next : Text → ℕ → Text → Option Scanned
  next input new_len stored = grow grants junk stored (new_len + 1) >>= λ (o : Option Text).
      elim o [
        | none ↦ some (record { status = no_memory; str = []; len = 0; rest = input })
        | some grown ↦ scan_from grants junk input grown (new_len + 1)
      ]

  next_lem :
      (input : Text) (new_len : ℕ) (stored grown : Text)
      → grow grants junk stored (new_len + 1) ≡ some (some grown)
      → next input new_len stored ≡ scan_from grants junk input grown (new_len + 1)
  next_lem input new_len stored grown grows = rw (grows, next) refl

  -- the loop on the bytes of a line, with `done` stored before
  scan_line :
      (line tail buf done : Text) (new_len : ℕ) (status : Status) (rest : Text)
      → IsLine line
      → Room buf new_len done
      → length done ≡ new_len
      → new_len + length line < 2 ^ 30
      → ((buf : Text) (n : ℕ)
          → scan_from grants junk tail buf n ≡ terminate grants junk status buf n rest)
      → Reads (scan_from grants junk (line ++ tail) buf new_len) status (done ++ line) rest
  unfolding scan_from
  scan_line [] tail buf done new_len status rest is room size short ends =
      rw (append-nil done, ends buf new_len)
        (terminate-Reads status buf new_len done rest room size)
  scan_line (c ∷ line) tail buf done new_len status rest (ne, is) room size short ends =
      let (grown, grows, room') = grow-Room buf new_len c done room (omega arith) in
      let other : (c == 10) ≡ false = ground arith in
      let inside : ltb new_len (length buf) ≡ true = ground (arith, room.0) in
      let stored : store buf new_len c ≡ some (set buf new_len c) = rw inside refl in
      let size' : length (done ++ (c ∷ [])) ≡ new_len + 1 =
        omega (arith, length-append done (c ∷ []), size) in
      let more =
        scan_line line tail grown (done ++ (c ∷ [])) (new_len + 1) status rest is room' size'
          (omega arith) ends in
      let step : scan_from grants junk (c ∷ (line ++ tail)) buf new_len
          ≡ scan_from grants junk (line ++ tail) grown (new_len + 1) =
        rw other (ap (λ o. o >>= next (line ++ tail) new_len) stored)
        ∙ next_lem (line ++ tail) new_len (set buf new_len c) grown grows in
      rw (step, sym (append_assoc done (c ∷ []) line)) more

  -- If there is memory, scan_string on a line shorter than 2 ^ 30 and a newline stays inside its
  -- array, returns 0 and the line, ended by 0, with its length, and leaves what is behind the
  -- newline; on such a line at the end of the input it does the same and returns EOF.
  pub scan_string-Reads :
      (line rest : Text)
      → IsLine line
      → length line < 2 ^ 30
      → Reads (scan_string grants junk (line ++ (10 ∷ rest))) line_read line rest
        × Reads (scan_string grants junk line) end_of_file line []
  unfolding scan_string scan_from
  scan_string-Reads line rest is short =
      let first : Room (replicate 1 junk) 0 [] = (omega arith, refl) in
      let ended =
        scan_line line [] (replicate 1 junk) [] 0 end_of_file [] is first refl (omega arith)
          (λ buf n. refl) in
      (
        rw (memory 1) (
            scan_line line (10 ∷ rest) (replicate 1 junk) [] 0 line_read rest is first refl
              (omega arith) (λ buf n. refl)),
        rw (memory 1) (
            subst (λ l. Reads (scan_from grants junk l (replicate 1 junk) 0) end_of_file line [])
              (append-nil line) ended),
      )
