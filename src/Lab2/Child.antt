-- ===== src/Lab2/Child.antt =====
-- lab2/d_string.c and lab2/child.c: a line is read byte by byte into an array that doubles, and the
-- child prints it or reports it. The input is a list of bytes, after which read returns 0; `none`
-- is an access outside the array or an overflow of int.
pub mod Scan
pub mod Filter
mod Tests
use mai_os.Base.{
  ℕ, zero, suc, ◌+◌, ◌*◌, ◌-◌, ◌^◌, ◌==◌, ltb, leb, Bool, true, false, ◌&&◌, Option, none, some,
  ◌>>=◌, List, [], ◌∷◌, ◌++◌, length, set, replicate, if◌then◌else◌,
}
use mai_os.Base.Text.{Text, codes}

-- what scan_string returns: 0, EOF, or -1 where there is no memory
pub data Status : Type 0 where
  line_read : Status
  end_of_file : Status
  no_memory : Status

pub record Scanned : Type 0 where
  pub status : Status
  pub str : Text
  pub len : ℕ
  pub rest : Text

abbrev pub store : Text → ℕ → ℕ → Option Text
store buf i c = if ltb i (length buf) then some (set buf i c) else none

-- a string as printf reads it
abbrev pub c_string : Text → Text
c_string [] = []
c_string (c ∷ s) = if c == 0 then [] else c ∷ c_string s

abbrev pub is_upper : ℕ → Bool
is_upper ch = leb 65 ch && leb ch 90

-- standard output and standard error
pub record Output : Type 0 where
  pub out : Text
  pub err : Text

abbrev pub invalid_string : Text
invalid_string = codes "invalid string\n"

-- what one line does to the two outputs
unfoldable pub put_line : Text → Output → Option Output
put_line [] o = none
put_line (c ∷ s) o = some (
    if is_upper c
    then record o { out = o.out ++ (c_string (c ∷ s) ++ (10 ∷ [])) }
    else record o { err = o.err ++ invalid_string })

-- `grants` is what the allocator does for a size, `junk` what new cells hold.
module _ (grants : ℕ → Bool) (junk : ℕ) where
  -- The array after a byte was stored: doubled once it is full, unless there is no memory. The
  -- size is an int, which cannot be doubled from 2 ^ 30 on.
  unfoldable pub grow : Text → ℕ → Option (Option Text)
  grow buf new_len =
      if leb (length buf) new_len
      then (if ltb (length buf * 2) (2 ^ 31)
          then some
              (if grants (length buf * 2) then some (buf ++ replicate (length buf) junk) else none)
          else none)
      else some (some buf)

  unfoldable pub terminate : Status → Text → ℕ → Text → Option Scanned
  terminate status buf new_len rest = do
    buf ← store buf new_len 0
    some (record { status = status; str = buf; len = new_len; rest = rest })

  -- the loop over the bytes and what follows it
  unfoldable pub scan_from : Text → Text → ℕ → Option Scanned
  scan_from [] buf new_len = terminate end_of_file buf new_len []
  scan_from (c ∷ input) buf new_len = if c == 10 then terminate line_read buf new_len input else (do
    stored ← store buf new_len c
    grown ← grow stored (new_len + 1)
    elim grown [
      | none ↦ some (record { status = no_memory; str = []; len = 0; rest = input })
      | some grown ↦ scan_from input grown (new_len + 1)
    ])

  unfoldable pub scan_string : Text → Option Scanned
  scan_string input =
      if grants 1
      then scan_from input (replicate 1 junk) 0
      else some (record { status = no_memory; str = []; len = 0; rest = input })

  -- The loop of main. `rounds` bounds it; the Boolean says whether it ended.
  unfoldable pub filter_lines : ℕ → Text → Output → Option (Bool × Output)
  filter_lines zero input o = some (false, o)
  filter_lines (suc rounds) input o = do
    s ← scan_string input
    elim s.status [
      | line_read ↦ (put_line s.str o >>= λ o. filter_lines rounds s.rest o)
      | end_of_file ↦ some (true, o)
      | no_memory ↦ some (true, o)
    ]
