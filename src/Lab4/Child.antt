-- ===== src/Lab4/Child.antt =====
-- lab4/child.c: the handler that reads a chunk of a line from the shared memory when it is told. A
-- byte of 255 is EOF, as a signed char; `none` is an access outside of an array or through a null
-- pointer, or an overflow of int.
pub mod Line
pub mod Accept
pub mod Exchange
mod Tests
use mai_os.Base.{
  ℕ, zero, suc, ◌+◌, ◌*◌, ◌^◌, ◌==◌, ltb, leb, Bool, true, false, not, ◌&&◌, ◌||◌, Option, none,
  some, ◌>>=◌, List, [], ◌∷◌, ◌++◌, length, set, replicate, if◌then◌else◌,
}
use mai_os.Base.Text.{Text, codes}
use mai_os.Lab2.Child.{c_string}
use mai_os.Lab4.Chunks.{store, send_line}

-- READ_ST, LEN_READ_ST and MAX_READ_LEN; the answers file, the memory for errors as the last text
-- that was copied there, and how often the parent was told.
pub record Child : Type 0 where
  pub read_st : Option Text
  pub len_read_st : ℕ
  pub max_read_len : ℕ
  pub out : Text
  pub error : Text
  pub signals : ℕ

abbrev pub new_child : Child
new_child = record {
  read_st = none;
  len_read_st = 0;
  max_read_len = 1;
  out = [];
  error = [];
  signals = 0;
}

abbrev pub invalid_string : Text
invalid_string = codes "invalid string\n"

abbrev pub is_upper : ℕ → Bool
is_upper ch = leb 65 ch && leb ch 90

abbrev pub is_last : ℕ → Bool
is_last c = c == 10 || c == 255

-- How the handler ends: it returns, the process exits, or there is no memory, when it returns with
-- the mutex still locked.
pub data Outcome : Type 0 where
  returns : Child → Outcome
  exits : Child → Outcome
  no_memory : Child → Outcome

-- What the loop gives: the index and the byte where it stopped, or no memory.
pub data Read : Type 0 where
  stopped : ℕ → ℕ → Child → Read
  failed : Child → Read

-- a string at the null pointer cannot be written
abbrev pub put : Child → ℕ → ℕ → Option Text
put c i v = c.read_st >>= λ (buf : Text). store buf i v

-- `strcpy` to the memory for errors, and the signal to the parent
abbrev pub report : Child → Child
report c = record c { error = invalid_string; signals = c.signals + 1 }

abbrev pub first_char : Text → Option ℕ
first_char [] = none
first_char (c ∷ s) = some c

-- What is done with a line that ended.
abbrev pub judge : Text → Child → Option Child
judge buf c = do
  ch ← first_char buf
  some (if is_upper ch then record c { out = c.out ++ (c_string buf ++ (10 ∷ [])) } else report c)

unfoldable pub end_line : ℕ → Child → Option Child
end_line i c = do
  buf ← put c i 0
  c ← judge buf (record c { read_st = some buf })
  some (record c { len_read_st = 0 })

abbrev pub after_loop : Read → Option Outcome
after_loop (failed c) = some (no_memory c)
after_loop (stopped i last c) = do
  c ← (if is_last last && not (i == 0) then end_line i c else some c)
  some (if last == 255 then exits c else returns c)

-- The memory after the last chunk.
abbrev pub last_memory : Text → List Text → Text
last_memory memory [] = memory
last_memory memory (message ∷ more) = last_memory message more

-- `grants` is what the allocator does for a size, `junk` what new cells hold.
module _ (grants : ℕ → Bool) (junk : ℕ) where
  abbrev pub allocate : Child → Child
  allocate c = elim c.read_st [
    | none ↦
        if grants c.max_read_len
        then record c { read_st = some (replicate c.max_read_len junk) }
        else c
    | some buf ↦ c
  ]

  -- The byte is stored, and a full array doubles; `buf` is READ_ST. MAX_READ_LEN is an int, which
  -- cannot be doubled from 2 ^ 30 on.
  unfoldable pub resize : Text → Child → Option (Child × Bool)
  resize buf c =
      let c = record c { read_st = some buf; len_read_st = c.len_read_st + 1 } in
      if leb c.max_read_len c.len_read_st
      then (if ltb (c.max_read_len * 2) (2 ^ 31)
          then some (
              let c = record c { max_read_len = c.max_read_len * 2 } in
              if grants c.max_read_len
              then (record c { read_st = some (buf ++ replicate (length buf) junk) }, true)
              else (record c { read_st = none }, false))
          else none)
      else some (c, true)

  -- The loop from the index `i`, where the rest of the memory is `message`.
  unfoldable pub read_bytes : Text → ℕ → Child → Option Read
  read_bytes [] i c = none
  read_bytes (b ∷ message) i c = elim (b == 0 || is_last b) [
    | true ↦ some (stopped i b c)
    | false ↦ do
      buf ← put c c.len_read_st b
      (c, ok) ← resize buf c
      elim ok [ true ↦ read_bytes message (i + 1) c | false ↦ some (failed c) ]
  ]

  unfoldable pub read_chunk : Text → Child → Option Outcome
  read_chunk message c = read_bytes message 0 (allocate c) >>= after_loop

  -- the handler for the memory after each chunk, until it does not return
  unfoldable pub read_chunks : List Text → Child → Option Outcome
  read_chunks [] c = some (returns c)
  read_chunks (message ∷ more) c = do
    r ← read_chunk message c
    elim r [
      | returns c ↦ read_chunks more c
      | exits c ↦ some (exits c)
      | no_memory c ↦ some (no_memory c)
    ]

  -- The parent sends lines, and the child takes each chunk before the next one is written.
  unfoldable pub exchange : List (Text × ℕ) → Text → Child → Option Outcome
  exchange [] shared c = some (returns c)
  exchange ((st, st_len) ∷ lines) shared c = do
    chunks ← send_line shared st st_len 10
    r ← read_chunks chunks c
    elim r [
      | returns c ↦ exchange lines (last_memory shared chunks) c
      | exits c ↦ some (exits c)
      | no_memory c ↦ some (no_memory c)
    ]
