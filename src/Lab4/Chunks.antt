-- ===== src/Lab4/Chunks.antt =====
-- lab4/main.c: a line is written in chunks to the memory that the child reads. The memory and the
-- line are lists of bytes; `none` is an access outside of one of them.
pub mod Lines
mod Tests
use mai_os.Base.{
  ℕ, zero, suc, ◌+◌, ◌-◌, ◌*◌, ◌/◌, ltb, Option, none, some, ◌>>=◌, List, [], ◌∷◌, length, set,
  get_elem?, if◌then◌else◌,
}
use mai_os.Base.Text.{Text}

abbrev pub messages_filesize : ℕ
messages_filesize = 1024

abbrev pub store : Text → ℕ → ℕ → Option Text
store buf i c = if ltb i (length buf) then some (set buf i c) else none

-- the loop of send_chunk with `count` rounds to go
unfoldable pub copy : ℕ → ℕ → Text → Text → Option Text
copy zero i msg st = some msg
copy (suc count) i msg st = do c ← get_elem? st i; msg ← store msg i c; copy count (i + 1) msg st

unfoldable pub send_chunk : Text → Text → ℕ → ℕ → Option Text
send_chunk msg st l r = copy (r + 1 - l) l msg st

-- The inner loop of `loop`, from chunk `j` on. The result has the memory after each chunk, when the
-- child is told.
unfoldable pub send_chunks : ℕ → ℕ → Text → Text → ℕ → Option (List Text)
send_chunks zero j msg st st_len = some []
send_chunks (suc count) j msg st st_len = do
  let to = if ltb st_len ((j + 1) * messages_filesize) then st_len else (j + 1) * messages_filesize
  msg ← send_chunk msg st (j * messages_filesize) to
  rest ← send_chunks count (j + 1) msg st st_len
  some (msg ∷ rest)

-- a line with its end, as `loop` sends it
unfoldable pub send_line : Text → Text → ℕ → ℕ → Option (List Text)
send_line msg st st_len end = do
  st ← store st st_len end
  send_chunks ((st_len + messages_filesize) / messages_filesize) 0 msg st st_len
