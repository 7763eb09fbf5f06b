-- ===== src/Lab3/Workers.antt =====
-- lab3/main.c: the threads that read the file in turns. A turn is one round of the loop of
-- number_worker: the mutex makes its read of the file one step. `none` is an access outside the
-- buffer or an overflow of int.
pub mod Chunks
pub mod Turns
mod Tests
use mai_os.Base.{
  ℕ, zero, suc, ◌+◌, ◌-◌, ◌*◌, ◌/◌, ◌%◌, ◌^◌, ◌==◌, ltb, Bool, true, false, Option, none, some,
  ◌>>=◌, List, [], ◌∷◌, ◌++◌, length, take, drop, if◌then◌else◌,
}
use mai_os.Base.Text.{Text}
use mai_os.Lab3.StringUtils.{hex_to_int128}

-- the bytes of a number in the file, with the character that separates it from the next
abbrev pub number_bytes : ℕ
number_bytes = 33

-- the memory of a thread in main, in whole numbers
unfoldable pub thread_memory : ℕ → ℕ → ℕ
thread_memory max_memory max_threads =
    max_memory / max_threads - max_memory / max_threads % number_bytes

-- `NW_args` with a type for `long double`
pub record NwArgs {ℓ} (R : Type ℓ) : Type ℓ where
  pub res : R
  pub count : ℕ

pub record Pool {ℓ} (R : Type ℓ) : Type ℓ where
  pub file : Text
  pub workers : ℕ → NwArgs R
  pub done : ℕ → Bool

-- the numbers that a text starts with
unfoldable pub numbers : ℕ → Text → Option (List ℕ)
numbers zero char_buf = some []
numbers (suc count) char_buf = do
  tmp ← hex_to_int128 char_buf
  ns ← numbers count (drop number_bytes char_buf)
  some (tmp ∷ ns)

-- The inner loop from round `i` on, where `rest` is what is behind char_buf+(MAX_128_HEX_BYTES+1)*i.
-- That product is an int.
unfoldable pub take_numbers : ℕ → ℕ → Text → Option (List ℕ)
take_numbers zero i rest = some []
take_numbers (suc count) i rest =
    if ltb (number_bytes * i) (2 ^ 31)
    then (do
      tmp ← hex_to_int128 rest
      ns ← take_numbers count (i + 1) (drop number_bytes rest)
      some (tmp ∷ ns))
    else none

abbrev pub update {κ} : {B : Type κ} → (ℕ → B) → ℕ → B → ℕ → B
update f i b j = if j == i then b else f j

-- The average of the first numbers and the next one: `average res count tmp` stands for the
-- arithmetic of `long double`.
module _ {ℓ} {R : Type ℓ} (average : R → ℕ → ℕ → R) where
  unfoldable pub accumulate : NwArgs R → List ℕ → NwArgs R
  accumulate nw [] = nw
  accumulate nw (tmp ∷ ns) =
      accumulate (record { res = average nw.res (nw.count + 1) tmp; count = nw.count + 1 }) ns

  -- A thread that is not done reads from the file, takes the numbers and stops after a short read.
  -- The result has the numbers that it took. The number of bytes that were read is an unsigned int.
  unfoldable pub turn : ℕ → ℕ → Pool R → Option (List ℕ × Pool R)
  turn max_memory i s =
      let char_buf = take max_memory s.file in
      let read_count = length char_buf % 2 ^ 32 in
      if s.done i then some ([], s) else (do
        ns ← take_numbers (read_count / number_bytes) 0 char_buf
        some (
          ns,
          record {
            file = drop max_memory s.file;
            workers = update s.workers i (accumulate (s.workers i) ns);
            done = update s.done i (ltb read_count max_memory);
          },
        ))

  -- the turns of the threads in the order in which they get the mutex
  unfoldable pub turns : ℕ → List ℕ → Pool R → Option (List ℕ × Pool R)
  turns max_memory [] s = some ([], s)
  turns max_memory (i ∷ is) s = do
    (ns, s) ← turn max_memory i s
    (rest, s) ← turns max_memory is s
    some (ns ++ rest, s)
