-- ===== src/Lab4/Chunks/Tests.antt =====
-- A line of two bytes, and one that is too long.
use mai_os.Base.{ℕ, ◌≡◌, none, length-replicate, replicate, arith}
use mai_os.Base.Text.{Text}
use mai_os.Lab4.Chunks.{send_line}
use mai_os.Lab4.Chunks.Lines.{send_line-long}

abbrev memory : Text
memory = replicate 1024 0

send_line-long_example : send_line memory (replicate 1025 65) 1024 10 ≡ none
send_line-long_example =
    send_line-long memory (replicate 1025 65) 1024 10 (length-replicate {A = ℕ} 1024 0)
      (omega arith) (omega (arith, length-replicate {A = ℕ} 1025 65))
