-- ===== src/Lab3/Workers/Tests.antt =====
-- Two threads and a file of three numbers.
use mai_os.Base.{
  ℕ, ◌+◌, ◌≡◌, refl, false, arith, Option, none, some, List, [], ◌∷◌, ◌++◌, replicate,
}
use mai_os.Base.Text.{Text}
use mai_os.Lab3.StringUtils.{hex_to_int128, digits_from, hex_to_int}
use mai_os.Lab3.Workers.{Pool, numbers, take_numbers, accumulate, turn, turns, thread_memory}
use mai_os.Lab3.Workers.Turns.{Has, turns_finish}

abbrev zeros : Text
zeros = replicate 31 48

abbrev three : Text
three = zeros ++ (49 ∷ 32 ∷ (zeros ++ (65 ∷ 32 ∷ (zeros ++ (70 ∷ 32 ∷ [])))))

-- in place of the arithmetic of `long double`: the sum
abbrev sum : ℕ → ℕ → ℕ → ℕ
sum res count tmp = res + tmp

abbrev start : Pool ℕ
start = record { file = three; workers = λ i. record { res = 0; count = 0 }; done = λ i. false }

abbrev order : List ℕ
order = 1 ∷ 0 ∷ 1 ∷ 1 ∷ 0 ∷ []

abbrev pool_of : Option (List ℕ × Pool ℕ) → Pool ℕ
pool_of none = start
pool_of (some r) = r.1

abbrev finish : Pool ℕ
finish = pool_of (turns sum (thread_memory 80 2) order start)

turns_finish_example : Has three (1 ∷ 10 ∷ 15 ∷ [])
unfolding turns turn take_numbers numbers accumulate thread_memory hex_to_int128 digits_from
    hex_to_int
turns_finish_example =
    turns_finish sum 80 2 order start finish (1 ∷ 10 ∷ 15 ∷ []) 0 (omega arith) (λ i. refl) refl
      refl

two_turns : thread_memory 80 2 ≡ 33
unfolding thread_memory
two_turns = refl
