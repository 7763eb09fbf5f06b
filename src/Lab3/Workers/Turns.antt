-- ===== src/Lab3/Workers/Turns.antt =====
-- main.c: what the threads take from the file, in any order of their turns.
use mai_os.Base.{
  ℕ, zero, suc, ◌+◌, ◌*◌, ◌/◌, ◌%◌, ◌^◌, ◌<◌, ◌≤◌, ◌≡◌, refl, sym, ap, ◌∙◌, true, false, ltb,
  Option, some, ◌>>=◌, bind_some, append-nil, ◌==◌, List, [], ◌∷◌, ◌++◌, append_assoc, length,
  length-take, take, drop, arith, if◌then◌else◌, Bool-cases, inl, inr,
}
use mathlib.Core.Path.{subst}
use mathlib.Core.Bool.{false≢true}
use mai_os.Base.Text.{Text}
use mai_os.Lab3.Workers.{Pool, thread_memory, numbers, turn, turns, accumulate, update}
use mai_os.Lab3.Workers.Chunks.{
  length-drop, numbers_inside, take_numbers-numbers, numbers-append, some_inj, drop-nil,
}

-- The numbers that a text has in whole.
abbrev pub Has : Text → List ℕ → Type 0
Has file ns = numbers (length file / 33) file ≡ some ns

pub numbers_of : (file : Text) → (ns : List ℕ) × Has file ns
numbers_of file =
    let (ns, all, part) =
      numbers_inside (length file / 33) (length file) file (omega arith) (omega arith) in
    (ns, all)

drop_all : (k : ℕ) (xs : Text) → length xs ≤ k → drop k xs ≡ []
drop_all k [] h = drop-nil k
drop_all zero (x ∷ xs) h = elim h [ ]
drop_all (suc k) (x ∷ xs) h = drop_all k xs (omega arith)

no_rest : (file : Text) (rest : List ℕ) → file ≡ [] → Has file rest → rest ≡ []
unfolding numbers
no_rest [] rest e h = some_inj [] rest h
no_rest (c ∷ file) rest e h = cc

no_rounds : (b : ℕ) (x y : Text) → b ≡ 0 → numbers b x ≡ numbers b y
unfolding numbers
no_rounds b x y e = rw e refl

-- A read of whole numbers splits the numbers of the file.
Has-split :
    (m : ℕ) (file : Text)
    → (xs : List ℕ) × (ys : List ℕ) × Has (take (m * 33) file) xs
      × Has (drop (m * 33) file) ys
      × Has file (xs ++ ys)
Has-split m file =
    let a = length (take (m * 33) file) / 33 in
    let b = length (drop (m * 33) file) / 33 in
    let size = length-take (m * 33) file in
    let behind = length-drop (m * 33) file in
    let (xs, at_start, part) =
      numbers_inside a (m * 33) file (omega (arith, size)) (omega (arith, size)) in
    let (ys, rest) = numbers_of (drop (m * 33) file) in
    let both : a + b ≡ length file / 33 = omega (arith, size, behind) in
    let next : numbers b (drop (a * 33) file) ≡ some ys =
      elim (Bool-cases (ltb (length file) (m * 33))) [
        | inl short ↦
            no_rounds b (drop (a * 33) file) (drop (m * 33) file) (ground (arith, behind)) ∙ rest
        | inr long ↦ let place : a * 33 ≡ m * 33 = ground (arith, size) in rw place rest
      ] in
    (
      xs,
      ys,
      part,
      rest,
      ap (λ k. numbers k file) (sym both) ∙ numbers-append a b file xs ys at_start next,
    )

drop_short : (k : ℕ) (xs : Text) → ltb (length (take k xs)) k ≡ true → drop k xs ≡ []
drop_short k xs h = drop_all k xs (ground (arith, length-take k xs))

module _ {ℓ} {R : Type ℓ} (average : R → ℕ → ℕ → R) where
  -- the state after a turn that took numbers
  abbrev pub after_turn : ℕ → ℕ → Pool R → List ℕ → Pool R
  after_turn k i s xs = record {
    file = drop k s.file;
    workers = update s.workers i (accumulate average (s.workers i) xs);
    done = update s.done i (ltb (length (take k s.file)) k);
  }

  -- The size of a read below 2 ^ 31 is not cut, and no product in the loop is out of range.
  turn-after_turn :
      (k i : ℕ) (s : Pool R)
      → k < 2 ^ 31
      → s.done i ≡ false
      → turn average k i s ≡ (
          numbers (length (take k s.file) / 33) (take k s.file) >>= λ xs.
          some (xs, after_turn k i s xs))
  unfolding turn
  turn-after_turn k i s small going =
      let read = length-take k s.file in
      let whole : length (take k s.file) % 2 ^ 32 ≡ length (take k s.file) = omega (arith, read) in
      let same =
        take_numbers-numbers (length (take k s.file) / 33) 0 (take k s.file)
          (omega (arith, read)) in
      rw (going, whole, same) refl

  turns-then :
      (k i : ℕ) (is : List ℕ) (s s₁ s' : Pool R) (xs ns : List ℕ)
      → turn average k i s ≡ some (xs, s₁)
      → turns average k is s₁ ≡ some (ns, s')
      → turns average k (i ∷ is) s ≡ some (xs ++ ns, s')
  unfolding turns
  turns-then k i is s s₁ s' xs ns first run = rw (turns, first, run) refl

  turns_split :
      (m : ℕ) (is : List ℕ) (s : Pool R)
      → m * 33 < 2 ^ 31
      → (ns : List ℕ) × (s' : Pool R) × (rest : List ℕ) × (turns average (m * 33) is s
          ≡ some (ns, s'))
        × Has s'.file rest
        × Has s.file (ns ++ rest)
  unfolding turns turn
  turns_split m [] s small = let (all, h) = numbers_of s.file in ([], s, all, refl, h, h)
  turns_split m (i ∷ is) s small = elim (Bool-cases (s.done i)) [
    | inl done ↦
        let (ns, s', rest, run, left, all) = turns_split m is s small in
        (ns, s', rest, rw (done, run) refl, left, all)
    | inr going ↦
        let (xs, ys, part, behind, whole) = Has-split m s.file in
        let first : turn average (m * 33) i s ≡ some (xs, after_turn (m * 33) i s xs) =
          turn-after_turn (m * 33) i s small going ∙ rw part refl in
        let (ns, s', rest, run, left, all) = turns_split m is (after_turn (m * 33) i s xs) small in
        let same : ns ++ rest ≡ ys = some_inj ys (ns ++ rest) (sym behind ∙ all) in
        (
          xs ++ ns,
          s',
          rest,
          turns-then (m * 33) i is s (after_turn (m * 33) i s xs) s' xs ns first run,
          left,
          rw (append_assoc xs ns rest, same) whole,
        )
  ]

  memory_lem :
      (max_memory max_threads : ℕ)
      → thread_memory max_memory max_threads ≡ max_memory / max_threads / 33 * 33
  unfolding thread_memory
  memory_lem max_memory max_threads = omega arith

  -- If the memory of a thread is below 2 ^ 31 bytes, then whatever the order in which the threads
  -- get the mutex, their turns read only inside the
  -- buffers, and the numbers that they took followed by those that the rest of the file has in
  -- whole are those that the file had: no read cuts a number.
  pub turns_take :
      (max_memory max_threads : ℕ) (is : List ℕ) (s : Pool R)
      → thread_memory max_memory max_threads < 2 ^ 31
      → (ns : List ℕ) × (s' : Pool R) × (rest : List ℕ) × (turns average
            (thread_memory max_memory max_threads)
            is
            s
          ≡ some (ns, s'))
        × Has s'.file rest
        × Has s.file (ns ++ rest)
  turns_take max_memory max_threads is s small =
      let memory = memory_lem max_memory max_threads in
      rw memory
        (turns_split (max_memory / max_threads / 33) is s (subst (λ k. k < 2 ^ 31) memory small))

  -- A thread that is done has left nothing in the file.
  abbrev pub Ended : Pool R → Type 0
  Ended s = (j : ℕ) → s.done j ≡ true → s.file ≡ []

  after_read :
      (k i j : ℕ) (s : Pool R)
      → Ended s
      → update s.done i (ltb (length (take k s.file)) k) j ≡ true
      → drop k s.file ≡ []
  after_read k i j s ended h = elim (Bool-cases (j == i)) [
    | inl same ↦
        drop_short k s.file
          (subst (λ b. (if b then ltb (length (take k s.file)) k else s.done j) ≡ true) same h)
    | inr other ↦
        let empty : s.file ≡ [] =
          ended j (
            subst (λ b. (if b then ltb (length (take k s.file)) k else s.done j) ≡ true) other h) in
        rw empty (drop-nil k)
  ]

  first_of :
      (a b : List ℕ) (s s' : Pool R)
      → ◌≡◌ {A = Option (List ℕ × Pool R)} (some (a, s)) (some (b, s'))
      → b ≡ a
  first_of a b s s' e = cc

  second :
      (a b : List ℕ) (s s' : Pool R)
      → ◌≡◌ {A = Option (List ℕ × Pool R)} (some (a, s)) (some (b, s'))
      → s ≡ s'
  second a b s s' e = cc

  turn-Ended :
      (k i : ℕ) (s s' : Pool R) (ns : List ℕ)
      → k < 2 ^ 31
      → Ended s
      → turn average k i s ≡ some (ns, s')
      → Ended s'
  unfolding turn
  turn-Ended k i s s' ns small ended e = elim (Bool-cases (s.done i)) [
    | inl done ↦
        let stay : turn average k i s ≡ some ([], s) = rw done refl in
        subst Ended (second [] ns s s' (sym stay ∙ e)) ended
    | inr going ↦
        let read = numbers (length (take k s.file) / 33) (take k s.file) in
        let reads = turn-after_turn k i s small going in
        let (xs, e₁, e₂) = bind_some read (λ xs. some (xs, after_turn k i s xs)) (sym reads ∙ e) in
        subst Ended (second xs ns (after_turn k i s xs) s' e₂) (λ j h. after_read k i j s ended h)
  ]

  turns-Ended :
      (k : ℕ) (is : List ℕ) (s s' : Pool R) (ns : List ℕ)
      → k < 2 ^ 31
      → Ended s
      → turns average k is s ≡ some (ns, s')
      → Ended s'
  unfolding turns
  turns-Ended k [] s s' ns small ended e = subst Ended (second [] ns s s' e) ended
  turns-Ended k (i ∷ is) s s' ns small ended e =
      let ((xs, s₁), e₁, e₂) = bind_some (turn average k i s) _ e in
      let ((ys, s₂), e₃, e₄) = bind_some (turns average k is s₁) _ e₂ in
      subst Ended (second (xs ++ ys) ns s₂ s' e₄)
        (turns-Ended k is s₁ s₂ ys small (turn-Ended k i s s₁ xs small ended e₁) e₃)

  -- If the memory of a thread is below 2 ^ 31 bytes, the threads, none of them done at first,
  -- get the mutex in any order and a thread is done at the end, then the numbers that the turns
  -- took, in the order of the turns, are all the numbers that the file has in whole, each once
  -- and in the order of the file.
  pub turns_finish :
      (max_memory max_threads : ℕ) (is : List ℕ) (s s' : Pool R) (ns : List ℕ) (j : ℕ)
      → thread_memory max_memory max_threads < 2 ^ 31
      → ((i : ℕ) → s.done i ≡ false)
      → turns average (thread_memory max_memory max_threads) is s ≡ some (ns, s')
      → s'.done j ≡ true
      → Has s.file ns
  turns_finish max_memory max_threads is s s' ns j small none_done run done =
      let k = thread_memory max_memory max_threads in
      let (xs, s₁, rest, run', left, all) = turns_take max_memory max_threads is s small in
      let fresh : Ended s = λ i h. absurd (false≢true (sym (none_done i) ∙ h)) in
      let empty : s'.file ≡ [] = turns-Ended k is s s' ns small fresh run j done in
      let same : ◌≡◌ {A = Option (List ℕ × Pool R)} (some (xs, s₁)) (some (ns, s')) =
        sym run' ∙ run in
      let nothing : rest ≡ [] = no_rest s₁.file rest (rw (second xs ns s₁ s' same) empty) left in
      let taken : ns ≡ xs = first_of xs ns s₁ s' same in
      rw (taken, sym (append-nil xs), sym nothing) all
