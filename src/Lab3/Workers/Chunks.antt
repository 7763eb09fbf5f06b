-- ===== src/Lab3/Workers/Chunks.antt =====
-- main.c: the numbers in a part of the file.
use mai_os.Base.{
  ℕ, zero, suc, ◌+◌, ◌-◌, ◌*◌, ◌^◌, ltb, true, ◌≤◌, ◌<◌, ◌≡◌, refl, sym, ap, ◌∙◌, some, bind_some,
  List, [], ◌∷◌, ◌++◌, length, take, drop, arith,
}
use mai_os.Base.Text.{Text}
use mai_os.Lab3.StringUtils.{digits_from, hex_to_int128}
use mai_os.Lab3.Workers.{numbers, take_numbers}

digits_from_inside :
    (left k number : ℕ) (st : Text)
    → left < length st
    → left < k
    → (n : ℕ) × (digits_from left st number ≡ some n)
      × (digits_from left (take k st) number ≡ some n)
unfolding digits_from
digits_from_inside left k number [] h g = elim h [ ]
digits_from_inside left zero number (c ∷ st) h g = elim g [ ]
digits_from_inside zero (suc k) number (c ∷ st) h g = (_, refl, refl)
digits_from_inside (suc left) (suc k) number (c ∷ st) h g =
    digits_from_inside left k _ st (omega arith) (omega arith)

-- A number is read from its 32 characters, whatever is behind them.
hex_to_int128_inside :
    (k : ℕ) (st : Text)
    → 32 ≤ length st
    → 32 ≤ k
    → (n : ℕ) × (hex_to_int128 st ≡ some n) × (hex_to_int128 (take k st) ≡ some n)
unfolding hex_to_int128
hex_to_int128_inside k st h g = digits_from_inside 31 k 0 st (omega arith) (omega arith)

pub length-drop : (i : ℕ) (xs : Text) → length (drop i xs) ≡ length xs - i
length-drop zero xs = omega arith
length-drop (suc i) [] = omega arith
length-drop (suc i) (x ∷ xs) = omega (arith, length-drop i xs)

pub drop-nil : (i : ℕ) → drop {A = ℕ} i [] ≡ []
drop-nil zero = refl
drop-nil (suc i) = refl

take-nil : (i : ℕ) → take {A = ℕ} i [] ≡ []
take-nil zero = refl
take-nil (suc i) = refl

drop-drop : (i j : ℕ) (xs : Text) → drop i (drop j xs) ≡ drop (j + i) xs
drop-drop i zero xs = let e : 0 + i ≡ i = omega arith in rw e refl
drop-drop i (suc j) [] = let e : suc j + i ≡ suc (j + i) = omega arith in rw e (drop-nil i)
drop-drop i (suc j) (x ∷ xs) =
    let e : suc j + i ≡ suc (j + i) = omega arith in rw e (drop-drop i j xs)

drop-take : (i k : ℕ) (xs : Text) → drop i (take (i + k) xs) ≡ take k (drop i xs)
drop-take zero k xs = let e : 0 + k ≡ k = omega arith in rw e refl
drop-take (suc i) k [] = let e : suc i + k ≡ suc (i + k) = omega arith in rw e (sym (take-nil k))
drop-take (suc i) k (x ∷ xs) =
    let e : suc i + k ≡ suc (i + k) = omega arith in rw e (drop-take i k xs)

-- A buffer of enough characters has its numbers, and so has a longer one.
pub numbers_inside :
    (count k : ℕ) (st : Text)
    → count * 33 ≤ length st
    → count * 33 ≤ k
    → (ns : List ℕ) × (numbers count st ≡ some ns) × (numbers count (take k st) ≡ some ns)
unfolding numbers
numbers_inside zero k st h g = ([], refl, refl)
numbers_inside (suc count) k st h g =
    let (n, read, read') = hex_to_int128_inside k st (omega arith) (omega arith) in
    let (ns, rest, rest') =
      numbers_inside count (k - 33) (drop 33 st) (omega (arith, length-drop 33 st)) (omega arith) in
    let whole : 33 + (k - 33) ≡ k = omega arith in
    let part : drop 33 (take k st) ≡ take (k - 33) (drop 33 st) =
      ap (λ j. drop 33 (take j st)) (sym whole) ∙ drop-take 33 (k - 33) st in
    (n ∷ ns, rw (read, rest) refl, rw (read', part, rest') refl)

pub some_inj : (a b : List ℕ) → some a ≡ some b → b ≡ a
some_inj a b e = cc

-- The numbers of a buffer are those of its first part and those of the rest.
pub numbers-append :
    (a b : ℕ) (st : Text) (xs ys : List ℕ)
    → numbers a st ≡ some xs
    → numbers b (drop (a * 33) st) ≡ some ys
    → numbers (a + b) st ≡ some (xs ++ ys)
unfolding numbers
numbers-append zero b st xs ys e f =
    let count : 0 + b ≡ b = omega arith in
    let empty : xs ≡ [] = some_inj [] xs e in rw (count, empty) f
numbers-append (suc a) b st xs ys e f =
    let (t, read, e₁) = bind_some (hex_to_int128 st) _ e in
    let (ns, rest, e₂) = bind_some (numbers a (drop 33 st)) _ e₁ in
    let count : suc a + b ≡ suc (a + b) = omega arith in
    let place : 33 + a * 33 ≡ suc a * 33 = omega arith in
    let behind : drop (a * 33) (drop 33 st) ≡ drop (suc a * 33) st =
      drop-drop (a * 33) 33 st ∙ ap (λ k. drop k st) place in
    let all = numbers-append a b (drop 33 st) ns ys rest (rw behind f) in
    let same : xs ≡ t ∷ ns = some_inj (t ∷ ns) xs e₂ in
    rw (count, read, all) (ap (λ l. some (l ++ ys)) (sym same))

-- The loop takes the numbers that the buffer starts with, while its products are in the range of
-- int.
pub take_numbers-numbers :
    (count i : ℕ) (st : Text)
    → (i + count) * 33 < 2 ^ 31 + 33
    → take_numbers count i st ≡ numbers count st
unfolding numbers take_numbers
take_numbers-numbers zero i st h = refl
take_numbers-numbers (suc count) i st h =
    let int : ltb (33 * i) (2 ^ 31) ≡ true = ground arith in
    let more = take_numbers-numbers count (i + 1) (drop 33 st) (omega arith) in rw (int, more) refl
