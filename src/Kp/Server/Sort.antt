-- ===== src/Kp/Server/Sort.antt =====
-- `std::sort` on pairs of an `int` and a string, which the server uses to order the chats. Equal
-- pairs are the same pair, so the order determines the result.
use mai_os.Base.{
  List, [], ◌∷◌, Bool, true, false, ◌&&◌, ◌||◌, ltb, ◌==◌, if◌then◌else◌, ℤ, pos, negsuc, eq_ℤ,
}
use mai_os.Base.Text.{Text}

-- `a < b` on strings, which compares the bytes
unfoldable pub text_lt : Text → Text → Bool
text_lt s [] = false
text_lt [] (d ∷ t) = true
text_lt (c ∷ s) (d ∷ t) = ltb c d || (c == d) && text_lt s t

unfoldable pub int_lt : ℤ → ℤ → Bool
int_lt (pos a) (pos b) = ltb a b
int_lt (pos a) (negsuc b) = false
int_lt (negsuc a) (pos b) = true
int_lt (negsuc a) (negsuc b) = ltb b a

-- `a < b` on pairs
unfoldable pub pair_lt : ℤ × Text → ℤ × Text → Bool
unfolding text_lt int_lt
pair_lt (a, s) (b, t) = int_lt a b || eq_ℤ a b && text_lt s t

unfoldable pub insert_pair : ℤ × Text → List (ℤ × Text) → List (ℤ × Text)
insert_pair p [] = p ∷ []
insert_pair p (q ∷ qs) = if pair_lt q p then q ∷ insert_pair p qs else p ∷ (q ∷ qs)

unfoldable pub sort_pairs : List (ℤ × Text) → List (ℤ × Text)
sort_pairs [] = []
sort_pairs (p ∷ ps) = insert_pair p (sort_pairs ps)
