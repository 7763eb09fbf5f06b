-- ===== src/Kp/Server/ChatList.antt =====
-- The list of a user's chats: those with the newest messages come first.
use mathlib.Core.List.{Perm}
use mathlib.Core.List.Perm
use mai_os.Base.{
  ℕ, ◌^◌, ◌≤◌, ◌<◌, ◌≡◌, refl, ap, ◌∙◌, inl, inr, List, [], ◌∷◌, ◌++◌, true, false, ltb, arith,
  Bool-cases, ℤ, pos, negsuc, to_int, eq_ℤ,
}
use mai_os.Base.Text.{Text}
use mai_os.Kp.Constants.{cmd_chats_word, status_ok}
use mai_os.Kp.Server.{Server, response}
use mai_os.Kp.Server.Sort.{text_lt, int_lt, pair_lt, insert_pair, sort_pairs}
use mai_os.Kp.Server.Messages.{
  private_entries, group_entries, entry_texts, drop_last, id_key, cmd_chats,
}

-- No pair stands before a smaller one.
abbrev IsSorted : List (ℤ × Text) → Type 0
IsSorted [] = Unit {0}
IsSorted (p ∷ []) = Unit {0}
IsSorted (p ∷ q ∷ ps) = (pair_lt q p ≡ false) × IsSorted (q ∷ ps)

int_lt_asymm : (a b : ℤ) → int_lt a b ≡ true → int_lt b a ≡ false
unfolding int_lt
int_lt_asymm (pos a) (pos b) h = ground arith
int_lt_asymm (pos a) (negsuc b) h = cc
int_lt_asymm (negsuc a) (pos b) h = refl
int_lt_asymm (negsuc a) (negsuc b) h = ground arith

text_lt_asymm : (s t : Text) → text_lt s t ≡ true → text_lt t s ≡ false
unfolding text_lt
text_lt_asymm [] [] h = cc
text_lt_asymm [] (d ∷ t) h = refl
text_lt_asymm (c ∷ s) [] h = cc
text_lt_asymm (c ∷ s) (d ∷ t) h = ground (arith, text_lt_asymm s t)

int_lt_irrefl : (a b : ℤ) → eq_ℤ a b ≡ true → int_lt b a ≡ false
unfolding int_lt
int_lt_irrefl (pos a) (pos b) h = ground arith
int_lt_irrefl (pos a) (negsuc b) h = cc
int_lt_irrefl (negsuc a) (pos b) h = cc
int_lt_irrefl (negsuc a) (negsuc b) h = ground arith

pair_lt_asymm : (p q : ℤ × Text) → pair_lt p q ≡ true → pair_lt q p ≡ false
unfolding pair_lt
pair_lt_asymm (a, s) (b, t) h =
    ground (arith, int_lt_asymm a b, int_lt_irrefl a b, int_lt_irrefl b a, text_lt_asymm s t)

insert_pair-perm : (p : ℤ × Text) (ps : List (ℤ × Text)) → Perm (insert_pair p ps) (p ∷ ps)
unfolding insert_pair
insert_pair-perm p [] = Perm.refl (p ∷ [])
insert_pair-perm p (q ∷ ps) = elim (Bool-cases (pair_lt q p)) [
  | inl less ↦ rw less (Perm.trans (Perm.cons q (insert_pair-perm p ps)) (Perm.swap p q ps))
  | inr first ↦ rw first (Perm.refl (p ∷ q ∷ ps))
]

sort_pairs-perm : (ps : List (ℤ × Text)) → Perm (sort_pairs ps) ps
unfolding sort_pairs
sort_pairs-perm [] = Perm.refl []
sort_pairs-perm (p ∷ ps) =
    Perm.trans (insert_pair-perm p (sort_pairs ps)) (Perm.cons p (sort_pairs-perm ps))

-- After a smaller pair `q`.
insert_after :
    (q p : ℤ × Text) (ps : List (ℤ × Text))
    → pair_lt q p ≡ true
    → IsSorted (q ∷ ps)
    → IsSorted (q ∷ insert_pair p ps)
unfolding insert_pair
insert_after q p [] less h = (pair_lt_asymm q p less, tt)
insert_after q p (r ∷ ps) less (le, h) = elim (Bool-cases (pair_lt r p)) [
  | inl below ↦ rw below (le, insert_after r p ps below h)
  | inr above ↦ rw above (pair_lt_asymm q p less, (above, h))
]

insert_pair-IsSorted :
    (p : ℤ × Text) (ps : List (ℤ × Text)) → IsSorted ps → IsSorted (insert_pair p ps)
unfolding insert_pair
insert_pair-IsSorted p [] h = tt
insert_pair-IsSorted p (q ∷ ps) h = elim (Bool-cases (pair_lt q p)) [
  | inl less ↦ rw less (insert_after q p ps less h)
  | inr first ↦ rw first (first, h)
]

sort_pairs-IsSorted : (ps : List (ℤ × Text)) → IsSorted (sort_pairs ps)
unfolding sort_pairs
sort_pairs-IsSorted [] = tt
sort_pairs-IsSorted (p ∷ ps) = insert_pair-IsSorted p (sort_pairs ps) (sort_pairs-IsSorted ps)

id_key-lt : (a b : ℕ) → a < b → b ≤ 2 ^ 31 → int_lt (id_key b) (id_key a) ≡ true
unfolding id_key to_int int_lt
id_key-lt a b lt small = ground arith

-- Where the second of two neighbours has an id up to 2 ^ 31, the first has no smaller one.
abbrev pub NewestFirst : List (ℤ × Text) → Type 0
NewestFirst [] = Unit {0}
NewestFirst (p ∷ []) = Unit {0}
NewestFirst (p ∷ q ∷ ps) =
    ((a b : ℕ) → p.0 ≡ id_key a → q.0 ≡ id_key b → b ≤ 2 ^ 31 → b ≤ a) × NewestFirst (q ∷ ps)

pair_newer :
    (p q : ℤ × Text) (a b : ℕ)
    → pair_lt q p ≡ false
    → p.0 ≡ id_key a
    → q.0 ≡ id_key b
    → b ≤ 2 ^ 31
    → b ≤ a
unfolding pair_lt
pair_newer (i, s) (j, t) a b h ea eb small = elim (Bool-cases (ltb a b)) [
  | inl less ↦
      let lt : a < b = ground arith in
      let below : int_lt j i ≡ true =
        ap (λ x. int_lt x i) eb ∙ ap (λ x. int_lt (id_key b) x) ea ∙ id_key-lt a b lt small in
      absurd (ground arith)
  | inr more ↦ ground arith
]

IsSorted-NewestFirst : (ps : List (ℤ × Text)) → IsSorted ps → NewestFirst ps
IsSorted-NewestFirst [] h = tt
IsSorted-NewestFirst (p ∷ []) h = tt
IsSorted-NewestFirst (p ∷ q ∷ ps) (le, h) =
    (λ a b ea eb sb. pair_newer p q a b le ea eb sb, IsSorted-NewestFirst (q ∷ ps) h)

-- The list of a user's chats is answered from the entries of its private and group chats in an
-- order in which of two neighbours made from message ids, the second of at most 2 ^ 31, the
-- first never has the smaller id
pub cmd_chats-NewestFirst :
    (pipe : Text) (user : ℕ) (s : Server)
    → (vec : List (ℤ × Text)) × (cmd_chats pipe user s
        ≡ response pipe cmd_chats_word status_ok (drop_last (entry_texts vec)) s)
      × Perm vec (private_entries s.users user s.private_chats ++ group_entries user s.group_chats)
      × NewestFirst vec
unfolding cmd_chats
cmd_chats-NewestFirst pipe user s =
    let entries =
      private_entries s.users user s.private_chats ++ group_entries user s.group_chats in
    (
      sort_pairs entries,
      refl,
      sort_pairs-perm entries,
      IsSorted-NewestFirst (sort_pairs entries) (sort_pairs-IsSorted entries),
    )
