-- ===== src/Kp/Server/Logins.antt =====
-- Logging in and out in the list of users: who is known and authorized.
use mai_os.Base.{
  ℕ, zero, suc, ◌≡◌, refl, sym, ◌∙◌, ◌≢◌, inl, inr, List, [], ◌∷◌, ◌++◌, Bool, true, false, not,
  ◌&&◌, ◌||◌, Option, some, none, arith, Bool-cases, if◌then◌else◌,
}
use mai_os.Base.Text.{Text, str_eq, str_eq_iff, str_eq_of_ne}
use mai_os.Kp.Constants.{none_user_name, system_name}
use mai_os.Kp.Server.{User, find_from, modify, find_user, set_authorized, new_user}
use mai_os.Kp.Server.Commands.{is_authorized, already_in}
use mai_os.Kp.Server.Lists.{All}

-- The user of that name is known and authorized.
unfoldable pub is_logged_in : List User → Text → Bool
is_logged_in users name = already_in users (find_user users name)

-- The same by recursion.
unfoldable pub logged : List User → Text → Bool
logged [] name = false
logged (u ∷ us) name = if str_eq u.login name then u.authorized else logged us name

abbrev later : Option ℕ → Option ℕ
later none = none
later (some k) = some (suc k)

pub or_true : (b : Bool) → true ≡ b || true
or_true true = refl
or_true false = refl

pub or_false : (b : Bool) → b ≡ b || false
or_false true = refl
or_false false = refl

pub or_and_false : (b c : Bool) → b ≡ b || c && false
or_and_false b c = ground arith

pub or_and_true : (b c : Bool) → b || c ≡ b || c && true
or_and_true b c = ground arith

pub and_true : (b : Bool) → b ≡ b && true
and_true b = ground arith

find_from-suc :
    {A : Type 0} (test : A → Bool) (i : ℕ) (xs : List A)
    → find_from test (suc i) xs ≡ later (find_from test i xs)
unfolding find_from
find_from-suc test i [] = refl
find_from-suc test i (x ∷ xs) = elim (Bool-cases (test x)) [
  | inl hit ↦ rw hit refl
  | inr miss ↦ rw miss (find_from-suc test (suc i) xs)
]

already_in-later :
    (u : User) (us : List User) (o : Option ℕ) → already_in (u ∷ us) (later o) ≡ already_in us o
unfolding is_authorized
already_in-later u us none = refl
already_in-later u us (some k) = refl

pub is_logged_in-eq-logged : (us : List User) (name : Text) → is_logged_in us name ≡ logged us name
unfolding is_logged_in logged find_user find_from is_authorized
is_logged_in-eq-logged [] name = refl
is_logged_in-eq-logged (u ∷ us) name =
    let test : User → Bool = λ (x : User). str_eq x.login name in
    elim (Bool-cases (str_eq u.login name)) [
      | inl hit ↦ rw hit refl
      | inr miss ↦
          rw (miss, find_from-suc test 0 us)
            (already_in-later u us (find_from test 0 us) ∙ is_logged_in-eq-logged us name)
    ]

later-zero : (o : Option ℕ) → later o ≢ some zero
later-zero none e = cc
later-zero (some k) e = ground arith

later-suc : (o : Option ℕ) (k : ℕ) → later o ≡ some (suc k) → o ≡ some k
later-suc none k e = cc
later-suc (some j) k e = ground arith

find_user-head :
    (u : User) (us : List User) (login : Text)
    → find_user (u ∷ us) login ≡ some zero
    → u.login ≡ login
unfolding find_user find_from
find_user-head u us login e = elim (Bool-cases (str_eq u.login login)) [
  | inl hit ↦ (str_eq_iff _ _).0 hit
  | inr miss ↦
      let test : User → Bool = λ (x : User). str_eq x.login login in
      let e' = rw (miss, find_from-suc test 0 us) at e in absurd (later-zero _ e')
]

find_user-tail :
    (u : User) (us : List User) (login : Text) (k : ℕ)
    → find_user (u ∷ us) login ≡ some (suc k)
    → (str_eq u.login login ≡ false) × (find_user us login ≡ some k)
unfolding find_user find_from
find_user-tail u us login k e = elim (Bool-cases (str_eq u.login login)) [
  | inl hit ↦ let e' = rw hit at e in absurd (ground arith)
  | inr miss ↦
      let test : User → Bool = λ (x : User). str_eq x.login login in
      let e' = rw (miss, find_from-suc test 0 us) at e in (miss, later-suc _ k e')
]

find_user-empty : (login : Text) (k : ℕ) → find_user [] login ≢ some k
unfolding find_user find_from
find_user-empty login k e = cc

pub logged-set_authorized :
    (b : Bool) (us : List User) (login name : Text) (k : ℕ)
    → find_user us login ≡ some k
    → logged (set_authorized b k us) name ≡ (if str_eq login name then b else logged us name)
unfolding logged modify
logged-set_authorized b [] login name k e = absurd (find_user-empty login k e)
logged-set_authorized b (u ∷ us) login name zero e =
    let same = find_user-head u us login e in
    elim (Bool-cases (str_eq login name)) [
      | inl hit ↦ let h : str_eq u.login name ≡ true = cc in rw (h, hit) refl
      | inr miss ↦ let h : str_eq u.login name ≡ false = cc in rw (h, miss) refl
    ]
logged-set_authorized b (u ∷ us) login name (suc k) e =
    let (miss, found) = find_user-tail u us login k e in
    let ih = logged-set_authorized b us login name k found in
    elim (Bool-cases (str_eq login name)) [
      | inl hit ↦
          let same : login ≡ name = (str_eq_iff _ _).0 hit in
          let h : str_eq u.login name ≡ false = cc in let ih' = rw hit at ih in rw (h, hit) ih'
      | inr other ↦ let ih' = rw other at ih in rw (other, ih') refl
    ]

pub logged-append :
    (us : List User) (login name : Text)
    → All (λ (u : User). str_eq u.login login ≡ false) us
    → logged (us ++ (new_user login ∷ [])) name ≡ logged us name || str_eq login name
unfolding logged
logged-append [] login name h = elim (Bool-cases (str_eq login name)) [
  | inl hit ↦ rw hit refl
  | inr miss ↦ rw miss refl
]
logged-append (u ∷ us) login name (differs, h) = elim (Bool-cases (str_eq u.login name)) [
  | inl hit ↦
      let same : u.login ≡ name = (str_eq_iff _ _).0 hit in
      let e : login ≢ name =
        λ p. (let t : str_eq u.login login ≡ true = (str_eq_iff _ _).1 (same ∙ sym p) in cc) in
      rw (hit, str_eq_of_ne _ _ e) (or_false u.authorized)
  | inr miss ↦ rw miss (logged-append us login name h)
]

pub logged-none :
    (us : List User) (login : Text)
    → All (λ (u : User). str_eq u.login login ≡ false) us
    → logged us login ≡ false
unfolding logged
logged-none [] login h = refl
logged-none (u ∷ us) login (differs, h) = rw differs (logged-none us login h)

-- The names that may log in.
unfoldable pub may_log_in : Text → Bool
may_log_in login = not (str_eq login none_user_name || str_eq login system_name)
