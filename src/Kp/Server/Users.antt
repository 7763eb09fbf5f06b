-- ===== src/Kp/Server/Users.antt =====
-- Users are found by their logins.
use mai_os.Base.{
  ℕ, zero, suc, ◌+◌, ◌<◌, ◌≡◌, ap, ◌∙◌, ◌≢◌, List, [], ◌∷◌, some, arith, length, get_elem?,
}
use mai_os.Base.Text.{Text, str_eq, str_eq_iff, str_eq_of_ne, str_eq_refl}
use mai_os.Kp.Server.{User, find_from, find_user, login_of}
use mai_os.Kp.Server.Lists.{All, Distinct, find-some}

login_of-get_elem? :
    (us : List User) (k : ℕ) {u : User} → get_elem? us k ≡ some u → login_of us k ≡ u.login
unfolding login_of
login_of-get_elem? [] k e = cc
login_of-get_elem? (x ∷ us) zero e = let same = e in ground arith
login_of-get_elem? (x ∷ us) (suc k) e = login_of-get_elem? us k e

-- The user that is found has the login, and its pointer is in range.
pub login_of-find_user :
    (us : List User) (login : Text) {k : ℕ}
    → find_user us login ≡ some k
    → (k < length us) × (login_of us k ≡ login)
unfolding find_user
login_of-find_user us login {k} e =
    let f = find-some (λ (u : User). str_eq u.login login) us e in
    let same : f.element.login ≡ login = (str_eq_iff _ _).0 f.passes in
    (f.below, login_of-get_elem? us k f.here ∙ same)

login_of-All :
    (P : Text → Type 0) (us : List User) (k : ℕ)
    → All (λ (u : User). P u.login) us
    → k < length us
    → P (login_of us k)
unfolding login_of
login_of-All P [] k h lt = elim lt [ ]
login_of-All P (u ∷ us) zero h lt = h.0
login_of-All P (u ∷ us) (suc k) h lt = login_of-All P us k h.1 (omega arith)

find_from-login_of :
    (us : List User) (k i : ℕ)
    → Distinct User.login us
    → k < length us
    → find_from (λ (u : User). str_eq u.login (login_of us k)) i us ≡ some (i + k)
unfolding find_from login_of
find_from-login_of [] k i d lt = elim lt [ ]
find_from-login_of (u ∷ us) zero i d lt =
    let e : i ≡ i + 0 = omega arith in rw (str_eq_refl u.login) (ap some e)
find_from-login_of (u ∷ us) (suc k) i d lt =
    let differs = login_of-All (λ (t : Text). u.login ≢ t) us k d.0 (omega arith) in
    let e : suc i + k ≡ i + suc k = omega arith in
    rw (str_eq_of_ne _ _ differs) (find_from-login_of us k (suc i) d.1 (omega arith) ∙ ap some e)

-- With different logins each user is found by its own.
pub find_user-login_of :
    (us : List User) (k : ℕ)
    → Distinct User.login us
    → k < length us
    → find_user us (login_of us k) ≡ some k
unfolding find_user
find_user-login_of us k d lt =
    let e : 0 + k ≡ k = omega arith in find_from-login_of us k 0 d lt ∙ ap some e
