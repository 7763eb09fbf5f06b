-- ===== src/Kp/Server/Sessions.antt =====
-- Who is logged in: the abstract view of the server's users, and what each request makes of it.
use mai_os.Base.{
  ℕ, ◌≡◌, refl, ap, sym, ◌∙◌, inl, inr, List, Bool, true, false, not, ◌&&◌, ◌||◌, Option, some,
  none, arith, Bool-cases, if◌then◌else◌, get_elem?, bind_some,
}
use mai_os.Base.Text.{Text, str_eq, str_eq_iff}
use mai_os.Kp.Constants.{none_user_name, system_name, cmd_login_word, cmd_logout_word, bar}
use mai_os.Kp.Server.{User, Server, find_user, response}
use mai_os.Kp.Server.Commands.{already_in, admit, cmd_login, cmd_logout}
use mai_os.Kp.Server.Requests.{serve, dispatch, dispatch_user}
use mai_os.Kp.StringParser.{string_parser}
use mai_os.Kp.Server.Frame.{
  cmd_private-Frame, cmd_create-Frame, cmd_join-Frame, cmd_chats-Frame, cmd_get_msg-Frame,
  cmd_put_msg-Frame,
}
use mai_os.Kp.Server.Messages.{cmd_put_msg, cmd_get_msg}
use mai_os.Kp.Server.Requests.{with_three}
use mai_os.Kp.Server.Lists.{find-none}
use mai_os.Kp.Server.Logins.{
  is_logged_in, may_log_in, logged, or_true, or_false, or_and_false, or_and_true, and_true,
  is_logged_in-eq-logged, logged-set_authorized, logged-append, logged-none,
}

-- The abstract server: what a command makes of the set of the names that are logged in.
unfoldable pub session : Text → Text → Text → (Text → Bool) → Text → Bool
unfolding may_log_in
session cmd user_login args logged_in name =
    if str_eq cmd cmd_login_word
    then logged_in name || (str_eq args name && may_log_in args)
    else if str_eq cmd cmd_logout_word
    then logged_in name && not (str_eq user_login name)
    else logged_in name

admitted :
    (login name : Text) (found : Option ℕ) (s : Server)
    → find_user s.users login ≡ found
    → logged (admit login found s).users name ≡ logged s.users name || str_eq login name
unfolding find_user
admitted login name none s e =
    logged-append s.users login name (find-none (λ (u : User). str_eq u.login login) 0 s.users e)
admitted login name (some k) s e =
    logged-set_authorized true s.users login name k e ∙ (elim (Bool-cases (str_eq login name)) [
      | inl hit ↦ rw hit (or_true (logged s.users name))
      | inr miss ↦ rw miss (or_false (logged s.users name))
    ])

cmd_login-logged :
    (pipe login name : Text) (s : Server)
    → logged (cmd_login pipe login s).users name
      ≡ logged s.users name || (str_eq login name && may_log_in login)
unfolding cmd_login response may_log_in
cmd_login-logged pipe login name s =
    elim (Bool-cases (already_in s.users (find_user s.users login))) [
      | inl in_use ↦
          let known : logged s.users login ≡ true =
            sym (is_logged_in-eq-logged s.users login) ∙ (unfold is_logged_in in in_use) in
          rw in_use (elim (Bool-cases (str_eq login name)) [
            | inl hit ↦
                let same : login ≡ name = (str_eq_iff _ _).0 hit in
                let there : logged s.users name ≡ true = cc in rw there refl
            | inr miss ↦ rw miss (or_false (logged s.users name))
          ])
      | inr free ↦
          rw free (elim (Bool-cases (str_eq login none_user_name || str_eq login system_name)) [
            | inl forbidden ↦ rw forbidden (or_and_false (logged s.users name) (str_eq login name))
            | inr fine ↦ rw fine (
                admitted login name (find_user s.users login) s refl
                ∙ or_and_true (logged s.users name) (str_eq login name))
          ])
    ]

cmd_logout-logged :
    (login name : Text) (user : ℕ) (s : Server)
    → find_user s.users login ≡ some user
    → logged (cmd_logout user s).users name ≡ logged s.users name && not (str_eq login name)
unfolding cmd_logout
cmd_logout-logged login name user s e =
    logged-set_authorized false s.users login name user e ∙ (elim (Bool-cases (str_eq login name)) [
      | inl hit ↦ rw hit (ground arith)
      | inr miss ↦ rw miss (and_true (logged s.users name))
    ])

-- Nobody of an unknown name is logged in.
unknown-logged :
    (us : List User) (login name : Text)
    → find_user us login ≡ none
    → logged us name ≡ logged us name && not (str_eq login name)
unfolding find_user
unknown-logged us login name e = elim (Bool-cases (str_eq login name)) [
  | inl hit ↦
      let same : login ≡ name = (str_eq_iff _ _).0 hit in
      let out = logged-none us login (find-none (λ (u : User). str_eq u.login login) 0 us e) in
      let out' : logged us name ≡ false = cc in rw out' refl
  | inr miss ↦ rw miss (and_true (logged us name))
]

-- The users of what a step gives: `before` with the logins of `user_login` undone or not.
abbrev Users : List User → Option Server → Type 0
Users us o = (t : Server) → o ≡ some t → t.users ≡ us

Users-some : (us : List User) (t : Server) → t.users ≡ us → Users us (some t)
Users-some us t h u e = let same : t ≡ u = cc in ap Server.users (sym same) ∙ h

Users-if :
    (us : List User) (b : Bool) (x y : Option Server)
    → Users us x
    → Users us y
    → Users us (if b then x else y)
Users-if us true x y hx hy = hx
Users-if us false x y hx hy = hy

with_three-Users :
    (us : List User) (args : Text) (act : Text → Text → Text → Server → Option Server) (s : Server)
    → ((mode name text : Text) → Users us (act mode name text s))
    → Users us (with_three args act s)
unfolding with_three
with_three-Users us args act s h t e =
    let (mode, _, e1) = bind_some (get_elem? (string_parser args 3 bar) 0) _ e in
    let (name, _, e2) = bind_some (get_elem? (string_parser args 3 bar) 1) _ e1 in
    let (text, _, e3) = bind_some (get_elem? (string_parser args 3 bar) 2) _ e2 in
    h mode name text t e3

dispatch-logout :
    (now : ℕ) (cmd pipe : Text) (user : ℕ) (args : Text) (s : Server)
    → str_eq cmd cmd_logout_word ≡ true
    → dispatch now cmd pipe user args s ≡ some (cmd_logout user s)
unfolding dispatch
dispatch-logout now cmd pipe user args s out = rw out refl

some_inj : {s t : Server} → some s ≡ some t → s ≡ t
some_inj e = cc

-- Every command of a known user but logging out keeps the users.
dispatch-Users :
    (now : ℕ) (cmd pipe : Text) (user : ℕ) (args : Text) (s : Server)
    → str_eq cmd cmd_logout_word ≡ false
    → Users s.users (dispatch now cmd pipe user args s)
unfolding dispatch
dispatch-Users now cmd pipe user args s stays =
    let us = s.users in
    rw stays (
      Users-if us _ _ _ (Users-some us _ (cmd_private-Frame pipe user args s).users) (
        Users-if us _ _ _ (Users-some us _ (cmd_create-Frame now pipe user args s).users) (
          Users-if us _ _ _ (Users-some us _ (cmd_join-Frame now pipe user args s).users) (
            Users-if us _ _ _
              (with_three-Users us args (cmd_put_msg now pipe user) s
                λ mode name text t e. (cmd_put_msg-Frame now pipe user mode name text s e).users)
              (Users-if us _ _ _
                (with_three-Users us args (cmd_get_msg pipe user) s
                  λ mode name text t e. (cmd_get_msg-Frame pipe user mode name text s e).users)
                (Users-if us _ _ _ (Users-some us _ (cmd_chats-Frame pipe user s).users)
                  (Users-some us s refl)))))))

dispatch_user-logged :
    (now : ℕ) (cmd pipe login args name : Text) (found : Option ℕ) (s : Server) {t : Server}
    → find_user s.users login ≡ found
    → dispatch_user now cmd pipe login found args s ≡ some t
    → logged t.users name ≡ (
        if str_eq cmd cmd_logout_word
        then logged s.users name && not (str_eq login name)
        else logged s.users name)
dispatch_user-logged now cmd pipe login args name none s {t} found_e e =
    let same : t.users ≡ s.users = ap Server.users (sym (some_inj e)) in
    rw same (elim (Bool-cases (str_eq cmd cmd_logout_word)) [
      | inl out ↦ rw out (unknown-logged s.users login name found_e)
      | inr stays ↦ rw stays refl
    ])
dispatch_user-logged now cmd pipe login args name (some user) s {t} found_e e =
    elim (Bool-cases (str_eq cmd cmd_logout_word)) [
      | inl out ↦
          let left : some (cmd_logout user s) ≡ some t =
            sym (dispatch-logout now cmd pipe user args s out) ∙ e in
          let same : t.users ≡ (cmd_logout user s).users = ap Server.users (sym (some_inj left)) in
          rw (out, same) (cmd_logout-logged login name user s found_e)
      | inr stays ↦
          let same : t.users ≡ s.users = dispatch-Users now cmd pipe user args s stays t e in
          rw (stays, same) refl
    ]

-- Whatever request the server serves, the names that are logged in afterwards are those before,
-- with the argument of a login command added unless it is a reserved name, with the login of the
-- request taken away by a logout command, and unchanged by any other command
pub serve-session :
    (now : ℕ) (cmd pipe login args : Text) (s : Server) {t : Server}
    → serve now cmd pipe login args s ≡ some t
    → (name : Text) → is_logged_in t.users name ≡ session cmd login args (is_logged_in s.users) name
unfolding serve session
serve-session now cmd pipe login args s {t} e name =
    rw (is_logged_in-eq-logged t.users name, is_logged_in-eq-logged s.users name)
      (elim (Bool-cases (str_eq cmd cmd_login_word)) [
        | inl log ↦
            let e' = rw log at e in
            let same : t.users ≡ (cmd_login pipe args s).users =
              ap Server.users (sym (some_inj e')) in
            rw (log, same) (cmd_login-logged pipe args name s)
        | inr other ↦
            let e' = rw other at e in
            rw other (
              dispatch_user-logged now cmd pipe login args name (find_user s.users login) s refl e')
      ])
