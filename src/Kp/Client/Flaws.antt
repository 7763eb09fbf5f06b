-- ===== src/Kp/Client/Flaws.antt =====
-- What the messenger's server and client let through.
use mai_os.Base.{ℕ, ◌≡◌, refl, ap, ◌∙◌, List, [], ◌∷◌, ◌++◌, Bool, false, some, none, arith}
use mai_os.Base.Text.{Text, str_eq, str_eq_refl}
use mai_os.Kp.Constants.{
  bar, status_ok, cmd_login_word, cmd_logout_word, cmd_push_msg_word, group_word,
}
use mai_os.Kp.StringParser.{FreeOf, string_parser-cut, string_parser-free}
use mai_os.Kp.Server.{User, Server, find_user, set_authorized}
use mai_os.Kp.Server.Commands.{find_group, cmd_logout}
use mai_os.Kp.Server.Messages.{group_messages}
use mai_os.Kp.Server.Requests.{dispatch, serve, serve_parts, request_handler}
use mai_os.Kp.Server.Logins.{is_logged_in}
use mai_os.Kp.Server.Sessions.{serve-session, session}
use mai_os.Kp.Server.Delivery.{find_from-modify, put_group-appends, posted}
use mai_os.Kp.Client.{not_login, in_main_menu, Client, request, has_bar, cmd_login, is_bad_size}
use mai_os.Kp.Client.Handlers.{receive, rec_login}
use mai_os.Kp.Client.EndToEnd.{with_three_parts, serve-push}

-- In every state of the server, a request of two parts without a further separator makes it read
-- a third part that is not there
pub request_handler-none :
    (now : ℕ) (p q : Text) (s : Server)
    → FreeOf bar p
    → FreeOf bar q
    → request_handler now (p ++ (bar ∷ q)) s ≡ none
unfolding request_handler
request_handler-none now p q s fp fq =
    ap (λ parts. serve_parts now (p ++ (bar ∷ q)) parts s)
      (string_parser-cut 2 bar p q fp ∙ ap (λ ps. p ∷ ps) (string_parser-free 3 bar q fq))

find_user-set_authorized :
    (b : Bool) (k : ℕ) (us : List User) (login : Text)
    → find_user (set_authorized b k us) login ≡ find_user us login
unfolding find_user
find_user-set_authorized b k us login =
    find_from-modify (λ (u : User). str_eq u.login login)
      (λ (u : User). record u { authorized = b }) 0 k us (λ x. refl)

serve-logout :
    (now : ℕ) (pipe login args : Text) (s : Server) {user : ℕ}
    → find_user s.users login ≡ some user
    → serve now cmd_logout_word pipe login args s ≡ some (cmd_logout user s)
unfolding serve dispatch str_eq
serve-logout now pipe login args s e = rw e refl

logged_out :
    (logged_in : Text → Bool) (login args : Text)
    → session cmd_logout_word login args logged_in login ≡ false
unfolding session
logged_out logged_in login args =
    let other : str_eq cmd_logout_word cmd_login_word ≡ false = unfold str_eq in refl in
    rw (other, str_eq_refl cmd_logout_word, str_eq_refl login) (ground arith)

-- After a known user has logged out and is not logged in, a request in its name with a text for
-- an existing group chat of a name without a separator still appends the message to the chat
pub logout-put :
    (now now' : ℕ) (pipe login name text : Text) (s : Server) (user chat : ℕ)
    → find_user s.users login ≡ some user
    → find_group s.group_chats name ≡ some chat
    → FreeOf bar name
    → (t u : Server) × (serve now cmd_logout_word pipe login [] s ≡ some t)
      × (is_logged_in t.users login ≡ false)
      × (serve now' cmd_push_msg_word pipe login (group_word ++ (bar ∷ (name ++ (bar ∷ text)))) t
          ≡ some u)
      × (group_messages u.group_chats chat
          ≡ group_messages s.group_chats chat ++ (posted now' user text t ∷ []))
unfolding cmd_logout
logout-put now now' pipe login name text s user chat known there free =
    let t = cmd_logout user s in
    let out = serve-logout now pipe login [] s known in
    let known' : find_user t.users login ≡ some user =
      find_user-set_authorized false user s.users login ∙ known in
    let (u, put, grown) = put_group-appends now' pipe user name text t chat there in
    (
      t,
      u,
      out,
      serve-session now cmd_logout_word pipe login [] s out login
          ∙ logged_out (is_logged_in s.users) login [],
      serve-push now' pipe login (group_word ++ (bar ∷ (name ++ (bar ∷ text)))) t known'
          ∙ with_three_parts group_word name text _ t (omega arith) free
          ∙ put,
      grown,
    )

-- A client that is not logged in and sends login requests for two names of a right size and
-- without a separator takes the second name as its own when the first request is answered with
-- OK
pub cmd_login-cmd_login :
    (a b : Text) (c : Client)
    → c.state ≡ not_login
    → is_bad_size a ≡ false
    → has_bar a ≡ false
    → is_bad_size b ≡ false
    → has_bar b ≡ false
    → (d : Client) × (receive cmd_login_word status_ok [] (cmd_login b (cmd_login a c)) ≡ some d)
      × (d.state ≡ in_main_menu)
      × (d.login ≡ b)
unfolding cmd_login receive rec_login request str_eq
cmd_login-cmd_login a b c state size_a bar_a size_b bar_b =
    rw (state, size_a, bar_a, size_b, bar_b) (_, refl, refl, refl)
