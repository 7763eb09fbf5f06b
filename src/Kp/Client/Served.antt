-- ===== src/Kp/Client/Served.antt =====
-- The server can serve every request that a client writes.
use mai_os.Base.{
  ℕ, ◌≡◌, refl, ap, sym, ◌∙◌, ◌≢◌, inl, inr, ◌⊎◌, [], ◌∷◌, ◌++◌, Bool, true, false, Option, some,
  none, arith, if◌then◌else◌,
}
use mathlib.Core.Path.{subst}
use mai_os.Base.Text.{Text, str_eq}
use mai_os.Base.Decimal.{strtol}
use mai_os.Kp.Constants.{
  bar, cmd_logout_word, cmd_private_word, cmd_join_word, cmd_create_word, cmd_push_msg_word,
  cmd_get_msg_word, cmd_chats_word, group_word, private_word,
}
use mai_os.Kp.StringParser.{string_parser, FreeOf, string_parser-two, string_parser-cut}
use mai_os.Kp.Server.{Server, Message, find_user, find, login_of, next_id, new_message}
use mai_os.Kp.Server.Commands.{find_group}
use mai_os.Kp.Server.Commands
use mai_os.Kp.Server.Messages
use mai_os.Kp.Server.Messages.{
  MessagesPtr, null, of_group, of_private, Target, messages_at, missing, group_target,
  private_target, get_target, put_target, is_with, is_of, poll, post, cmd_get_msg, cmd_put_msg,
  to_ulong,
}
use mai_os.Kp.Server.Requests.{with_three, dispatch, dispatch_user, serve}

-- A step gives a state.
pub record Gives (o : Option Server) : Type 0 where
  pub result : Server
  pub gives : o ≡ some result

Gives-some : (t : Server) → Gives (some t)
Gives-some t = record { result = t; gives = refl }

-- The arguments of a command on messages: one of the two modes, a name, and the rest.
pub record IsChatArgs (args : Text) : Type 0 where
  pub mode : Text
  pub name : Text
  pub rest : Text
  pub shape : args ≡ mode ++ (bar ∷ (name ++ (bar ∷ rest)))
  pub known : (mode ≡ group_word) ⊎ (mode ≡ private_word)

-- The list is that of a chat.
abbrev HasMessages : Target → Type 0
HasMessages target = target ≢ messages_at null

group_target-HasMessages : (name : Text) (o : Option ℕ) → HasMessages (group_target name o)
group_target-HasMessages name none e = cc
group_target-HasMessages name (some chat) e = cc

private_target-HasMessages : (name : Text) (o : Option ℕ) → HasMessages (private_target name o)
private_target-HasMessages name none e = cc
private_target-HasMessages name (some chat) e = cc

module _ (user : ℕ) (name : Text) (s : Server) where
  get_target-HasMessages :
      (mode : Text)
      → (mode ≡ group_word) ⊎ (mode ≡ private_word)
      → HasMessages (get_target user mode name s)
  unfolding get_target str_eq
  get_target-HasMessages mode (inl e) =
      rw e (group_target-HasMessages name (find_group s.group_chats name))
  get_target-HasMessages mode (inr e) =
      rw e (private_target-HasMessages name (find (is_with s.users user name) s.private_chats))

  put_target-HasMessages :
      (mode : Text)
      → (mode ≡ group_word) ⊎ (mode ≡ private_word)
      → HasMessages (put_target user mode name s)
  unfolding put_target str_eq
  put_target-HasMessages mode (inl e) =
      rw e (group_target-HasMessages name (find_group s.group_chats name))
  put_target-HasMessages mode (inr e) =
      rw e (private_target-HasMessages name (find (is_of user) s.private_chats))

poll-Gives :
    (pipe : Text) (id : ℕ) (target : Target) (s : Server)
    → HasMessages target
    → Gives (poll pipe id target s)
poll-Gives pipe id (missing text) s h = Gives-some _
poll-Gives pipe id (messages_at null) s h = absurd (h refl)
poll-Gives pipe id (messages_at (of_group chat)) s h = Gives-some _
poll-Gives pipe id (messages_at (of_private chat)) s h = Gives-some _

post-Gives :
    (pipe : Text) (um : Message) (target : Target) (s : Server)
    → HasMessages target
    → Gives (post pipe um target s)
post-Gives pipe um (missing text) s h = Gives-some _
post-Gives pipe um (messages_at null) s h = absurd (h refl)
post-Gives pipe um (messages_at (of_group chat)) s h = Gives-some _
post-Gives pipe um (messages_at (of_private chat)) s h = Gives-some _

-- A command on messages gets its three parts.
with_three-Gives :
    (args : Text) (act : Text → Text → Text → Server → Option Server) (s : Server)
    → IsChatArgs args
    → ((mode name text : Text)
        → (mode ≡ group_word) ⊎ (mode ≡ private_word)
        → Gives (act mode name text s))
    → Gives (with_three args act s)
unfolding with_three
with_three-Gives args act s a h =
    let free : FreeOf bar a.mode = elim a.known [
      | inl e ↦ subst (FreeOf bar) (sym e) (omega arith)
      | inr e ↦ subst (FreeOf bar) (sym e) (omega arith)
    ] in
    let (q, r, two) = string_parser-two bar a.name a.rest in
    let parts : string_parser args 3 bar ≡ a.mode ∷ q ∷ r ∷ [] =
      ap (λ t. string_parser t 3 bar) a.shape
      ∙ string_parser-cut 1 bar a.mode (a.name ++ (bar ∷ a.rest)) free
      ∙ ap (λ ps. a.mode ∷ ps) two in
    rw parts (h a.mode q r a.known)

get-Gives :
    (pipe : Text) (user : ℕ) (mode name last_id : Text) (s : Server)
    → (mode ≡ group_word) ⊎ (mode ≡ private_word)
    → Gives (cmd_get_msg pipe user mode name last_id s)
unfolding cmd_get_msg
get-Gives pipe user mode name last_id s known =
    poll-Gives pipe (to_ulong (strtol last_id)) (get_target user mode name s) s
      (get_target-HasMessages user name s mode known)

put-Gives :
    (now : ℕ) (pipe : Text) (user : ℕ) (mode name text : Text) (s : Server)
    → (mode ≡ group_word) ⊎ (mode ≡ private_word)
    → Gives (cmd_put_msg now pipe user mode name text s)
unfolding cmd_put_msg
put-Gives now pipe user mode name text s known =
    post-Gives pipe (new_message (login_of s.users user) text now (next_id s))
      (put_target user mode name s) s (put_target-HasMessages user name s mode known)

Gives-if :
    (b : Bool) (x y : Option Server)
    → ((b ≡ false) ⊎ Gives x)
    → Gives y
    → Gives (if b then x else y)
Gives-if true x y (inl e) gy = cc
Gives-if true x y (inr gx) gy = gx
Gives-if false x y gx gy = gy

-- Requests with a command that needs no further part, or with the parts that it needs.
abbrev pub Served : Text → Text → Type 0
Served cmd args =
    ((str_eq cmd cmd_push_msg_word ≡ false) × (str_eq cmd cmd_get_msg_word ≡ false))
    ⊎ IsChatArgs args

dispatch-Gives :
    (now : ℕ) (cmd pipe : Text) (user : ℕ) (args : Text) (s : Server)
    → Served cmd args
    → Gives (dispatch now cmd pipe user args s)
unfolding dispatch
dispatch-Gives now cmd pipe user args s ok =
    let put : (str_eq cmd cmd_push_msg_word ≡ false)
        ⊎ Gives (with_three args (cmd_put_msg now pipe user) s) =
      elim ok [
        | inl plain ↦ inl plain.0
        | inr a ↦ inr (
            with_three-Gives args (cmd_put_msg now pipe user) s a
              λ mode name text known. put-Gives now pipe user mode name text s known)
      ] in
    let get : (str_eq cmd cmd_get_msg_word ≡ false)
        ⊎ Gives (with_three args (cmd_get_msg pipe user) s) =
      elim ok [
        | inl plain ↦ inl plain.1
        | inr a ↦ inr (
            with_three-Gives args (cmd_get_msg pipe user) s a
              λ mode name text known. get-Gives pipe user mode name text s known)
      ] in
    Gives-if (str_eq cmd cmd_logout_word) _ _ (inr (Gives-some (Commands.cmd_logout user s))) (
      Gives-if (str_eq cmd cmd_private_word) _ _
        (inr (Gives-some (Commands.cmd_private pipe user args s)))
        (Gives-if (str_eq cmd cmd_create_word) _ _
          (inr (Gives-some (Commands.cmd_create now pipe user args s)))
          (Gives-if (str_eq cmd cmd_join_word) _ _
            (inr (Gives-some (Commands.cmd_join now pipe user args s)))
            (Gives-if (str_eq cmd cmd_push_msg_word) _ _ put (
              Gives-if (str_eq cmd cmd_get_msg_word) _ _ get (
                Gives-if (str_eq cmd cmd_chats_word) _ _
                  (inr (Gives-some (Messages.cmd_chats pipe user s))) (Gives-some s)))))))

dispatch_user-Gives :
    (now : ℕ) (cmd pipe login : Text) (found : Option ℕ) (args : Text) (s : Server)
    → Served cmd args
    → Gives (dispatch_user now cmd pipe login found args s)
dispatch_user-Gives now cmd pipe login none args s ok = Gives-some _
dispatch_user-Gives now cmd pipe login (some user) args s ok =
    dispatch-Gives now cmd pipe user args s ok

pub serve-Gives :
    (now : ℕ) (cmd pipe login args : Text) (s : Server)
    → Served cmd args
    → Gives (serve now cmd pipe login args s)
unfolding serve
serve-Gives now cmd pipe login args s ok =
    Gives-if _ _ _ (inr (Gives-some _))
      (dispatch_user-Gives now cmd pipe login (find_user s.users login) args s ok)
