-- ===== src/Kp/Server/Frame.antt =====
-- What a command leaves alone: all but logging in and out keep the users, and the message counter
-- advances by at most one.
use mai_os.Base.{
  ℕ, ◌+◌, ◌≤◌, ◌≡◌, refl, inl, inr, ◌||◌, Option, some, none, arith, Bool-cases, Option-cases,
}
use mathlib.Core.Path.{subst}
use mai_os.Base.Text.{Text, str_eq}
use mai_os.Base.Decimal.{strtol}
use mai_os.Kp.Constants.{none_user_name, system_name}
use mai_os.Kp.Server.{Server, Message, find, find_user, login_of, response, next_id, new_message}
use mai_os.Kp.Server.Commands.{
  is_member, find_group, is_between, already_in, admit, cmd_login, private_with, cmd_private,
  create_unless, cmd_create, members_of, join_found, cmd_join,
}
use mai_os.Kp.Server.Messages.{
  null, of_group, of_private, Target, messages_at, missing, put_target, get_target, poll, post,
  to_ulong, cmd_get_msg, cmd_put_msg, cmd_chats,
}

pub record Frame (s t : Server) : Type 0 where
  pub users : t.users ≡ s.users
  pub counter : t.message_counter_id ≤ s.message_counter_id + 1

admit-counter :
    (login : Text) (user : Option ℕ) (s : Server)
    → (admit login user s).message_counter_id ≡ s.message_counter_id
admit-counter login none s = refl
admit-counter login (some user) s = refl

pub cmd_login-counter :
    (pipe login : Text) (s : Server)
    → (cmd_login pipe login s).message_counter_id ≡ s.message_counter_id
unfolding cmd_login response
cmd_login-counter pipe login s = elim (Bool-cases (already_in s.users (find_user s.users login))) [
  | inl in_use ↦ rw in_use refl
  | inr free ↦
      rw free (elim (Bool-cases (str_eq login none_user_name || str_eq login system_name)) [
        | inl forbidden ↦ rw forbidden refl
        | inr fine ↦ rw fine (admit-counter login (find_user s.users login) s)
      ])
]

-- An answer and the line that is printed for it.
response-Frame :
    (pipe cmd status answer : Text) {s t : Server}
    → Frame s t
    → Frame s (response pipe cmd status answer t)
unfolding response
response-Frame pipe cmd status answer f = record { users = f.users; counter = f.counter }

Frame-refl : (s : Server) → Frame s s
Frame-refl s = record { users = refl; counter = omega arith }

some-Frame : {s t u : Server} → some t ≡ some u → Frame s t → Frame s u
some-Frame {s} {t} {u} e f = let same : t ≡ u = cc in subst (Frame s) same f

private_with-Frame :
    (pipe : Text) (user : ℕ) (login : Text) (found : Option ℕ) (s : Server)
    → Frame s (private_with pipe user login found s)
private_with-Frame pipe user login none s = response-Frame _ _ _ _ (Frame-refl s)
private_with-Frame pipe user login (some to_user) s =
    elim (Option-cases (find (is_between user to_user) s.private_chats)) [
      | inl new ↦ rw new (response-Frame _ _ _ _ (record { users = refl; counter = omega arith }))
      | inr old ↦ rw old.1 (response-Frame _ _ _ _ (Frame-refl s))
    ]

pub cmd_private-Frame :
    (pipe : Text) (user : ℕ) (login : Text) (s : Server) → Frame s (cmd_private pipe user login s)
unfolding cmd_private
cmd_private-Frame pipe user login s = elim (Bool-cases (str_eq (login_of s.users user) login)) [
  | inl same ↦ rw same (response-Frame _ _ _ _ (Frame-refl s))
  | inr other ↦ rw other (private_with-Frame pipe user login (find_user s.users login) s)
]

create_unless-Frame :
    (now : ℕ) (pipe : Text) (user : ℕ) (name : Text) (found : Option ℕ) (s : Server)
    → Frame s (create_unless now pipe user name found s)
create_unless-Frame now pipe user name none s =
    response-Frame _ _ _ _ (record { users = refl; counter = omega arith })
create_unless-Frame now pipe user name (some chat) s = response-Frame _ _ _ _ (Frame-refl s)

pub cmd_create-Frame :
    (now : ℕ) (pipe : Text) (user : ℕ) (name : Text) (s : Server)
    → Frame s (cmd_create now pipe user name s)
unfolding cmd_create
cmd_create-Frame now pipe user name s =
    create_unless-Frame now pipe user name (find_group s.group_chats name) s

join_found-Frame :
    (now : ℕ) (pipe : Text) (user : ℕ) (name : Text) (found : Option ℕ) (s : Server)
    → Frame s (join_found now pipe user name found s)
join_found-Frame now pipe user name none s = response-Frame _ _ _ _ (Frame-refl s)
join_found-Frame now pipe user name (some chat) s =
    elim (Bool-cases (is_member user (members_of s.group_chats chat))) [
      | inl member ↦ rw member (response-Frame _ _ _ _ (Frame-refl s))
      | inr new ↦ rw new (response-Frame _ _ _ _ (record { users = refl; counter = omega arith }))
    ]

pub cmd_join-Frame :
    (now : ℕ) (pipe : Text) (user : ℕ) (name : Text) (s : Server)
    → Frame s (cmd_join now pipe user name s)
unfolding cmd_join
cmd_join-Frame now pipe user name s =
    join_found-Frame now pipe user name (find_group s.group_chats name) s

pub cmd_chats-Frame : (pipe : Text) (user : ℕ) (s : Server) → Frame s (cmd_chats pipe user s)
unfolding cmd_chats
cmd_chats-Frame pipe user s = response-Frame _ _ _ _ (Frame-refl s)

poll-Frame :
    (pipe : Text) (id : ℕ) (target : Target) (s : Server) {t : Server}
    → poll pipe id target s ≡ some t
    → Frame s t
poll-Frame pipe id (missing text) s e = some-Frame e (response-Frame _ _ _ _ (Frame-refl s))
poll-Frame pipe id (messages_at null) s e = cc
poll-Frame pipe id (messages_at (of_group chat)) s e =
    some-Frame e (response-Frame _ _ _ _ (Frame-refl s))
poll-Frame pipe id (messages_at (of_private chat)) s e =
    some-Frame e (response-Frame _ _ _ _ (Frame-refl s))

pub cmd_get_msg-Frame :
    (pipe : Text) (user : ℕ) (mode name last_id : Text) (s : Server) {t : Server}
    → cmd_get_msg pipe user mode name last_id s ≡ some t
    → Frame s t
unfolding cmd_get_msg
cmd_get_msg-Frame pipe user mode name last_id s e =
    poll-Frame pipe (to_ulong (strtol last_id)) (get_target user mode name s) s e

post-Frame :
    (pipe : Text) (um : Message) (target : Target) (s : Server) {t : Server}
    → um.id ≤ s.message_counter_id + 1
    → post pipe um target s ≡ some t
    → Frame s t
post-Frame pipe um (missing text) s h e = some-Frame e (response-Frame _ _ _ _ (Frame-refl s))
post-Frame pipe um (messages_at null) s h e = cc
post-Frame pipe um (messages_at (of_group chat)) s h e =
    some-Frame e (response-Frame _ _ _ _ (record { users = refl; counter = h }))
post-Frame pipe um (messages_at (of_private chat)) s h e =
    some-Frame e (response-Frame _ _ _ _ (record { users = refl; counter = h }))

pub cmd_put_msg-Frame :
    (now : ℕ) (pipe : Text) (user : ℕ) (mode name text : Text) (s : Server) {t : Server}
    → cmd_put_msg now pipe user mode name text s ≡ some t
    → Frame s t
unfolding cmd_put_msg
cmd_put_msg-Frame now pipe user mode name text s e =
    post-Frame pipe (new_message (login_of s.users user) text now (next_id s))
      (put_target user mode name s) s (omega arith) e
