-- ===== src/Kp/Server/Preserve.antt =====
-- The commands keep the server's invariant.
use mai_os.Base.{
  ℕ, ◌≤◌, ◌<◌, ◌≡◌, refl, ap, ◌∙◌, ◌≢◌, inl, inr, List, [], ◌∷◌, ◌++◌, Bool, true, false, ◌||◌,
  Option, some, none, arith, Bool-cases, length, length-append,
}
use mai_os.Base.Text.{Text, str_eq}
use mai_os.Kp.Constants.{none_user_name, system_name}
use mai_os.Kp.Server.{
  User, Server, find, find_user, login_of, set_authorized, new_user, new_private_chat,
}
use mai_os.Kp.Server.Commands.{
  is_between, already_in, admit, cmd_login, cmd_logout, add_private, private_with, cmd_private,
}
use mai_os.Kp.Server.Lists.{
  All, Distinct, All-map, All-snoc, All-modify, Apart-snoc, Apart-modify, find-none, length-modify,
  ne_of_str_eq,
}
use mai_os.Kp.Server.Users.{login_of-find_user}
use mai_os.Kp.Server.Invariant.{
  GroupIsValid-le, PrivateIsValid-le, OtherPair, IsAllowed, IsValid, response-IsValid,
}

-- Other users, no fewer than before.
with_users-IsValid :
    {s : Server} (us : List User)
    → IsValid s
    → length s.users ≤ length us
    → Distinct User.login us
    → All IsAllowed us
    → IsValid (record s { users = us })
with_users-IsValid {s} us v more logins allowed = record {
  logins = logins;
  allowed = allowed;
  names = v.names;
  groups =
      All-map _ _
        (GroupIsValid-le (length s.users) (length us) s.message_counter_id s.message_counter_id more
          (omega arith))
        s.group_chats v.groups;
  pairs = v.pairs;
  privates =
      All-map _ _
        (PrivateIsValid-le (length s.users) (length us) s.message_counter_id s.message_counter_id
          more (omega arith))
        s.private_chats v.privates;
  order = v.order;
  counter = v.counter;
}

set_authorized-IsValid :
    {s : Server} (b : Bool) (user : ℕ)
    → IsValid s
    → IsValid (record s { users = set_authorized b user s.users })
set_authorized-IsValid {s} b user v =
    let f : User → User = λ (u : User). record u { authorized = b } in
    with_users-IsValid (set_authorized b user s.users) v
      (let e = length-modify f user s.users in omega arith)
      (Apart-modify _ f user s.users (λ x y h. h) (λ x y h. h) v.logins)
      (All-modify IsAllowed f user s.users (λ x h. h) v.allowed)

admit-IsValid :
    {s : Server} (login : Text)
    → IsValid s
    → login ≢ none_user_name
    → login ≢ system_name
    → (user : Option ℕ) → find_user s.users login ≡ user
    → IsValid (admit login user s)
unfolding find_user
admit-IsValid {s} login v not_none not_system none e =
    with_users-IsValid (s.users ++ (new_user login ∷ [])) v
      (let l = length-append s.users (new_user login ∷ []) in omega arith)
      (Apart-snoc _ s.users (new_user login) v.logins (
        All-map _ _ (λ (u : User) h. ne_of_str_eq u.login login h) s.users
          (find-none (λ (u : User). str_eq u.login login) 0 s.users e)))
      (All-snoc IsAllowed s.users (new_user login) v.allowed (not_none, not_system))
admit-IsValid login v not_none not_system (some user) e = set_authorized-IsValid true user v

pub cmd_login-IsValid :
    {s : Server} (pipe login : Text) → IsValid s → IsValid (cmd_login pipe login s)
unfolding cmd_login
cmd_login-IsValid {s} pipe login v =
    elim (Bool-cases (already_in s.users (find_user s.users login))) [
      | inl in_use ↦ rw in_use (response-IsValid _ _ _ _ v)
      | inr free ↦
          rw free (elim (Bool-cases (str_eq login none_user_name || str_eq login system_name)) [
            | inl forbidden ↦ rw forbidden (response-IsValid _ _ _ _ v)
            | inr fine ↦
                let a : str_eq login none_user_name ≡ false = ground arith in
                let b : str_eq login system_name ≡ false = ground arith in
                rw fine (
                  response-IsValid _ _ _ _
                    (admit-IsValid login v (ne_of_str_eq _ _ a) (ne_of_str_eq _ _ b) _ refl))
          ])
    ]

pub cmd_logout-IsValid : {s : Server} (user : ℕ) → IsValid s → IsValid (cmd_logout user s)
unfolding cmd_logout
cmd_logout-IsValid user v = set_authorized-IsValid false user v

-- A pair that has no chat yet.
add_private-IsValid :
    {s : Server} (user to_user : ℕ)
    → IsValid s
    → user < length s.users
    → to_user < length s.users
    → user ≢ to_user
    → (chat : Option ℕ) → find (is_between user to_user) s.private_chats ≡ chat
    → IsValid (add_private user to_user chat s)
add_private-IsValid {s} user to_user v known known' differ none e = record {
  logins = v.logins;
  allowed = v.allowed;
  names = v.names;
  groups = v.groups;
  pairs =
      Apart-snoc OtherPair s.private_chats (new_private_chat user to_user) v.pairs
        (find-none (is_between user to_user) 0 s.private_chats e);
  privates =
      All-snoc _ s.private_chats (new_private_chat user to_user) v.privates
        (record { first = known; second = known'; differ = differ; order = omega arith });
  order = v.order;
  counter = v.counter;
}
add_private-IsValid user to_user v known known' differ (some chat) e = v

private_with-IsValid :
    {s : Server} (pipe : Text) (user : ℕ) (login : Text)
    → IsValid s
    → user < length s.users
    → login_of s.users user ≢ login
    → (found : Option ℕ) → find_user s.users login ≡ found
    → IsValid (private_with pipe user login found s)
private_with-IsValid pipe user login v known other none e = response-IsValid _ _ _ _ v
private_with-IsValid {s} pipe user login v known other (some to_user) e =
    let (below, named) = login_of-find_user s.users login e in
    let differ : user ≢ to_user = λ same. other (ap (login_of s.users) same ∙ named) in
    response-IsValid _ _ _ _ (add_private-IsValid user to_user v known below differ _ refl)

pub cmd_private-IsValid :
    {s : Server} (pipe : Text) (user : ℕ) (login : Text)
    → IsValid s
    → user < length s.users
    → IsValid (cmd_private pipe user login s)
unfolding cmd_private
cmd_private-IsValid {s} pipe user login v known =
    elim (Bool-cases (str_eq (login_of s.users user) login)) [
      | inl same ↦ rw same (response-IsValid _ _ _ _ v)
      | inr other ↦
          rw other (private_with-IsValid pipe user login v known (ne_of_str_eq _ _ other) _ refl)
    ]
