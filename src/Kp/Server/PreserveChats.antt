-- ===== src/Kp/Server/PreserveChats.antt =====
-- Posting in a chat keeps the server's invariant, as creating and joining one do.
use mai_os.Base.{
  ℕ, zero, suc, ◌+◌, ◌^◌, ◌<◌, ◌≡◌, refl, ap, sym, ◌∙◌, ◌≢◌, inl, inr, List, [], ◌∷◌, ◌++◌, false,
  Option, some, none, arith, Bool-cases, length, get_elem?,
}
use mathlib.Core.Path.{subst}
use mai_os.Base.Decimal.{strtol}
use mai_os.Base.Text.{Text, str_eq}
use mai_os.Kp.Server.{
  Message, GroupChat, PrivateChat, Server, modify, login_of, next_id, new_message,
}
use mai_os.Kp.Server.Commands.{
  is_member, find_group, joined, create_unless, cmd_create, members_of, add_member, enter,
  join_found, cmd_join,
}
use mai_os.Kp.Server.Messages.{
  null, of_group, of_private, Target, messages_at, missing, put_target, get_target, poll, post,
  to_ulong, cmd_get_msg, cmd_put_msg, push_group, push_private,
}
use mai_os.Kp.Server.Lists.{
  All, Apart, Distinct, All-map, All-snoc, All-modify_at, Apart-snoc, Apart-modify, find-none,
  ne_of_str_eq,
}
use mai_os.Kp.Server.Invariant.{
  Increasing, Increasing-le, Increasing-snoc, GroupIsValid, GroupIsValid-le, PrivateIsValid,
  PrivateIsValid-le, OtherPair, IsValid, response-IsValid,
}

-- Later chats, with a counter that did not go back.
with_chats-IsValid :
    {s : Server} (groups : List GroupChat) (privates : List PrivateChat) (ms : List Message)
    (next : ℕ)
    → IsValid s
    → next < 2 ^ 64
    → Distinct GroupChat.name groups
    → All (GroupIsValid (length s.users) next) groups
    → Apart OtherPair privates
    → All (PrivateIsValid (length s.users) next) privates
    → Increasing 0 ms next
    → IsValid (record s {
      group_chats = groups;
      private_chats = privates;
      messages = ms;
      message_counter_id = next;
    })
with_chats-IsValid groups privates ms next v small names g pairs p order = record {
  logins = v.logins;
  allowed = v.allowed;
  names = names;
  groups = g;
  pairs = pairs;
  privates = p;
  order = order;
  counter = small;
}

some_inj : {s t : Server} → some s ≡ some t → s ≡ t
some_inj e = cc

Increasing-pushed :
    (ms : List Message) (c : ℕ) (m : Message) (next : ℕ)
    → c < next
    → m.id ≡ next
    → Increasing 0 ms c
    → Increasing 0 (ms ++ (m ∷ [])) next
Increasing-pushed ms c m next lt e h =
    subst (λ (n : ℕ). Increasing 0 (ms ++ (m ∷ [])) n) e (Increasing-snoc 0 ms c m (omega arith) h)

not_member : (user : ℕ) (us : List ℕ) → is_member user us ≡ false → All (λ (u : ℕ). u ≢ user) us
unfolding is_member
not_member user [] e = tt
not_member user (u ∷ us) e = ((ground arith), not_member user us (ground arith))

members_of-get_elem? :
    (chats : List GroupChat) (i : ℕ) {c : GroupChat}
    → get_elem? chats i ≡ some c
    → members_of chats i ≡ c.users
members_of-get_elem? [] i e = cc
members_of-get_elem? (x ∷ chats) zero e = ground arith
members_of-get_elem? (x ∷ chats) (suc i) e = members_of-get_elem? chats i e

module _ {s : Server} (v : IsValid s) (next : ℕ) (later : s.message_counter_id < next) where
  groups_later : All (GroupIsValid (length s.users) next) s.group_chats
  groups_later =
      All-map _ _
        (GroupIsValid-le (length s.users) (length s.users) s.message_counter_id next (omega arith)
          (omega arith))
        s.group_chats v.groups

  privates_later : All (PrivateIsValid (length s.users) next) s.private_chats
  privates_later =
      All-map _ _
        (PrivateIsValid-le (length s.users) (length s.users) s.message_counter_id next (omega arith)
          (omega arith))
        s.private_chats v.privates

  messages_later : Increasing 0 s.messages next
  messages_later = Increasing-le 0 s.messages s.message_counter_id next (omega arith) v.order

  -- A message at the end of one chat.
  group_pushed :
      (chat : ℕ) (m : Message)
      → m.id ≡ next
      → All (GroupIsValid (length s.users) next) (modify (push_group m) chat s.group_chats)
  group_pushed chat m e =
      All-modify_at _ _ (push_group m) chat s.group_chats
        (GroupIsValid-le (length s.users) (length s.users) s.message_counter_id next (omega arith)
          (omega arith))
        (λ c here w. record {
          members = w.members;
          once = w.once;
          order = Increasing-pushed c.messages s.message_counter_id m next later e w.order;
        })
        v.groups

  private_pushed :
      (chat : ℕ) (m : Message)
      → m.id ≡ next
      → All (PrivateIsValid (length s.users) next) (modify (push_private m) chat s.private_chats)
  private_pushed chat m e =
      All-modify_at _ _ (push_private m) chat s.private_chats
        (PrivateIsValid-le (length s.users) (length s.users) s.message_counter_id next (omega arith)
          (omega arith))
        (λ c here w. record {
          first = w.first;
          second = w.second;
          differ = w.differ;
          order = Increasing-pushed c.messages s.message_counter_id m next later e w.order;
        })
        v.privates

  -- A member that was not one, and the message that says so.
  group_entered :
      (chat user : ℕ) (m : Message)
      → m.id ≡ next
      → user < length s.users
      → is_member user (members_of s.group_chats chat) ≡ false
      → All (GroupIsValid (length s.users) next) (modify (add_member user m) chat s.group_chats)
  group_entered chat user m e known new =
      All-modify_at _ _ (add_member user m) chat s.group_chats
        (GroupIsValid-le (length s.users) (length s.users) s.message_counter_id next (omega arith)
          (omega arith))
        (λ c here w. record {
          members = All-snoc _ c.users user w.members known;
          once = Apart-snoc _ c.users user w.once (
              not_member user c.users
                (ap (is_member user) (sym (members_of-get_elem? s.group_chats chat here)) ∙ new));
          order = Increasing-pushed c.messages s.message_counter_id m next later e w.order;
        })
        v.groups

  -- The chat that a user makes.
  group_added :
      (name : Text) (user : ℕ) (m : Message)
      → m.id ≡ next
      → user < length s.users
      → (c : GroupChat) → c.users ≡ user ∷ []
      → c.messages ≡ m ∷ []
      → All (GroupIsValid (length s.users) next) (s.group_chats ++ (c ∷ []))
  group_added name user m e known c us ms = All-snoc _ s.group_chats c groups_later (record {
    members = rw us (known, tt);
    once = rw us (tt, tt);
    order = rw ms (omega arith, omega arith);
  })

module _ {s : Server} (now : ℕ) (pipe : Text) (user : ℕ) (name : Text) (v : IsValid s)
    (room : s.message_counter_id + 1 < 2 ^ 64) (known : user < length s.users) where
  later : s.message_counter_id < next_id s
  later = omega arith

  small : next_id s < 2 ^ 64
  small = omega arith

  create_unless-IsValid :
      (found : Option ℕ)
      → find_group s.group_chats name ≡ found
      → IsValid (create_unless now pipe user name found s)
  unfolding find_group
  create_unless-IsValid (some chat) e = response-IsValid _ _ _ _ v
  create_unless-IsValid none e = response-IsValid _ _ _ _ (
      with_chats-IsValid _ s.private_chats s.messages (next_id s) v small
        (Apart-snoc _ s.group_chats _ v.names (
          All-map _ _ (λ (c : GroupChat) h. ne_of_str_eq c.name name h) s.group_chats
            (find-none (λ (c : GroupChat). str_eq c.name name) 0 s.group_chats e)))
        (group_added v (next_id s) later name user (joined now user s) refl known _ refl refl)
        v.pairs (privates_later v (next_id s) later) (messages_later v (next_id s) later))

  pub cmd_create-IsValid : IsValid (cmd_create now pipe user name s)
  unfolding cmd_create
  cmd_create-IsValid = create_unless-IsValid (find_group s.group_chats name) refl

  enter-IsValid : (chat : ℕ) → IsValid (enter now user chat s)
  enter-IsValid chat = elim (Bool-cases (is_member user (members_of s.group_chats chat))) [
    | inl member ↦ rw member v
    | inr new ↦ rw new (
        with_chats-IsValid _ s.private_chats s.messages (next_id s) v small
          (Apart-modify _ (add_member user (joined now user s)) chat s.group_chats (λ x y h. h)
            (λ x y h. h) v.names)
          (group_entered v (next_id s) later chat user (joined now user s) refl known new) v.pairs
          (privates_later v (next_id s) later) (messages_later v (next_id s) later))
  ]

  join_found-IsValid : (found : Option ℕ) → IsValid (join_found now pipe user name found s)
  join_found-IsValid none = response-IsValid _ _ _ _ v
  join_found-IsValid (some chat) = response-IsValid _ _ _ _ (enter-IsValid chat)

  pub cmd_join-IsValid : IsValid (cmd_join now pipe user name s)
  unfolding cmd_join
  cmd_join-IsValid = join_found-IsValid (find_group s.group_chats name)

module _ {s : Server} (pipe : Text) (um : Message) (v : IsValid s)
    (fresh : s.message_counter_id < um.id) (small : um.id < 2 ^ 64) where
  all_pushed : Increasing 0 (s.messages ++ (um ∷ [])) um.id
  all_pushed = Increasing-snoc 0 s.messages s.message_counter_id um fresh v.order

  pub post-IsValid : (target : Target) {t : Server} → post pipe um target s ≡ some t → IsValid t
  post-IsValid (missing text) e = subst IsValid (some_inj e) (response-IsValid _ _ _ _ v)
  post-IsValid (messages_at null) e = cc
  post-IsValid (messages_at (of_group chat)) e = subst IsValid (some_inj e) (
      response-IsValid _ _ _ _ (
        with_chats-IsValid _ s.private_chats _ um.id v small
          (Apart-modify _ (push_group um) chat s.group_chats (λ x y h. h) (λ x y h. h) v.names)
          (group_pushed v um.id fresh chat um refl) v.pairs (privates_later v um.id fresh)
          all_pushed))
  post-IsValid (messages_at (of_private chat)) e = subst IsValid (some_inj e) (
      response-IsValid _ _ _ _ (
        with_chats-IsValid s.group_chats _ _ um.id v small v.names (groups_later v um.id fresh)
          (Apart-modify OtherPair (push_private um) chat s.private_chats (λ x y h. h) (λ x y h. h)
            v.pairs)
          (private_pushed v um.id fresh chat um refl) all_pushed))

poll-IsValid :
    {s t : Server} (pipe : Text) (id : ℕ)
    → IsValid s
    → (target : Target) → poll pipe id target s ≡ some t
    → IsValid t
poll-IsValid pipe id v (missing text) e = subst IsValid (some_inj e) (response-IsValid _ _ _ _ v)
poll-IsValid pipe id v (messages_at null) e = cc
poll-IsValid pipe id v (messages_at (of_group chat)) e =
    subst IsValid (some_inj e) (response-IsValid _ _ _ _ v)
poll-IsValid pipe id v (messages_at (of_private chat)) e =
    subst IsValid (some_inj e) (response-IsValid _ _ _ _ v)

pub cmd_put_msg-IsValid :
    {s t : Server} (now : ℕ) (pipe : Text) (user : ℕ) (mode name text : Text)
    → IsValid s
    → s.message_counter_id + 1 < 2 ^ 64
    → cmd_put_msg now pipe user mode name text s ≡ some t
    → IsValid t
unfolding cmd_put_msg
cmd_put_msg-IsValid {s} now pipe user mode name text v room e =
    post-IsValid pipe (new_message (login_of s.users user) text now (next_id s)) v (omega arith)
      (omega arith) (put_target user mode name s) e

pub cmd_get_msg-IsValid :
    {s t : Server} (pipe : Text) (user : ℕ) (mode name last_id : Text)
    → IsValid s
    → cmd_get_msg pipe user mode name last_id s ≡ some t
    → IsValid t
unfolding cmd_get_msg
cmd_get_msg-IsValid {s} pipe user mode name last_id v e =
    poll-IsValid pipe (to_ulong (strtol last_id)) v (get_target user mode name s) e
