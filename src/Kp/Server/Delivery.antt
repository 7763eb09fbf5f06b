-- ===== src/Kp/Server/Delivery.antt =====
-- A message that is posted is the answer to the next poll, and where it goes.
use mai_os.Base.{
  ℕ, zero, suc, ◌+◌, ◌^◌, ◌≤◌, ◌<◌, ◌≡◌, refl, ap, sym, ◌∙◌, ◌≢◌, List, [], ◌∷◌, ◌++◌, Bool, true,
  false, ltb, some, arith, length, append_assoc, append-nil, if◌then◌else◌, pos,
}
use mai_os.Base.Text.{Text, str_eq}
use mai_os.Base.Decimal.{strtol, strtol-natural, int_to_str}
use mai_os.Kp.Constants.{
  bar, group_word, private_word, status_ok, cmd_get_msg_word, cmd_push_msg_word,
}
use mai_os.Kp.Server.{
  Message, GroupChat, PrivateChat, Server, find, find_from, modify, login_of, next_id, response,
  new_message,
}
use mai_os.Kp.Server.Commands.{find_group}
use mai_os.Kp.Server.Messages.{
  of_group, of_private, messages_at, group_messages, private_messages, is_of, get_target,
  put_target, to_ulong, max, new_text, last_new, drop_last, poll_answer, poll, cmd_get_msg,
  push_group, push_private, post, cmd_put_msg,
}
use mai_os.Kp.Server.Lists.{find-some, All}
use mai_os.Kp.Server.Invariant.{Increasing, GroupIsValid, IsValid}
use mai_os.Kp.Server.Polling.{new_text-append, new_text-old, Increasing-below}

pub drop_last-snoc : (s : Text) (c : ℕ) → drop_last (s ++ (c ∷ [])) ≡ s
unfolding drop_last
drop_last-snoc [] c = refl
drop_last-snoc (x ∷ []) c = refl
drop_last-snoc (x ∷ y ∷ s) c = ap (λ r. x ∷ r) (drop_last-snoc (y ∷ s) c)

last_new-append :
    (id lid : ℕ) (xs ys : List Message)
    → last_new id lid (xs ++ ys) ≡ last_new id (last_new id lid xs) ys
unfolding last_new
last_new-append id lid [] ys = refl
last_new-append id lid (m ∷ xs) ys =
    last_new-append id (if ltb id m.id then max lid m.id else lid) xs ys

last_new-old :
    (id lid : ℕ) (ms : List Message)
    → All (λ (m : Message). m.id ≤ id) ms
    → last_new id lid ms ≡ lid
unfolding last_new
last_new-old id lid [] h = refl
last_new-old id lid (m ∷ ms) (le, h) =
    let old : ltb id m.id ≡ false = ground arith in rw old (last_new-old id lid ms h)

-- After one more message, a poll from the last id before it answers with that message alone.
poll_answer-new :
    (c : ℕ) (ms : List Message) (m : Message)
    → m.id ≡ c + 1
    → Increasing 0 ms c
    → poll_answer c (ms ++ (m ∷ []))
      ≡ int_to_str (pos (c + 1)) ++ (bar ∷ (m.from_login ++ (bar ∷ m.text)))
unfolding new_text last_new
poll_answer-new c ms m e order =
    let old = Increasing-below 0 c ms order in
    let new : ltb c m.id ≡ true = ground arith in
    let texts : new_text c (ms ++ (m ∷ [])) ≡ (m.from_login ++ (bar ∷ m.text)) ++ (bar ∷ []) =
      new_text-append c ms (m ∷ [])
      ∙ rw (new_text-old c ms old, new)
          (append-nil _ ∙ sym (append_assoc m.from_login (bar ∷ m.text) (bar ∷ []))) in
    let id : last_new c c (ms ++ (m ∷ [])) ≡ c + 1 =
      last_new-append c c ms (m ∷ []) ∙ rw (last_new-old c c ms old, new) (ground arith) in
    rw (texts, id) (ap (λ r. int_to_str (pos (c + 1)) ++ (bar ∷ r)) (drop_last-snoc _ bar))

pub find_from-modify :
    {A : Type 0} (test : A → Bool) (f : A → A) (i k : ℕ) (xs : List A)
    → ((x : A) → test (f x) ≡ test x)
    → find_from test i (modify f k xs) ≡ find_from test i xs
unfolding find_from modify
find_from-modify test f i k [] h = refl
find_from-modify test f i zero (x ∷ xs) h = rw (h x) refl
find_from-modify test f i (suc k) (x ∷ xs) h = rw (find_from-modify test f (suc i) k xs h) refl

pub group_messages-modify :
    (m : Message) (k : ℕ) (chats : List GroupChat)
    → k < length chats
    → group_messages (modify (push_group m) k chats) k ≡ group_messages chats k ++ (m ∷ [])
unfolding group_messages modify
group_messages-modify m k [] lt = elim lt [ ]
group_messages-modify m zero (c ∷ chats) lt = refl
group_messages-modify m (suc k) (c ∷ chats) lt = group_messages-modify m k chats (omega arith)

group_messages-Increasing :
    (n c : ℕ) (chats : List GroupChat) (k : ℕ)
    → All (GroupIsValid n c) chats
    → Increasing 0 (group_messages chats k) c
unfolding group_messages
group_messages-Increasing n c [] k v = omega arith
group_messages-Increasing n c (x ∷ chats) zero (v, vs) = v.order
group_messages-Increasing n c (x ∷ chats) (suc k) (v, vs) = group_messages-Increasing n c chats k vs

private_messages-modify :
    (m : Message) (k : ℕ) (chats : List PrivateChat)
    → k < length chats
    → private_messages (modify (push_private m) k chats) k ≡ private_messages chats k ++ (m ∷ [])
unfolding private_messages modify
private_messages-modify m k [] lt = elim lt [ ]
private_messages-modify m zero (c ∷ chats) lt = refl
private_messages-modify m (suc k) (c ∷ chats) lt = private_messages-modify m k chats (omega arith)

private_messages-modify_ne :
    (m : Message) (k j : ℕ) (chats : List PrivateChat)
    → j ≢ k
    → private_messages (modify (push_private m) k chats) j ≡ private_messages chats j
unfolding private_messages modify
private_messages-modify_ne m k j [] ne = refl
private_messages-modify_ne m zero zero (c ∷ chats) ne = absurd (ne refl)
private_messages-modify_ne m zero (suc j) (c ∷ chats) ne = refl
private_messages-modify_ne m (suc k) zero (c ∷ chats) ne = refl
private_messages-modify_ne m (suc k) (suc j) (c ∷ chats) ne =
    private_messages-modify_ne m k j chats (λ e. ne (ap suc e))

-- The message that `cmd_put_msg` makes.
abbrev pub posted : ℕ → ℕ → Text → Server → Message
posted now user text s = new_message (login_of s.users user) text now (next_id s)

pub put_group :
    (now : ℕ) (pipe : Text) (user : ℕ) (name text : Text) (s : Server) (chat : ℕ)
    → find_group s.group_chats name ≡ some chat
    → cmd_put_msg now pipe user group_word name text s
      ≡ post pipe (posted now user text s) (messages_at (of_group chat)) s
unfolding cmd_put_msg put_target str_eq
put_group now pipe user name text s chat e = rw e refl

get_group :
    (pipe : Text) (user : ℕ) (name last_id : Text) (s : Server) (chat : ℕ)
    → find_group s.group_chats name ≡ some chat
    → cmd_get_msg pipe user group_word name last_id s
      ≡ poll pipe (to_ulong (strtol last_id)) (messages_at (of_group chat)) s
unfolding cmd_get_msg get_target str_eq
get_group pipe user name last_id s chat e = rw e refl

pub response-group_chats :
    (pipe cmd status answer : Text) (s : Server)
    → (response pipe cmd status answer s).group_chats ≡ s.group_chats
unfolding response
response-group_chats pipe cmd status answer s = refl

pub find_group-modify :
    (m : Message) (k : ℕ) (chats : List GroupChat) (name : Text)
    → find_group (modify (push_group m) k chats) name ≡ find_group chats name
unfolding find_group
find_group-modify m k chats name =
    find_from-modify (λ (c : GroupChat). str_eq c.name name) (push_group m) 0 k chats (λ x. refl)

pub find_group-lt :
    (chats : List GroupChat) (name : Text) {k : ℕ}
    → find_group chats name ≡ some k
    → k < length chats
unfolding find_group
find_group-lt chats name e = (find-some (λ (c : GroupChat). str_eq c.name name) chats e).below

-- What a user posts in a group chat is what anyone who polls it next receives.
pub put-get :
    (now : ℕ) (pipe pipe' : Text) (user user' : ℕ) (name text : Text) (s : Server) (chat : ℕ)
    → IsValid s
    → s.message_counter_id + 1 < 2 ^ 63
    → find_group s.group_chats name ≡ some chat
    → (t : Server) × (cmd_put_msg now pipe user group_word name text s ≡ some t)
      × (cmd_get_msg pipe' user' group_word name (int_to_str (pos s.message_counter_id)) t
          ≡ some (
              response pipe' cmd_get_msg_word status_ok
                (int_to_str (pos (s.message_counter_id + 1))
                  ++ (bar ∷ (login_of s.users user ++ (bar ∷ text))))
                t))
put-get now pipe pipe' user user' name text s chat v room e =
    let um = posted now user text s in
    let c = s.message_counter_id in
    let chats = modify (push_group um) chat s.group_chats in
    let next : Server = record s {
      message_counter_id = um.id;
      messages = s.messages ++ (um ∷ []);
      group_chats = chats;
    } in
    let t = response pipe cmd_push_msg_word status_ok [] next in
    let same : t.group_chats ≡ chats =
      response-group_chats pipe cmd_push_msg_word status_ok [] next in
    let there : find_group t.group_chats name ≡ some chat =
      ap (λ g. find_group g name) same ∙ find_group-modify um chat s.group_chats name ∙ e in
    let reads : to_ulong (strtol (int_to_str (pos c))) ≡ c =
      ap to_ulong (strtol-natural c (omega arith)) in
    let list : group_messages t.group_chats chat ≡ group_messages s.group_chats chat ++ (um ∷ []) =
      ap (λ g. group_messages g chat) same
      ∙ group_messages-modify um chat s.group_chats (find_group-lt s.group_chats name e) in
    let order = group_messages-Increasing (length s.users) c s.group_chats chat v.groups in
    let answer = poll_answer-new c (group_messages s.group_chats chat) um (omega arith) order in
    (
      t,
      put_group now pipe user name text s chat e,
      get_group pipe' user' name (int_to_str (pos c)) t chat there
          ∙ ap (λ a. some (response pipe' cmd_get_msg_word status_ok a t))
              (ap (λ i. poll_answer i (group_messages t.group_chats chat)) reads
                ∙ ap (poll_answer c) list
                ∙ answer),
    )

response-private_chats :
    (pipe cmd status answer : Text) (s : Server)
    → (response pipe cmd status answer s).private_chats ≡ s.private_chats
unfolding response
response-private_chats pipe cmd status answer s = refl

put_private :
    (now : ℕ) (pipe : Text) (user : ℕ) (name text : Text) (s : Server) (first : ℕ)
    → find (is_of user) s.private_chats ≡ some first
    → cmd_put_msg now pipe user private_word name text s
      ≡ post pipe (posted now user text s) (messages_at (of_private first)) s
unfolding cmd_put_msg put_target str_eq
put_private now pipe user name text s first e = rw e refl

-- Whatever name a private message is sent to, the server adds it to the first private chat that
-- its author is in, and to no other private chat
pub put_private-first :
    (now : ℕ) (pipe : Text) (user : ℕ) (name text : Text) (s : Server) (first : ℕ)
    → find (is_of user) s.private_chats ≡ some first
    → (t : Server) × (cmd_put_msg now pipe user private_word name text s ≡ some t)
      × (private_messages t.private_chats first
          ≡ private_messages s.private_chats first ++ (posted now user text s ∷ []))
      × ((chat : ℕ)
          → chat ≢ first
          → private_messages t.private_chats chat ≡ private_messages s.private_chats chat)
put_private-first now pipe user name text s first e =
    let um = posted now user text s in
    let chats = modify (push_private um) first s.private_chats in
    let next : Server = record s {
      message_counter_id = um.id;
      messages = s.messages ++ (um ∷ []);
      private_chats = chats;
    } in
    let t = response pipe cmd_push_msg_word status_ok [] next in
    let same : t.private_chats ≡ chats =
      response-private_chats pipe cmd_push_msg_word status_ok [] next in
    let below = (find-some (is_of user) s.private_chats e).below in
    (
      t,
      put_private now pipe user name text s first e,
      ap (λ p. private_messages p first) same
          ∙ private_messages-modify um first s.private_chats below,
      λ chat ne.
          ap (λ p. private_messages p chat) same
          ∙ private_messages-modify_ne um first chat s.private_chats ne,
    )

-- A message to a group chat goes to the end of the chat's list.
pub put_group-appends :
    (now : ℕ) (pipe : Text) (user : ℕ) (name text : Text) (s : Server) (chat : ℕ)
    → find_group s.group_chats name ≡ some chat
    → (t : Server) × (cmd_put_msg now pipe user group_word name text s ≡ some t)
      × (group_messages t.group_chats chat
          ≡ group_messages s.group_chats chat ++ (posted now user text s ∷ []))
put_group-appends now pipe user name text s chat e =
    let um = posted now user text s in
    let next : Server = record s {
      message_counter_id = um.id;
      messages = s.messages ++ (um ∷ []);
      group_chats = modify (push_group um) chat s.group_chats;
    } in
    (
      response pipe cmd_push_msg_word status_ok [] next,
      put_group now pipe user name text s chat e,
      ap (λ g. group_messages g chat)
            (response-group_chats pipe cmd_push_msg_word status_ok [] next)
          ∙ group_messages-modify um chat s.group_chats (find_group-lt s.group_chats name e),
    )
