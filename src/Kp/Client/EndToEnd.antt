-- ===== src/Kp/Client/EndToEnd.antt =====
-- From one client's input through the server to another client's screen.
use mai_os.Base.{
  ℕ, ◌+◌, ◌^◌, ◌<◌, ◌≡◌, refl, ap, ◌∙◌, [], ◌∷◌, ◌++◌, false, Option, some, arith, pos,
}
use mai_os.Base.Text.{Text, str_eq}
use mai_os.Base.Decimal.{int_to_str, Digits, int_to_str-Digits}
use mai_os.Kp.Constants.{bar, newline, status_ok, cmd_push_msg_word, cmd_get_msg_word, group_word}
use mai_os.Kp.StringParser.{string_parser, FreeOf, string_parser-cut, string_parser-last}
use mai_os.Kp.Server.{Server, find_user, answer_text, response, login_of}
use mai_os.Kp.Server.Commands.{find_group}
use mai_os.Kp.Server.Messages.{cmd_put_msg, cmd_get_msg}
use mai_os.Kp.Server.Requests.{with_three, dispatch, serve, request_handler}
use mai_os.Kp.Server.Users.{login_of-find_user}
use mai_os.Kp.Server.Frame.{cmd_put_msg-Frame}
use mai_os.Kp.Server.Invariant.{IsValid}
use mai_os.Kp.Server.Delivery.{put-get}
use mai_os.Kp.Client.{
  in_group_chat, Client, message, print, request_text, request, has_bar, cmd_push, update_chat,
  is_long,
}
use mai_os.Kp.Client.Handlers.{receive, answer_handler, take_messages, rec_get_msg}
use mai_os.Kp.Client.Requests.{request_handler-request_text, answer_handler-answer_text}

pub with_three_parts :
    (mode name text : Text) (act : Text → Text → Text → Server → Option Server) (s : Server)
    → FreeOf bar mode
    → FreeOf bar name
    → with_three (mode ++ (bar ∷ (name ++ (bar ∷ text)))) act s ≡ act mode name text s
unfolding with_three
with_three_parts mode name text act s fm fn =
    let parts : string_parser (mode ++ (bar ∷ (name ++ (bar ∷ text)))) 3 bar
        ≡ mode ∷ name ∷ text ∷ [] =
      string_parser-cut 1 bar mode (name ++ (bar ∷ text)) fm
      ∙ ap (λ ps. mode ∷ ps)
          (string_parser-cut 0 bar name text fn
            ∙ ap (λ ps. name ∷ ps) (string_parser-last bar text)) in
    rw parts refl

pub serve-push :
    (now : ℕ) (pipe login args : Text) (s : Server) {user : ℕ}
    → find_user s.users login ≡ some user
    → serve now cmd_push_msg_word pipe login args s ≡ with_three args (cmd_put_msg now pipe user) s
unfolding serve dispatch str_eq
serve-push now pipe login args s e = rw e refl

serve-poll :
    (now : ℕ) (pipe login args : Text) (s : Server) {user : ℕ}
    → find_user s.users login ≡ some user
    → serve now cmd_get_msg_word pipe login args s ≡ with_three args (cmd_get_msg pipe user) s
unfolding serve dispatch str_eq
serve-poll now pipe login args s e = rw e refl

Digits-FreeOf : (s : Text) → Digits s → FreeOf bar s
Digits-FreeOf [] h = tt
Digits-FreeOf (c ∷ s) (low, high, h) = ((omega arith), Digits-FreeOf s h)

take_messages-two :
    (id login text : Text) (c : Client)
    → take_messages (id ∷ (login ++ (bar ∷ text)) ∷ []) c
      ≡ some (print (login ++ (bar ∷ text)) message (record c { last_update_id = id }))
take_messages-two id [] text c = refl
take_messages-two id (x ∷ login) text c = refl

-- A message that a poll answers with is printed, and the id is kept.
receive-message :
    (n : ℕ) (login text : Text) (c : Client)
    → answer_handler
        (answer_text cmd_get_msg_word status_ok
          (int_to_str (pos n) ++ (bar ∷ (login ++ (bar ∷ text)))))
        c
      ≡ some
          (print (login ++ (bar ∷ text)) message (record c { last_update_id = int_to_str (pos n) }))
unfolding receive rec_get_msg str_eq
receive-message n login text c =
    let id = int_to_str (pos n) in
    let free = Digits-FreeOf id (int_to_str-Digits n) in
    let parts : string_parser (id ++ (bar ∷ (login ++ (bar ∷ text)))) 2 bar
        ≡ id ∷ (login ++ (bar ∷ text)) ∷ [] =
      string_parser-cut 0 bar id (login ++ (bar ∷ text)) free
      ∙ ap (λ ps. id ∷ ps) (string_parser-last bar (login ++ (bar ∷ text))) in
    answer_handler-answer_text cmd_get_msg_word status_ok (id ++ (bar ∷ (login ++ (bar ∷ text)))) c
      (omega arith) (omega arith)
    ∙ ap (λ ps. take_messages ps c) parts
    ∙ take_messages-two id login text c

-- A client in the group chat of that name, known to the server.
pub record Ready (c : Client) (name : Text) (s : Server) : Type 0 where
  pub state : c.state ≡ in_group_chat
  pub chat_name : c.chat_name ≡ name
  pub free_login : FreeOf bar c.login
  pub free_pipe : FreeOf bar c.pipe_name
  pub user : ℕ
  pub known : find_user s.users c.login ≡ some user

-- `a` posts the text, the server serves it, `b` polls, the server serves that, and `b` prints.
pub record Delivered (now now' : ℕ) (a b : Client) (text : Text) (s : Server) : Type 0 where
  pub post : Text
  pub posted : (cmd_push text a).requests ≡ a.requests ++ ((post ++ (newline ∷ [])) ∷ [])
  pub after_post : Server
  pub served_post : request_handler now post s ≡ some after_post
  pub poll : Text
  pub polled :
      (update_chat b.last_update_id b).requests ≡ b.requests ++ ((poll ++ (newline ∷ [])) ∷ [])
  pub after_poll : Server
  pub served_poll : request_handler now' poll after_post ≡ some after_poll
  pub line : Text
  pub answered :
      after_poll.answers ≡ after_post.answers ++ ((b.pipe_name, line ++ (newline ∷ [])) ∷ [])
  pub received : Client
  pub handled : answer_handler line (update_chat b.last_update_id b) ≡ some received
  pub prints : received.prints ≡ b.prints ++ ((a.login ++ (bar ∷ text), message) ∷ [])
  pub next : received.last_update_id ≡ int_to_str (pos (s.message_counter_id + 1))

push-requests :
    (text : Text) (a : Client)
    → a.state ≡ in_group_chat
    → has_bar text ≡ false
    → is_long text ≡ false
    → (cmd_push text a).requests
      ≡ a.requests
        ++ ((request_text cmd_push_msg_word a.pipe_name a.login
                (group_word ++ (bar ∷ (a.chat_name ++ (bar ∷ text))))
              ++ (newline ∷ []))
            ∷ [])
unfolding cmd_push request
push-requests text a state free short = rw (state, free, short) refl

update-requests :
    (id : Text) (b : Client)
    → b.state ≡ in_group_chat
    → (update_chat id b).requests
      ≡ b.requests
        ++ ((request_text cmd_get_msg_word b.pipe_name b.login
                (group_word ++ (bar ∷ (b.chat_name ++ (bar ∷ id))))
              ++ (newline ∷ []))
            ∷ [])
unfolding update_chat request
update-requests id b state = rw state refl

-- The server's step for a request of a client in a group chat.
served_by :
    (now : ℕ) (command last : Text) (c : Client) (name : Text) (s : Server)
    → Ready c name s
    → FreeOf bar command
    → request_handler now
        (request_text command c.pipe_name c.login
          (group_word ++ (bar ∷ (c.chat_name ++ (bar ∷ last)))))
        s
      ≡ serve now command c.pipe_name c.login (group_word ++ (bar ∷ (name ++ (bar ∷ last)))) s
served_by now command last c name s r free =
    ap
      (λ n.
        request_handler now
          (request_text command c.pipe_name c.login (group_word ++ (bar ∷ (n ++ (bar ∷ last))))) s)
      r.chat_name
    ∙ request_handler-request_text now command c.pipe_name c.login
        (group_word ++ (bar ∷ (name ++ (bar ∷ last)))) s free r.free_pipe r.free_login

response-answers :
    (pipe cmd status answer : Text) (s : Server)
    → (response pipe cmd status answer s).answers
      ≡ s.answers ++ ((pipe, answer_text cmd status answer ++ (newline ∷ [])) ∷ [])
unfolding response
response-answers pipe cmd status answer s = refl

update_chat-prints : (id : Text) (c : Client) → (update_chat id c).prints ≡ c.prints
unfolding update_chat request
update_chat-prints id c = refl

module _ (now now' : ℕ) (a b : Client) (name text : Text) (s : Server) (chat : ℕ) (v : IsValid s)
    (room : s.message_counter_id + 1 < 2 ^ 63) (ra : Ready a name s) (rb : Ready b name s)
    (free_name : FreeOf bar name) (there : find_group s.group_chats name ≡ some chat)
    (up_to_date : b.last_update_id ≡ int_to_str (pos s.message_counter_id))
    (free : has_bar text ≡ false) (short : is_long text ≡ false) where
  -- For a server that meets its invariant, with a message counter c and c + 1 below 2 ^ 63, and
  -- two clients that it knows by login, both in the group chat of a name that the server has,
  -- the second with c as its last id, and logins, pipes and name without a separator: the text
  -- without a separator and of at most 2048 characters that the first client pushes is written
  -- as a request that the server serves, the second client's poll is written as a request that
  -- the server serves with one answer line to that client's pipe, and handling the line prints
  -- exactly the author's login, the separator and the text, and makes c + 1 the last id
  pub push-Delivered : Delivered now now' a b text s
  push-Delivered =
      let c = s.message_counter_id in
      let id = int_to_str (pos c) in
      let (t, put, get) =
        put-get now a.pipe_name b.pipe_name ra.user rb.user name text s chat v room there in
      let same_users : t.users ≡ s.users =
        (cmd_put_msg-Frame now a.pipe_name ra.user group_word name text s put).users in
      let known' : find_user t.users b.login ≡ some rb.user =
        ap (λ us. find_user us b.login) same_users ∙ rb.known in
      let rb' : Ready b name t = record {
        state = rb.state;
        chat_name = rb.chat_name;
        free_login = rb.free_login;
        free_pipe = rb.free_pipe;
        user = rb.user;
        known = known';
      } in
      let author : login_of s.users ra.user ≡ a.login =
        (login_of-find_user s.users a.login ra.known).1 in
      let answer = int_to_str (pos (c + 1)) ++ (bar ∷ (login_of s.users ra.user ++ (bar ∷ text))) in
      let waiting = update_chat b.last_update_id b in
      let after = response b.pipe_name cmd_get_msg_word status_ok answer t in
      record {
        post =
            request_text cmd_push_msg_word a.pipe_name a.login
              (group_word ++ (bar ∷ (a.chat_name ++ (bar ∷ text))));
        posted = push-requests text a ra.state free short;
        after_post = t;
        served_post =
            served_by now cmd_push_msg_word text a name s ra (omega arith)
            ∙ serve-push now a.pipe_name a.login _ s ra.known
            ∙ with_three_parts group_word name text _ s (omega arith) free_name
            ∙ put;
        poll =
            request_text cmd_get_msg_word b.pipe_name b.login
              (group_word ++ (bar ∷ (b.chat_name ++ (bar ∷ b.last_update_id))));
        polled = update-requests b.last_update_id b rb.state;
        after_poll = after;
        served_poll =
            served_by now' cmd_get_msg_word b.last_update_id b name t rb' (omega arith)
            ∙ serve-poll now' b.pipe_name b.login _ t known'
            ∙ with_three_parts group_word name b.last_update_id _ t (omega arith) free_name
            ∙ ap (λ i. cmd_get_msg b.pipe_name rb.user group_word name i t) up_to_date
            ∙ get;
        line = answer_text cmd_get_msg_word status_ok answer;
        answered = response-answers b.pipe_name cmd_get_msg_word status_ok answer t;
        received =
            print (login_of s.users ra.user ++ (bar ∷ text)) message
              (record waiting { last_update_id = int_to_str (pos (c + 1)) });
        handled = receive-message (c + 1) (login_of s.users ra.user) text waiting;
        prints =
            ap (λ p. p ++ ((login_of s.users ra.user ++ (bar ∷ text), message) ∷ []))
              (update_chat-prints b.last_update_id b)
            ∙ ap (λ l. b.prints ++ ((l ++ (bar ∷ text), message) ∷ [])) author;
        next = refl;
      }
