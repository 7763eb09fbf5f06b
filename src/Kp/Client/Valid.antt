-- ===== src/Kp/Client/Valid.antt =====
-- A client that has only written requests that the server can serve, and its commands.
use mai_os.Base.{
  ℕ, ◌≡◌, refl, sym, inl, inr, [], ◌∷◌, ◌++◌, Bool, true, false, arith, Bool-cases, if◌then◌else◌,
}
use mathlib.Core.Path.{subst}
use mai_os.Base.Text.{Text, str_eq}
use mai_os.Kp.Constants.{
  bar, newline, none_user_name, cmd_login_word, cmd_logout_word, cmd_private_word, cmd_join_word,
  cmd_create_word, cmd_push_msg_word, cmd_get_msg_word, group_word, private_word,
}
use mai_os.Kp.StringParser.{FreeOf}
use mai_os.Kp.Server.{Server}
use mai_os.Kp.Server.Lists.{All, All-snoc}
use mai_os.Kp.Server.Requests.{request_handler}
use mai_os.Kp.Client.{
  ClientState, Client, PrintType, print, request_text, request, has_bar, cmd_login, cmd_logout,
  cmd_join, cmd_private, cmd_create_chat, cmd_push, update_chat, chat_args, is_in_group_chat,
  is_not_login, is_bad_size, is_long, truncated, warn_long,
}
use mai_os.Kp.Client.Requests.{request_handler-request_text}
use mai_os.Kp.Client.Served.{Gives, IsChatArgs, Served, serve-Gives}

-- A line that the server serves in any state, at any time.
pub record IsServed (line : Text) : Type 0 where
  pub text : Text
  pub shape : line ≡ text ++ (newline ∷ [])
  pub served : (now : ℕ) (s : Server) → Gives (request_handler now text s)

pub record IsValid (c : Client) : Type 0 where
  pub pipe : FreeOf bar c.pipe_name
  pub name : FreeOf bar c.login
  pub written : All IsServed c.requests

pub print-IsValid :
    (text : Text) (t : PrintType) {c : Client} → IsValid c → IsValid (print text t c)
print-IsValid text t v = record { pipe = v.pipe; name = v.name; written = v.written }

has_bar-FreeOf : (text : Text) → has_bar text ≡ false → FreeOf bar text
unfolding has_bar
has_bar-FreeOf [] e = tt
has_bar-FreeOf (d ∷ text) e = ((ground arith), has_bar-FreeOf text (ground arith))

free_if : (b : Bool) (own : Text) → FreeOf bar own → FreeOf bar (if b then none_user_name else own)
free_if true own h = omega arith
free_if false own h = h

pub request-IsValid :
    (command arguments : Text) {c : Client}
    → IsValid c
    → FreeOf bar command
    → Served command arguments
    → IsValid (request command arguments c)
unfolding request
request-IsValid command arguments {c} v free ok =
    let name = if is_not_login c.state then none_user_name else c.login in
    let free_name : FreeOf bar name = free_if (is_not_login c.state) c.login v.name in
    record {
      pipe = v.pipe;
      name = v.name;
      written = All-snoc IsServed c.requests _ v.written (record {
        text = request_text command c.pipe_name name arguments;
        shape = refl;
        served = λ now s.
            subst Gives
              (sym (
                request_handler-request_text now command c.pipe_name name arguments s free v.pipe
                  free_name))
              (serve-Gives now command c.pipe_name name arguments s ok);
      });
    }

pub chat_args-IsChatArgs : (c : Client) (last : Text) → IsChatArgs (chat_args c last)
chat_args-IsChatArgs c last = record {
  mode = if is_in_group_chat c.state then group_word else private_word;
  name = c.chat_name;
  rest = last;
  shape = refl;
  known = elim (Bool-cases (is_in_group_chat c.state)) [
    | inl e ↦ rw e (inl refl)
    | inr e ↦ rw e (inr refl)
  ];
}

pub IsValid-if :
    (b : Bool) {c d : Client} → IsValid c → (b ≡ false → IsValid d) → IsValid (if b then c else d)
IsValid-if true v w = v
IsValid-if false v w = w refl

-- Another state of the client with the same login, pipe and requests.
pub with_chat-IsValid :
    (state : ClientState) (chat_name last_update_id : Text) {c : Client}
    → IsValid c
    → IsValid (record c { state = state; chat_name = chat_name; last_update_id = last_update_id })
with_chat-IsValid state chat_name last_update_id v = record {
  pipe = v.pipe;
  name = v.name;
  written = v.written;
}

pub cmd_login-IsValid : (name : Text) {c : Client} → IsValid c → IsValid (cmd_login name c)
unfolding cmd_login str_eq
cmd_login-IsValid name {c} v = elim (Bool-cases (is_not_login c.state)) [
  | inl out ↦ rw out (
      IsValid-if (is_bad_size name) (print-IsValid _ _ v) λ fits.
        IsValid-if (has_bar name) (print-IsValid _ _ v) λ no_bar.
          request-IsValid cmd_login_word name
            (record { pipe = v.pipe; name = has_bar-FreeOf name no_bar; written = v.written })
            (omega arith) (inl (refl, refl)))
  | inr already ↦ rw already (print-IsValid _ _ v)
]

pub cmd_logout-IsValid : {c : Client} → IsValid c → IsValid (cmd_logout c)
unfolding cmd_logout str_eq
cmd_logout-IsValid {c} v = IsValid-if (is_not_login c.state) (print-IsValid _ _ v) λ e.
    print-IsValid _ _ (
      let w = request-IsValid cmd_logout_word [] v (omega arith) (inl (refl, refl)) in
      record { pipe = w.pipe; name = w.name; written = w.written })

pub cmd_join-IsValid : (name : Text) {c : Client} → IsValid c → IsValid (cmd_join name c)
unfolding cmd_join str_eq
cmd_join-IsValid name {c} v =
    IsValid-if (is_not_login c.state) (print-IsValid _ _ v)
      λ e. request-IsValid cmd_join_word name v (omega arith) (inl (refl, refl))

pub cmd_private-IsValid : (name : Text) {c : Client} → IsValid c → IsValid (cmd_private name c)
unfolding cmd_private str_eq
cmd_private-IsValid name {c} v =
    IsValid-if (is_not_login c.state) (print-IsValid _ _ v)
      λ e. request-IsValid cmd_private_word name v (omega arith) (inl (refl, refl))

pub cmd_create_chat-IsValid :
    (name : Text) {c : Client} → IsValid c → IsValid (cmd_create_chat name c)
unfolding cmd_create_chat str_eq
cmd_create_chat-IsValid name {c} v = IsValid-if (is_not_login c.state) (print-IsValid _ _ v) λ e.
    IsValid-if (is_bad_size name) (print-IsValid _ _ v) λ fits.
      IsValid-if (has_bar name) (print-IsValid _ _ v)
        λ no_bar. request-IsValid cmd_create_word name v (omega arith) (inl (refl, refl))

pub warn_long-IsValid : (text : Text) {c : Client} → IsValid c → IsValid (warn_long text c)
warn_long-IsValid text v =
    IsValid-if (is_long text) (print-IsValid _ _ (print-IsValid _ _ v)) (λ e. v)

pub cmd_push-IsValid : (text : Text) {c : Client} → IsValid c → IsValid (cmd_push text c)
unfolding cmd_push
cmd_push-IsValid text {c} v = IsValid-if (is_not_login c.state) (print-IsValid _ _ v) λ e.
    IsValid-if (has_bar text) (print-IsValid _ _ v) λ no_bar.
      request-IsValid cmd_push_msg_word (chat_args c (truncated text)) (warn_long-IsValid text v)
        (omega arith) (inr (chat_args-IsChatArgs c (truncated text)))

pub update_chat-IsValid : (id : Text) {c : Client} → IsValid c → IsValid (update_chat id c)
unfolding update_chat
update_chat-IsValid id {c} v =
    request-IsValid cmd_get_msg_word (chat_args c id) v (omega arith)
      (inr (chat_args-IsChatArgs c id))
