-- ===== src/Kp/Server/Reachable.antt =====
-- Every state that the server reaches by serving requests meets its invariant.
use mai_os.Base.{
  ℕ, ◌+◌, ◌^◌, ◌≤◌, ◌<◌, ◌≡◌, List, [], ◌∷◌, ◌++◌, Bool, true, false, Option, some, none, arith,
  if◌then◌else◌, ◌>>=◌, length, get_elem?, bind_some, refl,
}
use mathlib.Core.Path.{subst}
use mai_os.Base.Text.{Text, codes}
use mai_os.Kp.Constants.{bar}
use mai_os.Kp.StringParser.{string_parser}
use mai_os.Kp.Server.{Server, find_user, print, new_server}
use mai_os.Kp.Server.Commands.{cmd_logout}
use mai_os.Kp.Server.Messages.{cmd_put_msg, cmd_get_msg, cmd_chats}
use mai_os.Kp.Server.Requests.{
  with_three, dispatch, dispatch_user, serve, serve_parts, request_handler, loop_round, loop,
}
use mai_os.Kp.Server.Users.{login_of-find_user}
use mai_os.Kp.Server.Invariant.{IsValid, response-IsValid, new_server-IsValid}
use mai_os.Kp.Server.Preserve.{cmd_login-IsValid, cmd_logout-IsValid, cmd_private-IsValid}
use mai_os.Kp.Server.PreserveChats.{
  cmd_create-IsValid, cmd_join-IsValid, cmd_put_msg-IsValid, cmd_get_msg-IsValid,
}
use mai_os.Kp.Server.Frame.{
  cmd_login-counter, cmd_private-Frame, cmd_create-Frame, cmd_join-Frame, cmd_chats-Frame,
  cmd_get_msg-Frame, cmd_put_msg-Frame,
}

-- What a step gives is valid, and the counter is at most one more than `n`.
abbrev Good : ℕ → Server → Type 0
Good n t = IsValid t × (t.message_counter_id ≤ n + 1)

abbrev Keeps : ℕ → Option Server → Type 0
Keeps n o = (t : Server) → o ≡ some t → Good n t

Keeps-some : (n : ℕ) (t : Server) → Good n t → Keeps n (some t)
Keeps-some n t g u e = let same : t ≡ u = cc in subst (Good n) same g

Keeps-if :
    (n : ℕ) (b : Bool) (x y : Option Server) → Keeps n x → Keeps n y → Keeps n (if b then x else y)
Keeps-if n true x y hx hy = hx
Keeps-if n false x y hx hy = hy

Keeps-bind :
    {A : Type 0} (n : ℕ) (m : Option A) (f : A → Option Server)
    → ((a : A) → Keeps n (f a))
    → Keeps n (m >>= f)
Keeps-bind n none f h t e = cc
Keeps-bind n (some a) f h t e = h a t e

print-Good : (n : ℕ) (line : Text) (s : Server) → Good n s → Good n (print line s)
print-Good n line s (v, le) = (
  record {
    logins = v.logins;
    allowed = v.allowed;
    names = v.names;
    groups = v.groups;
    pairs = v.pairs;
    privates = v.privates;
    order = v.order;
    counter = v.counter;
  },
  le,
)

with_three-Keeps :
    (n : ℕ) (args : Text) (act : Text → Text → Text → Server → Option Server) (s : Server)
    → ((mode name text : Text) → Keeps n (act mode name text s))
    → Keeps n (with_three args act s)
unfolding with_three
with_three-Keeps n args act s h = Keeps-bind n (get_elem? (string_parser args 3 bar) 0) _ λ mode.
    Keeps-bind n (get_elem? (string_parser args 3 bar) 1) _
      λ name. Keeps-bind n (get_elem? (string_parser args 3 bar) 2) _ λ text. h mode name text

cmd_chats-IsValid :
    (pipe : Text) (user : ℕ) {s : Server} → IsValid s → IsValid (cmd_chats pipe user s)
unfolding cmd_chats
cmd_chats-IsValid pipe user v = response-IsValid _ _ _ _ v

module _ (s : Server) (v : IsValid s) (room : s.message_counter_id + 1 < 2 ^ 64) where
  dispatch-Keeps :
      (now : ℕ) (cmd pipe : Text) (user : ℕ) (args : Text)
      → user < length s.users
      → Keeps s.message_counter_id (dispatch now cmd pipe user args s)
  unfolding dispatch cmd_logout
  dispatch-Keeps now cmd pipe user args known =
      let n = s.message_counter_id in
      Keeps-if n _ _ _ (Keeps-some n _ (cmd_logout-IsValid user v, omega arith)) (
        Keeps-if n _ _ _
          (Keeps-some n _ (
            cmd_private-IsValid pipe user args v known,
            (cmd_private-Frame pipe user args s).counter,
          ))
          (Keeps-if n _ _ _
            (Keeps-some n _ (
              cmd_create-IsValid now pipe user args v room known,
              (cmd_create-Frame now pipe user args s).counter,
            ))
            (Keeps-if n _ _ _
              (Keeps-some n _ (
                cmd_join-IsValid now pipe user args v room known,
                (cmd_join-Frame now pipe user args s).counter,
              ))
              (Keeps-if n _ _ _
                (with_three-Keeps n args (cmd_put_msg now pipe user) s λ mode name text t e. (
                  cmd_put_msg-IsValid now pipe user mode name text v room e,
                  (cmd_put_msg-Frame now pipe user mode name text s e).counter,
                ))
                (Keeps-if n _ _ _
                  (with_three-Keeps n args (cmd_get_msg pipe user) s λ mode name text t e. (
                    cmd_get_msg-IsValid pipe user mode name text v e,
                    (cmd_get_msg-Frame pipe user mode name text s e).counter,
                  ))
                  (Keeps-if n _ _ _
                    (Keeps-some n _
                      (cmd_chats-IsValid pipe user v, (cmd_chats-Frame pipe user s).counter))
                    (Keeps-some n _ (v, omega arith))))))))

  dispatch_user-Keeps :
      (now : ℕ) (cmd pipe login : Text) (found : Option ℕ) (args : Text)
      → find_user s.users login ≡ found
      → Keeps s.message_counter_id (dispatch_user now cmd pipe login found args s)
  dispatch_user-Keeps now cmd pipe login none args e =
      let line = codes "Error: User " ++ (login ++ codes " not authorized") in
      Keeps-some _ _ (print-Good s.message_counter_id line s (v, omega arith))
  dispatch_user-Keeps now cmd pipe login (some user) args e =
      dispatch-Keeps now cmd pipe user args (login_of-find_user s.users login e).0

  serve-Keeps :
      (now : ℕ) (cmd pipe login args : Text)
      → Keeps s.message_counter_id (serve now cmd pipe login args s)
  unfolding serve
  serve-Keeps now cmd pipe login args =
      let e = cmd_login-counter pipe args s in
      let n = s.message_counter_id in
      Keeps-if n _ _ _ (Keeps-some n _ (cmd_login-IsValid pipe args v, omega arith))
        (dispatch_user-Keeps now cmd pipe login (find_user s.users login) args refl)

  serve_parts-Keeps :
      (now : ℕ) (request : Text) (parts : List Text)
      → Keeps s.message_counter_id (serve_parts now request parts s)
  serve_parts-Keeps now request [] t e = cc
  serve_parts-Keeps now request (cmd ∷ []) t e =
      let line = codes "Error: Bad request: " ++ request in
      Keeps-some _ _ (print-Good s.message_counter_id line s (v, omega arith)) t e
  serve_parts-Keeps now request (cmd ∷ pipe ∷ []) t e = cc
  serve_parts-Keeps now request (cmd ∷ pipe ∷ login ∷ []) t e =
      serve-Keeps now cmd pipe login [] t e
  serve_parts-Keeps now request (cmd ∷ pipe ∷ login ∷ args ∷ more) t e =
      serve-Keeps now cmd pipe login args t e

pub loop_round-IsValid :
    (now : ℕ) (request : Text) {s t : Server}
    → IsValid s
    → s.message_counter_id + 1 < 2 ^ 64
    → loop_round now request s ≡ some t
    → IsValid t × (t.message_counter_id ≤ s.message_counter_id + 1)
unfolding loop_round request_handler
loop_round-IsValid now request {s} {t} v room e =
    let (w, le) = print-Good s.message_counter_id (codes "get " ++ request) s (v, omega arith) in
    serve_parts-Keeps (print (codes "get " ++ request) s) w room now request
      (string_parser request 4 bar) t e

loop-IsValid :
    (requests : List (ℕ × Text)) {s t : Server}
    → IsValid s
    → s.message_counter_id + length requests < 2 ^ 64
    → loop requests s ≡ some t
    → IsValid t
unfolding loop
loop-IsValid [] v room e = subst IsValid (cc) v
loop-IsValid ((now, request) ∷ requests) {s} v room e =
    let (u, first, rest) = bind_some (loop_round now request s) (loop requests) e in
    let (w, le) = loop_round-IsValid now request v (omega arith) first in
    loop-IsValid requests w (omega arith) rest

-- After any fewer than 2 ^ 64 requests that a new server serves, logins are distinct and none is
-- a reserved name, names of group chats are distinct, members are distinct users, a private chat
-- is of two different users and no two chats have the same pair, the ids of the messages of each
-- chat and of all posted messages grow strictly and are at most the counter, and the counter is
-- below 2 ^ 64
pub reached-IsValid :
    (requests : List (ℕ × Text)) {t : Server}
    → length requests < 2 ^ 64
    → loop requests new_server ≡ some t
    → IsValid t
reached-IsValid requests few e = loop-IsValid requests new_server-IsValid (omega arith) e
