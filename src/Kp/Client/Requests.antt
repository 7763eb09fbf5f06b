-- ===== src/Kp/Client/Requests.antt =====
-- What the client writes and the server reads, and the other way.
use mai_os.Base.{ℕ, ◌≡◌, ap, ◌∙◌, [], ◌∷◌, ◌++◌, append-nil}
use mai_os.Base.Text.{Text}
use mai_os.Kp.Constants.{bar}
use mai_os.Kp.StringParser.{
  string_parser, FreeOf, string_parser-free, string_parser-cut, string_parser-last,
}
use mai_os.Kp.Server.{Server, answer_text}
use mai_os.Kp.Server.Requests.{serve, serve_parts, request_handler}
use mai_os.Kp.Client.{Client, request_text}
use mai_os.Kp.Client.Handlers.{receive, receive_parts, answer_handler}

-- Three parts, and the rest.
parse_three :
    (p q r : Text)
    → FreeOf bar p
    → FreeOf bar q
    → FreeOf bar r
    → string_parser (p ++ (bar ∷ (q ++ (bar ∷ r)))) 4 bar ≡ p ∷ q ∷ r ∷ []
parse_three p q r fp fq fr =
    string_parser-cut 2 bar p (q ++ (bar ∷ r)) fp
    ∙ ap (λ ps. p ∷ ps)
        (string_parser-cut 1 bar q r fq ∙ ap (λ ps. q ∷ ps) (string_parser-free 2 bar r fr))

parse_four :
    (p q r rest : Text)
    → FreeOf bar p
    → FreeOf bar q
    → FreeOf bar r
    → string_parser (p ++ (bar ∷ (q ++ (bar ∷ (r ++ (bar ∷ rest)))))) 4 bar ≡ p ∷ q ∷ r ∷ rest ∷ []
parse_four p q r rest fp fq fr =
    string_parser-cut 2 bar p (q ++ (bar ∷ (r ++ (bar ∷ rest)))) fp
    ∙ ap (λ ps. p ∷ ps)
        (string_parser-cut 1 bar q (r ++ (bar ∷ rest)) fq
          ∙ ap (λ ps. q ∷ ps)
              (string_parser-cut 0 bar r rest fr ∙ ap (λ ps. r ∷ ps) (string_parser-last bar rest)))

-- The server splits a client's request into its command, pipe, name and arguments.
pub request_handler-request_text :
    (now : ℕ) (command pipe_name name arguments : Text) (s : Server)
    → FreeOf bar command
    → FreeOf bar pipe_name
    → FreeOf bar name
    → request_handler now (request_text command pipe_name name arguments) s
      ≡ serve now command pipe_name name arguments s
unfolding request_handler
request_handler-request_text now command pipe_name name [] s fc fp fn =
    let whole : Text = request_text command pipe_name name [] in
    let parts : string_parser whole 4 bar ≡ command ∷ pipe_name ∷ name ∷ [] =
      rw (append-nil name) (parse_three command pipe_name name fc fp fn) in
    ap (λ p. serve_parts now whole p s) parts
request_handler-request_text now command pipe_name name (d ∷ rest) s fc fp fn =
    let whole : Text = request_text command pipe_name name (d ∷ rest) in
    ap (λ p. serve_parts now whole p s) (parse_four command pipe_name name (d ∷ rest) fc fp fn)

-- The client splits the server's answer into its command, status and arguments.
pub answer_handler-answer_text :
    (cmd status answer : Text) (c : Client)
    → FreeOf bar cmd
    → FreeOf bar status
    → answer_handler (answer_text cmd status answer) c ≡ receive cmd status answer c
unfolding answer_handler
answer_handler-answer_text cmd status [] c fc fs = rw (append-nil status) (
    ap (λ p. receive_parts p c)
      (string_parser-cut 1 bar cmd status fc
        ∙ ap (λ ps. cmd ∷ ps) (string_parser-free 2 bar status fs)))
answer_handler-answer_text cmd status (d ∷ rest) c fc fs =
    ap (λ p. receive_parts p c)
      (string_parser-cut 1 bar cmd (status ++ (bar ∷ (d ∷ rest))) fc
        ∙ ap (λ ps. cmd ∷ ps)
            (string_parser-cut 0 bar status (d ∷ rest) fs
              ∙ ap (λ ps. status ∷ ps) (string_parser-last bar (d ∷ rest))))
