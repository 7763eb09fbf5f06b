-- ===== src/Lab6/ComputeNode/Tests.antt =====
-- Runs of compute_node.c, and its theorems at them.
use mai_os.Base.{◌≡◌, refl, ◌≢◌, inl, false, none, some, List, [], ◌∷◌, arith, pos, minus_one}
use mai_os.Base.Text.{Text, codes, str_eq}
use mai_os.Base.Decimal.{int_to_str, str_to_int}
use mai_os.Lab6.Instances.{
  Queue, get, put, loopback, loopback_null, loopback_pair, assoc, assoc_laws,
}
use mai_os.Lab6.MqNode
use mai_os.Lab6.MqNode.{MqNode, Message}
use mai_os.Lab6.MqNode.Children.{IsLinked}
use mai_os.Lab6.MqNode.Frames.{parts}
use mai_os.Lab6.Protocol.{code_ok, code_error_custom, error_not_found}
use mai_os.Lab6.ComputeNode.{
  ComputeNode, running, after, reply_with, cmd_exec, exec_set, cmd_ping, cmd_remove,
}
use mai_os.Lab6.ComputeNode.Loop.{dispatch}
use mai_os.Lab6.ComputeNode.Keeps.{Ends, dispatch-Ends}
use mai_os.Lab6.ComputeNode.Exec.{exec_get-exec_set, exec_set-exists}
use mai_os.Lab6.ComputeNode.Answers.{Answers, leaf-Answers}

abbrev quiet : Queue
quiet = ([], false)

abbrev leaf : MqNode loopback
leaf = record {
  context = some tt;
  main_socket = some 5;
  ping_socket = some 5;
  left_child_id = minus_one;
  right_child_id = minus_one;
  left_child_main_socket = none;
  right_child_main_socket = none;
  left_child_ping_socket = none;
  right_child_ping_socket = none;
}

abbrev seven : ComputeNode loopback assoc
seven = record { node_id = codes "7"; mq = leaf; chi_map = [] }

-- the process after `x` was set to 42
abbrev knows_x : ComputeNode loopback assoc
knows_x = record seven { chi_map = (codes "x", pos 42) ∷ [] }

seven-IsLinked : IsLinked loopback leaf
seven-IsLinked = record { left = inl (refl, refl, refl); right = inl (refl, refl, refl) }

abbrev message : List Text → Message
message [] = none ∷ []
message (t ∷ ts) = some t ∷ message ts

abbrev set_x : Message
set_x = message (codes "u1" ∷ codes "exec" ∷ codes "7" ∷ codes "x" ∷ codes "42" ∷ [])

abbrev get_x : Message
get_x = message (codes "u2" ∷ codes "exec" ∷ codes "7" ∷ codes "x" ∷ [])

abbrev ping : Text → Message
ping id = message (codes "u3" ∷ codes "ping" ∷ id ∷ [])

-- what waits after an answer was sent
abbrev answered : Text → Text → Text → Text → Text → Queue
answered uuid command id code text = (parts uuid (command ∷ id ∷ code ∷ text ∷ []), false)

set_x_run :
    cmd_exec loopback assoc seven set_x 5 quiet
    ≡ some (running knows_x (answered (codes "u1") (codes "exec") (codes "7") (codes "1") []))
unfolding cmd_exec exec_set reply_with MqNode.reply MqNode.push str_eq get put int_to_str str_to_int
set_x_run = refl

exec_get-exec_set_example :
    cmd_exec loopback assoc knows_x get_x 4 quiet
    ≡ after loopback assoc knows_x (
        reply_with loopback assoc knows_x
          (some (codes "u2"))
          (some (codes "exec"))
          (some (codes "7"))
          code_ok
          (int_to_str (pos 42))
          quiet)
unfolding int_to_str get put
exec_get-exec_set_example =
    exec_get-exec_set loopback assoc assoc_laws seven knows_x set_x get_x (codes "x") (pos 42) 5
      quiet (answered (codes "u1") (codes "exec") (codes "7") (codes "1") []) quiet (refl, refl)
      refl (omega arith) (omega arith) refl set_x_run (refl, refl)

exec_set-exists_example :
    cmd_exec loopback assoc knows_x set_x 5 quiet
    ≡ after loopback assoc knows_x (
        reply_with loopback assoc knows_x
          (some (codes "u1"))
          (some (codes "exec"))
          (some (codes "7"))
          code_error_custom
          (codes "Already exists")
          quiet)
unfolding get str_eq
exec_set-exists_example =
    exec_set-exists loopback assoc assoc_laws knows_x set_x (codes "x") (codes "42") (pos 42) 5
      quiet (refl, refl) refl (omega arith) refl

dispatch-Ends_example :
    Ends loopback assoc
      (λ n. (n.node_id ≡ codes "7") × IsLinked loopback n.mq)
      (some (codes "7") ≡ some (codes "7"))
      (dispatch loopback assoc seven set_x 5 quiet)
unfolding str_to_int
dispatch-Ends_example =
    dispatch-Ends loopback assoc loopback_null seven seven-IsLinked set_x 5 quiet valid
  where
    valid : (t : Text) → some (codes "7") ≡ some t → str_to_int t ≢ minus_one
    valid t e = let seven : str_to_int (codes "7") ≡ pos 7 = refl in ground (arith, seven)

leaf-Answers_example :
    let missing =
      Answers loopback assoc seven
        (some 5)
        loopback_pair
        quiet
        (codes "u3")
        (codes "ping" ∷ codes "8" ∷ codes "2" ∷ error_not_found ∷ []) in
    missing (cmd_ping loopback assoc seven (ping (codes "8")) quiet)
    × missing (cmd_remove loopback assoc seven (ping (codes "8")) quiet)
    × missing (cmd_exec loopback assoc seven (ping (codes "8")) 3 quiet)
leaf-Answers_example =
    leaf-Answers loopback assoc seven (some 5) loopback_pair (ping (codes "8")) (codes "u3")
      (codes "ping") refl refl quiet 3 (codes "8") refl (λ e. ground (arith, e)) refl refl
