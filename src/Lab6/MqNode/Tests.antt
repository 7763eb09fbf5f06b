-- ===== src/Lab6/MqNode/Tests.antt =====
-- Runs of mq_node.c over one connection, and its theorems at them.
use mai_os.Base.{◌≡◌, refl, inl, false, none, some, [], ◌∷◌, arith, pos, minus_one, replicate}
use mai_os.Base.Text.{codes}
use mai_os.Lab6.Instances.{Queue, loopback, loopback_null, loopback_pair}
use mai_os.Lab6.MqNode.{
  MqNode, Message, init, connect, connect_left, close, close_left, receive, push, destroy,
}
use mai_os.Lab6.MqNode.Frames.{as_array, stored, receive-push}
use mai_os.Lab6.MqNode.Children.{
  IsLinked, init-IsLinked, connect-IsLinked, close-IsLinked, close-connect,
}

abbrev quiet : Queue
quiet = ([], false)

abbrev alone : MqNode loopback
alone = record {
  context = some tt;
  main_socket = some 5;
  ping_socket = some 5;
  left_child_id = minus_one;
  right_child_id = minus_one;
  left_child_main_socket = none;
  right_child_main_socket = none;
  left_child_ping_socket = none;
  right_child_ping_socket = none;
}

abbrev with_seven : MqNode loopback
with_seven = record alone {
  left_child_id = pos 7;
  left_child_main_socket = some 5;
  left_child_ping_socket = some 5;
}

alone-IsLinked : IsLinked loopback alone
alone-IsLinked = record { left = inl (refl, refl, refl); right = inl (refl, refl, refl) }

init-alone : init loopback quiet ≡ (alone, quiet)
unfolding init
init-alone = refl

abbrev pong : Message
pong = replicate 2 none

receive-push_example :
    (w₁ w₂ : Queue) × (push loopback (some 5) (as_array (codes "pong") (codes "7" ∷ []) []) quiet
      ≡ some w₁)
    × (receive loopback (some 5) pong w₁
        ≡ some (2, stored (codes "pong") (codes "7" ∷ []) pong, w₂))
    × (w₂.0 ≡ [])
receive-push_example =
    receive-push loopback (some 5) (some 5) loopback_pair (codes "pong") (codes "7" ∷ []) [] pong
      quiet (omega arith) refl

init-IsLinked_example : IsLinked loopback (init loopback quiet).0
init-IsLinked_example = init-IsLinked loopback loopback_null quiet

connect_seven : connect loopback alone (pos 7) none none quiet ≡ some (with_seven, quiet)
unfolding connect connect_left
connect_seven = refl

connect-IsLinked_example : IsLinked loopback with_seven
connect-IsLinked_example =
    connect-IsLinked loopback loopback_null alone with_seven (pos 7) none none quiet quiet
      alone-IsLinked (λ e. cc) connect_seven

close_seven : close loopback with_seven (pos 7) quiet ≡ some (alone, quiet)
unfolding close close_left
close_seven = refl

destroy_seven :
    destroy loopback with_seven quiet
    ≡ some (record alone { main_socket = none; ping_socket = none; context = none }, quiet)
unfolding destroy close close_left
destroy_seven = refl

close-IsLinked_example : IsLinked loopback alone
close-IsLinked_example =
    close-IsLinked loopback loopback_null with_seven alone (pos 7) quiet quiet
      connect-IsLinked_example close_seven

close-connect_example : alone ≡ alone
close-connect_example =
    close-connect loopback alone with_seven alone (pos 7) none none quiet quiet quiet quiet
      alone-IsLinked (λ e. cc) (λ e. cc) (inl refl) connect_seven close_seven
