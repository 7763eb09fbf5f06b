-- ===== src/Lab6/ControlNode/Tests.antt =====
-- Runs of control_node.c, and its theorems at them.
use mai_os.Base.{
  zero, suc, ◌+◌, ◌≡◌, refl, true, false, none, some, [], ◌∷◌, ◌++◌, arith, ℤ, pos, minus_one,
}
use mai_os.Base.Text.{codes, str_eq}
use mai_os.Base.Decimal.{int_to_str, str_to_int}
use mai_os.Lab6.Instances.{get, put, write, remove, loopback, assoc, assoc_laws}
use mai_os.Lab6.BTree
use mai_os.Lab6.BTree.{BTree, BTreeNode, no_node, search}
use mai_os.Lab6.BTree.Live.{live, IsValid}
use mai_os.Lab6.BTree.Find.{UniqueIds, Lacks}
use mai_os.Lab6.MqNode
use mai_os.Lab6.MqNode.{MqNode, Message}
use mai_os.Lab6.Run.{ok}
use mai_os.Lab6.ControlNode.{
  Control, Env, printed, print, gen_address, answer_count_push, cmd_create, push_create, rec_create,
  rec_exec,
}
use mai_os.Lab6.ControlNode.Create.{new_node, cmd_create-known, cmd_create-live}
use mai_os.Lab6.ControlNode.Receive.{receive_process, take_answer, handle_answer}
use mai_os.Lab6.ControlNode.Fuel.{Ends}
use mai_os.Lab6.ControlNode.Remove.Start.{start_chain-Ends}
use mai_os.Lab6.ControlNode.Remove.{last_chain, replace_chain, start_chain}
use mai_os.Lab6.ControlNode.Remove.Plan.{Carries, fixed_part, for_son, replace_chain-Carries}
use mai_os.Lab6.ControlNode.Requests.{leaves, answer_count_push-leaves, receive_process-once}

abbrev control : BTreeNode
control = record { id = minus_one; pid = pos 50; main_address = none; ping_address = none }

abbrev env : Env
env = record { uuid = λ n. int_to_str (pos n); grants = λ n. true; junk = no_node }

-- the state before the first command
abbrev fresh : Control loopback assoc
fresh = record {
  address_shift = 5002;
  tree = record { buf = control ∷ no_node ∷ no_node ∷ no_node ∷ []; pool_size = 4; size = 1 };
  c_node = control;
  mq = record {
    context = some tt;
    main_socket = some 5;
    ping_socket = some 5;
    left_child_id = minus_one;
    right_child_id = minus_one;
    left_child_main_socket = none;
    right_child_main_socket = none;
    left_child_ping_socket = none;
    right_child_ping_socket = none;
  };
  heartbeat_time = pos 0;
  answer_count_map = [];
  nodes_ping_map = [];
  remove_list = [];
  drawn = 0;
  events = [];
  world = ([], false);
}

abbrev seven : BTreeNode
seven = record {
  id = pos 7;
  pid = pos 60;
  main_address = some (codes "tcp://localhost:5002");
  ping_address = some (codes "tcp://localhost:5003");
}

-- after `create 7`
abbrev one_process : Control loopback assoc
one_process = record fresh {
  address_shift = 5004;
  tree = record { buf = control ∷ seven ∷ no_node ∷ no_node ∷ []; pool_size = 4; size = 2 };
  mq = record fresh.mq {
    left_child_id = pos 7;
    left_child_main_socket = some 5;
    left_child_ping_socket = some 5;
  };
  nodes_ping_map = (codes "7", pos 0) ∷ [];
  events = printed (codes "Ok: 60\n") ∷ [];
}

create_seven : cmd_create loopback assoc env fresh (pos 7) (pos 60) ≡ ok one_process
unfolding cmd_create gen_address BTree.add BTree.set_size BTree.grow BTree.realloc BTree.find
    BTree.locate BTree.last_elem_parent push_create rec_create MqNode.connect MqNode.connect_left
    int_to_str put get
create_seven = refl

fresh-IsValid : IsValid fresh.tree
fresh-IsValid = omega arith

fresh-UniqueIds : UniqueIds (live fresh.tree)
fresh-UniqueIds zero zero x y p q e = refl
fresh-UniqueIds zero (suc j) x y p q e = cc
fresh-UniqueIds (suc i) j x y p q e = cc

fresh-Lacks : Lacks (pos 7) (live fresh.tree) 1
fresh-Lacks zero y h at e = ground arith
fresh-Lacks (suc j) y h at e = cc

cmd_create-live_example :
    IsValid one_process.tree
    × (live one_process.tree ≡ live fresh.tree ++ (new_node fresh (pos 7) (pos 60) ∷ []))
    × UniqueIds (live one_process.tree)
    × (5004 ≡ fresh.address_shift + 2)
    × (one_process.remove_list ≡ fresh.remove_list)
unfolding BTree.add BTree.set_size BTree.grow BTree.realloc
cmd_create-live_example =
    cmd_create-live loopback assoc env fresh one_process (pos 7) (pos 60) fresh-IsValid
      (omega arith) fresh-UniqueIds fresh-Lacks refl create_seven

cmd_create-known_example :
    cmd_create loopback assoc env one_process (pos 7) (pos 61)
    ≡ ok (print loopback assoc one_process (codes "Error: Already exists\n"))
unfolding BTree.find BTree.locate
cmd_create-known_example =
    cmd_create-known loopback assoc env one_process (pos 7) (pos 61) seven refl (λ e. cc)

answer_count_push-leaves_example :
    get (answer_count_push loopback assoc one_process (codes "u")).answer_count_map (codes "u")
    ≡ some (pos (leaves one_process.tree 2))
unfolding get put
answer_count_push-leaves_example =
    answer_count_push-leaves loopback assoc assoc_laws one_process (codes "u") (omega arith) refl

-- a request that waits for one answer
abbrev waiting : Control loopback assoc
waiting = record one_process { answer_count_map = (codes "u", pos 1) ∷ [] }

abbrev reply : Message
reply =
    some (codes "u")
    ∷ some (codes "exec")
    ∷ some (codes "7")
    ∷ some (codes "1")
    ∷ some (codes "42")
    ∷ []

abbrev settled : Control loopback assoc
settled = record one_process {
  events = printed (codes "Ok: 60\n") ∷ printed (codes "Ok:7: 42\n") ∷ [];
}

take_reply : receive_process loopback assoc env 9 waiting reply ≡ ok settled
unfolding receive_process take_answer handle_answer rec_exec get write remove str_eq str_to_int
    int_to_str
take_reply = refl

receive_process-once_example : receive_process loopback assoc env 9 settled reply ≡ ok settled
unfolding get str_eq str_to_int
receive_process-once_example =
    receive_process-once loopback assoc assoc_laws env 9 waiting settled reply reply (codes "u")
      (codes "1") (pos 1) refl refl refl refl take_reply refl

abbrev son : ℤ → BTreeNode
son id = record seven { id = id }

replace_chain-Carries_example :
    Carries (replace_chain (son (pos 7)) (son (pos 9)) control (son (pos 8)) (son (pos 9))) (
      fixed_part
        (pos 7)
        (pos 9)
        minus_one
        (codes "tcp://localhost:5002")
        (codes "tcp://localhost:5003")
      ++ (for_son
            (son (pos 9))
            (son (pos 8))
            (codes "tcp://localhost:5002")
            (codes "tcp://localhost:5003")
          ++ for_son
              (son (pos 9))
              (son (pos 9))
              (codes "tcp://localhost:5002")
              (codes "tcp://localhost:5003")))
replace_chain-Carries_example =
    replace_chain-Carries (son (pos 7)) (son (pos 9)) control (son (pos 8)) (son (pos 9))
      (codes "tcp://localhost:5002") (codes "tcp://localhost:5003") (codes "tcp://localhost:5002")
      (codes "tcp://localhost:5003") (codes "tcp://localhost:5002") (codes "tcp://localhost:5003")
      (refl, refl) (λ e. (refl, refl)) (λ e. (refl, refl)) (λ e. refl)

start_chain-Ends_example :
    Ends (start_chain loopback assoc env 7 one_process (last_chain (son (pos 7))))
    × Ends (
        start_chain loopback assoc env 7 one_process
          (replace_chain (son (pos 7)) (son (pos 9)) control (son (pos 8)) (son (pos 9))))
start_chain-Ends_example =
    start_chain-Ends (son (pos 7)) (son (pos 9)) control (son (pos 8)) (son (pos 9))
      (codes "tcp://localhost:5002") (codes "tcp://localhost:5003") (codes "tcp://localhost:5002")
      (codes "tcp://localhost:5003") (codes "tcp://localhost:5002") (codes "tcp://localhost:5003")
      (refl, refl) (λ e. (refl, refl)) (λ e. (refl, refl)) (λ e. refl) (omega arith) (omega arith)
      (λ e. omega arith) (λ e. omega arith) loopback assoc env 7 one_process tt (omega arith)
