-- ===== src/Lab6/ControlNode/Fuel/Local.antt =====
-- lab6/control_node.c: a command that the process carries out itself leaves less of the chains.
use mathlib.Core.Path.{subst}
use mai_os.Base.{
  ℕ, zero, suc, ◌+◌, ◌≤◌, ◌<◌, ltb, ◌≡◌, refl, sym, ap, ◌∙◌, true, ◌||◌, Option, none, some, ℤ, pos,
  eq_ℤ, eq_ℤ_iff, IsInt, get_elem?, set, get_elem?-set_self, lt-get_elem?, arith,
}
use mai_os.Base.Text.{Text, codes, str_eq, str_eq_refl}
use mai_os.Base.Decimal.{int_to_str, str_to_int, strtol, str_to_int-int_to_str, strtol-int_to_str}
use mai_os.Lab6.Zmq.{Zmq}
use mai_os.Lab6.HashMap.{HashMap}
use mai_os.Lab6.BTree
use mai_os.Lab6.MqNode
use mai_os.Lab6.MqNode.{Message}
use mai_os.Lab6.Protocol.{code_ok, cell}
use mai_os.Lab6.Run.{Run, ok, lift, bind_ok}
use mai_os.Lab6.ControlNode.{Control, Env, RemoveStruct, connect, close, push_all, print}
use mai_os.Lab6.ControlNode.Chain.{
  seek, matches, Found, element, none_after, find_command, number, push_next_remove, answered,
  rec_remove_with, finish_remove, unanswered,
}
use mai_os.Lab6.ControlNode.Fuel.{
  Ends, bind-Ends, if-Ends, lift-Ends, number-Ends, seek-Ends, find_command-Ends, found_at, finds,
  total, total-get, total-set, same_message, AllNamed, AllNamed-get, AllNamed-set,
}

matches_lem :
    (c t : Text) (at : Message) → cell at 0 ≡ some c → cell at 1 ≡ some t → matches c t at ≡ ok true
unfolding matches
matches_lem c t at e f = rw (e, str_eq_refl c, f, str_eq_refl t) refl

module _ (z : Zmq) (h : HashMap) where
  -- `next` ends on a chain of the list that has a command left, with at most `n` commands left.
  abbrev pub EndsBelow : (Control z h → RemoveStruct → Run (Control z h)) → ℕ → Type 0
  EndsBelow next n =
      (s : Control z h) (rms : RemoveStruct) (i : ℕ)
      → AllNamed s.remove_list
      → get_elem? s.remove_list i ≡ some rms
      → rms.now_command < rms.number_commands
      → total s.remove_list ≤ n
      → Ends (next s rms)

  finish_remove-Ends : (s : Control z h) (rs : RemoveStruct) → Ends (finish_remove z h s rs)
  unfolding finish_remove
  finish_remove-Ends s rs =
      bind-Ends (lift (BTree.find s.tree rs.remove_node_id)) _
        (lift-Ends (BTree.find s.tree rs.remove_node_id))
        (λ node e.
          bind-Ends (lift (BTree.remove s.tree rs.remove_node_id)) _
            (lift-Ends (BTree.remove s.tree rs.remove_node_id)) (λ r e. λ e. cc))

  answered-Ends :
      (next : Control z h → RemoveStruct → Run (Control z h)) (n : ℕ) (s : Control z h)
      (command str_id answer : Text) (i : ℕ) (rs : RemoveStruct)
      → EndsBelow next n
      → AllNamed s.remove_list
      → get_elem? s.remove_list i ≡ some rs
      → total s.remove_list ≤ n + 1
      → Ends (answered z h next s command str_id code_ok answer (pos 0) i rs)
  unfolding answered
  answered-Ends next n s command str_id answer i rs below named got small =
      let rs' : RemoveStruct = record rs { now_command = rs.now_command + 1 } in
      let s' : Control z h = record s { remove_list = set s.remove_list i rs' } in
      let named' =
        AllNamed-set s.remove_list i rs' named (AllNamed-get s.remove_list i rs named got) in
      let count = total-set s.remove_list i rs rs' got in
      if-Ends (ltb rs'.now_command rs'.number_commands) _ _
        (λ more.
          below s' rs' i named'
            (get_elem?-set_self s.remove_list i rs' (lt-get_elem? s.remove_list i got))
            (ground arith) (ground (arith, count)))
        (finish_remove-Ends _ rs')

  module _ (next : Control z h → RemoveStruct → Run (Control z h)) (n : ℕ) (s : Control z h)
      (command answer : Text) (k : ℤ) (i : ℕ) (rms : RemoveStruct) (below : EndsBelow next n)
      (named : AllNamed s.remove_list) (got : get_elem? s.remove_list i ≡ some rms)
      (small : total s.remove_list ≤ n + 1)
      (here : (at : Message)
        → seek rms.now_command rms.commands ≡ ok at
        → matches command (int_to_str k) at ≡ ok true) where
    found-Ends :
        (found : Found)
        → find_command command (int_to_str k) 0 none s.remove_list ≡ ok found
        → Ends (elim found [
          | element j rs ↦ answered z h next s command (int_to_str k) code_ok answer (pos 0) j rs
          | none_after last ↦
              unanswered z h next
                (print z h s (codes "Error: Not found in remove_list\n"))
                code_ok
                (pos 0)
                last
        ])
    found-Ends (element j rs) e =
        let (m, place, got_m) = found_at command (int_to_str k) 0 j none s.remove_list rs e in
        let same : m ≡ j = omega (arith, place) in
        answered-Ends next n s command (int_to_str k) answer j rs below named
          (subst (λ a. get_elem? s.remove_list a ≡ some rs) same got_m) small
    found-Ends (none_after last) e =
        absurd (finds command (int_to_str k) 0 i none last s.remove_list rms got here e)

    rec_remove-Ends : Ends (rec_remove_with z h next s command k code_ok answer (pos 0))
    unfolding rec_remove_with
    rec_remove-Ends =
        bind-Ends (find_command command (int_to_str k) 0 none s.remove_list) _
          (find_command-Ends command (int_to_str k) 0 none s.remove_list) found-Ends

  push_all-Ends : (s : Control z h) (m : Message) → Ends (push_all z h s m)
  push_all-Ends s m =
      bind-Ends (lift (MqNode.push_all z s.mq m s.world)) _
        (lift-Ends (MqNode.push_all z s.mq m s.world)) (λ w e. λ e. cc)

  connect-list :
      (s s' : Control z h) (id : ℤ) (main ping : Option Text)
      → connect z h s id main ping ≡ ok s'
      → s'.remove_list ≡ s.remove_list
  connect-list s s' id main ping e =
      let (r, e₁, e₂) = bind_ok (lift (MqNode.connect z s.mq id main ping s.world)) _ e in
      ground arith

  connect-Ends :
      (s : Control z h) (id : ℤ) (main ping : Option Text) → Ends (connect z h s id main ping)
  connect-Ends s id main ping =
      bind-Ends (lift (MqNode.connect z s.mq id main ping s.world)) _
        (lift-Ends (MqNode.connect z s.mq id main ping s.world)) (λ w e. λ e. cc)

  close-list :
      (s s' : Control z h) (id : ℤ) → close z h s id ≡ ok s' → s'.remove_list ≡ s.remove_list
  close-list s s' id e =
      let (r, e₁, e₂) = bind_ok (lift (MqNode.close z s.mq id s.world)) _ e in ground arith

  close-Ends : (s : Control z h) (id : ℤ) → Ends (close z h s id)
  close-Ends s id =
      bind-Ends (lift (MqNode.close z s.mq id s.world)) _
        (lift-Ends (MqNode.close z s.mq id s.world)) (λ w e. λ e. cc)

  number_named :
      (o : Option Text) (k a : ℤ) → o ≡ some (int_to_str k) → IsInt k → number o ≡ ok a → a ≡ k
  number_named none k a e is f = cc
  number_named (some t) k a e is f =
      let same : str_to_int t ≡ str_to_int (int_to_str k) = cc in
      let read : str_to_int t ≡ a = cc in sym read ∙ same ∙ str_to_int-int_to_str k is

  some_text : (x y : Text) → some x ≡ some y → x ≡ y
  some_text x y e = cc

  lift_ok {ℓ} : {A : Type ℓ} (o : Option A) (a : A) → lift o ≡ ok a → o ≡ some a
  lift_ok none a e = cc
  lift_ok (some b) a e = cc

  module _ (env : Env) where
    -- The recursive call for a command that was carried out here.
    done-Ends :
        (next : Control z h → RemoveStruct → Run (Control z h)) (n : ℕ) (s s₂ : Control z h)
        (rms : RemoveStruct) (i : ℕ) (at : Message) (cmd : Text) (k : ℤ)
        → EndsBelow next n
        → AllNamed s.remove_list
        → get_elem? s.remove_list i ≡ some rms
        → total s.remove_list ≤ suc n
        → seek rms.now_command rms.commands ≡ ok at
        → cell at 0 ≡ some cmd
        → cell at 1 ≡ some (int_to_str k)
        → s₂.remove_list ≡ s.remove_list
        → (a : ℤ) → a ≡ k
        → Ends (rec_remove_with z h next s₂ cmd a code_ok (codes "OK") (pos 0))
    done-Ends next n s s₂ rms i at cmd k below named got small sought at_cmd at_id same a is_k =
        rec_remove-Ends next n s₂ cmd (codes "OK") a i rms below (subst AllNamed (sym same) named)
          (ap (λ l. get_elem? l i) same ∙ got)
          (let count : total s₂.remove_list ≡ total s.remove_list = ap total same in
            omega (arith, count))
          (λ at' sought'.
            let same_at : at ≡ at' = same_message at at' (sym sought ∙ sought') in
            matches_lem cmd (int_to_str a) at' (ap (λ m. cell m 0) (sym same_at) ∙ at_cmd)
              (ap (λ m. cell m 1) (sym same_at) ∙ at_id ∙ ap (λ b. some (int_to_str b)) (sym is_k)))

    named_ping :
        (o : Option Text) (k c : ℤ) (t : Text)
        → o ≡ some (int_to_str k)
        → IsInt k
        → lift o ≡ ok t
        → eq_ℤ c (strtol t) ≡ true
        → c ≡ k
    named_ping o k c t e is f same =
        let text : t ≡ int_to_str k = some_text t (int_to_str k) (sym (lift_ok o t f) ∙ e) in
        (eq_ℤ_iff c (strtol t)).0 same ∙ ap strtol text ∙ strtol-int_to_str k is

    -- Enough fuel.
    pub push_next_remove-Ends :
        (fuel : ℕ) (s : Control z h) (rms : RemoveStruct) (i : ℕ)
        → AllNamed s.remove_list
        → get_elem? s.remove_list i ≡ some rms
        → rms.now_command < rms.number_commands
        → total s.remove_list ≤ fuel
        → Ends (push_next_remove z h env fuel s rms)
    unfolding push_next_remove
    push_next_remove-Ends zero s rms i named got more small =
        absurd (omega (arith, total-get s.remove_list i rms got))
    push_next_remove-Ends (suc fuel) s rms i named got more small =
        let next = push_next_remove z h env fuel in
        let below : EndsBelow next fuel = push_next_remove-Ends fuel in
        bind-Ends (seek rms.now_command rms.commands) _ (seek-Ends rms.now_command rms.commands)
          (λ at sought.
            let (k, at_id, is) =
              AllNamed-get s.remove_list i rms named got rms.now_command at more sought in
            bind-Ends (lift (cell at 0)) _ (lift-Ends (cell at 0)) (λ cmd is_cmd.
              let at_cmd = lift_ok (cell at 0) cmd is_cmd in
              let done = λ (s₂ : Control z h).
                done-Ends next fuel s s₂ rms i at cmd k below named got small sought at_cmd at_id in
              if-Ends (str_eq cmd (codes "remove")) _ _ (λ e. push_all-Ends _ _)
                (if-Ends (str_eq cmd (codes "disconnect")) _ _
                  (λ e. bind-Ends (number (cell at 1)) _ (number-Ends (cell at 1)) (λ a got_a.
                    if-Ends (eq_ℤ s.mq.left_child_id a || eq_ℤ s.mq.right_child_id a) _ _
                      (λ e. bind-Ends _ _ (close-Ends _ a) (λ s₂ closed.
                        done s₂ (close-list _ s₂ a closed) a
                          (number_named (cell at 1) k a at_id is got_a)))
                      (push_all-Ends _ _)))
                  (if-Ends (str_eq cmd (codes "connect")) _ _
                    (λ e. bind-Ends (number (cell at 1)) _ (number-Ends (cell at 1)) (λ a got_a.
                      bind-Ends (lift (cell at 2)) _ (lift-Ends (cell at 2)) (λ parent_id e.
                        if-Ends (eq_ℤ (strtol parent_id) s.c_node.id) _ _
                          (λ e.
                            bind-Ends _ _ (connect-Ends _ a (cell at 3) (cell at 4))
                              (λ s₂ connected.
                                done s₂ (connect-list _ s₂ a (cell at 3) (cell at 4) connected) a
                                  (number_named (cell at 1) k a at_id is got_a)))
                          (push_all-Ends _ _))))
                    (if-Ends (str_eq cmd (codes "ping")) _ _
                      (λ e.
                        bind-Ends (lift (cell at 1)) _ (lift-Ends (cell at 1)) (λ ping_id got_id.
                          if-Ends (eq_ℤ s.c_node.id (strtol ping_id)) _ _
                            (λ own.
                              done _ refl s.c_node.id
                                (named_ping (cell at 1) k s.c_node.id ping_id at_id is got_id own))
                            (push_all-Ends _ _)))
                      (push_all-Ends _ _))))))
