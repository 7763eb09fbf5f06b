-- ===== src/Lab6/ComputeNode/Exec.antt =====
-- The `exec` command of compute_node.c: the values that a process keeps by name.
use mathlib.Core.Path.{subst}
use mai_os.Base.{ℕ, ◌==◌, ◌≡◌, ◌≢◌, refl, sym, ap, ◌∙◌, false, Option, none, some, ℤ, IsInt, arith}
use mai_os.Base.Text.{Text, codes, str_eq_refl}
use mai_os.Base.Decimal.{int_to_str, str_to_int, str_to_int-int_to_str}
use mai_os.Lab6.Zmq.{Zmq}
use mai_os.Lab6.HashMap.{HashMap, Laws, PutResult, stored, exists}
use mai_os.Lab6.MqNode.{Message}
use mai_os.Lab6.Protocol.{code_ok, code_error_custom, cell}
use mai_os.Lab6.ComputeNode.{
  ComputeNode, running, after, reply_with, cmd_exec, exec_get, exec_set, put_answer,
}

module _ (z : Zmq) (h : HashMap) (laws : Laws h) where
  -- the strings of a message that this process is to carry out
  abbrev pub Names : ComputeNode z h → Message → Text → Type 0
  Names n m name = (cell m 2 ≡ some n.node_id) × (cell m 3 ≡ some name)

  exec_mine_set :
      (n : ComputeNode z h) (m : Message) (name : Text) (size : ℕ) (w : z.World)
      → Names n m name
      → (size == 4) ≡ false
      → cmd_exec z h n m size w ≡ exec_set z h n m n.node_id w
  unfolding cmd_exec
  exec_mine_set n m name size w (id, nm) s = rw (id, str_eq_refl n.node_id, s)

  exec_mine_get :
      (n : ComputeNode z h) (m : Message) (name : Text) (w : z.World)
      → Names n m name
      → cmd_exec z h n m 4 w ≡ exec_get z h n m n.node_id w
  unfolding cmd_exec
  exec_mine_get n m name w (id, nm) = rw (id, str_eq_refl n.node_id)

  exec_set_eq :
      (n : ComputeNode z h) (m : Message) (name value : Text) (r : PutResult) (m' : h.Map)
      (w : z.World)
      → cell m 3 ≡ some name
      → cell m 4 ≡ some value
      → h.put n.chi_map name (str_to_int value) ≡ (r, m')
      → exec_set z h n m n.node_id w
        ≡ after z h
            (record n { chi_map = m' })
            (reply_with z h
              (record n { chi_map = m' })
              (cell m 0)
              (cell m 1)
              (some n.node_id)
              (put_answer z h r).0
              (put_answer z h r).1
              w)
  unfolding exec_set
  exec_set_eq n m name value r m' w nm val put =
      rw (val, nm)
        (ap
          (λ (p : PutResult × h.Map).
            let n' : ComputeNode z h = record n { chi_map = p.1 } in
            after z h n' (
              reply_with z h n' (cell m 0) (cell m 1) (some n.node_id) (put_answer z h p.0).0
                (put_answer z h p.0).1 w))
          put)

  running_after :
      (n n' : ComputeNode z h) (o : Option z.World) (w : z.World)
      → after z h n o ≡ some (running n' w)
      → n ≡ n'
  running_after n n' none w e = cc
  running_after n n' (some w₁) w e = cc

  exec_set-stored :
      (n n' : ComputeNode z h) (m : Message) (name : Text) (v : ℤ) (w w' : z.World)
      → Names n m name
      → cell m 4 ≡ some (int_to_str v)
      → IsInt v
      → (h.put n.chi_map name v).0 ≡ stored
      → exec_set z h n m n.node_id w ≡ some (running n' w')
      → (n'.node_id ≡ n.node_id) × (h.get n'.chi_map name ≡ some v)
  exec_set-stored n n' m name v w w' (id, nm) value int stores e =
      let m' = (h.put n.chi_map name v).1 in
      let put : h.put n.chi_map name v ≡ (stored, m') = ap (λ r. (r, m')) stores in
      let got : h.get m' name ≡ some v =
        laws.put-stored n.chi_map m' name name v put ∙ rw (str_eq_refl name) in
      let put' : h.put n.chi_map name (str_to_int (int_to_str v)) ≡ (stored, m') =
        ap (λ k. h.put n.chi_map name k) (str_to_int-int_to_str v int) ∙ put in
      let same =
        running_after (record n { chi_map = m' }) n' _ w'
          (sym (exec_set_eq n m name (int_to_str v) stored m' w nm value put') ∙ e) in
      subst (λ k. (k.node_id ≡ n.node_id) × (h.get k.chi_map name ≡ some v)) same (refl, got)

  -- A process that is told to set a name to the decimal text of an int, whose hashmap_put stores
  -- the value, and that goes on, answers a later request for that name with code 1 and that
  -- text, under the laws of the hash map.
  pub exec_get-exec_set :
      (n n' : ComputeNode z h) (m m' : Message) (name : Text) (v : ℤ) (size : ℕ) (w w' w₁ : z.World)
      → Names n m name
      → cell m 4 ≡ some (int_to_str v)
      → size ≢ 4
      → IsInt v
      → (h.put n.chi_map name v).0 ≡ stored
      → cmd_exec z h n m size w ≡ some (running n' w')
      → Names n' m' name
      → cmd_exec z h n' m' 4 w₁
        ≡ after z h n'
            (reply_with z h n' (cell m' 0) (cell m' 1) (some n'.node_id) code_ok (int_to_str v) w₁)
  unfolding exec_get
  exec_get-exec_set n n' m m' name v size w w' w₁ names value ne int stores e names' =
      let mine = exec_mine_set n m name size w names (ground arith) in
      let (id, got) = exec_set-stored n n' m name v w w' names value int stores (sym mine ∙ e) in
      exec_mine_get n' m' name w₁ names' ∙ rw (names'.1, got)

  -- A process that is told to set a name that it has a value for keeps that value and answers
  -- "Already exists" with code 3, under the laws of the hash map.
  pub exec_set-exists :
      (n : ComputeNode z h) (m : Message) (name value : Text) (v : ℤ) (size : ℕ) (w : z.World)
      → Names n m name
      → cell m 4 ≡ some value
      → size ≢ 4
      → h.get n.chi_map name ≡ some v
      → cmd_exec z h n m size w
        ≡ after z h n (
            reply_with z h n
              (cell m 0)
              (cell m 1)
              (some n.node_id)
              code_error_custom
              (codes "Already exists")
              w)
  exec_set-exists n m name value v size w names val ne got =
      exec_mine_set n m name size w names (ground arith)
      ∙ exec_set_eq n m name value exists n.chi_map w names.1 val
          (laws.put-exists n.chi_map name (str_to_int value) v got)
