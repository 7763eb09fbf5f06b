-- ===== src/Lab6/ControlNode/Requests.antt =====
-- lab6/control_node.c: how many answers a request waits for, and that it is settled once.
use mai_os.Base.{
  ℕ, zero, suc, ◌+◌, ◌-◌, ◌*◌, ◌/◌, ◌^◌, ◌<◌, ◌≡◌, ap, sym, ◌∙◌, true, Option, none, some, arith,
  leb, if◌then◌else◌, ℤ, pos, pred_ℤ, to_int, to_int_lem,
}
use mai_os.Base.Text.{Text, str_eq_refl}
use mai_os.Base.Decimal.{str_to_int}
use mai_os.Lab6.Zmq.{Zmq}
use mai_os.Lab6.HashMap.{HashMap, Laws, stored}
use mai_os.Lab6.BTree
use mai_os.Lab6.BTree.{BTree}
use mai_os.Lab6.MqNode.{Message}
use mai_os.Lab6.Protocol.{code_ok, cell}
use mai_os.Lab6.Run.{ok, lift, bind_ok}
use mai_os.Lab6.ControlNode.{Control, Env, answer_count_push}
use mai_os.Lab6.ControlNode.Chain.{number}
use mai_os.Lab6.ControlNode.Receive.{is_final, take_answer, receive_process}

-- the nodes before an index that have no left son, so no son at all
abbrev pub leaves : BTree → ℕ → ℕ
leaves t zero = 0
leaves t (suc i) = leaves t i + (if leb t.size (2 * i + 1) then 1 else 0)

leaves_lem : (t : BTree) (k : ℕ) → leaves t k ≡ k - t.size / 2
leaves_lem t zero = omega arith
leaves_lem t (suc k) = ground (arith, leaves_lem t k)

module _ (z : Zmq) (h : HashMap) (laws : Laws h) where
  -- Where hashmap_put stores the count of a request, the request is recorded to wait for as many
  -- answers as the tree has nodes without a left son, for trees of fewer than 2 ^ 31 nodes and
  -- under the laws of the hash map.
  pub answer_count_push-leaves :
      (s : Control z h) (uuid : Text)
      → s.tree.size < 2 ^ 31
      → (h.put s.answer_count_map uuid (to_int (pos (BTree.add_size s.tree.size 1 / 2)))).0 ≡ stored
      → h.get (answer_count_push z h s uuid).answer_count_map uuid
        ≡ some (pos (leaves s.tree s.tree.size))
  unfolding answer_count_push
  answer_count_push-leaves s uuid small stores =
      let n = s.tree.size in
      let val = to_int (pos (BTree.add_size n 1 / 2)) in
      let half : BTree.add_size n 1 / 2 ≡ leaves s.tree n = omega (arith, leaves_lem s.tree n) in
      let int : val ≡ pos (leaves s.tree n) =
        to_int_lem (pos (BTree.add_size n 1 / 2)) (omega arith) ∙ ap pos half in
      let m = (h.put s.answer_count_map uuid val).1 in
      let put : h.put s.answer_count_map uuid val ≡ (stored, m) = ap (λ r. (r, m)) stores in
      laws.put-stored s.answer_count_map m uuid uuid val put ∙ rw (str_eq_refl uuid, int)

  number_lem :
      (o : Option Text) (c : Text) (a : ℤ) → o ≡ some c → number o ≡ ok a → str_to_int c ≡ a
  number_lem none c a e f = cc
  number_lem (some t) c a e f = cc

  take_answer-settled :
      (env : Env) (fuel : ℕ) (s s' : Control z h) (m : Message) (uuid c : Text) (v : ℤ)
      → cell m 3 ≡ some c
      → str_to_int c ≡ code_ok
      → take_answer z h env fuel s uuid v m ≡ ok s'
      → h.get s'.answer_count_map uuid ≡ none
  unfolding take_answer
  take_answer-settled env fuel s s' m uuid c v at code e =
      let (id, e₁, r₁) = bind_ok (number (cell m 2)) _ e in
      let (k, e₂, r₂) = bind_ok (number (cell m 3)) _ r₁ in
      let (command, e₃, r₃) = bind_ok (lift (cell m 1)) _ r₂ in
      let (answer, e₄, r₄) = bind_ok (lift (cell m 4)) _ r₃ in
      let (s₂, e₅, r₅) =
        bind_ok _
          (λ (s₂ : Control z h). ok (
            if is_final k (pred_ℤ v)
            then record s₂ { answer_count_map = h.remove s₂.answer_count_map uuid }
            else s₂))
          r₄ in
      let code' : k ≡ code_ok = sym (number_lem (cell m 3) c k at e₂) ∙ code in
      let final : is_final k (pred_ℤ v) ≡ true = rw code' in
      let same : record s₂ { answer_count_map = h.remove s₂.answer_count_map uuid } ≡ s' =
        ground (arith, final) in
      ap (λ (x : Control z h). h.get x.answer_count_map uuid) (sym same)
      ∙ laws.get-remove s₂.answer_count_map uuid uuid
      ∙ rw (str_eq_refl uuid)

  -- Once an answer with code 1 to a waiting request was taken without a fault, any further
  -- message with the identifier of the request changes nothing, under the laws of the hash map.
  pub receive_process-once :
      (env : Env) (fuel : ℕ) (s s' : Control z h) (m m' : Message) (uuid c : Text) (v : ℤ)
      → cell m 0 ≡ some uuid
      → cell m 3 ≡ some c
      → str_to_int c ≡ code_ok
      → h.get s.answer_count_map uuid ≡ some v
      → receive_process z h env fuel s m ≡ ok s'
      → cell m' 0 ≡ some uuid
      → receive_process z h env fuel s' m' ≡ ok s'
  unfolding receive_process
  receive_process-once env fuel s s' m m' uuid c v at at' code got e at'' =
      let taken : take_answer z h env fuel s uuid v m ≡ ok s' = ground (arith, got, at) in
      rw (at'', take_answer-settled env fuel s s' m uuid c v at' code taken)
