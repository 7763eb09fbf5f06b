-- ===== src/Lab6/RmList/Iterate.antt =====
-- rm_list.c: an iterator walks through the values of the list in order.
use mai_os.Base.{
  ℕ, ◌==◌, ◌≡◌, zero, suc, ◌<◌, map, length-append, append-nil, append_assoc, refl, sym, ap, ◌∙◌,
  Bool, true, false, Option, none, some, ◌>>=◌, List, [], ◌∷◌, ◌++◌, pos, length, arith,
  if◌then◌else◌,
}
use mathlib.Core.Path.{subst}
use mai_os.Base.Xor.{bit_xor_right}
use mai_os.Lab6.RmList.{
  Listel, Memory, RmList, ListIter, write, listel_xor, get_next, list_iter_begin, list_iter_end,
  list_iter_equal, list_iter_move_next, list_iter_get, list_iter_set,
}
use mai_os.Lab6.RmList.Ring.{
  Nodes, head_addr, last_addr, Linked, Distinct, Ring, last_addr-append, head_addr-append,
  Linked-write,
}
use mai_os.Lab6.RmList.Relink.{Cycle, first_cell, write_self}
use mai_os.Lab6.RmList.Change.{other_side}
use mai_os.Lab6.RmList.Holds.{Holds, IsAt, from_current, from_barrier, not_barrier}

abbrev pub is_empty {ℓ} : {A : Type ℓ} → List A → Bool
is_empty [] = true
is_empty (x ∷ xs) = false

module _ {ℓ} {A : Type ℓ} where
  some_pn : (a c : Listel A) → (some a ≡ some c) → a.pn ≡ c.pn
  some_pn a c e = cc

  ring_cell :
      (m : Memory A) (c : ℕ × A) (r : Nodes A)
      → Cycle m (c ∷ r)
      → m c.0 ≡ some (record { val = c.1; pn = listel_xor (last_addr c.0 r) (head_addr r c.0) })
  unfolding Ring
  ring_cell m c r h = first_cell m (last_addr c.0 r) c.0 c r h.0

  -- the node at which the iterator stands
  current_cell :
      (m : Memory A) (b k : ℕ × A) (before behind : Nodes A)
      → Cycle m (b ∷ (before ++ (k ∷ behind)))
      → m k.0
        ≡ some (record { val = k.1; pn = listel_xor (last_addr b.0 before) (head_addr behind b.0) })
  current_cell m b k before behind c =
      let cell = ring_cell m k (behind ++ (b ∷ before)) (from_current m b before (k ∷ behind) c) in
      cell
      ∙ rw (last_addr-append k.0 behind (b ∷ before), head_addr-append behind (b ∷ before) k.0) refl

  pub list_iter_end-IsAt :
      (m : Memory A) (l : RmList) (ns : Nodes A)
      → Holds m l ns
      → (e : ListIter) × (list_iter_end m l ≡ some e) × IsAt l e ns []
  unfolding list_iter_end
  list_iter_end-IsAt m l ns (j, c, first, size) = (
    record { prev = last_addr l.barrier ns; cur = l.barrier },
    rw
        (
          ring_cell m (l.barrier, j) ns c,
          first,
          bit_xor_right (last_addr l.barrier ns) (head_addr ns l.barrier),
        )
        refl,
    (refl, refl),
  )

  pub at_end :
      (m : Memory A) (l : RmList) (it : ListIter) (ns : Nodes A)
      → Holds m l ns
      → IsAt l it ns []
      → (e : ListIter) × (list_iter_end m l ≡ some e) × (list_iter_equal it e ≡ true)
  unfolding list_iter_equal
  at_end m l it ns holds (p, c) =
      let (e, is_end, (q, d)) = list_iter_end-IsAt m l ns holds in
      let same_prev : (it.prev == e.prev) ≡ true = ground (arith, p, q) in
      let same_cur : (it.cur == e.cur) ≡ true = ground (arith, c, d) in
      (e, is_end, rw (same_prev, same_cur) refl)

  -- One round of the loop over a list, at a node.
  pub iterate_step :
      (m : Memory A) (l : RmList) (it : ListIter) (before behind : Nodes A) (k : ℕ × A)
      → Holds m l (before ++ (k ∷ behind))
      → IsAt l it before (k ∷ behind)
      → (e : ListIter) × (it' : ListIter) × (list_iter_end m l ≡ some e)
        × (list_iter_equal it e ≡ false)
        × (list_iter_get m it ≡ some k.1)
        × (list_iter_move_next m it ≡ some it')
        × IsAt l it' (before ++ (k ∷ [])) behind
  unfolding list_iter_equal list_iter_get list_iter_move_next get_next
  iterate_step m l it before behind k holds (p, c) =
      let (j, ring, first, size) = holds in
      let (e, is_end, (q, d)) = list_iter_end-IsAt m l (before ++ (k ∷ behind)) holds in
      let ne = not_barrier m (l.barrier, j) k before behind ring in
      let differs : (it.cur == e.cur) ≡ false = ground (arith, c, d) in
      let cell = current_cell m (l.barrier, j) k before behind ring in
      let prev = last_addr l.barrier before in
      let next = head_addr behind l.barrier in
      (
        e,
        record { prev = k.0; cur = next },
        is_end,
        ground (arith, differs),
        rw (c, cell) refl,
        rw (c, p, cell, other_side prev next) refl,
        (rw (last_addr-append l.barrier before (k ∷ [])) refl, refl),
      )

  -- the values that a loop over the list reads, as in rec_remove; `rounds` bounds the loop
  unfoldable pub read_all : ℕ → Memory A → RmList → ListIter → Option (List A)
  read_all zero m l it = none
  read_all (suc rounds) m l it = do
    e ← list_iter_end m l
    if list_iter_equal it e then some [] else (do
      v ← list_iter_get m it
      it' ← list_iter_move_next m it
      vs ← read_all rounds m l it'
      some (v ∷ vs))

  abbrev pub values : Nodes A → List A
  values ns = map (λ n. n.1) ns

  read_from :
      (m : Memory A) (l : RmList) (it : ListIter) (before behind : Nodes A) (rounds : ℕ)
      → Holds m l (before ++ behind)
      → IsAt l it before behind
      → length behind < rounds
      → read_all rounds m l it ≡ some (values behind)
  unfolding read_all
  read_from m l it before behind zero holds at enough = elim enough [ ]
  read_from m l it before [] (suc rounds) holds at enough =
      let (e, is_end, same) =
        at_end m l it before (subst (Holds m l) (append-nil before) holds) at in
      rw (is_end, same) refl
  read_from m l it before (k ∷ behind) (suc rounds) holds at enough =
      let (e, it', is_end, differs, got, moved, at') =
        iterate_step m l it before behind k holds at in
      let rest =
        read_from m l it' (before ++ (k ∷ [])) behind rounds
          (subst (Holds m l) (sym (append_assoc before (k ∷ []) behind)) holds) at' (omega arith) in
      rw (is_end, differs, got, moved, rest) refl

  -- A loop from list_iter_begin with list_iter_move_next until list_iter_equal holds with
  -- list_iter_end ends, and list_iter_get gives the values of the list in order, for a list in
  -- memory and more rounds than it has nodes.
  pub read_all_lem :
      (m : Memory A) (l : RmList) (ns : Nodes A) (rounds : ℕ)
      → Holds m l ns
      → length ns < rounds
      → read_all rounds m l (list_iter_begin l) ≡ some (values ns)
  unfolding list_iter_begin
  read_all_lem m l ns rounds holds enough =
      read_from m l (list_iter_begin l) [] ns rounds holds (refl, holds.2) enough

  Ring-set :
      (m : Memory A) (k : ℕ × A) (r : Nodes A) (v : A) (pn : ℕ)
      → Ring m k r
      → m k.0 ≡ some (record { val = k.1; pn = pn })
      → Ring (write m k.0 (record { val = v; pn = pn })) (k.0, v) r
  unfolding Ring Linked Distinct
  Ring-set m k r v pn ((e, h), (f, d)) cell =
      let same : pn ≡ listel_xor (last_addr k.0 r) (head_addr r k.0) = some_pn _ _ (sym cell ∙ e) in
      (
        (
          write_self m k.0 (record { val = v; pn = pn }) ∙ rw same refl,
          Linked-write m k.0 k.0 k.0 (record { val = v; pn = pn }) r f h,
        ),
        (f, d),
      )

  -- List_iter_set with the iterator at a node of a list in memory leaves in memory the list with
  -- the value of that node replaced, and the iterator stands where it stood.
  pub list_iter_set-Holds :
      (m : Memory A) (l : RmList) (it : ListIter) (before behind : Nodes A) (k : ℕ × A) (v : A)
      → Holds m l (before ++ (k ∷ behind))
      → IsAt l it before (k ∷ behind)
      → (m' : Memory A) × (list_iter_set m it v ≡ some m')
        × Holds m' l (before ++ ((k.0, v) ∷ behind))
        × IsAt l it before ((k.0, v) ∷ behind)
  unfolding list_iter_set
  list_iter_set-Holds m l it before behind k v (j, ring, first, size) (p, c) =
      let b : ℕ × A = (l.barrier, j) in
      let pn = listel_xor (last_addr l.barrier before) (head_addr behind l.barrier) in
      let cell = current_cell m b k before behind ring in
      let m' = write m k.0 (record { val = v; pn = pn }) in
      let turned =
        Ring-set m k (behind ++ (b ∷ before)) v pn (from_current m b before (k ∷ behind) ring)
          cell in
      (
        m',
        rw (c, cell) refl,
        (
          j,
          from_barrier m' b before ((k.0, v) ∷ behind) turned,
          first
              ∙ head_addr-append before (k ∷ behind) l.barrier
              ∙ sym (head_addr-append before ((k.0, v) ∷ behind) l.barrier),
          size
              ∙ ap pos (
                  length-append before (k ∷ behind)
                  ∙ sym (length-append before ((k.0, v) ∷ behind))),
        ),
        (p, c),
      )
