-- ===== src/Lab6/RmList/Edit.antt =====
-- rm_list.c: insertion and removal at an iterator.
use mathlib.Core.Path.{subst}
use mai_os.Base.{
  ℕ, suc, ◌+◌, ◌==◌, ◌≡◌, ◌≢◌, refl, sym, ap, ◌∙◌, true, false, none, some, [], ◌∷◌, ◌++◌, pos,
  pred_ℤ, suc_ℤ, is_pos, length, length-append, append-nil, arith,
}
use mai_os.Lab6.RmList.{Memory, RmList, ListIter, list_iter_insert_before, list_iter_remove}
use mai_os.Lab6.RmList.Ring.{
  Nodes, head_addr, last_addr, Fresh, Ring, last_addr-append, Fresh-split, Fresh-join,
}
use mai_os.Lab6.RmList.Relink.{Cycle}
use mai_os.Lab6.RmList.Change.{at_start, inserted, removed, insert-Ring, remove_more}
use mai_os.Lab6.RmList.Holds.{
  Holds, IsAt, from_current, from_barrier, iter_eta, not_barrier, not_first, first_not_barrier,
}

module _ {ℓ} {A : Type ℓ} where
  -- The address that `first` gets when a node is put between two parts of the list.
  first_inserted :
      (m : Memory A) (l : RmList) (j v : A) (before behind : Nodes A) (a : ℕ)
      → Cycle m ((l.barrier, j) ∷ (before ++ behind))
      → l.first ≡ head_addr (before ++ behind) l.barrier
      → (inserted l (head_addr behind l.barrier) a).first
        ≡ head_addr (before ++ ((a, v) ∷ behind)) l.barrier
  first_inserted m l j v [] behind a ring first =
      let same : (head_addr behind l.barrier == l.first) ≡ true = ground (arith, first) in
      rw same refl
  first_inserted m l j v (x ∷ before) [] a ring first =
      let ne = first_not_barrier m (l.barrier, j) x (before ++ []) ring in
      let differs : (l.barrier == l.first) ≡ false = ground (arith, first, ne) in rw differs first
  first_inserted m l j v (x ∷ before) (k ∷ behind) a ring first =
      let ne = not_first m (l.barrier, j) x k before behind ring in
      let differs : (k.0 == l.first) ≡ false = ground (arith, first, ne) in rw differs first

  insert_at :
      (m : Memory A) (l : RmList) (c b : ℕ × A) (r before behind : Nodes A) (a : ℕ) (v : A)
      → b.0 ≡ l.barrier
      → Ring m c r
      → (c ∷ r) ≡ (behind ++ (b ∷ before))
      → l.size ≡ pos (length r)
      → Fresh a (c ∷ r)
      → a ≢ 0
      → (m' : Memory A) × (list_iter_insert_before m l (at_start c r) a v
          ≡ some (m', inserted l c.0 a, record { prev = a; cur = c.0 }))
        × Cycle m' (b ∷ (before ++ ((a, v) ∷ behind)))
  insert_at m l c b r before behind a v is_b ring same size fresh nz =
      let (m', done, ring') = insert-Ring m l c r a v ring size fresh nz in
      (
        m',
        done,
        from_barrier m' b before ((a, v) ∷ behind)
            (subst (λ ns. Cycle m' ((a, v) ∷ ns)) same ring'),
      )

  abbrev pub Inserted : Memory A → RmList → ListIter → A → Nodes A → Nodes A → ℕ → A → Type ℓ
  Inserted m l it j before behind a v =
      let cur = head_addr behind l.barrier in
      (m' : Memory A) × (list_iter_insert_before m l it a v
        ≡ some (m', inserted l cur a, record { prev = a; cur = cur }))
      × Cycle m' ((l.barrier, j) ∷ (before ++ ((a, v) ∷ behind)))

  insert_between :
      (m : Memory A) (l : RmList) (it : ListIter) (j : A) (before behind : Nodes A) (a : ℕ) (v : A)
      → Cycle m ((l.barrier, j) ∷ (before ++ behind))
      → l.size ≡ pos (length (before ++ behind))
      → IsAt l it before behind
      → Fresh a (before ++ behind)
      → l.barrier ≢ a
      → a ≢ 0
      → Inserted m l it j before behind a v
  unfolding Fresh
  insert_between m l it j before [] a v ring size (p, c) fresh nb nz =
      let b : ℕ × A = (l.barrier, j) in
      let old = subst (λ ns. Fresh a ns) (append-nil before) fresh in
      let (m', done, ring') =
        insert_at m l b b before before [] a v refl (from_current m b before [] ring) refl
          (size ∙ ap (λ ns. pos (length ns)) (append-nil before)) (nb, old) nz in
      (m', rw (iter_eta it (last_addr l.barrier before) l.barrier p c) done, ring')
  insert_between m l it j before (k ∷ behind) a v ring size (p, c) fresh nb nz =
      let b : ℕ × A = (l.barrier, j) in
      let r = behind ++ (b ∷ before) in
      let (f, (fk, g)) = Fresh-split a before (k ∷ behind) fresh in
      let count : length (before ++ (k ∷ behind)) ≡ length r =
        omega (arith, length-append before (k ∷ behind), length-append behind (b ∷ before)) in
      let (m', done, ring') =
        insert_at m l k b r before (k ∷ behind) a v refl (from_current m b before (k ∷ behind) ring)
          refl (size ∙ ap pos count) (fk, Fresh-join a behind (b ∷ before) g (nb, f)) nz in
      let prev = p ∙ sym (last_addr-append k.0 behind (b ∷ before)) in
      (m', rw (iter_eta it (last_addr k.0 r) k.0 prev c) done, ring')

  -- List_iter_insert_before with the iterator between two parts of a list in memory, and malloc
  -- giving an address that is not NULL and at which neither a node of the list nor the barrier
  -- is, leaves in memory the list with the new node between the two parts, and the iterator
  -- behind the new node.
  pub insert-Holds :
      (m : Memory A) (l : RmList) (it : ListIter) (before behind : Nodes A) (a : ℕ) (v : A)
      → Holds m l (before ++ behind)
      → IsAt l it before behind
      → Fresh a (before ++ behind)
      → l.barrier ≢ a
      → a ≢ 0
      → (m' : Memory A) × (l' : RmList) × (it' : ListIter) × (list_iter_insert_before m l it a v
          ≡ some (m', l', it'))
        × Holds m' l' (before ++ ((a, v) ∷ behind))
        × IsAt l' it' (before ++ ((a, v) ∷ [])) behind
  insert-Holds m l it before behind a v (j, ring, first, size) at fresh nb nz =
      let cur = head_addr behind l.barrier in
      let (m', done, ring') = insert_between m l it j before behind a v ring size at fresh nb nz in
      let count : length (before ++ ((a, v) ∷ behind)) ≡ length (before ++ behind) + 1 =
        omega (arith, length-append before ((a, v) ∷ behind), length-append before behind) in
      (
        m',
        inserted l cur a,
        record { prev = a; cur = cur },
        done,
        (
          j,
          ring',
          first_inserted m l j v before behind a ring first,
          ap suc_ℤ size ∙ ap pos (sym count),
        ),
        (sym (last_addr-append l.barrier before ((a, v) ∷ [])), refl),
      )

  first_removed :
      (m : Memory A) (l : RmList) (j : A) (k : ℕ × A) (before behind : Nodes A)
      → Cycle m ((l.barrier, j) ∷ (before ++ (k ∷ behind)))
      → l.first ≡ head_addr (before ++ (k ∷ behind)) l.barrier
      → (removed l k.0 (head_addr behind l.barrier)).first ≡ head_addr (before ++ behind) l.barrier
  first_removed m l j k [] behind ring first =
      let same : (l.first == k.0) ≡ true = ground (arith, first) in rw same refl
  first_removed m l j k (x ∷ before) behind ring first =
      let ne = not_first m (l.barrier, j) x k before behind ring in
      let differs : (l.first == k.0) ≡ false = ground (arith, first, ne) in rw differs first

  abbrev pub Removed : Memory A → RmList → ListIter → A → ℕ × A → Nodes A → Nodes A → Type ℓ
  Removed m l it j k before behind =
      let cur = head_addr behind l.barrier in
      (m' : Memory A) × (list_iter_remove m l it
        ≡ some (m', removed l k.0 cur, record { prev = last_addr l.barrier before; cur = cur }))
      × Cycle m' (behind ++ ((l.barrier, j) ∷ before))
      × (m' k.0 ≡ none)
      × ((x : ℕ) → Fresh x ((k ∷ behind) ++ ((l.barrier, j) ∷ before)) → m' x ≡ m x)

  remove_between :
      (m : Memory A) (l : RmList) (it : ListIter) (j : A) (k : ℕ × A) (before behind : Nodes A)
      → Cycle m ((l.barrier, j) ∷ (before ++ (k ∷ behind)))
      → is_pos l.size ≡ true
      → IsAt l it before (k ∷ behind)
      → Removed m l it j k before behind
  remove_between m l it j k before [] ring size (p, c) =
      let b : ℕ × A = (l.barrier, j) in
      let ne = not_barrier m b k before [] ring in
      let (m', done, ring', gone, rest) =
        remove_more m l k b before (from_current m b before (k ∷ []) ring) size (ground arith) in
      (m', rw (iter_eta it (last_addr l.barrier before) k.0 p c) done, ring', gone, rest)
  remove_between m l it j k before (y ∷ behind) ring size (p, c) =
      let b : ℕ × A = (l.barrier, j) in
      let ne = not_barrier m b k before (y ∷ behind) ring in
      let (m', done, ring', gone, rest) =
        remove_more m l k y (behind ++ (b ∷ before))
          (from_current m b before (k ∷ (y ∷ behind)) ring) size (ground arith) in
      let prev = p ∙ sym (last_addr-append y.0 behind (b ∷ before)) in
      (
        m',
        rw (iter_eta it (last_addr y.0 (behind ++ (b ∷ before))) k.0 prev c)
            (done ∙ rw (last_addr-append y.0 behind (b ∷ before)) refl),
        ring',
        gone,
        rest,
      )

  -- List_iter_remove with the iterator at a node of a list in memory leaves in memory the list
  -- without that node, the iterator between the two parts, the address of the node freed, the
  -- memory outside the list as it was, and the barrier where it was.
  pub remove-Holds :
      (m : Memory A) (l : RmList) (it : ListIter) (before behind : Nodes A) (k : ℕ × A)
      → Holds m l (before ++ (k ∷ behind))
      → IsAt l it before (k ∷ behind)
      → (m' : Memory A) × (l' : RmList) × (it' : ListIter) × (list_iter_remove m l it
          ≡ some (m', l', it'))
        × Holds m' l' (before ++ behind)
        × IsAt l' it' before behind
        × (m' k.0 ≡ none)
        × ((x : ℕ) → x ≢ l.barrier → Fresh x (before ++ (k ∷ behind)) → m' x ≡ m x)
        × (l'.barrier ≡ l.barrier)
  unfolding Fresh
  remove-Holds m l it before behind k (j, ring, first, size) at =
      let cur = head_addr behind l.barrier in
      let count : length (before ++ (k ∷ behind)) ≡ suc (length (before ++ behind)) =
        omega (arith, length-append before (k ∷ behind), length-append before behind) in
      let size' : l.size ≡ pos (suc (length (before ++ behind))) = size ∙ ap pos count in
      let (m', done, ring', gone, rest) =
        remove_between m l it j k before behind ring (rw size' (ground arith)) at in
      (
        m',
        removed l k.0 cur,
        record { prev = last_addr l.barrier before; cur = cur },
        done,
        (
          j,
          from_barrier m' (l.barrier, j) before behind ring',
          first_removed m l j k before behind ring first,
          ap pred_ℤ size' ∙ ground arith,
        ),
        (refl, refl),
        gone,
        λ x nb fresh.
            let (f, (fk, g)) = Fresh-split x before (k ∷ behind) fresh in
            rest x (fk, Fresh-join x behind ((l.barrier, j) ∷ before) g ((λ e. nb (sym e)), f)),
        refl,
      )
