-- ===== src/Lab6/RmList/Change.antt =====
-- What insertion and removal do to a ring that starts at the current node of the iterator and ends
-- at the previous one.
use mai_os.Base.{
  ℕ, ◌==◌, ◌≡◌, ◌≢◌, refl, sym, ap, ◌∙◌, true, false, none, some, [], ◌∷◌, if◌then◌else◌, arith,
  pos, is_pos, suc_ℤ, pred_ℤ, length,
}
use mai_os.Base.Xor.{bit_xor_comm, bit_xor_right, bit_xor_self}
use mai_os.Lab6.RmList.{
  Listel, Memory, RmList, ListIter, write, erase, listel_xor, get_next, list_iter_insert_before,
  list_iter_remove,
}
use mai_os.Lab6.RmList.Ring.{
  Nodes, head_addr, last_addr, Linked, Fresh, Distinct, Ring, Linked-write, Linked-erase,
}
use mai_os.Lab6.RmList.Relink.{
  Linked-end, Linked-start, first_cell, write_self, write_other, Fresh-last,
}

-- the list after an insertion before a node, and after the removal of a node
abbrev pub inserted : RmList → ℕ → ℕ → RmList
inserted l cur new_el = record l {
  first = if cur == l.first then new_el else l.first;
  size = suc_ℤ l.size;
}

abbrev pub removed : RmList → ℕ → ℕ → RmList
removed l cur next = record l {
  first = if l.first == cur then next else l.first;
  size = pred_ℤ l.size;
}

pub other_side : (p k : ℕ) → listel_xor (listel_xor p k) p ≡ k
other_side p k = ap (λ x. listel_xor x p) (bit_xor_comm p k) ∙ bit_xor_right k p

module _ {ℓ} {A : Type ℓ} where
  -- the iterator at the start of a ring
  abbrev pub at_start : ℕ × A → Nodes A → ListIter
  at_start c r = record { prev = last_addr c.0 r; cur = c.0 }

  Fresh-head : (a : ℕ) (n : ℕ × A) (ns : Nodes A) → Fresh a (n ∷ ns) → n.0 ≢ a
  unfolding Fresh
  Fresh-head a n ns f = f.0

  Fresh-tail : (a : ℕ) (n : ℕ × A) (ns : Nodes A) → Fresh a (n ∷ ns) → Fresh a ns
  unfolding Fresh
  Fresh-tail a n ns f = f.1

  erase_other : (m : Memory A) (a b : ℕ) → b ≢ a → erase m a b ≡ m b
  erase_other m a b ne = let other : (b == a) ≡ false = ground arith in rw other refl

  ring_of : (a : ℕ) (v : A) (ns : Nodes A) → Fresh a ns → Distinct ns → Distinct ((a, v) ∷ ns)
  unfolding Distinct
  ring_of a v ns f d = (f, d)

  insert_one :
      (m : Memory A) (l : RmList) (c : ℕ × A) (a : ℕ) (v : A)
      → Ring m c []
      → is_pos l.size ≡ false
      → c.0 ≢ a
      → (a == 0) ≡ false
      → (m' : Memory A) × (list_iter_insert_before m l (at_start c []) a v
          ≡ some (m', inserted l c.0 a, record { prev = a; cur = c.0 }))
        × Ring m' (a, v) (c ∷ [])
  unfolding list_iter_insert_before get_next Ring Linked Distinct Fresh
  insert_one m l c a v ((e, u), d) size ne nz =
      let new : Listel A = record { val = v; pn = listel_xor c.0 c.0 } in
      let at : write m a new c.0 ≡ m c.0 = write_other m a c.0 new ne in
      let same : listel_xor c.0 c.0 ≡ listel_xor a a = bit_xor_self c.0 ∙ sym (bit_xor_self a) in
      (
        write m a new,
        rw (nz, at, e, size) refl,
        ((write_self m a new, (at ∙ rw (sym same) e, tt)), ((ne, tt), (tt, tt))),
      )

  insert_more :
      (m : Memory A) (l : RmList) (c k : ℕ × A) (ks : Nodes A) (a : ℕ) (v : A)
      → Ring m c (k ∷ ks)
      → is_pos l.size ≡ true
      → Fresh a (c ∷ (k ∷ ks))
      → (a == 0) ≡ false
      → (m' : Memory A) × (list_iter_insert_before m l (at_start c (k ∷ ks)) a v
          ≡ some (m', inserted l c.0 a, record { prev = a; cur = c.0 }))
        × Ring m' (a, v) (c ∷ (k ∷ ks))
  unfolding list_iter_insert_before get_next Ring Linked
  insert_more m l c k ks a v (h, d) size fresh nz =
      let p = last_addr k.0 ks in
      let new : Listel A = record { val = v; pn = listel_xor c.0 p } in
      let m₁ = write m a new in
      let h₁ : Linked m₁ p (c ∷ (k ∷ ks)) c.0 = Linked-write m p c.0 a new (c ∷ (k ∷ ks)) fresh h in
      let (last, at_last, h₂) = Linked-end m₁ p c.0 a c (k ∷ ks) h₁ d in
      let m₂ = write m₁ p (record last { pn = listel_xor (listel_xor c.0 last.pn) a }) in
      let m₃ = write m₂ c.0 (record { val = c.1; pn = listel_xor a k.0 }) in
      let h₃ : Linked m₃ a (c ∷ (k ∷ ks)) a =
        Linked-start m₂ p a a (listel_xor a k.0) c (k ∷ ks) h₂ d refl in
      let kept : m₃ a ≡ some new =
        write_other m₂ c.0 a _ (λ e. Fresh-head a c (k ∷ ks) fresh (sym e))
        ∙ write_other m₁ p a _ (λ e. Fresh-last a c (k ∷ ks) fresh (sym e))
        ∙ write_self m a new in
      (
        m₃,
        rw
            (
              nz,
              first_cell m₁ p c.0 c (k ∷ ks) h₁,
              size,
              other_side p k.0,
              at_last,
              first_cell m₂ p a c (k ∷ ks) h₂,
            )
            refl,
        ((kept ∙ rw (bit_xor_comm p c.0) refl, h₃), ring_of a v (c ∷ (k ∷ ks)) fresh d),
      )

  pub remove_more :
      (m : Memory A) (l : RmList) (c k : ℕ × A) (ks : Nodes A)
      → Ring m c (k ∷ ks)
      → is_pos l.size ≡ true
      → (c.0 == l.barrier) ≡ false
      → (m' : Memory A) × (list_iter_remove m l (at_start c (k ∷ ks))
          ≡ some (m', removed l c.0 k.0, record { prev = last_addr k.0 ks; cur = k.0 }))
        × Ring m' k ks
        × (m' c.0 ≡ none)
        × ((x : ℕ) → Fresh x (c ∷ (k ∷ ks)) → m' x ≡ m x)
  unfolding list_iter_remove get_next Ring Linked Distinct
  remove_more m l c k ks ((e, h), (f, d)) size not_barrier =
      let p = last_addr k.0 ks in
      let (last, at_last, h₁) = Linked-end m c.0 c.0 k.0 k ks h d in
      let m₁ = write m p (record last { pn = listel_xor (listel_xor c.0 last.pn) k.0 }) in
      let far = head_addr ks k.0 in
      let pn = listel_xor (listel_xor (listel_xor c.0 far) c.0) p in
      let m₂ = write m₁ k.0 (record { val = k.1; pn = pn }) in
      let new : pn ≡ listel_xor p far =
        ap (λ x. listel_xor x p) (other_side c.0 far) ∙ bit_xor_comm far p in
      let h₂ : Linked m₂ p (k ∷ ks) k.0 = Linked-start m₁ c.0 p k.0 pn k ks h₁ d new in
      let gone : erase m₂ c.0 c.0 ≡ none =
        let same : (c.0 == c.0) ≡ true = ground arith in rw same in
      (
        erase m₂ c.0,
        rw (not_barrier, e, size, other_side p k.0, at_last, first_cell m₁ c.0 k.0 k ks h₁) refl,
        (Linked-erase m₂ p k.0 c.0 (k ∷ ks) f h₂, d),
        gone,
        λ x fresh.
            erase_other m₂ c.0 x (λ e. Fresh-head x c (k ∷ ks) fresh (sym e))
            ∙ write_other m₁ k.0 x _
                (λ e. Fresh-head x k ks (Fresh-tail x c (k ∷ ks) fresh) (sym e))
            ∙ write_other m p x _ (λ e. Fresh-last x c (k ∷ ks) fresh (sym e)),
      )

  -- Both cases of an insertion, by the number of the other nodes.
  pub insert-Ring :
      (m : Memory A) (l : RmList) (c : ℕ × A) (r : Nodes A) (a : ℕ) (v : A)
      → Ring m c r
      → l.size ≡ pos (length r)
      → Fresh a (c ∷ r)
      → a ≢ 0
      → (m' : Memory A) × (list_iter_insert_before m l (at_start c r) a v
          ≡ some (m', inserted l c.0 a, record { prev = a; cur = c.0 }))
        × Ring m' (a, v) (c ∷ r)
  insert-Ring m l c [] a v h size fresh nz =
      insert_one m l c a v h (rw size (ground arith)) (Fresh-head a c [] fresh) (ground arith)
  insert-Ring m l c (k ∷ ks) a v h size fresh nz =
      insert_more m l c k ks a v h (rw size (ground arith)) fresh (ground arith)
