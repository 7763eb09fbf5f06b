-- ===== src/Lab6/RmList/Relink.antt =====
-- What happens to linked nodes when the first or the last of them is linked anew, and the node at
-- which a ring is taken to start.
use mai_os.Base.{
  ℕ, ◌==◌, ◌≡◌, ◌≢◌, refl, sym, ap, ◌∙◌, true, false, some, [], ◌∷◌, ◌++◌, append_assoc, append-nil,
  arith,
}
use mai_os.Base.Xor.{bit_xor_comm, bit_xor_cancel}
use mai_os.Lab6.RmList.{Listel, Memory, write, listel_xor}
use mai_os.Lab6.RmList.Ring.{
  Nodes, head_addr, last_addr, Linked, Fresh, Distinct, Ring, last_addr-append, Linked-split,
  Linked-join, Distinct-snoc, Linked-write,
}

module _ {ℓ} {A : Type ℓ} where
  pub write_self : (m : Memory A) (a : ℕ) (c : Listel A) → write m a c a ≡ some c
  write_self m a c = let same : (a == a) ≡ true = ground arith in rw same

  pub write_other : (m : Memory A) (a b : ℕ) (c : Listel A) → b ≢ a → write m a c b ≡ m b
  write_other m a b c ne = let other : (b == a) ≡ false = ground arith in rw other

  pub Fresh-last : (a : ℕ) (n : ℕ × A) (ns : Nodes A) → Fresh a (n ∷ ns) → last_addr n.0 ns ≢ a
  unfolding Fresh
  Fresh-last a n [] (ne, f) = ne
  Fresh-last a n (k ∷ ks) (ne, f) = Fresh-last a k ks f

  -- The last node is linked to another address behind it.
  pub Linked-end :
      (m : Memory A) (p q q' : ℕ) (n : ℕ × A) (ns : Nodes A)
      → Linked m p (n ∷ ns) q
      → Distinct (n ∷ ns)
      → (c : Listel A) × (m (last_addr n.0 ns) ≡ some c)
        × Linked
            (write m (last_addr n.0 ns) (record c { pn = listel_xor (listel_xor q c.pn) q' }))
            p
            (n ∷ ns)
            q'
  unfolding Linked Distinct
  Linked-end m p q q' n [] (e, h) d =
      let c : Listel A = record { val = n.1; pn = listel_xor p q } in
      let back : listel_xor q (listel_xor p q) ≡ p =
        ap (λ x. listel_xor q x) (bit_xor_comm p q) ∙ bit_xor_cancel q p in
      (
        c,
        e,
        (
          rw (write_self m n.0 (record c { pn = listel_xor (listel_xor q c.pn) q' }), back) refl,
          tt,
        ),
      )
  Linked-end m p q q' n (k ∷ ks) (e, h) (f, d) =
      let (c, at, linked) = Linked-end m n.0 q q' k ks h d in
      (
        c,
        at,
        (
          write_other m (last_addr k.0 ks) n.0 (record c { pn = listel_xor (listel_xor q c.pn) q' })
                (λ same. Fresh-last n.0 k ks f (sym same))
              ∙ e,
          linked,
        ),
      )

  -- The first node is linked to another address before it.
  pub Linked-start :
      (m : Memory A) (p p' q pn : ℕ) (n : ℕ × A) (ns : Nodes A)
      → Linked m p (n ∷ ns) q
      → Distinct (n ∷ ns)
      → pn ≡ listel_xor p' (head_addr ns q)
      → Linked (write m n.0 (record { val = n.1; pn = pn })) p' (n ∷ ns) q
  unfolding Linked Distinct
  Linked-start m p p' q pn n ns (e, h) (f, d) new =
      let c : Listel A = record { val = n.1; pn = pn } in
      (write_self m n.0 c ∙ rw new refl, Linked-write m n.0 q n.0 c ns f h)

  pub first_cell :
      (m : Memory A) (p q : ℕ) (n : ℕ × A) (ns : Nodes A)
      → Linked m p (n ∷ ns) q
      → m n.0 ≡ some (record { val = n.1; pn = listel_xor p (head_addr ns q) })
  unfolding Linked
  first_cell m p q n ns h = h.0

  -- a ring as a list, from any of its nodes on
  abbrev pub Cycle : Memory A → Nodes A → Type ℓ
  Cycle m [] = Unit
  Cycle m (n ∷ ns) = Ring m n ns

  Distinct-rotate : (xs ys : Nodes A) → Distinct (xs ++ ys) → Distinct (ys ++ xs)
  unfolding Distinct
  Distinct-rotate [] ys d = rw (append-nil ys) d
  Distinct-rotate (x ∷ xs) ys (f, d) =
      let moved : Distinct (xs ++ (ys ++ (x ∷ []))) =
        rw (sym (append_assoc xs ys (x ∷ []))) (Distinct-snoc x (xs ++ ys) d f) in
      rw (sym (append_assoc ys (x ∷ []) xs)) (Distinct-rotate xs (ys ++ (x ∷ [])) moved)

  pub Cycle-rotate : (m : Memory A) (xs ys : Nodes A) → Cycle m (xs ++ ys) → Cycle m (ys ++ xs)
  unfolding Ring
  Cycle-rotate m [] ys c = rw (append-nil ys) c
  Cycle-rotate m (n ∷ xs) [] c = rw (sym (append-nil xs)) c
  Cycle-rotate m (n ∷ xs) (k ∷ ys) (h, d) =
      let (a, b) = Linked-split m (last_addr n.0 (xs ++ (k ∷ ys))) n.0 (n ∷ xs) (k ∷ ys) h in
      (
        Linked-join m (last_addr k.0 (ys ++ (n ∷ xs))) k.0 (k ∷ ys) (n ∷ xs)
            (rw (last_addr-append k.0 ys (n ∷ xs)) b)
            (rw (sym (last_addr-append n.0 xs (k ∷ ys))) a),
        Distinct-rotate (n ∷ xs) (k ∷ ys) d,
      )
