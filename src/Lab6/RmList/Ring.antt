-- ===== src/Lab6/RmList/Ring.antt =====
-- Nodes that are linked into a ring: what the addresses in memory say, at which node a ring may be
-- taken to start, and what happens to it when its two ends are linked anew.
use mai_os.Base.{ℕ, ◌==◌, ◌≡◌, ◌≢◌, refl, sym, false, some, List, [], ◌∷◌, ◌++◌, arith}
use mai_os.Lab6.RmList.{Listel, Memory, write, erase, listel_xor}

-- addresses with the values of their nodes
abbrev pub Nodes {ℓ} : Type ℓ → Type ℓ
Nodes A = List (ℕ × A)

module _ {ℓ} {A : Type ℓ} where
  abbrev pub head_addr : Nodes A → ℕ → ℕ
  head_addr [] q = q
  head_addr (n ∷ ns) q = n.0

  abbrev pub last_addr : ℕ → Nodes A → ℕ
  last_addr p [] = p
  last_addr p (n ∷ ns) = last_addr n.0 ns

  -- The nodes follow each other, behind `p` and before `q`.
  unfoldable pub Linked : Memory A → ℕ → Nodes A → ℕ → Type ℓ
  Linked m p [] q = Unit
  Linked m p (n ∷ ns) q =
      (m n.0 ≡ some (record { val = n.1; pn = listel_xor p (head_addr ns q) })) × Linked m n.0 ns q

  -- No node is at the address.
  unfoldable pub Fresh : ℕ → Nodes A → Type 0
  Fresh a [] = Unit
  Fresh a (n ∷ ns) = (n.0 ≢ a) × Fresh a ns

  unfoldable pub Distinct : Nodes A → Type 0
  Distinct [] = Unit
  Distinct (n ∷ ns) = Fresh n.0 ns × Distinct ns

  -- A ring that is written down from one of its nodes on.
  unfoldable pub Ring : Memory A → ℕ × A → Nodes A → Type ℓ
  Ring m n ns = Linked m (last_addr n.0 ns) (n ∷ ns) n.0 × Distinct (n ∷ ns)

  pub head_addr-append :
      (xs ys : Nodes A) (q : ℕ) → head_addr (xs ++ ys) q ≡ head_addr xs (head_addr ys q)
  head_addr-append [] ys q = refl
  head_addr-append (x ∷ xs) ys q = refl

  pub last_addr-append :
      (p : ℕ) (xs ys : Nodes A) → last_addr p (xs ++ ys) ≡ last_addr (last_addr p xs) ys
  last_addr-append p [] ys = refl
  last_addr-append p (x ∷ xs) ys = last_addr-append x.0 xs ys

  pub Linked-split :
      (m : Memory A) (p q : ℕ) (xs ys : Nodes A)
      → Linked m p (xs ++ ys) q
      → Linked m p xs (head_addr ys q) × Linked m (last_addr p xs) ys q
  unfolding Linked
  Linked-split m p q [] ys h = (tt, h)
  Linked-split m p q (x ∷ xs) ys (e, h) =
      let (a, b) = Linked-split m x.0 q xs ys h in ((rw (sym (head_addr-append xs ys q)) e, a), b)

  pub Linked-join :
      (m : Memory A) (p q : ℕ) (xs ys : Nodes A)
      → Linked m p xs (head_addr ys q)
      → Linked m (last_addr p xs) ys q
      → Linked m p (xs ++ ys) q
  unfolding Linked
  Linked-join m p q [] ys h k = k
  Linked-join m p q (x ∷ xs) ys (e, h) k =
      (rw (head_addr-append xs ys q) e, Linked-join m x.0 q xs ys h k)

  pub Fresh-split : (a : ℕ) (xs ys : Nodes A) → Fresh a (xs ++ ys) → Fresh a xs × Fresh a ys
  unfolding Fresh
  Fresh-split a [] ys h = (tt, h)
  Fresh-split a (x ∷ xs) ys (e, h) = let (u, v) = Fresh-split a xs ys h in ((e, u), v)

  pub Fresh-join : (a : ℕ) (xs ys : Nodes A) → Fresh a xs → Fresh a ys → Fresh a (xs ++ ys)
  unfolding Fresh
  Fresh-join a [] ys h k = k
  Fresh-join a (x ∷ xs) ys (e, h) k = (e, Fresh-join a xs ys h k)

  pub Distinct-snoc :
      (n : ℕ × A) (xs : Nodes A) → Distinct xs → Fresh n.0 xs → Distinct (xs ++ (n ∷ []))
  unfolding Distinct Fresh
  Distinct-snoc n [] d f = (tt, tt)
  Distinct-snoc n (x ∷ xs) (e, d) (ne, f) =
      (Fresh-join x.0 xs (n ∷ []) e ((λ h. ne (sym h)), tt), Distinct-snoc n xs d f)

  -- A write at an address that no node has.
  pub Linked-write :
      (m : Memory A) (p q a : ℕ) (c : Listel A) (xs : Nodes A)
      → Fresh a xs
      → Linked m p xs q
      → Linked (write m a c) p xs q
  unfolding Linked Fresh
  Linked-write m p q a c [] f h = tt
  Linked-write m p q a c (x ∷ xs) (ne, f) (e, h) =
      let other : (x.0 == a) ≡ false = ground arith in (rw other e, Linked-write m x.0 q a c xs f h)

  pub Linked-erase :
      (m : Memory A) (p q a : ℕ) (xs : Nodes A)
      → Fresh a xs
      → Linked m p xs q
      → Linked (erase m a) p xs q
  unfolding Linked Fresh
  Linked-erase m p q a [] f h = tt
  Linked-erase m p q a (x ∷ xs) (ne, f) (e, h) =
      let other : (x.0 == a) ≡ false = ground arith in (rw other e, Linked-erase m x.0 q a xs f h)
