-- ===== src/Lab6/RmList/Holds.antt =====
-- What a list in memory holds, and where an iterator stands in it.
use mai_os.Base.{ℕ, ◌≡◌, ◌≢◌, refl, sym, ◌∷◌, ◌++◌, pos, length}
use mai_os.Lab6.RmList.{Memory, RmList, ListIter}
use mai_os.Lab6.RmList.Ring.{Nodes, head_addr, last_addr, Fresh, Distinct, Ring, Fresh-split}
use mai_os.Lab6.RmList.Relink.{Cycle, Cycle-rotate}

module _ {ℓ} {A : Type ℓ} where
  -- The nodes with their values, in order: with the barrier, whose value is nobody's, they are a
  -- ring, and the list knows the first of them and their number.
  abbrev pub Holds : Memory A → RmList → Nodes A → Type ℓ
  Holds m l ns =
      (j : A) × Cycle m ((l.barrier, j) ∷ ns)
      × (l.first ≡ head_addr ns l.barrier)
      × (l.size ≡ pos (length ns))

-- The iterator stands between two parts of the list.
abbrev pub IsAt {ℓ} : {A : Type ℓ} → RmList → ListIter → Nodes A → Nodes A → Type 0
IsAt l it before behind =
    (it.prev ≡ last_addr l.barrier before) × (it.cur ≡ head_addr behind l.barrier)

pub iter_eta :
    (it : ListIter) (p c : ℕ) → it.prev ≡ p → it.cur ≡ c → it ≡ record { prev = p; cur = c }
iter_eta it p c e f = rw (sym e, sym f) refl

module _ {ℓ} {A : Type ℓ} where
  -- the ring from the current node on, with the list at its end
  pub from_current :
      (m : Memory A) (b : ℕ × A) (before behind : Nodes A)
      → Cycle m (b ∷ (before ++ behind))
      → Cycle m (behind ++ (b ∷ before))
  from_current m b before behind c = Cycle-rotate m (b ∷ before) behind c

  pub from_barrier :
      (m : Memory A) (b : ℕ × A) (before behind : Nodes A)
      → Cycle m (behind ++ (b ∷ before))
      → Cycle m (b ∷ (before ++ behind))
  from_barrier m b before behind c = Cycle-rotate m behind (b ∷ before) c

  pub Cycle-Distinct :
      (m : Memory A) (n : ℕ × A) (ns : Nodes A) → Cycle m (n ∷ ns) → Distinct (n ∷ ns)
  unfolding Ring
  Cycle-Distinct m n ns c = c.1

  pub not_barrier :
      (m : Memory A) (b k : ℕ × A) (before behind : Nodes A)
      → Cycle m (b ∷ (before ++ (k ∷ behind)))
      → k.0 ≢ b.0
  unfolding Distinct Fresh
  not_barrier m b k before behind c =
      let d = Cycle-Distinct m b (before ++ (k ∷ behind)) c in
      (Fresh-split b.0 before (k ∷ behind) d.0).1.0

  pub not_first :
      (m : Memory A) (b x k : ℕ × A) (before behind : Nodes A)
      → Cycle m (b ∷ ((x ∷ before) ++ (k ∷ behind)))
      → k.0 ≢ x.0
  unfolding Distinct Fresh
  not_first m b x k before behind c =
      let d = Cycle-Distinct m b (x ∷ (before ++ (k ∷ behind))) c in
      (Fresh-split x.0 before (k ∷ behind) d.1.0).1.0

  pub first_not_barrier :
      (m : Memory A) (b x : ℕ × A) (ns : Nodes A) → Cycle m (b ∷ (x ∷ ns)) → x.0 ≢ b.0
  unfolding Distinct Fresh
  first_not_barrier m b x ns c = (Cycle-Distinct m b (x ∷ ns) c).0.0
