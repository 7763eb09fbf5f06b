-- ===== src/Lab6/RmList/Destroy.antt =====
-- rm_list.c: list_init and list_destroy.
use mai_os.Base.{
  ℕ, zero, suc, ◌<◌, ◌≡◌, ◌≢◌, refl, ◌∙◌, true, none, some, [], ◌∷◌, pos, length, arith,
}
use mai_os.Base.Xor.{bit_xor_self}
use mai_os.Lab6.RmList.{
  Listel, Memory, RmList, ListIter, write, list_init, list_iter_begin, destroy_from, list_destroy,
}
use mai_os.Lab6.RmList.Ring.{Nodes, Linked, Fresh, Distinct, Ring}
use mai_os.Lab6.RmList.Relink.{write_self}
use mai_os.Lab6.RmList.Holds.{Holds, IsAt, Cycle-Distinct, first_not_barrier}
use mai_os.Lab6.RmList.Iterate.{at_end, iterate_step}
use mai_os.Lab6.RmList.Edit.{remove-Holds}

module _ {ℓ} {A : Type ℓ} where
  pub list_init-Holds :
      (m : Memory A) (barrier : ℕ) (c : Listel A)
      → m barrier ≡ some c
      → (m' : Memory A) × (l : RmList) × (list_init m barrier ≡ some (m', l)) × Holds m' l []
  unfolding list_init Ring Linked Distinct Fresh
  list_init-Holds m barrier c at =
      let c' : Listel A = record c { pn = 0 } in
      (
        write m barrier c',
        record { barrier = barrier; first = barrier; size = pos 0 },
        rw at refl,
        (
          c.val,
          ((write_self m barrier c' ∙ rw (bit_xor_self barrier) refl, tt), (tt, tt)),
          refl,
          refl,
        ),
      )

  -- No node of the list is in memory.
  unfoldable pub Freed : Memory A → Nodes A → Type ℓ
  Freed m [] = Unit
  Freed m (n ∷ ns) = (m n.0 ≡ none) × Freed m ns

  destroy_all :
      (m : Memory A) (l : RmList) (it : ListIter) (ns : Nodes A) (rounds : ℕ)
      → Holds m l ns
      → IsAt l it [] ns
      → length ns < rounds
      → (m' : Memory A) × (l' : RmList) × (destroy_from rounds m l it ≡ some (true, m', l'))
        × Holds m' l' []
        × Freed m' ns
        × ((x : ℕ) → x ≢ l.barrier → Fresh x ns → m' x ≡ m x)
  unfolding destroy_from Freed Fresh Distinct
  destroy_all m l it ns zero holds at enough = elim enough [ ]
  destroy_all m l it [] (suc rounds) holds at enough =
      let (e, is_end, same) = at_end m l it [] holds at in
      (m, l, rw (is_end, same) refl, holds, tt, λ x nb fresh. refl)
  destroy_all m l it (k ∷ ns) (suc rounds) holds at enough =
      let (e, it₁, is_end, differs, got, moved, at₁) = iterate_step m l it [] ns k holds at in
      let (m₂, l₂, it₂, done, holds₂, at₂, gone, frame, same) =
        remove-Holds m l it [] ns k holds at in
      let (m', l', rest, holds', freed, kept) =
        destroy_all m₂ l₂ it₂ ns rounds holds₂ at₂ (omega arith) in
      let (f, d) = Cycle-Distinct m (l.barrier, holds.0) (k ∷ ns) holds.1 in
      let nb = first_not_barrier m (l.barrier, holds.0) k ns holds.1 in
      (
        m',
        l',
        rw (is_end, differs, done) rest,
        holds',
        (kept k.0 (λ e. nb (e ∙ same)) d.0 ∙ gone, freed),
        λ x ne fresh. kept x (λ e. ne (e ∙ same)) fresh.1 ∙ frame x ne fresh,
      )

  -- List_destroy of a list in memory ends, given more rounds than the list has nodes, with an
  -- empty list, every node freed, and the memory outside the list as it was.
  pub list_destroy-Freed :
      (m : Memory A) (l : RmList) (ns : Nodes A) (rounds : ℕ)
      → Holds m l ns
      → length ns < rounds
      → (m' : Memory A) × (l' : RmList) × (list_destroy rounds m l ≡ some (true, m', l'))
        × Holds m' l' []
        × Freed m' ns
        × ((x : ℕ) → x ≢ l.barrier → Fresh x ns → m' x ≡ m x)
  unfolding list_destroy list_iter_begin
  list_destroy-Freed m l ns rounds holds enough =
      destroy_all m l (list_iter_begin l) ns rounds holds (refl, holds.2) enough
