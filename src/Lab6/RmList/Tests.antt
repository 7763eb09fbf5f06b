-- ===== src/Lab6/RmList/Tests.antt =====
-- A list of two values in memory, and the operations on it.
use mai_os.Base.{ℕ, ◌≡◌, ◌≢◌, refl, none, some, [], ◌∷◌, pos, arith}
use mai_os.Lab6.RmList.{
  Memory, RmList, ListIter, list_iter_begin, list_iter_insert_before, list_iter_end,
  list_iter_remove, write,
}
use mai_os.Lab6.RmList.Ring.{Nodes, Linked, Fresh, Distinct, Ring}
use mai_os.Lab6.RmList.Holds.{Holds, IsAt}
use mai_os.Lab6.RmList.Iterate.{read_all, read_all_lem}
use mai_os.Lab6.RmList.Edit.{insert-Holds, remove-Holds}

-- The barrier is at 64 and the nodes at 96 and 160: 64 xor 160 is 224, and 64 xor 96 is 32.
abbrev two_nodes : Memory ℕ
two_nodes =
    write
      (write (write (λ a. none) 64 (record { val = 0; pn = 192 })) 96
        (record { val = 10; pn = 224 }))
      160 (record { val = 20; pn = 32 })

abbrev two : RmList
two = record { barrier = 64; first = 96; size = pos 2 }

abbrev ns : Nodes ℕ
ns = (96, 10) ∷ ((160, 20) ∷ [])

two-Holds : Holds two_nodes two ns
unfolding Ring Linked Distinct Fresh
two-Holds = (
  0,
  (
    (refl, (refl, (refl, tt))),
    ((ground arith, (ground arith, tt)), ((ground arith, tt), (tt, tt))),
  ),
  refl,
  refl,
)

abbrev at_second : ListIter
at_second = record { prev = 96; cur = 160 }

new-Fresh : Fresh 256 ns
unfolding Fresh
new-Fresh = (ground arith, (ground arith, tt))

insert-Holds_example :
    (m' : Memory ℕ) × (l' : RmList) × (it' : ListIter) × (list_iter_insert_before two_nodes two
        at_second 256 30
      ≡ some (m', l', it'))
    × Holds m' l' ((96, 10) ∷ ((256, 30) ∷ ((160, 20) ∷ [])))
    × IsAt {A = ℕ} l' it' ((96, 10) ∷ ((256, 30) ∷ [])) ((160, 20) ∷ [])
insert-Holds_example =
    insert-Holds two_nodes two at_second ((96, 10) ∷ []) ((160, 20) ∷ []) 256 30 two-Holds
      (refl, refl) new-Fresh (ground arith) (ground arith)

remove-Holds_example :
    (m' : Memory ℕ) × (l' : RmList) × (it' : ListIter) × (list_iter_remove two_nodes two at_second
      ≡ some (m', l', it'))
    × Holds m' l' ((96, 10) ∷ [])
    × IsAt {A = ℕ} l' it' ((96, 10) ∷ []) []
    × (m' 160 ≡ none)
    × ((x : ℕ) → x ≢ 64 → Fresh x ns → m' x ≡ two_nodes x)
    × (l'.barrier ≡ 64)
remove-Holds_example =
    remove-Holds two_nodes two at_second ((96, 10) ∷ []) [] (160, 20) two-Holds (refl, refl)

read_all_lem_example : read_all 3 two_nodes two (list_iter_begin two) ≡ some (10 ∷ (20 ∷ []))
read_all_lem_example = read_all_lem two_nodes two ns 3 two-Holds (omega arith)

-- Without the barrier's own cell, no iterator can be compared with the end.
nowhere : read_all {A = ℕ} 3 (λ a. none) two (list_iter_begin two) ≡ none
unfolding read_all list_iter_begin list_iter_end
nowhere = refl
