-- ===== src/Lab6/ControlNode/Remove/Start.antt =====
-- lab6/control_node.c: the chains that cmd_remove starts, and how far they get before an answer.
use mai_os.Base.{
  ℕ, ◌+◌, ◌≤◌, ◌≡◌, refl, true, List, [], ◌∷◌, ◌++◌, Bool-cases, inl, inr, arith, IsInt,
}
use mai_os.Base.Text.{Text, codes}
use mai_os.Base.Decimal.{int_to_str}
use mai_os.Lab6.Zmq.{Zmq}
use mai_os.Lab6.HashMap.{HashMap}
use mai_os.Lab6.BTree.{BTreeNode}
use mai_os.Lab6.ControlNode.{Control, Env}
use mai_os.Lab6.ControlNode.Fuel.{Ends, IsNamed, AllNamed, total}
use mai_os.Lab6.ControlNode.Fuel.Local.{push_next_remove-Ends}
use mai_os.Lab6.ControlNode.Remove.{last_chain, replace_chain, start_chain, takes_over}
use mai_os.Lab6.ControlNode.Remove.Plan.{
  Command, At, for_son, fixed_part, AllAbout, Carries-IsNamed, last_chain-Carries,
  replace_chain-Carries,
}

AllAbout-append : (xs ys : List Command) → AllAbout xs → AllAbout ys → AllAbout (xs ++ ys)
AllAbout-append [] ys h k = k
AllAbout-append (x ∷ xs) ys (a, h) k = (a, AllAbout-append xs ys h k)

for_son-AllAbout :
    (last son : BTreeNode) (main ping : Text)
    → (takes_over last son ≡ true → IsInt son.id)
    → AllAbout (for_son last son main ping)
for_son-AllAbout last son main ping is = elim (Bool-cases (takes_over last son)) [
  | inl taken ↦ rw taken ((_, son.id, _, refl, is taken), tt)
  | inr left ↦ rw left tt
]

last_chain-IsNamed : (removed : BTreeNode) → IsInt removed.id → IsNamed (last_chain removed)
last_chain-IsNamed removed is =
    Carries-IsNamed (last_chain removed)
      ((codes "remove" ∷ int_to_str removed.id ∷ [])
        ∷ (codes "disconnect" ∷ int_to_str removed.id ∷ [])
        ∷ [])
      ((_, removed.id, _, refl, is), ((_, removed.id, _, refl, is), tt))
      (last_chain-Carries removed)

module _ (removed last parent left right : BTreeNode) (m p lm lp rm rp : Text)
    (at_last : At last m p) (at_left : takes_over last left ≡ true → At left lm lp)
    (at_right : takes_over last right ≡ true → At right rm rp)
    (both : takes_over last right ≡ true → takes_over last left ≡ true) (is : IsInt removed.id)
    (is_last : IsInt last.id) (is_left : takes_over last left ≡ true → IsInt left.id)
    (is_right : takes_over last right ≡ true → IsInt right.id) where
  replace_chain-IsNamed : IsNamed (replace_chain removed last parent left right)
  replace_chain-IsNamed =
      Carries-IsNamed (replace_chain removed last parent left right)
        (fixed_part removed.id last.id parent.id m p
          ++ (for_son last left lm lp ++ for_son last right rm rp))
        (AllAbout-append (fixed_part removed.id last.id parent.id m p)
          (for_son last left lm lp ++ for_son last right rm rp)
          (
            (_, removed.id, _, refl, is),
            (
              (_, last.id, _, refl, is_last),
              (
                (_, removed.id, _, refl, is),
                ((_, removed.id, _, refl, is), ((_, last.id, _, refl, is_last), tt)),
              ),
            ),
          )
          (AllAbout-append (for_son last left lm lp) (for_son last right rm rp)
            (for_son-AllAbout last left lm lp is_left)
            (for_son-AllAbout last right rm rp is_right)))
        (replace_chain-Carries removed last parent left right m p lm lp rm rp at_last at_left
          at_right both)

  -- Either chain of cmd_remove, for nodes whose identifiers are ints, nodes to take over that
  -- have addresses, and a right son to take over only with a left one, does not run out of fuel
  -- where the fuel is at least 7 more than the commands left in the chains of the list, each of
  -- which is about an int: the process does not answer itself for ever.
  pub start_chain-Ends :
      (z : Zmq) (h : HashMap) (env : Env) (fuel : ℕ) (s : Control z h)
      → AllNamed s.remove_list
      → 7 + total s.remove_list ≤ fuel
      → Ends (start_chain z h env fuel s (last_chain removed))
        × Ends (start_chain z h env fuel s (replace_chain removed last parent left right))
  unfolding start_chain last_chain replace_chain
  start_chain-Ends z h env fuel s named enough = (
    push_next_remove-Ends z h env fuel
        (record s { remove_list = last_chain removed ∷ s.remove_list }) (last_chain removed) 0
        (last_chain-IsNamed removed is, named) refl (omega arith) (omega arith),
    push_next_remove-Ends z h env fuel
        (record s { remove_list = replace_chain removed last parent left right ∷ s.remove_list })
        (replace_chain removed last parent left right) 0 (replace_chain-IsNamed, named) refl
        (ground arith) (ground arith),
  )
