-- ===== src/Lab6/ControlNode/Remove/Plan.antt =====
-- The chains that cmd_remove writes, as lists of commands.
use mai_os.Base.{
  ℕ, zero, suc, ◌≤◌, ◌<◌, IsInt, sym, ap, ◌≡◌, refl, ◌∙◌, inl, inr, true, false, none, some, List,
  [], ◌∷◌, ◌++◌, map, Bool-cases, arith, ℤ, if◌then◌else◌, length, drop,
}
use mai_os.Base.Text.{Text, codes}
use mai_os.Base.Decimal.{int_to_str}
use mai_os.Lab6.Protocol.{cell}
use mai_os.Lab6.ControlNode.Fuel.{IsNamed, same_message}
use mai_os.Lab6.BTree.{BTreeNode}
use mai_os.Lab6.MqNode.{Message}
use mai_os.Lab6.Run.{ok}
use mai_os.Lab6.ControlNode.{RemoveStruct}
use mai_os.Lab6.ControlNode.Chain.{seek}
use mai_os.Lab6.ControlNode.Remove.{last_chain, replace_chain, takes_over}

-- a command: its strings
abbrev pub Command : Type 0
Command = List Text

-- the commands in an array, each ended by NULL
abbrev pub as_array : List Command → Message → Message
as_array [] rest = rest
as_array (c ∷ cs) rest = map some c ++ (none ∷ as_array cs rest)

seek_skip :
    (now : ℕ) (c : Command) (rest : Message)
    → seek (suc now) (map some c ++ (none ∷ rest)) ≡ seek now rest
unfolding seek
seek_skip now [] rest = refl
seek_skip now (t ∷ c) rest = seek_skip now c rest

-- The loop that counts ended commands stops at the start of the command with that number.
pub seek-as_array :
    (now : ℕ) (cs : List Command) (rest : Message)
    → now ≤ length cs
    → seek now (as_array cs rest) ≡ ok (as_array (drop now cs) rest)
unfolding seek
seek-as_array zero cs rest h = refl
seek-as_array (suc now) [] rest h = elim h [ ]
seek-as_array (suc now) (c ∷ cs) rest h =
    seek_skip now c (as_array cs rest) ∙ seek-as_array now cs rest (omega arith)

-- the addresses of a node that is a process
abbrev pub At : BTreeNode → Text → Text → Type 0
At n main ping = (n.main_address ≡ some main) × (n.ping_address ≡ some ping)

abbrev pub connect_to : ℤ → ℤ → Text → Text → Command
connect_to id parent_id main ping =
    codes "connect" ∷ int_to_str id ∷ int_to_str parent_id ∷ main ∷ ping ∷ []

-- the commands for a son of the removed node, if it is to be taken over
abbrev pub for_son : BTreeNode → BTreeNode → Text → Text → List Command
for_son last son main ping =
    if takes_over last son then connect_to son.id last.id main ping ∷ [] else []

abbrev pub fixed_part : ℤ → ℤ → ℤ → Text → Text → List Command
fixed_part removed last parent main ping =
    (codes "ping" ∷ int_to_str removed ∷ [])
    ∷ (codes "disconnect" ∷ int_to_str last ∷ [])
    ∷ (codes "remove" ∷ int_to_str removed ∷ [])
    ∷ (codes "disconnect" ∷ int_to_str removed ∷ [])
    ∷ connect_to last parent main ping
    ∷ []

-- The chain carries out these commands and no others.
abbrev pub Carries : RemoveStruct → List Command → Type 0
Carries rs plan =
    (rest : Message) × (rs.commands ≡ as_array plan rest)
    × (rs.number_commands ≡ length plan)
    × (rs.now_command ≡ 0)

-- The chain for the last node removes it and then has its parent drop it.
pub last_chain-Carries :
    (removed : BTreeNode)
    → Carries (last_chain removed) (
        (codes "remove" ∷ int_to_str removed.id ∷ [])
        ∷ (codes "disconnect" ∷ int_to_str removed.id ∷ [])
        ∷ [])
unfolding last_chain
last_chain-Carries removed = ([], refl, refl, refl)

-- For a node that is not the last one, the chain pings and disconnects, removes the node,
-- connects the last node to its parent, and then each son that the last node takes over to the
-- last node; the commands that are counted are these, in this order, and no others, provided
-- that the nodes concerned have addresses and that a right son to take over comes with a left
-- one.
pub replace_chain-Carries :
    (removed last parent left right : BTreeNode) (m p lm lp rm rp : Text)
    → At last m p
    → (takes_over last left ≡ true → At left lm lp)
    → (takes_over last right ≡ true → At right rm rp)
    → (takes_over last right ≡ true → takes_over last left ≡ true)
    → Carries (replace_chain removed last parent left right) (
        fixed_part removed.id last.id parent.id m p
        ++ (for_son last left lm lp ++ for_son last right rm rp))
unfolding replace_chain
replace_chain-Carries removed last parent left right m p lm lp rm rp at_last at_left at_right both =
    elim (Bool-cases (takes_over last left)) [
      | inr no_left ↦
          let no_right : takes_over last right ≡ false = ground arith in
          rw (at_last.0, at_last.1, no_left, no_right) (_, refl, refl, refl)
      | inl with_left ↦ elim (Bool-cases (takes_over last right)) [
        | inr no_right ↦
            rw
              (
                at_last.0,
                at_last.1,
                with_left,
                no_right,
                (at_left with_left).0,
                (at_left with_left).1,
              )
              (_, refl, refl, refl)
        | inl with_right ↦
            rw
              (
                at_last.0,
                at_last.1,
                with_left,
                with_right,
                (at_left with_left).0,
                (at_left with_left).1,
                (at_right with_right).0,
                (at_right with_right).1,
              )
              (_, refl, refl, refl)
      ]
    ]

-- A command with the decimal text of an identifier behind its first word.
abbrev pub IsAbout : Command → Type 0
IsAbout c =
    (word : Text) × (k : ℤ) × (rest : List Text) × (c ≡ word ∷ (int_to_str k ∷ rest)) × IsInt k

abbrev pub AllAbout : List Command → Type 0
AllAbout [] = Unit
AllAbout (c ∷ cs) = IsAbout c × AllAbout cs

second_cell :
    (now : ℕ) (plan : List Command) (rest : Message)
    → AllAbout plan
    → now < length plan
    → (k : ℤ) × (cell (as_array (drop now plan) rest) 1 ≡ some (int_to_str k)) × IsInt k
second_cell now [] rest about h = absurd (omega arith)
second_cell zero (c ∷ cs) rest ((word, k, more, form, is), about) h =
    (k, ap (λ (d : Command). cell (map some d ++ (none ∷ as_array cs rest)) 1) form, is)
second_cell (suc now) (c ∷ cs) rest (first, about) h = second_cell now cs rest about (omega arith)

-- A chain that carries out such commands.
pub Carries-IsNamed :
    (rs : RemoveStruct) (plan : List Command) → AllAbout plan → Carries rs plan → IsNamed rs
Carries-IsNamed rs plan about (rest, commands, number, start) now at below sought =
    let inside : now < length plan = omega (arith, number) in
    let (k, second, is) = second_cell now plan rest about inside in
    let there : ok (as_array (drop now plan) rest) ≡ ok at =
      sym (ap (seek now) commands ∙ seek-as_array now plan rest (omega arith)) ∙ sought in
    (
      k,
      ap (λ m. cell m 1) (sym (same_message (as_array (drop now plan) rest) at there)) ∙ second,
      is,
    )
