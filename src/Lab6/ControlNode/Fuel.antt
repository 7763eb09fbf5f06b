-- ===== src/Lab6/ControlNode/Fuel.antt =====
-- lab6/control_node.c: how many commands of the chains the process carries out itself before it has
-- to wait for an answer: what is left of the chains, and the search for a command.
pub mod Local
use mai_os.Base.{
  ℕ, zero, suc, ◌+◌, ◌-◌, ◌≤◌, ◌<◌, ltb, ◌≡◌, ◌≢◌, refl, sym, ap, ◌∙◌, Bool, true, false, not, ◌&&◌,
  ◌||◌, Option, none, some, List, [], ◌∷◌, ℤ, pos, eq_ℤ, eq_ℤ_iff, IsInt, get_elem?, set,
  get_elem?-set_self, lt-get_elem?, arith, if◌then◌else◌, Bool-cases, inl, inr,
}
use mathlib.Core.Path.{subst}
use mai_os.Base.Text.{Text, codes, str_eq, str_eq_refl}
use mai_os.Base.Decimal.{int_to_str, str_to_int, strtol, str_to_int-int_to_str}
use mai_os.Lab6.Zmq.{Zmq}
use mai_os.Lab6.HashMap.{HashMap}
use mai_os.Lab6.MqNode
use mai_os.Lab6.MqNode.{Message}
use mai_os.Lab6.Protocol.{code_ok, cell}
use mai_os.Lab6.Run.{Run, ok, fault, out_of_fuel, ◌>>=◌, lift, bind_ok}
use mai_os.Lab6.ControlNode.{Control, Env, RemoveStruct, connect, close, push_all, print}
use mai_os.Lab6.ControlNode.Chain.{
  seek, matches, Found, element, none_after, find_command, number, push_next_remove, answered,
  rec_remove_with, finish_remove, send_command,
}

-- The result is there: the model did not stop for lack of fuel.
abbrev pub Ends {ℓ} : {A : Type ℓ} → Run A → Type ℓ
Ends r = r ≢ out_of_fuel

pub bind-Ends {ℓ κ} :
    {A : Type ℓ} {B : Type κ} (m : Run A) (f : A → Run B)
    → Ends m
    → ((a : A) → m ≡ ok a → Ends (f a))
    → Ends (m >>= f)
bind-Ends (ok a) f h k = k a refl
bind-Ends fault f h k = λ e. cc
bind-Ends out_of_fuel f h k = absurd (h refl)

pub if-Ends {ℓ} :
    {A : Type ℓ} (b : Bool) (x y : Run A) → (b ≡ true → Ends x) → Ends y → Ends (if b then x else y)
if-Ends true x y h k = h refl
if-Ends false x y h k = k

pub lift-Ends {ℓ} : {A : Type ℓ} (o : Option A) → Ends (lift o)
lift-Ends none = λ e. cc
lift-Ends (some a) = λ e. cc

pub number-Ends : (o : Option Text) → Ends (number o)
number-Ends none = λ e. cc
number-Ends (some t) = λ e. cc

pub seek-Ends : (now : ℕ) (m : Message) → Ends (seek now m)
unfolding seek
seek-Ends zero m = λ e. cc
seek-Ends (suc now) [] = λ e. cc
seek-Ends (suc now) (none ∷ m) = seek-Ends now m
seek-Ends (suc now) (some t ∷ m) = seek-Ends (suc now) m

matches-Ends : (command str_id : Text) (at : Message) → Ends (matches command str_id at)
unfolding matches
matches-Ends command str_id at = bind-Ends (lift (cell at 0)) _ (lift-Ends (cell at 0)) (λ c e.
    if-Ends (str_eq command c) _ _
      (λ same. bind-Ends (lift (cell at 1)) _ (lift-Ends (cell at 1)) (λ i e. λ e. cc)) (λ e. cc))

pub find_command-Ends :
    (command str_id : Text) (i : ℕ) (last : Option RemoveStruct) (l : List RemoveStruct)
    → Ends (find_command command str_id i last l)
unfolding find_command
find_command-Ends command str_id i last [] = λ e. cc
find_command-Ends command str_id i last (rs ∷ l) =
    bind-Ends (seek rs.now_command rs.commands) _ (seek-Ends rs.now_command rs.commands) (λ at e.
      bind-Ends (matches command str_id at) _ (matches-Ends command str_id at) (λ hit e.
        if-Ends hit _ _ (λ h. λ e. cc) (find_command-Ends command str_id (i + 1) (some rs) l)))

same_index : (i j : ℕ) (x y : RemoveStruct) → ok (element i x) ≡ ok (element j y) → j ≡ i
same_index i j x y e = cc

same_element : (i j : ℕ) (x y : RemoveStruct) → ok (element i x) ≡ ok (element j y) → x ≡ y
same_element i j x y e = cc

pub same_message : (x y : Message) → ok x ≡ ok y → x ≡ y
same_message x y e = cc

same_struct : (x y : RemoveStruct) → some x ≡ some y → x ≡ y
same_struct x y e = cc

same_bool : (x y : Bool) → ok x ≡ ok y → x ≡ y
same_bool x y e = cc

not_both :
    (i : ℕ) (x : RemoveStruct) (o : Option RemoveStruct) → ok (element i x) ≢ ok (none_after o)
not_both i x o e = cc

-- The search ends at an element of the list.
pub found_at :
    (command str_id : Text) (i j : ℕ) (last : Option RemoveStruct) (l : List RemoveStruct)
    (rs : RemoveStruct)
    → find_command command str_id i last l ≡ ok (element j rs)
    → (m : ℕ) × (j ≡ i + m) × (get_elem? l m ≡ some rs)
unfolding find_command
found_at command str_id i j last [] rs e = cc
found_at command str_id i j last (x ∷ l) rs e =
    let (at, e₁, r₁) = bind_ok (seek x.now_command x.commands) _ e in
    let (hit, e₂, r₂) = bind_ok (matches command str_id at) _ r₁ in
    elim (Bool-cases hit) [
      | inl here ↦
          let same : ok (element i x) ≡ ok (element j rs) =
            subst
              (λ b.
                (if b then ok (element i x) else find_command command str_id (i + 1) (some x) l)
                ≡ ok (element j rs))
              here r₂ in
          (0, same_index i j x rs same ∙ omega arith, ap some (same_element i j x rs same))
      | inr later ↦
          let rest : find_command command str_id (i + 1) (some x) l ≡ ok (element j rs) =
            subst
              (λ b.
                (if b then ok (element i x) else find_command command str_id (i + 1) (some x) l)
                ≡ ok (element j rs))
              later r₂ in
          let (m, place, got) = found_at command str_id (i + 1) j (some x) l rs rest in
          (suc m, omega (arith, place), got)
    ]

-- A search for the command of an element of the list does not run past the list.
pub finds :
    (command str_id : Text) (i m : ℕ) (last last' : Option RemoveStruct) (l : List RemoveStruct)
    (rms : RemoveStruct)
    → get_elem? l m ≡ some rms
    → ((at : Message)
        → seek rms.now_command rms.commands ≡ ok at
        → matches command str_id at ≡ ok true)
    → find_command command str_id i last l ≢ ok (none_after last')
unfolding find_command
finds command str_id i m last last' [] rms got here e = absurd (ground arith)
finds command str_id i zero last last' (x ∷ l) rms got here e =
    let (at, e₁, r₁) = bind_ok (seek x.now_command x.commands) _ e in
    let (hit, e₂, r₂) = bind_ok (matches command str_id at) _ r₁ in
    let split = λ (b : Bool).
      (if b then ok (element i x) else find_command command str_id (i + 1) (some x) l)
      ≡ ok (none_after last') in
    let same = same_struct x rms got in
    let at_rms : seek rms.now_command rms.commands ≡ ok at =
      subst (λ (y : RemoveStruct). seek y.now_command y.commands ≡ ok at) same e₁ in
    let found : hit ≡ true = same_bool hit true (sym e₂ ∙ here at at_rms) in
    not_both i x last' (subst split found r₂)
finds command str_id i (suc m) last last' (x ∷ l) rms got here e =
    let (at, e₁, r₁) = bind_ok (seek x.now_command x.commands) _ e in
    let (hit, e₂, r₂) = bind_ok (matches command str_id at) _ r₁ in
    let split = λ (b : Bool).
      (if b then ok (element i x) else find_command command str_id (i + 1) (some x) l)
      ≡ ok (none_after last') in
    elim (Bool-cases hit) [
      | inl found ↦ not_both i x last' (subst split found r₂)
      | inr missed ↦
          finds command str_id (i + 1) m (some x) last' l rms got here (subst split missed r₂)
    ]

-- what is left of the chains
abbrev pub remaining : RemoveStruct → ℕ
remaining rs = rs.number_commands - rs.now_command

abbrev pub total : List RemoveStruct → ℕ
total [] = 0
total (rs ∷ l) = remaining rs + total l

pub total-get :
    (l : List RemoveStruct) (m : ℕ) (rs : RemoveStruct)
    → get_elem? l m ≡ some rs
    → remaining rs ≤ total l
total-get [] m rs got = absurd (ground arith)
total-get (x ∷ l) zero rs got =
    let same : remaining x ≡ remaining rs = ap remaining (same_struct x rs got) in
    omega (arith, same)
total-get (x ∷ l) (suc m) rs got = omega (arith, total-get l m rs got)

pub total-set :
    (l : List RemoveStruct) (m : ℕ) (x y : RemoveStruct)
    → get_elem? l m ≡ some x
    → total (set l m y) + remaining x ≡ total l + remaining y
total-set [] m x y got = absurd (ground arith)
total-set (z ∷ l) zero x y got =
    let same : remaining z ≡ remaining x = ap remaining (same_struct z x got) in omega (arith, same)
total-set (z ∷ l) (suc m) x y got = omega (arith, total-set l m x y got)

-- The second string of each command is the decimal text of an identifier.
abbrev pub IsNamed : RemoveStruct → Type 0
IsNamed rs =
    (now : ℕ) (at : Message)
    → now < rs.number_commands
    → seek now rs.commands ≡ ok at
    → (k : ℤ) × (cell at 1 ≡ some (int_to_str k)) × IsInt k

abbrev pub AllNamed : List RemoveStruct → Type 0
AllNamed [] = Unit
AllNamed (rs ∷ l) = IsNamed rs × AllNamed l

pub AllNamed-get :
    (l : List RemoveStruct) (m : ℕ) (rs : RemoveStruct)
    → AllNamed l
    → get_elem? l m ≡ some rs
    → IsNamed rs
AllNamed-get [] m rs h got = absurd (ground arith)
AllNamed-get (x ∷ l) zero rs h got = subst IsNamed (same_struct x rs got) h.0
AllNamed-get (x ∷ l) (suc m) rs h got = AllNamed-get l m rs h.1 got

pub AllNamed-set :
    (l : List RemoveStruct) (m : ℕ) (rs : RemoveStruct)
    → AllNamed l
    → IsNamed rs
    → AllNamed (set l m rs)
AllNamed-set [] m rs h k = tt
AllNamed-set (x ∷ l) zero rs h k = (k, h.1)
AllNamed-set (x ∷ l) (suc m) rs h k = (h.0, AllNamed-set l m rs h.1 k)
