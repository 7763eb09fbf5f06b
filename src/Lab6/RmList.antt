-- ===== src/Lab6/RmList.antt =====
-- lab6/structures/rm_list.c: a circular list through a barrier node. Each node holds the exclusive
-- or of the addresses of its two neighbours. The memory is a partial function from addresses to
-- nodes; `none` as a result is an access to an address that has no node.
pub mod Ring
pub mod Relink
pub mod Holds
pub mod Iterate
pub mod Change
pub mod Edit
pub mod Destroy
mod Tests
use mai_os.Base.{
  ℕ, zero, suc, ◌==◌, Bool, true, false, ◌&&◌, Option, none, some, ◌>>=◌, ℤ, pos, is_pos, pred_ℤ,
  suc_ℤ, if◌then◌else◌,
}
use Prim.Native.Nat.{bit_xor}

pub record Listel {ℓ} (A : Type ℓ) : Type ℓ where
  pub val : A
  pub pn : ℕ

abbrev pub Memory {ℓ} : Type ℓ → Type ℓ
Memory A = ℕ → Option (Listel A)

-- `rm_list`: the barrier is a node at an address of its own.
pub record RmList : Type 0 where
  pub barrier : ℕ
  pub first : ℕ
  pub size : ℤ

-- `list_iter` without the pointer to its list, which the functions take beside it
pub record ListIter : Type 0 where
  pub prev : ℕ
  pub cur : ℕ

abbrev pub listel_xor : ℕ → ℕ → ℕ
listel_xor l1 l2 = bit_xor l1 l2

abbrev pub get_size : RmList → ℤ
get_size l = l.size

unfoldable pub list_iter_begin : RmList → ListIter
list_iter_begin l = record { prev = l.barrier; cur = l.first }

-- for two iterators of one list
unfoldable pub list_iter_equal : ListIter → ListIter → Bool
list_iter_equal it1 it2 = it1.prev == it2.prev && it1.cur == it2.cur

module _ {ℓ} {A : Type ℓ} where
  abbrev pub write : Memory A → ℕ → Listel A → Memory A
  write m a c b = if b == a then some c else m b

  abbrev pub erase : Memory A → ℕ → Memory A
  erase m a b = if b == a then none else m b

  abbrev pub set_pn : Memory A → ℕ → (ℕ → ℕ) → Option (Memory A)
  set_pn m a f = do c ← m a; some (write m a (record c { pn = f c.pn }))

  unfoldable pub get_next : Memory A → ListIter → Option ℕ
  get_next m it = do c ← m it.cur; some (listel_xor c.pn it.prev)

  unfoldable pub list_init : Memory A → ℕ → Option (Memory A × RmList)
  list_init m barrier = do
    m ← set_pn m barrier (λ pn. 0)
    some (m, record { barrier = barrier; first = barrier; size = pos 0 })

  unfoldable pub list_iter_end : Memory A → RmList → Option ListIter
  list_iter_end m l = do
    c ← m l.barrier
    some (record { prev = listel_xor c.pn l.first; cur = l.barrier })

  unfoldable pub list_iter_move_next : Memory A → ListIter → Option ListIter
  list_iter_move_next m it = do next ← get_next m it; some (record { prev = it.cur; cur = next })

  unfoldable pub list_iter_get : Memory A → ListIter → Option A
  list_iter_get m it = do c ← m it.cur; some c.val

  unfoldable pub list_iter_set : Memory A → ListIter → A → Option (Memory A)
  list_iter_set m it val = do c ← m it.cur; some (write m it.cur (record c { val = val }))

  -- `new_el` is what malloc returns; writing to NULL is a fault.
  unfoldable pub list_iter_insert_before :
      Memory A → RmList → ListIter → ℕ → A → Option (Memory A × RmList × ListIter)
  list_iter_insert_before m l it new_el val =
      let l' : RmList = record l {
        first = if it.cur == l.first then new_el else l.first;
        size = suc_ℤ l.size;
      } in
      let it' : ListIter = record it { prev = new_el } in
      let m₁ = write m new_el (record { val = val; pn = listel_xor it.cur it.prev }) in
      if new_el == 0 then none else (do
        next ← get_next m₁ it
        if is_pos (get_size l)
            then (do
              m₂ ← set_pn m₁ it.prev (λ pn. listel_xor (listel_xor it.cur pn) new_el)
              m₃ ← set_pn m₂ it.cur (λ pn. listel_xor new_el next)
              some (m₃, l', it'))
            else some (m₁, l', it'))

  -- the links of `list_iter_remove`, with the list not empty or empty
  abbrev pub unlink : Memory A → RmList → ListIter → ℕ → Option (Memory A)
  unlink m l it next =
      if is_pos (get_size l)
      then (do
        m₁ ← set_pn m it.prev (λ pn. listel_xor (listel_xor it.cur pn) next)
        set_pn m₁ next (λ pn. listel_xor (listel_xor pn it.cur) it.prev))
      else some m

  -- Freeing the barrier, which malloc did not return, is a fault.
  unfoldable pub list_iter_remove :
      Memory A → RmList → ListIter → Option (Memory A × RmList × ListIter)
  list_iter_remove m l it = if it.cur == l.barrier then none else (do
    next ← get_next m it
    m' ← unlink m l it next
    some (
      erase m' it.cur,
      record l { first = if l.first == it.cur then next else l.first; size = pred_ℤ l.size },
      record it { cur = next },
    ))

  -- The loop of list_destroy compares with the end of the list as it is then. `rounds` bounds it;
  -- the first result is how it stands.
  unfoldable pub destroy_from : ℕ → Memory A → RmList → ListIter → Option (Bool × Memory A × RmList)
  destroy_from zero m l it = some (false, m, l)
  destroy_from (suc rounds) m l it = do
    end ← list_iter_end m l
    if list_iter_equal it end
        then some (true, m, l)
        else (do (m', l', it') ← list_iter_remove m l it; destroy_from rounds m' l' it')

  unfoldable pub list_destroy : ℕ → Memory A → RmList → Option (Bool × Memory A × RmList)
  list_destroy rounds m l = destroy_from rounds m l (list_iter_begin l)
