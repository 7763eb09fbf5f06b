-- ===== src/Lab6/BTree.antt =====
-- lab6/structures/balanced_tree.h and balanced_tree.c: a binary tree laid out in an array, the
-- node at index i having its sons at 2i + 1 and 2i + 2.
-- `none` is an access outside the allocated array. A `size_t` sum wraps at 2 ^ 64.
pub mod Live
mod Tests
pub mod Ids
pub mod Remove
pub mod Family
pub mod Find
use mai_os.Base.{
  ℕ, zero, suc, ◌+◌, ◌-◌, ◌*◌, ◌/◌, ◌%◌, ◌^◌, ℤ, Bool, true, false, Option, none, some, List, [],
  ◌∷◌, ◌++◌, ltb, leb, ◌==◌, if◌then◌else◌, length, get_elem?, set, take, replicate, eq_ℤ,
  minus_one,
}
use mai_os.Base.Text.{Text}

-- An address is `none` where the C pointer is NULL.
pub record BTreeNode : Type 0 where
  pub id : ℤ
  pub pid : ℤ
  pub main_address : Option Text
  pub ping_address : Option Text

-- `buf` is the allocated array.
pub record BTree : Type 0 where
  pub buf : List BTreeNode
  pub pool_size : ℕ
  pub size : ℕ

abbrev pub k_size : ℕ
k_size = 2

-- `sizeof(b_tree_node)`: two ints and two pointers
abbrev pub node_bytes : ℕ
node_bytes = 24

abbrev pub mul_size : ℕ → ℕ → ℕ
mul_size a b = (a * b) % 2 ^ 64

abbrev pub sub_size : ℕ → ℕ → ℕ
sub_size a b = (2 ^ 64 + a - b) % 2 ^ 64

abbrev pub add_size : ℕ → ℕ → ℕ
add_size a b = (a + b) % 2 ^ 64

-- what the searches return when there is no node to return
abbrev pub no_node : BTreeNode
no_node = record { id = minus_one; pid = minus_one; main_address = none; ping_address = none }

unfoldable pub init : BTree
init = record { buf = []; pool_size = 0; size = 0 }

unfoldable pub destroy : BTree → BTree
destroy t = record { buf = []; pool_size = 0; size = 0 }

-- `realloc` of the array to a number of bytes: what was there is kept, and `junk` stands for what
-- the new cells hold. `grants` says whether the allocator has that many bytes.
module _ (grants : ℕ → Bool) (junk : BTreeNode) where
  unfoldable pub realloc : List BTreeNode → ℕ → Option (List BTreeNode)
  realloc buf bytes =
      if grants bytes
      then some (take (bytes / node_bytes) (buf ++ replicate (bytes / node_bytes) junk))
      else none

  -- The result of the shrinking call is stored unchecked: NULL there is an array of no cells.
  unfoldable pub shrink : BTree → ℕ → BTree
  shrink t new_size =
      let pool = t.pool_size / k_size in
      if leb (mul_size (mul_size new_size 2) k_size) t.pool_size
      then record {
        buf = elim (realloc t.buf (mul_size pool node_bytes)) [ none ↦ [] | some b ↦ b ];
        pool_size = pool;
        size = new_size;
      }
      else record t { size = new_size }

  -- A failed allocation leaves the new size in place.
  unfoldable pub grow : BTree → ℕ → BTree × Bool
  grow t new_size =
      let pool = if t.pool_size == 0 then k_size * 2 else mul_size t.pool_size k_size in
      if ltb t.pool_size new_size
      then elim (realloc t.buf (mul_size pool node_bytes)) [
        | none ↦ (record t { size = new_size }, false)
        | some b ↦ (record { buf = b; pool_size = pool; size = new_size }, true)
      ]
      else (record t { size = new_size }, true)

  unfoldable pub set_size : BTree → ℕ → BTree × Bool
  set_size t new_size =
      if ltb new_size t.size
      then (shrink t new_size, true)
      else if ltb t.size new_size
      then grow t new_size
      else (t, true)

  unfoldable pub add : BTree → BTreeNode → BTree × Bool
  unfolding set_size
  add t elem =
      let (t', done) = set_size t (add_size t.size 1) in
      if done then (record t' { buf = set t'.buf (sub_size t'.size 1) elem }, true) else (t', false)

unfoldable pub last_elem_parent : BTree → Option BTreeNode
last_elem_parent t = get_elem? t.buf (sub_size t.size 2 / 2)

unfoldable pub last_elem : BTree → Option BTreeNode
last_elem t = get_elem? t.buf (sub_size t.size 1)

-- How a search loop ends: it read past the array, it saw every cell, or it broke at a cell.
pub data Search : Type 0 where
  fault : Search
  absent : Search
  found : ℕ → BTreeNode → Search

-- `for (int i = 0; i < t->size; ++i) if (t->buf[i].id == elem_id) …`, with the rounds left, the
-- index, and the array from that index on.
unfoldable pub locate : ℤ → ℕ → ℕ → List BTreeNode → Search
locate elem_id zero i cells = absent
locate elem_id (suc rounds) i [] = fault
locate elem_id (suc rounds) i (x ∷ cells) =
    let rest = locate elem_id rounds (i + 1) cells in if eq_ℤ x.id elem_id then found i x else rest

abbrev pub search : BTree → ℤ → Search
search t elem_id = locate elem_id t.size 0 t.buf

-- The node that takes the place of the removed one, and the tree; it is the last node, whose slot
-- is given up also when no node has the identifier.
unfoldable pub remove : BTree → ℤ → Option (BTreeNode × BTree)
unfolding last_elem
remove t elem_id = elim (last_elem t) [
  | none ↦ none
  | some r_elem ↦ elim (search t elem_id) [
    | fault ↦ none
    | absent ↦ some (r_elem, record t { size = sub_size t.size 1 })
    | found i x ↦ some (r_elem, record t { buf = set t.buf i r_elem; size = sub_size t.size 1 })
  ]
]

unfoldable pub find : BTree → ℤ → Option BTreeNode
find t elem_id = elim (search t elem_id) [
  | fault ↦ none
  | absent ↦ some no_node
  | found i x ↦ some x
]

unfoldable pub get_parent : BTree → ℤ → Option BTreeNode
get_parent t elem_id = elim (search t elem_id) [
  | fault ↦ none
  | absent ↦ some no_node
  | found i x ↦ if i == 0 then some no_node else get_elem? t.buf ((i - 1) / 2)
]

-- the son at an offset of 1 (left) or 2 (right)
abbrev pub son : BTree → ℕ → Option BTreeNode
son t j = if leb t.size j then some no_node else get_elem? t.buf j

unfoldable pub get_left : BTree → ℤ → Option BTreeNode
get_left t elem_id = elim (search t elem_id) [
  | fault ↦ none
  | absent ↦ some no_node
  | found i x ↦ son t (2 * i + 1)
]

unfoldable pub get_right : BTree → ℤ → Option BTreeNode
get_right t elem_id = elim (search t elem_id) [
  | fault ↦ none
  | absent ↦ some no_node
  | found i x ↦ son t (2 * i + 2)
]
