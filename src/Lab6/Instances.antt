-- ===== src/Lab6/Instances.antt =====
-- Small implementations of the libraries that lab6 uses, for the runs of the models: one connection
-- whose two ends are every socket, and a map that is a list of keys and values.
use mai_os.Base.{
  ℕ, ◌≡◌, refl, inl, inr, Bool, Option, none, some, List, [], ◌∷◌, ◌++◌, map, arith, Option-cases,
  ℤ, if◌then◌else◌,
}
use mai_os.Base.Text.{Text, str_eq, str_eq_iff}
use mai_os.Lab6.Zmq.{Zmq, NullLaws, PairLaws}
use mai_os.Lab6.HashMap.{HashMap, Laws, PutResult, stored, exists}

-- the parts that wait, and whether more follow the one that was read last
abbrev pub Queue : Type 0
Queue = List (Text × Bool) × Bool

abbrev only : {A : Type 0} → Option ℕ → Option A → Option A
only none r = none
only (some s) r = r

abbrev take_part : Queue → Option Text × Queue
take_part ([], more) = (none, ([], more))
take_part ((t, more) ∷ q, last) = (some t, (q, more))

abbrev recv_part : Option ℕ → Queue → Option Text × Queue
recv_part none w = (none, w)
recv_part (some s) w = take_part w

abbrev pub loopback : Zmq
loopback = record {
  World = Queue;
  Socket = ℕ;
  Context = Unit {0};
  ctx_new = λ w. (some tt, w);
  ctx_destroy = λ c w. w;
  socket = λ c w. (some 5, w);
  bind = λ s a w. only s (some w);
  connect = λ s a w. only s (some w);
  close = λ s w. only s (some w);
  send = λ s t more w. only s (some (w.0 ++ ((t, more) ∷ []), w.1));
  recv = recv_part;
  rcvmore = λ s w. only s (some w.1);
}

abbrev pub loopback_null : NullLaws loopback
loopback_null = record { connect-null = λ a w. refl; recv-null = λ w. refl }

pub recv-loopback :
    (t : Text) (more : Bool) (rest : List (Text × Bool)) (w : Queue)
    → w.0 ≡ (t, more) ∷ rest
    → (w' : Queue) × (recv_part (some 5) w ≡ (some t, w'))
      × (w'.0 ≡ rest)
      × (only (some 5) (some w'.1) ≡ some more)
recv-loopback t more rest ([], last) e = cc
recv-loopback t more rest ((u, m) ∷ q, last) e = ((q, m), ground arith, ground arith, ground arith)

abbrev pub loopback_pair : PairLaws loopback (some 5) (some 5)
loopback_pair = record {
  waiting = λ w. w.0;
  send-waiting = λ t more w. ((w.0 ++ ((t, more) ∷ []), w.1), refl, refl);
  recv-waiting = recv-loopback;
}

abbrev pub Entries : Type 0
Entries = List (Text × ℤ)

unfoldable pub get : Entries → Text → Option ℤ
get [] k = none
get ((j, v) ∷ m) k = if str_eq j k then some v else get m k

unfoldable pub remove : Entries → Text → Entries
remove [] k = []
remove ((j, v) ∷ m) k = if str_eq j k then remove m k else (j, v) ∷ remove m k

unfoldable pub write : Entries → Text → ℤ → Entries
write [] k v = []
write ((j, w) ∷ m) k v = if str_eq j k then (j, v) ∷ m else (j, w) ∷ write m k v

unfoldable pub put : Entries → Text → ℤ → PutResult × Entries
put m k v = elim (get m k) [ none ↦ (stored, (k, v) ∷ m) | some w ↦ (exists, m) ]

abbrev pub assoc : HashMap
assoc = record {
  Map = Entries;
  empty = [];
  get = get;
  put = put;
  remove = remove;
  write = write;
  keys = map (λ e. e.0);
}

put-exists : (m : Entries) (k : Text) (v w : ℤ) → get m k ≡ some w → put m k v ≡ (exists, m)
unfolding put
put-exists m k v w e = rw (e, put)

put-stored :
    (m m' : Entries) (k j : Text) (v : ℤ)
    → put m k v ≡ (stored, m')
    → get m' j ≡ (if str_eq k j then some v else get m j)
unfolding put
put-stored m m' k j v e = elim (Option-cases (get m k)) [
  | inl new ↦ ground (arith, get_cons)
  | inr (w, old) ↦ ground arith
]
  where
    get_cons : get ((k, v) ∷ m) j ≡ (if str_eq k j then some v else get m j)
    get_cons = unfold get in refl

get-remove :
    (m : Entries) (k j : Text) → get (remove m k) j ≡ (if str_eq k j then none else get m j)
unfolding get remove
get-remove [] k j = ground arith
get-remove ((i, v) ∷ m) k j =
    ground (arith, get-remove m k j, str_eq_iff i k, str_eq_iff i j, str_eq_iff k j)

get-write :
    (m : Entries) (k j : Text) (v w : ℤ)
    → get m k ≡ some w
    → get (write m k v) j ≡ (if str_eq k j then some v else get m j)
unfolding get write
get-write [] k j v w e = cc
get-write ((i, u) ∷ m) k j v w e =
    ground (arith, get-write m k j v w, str_eq_iff i k, str_eq_iff i j, str_eq_iff k j)

pub assoc_laws : Laws assoc
unfolding get
assoc_laws = record {
  get-empty = λ k. refl;
  put-exists = put-exists;
  put-stored = put-stored;
  get-remove = get-remove;
  get-write = get-write;
}
