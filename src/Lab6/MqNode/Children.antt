-- ===== src/Lab6/MqNode/Children.antt =====
-- The two places for sons of a process: mqn_init, mqn_connect, mqn_close and mqn_destroy.
use mai_os.Base.{
  ◌≡◌, refl, ◌≢◌, ◌⊎◌, inl, inr, Bool, true, false, Option, none, some, arith, ℤ, minus_one, eq_ℤ,
  eq_ℤ_iff, Bool-cases, bind_some,
}
use mai_os.Base.Text.{Text}
use mai_os.Lab6.Zmq.{Zmq, NullLaws}
use mai_os.Lab6.MqNode.{
  MqNode, init, connect_left, connect_right, connect, close_left, close_right, close, destroy,
}

abbrev pub is_some {ℓ} : {A : Type ℓ} → Option A → Bool
is_some none = false
is_some (some a) = true

-- A place has both sockets of a son, or the identifier -1 and neither.
abbrev pub Place : Bool → Bool → Bool → Type 0
Place id_is_free has_main has_ping =
    ((id_is_free ≡ true) × (has_main ≡ false) × (has_ping ≡ false))
    ⊎ ((id_is_free ≡ false) × (has_main ≡ true) × (has_ping ≡ true))

pub record IsLinked (z : Zmq) (m : MqNode z) : Type 0 where
  pub left :
      Place
        (eq_ℤ m.left_child_id minus_one)
        (is_some m.left_child_main_socket)
        (is_some m.left_child_ping_socket)
  pub right :
      Place
        (eq_ℤ m.right_child_id minus_one)
        (is_some m.right_child_main_socket)
        (is_some m.right_child_ping_socket)

module _ (z : Zmq) (null : NullLaws z) where
  -- mqn_init starts with both places free.
  pub init-IsLinked : (w : z.World) → IsLinked z (init z w).0
  unfolding init
  init-IsLinked w = record { left = inl (refl, refl, refl); right = inl (refl, refl, refl) }

  -- An address is connected only through a socket that is there.
  connected :
      (s : Option z.Socket) (a : Option Text) (w w' : z.World)
      → z.connect s a w ≡ some w'
      → is_some s ≡ true
  connected none a w w' e = let f = null.connect-null a w in cc
  connected (some s) a w w' e = refl

  -- Whether a socket is there is read off what connecting it returned.
  connect_left-IsLinked :
      (m m' : MqNode z) (id : ℤ) (main ping : Option Text) (w w' : z.World)
      → IsLinked z m
      → id ≢ minus_one
      → connect_left z m id main ping w ≡ some (m', w')
      → IsLinked z m'
  unfolding connect_left
  connect_left-IsLinked m m' id main ping w w' l ne e =
      let (s, w₁) = z.socket m.context w in
      let (p, w₂) = z.socket m.context w₁ in
      let (w₃, c, e₁) = bind_some (z.connect s main w₂) _ e in
      let (w₄, c', e₂) = bind_some (z.connect p ping w₃) _ e₁ in
      ground (arith, connected s main w₂ w₃ c, connected p ping w₃ w₄ c')

  connect_right-IsLinked :
      (m m' : MqNode z) (id : ℤ) (main ping : Option Text) (w w' : z.World)
      → IsLinked z m
      → id ≢ minus_one
      → connect_right z m id main ping w ≡ some (m', w')
      → IsLinked z m'
  unfolding connect_right
  connect_right-IsLinked m m' id main ping w w' l ne e =
      let (s, w₁) = z.socket m.context w in
      let (p, w₂) = z.socket m.context w₁ in
      let (w₃, c, e₁) = bind_some (z.connect s main w₂) _ e in
      let (w₄, c', e₂) = bind_some (z.connect p ping w₃) _ e₁ in
      ground (arith, connected s main w₂ w₃ c, connected p ping w₃ w₄ c')

  -- mqn_connect keeps the sockets of each place in step with its identifier.
  pub connect-IsLinked :
      (m m' : MqNode z) (id : ℤ) (main ping : Option Text) (w w' : z.World)
      → IsLinked z m
      → id ≢ minus_one
      → connect z m id main ping w ≡ some (m', w')
      → IsLinked z m'
  unfolding connect
  connect-IsLinked m m' id main ping w w' l ne e = ground (
    arith,
    connect_left-IsLinked m m' id main ping w w' l ne,
    connect_right-IsLinked m m' id main ping w w' l ne,
  )

  -- mqn_close keeps the sockets of each place in step with its identifier.
  pub close-IsLinked :
      (m m' : MqNode z) (id : ℤ) (w w' : z.World)
      → IsLinked z m
      → close z m id w ≡ some (m', w')
      → IsLinked z m'
  unfolding close close_left close_right
  close-IsLinked m m' id w w' l e = ground arith

module _ (z : Zmq) where
  connect_left_fields :
      (m m' : MqNode z) (id : ℤ) (main ping : Option Text) (w w' : z.World)
      → connect_left z m id main ping w ≡ some (m', w')
      → (m'.left_child_id ≡ id)
        × (m' ≡ record m {
          left_child_id = id;
          left_child_main_socket = m'.left_child_main_socket;
          left_child_ping_socket = m'.left_child_ping_socket;
        })
  unfolding connect_left
  connect_left_fields m m' id main ping w w' e =
      let (s, w₁) = z.socket m.context w in
      let (p, w₂) = z.socket m.context w₁ in
      let (w₃, c, e₁) = bind_some (z.connect s main w₂) _ e in
      let (w₄, c', e₂) = bind_some (z.connect p ping w₃) _ e₁ in ground arith

  connect_right_fields :
      (m m' : MqNode z) (id : ℤ) (main ping : Option Text) (w w' : z.World)
      → connect_right z m id main ping w ≡ some (m', w')
      → (m'.right_child_id ≡ id)
        × (m' ≡ record m {
          right_child_id = id;
          right_child_main_socket = m'.right_child_main_socket;
          right_child_ping_socket = m'.right_child_ping_socket;
        })
  unfolding connect_right
  connect_right_fields m m' id main ping w w' e =
      let (s, w₁) = z.socket m.context w in
      let (p, w₂) = z.socket m.context w₁ in
      let (w₃, c, e₁) = bind_some (z.connect s main w₂) _ e in
      let (w₄, c', e₂) = bind_some (z.connect p ping w₃) _ e₁ in ground arith

  -- mqn_connect, if no assertion fails, takes the left place if it is free, else the right one
  -- if that is free, leaving the identifier in the other place, and with both taken changes
  -- nothing at all.
  pub connect_places :
      (m m' : MqNode z) (id : ℤ) (main ping : Option Text) (w w' : z.World)
      → connect z m id main ping w ≡ some (m', w')
      → ((m.left_child_id ≡ minus_one)
          × (m'.left_child_id ≡ id)
          × (m'.right_child_id ≡ m.right_child_id))
        ⊎ ((m.left_child_id ≢ minus_one)
            × (m.right_child_id ≡ minus_one)
            × (m'.left_child_id ≡ m.left_child_id)
            × (m'.right_child_id ≡ id))
        ⊎ ((m.left_child_id ≢ minus_one) × (m.right_child_id ≢ minus_one) × (m' ≡ m) × (w' ≡ w))
  unfolding connect
  connect_places m m' id main ping w w' e = elim (Bool-cases (eq_ℤ m.left_child_id minus_one)) [
    | inl free ↦
        ground
          (arith, connect_left_fields m m' id main ping w w', eq_ℤ_iff m.left_child_id minus_one)
    | inr taken ↦ ground (
      arith,
      connect_right_fields m m' id main ping w w',
      eq_ℤ_iff m.left_child_id minus_one,
      eq_ℤ_iff m.right_child_id minus_one,
    )
  ]

  -- If one of the two places is free, the places are in step with their sockets and neither son
  -- has the identifier, then connecting a son and closing it again gives back the process as it
  -- was.
  pub close-connect :
      (m m' m'' : MqNode z) (id : ℤ) (main ping : Option Text) (w w' w₁ w₂ : z.World)
      → IsLinked z m
      → m.left_child_id ≢ id
      → m.right_child_id ≢ id
      → (m.left_child_id ≡ minus_one) ⊎ (m.right_child_id ≡ minus_one)
      → connect z m id main ping w ≡ some (m', w')
      → close z m' id w₁ ≡ some (m'', w₂)
      → m'' ≡ m
  unfolding connect close close_left close_right
  close-connect m m' m'' id main ping w w' w₁ w₂ l ne ne' room e f = ground (
    arith,
    connect_left_fields m m' id main ping w w',
    connect_right_fields m m' id main ping w w',
  )

  -- mqn_destroy, if no assertion fails and the places are in step with their sockets, leaves no
  -- context, no socket of its own, no son and no main socket of a son.
  pub destroy_lem :
      (m m' : MqNode z) (w w' : z.World)
      → IsLinked z m
      → destroy z m w ≡ some (m', w')
      → (m'.context ≡ none)
        × (m'.main_socket ≡ none)
        × (m'.ping_socket ≡ none)
        × (m'.left_child_id ≡ minus_one)
        × (m'.right_child_id ≡ minus_one)
        × (m'.left_child_main_socket ≡ none)
        × (m'.right_child_main_socket ≡ none)
  unfolding destroy close close_left close_right
  destroy_lem m m' w w' l e = ground arith
