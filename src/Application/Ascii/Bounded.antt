-- ===== src/Application/Ascii/Bounded.antt =====
-- src/layers/application/ascii.rs: what the state of a connection can hold.
use rs_modbus.Prelude.{
  ℕ, ◌≤◌, ◌≡◌, refl, ap, ◌∙◌, sym, subst, arith, Option, none, some, Bool, true, false, ◌&&◌, [],
  ◌∷◌, ◌++◌,
}
use rs_modbus.Prelude.{Bytes, All, length, length-append, leb, ◌==◌, Bool-cases, inl, inr, ◌⊎◌}
use rs_modbus.Prelude.HashMap.{HashMap, lookup, nat_eq, lookup-remove, lookup-insert}
use rs_modbus.Types.{ConnectionId, ResponseFn}
use rs_modbus.Application.Ascii.{
  FsmStatus, idle, reception, waiting_end, ConnectionState, default_state, Driven, on_byte,
  on_bytes, receive, is_hex_char, started, store, drive_fsm, or_default, is_idle,
}

module _ (lenient : Bool) where
  -- The frame is of at most 512 hex characters, and empty when no message is being received.
  pub record IsBounded (s : ConnectionState) : Type 0 where
    pub fits : length s.frame ≤ 512
    pub hex : All (λ c. is_hex_char c lenient ≡ true) s.frame
    pub empty : is_idle s.status ≡ true → s.frame ≡ []

  default-IsBounded : IsBounded default_state
  default-IsBounded = record { fits = omega arith; hex = tt; empty = λ e. refl }

  reception-IsBounded : IsBounded (record { status = reception; frame = [] })
  reception-IsBounded = record { fits = omega arith; hex = tt; empty = λ e. refl }

  All-snoc :
      (cs : Bytes) (c : ℕ)
      → All (λ c. is_hex_char c lenient ≡ true) cs
      → is_hex_char c lenient ≡ true
      → All (λ c. is_hex_char c lenient ≡ true) (cs ++ (c ∷ []))
  All-snoc [] c h hc = (hc, tt)
  All-snoc (x ∷ cs) c (hx, h) hc = (hx, All-snoc cs c h hc)

  receive-IsBounded :
      (byte : ℕ) (d : Driven) → IsBounded d.state → IsBounded (receive lenient byte d).state
  unfolding receive
  receive-IsBounded byte d h = elim (Bool-cases (leb 512 (length d.state.frame))) [
    | inl e ↦ rw e default-IsBounded
    | inr e ↦ elim (Bool-cases (is_hex_char byte lenient)) [
      | inl x ↦
          rw (e, x)
            (record {
              fits = ground (arith, e, length-append d.state.frame (byte ∷ []));
              hex = All-snoc d.state.frame byte h.hex x;
              empty = λ e. cc;
            })
      | inr x ↦ rw (e, x) default-IsBounded
    ]
  ]

  on_byte-IsBounded :
      (status : FsmStatus) (byte : ℕ) (d : Driven)
      → d.state.status ≡ status
      → IsBounded d.state
      → IsBounded (on_byte lenient status byte d).state
  unfolding on_byte
  on_byte-IsBounded idle byte d e h = elim (Bool-cases (byte == 58)) [
    | inl x ↦ rw x reception-IsBounded
    | inr x ↦ rw x h
  ]
  on_byte-IsBounded reception byte d e h = elim (Bool-cases (byte == 58)) [
    | inl x ↦ rw x reception-IsBounded
    | inr x ↦ elim (Bool-cases (byte == 13)) [
      | inl y ↦ rw (x, y) (record { fits = h.fits; hex = h.hex; empty = λ e. cc })
      | inr y ↦ rw (x, y) (receive-IsBounded byte d h)
    ]
  ]
  on_byte-IsBounded waiting_end byte d e h = elim (Bool-cases (byte == 58)) [
    | inl x ↦ rw x reception-IsBounded
    | inr x ↦ elim (Bool-cases (byte == 10)) [
      | inl y ↦ rw (x, y) default-IsBounded
      | inr y ↦ rw (x, y) default-IsBounded
    ]
  ]

  on_bytes-IsBounded :
      (bytes : Bytes) (d : Driven) → IsBounded d.state → IsBounded (on_bytes lenient bytes d).state
  unfolding on_bytes
  on_bytes-IsBounded [] d h = h
  on_bytes-IsBounded (b ∷ bytes) d h =
      on_bytes-IsBounded bytes (on_byte lenient d.state.status b d)
        (on_byte-IsBounded d.state.status b d refl h)

  -- Every state that is kept is bounded, and in the middle of a frame.
  unfoldable pub AreBounded : HashMap ConnectionId ConnectionState → Type 0
  AreBounded m =
      (c : ConnectionId) (s : ConnectionState)
      → lookup c m ≡ some s
      → IsBounded s × (is_idle s.status ≡ false)

  or_default-IsBounded :
      (m : HashMap ConnectionId ConnectionState) (c : ConnectionId)
      → AreBounded m
      → IsBounded (or_default (lookup c m))
  unfolding AreBounded
  or_default-IsBounded m c h = found (lookup c m) (h c)
    where
      found :
          (o : Option ConnectionState)
          → ((s : ConnectionState) → o ≡ some s → IsBounded s × (is_idle s.status ≡ false))
          → IsBounded (or_default o)
      found none h = default-IsBounded
      found (some s) h = (h s refl).0

  store-cases :
      (c : ConnectionId) (s : ConnectionState) (m : HashMap ConnectionId ConnectionState)
      (j : ConnectionId) (t : ConnectionState)
      → lookup j (store c s m) ≡ some t
      → ((s ≡ t) × ((is_idle s.status && length s.frame == 0) ≡ false)) ⊎ (lookup j m ≡ some t)
  unfolding store
  store-cases c s m j t e = ground (arith, lookup-remove c j m, lookup-insert c j s m)

  store-AreBounded :
      (c : ConnectionId) (s : ConnectionState) (m : HashMap ConnectionId ConnectionState)
      → IsBounded s
      → AreBounded m
      → AreBounded (store c s m)
  unfolding AreBounded
  store-AreBounded c s m hs h j t e = elim (store-cases c s m j t e) [
    | inl (x, y) ↦ (subst IsBounded x hs, ap (λ s. is_idle s.status) (sym x) ∙ busy s hs y)
    | inr x ↦ h j t x
  ]
    where
      busy :
          (s : ConnectionState)
          → IsBounded s
          → (is_idle s.status && length s.frame == 0) ≡ false
          → is_idle s.status ≡ false
      busy s h e = elim (Bool-cases (is_idle s.status)) [
        | inl x ↦ ground (arith, e, x, ap length (h.empty x))
        | inr x ↦ x
      ]

  -- When the bytes of a chunk are framed on a connection, the states that are kept for the connections
  -- stay bounded: each holds at most 512 hex characters, and none is idle.
  pub drive_fsm-AreBounded :
      (m : HashMap ConnectionId ConnectionState) (chunk : Bytes) (r : ResponseFn) (c : ConnectionId)
      → AreBounded m
      → AreBounded (drive_fsm m chunk r c lenient).1
  unfolding drive_fsm
  drive_fsm-AreBounded m chunk r c h =
      let s = or_default (lookup c m) in
      store-AreBounded c (on_bytes lenient chunk (started s)).state m
        (on_bytes-IsBounded chunk (started s) (or_default-IsBounded m c h)) h
