-- ===== src/Interface/Managed/Delivery.antt =====
-- Which calls of the client's callbacks the bridges of c_api.cpp make.
use o_walkie.Base.{
  ℕ, ℤ, ◌<◌, ◌≡◌, inl, inr, refl, ap, ◌∙◌, Bool, true, false, List, [], ◌∷◌, some, ◌==◌,
  if◌then◌else◌, if-holds, Bool-cases, Assoc, lookup, without, arith,
}
use o_walkie.Types.{EventType, Event}
use o_walkie.Session.State.{Env}
use o_walkie.Manager.{disconnect}
use o_walkie.Interface.{EventC, is_visible, fill_managed_event}
use o_walkie.Interface.Managed.{
  Bridge, key_of, is_last, Library, on_session_event, on_rx_pcm, arrive, disconnect_session,
}

abbrev pub has_address : ℕ → Assoc Bridge → Bool
has_address address [] = false
has_address address ((id, b) ∷ rest) =
    if b.address == address then true else has_address address rest

-- No key is 0, no bridge stands under two keys, and the addresses lie below a bound.
abbrev pub Unique : ℕ → Assoc Bridge → Type 0
Unique n [] = Unit {0}
Unique n ((id, b) ∷ rest) =
    (has_address b.address rest ≡ false) × (0 < id) × (b.address < n) × Unique n rest

has_address-lookup :
    (id : ℕ) (b : Bridge) (l : Assoc Bridge) → lookup id l ≡ some b → has_address b.address l ≡ true
has_address-lookup id b [] h = cc
has_address-lookup id b ((j, v) ∷ l) h = ground (arith, h, has_address-lookup id b l)

pub key_of-lookup :
    (n id : ℕ) (b : Bridge) (l : Assoc Bridge)
    → Unique n l
    → lookup id l ≡ some b
    → (key_of b.address l ≡ id) × (0 < id)
key_of-lookup n id b [] u h = cc
key_of-lookup n id b ((j, v) ∷ l) u h =
    ground (arith, h, key_of-lookup n id b l u.3, has_address-lookup id b l)

pub key_of_absent : (a : ℕ) (l : Assoc Bridge) → has_address a l ≡ false → key_of a l ≡ 0
key_of_absent a [] h = refl
key_of_absent a ((j, v) ∷ l) h = ground (arith, h, key_of_absent a l)

has_address-without :
    (a k : ℕ) (l : Assoc Bridge) → has_address a l ≡ false → has_address a (without k l) ≡ false
has_address-without a k [] h = h
has_address-without a k ((j, v) ∷ l) h = ground (arith, h, has_address-without a k l)

pub has_address-without_self :
    (n id : ℕ) (b : Bridge) (l : Assoc Bridge)
    → Unique n l
    → lookup id l ≡ some b
    → has_address b.address (without id l) ≡ false
has_address-without_self n id b [] u h = refl
has_address-without_self n id b ((j, v) ∷ l) u h = ground (
  arith,
  h,
  has_address-without_self n id b l u.3,
  has_address-lookup id b l,
  has_address-without v.address id l u.0,
)

pub Unique-without : (n k : ℕ) (l : Assoc Bridge) → Unique n l → Unique n (without k l)
Unique-without n k [] u = u
Unique-without n k ((j, v) ∷ l) u =
    ground (arith, Unique-without n k l u.3, has_address-without v.address k l u.0)

-- The events that a client hears: the visible ones, up to the first that is a last one.
abbrev pub visible_of : List Event → List Event
visible_of [] = []
visible_of (e ∷ es) = if is_visible e.type then e ∷ visible_of es else visible_of es

-- The events that end a session for its client.
abbrev pub ends_session : EventType → Bool
ends_session EventType.disconnected = true
ends_session EventType.connection_failed = true
ends_session EventType.protocol_error = true
ends_session _ = false

abbrev pub until_last : List Event → List Event
until_last [] = []
until_last (e ∷ es) = if ends_session e.type then e ∷ [] else e ∷ until_last es

-- A record of calls, newest first, after the calls for some events.
abbrev pub recorded : ℕ → List Event → List (ℕ × EventC) → List (ℕ × EventC)
recorded id [] calls = calls
recorded id (e ∷ es) calls = recorded id es ((id, fill_managed_event e) ∷ calls)

module _ (env : Env) where
  -- The events of one session, one after the other.
  pub deliver : Bridge → List Event → Library env → Library env
  deliver b [] lib = lib
  deliver b (e ∷ es) lib = deliver b es (on_session_event env b e lib)

  silent_event :
      (b : Bridge) (e : Event) (lib : Library env)
      → key_of b.address lib.bridges ≡ 0
      → on_session_event env b e lib ≡ lib
  unfolding on_session_event
  silent_event b e lib h = rw (h, on_session_event) (if-holds (λ t. t ≡ lib) _ lib lib refl refl)

  deliver_nothing :
      (b : Bridge) (es : List Event) (lib : Library env)
      → key_of b.address lib.bridges ≡ 0
      → deliver b es lib ≡ lib
  unfolding deliver
  deliver_nothing b [] lib h = refl
  deliver_nothing b (e ∷ es) lib h = rw (silent_event b e lib h) (deliver_nothing b es lib h)

  silent_sound :
      (b : Bridge) (pcm : List ℤ) (lib : Library env)
      → key_of b.address lib.bridges ≡ 0
      → on_rx_pcm env b pcm lib ≡ lib
  unfolding on_rx_pcm
  silent_sound b pcm lib h = rw (h, on_rx_pcm) (if-holds (λ t. t ≡ lib) _ lib lib refl refl)

  hidden_event :
      (b : Bridge) (e : Event) (lib : Library env)
      → b.cbs.on_session_event ≡ true
      → is_visible e.type ≡ false
      → on_session_event env b e lib ≡ lib
  unfolding on_session_event
  hidden_event b e lib c v = rw (c, v, on_session_event) refl

  told : ℕ → Event → Library env → Library env
  told id e lib = record lib { calls = (id, fill_managed_event e) ∷ lib.calls }

  heard_event :
      (id : ℕ) (b : Bridge) (e : Event) (lib : Library env)
      → key_of b.address lib.bridges ≡ id
      → 0 < id
      → b.cbs.on_session_event ≡ true
      → is_visible e.type ≡ true
      → on_session_event env b e lib ≡ (
          if is_last e.type
          then record (told id e lib) { bridges = without id lib.bridges }
          else told id e lib)
  unfolding on_session_event told
  heard_event id b e lib k p c v =
      let positive : (id == 0) ≡ false = ground (arith, p) in
      rw (c, v, k, positive, on_session_event) refl

  -- Of the events of a session whose bridge is in the table, the client's callback gets the visible
  -- ones in their order with the session's number, up to the first failed connection, disconnection
  -- or protocol error, and none after it.
  pub deliver-until_last :
      (n id : ℕ) (b : Bridge) (es : List Event) (lib : Library env)
      → Unique n lib.bridges
      → lookup id lib.bridges ≡ some b
      → b.cbs.on_session_event ≡ true
      → (deliver b es lib).calls ≡ recorded id (until_last (visible_of es)) lib.calls
  unfolding deliver told
  deliver-until_last n id b [] lib u h c = refl
  deliver-until_last n id b (e ∷ es) lib u h c =
      let (k, p) = key_of-lookup n id b lib.bridges u h in
      elim (Bool-cases (is_visible e.type)) [
        | inr v ↦
            rw (hidden_event b e lib c v, deliver) (rw v (deliver-until_last n id b es lib u h c))
        | inl v ↦
            rw (heard_event id b e lib k p c v, v, deliver)
              (elim (Bool-cases (is_last e.type)) [
                | inl l ↦ rw l (
                    ap (λ (t : Library env). t.calls)
                      (deliver_nothing b es _ (
                        key_of_absent b.address (without id lib.bridges)
                          (has_address-without_self n id b lib.bridges u h))))
                | inr l ↦ rw l (deliver-until_last n id b es (told id e lib) u h c)
              ])
      ]

  -- The events of the session of a bridge.
  abbrev pub from : Bridge → List Event → List (Bridge × Event)
  from b [] = []
  from b (e ∷ es) = (b, e) ∷ from b es

  arrive_nothing :
      (b : Bridge) (es : List Event) (lib : Library env)
      → key_of b.address lib.bridges ≡ 0
      → arrive env (from b es) lib ≡ lib
  unfolding arrive
  arrive_nothing b [] lib h = refl
  arrive_nothing b (e ∷ es) lib h =
      ap (arrive env (from b es)) (silent_event b e lib h) ∙ arrive_nothing b es lib h

  -- Of the events that a session emits while owalkie_disconnect of its number disconnects it, its
  -- disconnection among them, and of its events and sounds after that, none reaches the client: the
  -- call records no call of a callback, and neither does what comes after it.
  pub disconnect_session_silent :
      (n id : ℕ) (b : Bridge) (during after : List Event) (attempts : List (List Bool))
      (pcm : List ℤ) (lib : Library env)
      → Unique n lib.bridges
      → lookup id lib.bridges ≡ some b
      → let t = disconnect_session env (from b during) attempts id lib in
        (t.calls ≡ lib.calls)
        × (t.sounds ≡ lib.sounds)
        × (t.manager ≡ disconnect env id attempts lib.manager)
        × (deliver b after t ≡ t)
        × (on_rx_pcm env b pcm t ≡ t)
  unfolding disconnect_session
  disconnect_session_silent n id b during after attempts pcm lib u h =
      let (k, p) = key_of-lookup n id b lib.bridges u h in
      let gone =
        key_of_absent b.address (without id lib.bridges)
          (has_address-without_self n id b lib.bridges u h) in
      let positive : (id == 0) ≡ false = ground (arith, p) in
      let erased = record lib { bridges = without id lib.bridges } in
      rw (positive, arrive_nothing b during erased gone, disconnect_session)
        (refl, refl, refl, deliver_nothing b after _ gone, silent_sound b pcm _ gone)
