-- ===== src/Session/Invariant.antt =====
-- The local transmission as the callbacks see it: LocalTxStart and LocalTxEnd (session.cpp).
pub mod Quiet
pub mod Uplink
pub mod Commands
pub mod Teardown
pub mod Inbound
pub mod Reach
use o_walkie.Base.{◌≡◌, refl, sym, ap, ◌∙◌, Bool, true, false, List, [], ◌∷◌}
use mathlib.Core.Path.{subst}
use o_walkie.Types.{EventType, Event}
use o_walkie.Session.State.{Env, State}

abbrev tx_after : EventType → Bool → Bool
tx_after EventType.local_tx_start b = true
tx_after EventType.local_tx_end b = false
tx_after _ b = b

-- Whether the latest of the two events, of a history with the newest first, is a start.
abbrev pub last_tx : List Event → Bool
last_tx [] = false
last_tx (e ∷ es) = tx_after e.type (last_tx es)

abbrev Fits : EventType → Bool → Type 0
Fits EventType.local_tx_start b = b ≡ false
Fits EventType.local_tx_end b = b ≡ true
Fits _ b = Unit {0}

-- A start follows an end or nothing, and an end follows a start.
abbrev pub Alternates : List Event → Type 0
Alternates [] = Unit {0}
Alternates (e ∷ es) = Fits e.type (last_tx es) × Alternates es

abbrev pub is_neutral : EventType → Bool
is_neutral EventType.local_tx_start = false
is_neutral EventType.local_tx_end = false
is_neutral _ = true

module _ (env : Env) where
  -- The state agrees with the events that the callback got, and the uplink is open only while a local
  -- transmission is shown.
  pub record IsCoherent (s : State env) : Type 0 where
    pub active : s.session_state.local_tx_active ≡ last_tx s.events
    pub alternating : Alternates s.events
    pub shown : s.client_tx_open ≡ true → s.session_state.local_tx_active ≡ true

  -- A step that neither opens the uplink nor closes it.
  pub record Neutral (s t : State env) : Type 0 where
    pub same_active : t.session_state.local_tx_active ≡ s.session_state.local_tx_active
    pub same_last : last_tx t.events ≡ last_tx s.events
    pub still : Alternates s.events → Alternates t.events
    pub same_open : t.client_tx_open ≡ s.client_tx_open

  pub Neutral-refl : (s : State env) → Neutral s s
  Neutral-refl s = record { same_active = refl; same_last = refl; still = λ h. h; same_open = refl }

  pub Neutral-trans : {s t u : State env} → Neutral s t → Neutral t u → Neutral s u
  Neutral-trans a b = record {
    same_active = b.same_active ∙ a.same_active;
    same_last = b.same_last ∙ a.same_last;
    still = λ h. b.still (a.still h);
    same_open = b.same_open ∙ a.same_open;
  }

  pub Neutral-IsCoherent : {s t : State env} → Neutral s t → IsCoherent s → IsCoherent t
  Neutral-IsCoherent n c = record {
    active = cc (n.same_active, n.same_last, c.active);
    alternating = n.still c.alternating;
    shown = λ h. n.same_active ∙ c.shown (sym n.same_open ∙ h);
  }

  pub quiet :
      (s t : State env)
      → t.session_state ≡ s.session_state
      → t.events ≡ s.events
      → t.client_tx_open ≡ s.client_tx_open
      → Neutral s t
  quiet s t p q r = record {
    same_active = ap (λ x. x.local_tx_active) p;
    same_last = ap last_tx q;
    still = subst Alternates (sym q);
    same_open = r;
  }
