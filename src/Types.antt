-- ===== src/Types.antt =====
-- owalkie-core/include/owalkie/types.hpp: the data that the parts of the library exchange.
-- Text that the code walks is a list of bytes, text that it only compares or passes on a `String`.
-- An `int` that the code fills with values below zero is a ℤ, every other one a ℕ.
use Prim.Native.String.{String}
use o_walkie.Base.{ℕ, ℤ, pos, Bool, true, false, List, ◌≡◌, refl, ◌⊎◌, inl, inr}

-- enum class Result
pub data Result : Type 0 where
  ok invalid_arg already_connected not_connected not_ready protocol network internal : Result
  unsupported buffer_too_small queue_full no_event : Result

-- What a function returns that fills its out parameter only when it returns Result::Ok.
pub data Outcome {ℓ} (A : Type ℓ) : Type ℓ where
  success : A → Outcome A
  failure : Result → Outcome A

infixl 5 ◌>>=◌
abbrev pub ◌>>=◌ {ℓ κ} : {A : Type ℓ} {B : Type κ} → Outcome A → (A → Outcome B) → Outcome B
success a >>= f = f a
failure r >>= f = failure r

pub Outcome-cases {ℓ} :
    {A : Type ℓ} (o : Outcome A) → ((a : A) × (o ≡ success a)) ⊎ ((r : Result) × (o ≡ failure r))
Outcome-cases (success a) = inl (a, refl)
Outcome-cases (failure r) = inr (r, refl)

-- Inversion of a successful chain.
pub >>=-eq-success {ℓ κ} :
    {A : Type ℓ} {B : Type κ} (o : Outcome A) (f : A → Outcome B) (b : B)
    → (o >>= f) ≡ success b
    → (a : A) × (o ≡ success a) × (f a ≡ success b)
>>=-eq-success (success a) f b h = (a, refl, h)
>>=-eq-success (failure r) f b h = cc

-- enum class TxSubmitOp
pub data TxSubmitOp : Type 0 where
  tx_open tx_pcm tx_opus tx_voice_end tx_close tx_abort : TxSubmitOp

-- enum class EventType
pub data EventType : Type 0 where
  connecting transport_connected disconnected protocol_error welcomed : EventType
  rx_broadcast_start rx_broadcast_end local_tx_start local_tx_end : EventType
  ptt_locked ptt_unlocked tx_countdown_start tx_stop : EventType
  udp_transport_ready udp_transport_lost connection_failed connected connection_lost : EventType

pub record OpusConfig : Type 0 where
  pub bitrate : ℕ
  pub complexity : ℕ
  pub fec : Bool
  pub dtx : Bool
  pub application : String

pub record WelcomeConfig : Type 0 where
  pub session_id : ℕ
  pub protocol_version : ℤ
  pub sample_rate : ℕ
  pub packet_ms : ℕ
  pub opus : OpusConfig
  pub busy_mode : Bool
  pub transmit_timeout_sec : ℕ

pub record Event : Type 0 where
  pub type : EventType
  pub welcome : WelcomeConfig
  pub rx_busy_mode : Bool
  pub rx_end_delay_ms : ℤ
  pub ptt_display_sec : ℤ
  pub tx_stop_info : String
  pub protocol_error : String
  pub disconnect_code : ℤ
  pub disconnect_reason : String

pub record ConnectParams : Type 0 where
  pub host : List ℕ
  pub port : ℤ
  pub channel : String
  pub use_tls : Bool
  pub repeater_mode : Bool

-- enum class PowerProfile
pub data PowerProfile : Type 0 where
  foreground background active_tx : PowerProfile

pub record SessionState : Type 0 where
  pub connected : Bool
  pub udp_ready : Bool
  pub connection_lost : Bool
  pub receiving : Bool
  pub local_tx_active : Bool
  pub ptt_server_locked : Bool
  pub ptt_lock_display_sec : ℤ
  pub welcome : WelcomeConfig
  pub has_welcome : Bool

-- A byte, and each field of the header, is a number that the code keeps below 2 ^ 8 or 2 ^ 32.
pub record UdpAudioPacket : Type 0 where
  pub session_id : ℕ
  pub sequence : ℕ
  pub signal_strength : ℕ
  pub opus : List ℕ

-- kProtocolVersion
abbrev pub protocol_version : ℤ
protocol_version = pos 2

-- OpusConfig{}
abbrev pub default_opus : OpusConfig
default_opus = record {
  bitrate = 12000;
  complexity = 5;
  fec = true;
  dtx = false;
  application = "voip";
}

-- WelcomeConfig{}
abbrev pub default_welcome : WelcomeConfig
default_welcome = record {
  session_id = 0;
  protocol_version = protocol_version;
  sample_rate = 8000;
  packet_ms = 20;
  opus = default_opus;
  busy_mode = false;
  transmit_timeout_sec = 60;
}

-- Event{} with its type set
abbrev pub event_of : EventType → Event
event_of t = record {
  type = t;
  welcome = default_welcome;
  rx_busy_mode = false;
  rx_end_delay_ms = pos 0;
  ptt_display_sec = pos 0;
  tx_stop_info = "";
  protocol_error = "";
  disconnect_code = pos 0;
  disconnect_reason = "";
}

-- SessionState{}
abbrev pub default_state : SessionState
default_state = record {
  connected = false;
  udp_ready = false;
  connection_lost = false;
  receiving = false;
  local_tx_active = false;
  ptt_server_locked = false;
  ptt_lock_display_sec = pos 0;
  welcome = default_welcome;
  has_welcome = false;
}
