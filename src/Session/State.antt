-- ===== src/Session/State.antt =====
-- struct Session::Impl of owalkie-core/src/session.cpp, and what surrounds it.
-- Threads, mutexes and condition variables are left out: a step of one thread is one function.
use Prim.Native.String.{String}
use o_walkie.Base.{ℕ, ℤ, ◌+◌, Bool, true, false, List, [], Option}
use o_walkie.Types.{
  TxSubmitOp, WelcomeConfig, Event, PowerProfile, foreground, SessionState, default_welcome,
  default_state,
}
use o_walkie.LinkSignal.{Registry, new_registry}
use o_walkie.Messages.Json.{JsonLib}
use o_walkie.Codec.Opus.{OpusLib}
use o_walkie.Codec.{Codec, new_codec}

-- What the session gets from outside: the two libraries, the readings of the steady clock in
-- nanoseconds in their order, whether another thread halts the transport while a thread sleeps for
-- the k-th time, and the local port of the k-th UDP socket, or none where making it throws.
pub record Env : Type 1 where
  pub json : JsonLib
  pub opus : OpusLib
  pub clock : ℕ → ℕ
  pub halts : ℕ → Bool
  pub bind : ℕ → Option ℤ

abbrev pub ns_per_sec : ℕ
ns_per_sec = 1000000000

abbrev pub ns_per_ms : ℕ
ns_per_ms = 1000000

-- std::optional<AsioUdp::socket>, bound to a local port until it is closed
pub data UdpSocket : Type 0 where
  absent : UdpSocket
  bound : ℤ → UdpSocket
  shut : UdpSocket

-- struct TxQueueItem
pub record TxQueueItem : Type 0 where
  pub op : TxSubmitOp
  pub pcm : List ℤ
  pub opus_bytes : List ℕ

-- The fields, which of the two receiving callbacks are set, and what the session has done: the audio
-- and the events emitted, the datagrams handed to the socket and the texts handed to
-- the WebSocket, each newest first, and how often it read the clock, came to a point at which
-- another thread may halt the transport, and began to make a socket. Times
-- are int64_t nanoseconds, which do not overflow within 292 years. `seq` is the bit pattern of the
-- atomic int, `next_pace_at_ns` a variable of the TX worker, and `teardown_pending` says that the
-- teardown thread has its work before it.
pub record Impl (Encoder Decoder : Type 0) : Type 0 where
  pub session_state : SessionState
  pub ws_exists : Bool
  pub ws_is_open : Bool
  pub udp_socket : UdpSocket
  pub ws_outbound_queue : List String
  pub ws_write_in_progress : Bool
  pub udp_reset_requested : Bool
  pub udp_reset_grace_until_ns : ℕ
  pub disconnect_event_emitted : Bool
  pub disconnect_started : Bool
  pub transport_fully_stopped : Bool
  pub teardown_pending : Bool
  pub power_profile : PowerProfile
  pub udp_recovery_until_ns : ℕ
  pub pending_network_recreate : Bool
  pub last_network_recovery_at_ns : ℕ
  pub client_tx_open : Bool
  pub connected : Bool
  pub stop_requested : Bool
  pub seq : ℕ
  pub welcome : WelcomeConfig
  pub channel : String
  pub repeater_mode : Bool
  pub opus : Codec Encoder Decoder
  pub tx_pcm_buffer : List ℤ
  pub tx_queue : List TxQueueItem
  pub tx_worker_stop : Bool
  pub tx_worker_running : Bool
  pub tx_open_at_ns : ℕ
  pub next_pace_at_ns : ℕ
  pub tx_last_activity_ns : ℕ
  pub last_inbound_ns : ℕ
  pub last_udp_keepalive_sent_ns : ℕ
  pub last_udp_keepalive_pending_since_ns : ℕ
  pub last_ws_heartbeat_sent_ns : ℕ
  pub connection_lost_signaled : Bool
  pub link_registry : Registry
  pub has_rx_opus : Bool
  pub has_rx_pcm : Bool
  pub rx_opus : List (List ℕ)
  pub rx_pcm : List (List ℤ)
  pub events : List Event
  pub datagrams : List (List ℕ)
  pub ws_written : List String
  pub clock_reads : ℕ
  pub sleeps : ℕ
  pub binds : ℕ

module _ (env : Env) where
  abbrev pub State : Type 0
  State = Impl env.opus.Encoder env.opus.Decoder

  -- A session that is constructed and not connected.
  abbrev pub new_state : State
  new_state = record {
    session_state = default_state;
    ws_exists = false;
    ws_is_open = false;
    udp_socket = absent;
    ws_outbound_queue = [];
    ws_write_in_progress = false;
    udp_reset_requested = false;
    udp_reset_grace_until_ns = 0;
    disconnect_event_emitted = false;
    disconnect_started = false;
    transport_fully_stopped = true;
    teardown_pending = false;
    power_profile = foreground;
    udp_recovery_until_ns = 0;
    pending_network_recreate = false;
    last_network_recovery_at_ns = 0;
    client_tx_open = false;
    connected = false;
    stop_requested = false;
    seq = 0;
    welcome = default_welcome;
    channel = "";
    repeater_mode = false;
    opus = new_codec env.opus;
    tx_pcm_buffer = [];
    tx_queue = [];
    tx_worker_stop = false;
    tx_worker_running = false;
    tx_open_at_ns = 0;
    next_pace_at_ns = 0;
    tx_last_activity_ns = 0;
    last_inbound_ns = 0;
    last_udp_keepalive_sent_ns = 0;
    last_udp_keepalive_pending_since_ns = 0;
    last_ws_heartbeat_sent_ns = 0;
    connection_lost_signaled = false;
    link_registry = new_registry;
    has_rx_opus = false;
    has_rx_pcm = false;
    rx_opus = [];
    rx_pcm = [];
    events = [];
    datagrams = [];
    ws_written = [];
    clock_reads = 0;
    sleeps = 0;
    binds = 0;
  }

  -- int64_t nowNs()
  abbrev pub now_ns : State → ℕ × State
  now_ns s = (env.clock s.clock_reads, record s { clock_reads = s.clock_reads + 1 })
