-- ===== src/Ptt/Frame.antt =====
-- The state of push to talk in the main window, and the functions of MainFrame.cpp that begin and end a
-- transmission, with the guard against bursts of releases.
use Prim.Native.String.{String}
use o_walkie.Base.{
  ℕ, ℤ, ◌+◌, ◌-◌, Bool, true, false, not, ◌&&◌, ◌||◌, List, [], ◌∷◌, ◌++◌, length, take, leb, ltb,
  if◌then◌else◌,
}
use o_walkie.Audio.{AudioLib}
use o_walkie.Audio.Engine.{Engine, start_transmit, stop_transmit}
use o_walkie.Audio.Stream.{stream_roger_signal}
use o_walkie.Audio.Cues.{play_ptt_press}

-- The calls of the relay client, and those that CallAfter puts off.
pub data RelayCall : Type 0 where
  opened : RelayCall
  fed : List ℤ → RelayCall
  closed : RelayCall
  aborted : RelayCall

pub data Posted : Type 0 where
  begin_tx : Posted
  end_tx : Posted
  toggle_tx : Posted
  sync_burst : Posted
  show_status : String → Posted

pub data Label : Type 0 where
  unavailable : Label
  available_in : ℕ → Label
  stop_talking : Label
  start_talking : Label
  hold_to_talk : Label

-- kPttReleaseBurstBlockThreshold
abbrev pub burst_threshold : ℕ
burst_threshold = 3

-- The answers of the devices, the relay client, the clock and the other threads to one call.
pub record Answers : Type 0 where
  pub device_opens : Bool
  pub device_starts : Bool
  pub lock_free : Bool
  pub uplink_opens : Bool
  pub now : ℕ
  pub abort_asked : ℕ → Bool

-- The frame callback of the engine, which opens the uplink with its first frame: the calls of the
-- relay client, and whether the uplink is open
abbrev pub feed : Bool → List ℤ → List RelayCall × Bool → List RelayCall × Bool
feed opens pcm (calls, true) = (fed pcm ∷ calls, true)
feed opens pcm (calls, false) = if opens then (fed pcm ∷ opened ∷ calls, true) else (calls, false)

-- The calls of that callback for frames, the newest one first
unfoldable pub feed_all : Bool → List (List ℤ) → List RelayCall × Bool → List RelayCall × Bool
feed_all opens [] r = r
feed_all opens (pcm ∷ frames) r = feed opens pcm (feed_all opens frames r)

module _ (lib : AudioLib) where
  -- Decay timers, transmit countdowns and busy countdowns are the tickets of their threads.
  pub record Frame : Type 0 where
    pub engine : Engine lib
    pub relay_ready : Bool
    pub relay_calls : List RelayCall
    pub tx_uplink_opened : Bool
    pub server_ptt_locked : Bool
    pub ptt_lock_display_sec : ℕ
    pub busy_mode_enabled : Bool
    pub rx_broadcast_active : Bool
    pub burst_ticket : ℕ
    pub burst_count : ℕ
    pub burst_blocked : Bool
    pub decay_timers : List ℕ
    pub tx_countdown_ticket : ℕ
    pub tx_countdowns : List ℕ
    pub busy_ticket : ℕ
    pub busy_countdowns : List ℕ
    pub suppress_hold : Bool
    pub ptt_toggle_mode : Bool
    pub global_pressed : Bool
    pub global_toggle_down : Bool
    pub connected : Bool
    pub user_wants_session : Bool
    pub button_enabled : Bool
    pub call_enabled : Bool
    pub label : Label
    pub status : String
    pub posted : List Posted

  -- The engine after a function of it, with the calls of its frame callback
  unfoldable pub with_engine : Bool → Engine lib → Frame → Frame
  with_engine opens e f =
      let fresh = take (length e.frames - length (f.engine).frames) e.frames in
      let (calls, up) = feed_all opens fresh (f.relay_calls, f.tx_uplink_opened) in
      record f { engine = e; relay_calls = calls; tx_uplink_opened = up }

  abbrev is_blocked_by_server : Frame → Bool
  is_blocked_by_server f =
      f.relay_ready
      && f.server_ptt_locked
      && not (f.engine).transmitting
      && not (f.engine).signal_streaming

  abbrev allow_ptt : Frame → Bool
  allow_ptt f = f.relay_ready && not f.burst_blocked && not (is_blocked_by_server f)

  abbrev label_of : Frame → Label
  label_of f =
      if not (allow_ptt f)
      then (if is_blocked_by_server f && ltb 0 f.ptt_lock_display_sec
          then available_in f.ptt_lock_display_sec
          else unavailable)
      else if f.ptt_toggle_mode
      then (if (f.engine).transmitting then stop_talking else start_talking)
      else hold_to_talk

  -- void MainFrame::RefreshPttUi(), without the task bar
  unfoldable pub refresh : Frame → Frame
  refresh f = record f {
    button_enabled = allow_ptt f;
    label = label_of f;
    call_enabled =
        f.relay_ready
        && not f.server_ptt_locked
        && not (f.engine).transmitting
        && not (f.engine).signal_streaming;
  }

  -- void MainFrame::ResetPttReleaseBurstGuard()
  abbrev pub reset_burst : Frame → Frame
  reset_burst f = record f {
    burst_ticket = f.burst_ticket + 1;
    burst_count = 0;
    burst_blocked = false;
  }

  abbrev pub call_after : Posted → Frame → Frame
  call_after p f = record f { posted = f.posted ++ p ∷ [] }

  -- ArmPttReleaseBurstDecay with a ticket that is new
  abbrev arm : Frame → Frame
  arm f = record f {
    burst_ticket = f.burst_ticket + 1;
    decay_timers = (f.burst_ticket + 1) ∷ f.decay_timers;
  }

  -- void MainFrame::ExtendPttReleaseBurstDecayTimer()
  abbrev pub extend_burst : Frame → Frame
  extend_burst f = arm f

  -- void MainFrame::RecordPttReleaseBurst()
  abbrev pub record_burst : Frame → Frame
  record_burst f = call_after sync_burst (record (arm f) {
    burst_count = f.burst_count + 1;
    burst_blocked = f.burst_blocked || leb burst_threshold (f.burst_count + 1);
  })

  -- void MainFrame::StopTxCountdownFromServer()
  abbrev pub stop_tx_countdown : Frame → Frame
  stop_tx_countdown f = record f { tx_countdown_ticket = f.tx_countdown_ticket + 1 }

  abbrev pub paused : String
  paused = "PTT paused — too many quick releases"

  abbrev tx_status : Frame → String
  tx_status f = if (f.engine).collision_active then "parallel_tx_collision" else "Transmitting"

  -- void MainFrame::BeginPttTx()
  unfoldable pub begin_ptt_tx : Answers → Frame → Frame
  unfolding refresh
  begin_ptt_tx a f =
      let pressed = play_ptt_press lib f.engine in
      let (ok, e) = start_transmit lib a.device_opens a.device_starts pressed in
      let tried = record f { tx_uplink_opened = false; engine = e } in
      if not f.relay_ready || (f.engine).signal_streaming || (f.engine).transmitting
      then f
      else if f.server_ptt_locked
      then refresh f
      else if f.burst_blocked
      then refresh (call_after (show_status paused) (extend_burst f))
      else if not ok
      then refresh tried
      else refresh (record (stop_tx_countdown tried) { status = tx_status tried })

  -- The end of a transmission, which the roger signal follows
  unfoldable pub finish_ptt_tx : Answers → Frame → Frame
  unfolding with_engine
  finish_ptt_tx a f =
      let counted = record_burst (stop_tx_countdown f) in
      let stopped = stop_transmit lib a.now a.lock_free counted.engine in
      let streamed = (stream_roger_signal lib a.now a.abort_asked stopped).1 in
      let said = with_engine a.uplink_opens streamed (record counted { engine = stopped }) in
      record said {
        relay_calls = closed ∷ said.relay_calls;
        tx_uplink_opened = false;
        status = "Connected";
      }

  -- void MainFrame::EndPttTx()
  unfoldable pub end_ptt_tx : Answers → Frame → Frame
  unfolding refresh finish_ptt_tx
  end_ptt_tx a f =
      if not f.relay_ready || not (f.engine).transmitting
      then refresh f
      else refresh (finish_ptt_tx a f)

  -- void MainFrame::TogglePttTx()
  unfoldable pub toggle_ptt_tx : Answers → Frame → Frame
  unfolding begin_ptt_tx end_ptt_tx
  toggle_ptt_tx a f =
      if not f.relay_ready
      then f
      else if (f.engine).transmitting
      then end_ptt_tx a f
      else begin_ptt_tx a f
