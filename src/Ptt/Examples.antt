-- ===== src/Ptt/Examples.antt =====
-- Push to talk at concrete values.
use o_walkie.Base.{
  ℕ, ◌≡◌, refl, pos, true, false, not, ◌&&◌, ◌||◌, List, [], ◌∷◌, is_empty, ◌==◌, arith,
}
use o_walkie.Audio.{find_pattern, resample_linear}
use o_walkie.Audio.Engine.{call_pattern}
use o_walkie.Tone.{repeated}
use o_walkie.Tone.Client.{generate_signal_pcm, client_tones, client_tone}
use o_walkie.Audio.Small.{small_audio, small_engine}
use o_walkie.Ptt.Frame.{Frame, Answers, closed, unavailable, end_ptt_tx}
use o_walkie.Ptt.Handlers.{on_ptt_down, on_call_signal_clicked}
use o_walkie.Ptt.Steps.{
  Event, ptt_down, ptt_up, next_posted, lock, unlock, decay, mode_chosen, handle, handle_all,
}
use o_walkie.Ptt.Steps.Orderly.{handle_all-IsOrderly}
use o_walkie.Ptt.Steps.Orderly.Presses.{IsOrderly, is_in}
use o_walkie.Ptt.Transmission.{
  on_ptt_down-transmitting, begin_transmits, decay_expired-unblocks, end_ptt_tx-closed,
  roger_frames, uplink_calls,
}
use o_walkie.Audio.Stream.Frames.{onto, at_engine_rate}
use o_walkie.Ptt.CallSignal.{on_call_signal_clicked-frames, call_frames, signal_calls}

abbrev willing : Answers
willing = record {
  device_opens = true;
  device_starts = true;
  lock_free = true;
  uplink_opens = true;
  now = 5;
  abort_asked = λ k. false;
}

abbrev first_frame : Frame small_audio
first_frame = record {
  engine = small_engine;
  relay_ready = true;
  relay_calls = [];
  tx_uplink_opened = false;
  server_ptt_locked = false;
  ptt_lock_display_sec = 0;
  busy_mode_enabled = false;
  rx_broadcast_active = false;
  burst_ticket = 0;
  burst_count = 0;
  burst_blocked = false;
  decay_timers = [];
  tx_countdown_ticket = 0;
  tx_countdowns = [];
  busy_ticket = 0;
  busy_countdowns = [];
  suppress_hold = false;
  ptt_toggle_mode = false;
  global_pressed = false;
  global_toggle_down = false;
  connected = true;
  user_wants_session = true;
  button_enabled = false;
  call_enabled = false;
  label = unavailable;
  status = "";
  posted = [];
}

abbrev talking : Frame small_audio
talking = record first_frame {
  engine = record small_engine { transmitting = true; capture_active = true; pump_running = true };
}

abbrev blocked : Frame small_audio
blocked = record first_frame {
  burst_ticket = 7;
  burst_count = 3;
  burst_blocked = true;
  decay_timers = 7 ∷ 6 ∷ [];
}

abbrev some_events : List Event
some_events =
    ptt_down willing
    ∷ ptt_up willing
    ∷ next_posted willing
    ∷ ptt_down willing
    ∷ lock willing (pos 5)
    ∷ ptt_down willing
    ∷ unlock
    ∷ mode_chosen willing true
    ∷ []

first_frame-IsOrderly : IsOrderly small_audio first_frame
first_frame-IsOrderly = record { facts = ((refl, (λ h. absurd (h refl))), (λ h. refl)) }

blocked-IsOrderly : IsOrderly small_audio blocked
blocked-IsOrderly = record { facts = ((refl, (λ h. refl)), (λ h. refl)) }

handle_all-IsOrderly_example :
    IsOrderly small_audio (handle_all small_audio some_events first_frame)
handle_all-IsOrderly_example =
    handle_all-IsOrderly small_audio some_events first_frame first_frame-IsOrderly

on_ptt_down-transmitting_example :
    (on_ptt_down small_audio willing first_frame).engine.transmitting
    ≡ (false || true && true && begin_transmits small_audio willing first_frame)
on_ptt_down-transmitting_example = on_ptt_down-transmitting small_audio willing first_frame

decay_expired-unblocks_example :
    (ticket : ℕ) × (is_in small_audio ticket blocked.decay_timers ≡ true)
    × ((handle small_audio (decay ticket) blocked).burst_blocked ≡ false)
    × ((handle small_audio (decay ticket) blocked).burst_count ≡ 0)
    × (blocked.relay_ready ≡ true
        → blocked.server_ptt_locked ≡ false
        → (handle small_audio (decay ticket) blocked).button_enabled ≡ true)
decay_expired-unblocks_example = decay_expired-unblocks small_audio blocked blocked-IsOrderly refl

end_ptt_tx-closed_example :
    (let after = end_ptt_tx small_audio willing talking in
      (after.engine.transmitting ≡ false)
      × (after.relay_calls
          ≡ closed ∷ uplink_calls false true (roger_frames small_audio willing talking) [])
      × (after.tx_uplink_opened ≡ false)
      × (after.burst_count ≡ 1))
end_ptt_tx-closed_example =
    end_ptt_tx-closed small_audio willing talking refl refl refl refl (omega arith)

-- An abort is requested before the second frame of a call signal, of an engine with frames of a
-- millisecond at the rate of the pattern.
abbrev aborting : Answers
aborting = record willing { abort_asked = λ k. k == 1 }

abbrev calling : Frame small_audio
calling = record first_frame { engine = record small_engine { sample_rate = 48000; packet_ms = 1 } }

call_has_samples :
    is_empty (at_engine_rate small_audio (call_pattern small_audio calling.engine) calling.engine)
    ≡ false
unfolding find_pattern generate_signal_pcm client_tones client_tone repeated resample_linear
call_has_samples = refl

on_call_signal_clicked-frames_example :
    (let (ok, fs) = call_frames small_audio aborting calling in
      let after = on_call_signal_clicked small_audio aborting calling in
      (after.tx_uplink_opened ≡ not ok)
      × (after.relay_calls ≡ signal_calls small_audio ok (onto fs []) []))
on_call_signal_clicked-frames_example =
    on_call_signal_clicked-frames small_audio aborting calling refl refl refl refl refl
      (omega arith) call_has_samples
