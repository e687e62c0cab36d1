-- ===== src/Ptt/Transmission.antt =====
-- When a transmission begins and how it ends, and how the guard against bursts of releases lets go
-- (MainFrame.cpp).
use o_walkie.Base.{
  ℕ, ℤ, ◌+◌, ◌≡◌, ◌≢◌, refl, ap, sym, ◌∙◌, Bool, true, false, not, ◌&&◌, ◌||◌, List, [], ◌∷◌,
  length, take, if-holds, if-cases, if-false, or_false, ◌-◌, arith,
}
use o_walkie.Audio.{AudioLib}
use o_walkie.Audio.Engine.{
  Engine, frame_samples, roger_pattern, start_transmit, stop_transmit, poll,
}
use o_walkie.Audio.Stream.Frames.{
  onto, until_asked, take-onto, at_engine_rate, stream_roger_signal-frames,
}
use o_walkie.Session.Transmit.Cut.{frames_of}
use o_walkie.Audio.Cues.{play_ptt_press}
use o_walkie.Ptt.Frame.{
  Frame, Answers, RelayCall, opened, fed, closed, feed, feed_all, with_engine, refresh,
  begin_ptt_tx, finish_ptt_tx, end_ptt_tx,
}
use o_walkie.Ptt.Handlers.{decay_expired, on_ptt_down}
use o_walkie.Ptt.Steps.{decay, handle}
use o_walkie.Ptt.Steps.Orderly.Presses.{is_in, IsOrderly}

begins :
    (ready streaming on locked blocked capturing context opens starts t : Bool)
    → (on ≡ false → t ≡ (not capturing && not streaming && context && opens && starts))
    → (not ready || streaming || on) ≡ false
    → locked ≡ false
    → blocked ≡ false
    → t ≡ (
        on
        || ready
          && not locked
          && not blocked
          && not streaming
          && not capturing
          && context
          && opens
          && starts)
begins ready streaming on locked blocked capturing context opens starts t d h k l =
    ground (arith, h, k, l)

-- What the relay client gets of frames, newest first: all of them over an open uplink; over a closed
-- one they open it first, or none gets through if it does not open.
abbrev pub fed_frames : List (List ℤ) → List RelayCall → List RelayCall
fed_frames [] calls = calls
fed_frames (pcm ∷ frames) calls = fed pcm ∷ fed_frames frames calls

abbrev pub uplink_calls : Bool → Bool → List (List ℤ) → List RelayCall → List RelayCall
uplink_calls true opens frames calls = fed_frames frames calls
uplink_calls false true [] calls = calls
uplink_calls false true (pcm ∷ frames) calls = fed_frames (pcm ∷ frames) (opened ∷ calls)
uplink_calls false false frames calls = calls

pub feed_all-open :
    (opens : Bool) (frames : List (List ℤ)) (calls : List RelayCall)
    → feed_all opens frames (calls, true) ≡ (fed_frames frames calls, true)
unfolding feed_all
feed_all-open opens [] calls = refl
feed_all-open opens (pcm ∷ frames) calls = ap (feed opens pcm) (feed_all-open opens frames calls)

feed_all-opening :
    (pcm : List ℤ) (frames : List (List ℤ)) (calls : List RelayCall)
    → feed_all true (pcm ∷ frames) (calls, false)
      ≡ (fed_frames (pcm ∷ frames) (opened ∷ calls), true)
unfolding feed_all
feed_all-opening pcm [] calls = refl
feed_all-opening pcm (x ∷ frames) calls = ap (feed true pcm) (feed_all-opening x frames calls)

feed_all-refused :
    (frames : List (List ℤ)) (calls : List RelayCall)
    → feed_all false frames (calls, false) ≡ (calls, false)
unfolding feed_all
feed_all-refused [] calls = refl
feed_all-refused (pcm ∷ frames) calls = ap (feed false pcm) (feed_all-refused frames calls)

pub feed_all_lem :
    (up opens : Bool) (frames : List (List ℤ)) (calls : List RelayCall)
    → (feed_all opens frames (calls, up)).0 ≡ uplink_calls up opens frames calls
unfolding feed_all
feed_all_lem true opens frames calls = ap (λ p. p.0) (feed_all-open opens frames calls)
feed_all_lem false true [] calls = refl
feed_all_lem false true (pcm ∷ frames) calls = ap (λ p. p.0) (feed_all-opening pcm frames calls)
feed_all_lem false false frames calls = ap (λ p. p.0) (feed_all-refused frames calls)

module _ (lib : AudioLib) where
  start_transmit-transmitting :
      (opens starts : Bool) (e : Engine lib)
      → e.transmitting ≡ false
      → (start_transmit lib opens starts e).1.transmitting
        ≡ (not e.capture_active && not e.signal_streaming && e.context_ready && opens && starts)
  unfolding start_transmit
  start_transmit-transmitting opens starts e h = ground (arith, h)

  abbrev pub begin_transmits : Answers → Frame lib → Bool
  begin_transmits a f =
      (f.engine).transmitting
      || f.relay_ready
        && not f.server_ptt_locked
        && not f.burst_blocked
        && not (f.engine).signal_streaming
        && not (f.engine).capture_active
        && (f.engine).context_ready
        && a.device_opens
        && a.device_starts

  begin_ptt_tx-transmitting :
      (a : Answers) (f : Frame lib)
      → (begin_ptt_tx lib a f).engine.transmitting ≡ begin_transmits a f
  unfolding begin_ptt_tx refresh start_transmit play_ptt_press
  begin_ptt_tx-transmitting a f =
      let pressed = play_ptt_press lib f.engine in
      let e = start_transmit lib a.device_opens a.device_starts pressed in
      let begun =
        begins f.relay_ready (f.engine).signal_streaming (f.engine).transmitting f.server_ptt_locked
          f.burst_blocked (f.engine).capture_active (f.engine).context_ready a.device_opens
          a.device_starts e.1.transmitting
          (start_transmit-transmitting a.device_opens a.device_starts pressed) in
      if-cases (λ (g : Frame lib). g.engine.transmitting ≡ begin_transmits a f)
        (not f.relay_ready || (f.engine).signal_streaming || (f.engine).transmitting) f _
        (λ h. ground (arith, h))
        (λ h.
          if-cases (λ (g : Frame lib). g.engine.transmitting ≡ begin_transmits a f)
            f.server_ptt_locked _ _ (λ k. ground (arith, h, k))
            (λ k.
              if-cases (λ (g : Frame lib). g.engine.transmitting ≡ begin_transmits a f)
                f.burst_blocked _ _ (λ l. ground (arith, h, k, l))
                (λ l.
                  if-holds (λ (g : Frame lib). g.engine.transmitting ≡ begin_transmits a f)
                    (not e.0) _ _ (begun h k l) (begun h k l))))

  -- Pressing the button with the mouse makes the engine transmit exactly if it does already, or if
  -- the button is to be held and no release is awaited, the relay is ready, the server does not hold
  -- the lock, no burst of releases blocks the button, the engine is idle with a context, and the
  -- device opens and starts.
  pub on_ptt_down-transmitting :
      (a : Answers) (f : Frame lib)
      → (on_ptt_down lib a f).engine.transmitting ≡ (
          (f.engine).transmitting
          || not f.ptt_toggle_mode && not f.suppress_hold && begin_transmits a f)
  unfolding on_ptt_down
  on_ptt_down-transmitting a f =
      let toggle = f.ptt_toggle_mode in
      let t = (f.engine).transmitting in
      if-cases
        (λ (g : Frame lib).
          g.engine.transmitting ≡ (t || not toggle && not f.suppress_hold && begin_transmits a f))
        (toggle || f.suppress_hold) f _ (λ h. ground (arith, h))
        (λ h. begin_ptt_tx-transmitting a f ∙ ground (arith, h))

  -- While a burst of releases blocks the button, a timer runs whose end lets go of it: the count of
  -- releases is 0 then, and the button works if the relay is ready and the server does not hold the
  -- lock.
  pub decay_expired-unblocks :
      (f : Frame lib)
      → IsOrderly lib f
      → f.burst_blocked ≡ true
      → (ticket : ℕ) × (is_in lib ticket f.decay_timers ≡ true)
        × ((handle lib (decay ticket) f).burst_blocked ≡ false)
        × ((handle lib (decay ticket) f).burst_count ≡ 0)
        × (f.relay_ready ≡ true
            → f.server_ptt_locked ≡ false
            → (handle lib (decay ticket) f).button_enabled ≡ true)
  unfolding handle decay_expired refresh
  decay_expired-unblocks f o h =
      let x = o.facts in
      let counted : f.burst_count ≢ 0 = λ e. absurd (ground (arith, h, x.0.0, e)) in
      (f.burst_ticket, x.0.1 counted, ground arith, ground arith, (λ r l. ground (arith, r, l)))

  -- The frames of the roger signal before an abort, the newest one first.
  abbrev pub roger_frames : Answers → Frame lib → List (List ℤ)
  roger_frames a f =
      let pcm = at_engine_rate lib (roger_pattern lib f.engine) f.engine in
      onto (until_asked a.abort_asked 0 (frames_of (frame_samples lib f.engine) pcm)).1 []

  -- What stopping an engine leaves for the signal after it.
  abbrev Left : Engine lib → Engine lib → Type 0
  Left e d =
      (d.frames ≡ e.frames)
      × (at_engine_rate lib (roger_pattern lib d) d ≡ at_engine_rate lib (roger_pattern lib e) e)
      × (frame_samples lib d ≡ frame_samples lib e)
      × (d.context_ready ≡ e.context_ready)
      × (d.signal_streaming ≡ e.signal_streaming)
      × (d.transmitting ≡ false)

  stop_transmit-Left :
      (now : ℕ) (free : Bool) (e : Engine lib) → Left e (stop_transmit lib now free e)
  unfolding stop_transmit poll
  stop_transmit-Left now free e =
      if-holds (Left e) (e.shutting_down && not free) _ _ (refl, refl, refl, refl, refl, refl)
        (refl, refl, refl, refl, refl, refl)

  -- The roger signal after a transmission.
  finish_ptt_tx-calls :
      (a : Answers) (f : Frame lib)
      → (f.engine).signal_streaming ≡ false
      → (f.engine).context_ready ≡ true
      → frame_samples lib f.engine ≢ 0
      → (let after = finish_ptt_tx lib a f in
          (after.engine.transmitting ≡ false)
          × (after.relay_calls
              ≡ closed
                ∷ (feed_all a.uplink_opens
                    (roger_frames a f)
                    (f.relay_calls, f.tx_uplink_opened)).0))
  unfolding finish_ptt_tx with_engine
  finish_ptt_tx-calls a f idle ready nz =
      let stopped = stop_transmit lib a.now a.lock_free f.engine in
      let (frames, pcm, size, context, streaming, quiet) =
        stop_transmit-Left a.now a.lock_free f.engine in
      let sent =
        stream_roger_signal-frames lib a.now a.abort_asked stopped
          (or_false stopped.transmitting stopped.signal_streaming quiet (streaming ∙ idle))
          (context ∙ ready) (λ e. nz (sym size ∙ e)) in
      let signal = at_engine_rate lib (roger_pattern lib stopped) stopped in
      let fs = (until_asked a.abort_asked 0 (frames_of (frame_samples lib stopped) signal)).1 in
      let fresh =
        ap (λ l. take (length l - length stopped.frames) l) sent.1
        ∙ take-onto fs stopped.frames
        ∙ ap (λ n. onto (until_asked a.abort_asked 0 (frames_of n signal)).1 []) size
        ∙ ap
            (λ x.
              onto (until_asked a.abort_asked 0 (frames_of (frame_samples lib f.engine) x)).1 [])
            pcm in
      (
        sent.3 ∙ quiet,
        ap (λ l. closed ∷ (feed_all a.uplink_opens l (f.relay_calls, f.tx_uplink_opened)).0) fresh,
      )

  -- EndPttTx, while the engine transmits over a relay that is ready, stops the engine. The relay
  -- client gets the frames of the roger signal up to an abort, over the open uplink, or after opening
  -- it, or none if it does not open, and the end of the uplink last; and the release is counted. The
  -- engine has a context and a frame size, and streams no signal.
  pub end_ptt_tx-closed :
      (a : Answers) (f : Frame lib)
      → f.relay_ready ≡ true
      → (f.engine).transmitting ≡ true
      → (f.engine).signal_streaming ≡ false
      → (f.engine).context_ready ≡ true
      → frame_samples lib f.engine ≢ 0
      → (let after = end_ptt_tx lib a f in
          (after.engine.transmitting ≡ false)
          × (after.relay_calls
              ≡ closed
                ∷ uplink_calls f.tx_uplink_opened a.uplink_opens (roger_frames a f) f.relay_calls)
          × (after.tx_uplink_opened ≡ false)
          × (after.burst_count ≡ f.burst_count + 1))
  unfolding end_ptt_tx refresh finish_ptt_tx with_engine
  end_ptt_tx-closed a f h k idle ready nz =
      let gone =
        if-false (not f.relay_ready || not (f.engine).transmitting) (refresh lib f) _
          (ground (arith, h, k)) in
      let finished = finish_ptt_tx-calls a f idle ready nz in
      (
        ap (λ (g : Frame lib). g.engine.transmitting) gone ∙ finished.0,
        ap (λ (g : Frame lib). g.relay_calls) gone
            ∙ finished.1
            ∙ ap (◌∷◌ closed)
                (feed_all_lem f.tx_uplink_opened a.uplink_opens (roger_frames a f) f.relay_calls),
        ap (λ (g : Frame lib). g.tx_uplink_opened) gone,
        ap (λ (g : Frame lib). g.burst_count) gone,
      )
