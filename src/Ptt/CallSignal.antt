-- ===== src/Ptt/CallSignal.antt =====
-- What a call signal sends, and what it leaves of the uplink (OnCallSignalClicked of MainFrame.cpp).
use o_walkie.Base.{
  ℤ, ◌≡◌, ◌≢◌, refl, ap, sym, ◌∙◌, ◌-◌, Bool, true, false, not, ◌||◌, List, [], ◌∷◌, length, take,
  is_empty, if-cases, arith,
}
use o_walkie.Audio.{AudioLib}
use o_walkie.Audio.Engine.{on_air, frame_samples, call_pattern}
use o_walkie.Audio.Stream.{stream_call_signal}
use o_walkie.Audio.Stream.Frames.{
  onto, until_asked, take-onto, at_engine_rate, stream_call_signal-frames,
}
use o_walkie.Session.Transmit.Cut.{frames_of}
use o_walkie.Ptt.Frame.{Frame, Answers, RelayCall, opened, closed, feed_all, with_engine, refresh}
use o_walkie.Ptt.Handlers.{on_call_signal_clicked}
use o_walkie.Ptt.Transmission.{fed_frames, feed_all-open}

clash : {b : Bool} {P : Type 0} → b ≡ true → b ≡ false → P
clash h k = absurd (ground (arith, h, k))

module _ (lib : AudioLib) where
  -- Whether no abort is requested during the call signal, and its frames before one.
  abbrev pub call_frames : Answers → Frame lib → Bool × List (List ℤ)
  call_frames a f =
      let e = f.engine in
      until_asked a.abort_asked 0
        (frames_of (frame_samples lib e) (at_engine_rate lib (call_pattern lib e) e))

  -- The calls of the relay client for a call signal, newest first.
  abbrev pub signal_calls : Bool → List (List ℤ) → List RelayCall → List RelayCall
  signal_calls true fs calls = closed ∷ fed_frames fs (opened ∷ calls)
  signal_calls false fs calls = fed_frames fs (opened ∷ calls)

  refused : (r i l : Bool) → r ≡ true → i ≡ false → l ≡ false → (not r || i || l) ≡ false
  refused r i l h j k = rw (h, j, k) refl

  -- The frames that the callback gets of the call signal, the newest one first.
  abbrev fresh_of : Answers → Frame lib → List (List ℤ)
  fresh_of a f =
      let e = (stream_call_signal lib a.now a.abort_asked f.engine).1 in
      take (length e.frames - length (f.engine).frames) e.frames

  abbrev Ends : Answers → Frame lib → Frame lib → Type 0
  Ends a f after =
      let (ok, fs) = call_frames a f in
      (after.tx_uplink_opened ≡ not ok)
      × (after.relay_calls ≡ signal_calls ok (onto fs []) f.relay_calls)

  -- A call signal that the window and the relay client allow opens the uplink and sends the frames of
  -- the engine's call pattern, at its rate, up to the first round before which an abort is requested.
  -- If none is, the uplink is closed after the last frame; otherwise it stays open. The engine is
  -- idle and has a context, a frame size, and a pattern that has samples.
  pub on_call_signal_clicked-frames :
      (a : Answers) (f : Frame lib)
      → f.relay_ready ≡ true
      → on_air lib f.engine ≡ false
      → f.server_ptt_locked ≡ false
      → a.uplink_opens ≡ true
      → (f.engine).context_ready ≡ true
      → frame_samples lib f.engine ≢ 0
      → is_empty (at_engine_rate lib (call_pattern lib f.engine) f.engine) ≡ false
      → (let (ok, fs) = call_frames a f in
          let after = on_call_signal_clicked lib a f in
          (after.tx_uplink_opened ≡ not ok)
          × (after.relay_calls ≡ signal_calls ok (onto fs []) f.relay_calls))
  unfolding on_call_signal_clicked refresh with_engine
  on_call_signal_clicked-frames a f ready idle free opens context nz some_pcm =
      let (ok, fs) = call_frames a f in
      let sent =
        stream_call_signal-frames lib a.now a.abort_asked f.engine idle context nz some_pcm in
      let streamed = stream_call_signal lib a.now a.abort_asked f.engine in
      let old = (f.engine).frames in
      let fresh : fresh_of a f ≡ onto fs [] =
        ap (λ l. take (length l - length old) l) sent.1 ∙ take-onto fs old in
      let fed : feed_all true (fresh_of a f) (opened ∷ f.relay_calls, true)
          ≡ (fed_frames (onto fs []) (opened ∷ f.relay_calls), true) =
        ap (λ l. feed_all true l (opened ∷ f.relay_calls, true)) fresh
        ∙ feed_all-open true (onto fs []) (opened ∷ f.relay_calls) in
      let calls = ap (λ p. p.0) fed in
      if-cases (Ends a f) (not f.relay_ready || on_air lib f.engine || f.server_ptt_locked) f _
        (λ h.
          clash h (refused f.relay_ready (on_air lib f.engine) f.server_ptt_locked ready idle free))
        (λ _.
          if-cases (Ends a f) (not a.uplink_opens) _ _ (λ h. clash h (ap not opens))
            (λ _.
              if-cases (Ends a f) streamed.0 _ _
                (λ h.
                  let all : ok ≡ true = sym sent.0 ∙ h in
                  (
                    ap not (sym all),
                    ap (◌∷◌ closed) calls
                        ∙ ap (λ b. signal_calls b (onto fs []) f.relay_calls) (sym all),
                  ))
                (λ h.
                  let some_left : ok ≡ false = sym sent.0 ∙ h in
                  (
                    ap (λ p. p.1) fed ∙ ap not (sym some_left),
                    calls ∙ ap (λ b. signal_calls b (onto fs []) f.relay_calls) (sym some_left),
                  ))))
