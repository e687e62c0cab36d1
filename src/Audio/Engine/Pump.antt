-- ===== src/Audio/Engine/Pump.antt =====
-- What the microphone captures and what the pump of AudioEngine hands on (OnCaptureFrames and
-- TxPumpLoop of AudioEngine.cpp).
use o_walkie.Base.{
  ℕ, ℤ, ◌*◌, ◌/◌, ◌≤◌, ◌≡◌, refl, ap, sym, ◌∙◌, Bool, true, false, not, ◌||◌, List, [], ◌∷◌, ◌++◌,
  length, take, drop, take-append-drop, length-take, ltb, ◌==◌, All, if-holds, if-cases, if-true,
  if-false, or_true, arith,
}
use mathlib.Core.Path.{subst}
use mathlib.Core.List.{append_assoc, append-nil}
use o_walkie.Audio.{AudioLib}
use o_walkie.Audio.Engine.{
  Engine, on_air, frame_samples, level_of, poll, on_capture_frames, tx_pump_round,
}
use o_walkie.Audio.Engine.Playback.{on_incoming_pcm, pulse, play_vibration_pulse}

-- The samples of a list of frames, the newest one first.
unfoldable pub samples_of : List (List ℤ) → List ℤ
samples_of [] = []
samples_of (f ∷ fs) = samples_of fs ++ f

enough_samples :
    (stop on empty : Bool) (l m : ℕ) → (stop || not on || empty || ltb l m) ≡ false → m ≤ l
enough_samples stop on empty l m h = ground arith

module _ (lib : AudioLib) where
  -- What the threads of the engine do during a transmission.
  pub data Work : Type 0 where
    captured : List ℤ → Work
    pumped : ℕ → Work
    received : ℕ → Bool → ℕ → List ℤ → Work

  pub work : Work → Engine lib → Engine lib
  work (captured input) e = on_capture_frames lib input e
  work (pumped now) e = tx_pump_round lib now e
  work (received now opens room samples) e = on_incoming_pcm lib now opens room samples e

  pub run : List Work → Engine lib → Engine lib
  run [] e = e
  run (w ∷ ws) e = run ws (work w e)

  pub inputs : List Work → List ℤ
  inputs [] = []
  inputs (captured input ∷ ws) = input ++ inputs ws
  inputs (w ∷ ws) = inputs ws

  -- An engine that transmits and has handed on frames of one size, with levels of 0 to 100.
  pub record IsPumping (n : ℕ) (total : List ℤ) (e : Engine lib) : Type 0 where
    pub on : e.transmitting ≡ true
    pub size : frame_samples lib e ≡ n
    pub all_samples : samples_of e.frames ++ e.capture_fifo ≡ total
    pub frame_size : All (λ f. length f ≡ n) e.frames
    pub level_range : All (λ p. p ≤ 100) e.levels

  -- What the pump looks at.
  abbrev Same : Engine lib → Engine lib → Type 0
  Same d e =
      (e.transmitting ≡ d.transmitting)
      × (e.sample_rate ≡ d.sample_rate)
      × (e.packet_ms ≡ d.packet_ms)
      × (e.capture_fifo ≡ d.capture_fifo)
      × (e.frames ≡ d.frames)
      × (e.levels ≡ d.levels)

  IsPumping-Same :
      (n : ℕ) (total : List ℤ) (d e : Engine lib)
      → Same d e
      → IsPumping n total d
      → IsPumping n total e
  IsPumping-Same n total d e (on, rate, ms, fifo, frames, levels) p = record {
    on = on ∙ p.on;
    size = ap (λ r. r * e.packet_ms / 1000) rate ∙ ap (λ m. d.sample_rate * m / 1000) ms ∙ p.size;
    all_samples =
        ap (λ f. samples_of f ++ e.capture_fifo) frames
        ∙ ap (λ f. samples_of d.frames ++ f) fifo
        ∙ p.all_samples;
    frame_size = subst (All (λ f. length f ≡ n)) (sym frames) p.frame_size;
    level_range = subst (All (λ p. p ≤ 100)) (sym levels) p.level_range;
  }

  unchanged : (e : Engine lib) → Same e e
  unchanged e = (refl, refl, refl, refl, refl, refl)

  on_capture_frames-IsPumping :
      (n : ℕ) (total input : List ℤ) (e : Engine lib)
      → IsPumping n total e
      → IsPumping n (total ++ input) (on_capture_frames lib input e)
  unfolding on_capture_frames
  on_capture_frames-IsPumping n total [] e p =
      subst (IsPumping n (total ++ []))
        (sym (if-true (not e.transmitting || true) e _ (or_true (not e.transmitting) true refl)))
        (subst (λ t. IsPumping n t e) (sym (append-nil total)) p)
  on_capture_frames-IsPumping n total (x ∷ input) e p =
      let heard = record e { capture_fifo = e.capture_fifo ++ (x ∷ input) } in
      let goes : (not e.transmitting || false) ≡ false = ground (arith, p.on) in
      subst (IsPumping n (total ++ (x ∷ input)))
        (sym (if-false (not e.transmitting || false) e heard goes))
        (record {
          on = p.on;
          size = p.size;
          all_samples =
              sym (append_assoc (samples_of e.frames) e.capture_fifo (x ∷ input))
              ∙ ap (λ t. t ++ (x ∷ input)) p.all_samples;
          frame_size = p.frame_size;
          level_range = p.level_range;
        })

  -- An engine that has taken a frame and hands it on.
  handed :
      (n : ℕ) (total : List ℤ) (e d : Engine lib)
      → IsPumping n total e
      → frame_samples lib e ≤ length e.capture_fifo
      → Same (record e { capture_fifo = drop (frame_samples lib e) e.capture_fifo }) d
      → (let frame = take (frame_samples lib e) e.capture_fifo in
          IsPumping n total
            (record d { levels = level_of frame ∷ d.levels; frames = frame ∷ d.frames }))
  unfolding samples_of
  handed n total e d p enough s =
      let m = frame_samples lib e in
      let frame = take m e.capture_fifo in
      let (on, rate, ms, fifo, frames, levels) = s in
      record {
        on = on ∙ p.on;
        size =
            ap (λ r. r * d.packet_ms / 1000) rate ∙ ap (λ m. e.sample_rate * m / 1000) ms ∙ p.size;
        all_samples =
            ap (λ fs. (samples_of fs ++ frame) ++ d.capture_fifo) frames
            ∙ ap (λ f. (samples_of e.frames ++ frame) ++ f) fifo
            ∙ append_assoc (samples_of e.frames) frame (drop m e.capture_fifo)
            ∙ ap (λ f. samples_of e.frames ++ f) (take-append-drop m e.capture_fifo)
            ∙ p.all_samples;
        frame_size = (
          omega (arith, length-take m e.capture_fifo, p.size),
          subst (All (λ f. length f ≡ n)) (sym frames) p.frame_size,
        );
        level_range = (omega arith, subst (All (λ p. p ≤ 100)) (sym levels) p.level_range);
      }

  tx_pump_round-IsPumping :
      (n : ℕ) (total : List ℤ) (now : ℕ) (e : Engine lib)
      → IsPumping n total e
      → IsPumping n total (tx_pump_round lib now e)
  unfolding tx_pump_round poll
  tx_pump_round-IsPumping n total now e p =
      let m = frame_samples lib e in
      let frame = take m e.capture_fifo in
      let taken = record e { capture_fifo = drop m e.capture_fifo } in
      let enough =
        enough_samples e.tx_pump_stop e.transmitting (m == 0) (length e.capture_fifo) m in
      if-cases (IsPumping n total)
        (e.tx_pump_stop || not e.transmitting || m == 0 || ltb (length e.capture_fifo) m) e _
        (λ h. p)
        (λ h.
          if-holds
            (λ d.
              IsPumping n total
                (record d { levels = level_of frame ∷ d.levels; frames = frame ∷ d.frames }))
            (on_air lib taken) (poll lib now taken) taken
            (handed n total e (poll lib now taken) p (enough h) (unchanged taken))
            (handed n total e taken p (enough h) (unchanged taken)))

  on_incoming_pcm-Same :
      (now room : ℕ) (opens : Bool) (samples : List ℤ) (e : Engine lib)
      → e.transmitting ≡ true
      → Same e (on_incoming_pcm lib now opens room samples e)
  unfolding on_incoming_pcm pulse play_vibration_pulse poll
  on_incoming_pcm-Same now room opens samples e on = ground arith

  -- While the engine transmits, whatever it captures, pumps and receives in whatever order, the
  -- samples of the frames that it hands on, in their order, and those that still wait for a frame are
  -- the ones captured, none lost and none twice. Every frame has the size of the engine's, and
  -- every level is between 0 and 100.
  pub run-IsPumping :
      (n : ℕ) (total : List ℤ) (ws : List Work) (e : Engine lib)
      → IsPumping n total e
      → IsPumping n (total ++ inputs ws) (run ws e)
  unfolding run inputs work
  run-IsPumping n total [] e p = subst (λ t. IsPumping n t e) (sym (append-nil total)) p
  run-IsPumping n total (captured input ∷ ws) e p =
      let heard = on_capture_frames-IsPumping n total input e p in
      subst (λ t. IsPumping n t (run ws (on_capture_frames lib input e)))
        (append_assoc total input (inputs ws))
        (run-IsPumping n (total ++ input) ws (on_capture_frames lib input e) heard)
  run-IsPumping n total (pumped now ∷ ws) e p =
      run-IsPumping n total ws (tx_pump_round lib now e) (tx_pump_round-IsPumping n total now e p)
  run-IsPumping n total (received now opens room samples ∷ ws) e p =
      let after = on_incoming_pcm lib now opens room samples e in
      run-IsPumping n total ws after
        (IsPumping-Same n total e after (on_incoming_pcm-Same now room opens samples e p.on) p)
