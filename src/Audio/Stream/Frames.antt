-- ===== src/Audio/Stream/Frames.antt =====
-- What the loop of StreamGeneratedSignal sends, against the list of the signal's frames, and what
-- StreamRogerSignal and StreamCallSignal make of it (AudioEngine.cpp).
use o_walkie.Base.{
  ℕ, zero, suc, ℤ, pos, ◌-◌, ◌<◌, ◌≡◌, ◌≢◌, refl, ap, sym, ◌∙◌, Bool, Bool-cases, inl, inr, true,
  false, not, ◌||◌, List, [], ◌∷◌, ◌++◌, length, is_empty, take, drop, drop_all, length-drop,
  length-append, length-replicate, replicate, ◌==◌, if◌then◌else◌, if-cases, if-true, if-false,
  or_true, or_false, arith,
}
use mathlib.Core.List.{append-nil, append_assoc}
use native.Mathlib.Decide.{dec_le}
use o_walkie.Session.Transmit.{pad}
use o_walkie.Session.Transmit.Cut.{chunks, frames_of}
use mathlib.Core.Bool.{false≢true}
use o_walkie.Tone.Client.{generate_signal_pcm}
use o_walkie.Audio.{AudioLib, NamedPattern, Double, resample_linear}
use o_walkie.Audio.Engine.{Engine, frame_samples, on_air, poll, roger_pattern, call_pattern}
use o_walkie.Audio.Stream.{
  stream_rounds, stream_generated_signal, stream_roger_signal, roger_begun, stream_call_signal,
  call_begun,
}

drop-pad : (n : ℕ) (xs : List ℤ) → drop n (pad n xs) ≡ drop n xs
drop-pad n [] = refl
drop-pad n (x ∷ xs) = elim (dec_le (length (x ∷ xs)) n) [
  | yes h ↦
      drop_all n (pad n (x ∷ xs)) (
        omega (
          arith,
          length-append (x ∷ xs) (replicate (n - length (x ∷ xs)) (pos 0)),
          length-replicate (n - length (x ∷ xs)) (pos 0),
        ))
      ∙ sym (drop_all n (x ∷ xs) h)
  | no h ↦
      let none_left : n - length (x ∷ xs) ≡ 0 = omega arith in
      ap (λ k. drop n ((x ∷ xs) ++ replicate k (pos 0))) none_left
      ∙ ap (drop n) (append-nil (x ∷ xs))
]

no_refusal :
    (pcm : List ℤ) (ready : Bool) (n : ℕ)
    → is_empty pcm ≡ false
    → ready ≡ true
    → n ≢ 0
    → (is_empty pcm || not ready || n == 0) ≡ false
no_refusal pcm ready n h k nz = ground arith

-- The frames before the first round for which an abort is requested, and whether there is none.
unfoldable pub until_asked : {A : Type 0} → (ℕ → Bool) → ℕ → List A → Bool × List A
until_asked asked k [] = (true, [])
until_asked asked k (f ∷ fs) =
    let (ok, rest) = until_asked asked (suc k) fs in if asked k then (false, []) else (ok, f ∷ rest)

-- A list in front of another one, turned round.
unfoldable pub onto : {A : Type 0} → List A → List A → List A
onto [] acc = acc
onto (x ∷ xs) acc = onto xs (x ∷ acc)

onto-append : (xs acc : List (List ℤ)) → onto xs acc ≡ onto xs [] ++ acc
unfolding onto
onto-append [] acc = refl
onto-append (x ∷ xs) acc =
    onto-append xs (x ∷ acc)
    ∙ sym (append_assoc (onto xs []) (x ∷ []) acc)
    ∙ ap (λ l. l ++ acc) (sym (onto-append xs (x ∷ [])))

take_front : (xs ys : List (List ℤ)) → take (length xs) (xs ++ ys) ≡ xs
take_front [] ys = refl
take_front (x ∷ xs) ys = ap (◌∷◌ x) (take_front xs ys)

take-length : (xs ys : List (List ℤ)) → take (length (xs ++ ys) - length ys) (xs ++ ys) ≡ xs
take-length xs ys =
    let front : length (xs ++ ys) - length ys ≡ length xs = omega (arith, length-append xs ys) in
    ap (λ n. take n (xs ++ ys)) front ∙ take_front xs ys

-- What a list has more than the one behind it.
pub take-onto :
    (xs acc : List (List ℤ)) → take (length (onto xs acc) - length acc) (onto xs acc) ≡ onto xs []
take-onto xs acc =
    ap (λ l. take (length l - length acc) l) (onto-append xs acc) ∙ take-length (onto xs []) acc

module _ (lib : AudioLib) where
  abbrev pub with_frames : List (List ℤ) → Engine lib → Engine lib
  with_frames fs e = record e { frames = onto fs e.frames }

  stream_rounds-until_asked :
      (fuel : ℕ) (asked : ℕ → Bool) (k n : ℕ) (pcm : List ℤ) (e : Engine lib)
      → n ≢ 0
      → length pcm < fuel
      → e.abort_requested ≡ false
      → (let (ok, fs) = until_asked asked k (chunks fuel n pcm) in
          stream_rounds lib fuel asked k n pcm e ≡ (ok, with_frames fs e))
  unfolding stream_rounds chunks until_asked onto
  stream_rounds-until_asked zero asked k n pcm e nz h a = absurd (omega arith)
  stream_rounds-until_asked (suc fuel) asked k n [] e nz h a = refl
  stream_rounds-until_asked (suc fuel) asked k n (x ∷ xs) e nz h a =
      let frame = take n (pad n (x ∷ xs)) in
      let sent = record e { frames = frame ∷ e.frames } in
      let shorter : length (drop n (x ∷ xs)) < fuel = omega (arith, length-drop n (x ∷ xs)) in
      let rest =
        stream_rounds-until_asked fuel asked (suc k) n (drop n (x ∷ xs)) sent nz shorter a in
      let stopped : Bool × Engine lib = (false, record e { abort_requested = false }) in
      let (ok, fs) = until_asked asked (suc k) (chunks fuel n (drop n (pad n (x ∷ xs)))) in
      let nothing : Bool × List (List ℤ) = (false, []) in
      let more : Bool × List (List ℤ) = (ok, frame ∷ fs) in
      elim (Bool-cases (asked k)) [
        | inl stop ↦
            if-true (e.abort_requested || asked k) stopped _
              (or_true e.abort_requested (asked k) stop)
            ∙ ap (λ b. (false, record e { abort_requested = b })) (sym a)
            ∙ ap (λ (p : Bool × List (List ℤ)). (p.0, with_frames p.1 e))
                (sym (if-true (asked k) nothing more stop))
        | inr go ↦
            if-false (e.abort_requested || asked k) stopped _
              (or_false e.abort_requested (asked k) a go)
            ∙ rest
            ∙ ap
                (λ rest.
                  (let (ok, fs) = until_asked asked (suc k) (chunks fuel n rest) in
                    (ok, with_frames fs sent)))
                (sym (drop-pad n (x ∷ xs)))
            ∙ ap (λ (p : Bool × List (List ℤ)). (p.0, with_frames p.1 e))
                (sym (if-false (asked k) nothing more go))
      ]

  -- If the engine has a context and a frame size, and no abort is left over, a signal is sent frame by
  -- frame, the last one filled up with silence, up to the first round before which an abort is
  -- requested. The result tells whether none was, and nothing else of the engine changes.
  pub stream_generated_signal-frames :
      (asked : ℕ → Bool) (pcm : List ℤ) (e : Engine lib)
      → e.context_ready ≡ true
      → frame_samples lib e ≢ 0
      → e.abort_requested ≡ false
      → is_empty pcm ≡ false
      → (let (ok, fs) = until_asked asked 0 (frames_of (frame_samples lib e) pcm) in
          stream_generated_signal lib asked pcm e ≡ (ok, with_frames fs e))
  unfolding stream_generated_signal
  stream_generated_signal-frames asked pcm e ready nz a some_pcm =
      let n = frame_samples lib e in
      if-false (is_empty pcm || not e.context_ready || n == 0) (false, e) _
        (no_refusal pcm e.context_ready n some_pcm ready nz)
      ∙ stream_rounds-until_asked (suc (length pcm)) asked 0 n pcm e nz (omega arith) a

  empty : (pcm : List ℤ) → is_empty pcm ≡ true → pcm ≡ []
  empty [] h = refl
  empty (x ∷ xs) h = absurd (ground (arith, h))

  abbrev Sent : (ℕ → Bool) → ℕ → List ℤ → Engine lib → Bool × Engine lib → Type 0
  Sent asked n pcm e r =
      let (ok, fs) = until_asked asked 0 (frames_of n pcm) in
      (r.0 ≡ ok)
      × (r.1.frames ≡ onto fs e.frames)
      × (r.1.signal_streaming ≡ false)
      × (r.1.transmitting ≡ e.transmitting)

  -- A pattern as the other side is to hear it: its samples at 48000 a second, brought to the rate of
  -- the engine.
  abbrev pub at_engine_rate : NamedPattern (Double lib) → Engine lib → List ℤ
  at_engine_rate p e =
      if is_empty p.pattern.points
      then []
      else resample_linear lib (generate_signal_pcm lib.double (pos 48000) p.pattern) 48000
          e.sample_rate

  -- An idle engine with a context and a frame size sends its roger pattern, generated at 48000
  -- samples a second and brought to the engine's sample rate, as frames of the engine's size, up to the first round before which an abort is requested; it tells
  -- whether none was, no signal is left in the state of being streamed, and nothing begins to
  -- transmit.
  pub stream_roger_signal-frames :
      (now : ℕ) (asked : ℕ → Bool) (e : Engine lib)
      → on_air lib e ≡ false
      → e.context_ready ≡ true
      → frame_samples lib e ≢ 0
      → (let pcm = at_engine_rate (roger_pattern lib e) e in
          let (ok, fs) = until_asked asked 0 (frames_of (frame_samples lib e) pcm) in
          let (r, after) = stream_roger_signal lib now asked e in
          (r ≡ ok)
          × (after.frames ≡ onto fs e.frames)
          × (after.signal_streaming ≡ false)
          × (after.transmitting ≡ e.transmitting))
  unfolding stream_roger_signal poll chunks until_asked onto
  stream_roger_signal-frames now asked e idle ready nz =
      let n = frame_samples lib e in
      let pcm = at_engine_rate (roger_pattern lib e) e in
      let begun = roger_begun lib e in
      if-cases (Sent asked n pcm e) (on_air lib e) (false, e) _
        (λ h. absurd (ground (arith, h, idle)))
        (λ _.
          if-cases (Sent asked n pcm e) (is_empty pcm) _ _
            (λ h.
              let none_left = sym (empty pcm h) in
              (
                ap (λ pcm. (until_asked asked 0 (frames_of n pcm)).0) none_left,
                ap (λ pcm. onto (until_asked asked 0 (frames_of n pcm)).1 e.frames) none_left,
                refl,
                refl,
              ))
            (λ h.
              let sent = stream_generated_signal-frames asked pcm begun ready nz refl h in
              (
                ap (λ p. p.0) sent,
                ap (λ p. p.1.frames) sent,
                refl,
                ap (λ p. p.1.transmitting) sent,
              )))

  -- An idle engine with a context, a frame size and a call pattern that has samples sends that
  -- pattern in the same way, and tells whether no abort was requested.
  pub stream_call_signal-frames :
      (now : ℕ) (asked : ℕ → Bool) (e : Engine lib)
      → on_air lib e ≡ false
      → e.context_ready ≡ true
      → frame_samples lib e ≢ 0
      → is_empty (at_engine_rate (call_pattern lib e) e) ≡ false
      → (let pcm = at_engine_rate (call_pattern lib e) e in
          let (ok, fs) = until_asked asked 0 (frames_of (frame_samples lib e) pcm) in
          let (r, after) = stream_call_signal lib now asked e in
          (r ≡ ok)
          × (after.frames ≡ onto fs e.frames)
          × (after.signal_streaming ≡ false)
          × (after.transmitting ≡ e.transmitting))
  unfolding stream_call_signal poll chunks until_asked onto
  stream_call_signal-frames now asked e idle ready nz some_pcm =
      let p = call_pattern lib e in
      let n = frame_samples lib e in
      let pcm = at_engine_rate p e in
      if-cases (Sent asked n pcm e) (on_air lib e) (false, e) _
        (λ h. absurd (ground (arith, h, idle)))
        (λ _.
          if-cases (Sent asked n pcm e) (is_empty p.pattern.points) _ _
            (λ h. absurd (
              false≢true (sym some_pcm ∙ ap is_empty (if-true (is_empty p.pattern.points) [] _ h))))
            (λ _.
              let sent =
                stream_generated_signal-frames asked pcm (call_begun lib e) ready nz refl
                  some_pcm in
              (
                ap (λ p. p.0) sent,
                ap (λ p. p.1.frames) sent,
                refl,
                ap (λ p. p.1.transmitting) sent,
              )))
