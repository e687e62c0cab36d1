-- ===== src/Session/Transmit/Flush.antt =====
-- flushTxPcmBuffer of session.cpp: the loop against the list of the frames in the buffer.
use o_walkie.Base.{
  ℕ, ℤ, zero, suc, ◌<◌, ◌≡◌, ◌≢◌, refl, ap, sym, ◌∙◌, Bool, Bool-cases, inl, inr, is_empty, true,
  false, List, [], ◌∷◌, length, take, drop, if◌then◌else◌, arith,
}
use o_walkie.Types.{Outcome, Outcome-cases, success, failure, UdpAudioPacket}
use o_walkie.Wire.{pack}
use o_walkie.Codec.{OpusCodec, encode}
use o_walkie.Codec.Frames.{frame_size-encode}
use o_walkie.Session.Outbound.Effects.{send_opus_frame-Sends}
use o_walkie.Session.State.{Env, State}
use o_walkie.Session.Outbound.{send_opus_frame, send_udp_payload, next_seq}
use o_walkie.Session.Transmit.Cut.{chunks, frames_of, length-pad_le, length-drop-pad}
use o_walkie.Session.Transmit.{
  pad, encoded_frame, encode_frame, Round, done, again, encoded_round, flush_round, flush_rounds,
  flush_tx_pcm_buffer, uplink_signal_byte,
}

module _ (env : Env) where
  -- Every frame is encoded and sent in turn; the first that the encoder refuses ends the flush.
  send_encoded : Outcome (List ℕ) × OpusCodec env.opus → State env → Bool × State env
  send_encoded (failure r, codec) s = (false, record s { opus = codec })
  send_encoded (success bytes, codec) s =
      let coded = record s { opus = codec } in
      (true, send_opus_frame env bytes (uplink_signal_byte env coded) coded)

  unfoldable pub send_frames : List (List ℤ) → State env → State env
  unfolding send_encoded
  send_frames [] s = s
  send_frames (f ∷ fs) s =
      let (sent, t) = send_encoded (encode env.opus s.opus f) s in
      let rest = send_frames fs t in if sent then rest else t

  abbrev with_buffer : List ℤ → State env → State env
  with_buffer b s = record s { tx_pcm_buffer = b }

  send_udp_payload-with_buffer :
      (payload : List ℕ) (b : List ℤ) (s : State env)
      → send_udp_payload env payload (with_buffer b s)
        ≡ with_buffer b (send_udp_payload env payload s)
  unfolding send_udp_payload
  send_udp_payload-with_buffer payload b s = ground arith

  send_opus_frame-with_buffer :
      (bytes : List ℕ) (signal : ℕ) (b : List ℤ) (s : State env)
      → send_opus_frame env bytes signal (with_buffer b s)
        ≡ with_buffer b (send_opus_frame env bytes signal s)
  unfolding send_opus_frame
  send_opus_frame-with_buffer bytes signal b s = elim (Bool-cases (is_empty bytes)) [
    | inl e ↦ rw e refl
    | inr e ↦ elim (Outcome-cases (pack (packet bytes signal s))) [
      | inl (buf, p) ↦
          rw (e, p) (send_udp_payload-with_buffer buf b (record s { seq = next_seq env s }))
      | inr (r, p) ↦ rw (e, p) refl
    ]
  ]
    where
      packet : List ℕ → ℕ → State env → UdpAudioPacket
      packet bytes signal s = record {
        session_id = s.welcome.session_id;
        sequence = next_seq env s;
        signal_strength = signal;
        opus = bytes;
      }

  flush_round-nil :
      (s : State env)
      → s.opus.frame_size ≢ 0
      → flush_round env (with_buffer [] s) ≡ done (with_buffer [] s)
  unfolding flush_round
  flush_round-nil s h = ground arith

  flush_round-cons :
      (frame : ℕ) (x : ℤ) (xs : List ℤ) (s : State env)
      → s.opus.frame_size ≡ frame
      → frame ≢ 0
      → flush_round env (with_buffer (x ∷ xs) s)
        ≡ encoded_round env (encode_frame env frame (with_buffer (pad frame (x ∷ xs)) s))
  unfolding flush_round
  flush_round-cons frame x xs s k h = ground (arith, length-pad_le frame x xs)

  -- What flush_rounds makes of a round.
  abbrev next_round : ℕ → Round env → State env
  next_round fuel r = elim r [ done t ↦ t | again t ↦ flush_rounds env fuel t ]

  next_frames : List (List ℤ) → Bool × State env → State env
  next_frames fs (sent, t) = let rest = send_frames fs t in if sent then rest else t

  -- The state in which a frame is sent that the encoder turned into bytes.
  abbrev coded : OpusCodec env.opus → State env → State env
  coded codec s = record s { opus = codec }

  abbrev frame_sent : OpusCodec env.opus → List ℕ → State env → State env
  frame_sent codec bytes s =
      send_opus_frame env bytes (uplink_signal_byte env (coded codec s)) (coded codec s)

  frame_size-frame_sent :
      (codec : OpusCodec env.opus) (bytes : List ℕ) (s : State env)
      → (frame_sent codec bytes s).opus.frame_size ≡ codec.frame_size
  frame_size-frame_sent codec bytes s =
      ap (λ (u : State env). u.opus.frame_size)
        (send_opus_frame-Sends env bytes _ (coded codec s)).same

  rounds-send_frames :
      (fuel frame : ℕ) (buffer : List ℤ) (s : State env)
      → s.opus.frame_size ≡ frame
      → frame ≢ 0
      → length buffer < fuel
      → flush_rounds env fuel (with_buffer buffer s)
        ≡ with_buffer [] (send_frames (chunks fuel frame buffer) s)
  unfolding flush_rounds send_frames chunks encode_frame next_frames encoded_frame send_encoded
  rounds-send_frames zero frame buffer s k h lt = absurd (omega arith)
  rounds-send_frames (suc fuel) frame [] s k h lt =
      ap (next_round fuel) (flush_round-nil s (rw k h))
  rounds-send_frames (suc fuel) frame (x ∷ xs) s k h lt =
      let p = pad frame (x ∷ xs) in
      let o = encode env.opus s.opus (take frame p) in
      let start = ap (next_round fuel) (flush_round-cons frame x xs s k h) in
      elim (Outcome-cases o.0) [
        | inl (bytes, e) ↦
            let pair : o ≡ (success bytes, o.1) = λ i. (e i, o.1) in
            let t = frame_sent o.1 bytes s in
            start
            ∙ ap
                (λ P.
                  next_round fuel (encoded_round env (encoded_frame env P frame (with_buffer p s))))
                pair
            ∙ ap (flush_rounds env fuel)
                (send_opus_frame-with_buffer bytes _ (drop frame p) (coded o.1 s))
            ∙ rounds-send_frames fuel frame (drop frame p) t
                (frame_size-frame_sent o.1 bytes s
                  ∙ frame_size-encode env.opus s.opus (take frame p)
                  ∙ k)
                h (omega (arith, length-drop-pad frame x xs h))
            ∙ ap
                (λ P.
                  with_buffer []
                    (next_frames (chunks fuel frame (drop frame p)) (send_encoded P s)))
                (sym pair)
        | inr (r, e) ↦
            let pair : o ≡ (failure r, o.1) = λ i. (e i, o.1) in
            start
            ∙ ap
                (λ P.
                  next_round fuel (encoded_round env (encoded_frame env P frame (with_buffer p s))))
                pair
            ∙ ap
                (λ P.
                  with_buffer []
                    (next_frames (chunks fuel frame (drop frame p)) (send_encoded P s)))
                (sym pair)
      ]

  -- If the codec has a frame size, the flush sends the frames of the buffer in their order, the
  -- last one filled up with silence, as long as the encoder accepts them, and leaves the buffer
  -- empty. Its rounds never run out.
  pub flush_tx_pcm_buffer-frames :
      (s : State env)
      → s.opus.frame_size ≢ 0
      → flush_tx_pcm_buffer env s
        ≡ record (send_frames (frames_of s.opus.frame_size s.tx_pcm_buffer) s) {
          tx_pcm_buffer = [];
        }
  unfolding flush_tx_pcm_buffer
  flush_tx_pcm_buffer-frames s h =
      rounds-send_frames (suc (length s.tx_pcm_buffer)) s.opus.frame_size s.tx_pcm_buffer s refl h
        (omega arith)
