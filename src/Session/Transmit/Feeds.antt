-- ===== src/Session/Transmit/Feeds.antt =====
-- What the encoding of samples leaves alone (session.cpp).
use o_walkie.Base.{
  ℕ, zero, suc, ℤ, ◌≡◌, refl, ap, ◌∙◌, Bool, true, false, List, [], ◌++◌, length, ltb, ◌==◌,
  if-holds, arith,
}
use o_walkie.Types.{Outcome, success, failure}
use o_walkie.Codec.{OpusCodec}
use o_walkie.Session.State.{Env, State}
use o_walkie.Session.Outbound.Effects.{Sends, send_opus_frame-Sends}
use o_walkie.Session.Transmit.{
  encoded_frame, encode_frame, Round, done, again, encoded_round, flush_round, flush_rounds,
  flush_tx_pcm_buffer, feed_frame, feed_tx_pcm, send_tx_opus, uplink_signal_byte, pad,
}

module _ (env : Env) where
  -- Only the sequence number, the datagrams, the coders and the buffer differ.
  pub record Feeds (s t : State env) : Type 0 where
    pub new_seq : ℕ
    pub out : List (List ℕ)
    pub codec : OpusCodec env.opus
    pub buffer : List ℤ
    pub same : t ≡ record s { seq = new_seq; datagrams = out; opus = codec; tx_pcm_buffer = buffer }

  pub Feeds-refl : (s : State env) → Feeds s s
  Feeds-refl s = record {
    new_seq = s.seq;
    out = s.datagrams;
    codec = s.opus;
    buffer = s.tx_pcm_buffer;
    same = refl;
  }

  pub Feeds-trans : {s t u : State env} → Feeds s t → Feeds t u → Feeds s u
  Feeds-trans a b = record {
    new_seq = b.new_seq;
    out = b.out;
    codec = b.codec;
    buffer = b.buffer;
    same =
        b.same
        ∙ ap {A = State env}
            (λ v. record v {
              seq = b.new_seq;
              datagrams = b.out;
              opus = b.codec;
              tx_pcm_buffer = b.buffer;
            })
            a.same;
  }

  pub Sends-Feeds : {s t : State env} → Sends env s t → Feeds s t
  Sends-Feeds {s} d = record {
    new_seq = d.new_seq;
    out = d.out;
    codec = s.opus;
    buffer = s.tx_pcm_buffer;
    same = d.same;
  }

  recoded :
      (s : State env) (c : OpusCodec env.opus) (b : List ℤ)
      → Feeds s (record s { opus = c; tx_pcm_buffer = b })
  recoded s c b = record { new_seq = s.seq; out = s.datagrams; codec = c; buffer = b; same = refl }

  encoded_frame-Feeds :
      (r : Outcome (List ℕ) × OpusCodec env.opus) (frame : ℕ) (s : State env)
      → Feeds s (encoded_frame env r frame s).1
  unfolding encoded_frame
  encoded_frame-Feeds (failure r, c) frame s = recoded s c []
  encoded_frame-Feeds (success bytes, c) frame s =
      Feeds-trans (recoded s c _) (Sends-Feeds (send_opus_frame-Sends env bytes _ _))

  encode_frame-Feeds : (frame : ℕ) (s : State env) → Feeds s (encode_frame env frame s).1
  unfolding encode_frame
  encode_frame-Feeds frame s = encoded_frame-Feeds _ frame s

  -- The state in which a round ends.
  abbrev ended : Round env → State env
  ended (done s) = s
  ended (again s) = s

  encoded_round-Feeds :
      (s : State env) (p : Bool × State env) → Feeds s p.1 → Feeds s (ended (encoded_round env p))
  encoded_round-Feeds s (true, t) h = h
  encoded_round-Feeds s (false, t) h = h

  flush_round-Feeds : (s : State env) → Feeds s (ended (flush_round env s))
  unfolding flush_round
  flush_round-Feeds s =
      let padded = record s { tx_pcm_buffer = pad s.opus.frame_size s.tx_pcm_buffer } in
      let p : Feeds s padded = recoded s s.opus _ in
      if-holds (λ r. Feeds s (ended r)) (s.opus.frame_size == 0) _ _ (Feeds-refl s)
        (if-holds (λ r. Feeds s (ended r)) (ltb (length padded.tx_pcm_buffer) s.opus.frame_size) _ _
          p
          (encoded_round-Feeds s (encode_frame env s.opus.frame_size padded)
            (Feeds-trans p (encode_frame-Feeds s.opus.frame_size padded))))

  next-Feeds :
      (fuel : ℕ) (s : State env) (r : Round env)
      → Feeds s (ended r)
      → ((t : State env) → Feeds t (flush_rounds env fuel t))
      → Feeds s (elim r [ done t ↦ t | again t ↦ flush_rounds env fuel t ])
  next-Feeds fuel s (done t) h ih = h
  next-Feeds fuel s (again t) h ih = Feeds-trans h (ih t)

  flush_rounds-Feeds : (fuel : ℕ) (s : State env) → Feeds s (flush_rounds env fuel s)
  unfolding flush_rounds
  flush_rounds-Feeds zero s = Feeds-refl s
  flush_rounds-Feeds (suc fuel) s =
      next-Feeds fuel s (flush_round env s) (flush_round-Feeds s) (flush_rounds-Feeds fuel)

  pub flush_tx_pcm_buffer-Feeds : (s : State env) → Feeds s (flush_tx_pcm_buffer env s)
  unfolding flush_tx_pcm_buffer
  flush_tx_pcm_buffer-Feeds s = flush_rounds-Feeds (suc (length s.tx_pcm_buffer)) s

  feed_frame-Feeds :
      (s : State env) (p : Bool × State env) → Feeds s p.1 → Feeds s (feed_frame env p).1
  unfolding feed_frame
  feed_frame-Feeds s (true, t) h = h
  feed_frame-Feeds s (false, t) h = h

  pub feed_tx_pcm-Feeds : (samples : List ℤ) (s : State env) → Feeds s (feed_tx_pcm env samples s).1
  unfolding feed_tx_pcm
  feed_tx_pcm-Feeds samples s =
      let fed = record s { tx_pcm_buffer = s.tx_pcm_buffer ++ samples } in
      let f : Feeds s fed = recoded s s.opus _ in
      ground (
        arith,
        Feeds-refl s,
        f,
        feed_frame-Feeds s (encode_frame env s.opus.frame_size fed)
            (Feeds-trans f (encode_frame-Feeds s.opus.frame_size fed)),
      )

  pub send_tx_opus-Feeds : (bytes : List ℕ) (s : State env) → Feeds s (send_tx_opus env bytes s).1
  unfolding send_tx_opus
  send_tx_opus-Feeds bytes s = ground (
    arith,
    Feeds-refl s,
    Sends-Feeds (send_opus_frame-Sends env bytes (uplink_signal_byte env s) s),
  )
