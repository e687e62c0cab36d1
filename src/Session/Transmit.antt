-- ===== src/Session/Transmit.antt =====
-- The uplink: from samples to Opus frames, and the end of a transmission (session.cpp).
pub mod Cut
pub mod Flush
pub mod Feeds
use o_walkie.Base.{
  ℕ, ℤ, pos, zero, suc, ◌+◌, ◌-◌, ◌%◌, Bool, true, false, not, ◌||◌, List, [], ◌∷◌, ◌++◌, length,
  take, drop, replicate, is_empty, ltb, ◌==◌, if◌then◌else◌,
}
use o_walkie.Types.{Result, ok, invalid_arg, not_connected, not_ready, Outcome, success, failure}
use o_walkie.LinkSignal.{combined_byte}
use o_walkie.Codec.{OpusCodec, encode}
use o_walkie.Session.State.{Env, State}
use o_walkie.Session.Events.{interruptible_sleep, meanwhile}
use o_walkie.Session.Outbound.{send_opus_frame, send_udp_tx_eof, begin_local_tx, end_local_tx}

-- A buffer that holds less than a frame is filled up with silence, unless it is empty.
abbrev pub pad : ℕ → List ℤ → List ℤ
pad frame [] = []
pad frame (x ∷ xs) = (x ∷ xs) ++ replicate (frame - length (x ∷ xs)) (pos 0)

module _ (env : Env) where
  -- uint8_t uplinkSignalByte() const
  abbrev pub uplink_signal_byte : State env → ℕ
  uplink_signal_byte s = combined_byte s.link_registry % 256

  -- One frame is encoded from the front of the buffer, and sent if the encoder returns Result::Ok.
  encoded_frame : Outcome (List ℕ) × OpusCodec env.opus → ℕ → State env → Bool × State env
  encoded_frame (failure r, codec) frame s = (false, record s { opus = codec; tx_pcm_buffer = [] })
  encoded_frame (success bytes, codec) frame s =
      let rest = record s { opus = codec; tx_pcm_buffer = drop frame s.tx_pcm_buffer } in
      (true, send_opus_frame env bytes (uplink_signal_byte rest) rest)

  unfoldable pub encode_frame : ℕ → State env → Bool × State env
  unfolding encoded_frame
  encode_frame frame s = encoded_frame (encode env.opus s.opus (take frame s.tx_pcm_buffer)) frame s

  -- A round of the loop of flushTxPcmBuffer: it returns, or it goes round again.
  pub data Round : Type 0 where
    done again : State env → Round

  abbrev pub encoded_round : Bool × State env → Round
  encoded_round (true, s) = again s
  encoded_round (false, s) = done s

  unfoldable pub flush_round : State env → Round
  flush_round s =
      if s.opus.frame_size == 0
      then done s
      else (let padded = record s { tx_pcm_buffer = pad s.opus.frame_size s.tx_pcm_buffer } in
          if ltb (length padded.tx_pcm_buffer) s.opus.frame_size
          then done padded
          else encoded_round (encode_frame s.opus.frame_size padded))

  unfoldable pub flush_rounds : ℕ → State env → State env
  flush_rounds zero s = s
  flush_rounds (suc fuel) s = elim (flush_round s) [ done t ↦ t | again t ↦ flush_rounds fuel t ]

  -- void flushTxPcmBuffer(). Each round takes samples from the buffer, so one more round than there
  -- are samples is enough.
  unfoldable pub flush_tx_pcm_buffer : State env → State env
  flush_tx_pcm_buffer s = flush_rounds (suc (length s.tx_pcm_buffer)) s

  -- Result txStartInternal()
  unfoldable pub tx_start : State env → Result × State env
  tx_start s =
      if not s.connected || s.welcome.session_id == 0
      then (not_connected, s)
      else (ok, begin_local_tx env (record s { tx_pcm_buffer = []; client_tx_open = true }))

  -- The loop over the delays of an end-of-transmission burst.
  unfoldable pub eof_rounds : List ℕ → State env → State env
  eof_rounds [] s = s
  eof_rounds (d ∷ ds) s =
      let slept = if ltb 0 d then interruptible_sleep env s else s in
      let rest = eof_rounds ds (send_udp_tx_eof env slept) in
      if slept.stop_requested then slept else rest

  -- Result sendTxEofBurstInternal()
  unfoldable pub send_tx_eof_burst : State env → Result × State env
  send_tx_eof_burst s =
      if not s.connected
      then (not_connected, s)
      else (ok, end_local_tx env (eof_rounds (0 ∷ 20 ∷ 60 ∷ []) (record s { tx_pcm_buffer = [] })))

  -- Result txEndInternal(). Another thread may halt the transport while the buffer is flushed.
  unfoldable pub tx_end : State env → Result × State env
  tx_end s =
      if not s.connected
      then (not_connected, s)
      else if not s.client_tx_open
      then (not_ready, s)
      else send_tx_eof_burst (record (meanwhile env (flush_tx_pcm_buffer s)) {
        tx_pcm_buffer = [];
        client_tx_open = false;
      })

  feed_frame : Bool × State env → Result × State env
  feed_frame (true, s) = (ok, s)
  feed_frame (false, s) = (not_ready, s)

  -- Result feedTxPcmInternal(std::span<const int16_t> samples)
  unfoldable pub feed_tx_pcm : List ℤ → State env → Result × State env
  unfolding feed_frame
  feed_tx_pcm samples s =
      if not s.connected || s.welcome.session_id == 0
      then (not_connected, s)
      else if not s.client_tx_open
      then (not_ready, s)
      else if is_empty samples
      then (invalid_arg, s)
      else if s.opus.frame_size == 0
      then (not_ready, s)
      else (let fed = record s { tx_pcm_buffer = s.tx_pcm_buffer ++ samples } in
          if ltb (length fed.tx_pcm_buffer) s.opus.frame_size
          then (ok, fed)
          else feed_frame (encode_frame s.opus.frame_size fed))

  -- Result sendTxOpusInternal(std::span<const uint8_t> opus)
  unfoldable pub send_tx_opus : List ℕ → State env → Result × State env
  send_tx_opus bytes s =
      if not s.connected || s.welcome.session_id == 0
      then (not_connected, s)
      else if not s.client_tx_open
      then (not_ready, s)
      else if is_empty bytes
      then (invalid_arg, s)
      else (ok, send_opus_frame env bytes (uplink_signal_byte s) s)

  -- void abortTxInternal()
  unfoldable pub abort_tx : State env → State env
  abort_tx s =
      let cleared = record s { tx_queue = []; tx_pcm_buffer = [] } in
      let ended =
        if s.client_tx_open
        then end_local_tx env (record cleared { client_tx_open = false })
        else cleared in
      record ended { tx_open_at_ns = 0; tx_last_activity_ns = 0 }
