-- ===== src/Session/Examples.antt =====
-- A session of session.cpp at concrete values.
use o_walkie.Base.{ℕ, pos, ◌≡◌, refl, true, false, List, [], ◌∷◌, some, replicate, arith}
use o_walkie.Types.{tx_pcm, tx_open, success, default_welcome, UdpAudioPacket, ConnectParams}
use o_walkie.Wire.{pack, unpack}
use o_walkie.Session.Samples.{slow}
use o_walkie.Session.Invariant.{IsCoherent}
use o_walkie.Session.Invariant.Reach.{
  Reach, starts, steps, submits, connects, reads, moves, disconnects, Reach-IsCoherent,
}
use o_walkie.Session.Lifecycle.{dialled, connect, disconnect}
use o_walkie.Session.State.{State, new_state, bound}
use o_walkie.Session.Outbound.{end_local_tx, notify_network_changed, send_opus_frame}
use o_walkie.Session.Outbound.Recovery.{IsDue, IsRecent, made, end_local_tx-notify_network_changed}
use o_walkie.Session.Outbound.Datagrams.{CanSend, frame_packet, send_opus_frame-unpack}
use o_walkie.Session.Transmit.{flush_tx_pcm_buffer}
use o_walkie.Session.Transmit.Cut.{frames_of}
use o_walkie.Session.Transmit.Flush.{send_frames, flush_tx_pcm_buffer-frames}
use o_walkie.Session.Worker.{submit_tx, item_of}
use o_walkie.Session.Worker.Queue.{IsOpen}
use o_walkie.Session.Keepalive.{keepalive_timings_for, await_ack, keepalive_round, keepalive_loop}
use o_walkie.Session.Keepalive.Loss.{Comes, Ends, keepalive_loop_left}
use o_walkie.Session.Inbound.{on_ws_read, read_text}

-- A welcomed session with five samples in its buffer and frames of three samples.
abbrev ready : State slow
ready = record (new_state slow) {
  connected = true;
  welcome = record default_welcome { session_id = 7 };
  udp_socket = bound (pos 40000);
  has_rx_opus = true;
  opus = record { encoder = some 0; decoder = some 0; sample_rate = 8000; frame_size = 3 };
  tx_pcm_buffer = pos 1 ∷ pos 2 ∷ pos 3 ∷ pos 4 ∷ pos 5 ∷ [];
}

ready-CanSend : CanSend slow ready
ready-CanSend = record {
  port = pos 40000;
  is_bound = refl;
  is_connected = refl;
  is_welcomed = omega arith;
  id_word = omega arith;
}

flush_tx_pcm_buffer-frames_example :
    flush_tx_pcm_buffer slow ready
    ≡ record (send_frames slow (frames_of 3 ready.tx_pcm_buffer) ready) { tx_pcm_buffer = [] }
flush_tx_pcm_buffer-frames_example = flush_tx_pcm_buffer-frames slow ready (omega arith)

send_opus_frame-unpack_example :
    (buf : List ℕ) × ((send_opus_frame slow (9 ∷ []) 200 ready).datagrams ≡ buf ∷ [])
    × (unpack buf ≡ success (frame_packet slow ready (9 ∷ []) 200))
    × ((send_opus_frame slow (9 ∷ []) 200 ready).seq ≡ 1)
send_opus_frame-unpack_example =
    send_opus_frame-unpack slow ready (9 ∷ []) 200 ready-CanSend refl (omega arith) (omega arith)

abbrev full : State slow
full = record ready { tx_queue = replicate 48 (item_of slow tx_pcm (pos 1 ∷ []) []) }

full-IsOpen : IsOpen slow full
full-IsOpen = record {
  is_connected = refl;
  is_welcomed = omega arith;
  goes_on = refl;
  works = refl;
}

-- A keepalive that has waited for 19 seconds.
abbrev waiting : State slow
waiting = record ready { last_udp_keepalive_pending_since_ns = 1000000000 }

-- A welcomed session waits, and is lost in the first round.
waiting-lost : (keepalive_loop slow ((λ u. u) ∷ []) waiting).0 ≡ false
unfolding keepalive_loop keepalive_round await_ack keepalive_timings_for
waiting-lost = refl

keepalive_loop_left_example :
    (before : State slow) × Comes slow ((λ u. u) ∷ []) waiting before
    × Ends slow before (keepalive_loop slow ((λ u. u) ∷ []) waiting).1
keepalive_loop_left_example = keepalive_loop_left slow ((λ u. u) ∷ []) waiting waiting-lost

abbrev heard : UdpAudioPacket
heard = record { session_id = 9; sequence = 300; signal_strength = 17; opus = 4 ∷ 5 ∷ [] }

abbrev heard_bytes : List ℕ
heard_bytes = 0 ∷ 0 ∷ 0 ∷ 9 ∷ 0 ∷ 0 ∷ 1 ∷ 44 ∷ 17 ∷ 4 ∷ 5 ∷ []

heard_packed : pack heard ≡ success heard_bytes
unfolding pack
heard_packed = refl

abbrev relay : ConnectParams
relay = record {
  host = b'r' ∷ [];
  port = pos 9000;
  channel = "1";
  use_tls = false;
  repeater_mode = false;
}

-- A session that is connected and welcomed.
abbrev met : State slow
met =
    (on_ws_read slow (read_text "welcome")
      (connect slow relay false (dialled (pos 40000)) (new_state slow)).1).1

met-Reach : Reach slow met
met-Reach =
    steps _ _ (steps _ _ starts (connects _ relay (dialled (pos 40000))))
      (reads _ (read_text "welcome"))

Reach-IsCoherent_example :
    IsCoherent slow
      (disconnect slow (submit_tx slow (notify_network_changed slow) tx_open [] [] met).1)
Reach-IsCoherent_example =
    Reach-IsCoherent slow
      (disconnect slow (submit_tx slow (notify_network_changed slow) tx_open [] [] met).1)
      (steps _ _
        (submits (notify_network_changed slow) tx_open [] [] met met-Reach
          (steps _ _ met-Reach (moves _)))
        (disconnects _))

-- A session with a WebSocket whose last recovery was at ten seconds.
abbrev linked : State slow
linked = record ready { ws_exists = true; last_network_recovery_at_ns = 10000000000 }

abbrev talking : State slow
talking = record linked { session_state = record (linked.session_state) { local_tx_active = true } }

end_local_tx-notify_network_changed_example :
    (let noted = notify_network_changed slow talking in
      let after = end_local_tx slow noted in
      (noted.udp_socket ≡ talking.udp_socket)
      × (noted.binds ≡ 0)
      × (IsDue slow talking
          → (after.udp_socket ≡ made slow (slow.bind 0))
            × (after.binds ≡ 1)
            × (after.last_network_recovery_at_ns ≡ slow.clock talking.clock_reads))
      × (IsRecent slow talking
          → (after.udp_socket ≡ talking.udp_socket)
            × (after.binds ≡ 0)
            × (after.pending_network_recreate ≡ true)))
end_local_tx-notify_network_changed_example =
    end_local_tx-notify_network_changed slow talking refl refl refl
