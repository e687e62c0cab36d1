-- ===== src/Session/Outbound/Effects.antt =====
-- What the sending functions of session.cpp leave alone.
use o_walkie.Base.{
  ℕ, ◌≡◌, refl, ap, ◌∙◌, Bool, not, ◌||◌, List, ◌∷◌, is_empty, ◌==◌, Bool-cases, inl, inr,
}
use o_walkie.Types.{Outcome-cases, UdpAudioPacket}
use o_walkie.Wire.{pack}
use o_walkie.Session.State.{Env, State, UdpSocket, bound, absent, shut}
use o_walkie.Session.Outbound.{
  through, send_opus_frame, send_udp_tx_eof, send_udp_payload, next_seq, has_socket,
}

module _ (env : Env) where
  -- Only the sequence number and the datagrams differ.
  pub record Sends (s t : State env) : Type 0 where
    pub new_seq : ℕ
    pub out : List (List ℕ)
    pub same : t ≡ record s { seq = new_seq; datagrams = out }

  pub Sends-refl : (s : State env) → Sends s s
  Sends-refl s = record { new_seq = s.seq; out = s.datagrams; same = refl }

  pub Sends-trans : {s t u : State env} → Sends s t → Sends t u → Sends s u
  Sends-trans {s} {t} {u} a b = record {
    new_seq = b.new_seq;
    out = b.out;
    same =
        b.same ∙ ap {A = State env} (λ v. record v { seq = b.new_seq; datagrams = b.out }) a.same;
  }

  through-Sends :
      (socket : UdpSocket) (payload : List ℕ) (s : State env)
      → Sends s (through env socket payload s)
  unfolding through
  through-Sends absent payload s = Sends-refl s
  through-Sends (bound port) payload s = record {
    new_seq = s.seq;
    out = payload ∷ s.datagrams;
    same = refl;
  }
  through-Sends shut payload s = Sends-refl s

  pub send_udp_payload-Sends :
      (payload : List ℕ) (s : State env) → Sends s (send_udp_payload env payload s)
  unfolding send_udp_payload
  send_udp_payload-Sends payload s =
      elim (Bool-cases (not s.connected || s.welcome.session_id == 0)) [
        | inl e ↦ rw e (Sends-refl s)
        | inr e ↦ rw e (through-Sends s.udp_socket payload s)
      ]

  seq-Sends : (s : State env) (q : ℕ) → Sends s (record s { seq = q })
  seq-Sends s q = record { new_seq = q; out = s.datagrams; same = refl }

  pub send_opus_frame-Sends :
      (bytes : List ℕ) (signal : ℕ) (s : State env) → Sends s (send_opus_frame env bytes signal s)
  unfolding send_opus_frame
  send_opus_frame-Sends bytes signal s = elim (Bool-cases (is_empty bytes)) [
    | inl e ↦ rw e (Sends-refl s)
    | inr e ↦ elim (Outcome-cases (pack (packet bytes signal s))) [
      | inl (buf, p) ↦
          rw (e, p)
            (Sends-trans (seq-Sends s (next_seq env s))
              (send_udp_payload-Sends buf (record s { seq = next_seq env s })))
      | inr (r, p) ↦ rw (e, p) (seq-Sends s (next_seq env s))
    ]
  ]
    where
      packet : List ℕ → ℕ → State env → UdpAudioPacket
      packet bytes signal s = record {
        session_id = s.welcome.session_id;
        sequence = next_seq env s;
        signal_strength = signal;
        opus = bytes;
      }

  pub send_udp_tx_eof-Sends : (s : State env) → Sends s (send_udp_tx_eof env s)
  unfolding send_udp_tx_eof
  send_udp_tx_eof-Sends s = elim (Bool-cases (idle s)) [
    | inl e ↦ rw e (Sends-refl s)
    | inr e ↦ rw e (
        Sends-trans (seq-Sends s (next_seq env s))
          (send_udp_payload-Sends _ (record s { seq = next_seq env s })))
  ]
    where
      idle : State env → Bool
      idle s = not (has_socket env s.udp_socket) || s.welcome.session_id == 0
