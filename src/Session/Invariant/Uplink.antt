-- ===== src/Session/Invariant/Uplink.antt =====
-- The operations that start and end a local transmission (session.cpp).
use o_walkie.Base.{
  ℕ, ◌≡◌, refl, sym, ◌∙◌, true, false, not, ◌||◌, List, [], ◌∷◌, ltb, ◌==◌, if◌then◌else◌, ap,
  if-holds, if-cases,
}
use mathlib.Core.Bool.{false≢true}
use o_walkie.Types.{EventType, Result, event_of}
use o_walkie.Session.State.{Env, State}
use o_walkie.Session.Events.{emit_event, apply_event_state, interruptible_sleep, meanwhile}
use o_walkie.Session.Outbound.{begin_local_tx, end_local_tx}
use o_walkie.Session.Transmit.{
  flush_tx_pcm_buffer, tx_start, tx_end, send_tx_eof_burst, eof_rounds, abort_tx,
}
use o_walkie.Session.Invariant.{
  last_tx, Alternates, IsCoherent, Neutral, Neutral-refl, Neutral-trans, Neutral-IsCoherent, quiet,
}
use o_walkie.Session.Invariant.Quiet.{
  if-Neutral, interruptible_sleep-Neutral, meanwhile-Neutral, send_udp_tx_eof-Neutral,
  drain_pending_network_recreate-Neutral,
}
use o_walkie.Session.Transmit.Feeds.{Feeds, flush_tx_pcm_buffer-Feeds}

module _ (env : Env) where
  pub Feeds-Neutral : {s t : State env} → Feeds env s t → Neutral env s t
  Feeds-Neutral {s} {t} d =
      quiet env s t (ap (λ (u : State env). u.session_state) d.same)
        (ap (λ (u : State env). u.events) d.same) (ap (λ (u : State env). u.client_tx_open) d.same)

  -- The uplink is closed, and the end of the transmission may be still to report.
  pub record IsClosing (s : State env) : Type 0 where
    pub active : s.session_state.local_tx_active ≡ last_tx s.events
    pub alternating : Alternates s.events
    pub closed : s.client_tx_open ≡ false

  pub Neutral-IsClosing : {s t : State env} → Neutral env s t → IsClosing s → IsClosing t
  Neutral-IsClosing n c = record {
    active = cc (n.same_active, n.same_last, c.active);
    alternating = n.still c.alternating;
    closed = n.same_open ∙ c.closed;
  }

  pub IsCoherent-IsClosing :
      {s : State env} → IsCoherent env s → s.client_tx_open ≡ false → IsClosing s
  IsCoherent-IsClosing c e = record { active = c.active; alternating = c.alternating; closed = e }

  reported :
      (s : State env)
      → IsClosing s
      → s.session_state.local_tx_active ≡ true
      → IsCoherent env (emit_event env (event_of EventType.local_tx_end) s)
  unfolding emit_event apply_event_state
  reported s c e = record {
    active = refl;
    alternating = (sym c.active ∙ e, c.alternating);
    shown = λ h. absurd (false≢true (sym c.closed ∙ h));
  }

  pub end_local_tx-IsCoherent : (s : State env) → IsClosing s → IsCoherent env (end_local_tx env s)
  unfolding end_local_tx
  end_local_tx-IsCoherent s c =
      if-cases (IsCoherent env) s.session_state.local_tx_active _ s
        (λ e.
          Neutral-IsCoherent env (drain_pending_network_recreate-Neutral env _) (reported s c e))
        (λ e. record {
          active = c.active;
          alternating = c.alternating;
          shown = λ h. absurd (false≢true (sym c.closed ∙ h));
        })

  client_tx_open-end_local_tx :
      (s : State env) → (end_local_tx env s).client_tx_open ≡ s.client_tx_open
  unfolding end_local_tx emit_event
  client_tx_open-end_local_tx s =
      if-holds (λ (t : State env). t.client_tx_open ≡ s.client_tx_open)
        s.session_state.local_tx_active _ s
        (drain_pending_network_recreate-Neutral env
          (emit_event env (event_of EventType.local_tx_end) s)).same_open
        refl

  pub end_local_tx-over :
      (s : State env) → (end_local_tx env s).session_state.local_tx_active ≡ false
  unfolding end_local_tx emit_event apply_event_state
  end_local_tx-over s =
      if-cases (λ (t : State env). t.session_state.local_tx_active ≡ false)
        s.session_state.local_tx_active _ s
        (λ e.
          (drain_pending_network_recreate-Neutral env
            (emit_event env (event_of EventType.local_tx_end) s)).same_active)
        (λ e. e)

  pub end_local_tx-IsClosing : (s : State env) → IsClosing s → IsClosing (end_local_tx env s)
  end_local_tx-IsClosing s c =
      IsCoherent-IsClosing (end_local_tx-IsCoherent s c) (client_tx_open-end_local_tx s ∙ c.closed)

  pub tx_start-IsCoherent : (s : State env) → IsCoherent env s → IsCoherent env (tx_start env s).1
  unfolding tx_start begin_local_tx emit_event apply_event_state
  tx_start-IsCoherent s c =
      let opened = record s { tx_pcm_buffer = []; client_tx_open = true } in
      if-holds (λ (p : Result × State env). IsCoherent env p.1)
        (not s.connected || s.welcome.session_id == 0) _ _ c
        (if-cases (IsCoherent env) s.session_state.local_tx_active opened
          (emit_event env (event_of EventType.local_tx_start) opened)
          (λ e. record { active = c.active; alternating = c.alternating; shown = λ _. e })
          (λ e. record {
            active = refl;
            alternating = (sym c.active ∙ e, c.alternating);
            shown = λ _. refl;
          }))

  eof_rounds-Neutral : (ds : List ℕ) (s : State env) → Neutral env s (eof_rounds env ds s)
  unfolding eof_rounds
  eof_rounds-Neutral [] s = Neutral-refl env s
  eof_rounds-Neutral (d ∷ ds) s =
      let slept = if ltb 0 d then interruptible_sleep env s else s in
      let n : Neutral env s slept =
        if-Neutral env _ s _ _ (interruptible_sleep-Neutral env s) (Neutral-refl env s) in
      if-Neutral env slept.stop_requested s slept _ n (
        Neutral-trans env (Neutral-trans env n (send_udp_tx_eof-Neutral env slept))
          (eof_rounds-Neutral ds _))

  send_tx_eof_burst-IsCoherent :
      (s : State env) → IsClosing s → IsCoherent env (send_tx_eof_burst env s).1
  unfolding send_tx_eof_burst
  send_tx_eof_burst-IsCoherent s c =
      if-holds (λ (p : Result × State env). IsCoherent env p.1) (not s.connected) _ _
        (record {
          active = c.active;
          alternating = c.alternating;
          shown = λ h. absurd (false≢true (sym c.closed ∙ h));
        })
        (end_local_tx-IsCoherent _ (
          Neutral-IsClosing
            (Neutral-trans env (quiet env s _ refl refl refl)
              (eof_rounds-Neutral (0 ∷ 20 ∷ 60 ∷ []) (record s { tx_pcm_buffer = [] })))
            c))

  pub tx_end-IsCoherent : (s : State env) → IsCoherent env s → IsCoherent env (tx_end env s).1
  unfolding tx_end
  tx_end-IsCoherent s c =
      let flushed = flush_tx_pcm_buffer env s in
      let d =
        Neutral-IsCoherent env (meanwhile-Neutral env flushed)
          (Neutral-IsCoherent env (Feeds-Neutral (flush_tx_pcm_buffer-Feeds env s)) c) in
      let P : Result × State env → Type 0 = λ p. IsCoherent env p.1 in
      if-holds P (not s.connected) _ _ c (
        if-holds P (not s.client_tx_open) _ _ c (
          send_tx_eof_burst-IsCoherent
            (record (meanwhile env flushed) { tx_pcm_buffer = []; client_tx_open = false })
            (record { active = d.active; alternating = d.alternating; closed = refl })))

  -- Whatever happened before, the uplink is closed after abortTx, and its end reported.
  pub abort_tx-IsCoherent : (s : State env) → IsCoherent env s → IsCoherent env (abort_tx env s)
  unfolding abort_tx
  abort_tx-IsCoherent s c = Neutral-IsCoherent env (quiet env _ _ refl refl refl) (
      if-holds (λ (t : State env). IsCoherent env t) s.client_tx_open _ _
        (end_local_tx-IsCoherent _
          (record { active = c.active; alternating = c.alternating; closed = refl }))
        (record { active = c.active; alternating = c.alternating; shown = c.shown }))

  pub client_tx_open-abort_tx : (s : State env) → (abort_tx env s).client_tx_open ≡ false
  unfolding abort_tx
  client_tx_open-abort_tx s =
      if-cases (λ (t : State env). t.client_tx_open ≡ false) s.client_tx_open _ _
        (λ e. client_tx_open-end_local_tx _) (λ e. e)
