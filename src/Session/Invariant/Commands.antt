-- ===== src/Session/Invariant/Commands.antt =====
-- The uplink worker and its commands keep a session coherent (session.cpp).
use o_walkie.Base.{
  ℕ, zero, suc, ℤ, ◌+◌, ◌||◌, ◌==◌, ◌≡◌, refl, true, false, not, ◌&&◌, List, [], ◌∷◌, Option, none,
  some, length, ltb, if-holds, Option-cases, inl, inr,
}
use mathlib.Core.Path.{subst}
use o_walkie.Types.{Result, TxSubmitOp, tx_open, tx_pcm, tx_opus, tx_voice_end, tx_close, tx_abort}
use o_walkie.Session.State.{Env, State, TxQueueItem}
use o_walkie.Session.Transmit.{flush_tx_pcm_buffer}
use o_walkie.Session.Transmit.Feeds.{
  flush_tx_pcm_buffer-Feeds, feed_tx_pcm-Feeds, send_tx_opus-Feeds,
}
use o_walkie.Session.Worker.{
  pace_tx_frame, process_op, watchdog, take_item, enqueue, is_full, is_abort, has_payload,
  tx_worker_round, finish_worker, stop_tx_pipeline, submit_tx,
}
use o_walkie.Session.Invariant.{IsCoherent, Neutral, Neutral-trans, Neutral-IsCoherent, quiet}
use o_walkie.Session.Invariant.Quiet.{interruptible_sleep-Neutral}
use o_walkie.Session.Invariant.Uplink.{
  Feeds-Neutral, tx_start-IsCoherent, tx_end-IsCoherent, abort_tx-IsCoherent,
  client_tx_open-abort_tx,
}

module _ (env : Env) where
  -- A step that leaves the callback's events and the uplink alone.
  pub still :
      {s t : State env}
      → IsCoherent env s
      → t.session_state ≡ s.session_state
      → t.events ≡ s.events
      → t.client_tx_open ≡ s.client_tx_open
      → IsCoherent env t
  still {s} {t} c p q r = Neutral-IsCoherent env (quiet env s t p q r) c

  pace_tx_frame-Neutral : (s : State env) → Neutral env s (pace_tx_frame env s)
  unfolding pace_tx_frame
  pace_tx_frame-Neutral s =
      let t = record s { clock_reads = s.clock_reads + 1 } in
      let n : Neutral env s t = quiet env s t refl refl refl in
      if-holds (Neutral env s) _ _ _
        (Neutral-trans env (Neutral-trans env n (interruptible_sleep-Neutral env t))
          (quiet env _ _ refl refl refl))
        (if-holds (Neutral env s) _ _ _ (quiet env s _ refl refl refl)
          (quiet env s _ refl refl refl))

  paced :
      (s t : State env) → IsCoherent env s → Neutral env (pace_tx_frame env s) t → IsCoherent env t
  paced s t c n = Neutral-IsCoherent env (Neutral-trans env (pace_tx_frame-Neutral s) n) c

  pub process_op-IsCoherent :
      (op : TxSubmitOp) (pcm : List ℤ) (bytes : List ℕ) (s : State env)
      → IsCoherent env s
      → IsCoherent env (process_op env op pcm bytes s)
  unfolding process_op
  process_op-IsCoherent tx_open pcm bytes s c =
      still
        (tx_start-IsCoherent env _
          (if-holds (IsCoherent env) s.client_tx_open _ s (tx_end-IsCoherent env s c) c))
        refl refl refl
  process_op-IsCoherent tx_pcm pcm bytes s c =
      if-holds (IsCoherent env) s.client_tx_open _ s
        (still (paced s _ c (Feeds-Neutral env (feed_tx_pcm-Feeds env pcm (pace_tx_frame env s))))
          refl refl refl)
        c
  process_op-IsCoherent tx_opus pcm bytes s c =
      if-holds (IsCoherent env) s.client_tx_open _ s
        (still
          (paced s _ c (Feeds-Neutral env (send_tx_opus-Feeds env bytes (pace_tx_frame env s))))
          refl refl refl)
        c
  process_op-IsCoherent tx_voice_end pcm bytes s c =
      still
        (if-holds (IsCoherent env) s.client_tx_open (flush_tx_pcm_buffer env s) s
          (Neutral-IsCoherent env (Feeds-Neutral env (flush_tx_pcm_buffer-Feeds env s)) c) c)
        refl refl refl
  process_op-IsCoherent tx_close pcm bytes s c = still (tx_end-IsCoherent env s c) refl refl refl
  process_op-IsCoherent tx_abort pcm bytes s c = still (abort_tx-IsCoherent env s c) refl refl refl

  pub watchdog-IsCoherent : (s : State env) → IsCoherent env s → IsCoherent env (watchdog env s)
  unfolding watchdog
  watchdog-IsCoherent s c =
      let t = record s { clock_reads = s.clock_reads + 1 } in
      let d : IsCoherent env t = still c refl refl refl in
      if-holds (IsCoherent env) (s.client_tx_open && ltb 0 s.tx_open_at_ns) _ s
        (if-holds (IsCoherent env) _ _ t (still (tx_end-IsCoherent env t d) refl refl refl) d) c

  -- The state after a round, if the worker goes on.
  abbrev AllCoherent : Option (State env) → Type 0
  AllCoherent none = Unit {0}
  AllCoherent (some t) = IsCoherent env t

  take_item-IsCoherent :
      (queue : List TxQueueItem) (s : State env)
      → IsCoherent env s
      → AllCoherent (take_item env queue s)
  unfolding take_item
  take_item-IsCoherent [] s c =
      if-holds AllCoherent s.tx_worker_stop none _ tt (watchdog-IsCoherent s c)
  take_item-IsCoherent (item ∷ rest) s c =
      process_op-IsCoherent item.op item.pcm item.opus_bytes _ (still c refl refl refl)

  pub tx_worker_round-IsCoherent :
      (s t : State env) → IsCoherent env s → tx_worker_round env s ≡ some t → IsCoherent env t
  unfolding tx_worker_round
  tx_worker_round-IsCoherent s t c e = subst AllCoherent e (take_item-IsCoherent s.tx_queue s c)

  finish_worker-IsCoherent :
      (fuel : ℕ) (s : State env) → IsCoherent env s → IsCoherent env (finish_worker env fuel s)
  unfolding finish_worker
  finish_worker-IsCoherent zero s c = c
  finish_worker-IsCoherent (suc fuel) s c = elim (Option-cases (tx_worker_round env s)) [
    | inl e ↦ rw (e, finish_worker) c
    | inr (t, e) ↦
        rw (e, finish_worker) (finish_worker-IsCoherent fuel t (tx_worker_round-IsCoherent s t c e))
  ]

  pub stop_tx_pipeline-IsCoherent :
      (s : State env) → IsCoherent env s → IsCoherent env (stop_tx_pipeline env s)
  unfolding stop_tx_pipeline
  stop_tx_pipeline-IsCoherent s c =
      let stopping = record s { tx_worker_stop = true } in
      let d : IsCoherent env stopping = still c refl refl refl in
      abort_tx-IsCoherent env _ (
        still
          (if-holds (IsCoherent env) s.tx_worker_running _ stopping
            (finish_worker-IsCoherent (suc (length s.tx_queue)) stopping d) d)
          refl refl refl)

  pub client_tx_open-stop_tx_pipeline :
      (s : State env) → (stop_tx_pipeline env s).client_tx_open ≡ false
  unfolding stop_tx_pipeline
  client_tx_open-stop_tx_pipeline s = client_tx_open-abort_tx env _

  enqueue-IsCoherent :
      (op : TxSubmitOp) (pcm : List ℤ) (bytes : List ℕ) (s : State env)
      → IsCoherent env s
      → IsCoherent env (enqueue env op pcm bytes s).1
  unfolding enqueue
  enqueue-IsCoherent op pcm bytes s c =
      if-holds (λ (p : Result × State env). IsCoherent env p.1) (is_full env op s) _ _ c
        (if-holds (IsCoherent env) s.tx_worker_running _ _ (still c refl refl refl)
          (still c refl refl refl))

  pub submit_tx-IsCoherent :
      (waited : State env → State env) (op : TxSubmitOp) (pcm : List ℤ) (bytes : List ℕ)
      (s : State env)
      → IsCoherent env s
      → IsCoherent env (waited s)
      → IsCoherent env (submit_tx env waited op pcm bytes s).1
  unfolding submit_tx
  submit_tx-IsCoherent waited op pcm bytes s c d =
      let P : Result × State env → Type 0 = λ p. IsCoherent env p.1 in
      let before = not (is_abort op) && (not s.connected || s.welcome.session_id == 0) in
      if-holds P before _ _ c (
        if-holds P (not (has_payload env op pcm bytes)) _ _ c (
          if-holds P (s.stop_requested && not (is_abort op)) _ _ c (
            if-holds P (s.tx_worker_stop && not (is_abort op)) _ _ c (
              enqueue-IsCoherent op pcm bytes _
                (if-holds (IsCoherent env) (is_full env op s) (waited s) s d c)))))
