-- ===== src/Session/Worker.antt =====
-- The queue of uplink commands and the worker thread that carries them out (session.cpp).
pub mod Queue
use o_walkie.Base.{
  ℕ, ℤ, pos, zero, suc, ◌+◌, ◌-◌, ◌*◌, Bool, true, false, not, ◌&&◌, ◌||◌, List, [], ◌∷◌, ◌++◌,
  Option, none, some, length, is_empty, ltb, leb, ◌==◌, if◌then◌else◌,
}
use o_walkie.Types.{
  Result, ok, invalid_arg, not_connected, queue_full, TxSubmitOp, tx_open, tx_pcm, tx_opus,
  tx_voice_end, tx_close, tx_abort,
}
use o_walkie.Session.State.{Env, State, TxQueueItem, now_ns, ns_per_sec, ns_per_ms}
use o_walkie.Session.Events.{interruptible_sleep}
use o_walkie.Session.Transmit.{
  flush_tx_pcm_buffer, tx_start, tx_end, feed_tx_pcm, send_tx_opus, abort_tx,
}

-- kTxQueueCapacity, kTxOpenWatchdogNs
abbrev pub tx_queue_capacity : ℕ
tx_queue_capacity = 48

abbrev pub tx_open_watchdog_ns : ℕ
tx_open_watchdog_ns = 2 * ns_per_sec

abbrev pub is_abort : TxSubmitOp → Bool
is_abort tx_abort = true
is_abort _ = false

module _ (env : Env) where
  -- void paceTxFrame(int64_t& nextPaceAtNs)
  unfoldable pub pace_tx_frame : State env → State env
  pace_tx_frame s =
      let frame_ns = (if s.welcome.packet_ms == 0 then 20 else s.welcome.packet_ms) * ns_per_ms in
      let (now, t) = now_ns env s in
      let next = if t.next_pace_at_ns == 0 then now else t.next_pace_at_ns in
      if ltb now next
      then record (interruptible_sleep env t) { next_pace_at_ns = next + frame_ns }
      else if ltb (next + 2 * frame_ns) now
      then (let (late, u) = now_ns env t in record u { next_pace_at_ns = late + frame_ns })
      else record t { next_pace_at_ns = next + frame_ns }

  -- txLastActivityNs = nowNs()
  abbrev pub touch : State env → State env
  touch s = let (now, t) = now_ns env s in record t { tx_last_activity_ns = now }

  -- The switch of processTxItem.
  unfoldable pub process_op : TxSubmitOp → List ℤ → List ℕ → State env → State env
  process_op tx_open pcm bytes s =
      let ended = if s.client_tx_open then (tx_end env s).1 else s in
      let (now, t) = now_ns env (tx_start env ended).1 in
      record t { tx_open_at_ns = now; tx_last_activity_ns = now; next_pace_at_ns = 0 }
  process_op tx_pcm pcm bytes s =
      if s.client_tx_open then touch (feed_tx_pcm env pcm (pace_tx_frame s)).1 else s
  process_op tx_opus pcm bytes s =
      if s.client_tx_open then touch (send_tx_opus env bytes (pace_tx_frame s)).1 else s
  process_op tx_voice_end pcm bytes s =
      touch (if s.client_tx_open then flush_tx_pcm_buffer env s else s)
  process_op tx_close pcm bytes s = record (tx_end env s).1 {
    tx_open_at_ns = 0;
    tx_last_activity_ns = 0;
    next_pace_at_ns = 0;
  }
  process_op tx_abort pcm bytes s = record (abort_tx env s) { next_pace_at_ns = 0 }

  -- void processTxItem(const TxQueueItem& item, int64_t& nextPaceAtNs)
  abbrev pub process_tx_item : TxQueueItem → State env → State env
  process_tx_item item = process_op item.op item.pcm item.opus_bytes

  -- An open transmission without a command for two seconds is ended.
  unfoldable pub watchdog : State env → State env
  watchdog s =
      if s.client_tx_open && ltb 0 s.tx_open_at_ns
      then (let (now, t) = now_ns env s in
          if ltb tx_open_watchdog_ns (now - t.tx_last_activity_ns)
          then record (tx_end env t).1 {
            tx_open_at_ns = 0;
            tx_last_activity_ns = 0;
            next_pace_at_ns = 0;
          }
          else t)
      else s

  -- A round of txWorkerLoop, once its wait is over; none leaves the loop.
  unfoldable pub take_item : List TxQueueItem → State env → Option (State env)
  take_item [] s = if s.tx_worker_stop then none else some (watchdog s)
  take_item (item ∷ rest) s = some (process_tx_item item (record s { tx_queue = rest }))

  unfoldable pub tx_worker_round : State env → Option (State env)
  unfolding take_item
  tx_worker_round s = take_item s.tx_queue s

  -- The rounds that are left when the worker is told to stop: it empties the queue first. A worker
  -- adds nothing to the queue, so a round for each item and one to leave are enough.
  unfoldable pub finish_worker : ℕ → State env → State env
  finish_worker zero s = s
  finish_worker (suc fuel) s = elim (tx_worker_round s) [ none ↦ s | some t ↦ finish_worker fuel t ]

  -- void stopTxPipeline()
  unfoldable pub stop_tx_pipeline : State env → State env
  stop_tx_pipeline s =
      let stopping = record s { tx_worker_stop = true } in
      let joined =
        if s.tx_worker_running
        then finish_worker (suc (length s.tx_queue)) stopping
        else stopping in
      abort_tx env
        (record joined { tx_worker_running = false; tx_worker_stop = false; tx_queue = [] })

  -- void ensureTxWorkerStarted(), whose new thread starts with a pace of its own
  abbrev pub ensure_tx_worker_started : State env → State env
  ensure_tx_worker_started s =
      if s.tx_worker_running
      then s
      else record s { tx_worker_stop = false; tx_worker_running = true; next_pace_at_ns = 0 }

  abbrev pub item_of : TxSubmitOp → List ℤ → List ℕ → TxQueueItem
  item_of tx_pcm pcm bytes = record { op = tx_pcm; pcm = pcm; opus_bytes = [] }
  item_of tx_opus pcm bytes = record { op = tx_opus; pcm = []; opus_bytes = bytes }
  item_of op pcm bytes = record { op = op; pcm = []; opus_bytes = [] }

  -- if (op == TxSubmitOp::Open) txQueue.clear();
  abbrev pub kept_queue : TxSubmitOp → List TxQueueItem → List TxQueueItem
  kept_queue tx_open queue = []
  kept_queue _ queue = queue

  abbrev pub is_pcm : TxSubmitOp → Bool
  is_pcm tx_pcm = true
  is_pcm _ = false

  abbrev pub has_payload : TxSubmitOp → List ℤ → List ℕ → Bool
  has_payload tx_pcm pcm bytes = not (is_empty pcm)
  has_payload tx_opus pcm bytes = not (is_empty bytes)
  has_payload _ pcm bytes = true

  abbrev pub is_full : TxSubmitOp → State env → Bool
  is_full op s = is_pcm op && leb tx_queue_capacity (length s.tx_queue)

  -- The part of submitTxInternal behind its wait.
  unfoldable pub enqueue : TxSubmitOp → List ℤ → List ℕ → State env → Result × State env
  enqueue op pcm bytes s = if is_full op s then (queue_full, s) else (
    ok,
    ensure_tx_worker_started
        (record s { tx_queue = kept_queue op s.tx_queue ++ item_of op pcm bytes ∷ [] }),
  )

  -- Result submitTxInternal(TxSubmitOp op, std::span<const int16_t> pcm, std::span<const uint8_t>
  -- opus). The first argument is what other threads make of the session while it waits for room in
  -- the queue, until there is room or the deadline has passed.
  unfoldable pub submit_tx :
      (State env → State env) → TxSubmitOp → List ℤ → List ℕ → State env → Result × State env
  unfolding enqueue
  submit_tx waited op pcm bytes s =
      if not (is_abort op) && (not s.connected || s.welcome.session_id == 0)
      then (not_connected, s)
      else if not (has_payload op pcm bytes)
      then (invalid_arg, s)
      else if s.stop_requested && not (is_abort op)
      then (not_connected, s)
      else if s.tx_worker_stop && not (is_abort op)
      then (not_connected, s)
      else enqueue op pcm bytes (if is_full op s then waited s else s)
