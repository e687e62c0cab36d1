-- ===== src/Session/Worker/Queue.antt =====
-- Which commands the queue of the uplink takes (submitTx of session.cpp).
use o_walkie.Base.{
  ℕ, ℤ, ◌≤◌, ◌≡◌, ◌≢◌, ◌↔◌, ◌⊎◌, true, false, List, [], ◌∷◌, ◌++◌, length, length-append, is_empty,
  if◌then◌else◌, arith,
}
use o_walkie.Types.{ok, queue_full, TxSubmitOp, tx_pcm}
use o_walkie.Session.State.{Env, State}
use o_walkie.Session.Worker.{submit_tx, kept_queue, item_of, is_full}

module _ (env : Env) where
  -- A session that takes uplink commands.
  pub record IsOpen (s : State env) : Type 0 where
    pub is_connected : s.connected ≡ true
    pub is_welcomed : s.welcome.session_id ≢ 0
    pub goes_on : s.stop_requested ≡ false
    pub works : s.tx_worker_stop ≡ false

  -- The session as a command finds it at the queue, after the wait for room if there is one.
  abbrev pub at_queue : (State env → State env) → TxSubmitOp → State env → State env
  at_queue waited op s = if is_full env op s then waited s else s

  -- A command that is accepted stands at the end of the queue, which an Open empties first, and a
  -- worker runs. One that is refused leaves the session as it was or as others made it meanwhile.
  pub submit_tx_lem :
      (waited : State env → State env) (op : TxSubmitOp) (pcm : List ℤ) (bytes : List ℕ)
      (s : State env)
      → (((submit_tx env waited op pcm bytes s).0 ≡ ok)
          × ((submit_tx env waited op pcm bytes s).1.tx_queue
              ≡ kept_queue env op (at_queue waited op s).tx_queue ++ item_of env op pcm bytes ∷ [])
          × ((submit_tx env waited op pcm bytes s).1.tx_worker_running ≡ true))
        ⊎ (((submit_tx env waited op pcm bytes s).0 ≢ ok)
            × (((submit_tx env waited op pcm bytes s).1 ≡ s)
                ⊎ ((submit_tx env waited op pcm bytes s).1 ≡ at_queue waited op s)))
  unfolding submit_tx
  submit_tx_lem waited op pcm bytes s = ground arith

  -- An open session refuses samples as QueueFull exactly if there are samples, and 48 commands
  -- stand in the queue before its wait for room and still after it.
  pub submit_tx_full_iff :
      (waited : State env → State env) (pcm : List ℤ) (s : State env)
      → IsOpen s
      → ((submit_tx env waited tx_pcm pcm [] s).0 ≡ queue_full)
        ↔ ((is_empty pcm ≡ false) × (48 ≤ length s.tx_queue) × (48 ≤ length (waited s).tx_queue))
  unfolding submit_tx
  submit_tx_full_iff waited pcm s h = (λ q. ground (arith, h), λ q. ground (arith, h))

  -- Samples never make the queue longer than 48 commands, if other threads do not either.
  pub submit_tx_bound :
      (waited : State env → State env) (pcm : List ℤ) (bytes : List ℕ) (s : State env)
      → length s.tx_queue ≤ 48
      → length (waited s).tx_queue ≤ 48
      → length (submit_tx env waited tx_pcm pcm bytes s).1.tx_queue ≤ 48
  unfolding submit_tx
  submit_tx_bound waited pcm bytes s h k = ground (
    arith,
    length-append s.tx_queue (item_of env tx_pcm pcm bytes ∷ []),
    length-append (waited s).tx_queue (item_of env tx_pcm pcm bytes ∷ []),
  )
