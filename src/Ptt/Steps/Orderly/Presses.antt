-- ===== src/Ptt/Steps/Orderly/Presses.antt =====
-- An orderly state of push to talk, and that pressing and releasing the button keeps it orderly
-- (MainFrame.cpp).
use o_walkie.Base.{
  ℕ, ◌+◌, ◌≡◌, ◌≢◌, Bool, true, false, not, ◌||◌, List, [], ◌∷◌, leb, ◌==◌, if-holds, if-cases,
  arith,
}
use o_walkie.Audio.{AudioLib}
use o_walkie.Audio.Engine.{start_transmit}
use o_walkie.Audio.Cues.{play_ptt_press}
use o_walkie.Ptt.Frame.{
  Frame, Answers, burst_threshold, with_engine, refresh, begin_ptt_tx, finish_ptt_tx, end_ptt_tx,
  toggle_ptt_tx,
}
use o_walkie.Ptt.Handlers.{removed}

module _ (lib : AudioLib) where
  -- The ticket stands in a list.
  abbrev pub is_in : ℕ → List ℕ → Bool
  is_in t [] = false
  is_in t (u ∷ us) = (u == t) || is_in t us

  -- What stays the same about the guard: it blocks exactly from the third release on, and the timer
  -- that ends the count is running while there is a count.
  abbrev pub Guarded : ℕ → ℕ → Bool → List ℕ → Type 0
  Guarded ticket count blocked timers =
      (blocked ≡ leb burst_threshold count) × (count ≢ 0 → is_in ticket timers ≡ true)

  abbrev pub Facts : Frame lib → Type 0
  Facts f =
      Guarded f.burst_ticket f.burst_count f.burst_blocked f.decay_timers
      × (f.server_ptt_locked ≡ true → (f.engine).transmitting ≡ false)

  pub record IsOrderly (f : Frame lib) : Type 0 where
    pub facts : Facts f

  abbrev pub orderly : {f : Frame lib} → Facts f → IsOrderly f
  orderly x = record { facts = x }

  is_in-head : (t : ℕ) (us : List ℕ) → is_in t (t ∷ us) ≡ true
  is_in-head t us = ground arith

  pub is_in-removed :
      (t u : ℕ) (us : List ℕ) → (t == u) ≡ false → is_in t us ≡ true → is_in t (removed u us) ≡ true
  is_in-removed t u [] h k = k
  is_in-removed t u (v ∷ us) h k = ground (arith, is_in-removed t u us)

  refresh-IsOrderly : (f : Frame lib) → IsOrderly f → IsOrderly (refresh lib f)
  unfolding refresh
  refresh-IsOrderly f o = orderly (o.facts)

  pub begin_ptt_tx-IsOrderly :
      (a : Answers) (f : Frame lib) → IsOrderly f → IsOrderly (begin_ptt_tx lib a f)
  unfolding begin_ptt_tx refresh
  begin_ptt_tx-IsOrderly a f o =
      let x = o.facts in
      let e = (start_transmit lib a.device_opens a.device_starts (play_ptt_press lib f.engine)) in
      if-holds IsOrderly
        (not f.relay_ready || (f.engine).signal_streaming || (f.engine).transmitting) f _ o
        (if-cases IsOrderly f.server_ptt_locked (refresh lib f) _ (λ _. refresh-IsOrderly f o)
          (λ h.
            if-holds IsOrderly f.burst_blocked _ _
              (orderly ((x.0.0, (λ _. is_in-head (f.burst_ticket + 1) f.decay_timers)), x.1))
              (if-holds IsOrderly (not e.0) _ _
                (orderly (x.0, (λ k. absurd (ground (arith, h, k)))))
                (orderly (x.0, (λ k. absurd (ground (arith, h, k))))))))

  -- Who transmits, is not locked.
  free_of_lock :
      (f : Frame lib) {P : Type 0}
      → IsOrderly f
      → (f.engine).transmitting ≡ true
      → f.server_ptt_locked ≡ true
      → P
  free_of_lock f o h k = let quiet = o.facts.1 k in absurd (ground (arith, h, quiet))

  counted_block :
      (blocked : Bool) (n : ℕ)
      → blocked ≡ leb burst_threshold n
      → (blocked || leb burst_threshold (n + 1)) ≡ leb burst_threshold (n + 1)
  counted_block blocked n h = ground (arith, h)

  pub end_ptt_tx-IsOrderly :
      (a : Answers) (f : Frame lib) → IsOrderly f → IsOrderly (end_ptt_tx lib a f)
  unfolding end_ptt_tx finish_ptt_tx with_engine refresh
  end_ptt_tx-IsOrderly a f o =
      let x = o.facts in
      if-cases IsOrderly (not f.relay_ready || not (f.engine).transmitting) _ _
        (λ _. refresh-IsOrderly f o)
        (λ h.
          let on : (f.engine).transmitting ≡ true = ground (arith, h) in
          orderly (
            (
              counted_block f.burst_blocked f.burst_count x.0.0,
              (λ _. is_in-head (f.burst_ticket + 1) f.decay_timers),
            ),
            free_of_lock f o on,
          ))

  pub toggle_ptt_tx-IsOrderly :
      (a : Answers) (f : Frame lib) → IsOrderly f → IsOrderly (toggle_ptt_tx lib a f)
  unfolding toggle_ptt_tx
  toggle_ptt_tx-IsOrderly a f o = if-holds IsOrderly (not f.relay_ready) f _ o (
      if-holds IsOrderly (f.engine).transmitting _ _ (end_ptt_tx-IsOrderly a f o)
        (begin_ptt_tx-IsOrderly a f o))
