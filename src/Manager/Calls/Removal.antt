-- ===== src/Manager/Calls/Removal.antt =====
-- How the numbers of the session manager come out of use (session_manager.cpp).
use o_walkie.Base.{
  ℕ, ◌≤◌, ◌≡◌, inl, inr, refl, sym, ap, ◌∙◌, Bool, false, List, [], ◌∷◌, Option, none, some, length,
  take, if◌then◌else◌, if-cases, Assoc, is_member, Distinct, Below, keys, arith,
}
use mathlib.Core.Path.{subst}
use o_walkie.Session.State.{Env}
use o_walkie.Session.Events.{cancel_ongoing_connect}
use o_walkie.Session.Lifecycle.{disconnect as disconnect_session}
use o_walkie.Manager.{
  ManagedSession, SessionManager, on_session, update, cancel_all, take_session_for_teardown,
  schedule_session_cleanup, release_session, halt_and_release, disconnect_attempts, disconnect,
  disconnect_each, disconnect_all,
}
use o_walkie.Manager.Registry.{
  IsValid, Registry, view, drop_id, update-IsValid, view-update, IsTaken,
  take_session_for_teardown-IsTaken, IsReleased, release_taken-IsReleased,
}

module _ (env : Env) where
  pub release_session-IsReleased :
      (id : ℕ) (rounds : List Bool) (mgr : SessionManager env)
      → IsValid env mgr
      → IsReleased env id mgr (release_session env id rounds mgr)
  unfolding release_session
  release_session-IsReleased id rounds mgr v =
      release_taken-IsReleased env _ id mgr _
        (take_session_for_teardown-IsTaken env id rounds mgr v)

  pub halt_and_release-IsReleased :
      (id : ℕ) (rounds : List Bool) (mgr : SessionManager env)
      → IsValid env mgr
      → IsReleased env id mgr (halt_and_release env id rounds mgr)
  unfolding halt_and_release
  halt_and_release-IsReleased id rounds mgr v =
      release_taken-IsReleased env _ id mgr _
        (take_session_for_teardown-IsTaken env id rounds mgr v)

  -- What is released later is released after steps that change no number's use.
  IsReleased-later :
      (id : ℕ) (mgr u t : SessionManager env)
      → view env u ≡ view env mgr
      → IsReleased env id u t
      → IsReleased env id mgr t
  IsReleased-later id mgr u t same r = record {
    valid = r.valid;
    outcome = elim r.outcome [
      | inl h ↦ inl (h ∙ same)
      | inr h ↦
          inr
            (sym (ap (λ (a : Registry env). a.live id) same) ∙ h.0, h.1 ∙ ap (drop_id env id) same)
    ];
  }

  next_attempt :
      (id : ℕ) (more : List (List Bool)) (mgr : SessionManager env)
      (p : Option (ManagedSession env) × SessionManager env)
      → IsTaken env id mgr p
      → ((t : SessionManager env)
          → IsValid env t
          → IsReleased env id t (disconnect_attempts env id more t))
      → IsReleased env id mgr (elim p.0 [
        | some owned ↦
            schedule_session_cleanup env (on_session env (disconnect_session env) owned) p.1
        | none ↦
            if is_member id p.1.sessions
            then disconnect_attempts env id more
                (update env id (on_session env (cancel_ongoing_connect env)) p.1)
            else p.1
      ])
  next_attempt id more mgr (some owned, t) k ih =
      release_taken-IsReleased env (disconnect_session env) id mgr (some owned, t) k
  next_attempt id more mgr (none, t) k ih =
      let same : view env t ≡ view env mgr = elim k.outcome [
        | inl h ↦ h.1
        | inr h ↦ absurd (cc h.1)
      ] in
      let cancel = on_session env (cancel_ongoing_connect env) in
      if-cases (IsReleased env id mgr) (is_member id t.sessions) _ t
        (λ e.
          IsReleased-later id mgr (update env id cancel t) _ (view-update env id cancel t ∙ same)
            (ih (update env id cancel t) (update-IsValid env id cancel t k.valid)))
        (λ e. record { valid = k.valid; outcome = inl same })

  disconnect_attempts-IsReleased :
      (id : ℕ) (attempts : List (List Bool)) (mgr : SessionManager env)
      → IsValid env mgr
      → IsReleased env id mgr (disconnect_attempts env id attempts mgr)
  unfolding disconnect_attempts
  disconnect_attempts-IsReleased id [] mgr v = record { valid = v; outcome = inl refl }
  disconnect_attempts-IsReleased id (rounds ∷ more) mgr v =
      next_attempt id more mgr (take_session_for_teardown env id rounds mgr)
        (take_session_for_teardown-IsTaken env id rounds mgr v)
        (disconnect_attempts-IsReleased id more)

  pub disconnect-IsReleased :
      (id : ℕ) (attempts : List (List Bool)) (mgr : SessionManager env)
      → IsValid env mgr
      → IsReleased env id mgr (disconnect env id attempts mgr)
  unfolding disconnect
  disconnect-IsReleased id attempts mgr v =
      disconnect_attempts-IsReleased id (take 5 attempts) mgr v

  -- No number came into use.
  pub record IsShrunk (a b : Registry env) : Type 0 where
    pub no_new : (j : ℕ) → a.live j ≡ false → b.live j ≡ false
    pub same_next : b.next ≡ a.next
    pub smaller : b.size ≤ a.size

  IsShrunk-trans : (a b c : Registry env) → IsShrunk a b → IsShrunk b c → IsShrunk a c
  IsShrunk-trans a b c p q = record {
    no_new = λ j h. q.no_new j (p.no_new j h);
    same_next = q.same_next ∙ p.same_next;
    smaller = omega (arith, p.smaller, q.smaller);
  }

  IsShrunk-refl : (a b : Registry env) → b ≡ a → IsShrunk a b
  IsShrunk-refl a b e = record {
    no_new = λ j h. ap (λ (r : Registry env). r.live j) e ∙ h;
    same_next = ap (λ (r : Registry env). r.next) e;
    smaller = omega (arith, ap (λ (r : Registry env). r.size) e);
  }

  drop_id-IsShrunk : (id : ℕ) (a : Registry env) → IsShrunk a (drop_id env id a)
  drop_id-IsShrunk id a = record {
    no_new = λ j h. ground (arith, h);
    same_next = refl;
    smaller = omega arith;
  }

  IsReleased-IsShrunk :
      (id : ℕ) (mgr t : SessionManager env)
      → IsReleased env id mgr t
      → IsShrunk (view env mgr) (view env t)
  IsReleased-IsShrunk id mgr t r = elim r.outcome [
    | inl h ↦ IsShrunk-refl (view env mgr) (view env t) h
    | inr h ↦ subst (IsShrunk (view env mgr)) (sym h.1) (drop_id-IsShrunk id (view env mgr))
  ]

  -- Taking every number that is in use out of use.
  pub record IsDrained (mgr t : SessionManager env) : Type 0 where
    pub valid : IsValid env t
    pub shrunk : IsShrunk (view env mgr) (view env t)

  disconnect_each-IsDrained :
      (ids : List ℕ) (attempts : ℕ → List (List Bool)) (mgr : SessionManager env)
      → IsValid env mgr
      → IsDrained mgr (disconnect_each env ids attempts mgr)
  unfolding disconnect_each
  disconnect_each-IsDrained [] attempts mgr v = record {
    valid = v;
    shrunk = IsShrunk-refl (view env mgr) (view env mgr) refl;
  }
  disconnect_each-IsDrained (id ∷ ids) attempts mgr v =
      let r = disconnect-IsReleased id (attempts id) mgr v in
      let d =
        disconnect_each-IsDrained ids attempts (disconnect env id (attempts id) mgr) r.valid in
      record {
        valid = d.valid;
        shrunk = IsShrunk-trans _ _ _ (IsReleased-IsShrunk id mgr _ r) d.shrunk;
      }

  is_member-cancel_all :
      (j : ℕ) (l : Assoc (ManagedSession env)) → is_member j (cancel_all env l) ≡ is_member j l
  is_member-cancel_all j [] = refl
  is_member-cancel_all j ((i, m) ∷ l) = ground (arith, is_member-cancel_all j l)

  length-cancel_all : (l : Assoc (ManagedSession env)) → length (cancel_all env l) ≡ length l
  length-cancel_all [] = refl
  length-cancel_all ((i, m) ∷ l) = omega (arith, length-cancel_all l)

  Distinct-cancel_all : (l : Assoc (ManagedSession env)) → Distinct l → Distinct (cancel_all env l)
  Distinct-cancel_all [] d = d
  Distinct-cancel_all ((i, m) ∷ l) d = (is_member-cancel_all i l ∙ d.0, Distinct-cancel_all l d.1)

  Below-cancel_all :
      (n : ℕ) (l : Assoc (ManagedSession env)) → Below n l → Below n (cancel_all env l)
  Below-cancel_all n [] b = b
  Below-cancel_all n ((i, m) ∷ l) b = (b.0, b.1, Below-cancel_all n l b.2)

  pub disconnect_all-IsDrained :
      (attempts : ℕ → List (List Bool)) (mgr : SessionManager env)
      → IsValid env mgr
      → IsDrained mgr (disconnect_all env attempts mgr)
  unfolding disconnect_all
  disconnect_all-IsDrained attempts mgr v =
      let cancelled = record mgr { sessions = cancel_all env mgr.sessions } in
      let same : view env cancelled ≡ view env mgr = λ i. record {
        live = λ j. is_member-cancel_all j mgr.sessions i;
        next = mgr.next_id;
        size = length-cancel_all mgr.sessions i;
      } in
      let d = disconnect_each-IsDrained (keys mgr.sessions) attempts cancelled (record {
        distinct = Distinct-cancel_all mgr.sessions v.distinct;
        bounded = Below-cancel_all mgr.next_id mgr.sessions v.bounded;
        few = omega (arith, length-cancel_all mgr.sessions, v.few);
        next_pos = v.next_pos;
      }) in
      record {
        valid = d.valid;
        shrunk =
            IsShrunk-trans _ _ _ (IsShrunk-refl (view env mgr) (view env cancelled) same) d.shrunk;
      }
