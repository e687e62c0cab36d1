-- ===== src/Session/Events/Loss.antt =====
-- A loss of the connection is reported once (signalRecoverableLoss of session.cpp).
use Prim.Native.String.{String}
use o_walkie.Base.{◌≡◌, arith}
use o_walkie.Session.State.{Env, State}
use o_walkie.Session.Events.{
  signal_recoverable_loss, halt_transport, close_sockets, emit_loss, emit_event,
}

module _ (env : Env) where
  -- A second loss, whatever its reason, changes nothing: the transport is stopped already, and the
  -- callback gets no other event.
  pub signal_recoverable_loss_idem :
      (first second : String) (s : State env)
      → signal_recoverable_loss env second (signal_recoverable_loss env first s)
        ≡ signal_recoverable_loss env first s
  unfolding signal_recoverable_loss halt_transport close_sockets emit_loss emit_event
  signal_recoverable_loss_idem first second s = ground arith
