-- ===== src/Manager/Samples.antt =====
-- A session manager with two sessions, and calm surroundings, for the tests.
use o_walkie.Base.{pos, true, false, [], ◌∷◌}
use o_walkie.Types.{default_welcome, ConnectParams}
use o_walkie.Session.State.{new_state}
use o_walkie.Session.Samples.{slow}
use o_walkie.Session.Lifecycle.{unreachable}
use o_walkie.Manager.{ManagedSession, SessionManager}
use o_walkie.Manager.Connect.{Surroundings}

abbrev pub calm : Surroundings slow
calm = record {
  others = λ k m. m;
  first_polls = 2;
  second_polls = 2;
  stop_late = false;
  teardown_late = false;
  outcome = unreachable;
  release_rounds = false ∷ false ∷ [];
}

abbrev pub nowhere : ConnectParams
nowhere = record {
  host = [];
  port = pos 5500;
  use_tls = false;
  channel = "";
  repeater_mode = false;
}

-- A session that waits for its first connection, and one that is welcomed.
abbrev pub fresh : ManagedSession slow
fresh = record { session = new_state slow; params = nowhere; user_intent = true; busy = false }

abbrev pub welcomed : ManagedSession slow
welcomed = record fresh {
  session = record (new_state slow) {
    connected = true;
    welcome = record default_welcome { session_id = 7 };
  };
}

abbrev pub two_sessions : SessionManager slow
two_sessions = record { sessions = (2, welcomed) ∷ (1, fresh) ∷ []; next_id = 3; cleanups = [] }
