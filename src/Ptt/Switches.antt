-- ===== src/Ptt/Switches.antt =====
-- What else changes the state of push to talk (MainFrame.cpp): another connection, by OnProfileChoice
-- and at the end of ApplyConnectUri, and the mode of the button, by OnSettingsClicked. Whether
-- TryConnectWithCurrentFields() succeeds is an argument.
use Prim.Native.String.{String}
use o_walkie.Base.{Bool, false, not, ◌&&◌, if◌then◌else◌}
use o_walkie.Audio.{AudioLib}
use o_walkie.Audio.Engine.{stop_transmit}
use o_walkie.Audio.Cues.{play_connection_error}
use o_walkie.Ptt.Frame.{Frame, Answers, refresh, reset_burst, end_ptt_tx}

module _ (lib : AudioLib) where
  abbrev pub left_connection : Answers → Frame lib → Frame lib
  left_connection a f = record (reset_burst lib f) {
    engine = stop_transmit lib a.now a.lock_free f.engine;
    relay_ready = false;
    connected = false;
    global_pressed = false;
    global_toggle_down = false;
  }

  abbrev pub dialled_again : String → Bool → Frame lib → Frame lib
  dialled_again said dials f = if dials then record f { status = said } else record f {
    user_wants_session = false;
    engine = play_connection_error lib f.engine;
    status = "Connect failed";
  }

  -- void MainFrame::OnProfileChoice(wxCommandEvent&), of another profile
  unfoldable pub on_profile_choice : Answers → Bool → Frame lib → Frame lib
  unfolding refresh
  on_profile_choice a dials f =
      if not f.connected && not f.user_wants_session
      then f
      else dialled_again "Connecting..." dials (refresh lib (left_connection a f))

  -- The end of void MainFrame::ApplyConnectUri(const std::string& uri), behind its form
  unfoldable pub on_connect_uri_applied : Answers → Bool → Frame lib → Frame lib
  unfolding refresh
  on_connect_uri_applied a dials f =
      if not f.user_wants_session
      then f
      else dialled_again "Connected" dials (refresh lib (left_connection a f))

  -- The mode of the button that void MainFrame::OnSettingsClicked(wxCommandEvent&) takes from the
  -- dialog
  unfoldable pub on_mode_chosen : Answers → Bool → Frame lib → Frame lib
  unfolding refresh
  on_mode_chosen a new_toggle f =
      let ended =
        if f.ptt_toggle_mode && not new_toggle && (f.engine).transmitting
        then end_ptt_tx lib a f
        else f in
      refresh lib (record ended {
        ptt_toggle_mode = new_toggle;
        global_pressed = false;
        global_toggle_down = false;
        status = "Settings applied";
      })
