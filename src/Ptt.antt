-- ===== src/Ptt.antt =====
-- Push to talk in the main window: MainFrame of windows-client-cpp/src/MainFrame.cpp. The audio engine is
-- Audio.Engine. The relay client is what IsConnected() and TxOpen() answer, and the calls that it
-- gets. CallAfter puts a call into a list, from which Ptt.Steps takes it.
pub mod Frame
pub mod Handlers
pub mod Switches
pub mod Steps
pub mod Transmission
pub mod CallSignal
mod Examples
