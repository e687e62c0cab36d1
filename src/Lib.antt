-- ===== src/Lib.antt =====
-- Verification of owalkie-core, the C++ client library of the O-Walkie radio, and of the Windows
-- client that is built on it.
--
-- A session talks to a relay over two connections: a WebSocket that carries JSON texts (the
-- control plane), and a UDP socket that carries audio datagrams and their markers (the audio
-- plane). The parts, the files of the repository that they come from, and the modules that model
-- them:
--
-- - owalkie-core/include/owalkie/types.hpp: Types, with the constructors and fields of the
--   source.
-- - owalkie-core/src/protocol.cpp: Protocol (normalizeSampleRate, normalizePacketMs,
--   frameSamples).
-- - owalkie-core/src/udp.cpp: Wire (pack, unpack and the three tests of a marker). A datagram is
--   a list of bytes, a byte a number below 256.
-- - owalkie-core/src/link_signal.cpp: LinkSignal (the scales, and Registry as a record).
-- - owalkie-core/src/json.cpp: Messages. The JSON library is a parameter, Messages.Json.
-- - parseHostEndpoint of owalkie-core/src/session.cpp and of
--   owalkie-core/src/activity_probe.cpp: Endpoint. Host fields are lists of bytes.
--   Endpoint.Number is std::stoi.
-- - owalkie-core/src/opus_codec.cpp: Codec. The Opus library is a parameter, Codec.Opus.
-- - owalkie-core/src/session.cpp: Session. Session.State is struct Impl and what surrounds it;
--   Session.Events the events, their effect on the state, and the stop of the transport;
--   Session.Outbound the WebSocket writes, the datagrams and the recovery of the UDP socket;
--   Session.Transmit the uplink; Session.Worker its queue and its thread; Session.Keepalive and
--   Session.Inbound the threads that keep the link alive and that receive; Session.Lifecycle
--   connecting, disconnecting and reconnecting; Session.Control the
--   rest of its interface. A function that changes the session is a function from a state to a
--   state, together with what it returns. Callbacks, datagrams and texts are recorded in the
--   state, newest first.
-- - owalkie-core/src/session_manager.cpp: Manager, with connect() in Manager.Connect. The map of
--   the sessions is an association list by their numbers. Every method of SessionManager
--   but the waits for cleanups is a function of Manager with its name; a cleanup thread is an
--   entry of the list of pending cleanups.
-- - owalkie-core/src/c_api.cpp and owalkie-core/include/owalkie/client_events.hpp: Interface,
--   which has the conversions (toC, fillWelcomeC, fillSessionInfoC, fillManagedEventC);
--   Interface.Calls the functions that need no session; Interface.Arguments the arguments;
--   Interface.Managed the table of bridges and the functions that call the session manager,
--   named like those of the header without their prefix.
-- - owalkie-core/src/activity_probe.cpp: Probe (readWsText, messageTypeIs,
--   checkChannelActivity).
-- - owalkie-core/src/signal.cpp and owalkie_signal_generate_pcm: Tone. The arithmetic of double
--   is a parameter, Tone.Double.
-- - windows-client-cpp/src/AudioEngine.cpp and AudioEngine.h: Wav (ParseWavPcm), Tone.Client
--   (GenerateSignalPcm), and Audio: the sounds that it makes, the class AudioEngine in
--   Audio.Engine, what it plays in Audio.Engine.Playback, its end in Audio.Engine.Closing, its
--   streams of signals in Audio.Stream, its cues in Audio.Cues. Each function is one of an engine,
--   named like it; the calls of its callbacks are recorded in it.
-- - windows-client-cpp/src/RelayClient.cpp and RelayClient.h: Windows, the class RelayClient,
--   with its calls of the session manager in Windows.Calls.
-- - windows-client-cpp/src/MainFrame.cpp: Links (UrlDecode, UrlEncode, Base64UrlEncode,
--   Base64UrlDecode) and Links.Connect (OnShareConnectionLink, ApplyConnectUri,
--   OnImportConnectionLink); Ptt.Frame and Ptt.Handlers, the state of push to talk in the window
--   and the functions that change it; Ptt.Switches, another connection and the mode of the
--   button; Ptt.Steps, its events in any order.
-- - Base: lists, integers and Boolean tests over the native numbers, shared by all.
--
-- How the parts interact: Session.Inbound gives each text to Messages and each datagram to Wire,
-- and a welcome configures Codec; Session.Transmit cuts samples into frames of the size that
-- Codec has from Protocol, encodes them, and has Session.Outbound pack them by Wire with the
-- byte of LinkSignal; Session.Worker runs Session.Transmit; Session.Lifecycle starts and stops
-- all of them. Manager calls Session.Lifecycle, Session.Worker, Session.Outbound and
-- Session.Control. Interface calls Wire, Messages, LinkSignal and Manager, and passes the events
-- of a session to the client. Probe calls Messages and Endpoint; Windows calls Manager. Ptt calls
-- Audio, and Links.Connect calls Links.
--
-- What is outside: Session.State.Env holds the two libraries, the readings of the clock, the
-- local ports of new sockets, and whether another thread halts the transport during a sleep or
-- while txEnd flushes its buffer. A thread is its steps: a function of the model is a stretch that
-- one thread runs, and other threads come in between two functions, at those halts, and in the
-- wait of submitTx, which a parameter describes.
--
-- Manager.Connect.Surroundings says what other threads make of a managed session at each point
-- of connect() where they come in; connect_among has what they make of the table meanwhile, and
-- connect is the call during which they leave it alone. A release has a list of rounds, each with whether another
-- thread holds the session's lock; a list that ends is a deadline that passes.
--
-- Interface.Managed has one Library: the session manager, the table, and the calls of the
-- client's callbacks, which do not call back. What a session emits is given to its bridge as a
-- list; owalkie_disconnect takes the list of what arrives during it.
--
-- Numbers: counters and times are natural numbers. The sequence number wraps at 2 ^ 32, as the
-- code has it. Times are nanoseconds of a steady clock in 63 bits, which last 292 years.
--
-- Session.Invariant.Reach has the steps of a session's threads and of its caller as one
-- relation, and the states that they reach from a new session.
--
-- Probe.Relay says how far a run of the probe gets, and the reads of its WebSocket before the
-- deadline. Windows has one World, the client and the session manager; what events make of it
-- during a connect() is a parameter of that call.
--
-- In Wav an offset into a file is the list of the bytes from there on. The walk over the chunks
-- has a unit of fuel more than the file has bytes, and every chunk takes eight bytes at least.
--
-- In Audio the devices answer whether they open and start, and the frames that a thread of the
-- engine hands on are those of its rounds: tx_pump_round is one. A lock that a shutdown waits for
-- is found free or not. Ptt.Frame.Answers has the answers to one call: of the devices, of the
-- relay client, of the clock, and before which rounds of a stream an abort is requested. What
-- CallAfter puts off is a list in the frame, and a timer or a countdown is the ticket of its
-- thread. A link's JSON library is a parameter of its own, over bytes.
--
-- Fuel: flushTxPcmBuffer runs one round more than its buffer has samples, and every round but
-- the last takes samples, so the rounds do not run out. A worker that is told to stop runs one
-- round more than its queue has items, and takes an item in each. The probe's loop for the
-- answer runs one round more than there are reads, and takes a read in each.
-- StreamGeneratedSignal has a round more than its signal has samples.
--
-- Not modelled: the sockets, mutexes and condition variables; the profiles, hotkeys, dialogs and
-- the tray of the Windows client and what miniaudio does for it; the Android client; and the
-- relay in Go.
pub mod Base
pub mod Types
pub mod Protocol
pub mod Wire
pub mod LinkSignal
pub mod Messages
pub mod Endpoint
pub mod Codec
pub mod Session
pub mod Manager
pub mod Interface
pub mod Probe
pub mod Windows
pub mod Tone
pub mod Wav
pub mod Links
pub mod Audio
pub mod Ptt
