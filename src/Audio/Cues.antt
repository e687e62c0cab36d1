-- ===== src/Audio/Cues.antt =====
-- The sounds that AudioEngine plays here at an event (AudioEngine.cpp). A sound in the queue counts as
-- played.
use Prim.Native.String.{String}
use o_walkie.Base.{ℕ, ℤ, List, [], ◌==◌, clamp, is_empty, if◌then◌else◌}
use o_walkie.Tone.Client.{append_silence}
use o_walkie.Audio.{AudioLib, synthesis_rate, append_tone, apply_gain, load_sound}
use o_walkie.Audio.Engine.{Engine}
use o_walkie.Audio.Engine.Playback.{add_one_shot}

module _ (lib : AudioLib) where
  abbrev beep : String → ℕ → String → List ℤ → List ℤ
  beep freq duration gain =
      append_tone lib synthesis_rate (lib.double.literal freq) duration (lib.double.literal gain)

  abbrev played : List ℤ → Engine lib → Engine lib
  played pcm e = record e { one_shots = add_one_shot lib pcm synthesis_rate e.one_shots }

  -- void AudioEngine::PlayConnectedSignal(bool useQueue)
  unfoldable pub play_connected : Engine lib → Engine lib
  play_connected =
      played
        (beep "1700.0" 50 "0.22" (append_silence synthesis_rate 50 (beep "1400.0" 40 "0.22" [])))

  -- void AudioEngine::PlayConnectionErrorSignal()
  unfoldable pub play_connection_error : Engine lib → Engine lib
  play_connection_error =
      played
        (beep "890.0" 200 "0.2" (append_silence synthesis_rate 300 (beep "890.0" 192 "0.2" [])))

  -- void AudioEngine::PlayManualConnectStartSignal(bool useQueue)
  unfoldable pub play_manual_connect_start : Engine lib → Engine lib
  play_manual_connect_start = played (
      beep "1864.66" 70 "0.22"
        (beep "1396.91" 50 "0.22" (beep "1174.66" 50 "0.22" (beep "932.33" 50 "0.22" []))))

  -- void AudioEngine::PlayManualDisconnectSignal()
  unfoldable pub play_manual_disconnect : Engine lib → Engine lib
  play_manual_disconnect = played (
      beep "932.33" 50 "0.22"
        (beep "1174.66" 50 "0.22" (beep "1396.91" 50 "0.22" (beep "1864.66" 70 "0.22" []))))

  abbrev loaded_or : String → List ℤ → List ℤ
  loaded_or name made =
      let pcm = load_sound lib name synthesis_rate in if is_empty pcm then made else pcm

  -- void AudioEngine::PlayPttPressSignal()
  unfoldable pub play_ptt_press : Engine lib → Engine lib
  play_ptt_press =
      played
        (loaded_or "selfpttup_002" (append_silence synthesis_rate 10 (beep "1260.0" 24 "0.18" [])))

  -- void AudioEngine::PlaySwitchNavSignal(bool useQueue)
  unfoldable pub play_switch_nav : Engine lib → Engine lib
  play_switch_nav = played (loaded_or "switch_nav" (beep "1320.0" 18 "0.14" []))

  -- void AudioEngine::PlayRxVolumePreviewSignal(int volumePercent)
  unfoldable pub play_volume_preview : ℤ → Engine lib → Engine lib
  play_volume_preview percent =
      let p = clamp percent 0 200 in
      let pcm = loaded_or "spin_wt" (beep "980.0" 80 "0.2" []) in
      let gain = lib.double.div (lib.double.of_int p) (lib.double.literal "100.0") in
      played (if p == 100 then pcm else apply_gain lib gain pcm)
