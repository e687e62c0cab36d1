-- ===== src/Interface/Arguments.antt =====
-- The arguments of the functions of c_api.cpp, and the two calls of the signal registry.
use Prim.Native.String.{String}
use o_walkie.Base.{ℕ, zero, suc, ℤ, Bool, false, List, [], is_empty, Option, none, some}
use o_walkie.Types.{
  ConnectParams, TxSubmitOp, tx_open, tx_pcm, tx_opus, tx_voice_end, tx_close, tx_abort,
  PowerProfile, foreground, background, active_tx,
}
use o_walkie.LinkSignal.{Mode, wifi, cell, Registry, report, clear}
use o_walkie.Interface.{CResult, owalkie_err_invalid_arg, to_c}

-- The C parameters; the integers that stand for flags are Booleans.
pub record ConnectParamsC : Type 0 where
  pub host : Option (List ℕ)
  pub port : ℤ
  pub channel : Option String
  pub use_tls : Bool
  pub repeater_mode : Bool

-- owalkie_managed_callbacks: which of the two are set
pub record Callbacks : Type 0 where
  pub on_session_event : Bool
  pub on_rx_pcm : Bool

abbrev pub params_of : List ℕ → ConnectParamsC → ConnectParams
params_of host p = record {
  host = host;
  port = p.port;
  channel = elim p.channel [ none ↦ "global" | some channel ↦ channel ];
  use_tls = p.use_tls;
  repeater_mode = p.repeater_mode;
}

-- owalkie_tx_op and owalkie_power_profile and owalkie_signal_mode as the numbers that a C client
-- may pass
abbrev pub op_of : ℕ → Option TxSubmitOp
op_of zero = some tx_open
op_of (suc zero) = some tx_pcm
op_of (suc (suc zero)) = some tx_opus
op_of (suc (suc (suc zero))) = some tx_voice_end
op_of (suc (suc (suc (suc zero)))) = some tx_close
op_of (suc (suc (suc (suc (suc zero))))) = some tx_abort
op_of _ = none

abbrev pub profile_of : ℕ → PowerProfile
profile_of (suc zero) = background
profile_of (suc (suc zero)) = active_tx
profile_of _ = foreground

abbrev pub mode_of : ℕ → Option Mode
mode_of zero = some wifi
mode_of (suc zero) = some cell
mode_of _ = none

-- owalkie_result owalkie_report_signal(owalkie_signal_mode mode, int value)
unfoldable pub report_signal : ℕ → ℤ → Registry → CResult × Registry
report_signal mode value reg = elim (mode_of mode) [
  | none ↦ (owalkie_err_invalid_arg, reg)
  | some m ↦ let (next, r) = report reg m value in (to_c r, next)
]

-- owalkie_result owalkie_clear_signal(owalkie_signal_mode mode)
unfoldable pub clear_signal : ℕ → Registry → CResult × Registry
clear_signal mode reg = elim (mode_of mode) [
  | none ↦ (owalkie_err_invalid_arg, reg)
  | some m ↦ let (next, r) = clear reg m in (to_c r, next)
]

-- An argument that is null, or an array without elements.
abbrev pub elements {ℓ} : {A : Type ℓ} → Option (List A) → List A
elements none = []
elements (some l) = l

abbrev pub lacks : TxSubmitOp → Option (List ℤ) → Option (List ℕ) → Bool
lacks tx_pcm pcm opus = is_empty (elements pcm)
lacks tx_opus pcm opus = is_empty (elements opus)
lacks _ pcm opus = false
