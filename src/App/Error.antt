-- ===== src/App/Error.antt =====
-- lwk_app/src/error.rs: the errors of the server and their codes. The errors of other crates are
-- their messages.
use Prim.Native.String.{String}
use text.Mathlib.Text.{◌==◌ as text_eq}
use text.Mathlib.TextEquality.{eq_iff}
use satsails_lwk.Common.{ℕ, refl, Option, none, some, PartialEq}

instance abbrev pub string_eq : PartialEq String
string_eq = record {
  same = text_eq;
  accepts = λ a. (eq_iff a a).1 refl;
  separates = λ a b. (eq_iff a b).0;
}

pub data Error : Type 0 where
  tiny_http json_rpc_http json_rpc_client serde_json jade wollet address : String → Error
  hex_array reqwest hex elements_encode io : String → Error
  already_started not_started neither_result_nor_error_set : Error
  rpc_error signer_new signer qr_error : String → Error
  wallet_not_exist wallet_already_loaded : String → Error
  wallet_tx_not_found : String → String → Error
  signer_not_exist signer_already_loaded asset_not_exist : String → Error
  invalid_issuance_txt_for_asset invalid_contract_for_asset : String → Error
  asset_already_inserted method_not_exist poison_error : String → Error
  feat_serial_disabled : Error
  server_start : String → Error
  start_state_load : String → ℕ → String → Error
  stop : Error
  generic : String → Error

-- lwk_tiny_jrpc's code for every other error. A code stands for the distance below -32,000.
abbrev pub generic_code : ℕ
generic_code = 5

pub as_impl_defined_code : Error → ℕ
as_impl_defined_code (jade e) = 13
as_impl_defined_code (wollet e) = 5
as_impl_defined_code (signer_new e) = 6
as_impl_defined_code (signer e) = 7
as_impl_defined_code (wallet_not_exist n) = 8
as_impl_defined_code (wallet_already_loaded n) = 9
as_impl_defined_code (signer_not_exist n) = 10
as_impl_defined_code (signer_already_loaded n) = 11
as_impl_defined_code _ = generic_code

pub as_error_value : Error → Option String
as_error_value (wallet_not_exist n) = some n
as_error_value (signer_not_exist n) = some n
as_error_value _ = none
