-- ===== src/Ledger/Apdu.antt =====
-- lwk_ledger/src/apdu.rs: the codes of the protocol and the framing of a command. A byte is a number
-- below 256.
pub mod Codes
use satsails_lwk.Common.{
  ℕ, ◌%◌, ◌^◌, Option, none, some, List, [], ◌∷◌, ◌++◌, ◌==◌, if◌then◌else◌, length, nat_eq,
}
use satsails_lwk.Ledger.Merkle.{Bytes}

abbrev pub current_protocol_version : ℕ
current_protocol_version = 1

pub data Cla : Type 0 where
  default bitcoin framework : Cla

unfoldable pub cla_code : Cla → ℕ
cla_code default = 0xB0
cla_code bitcoin = 0xE1
cla_code framework = 0xF8

pub data LiquidCommandCode : Type 0 where
  get_extended_pubkey get_version register_wallet get_wallet_address : LiquidCommandCode
  sign_psbt get_master_fingerprint sign_message : LiquidCommandCode
  liquid_get_master_blinding_key : LiquidCommandCode

unfoldable pub liquid_code : LiquidCommandCode → ℕ
liquid_code get_extended_pubkey = 0x00
liquid_code get_version = 0x01
liquid_code register_wallet = 0x02
liquid_code get_wallet_address = 0x03
liquid_code sign_psbt = 0x04
liquid_code get_master_fingerprint = 0x05
liquid_code sign_message = 0x10
liquid_code liquid_get_master_blinding_key = 0xe1

pub data FrameworkCommandCode : Type 0 where
  continue_interrupted : FrameworkCommandCode

unfoldable pub framework_code : FrameworkCommandCode → ℕ
framework_code continue_interrupted = 0x01

pub data ClientCommandCode : Type 0 where
  yield get_preimage get_merkle_leaf_proof get_merkle_leaf_index : ClientCommandCode
  get_more_elements : ClientCommandCode

unfoldable pub client_code : ClientCommandCode → ℕ
client_code yield = 0x10
client_code get_preimage = 0x40
client_code get_merkle_leaf_proof = 0x41
client_code get_merkle_leaf_index = 0x42
client_code get_more_elements = 0xA0

unfoldable pub client_try_from : ℕ → Option ClientCommandCode
client_try_from v =
    if v == 0x10
    then some yield
    else if v == 0x40
    then some get_preimage
    else if v == 0x41
    then some get_merkle_leaf_proof
    else if v == 0x42
    then some get_merkle_leaf_index
    else if v == 0xA0
    then some get_more_elements
    else none

pub data StatusWord : Type 0 where
  deny incorrect_data not_supported wrong_p1p2 wrong_data_length : StatusWord
  ins_not_supported cla_not_supported bad_state signature_fail : StatusWord
  success interrupted_execution unknown : StatusWord

-- `self as u16`: `Unknown` has no value of its own, and takes the one after 0xE000.
unfoldable pub status_code : StatusWord → ℕ
status_code deny = 0x6985
status_code incorrect_data = 0x6A80
status_code not_supported = 0x6A82
status_code wrong_p1p2 = 0x6A86
status_code wrong_data_length = 0x6A87
status_code ins_not_supported = 0x6D00
status_code cla_not_supported = 0x6E00
status_code bad_state = 0xB007
status_code signature_fail = 0xB008
status_code success = 0x9000
status_code interrupted_execution = 0xE000
status_code unknown = 0xE001

unfoldable pub status_try_from : ℕ → Option StatusWord
status_try_from v =
    if v == 0x6985
    then some deny
    else if v == 0x6A80
    then some incorrect_data
    else if v == 0x6A82
    then some not_supported
    else if v == 0x6A86
    then some wrong_p1p2
    else if v == 0x6A87
    then some wrong_data_length
    else if v == 0x6D00
    then some ins_not_supported
    else if v == 0x6E00
    then some cla_not_supported
    else if v == 0xB007
    then some bad_state
    else if v == 0xB008
    then some signature_fail
    else if v == 0x9000
    then some success
    else if v == 0xE000
    then some interrupted_execution
    else none

pub record ApduCommand : Type 0 where
  pub cla : ℕ
  pub ins : ℕ
  pub p1 : ℕ
  pub p2 : ℕ
  pub payload : Bytes

-- `data.len() as u8` keeps the low eight bits of the length.
unfoldable pub encode : ApduCommand → Bytes
encode c = c.cla ∷ c.ins ∷ c.p1 ∷ c.p2 ∷ (length c.payload % 2 ^ 8) ∷ c.payload

unfoldable pub default_command : ApduCommand
unfolding cla_code
default_command = record {
  cla = cla_code default;
  ins = 0x00;
  p1 = 0x00;
  p2 = current_protocol_version;
  payload = [];
}
