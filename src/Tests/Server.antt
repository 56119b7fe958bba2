-- ===== src/Tests/Server.antt =====
-- The server's state on small values: a host with one wallet format, one software signer and Jades
-- that are a switch and an identifier.
use Prim.Native.String.{String}
use satsails_lwk.Common.{
  ℕ, ◌+◌, Bool, true, false, List, [], ◌∷◌, some, ok, err, take, nat_eq, list_eq, ◌==◌,
  if◌then◌else◌,
}
use satsails_lwk.Common.HashMap.{new}
use satsails_lwk.App.Error.{string_eq}
use satsails_lwk.App.Signer.{
  Bytes, liquid, Devices, AppSigner, available_signer, software, jade_signer, jade_id,
}
use satsails_lwk.App.Wollets.{Wallets}
use satsails_lwk.App.Assets.{Elements}
use satsails_lwk.App.State.{Host, State, Request}

abbrev pub toy_devices : Devices
toy_devices = record {
  SwSigner = String;
  Jade = Bool × Bytes;
  Xpub = Bytes;
  sw_new = λ words main. ok words;
  sw_mnemonic = λ words. some words;
  sw_master_xpub = λ words. ok (1 ∷ 2 ∷ 3 ∷ 4 ∷ 5 ∷ []);
  jade_master_xpub = λ j. if j.0 then ok j.1 else err "off";
  xpub_identifier = λ x. x;
  xpub_fingerprint = λ x. take 4 x;
  from_socket = λ socket network. err "no socket";
  from_serial_matching_id = λ network id timeout. some (true, id);
  unlock = λ j. if j.0 then ok tt else err "locked";
  jade_network = λ j. liquid;
  serial = true;
}

abbrev pub toy_elements : Elements
toy_elements = record {
  Transaction = List ℕ;
  TxIn = ℕ;
  OutPoint = ℕ;
  Contract = ℕ;
  inputs = λ tx. tx;
  previous_output = λ i. i;
  issuance_ids = λ i. (i ∷ [], (i + 100) ∷ []);
  asset_ids = λ i c. if c == i then ok (i ∷ [], (i + 100) ∷ []) else ok ([], []);
  contract_json = λ c. "contract";
  contract_name = λ c. "name";
  contract_ticker = λ c. "TICK";
  transaction_hex = λ tx. "tx";
  asset_to_string = λ a. "asset";
  asset_from_str = λ s. ok (7 ∷ []);
}

abbrev pub toy_wallets : Wallets
toy_wallets = record {
  Wollet = String;
  Address = String;
  address_eq = string_eq;
  first_address = λ w. ok w;
  descriptor = λ w. w;
}

abbrev pub toy_host : Host
toy_host = record {
  devices = toy_devices;
  elements = toy_elements;
  wallets = toy_wallets;
  Txid = ℕ;
  txid_eq = nat_eq;
  txid_to_string = λ t. "txid";
  txid_from_str = λ s. ok 9;
  address_to_string = λ a. a;
  address_from_str = λ s. ok s;
  id_to_string = λ i. "id";
  id_from_str = λ s. ok (1 ∷ 2 ∷ 3 ∷ 4 ∷ 6 ∷ []);
  fingerprint_to_string = λ f. "f";
  fingerprint_from_str = λ s. ok (9 ∷ 9 ∷ 9 ∷ 9 ∷ []);
  transaction_from_hex = λ s. ok (5 ∷ 7 ∷ []);
  contract_from_json = λ s. ok 7;
  load_wollet = λ d. ok d;
  is_mainnet = true;
  jade_network = liquid;
  write = λ (requests : List Request). ok tt;
}

abbrev pub sw : AppSigner toy_devices
sw = record { inner = available_signer (software "abandon about"); persist = false }

abbrev pub far_jade : AppSigner toy_devices
far_jade = record { inner = jade_id (7 ∷ 7 ∷ 7 ∷ 7 ∷ 7 ∷ []) liquid; persist = true }

abbrev pub off_jade : AppSigner toy_devices
off_jade = record {
  inner = available_signer (jade_signer (false, 8 ∷ 8 ∷ 8 ∷ 8 ∷ []) (8 ∷ 8 ∷ 8 ∷ 8 ∷ []));
  persist = true;
}

abbrev pub start : State toy_host
start = record {
  wollets = record { entries = ("alice", "desc") ∷ [] };
  signers = record { entries = ("sw", sw) ∷ [] };
  assets = new;
  tx_memos = new;
  addr_memos = new;
  do_persist = true;
  file = [];
}
