-- ===== src/App/State.antt =====
-- lwk_app/src/state.rs: the `State`, its state file and the requests that it is saved as. The text of
-- identifiers and the file system are the parameter `Host`; the state file is the list of the requests in it.
pub mod Saved
use Prim.Native.String.{String}
use satsails_lwk.Common.{
  ℕ, Bool, true, false, List, [], ◌∷◌, ◌++◌, Option, none, some, Result, ok, err, if◌then◌else◌,
  PartialEq, and_then, map, concat, nat_eq, list_eq,
}
use satsails_lwk.Common.HashMap.{HashMap, get}
use satsails_lwk.App.Error.{Error, string_eq, generic, io, wollet}
use satsails_lwk.App.Signer.{
  Bytes, Network, Devices, Signers, AppSigner, AnySigner, jade_id, available_signer,
  external_signer, software, jade_signer,
}
use satsails_lwk.App.Signers
use satsails_lwk.App.Wollets
use satsails_lwk.App.Wollets.{Wallets}
use satsails_lwk.App.Memos
use satsails_lwk.App.Memos.{Memos}
use satsails_lwk.App.Assets.{
  Elements, Assets, AppAsset, registry_asset, policy_asset, reissuance_token, insert_asset,
  remove_asset,
}

-- lwk_rpc_model's requests that the state is saved as or that change it, by their parameters.
pub data Request : Type 0 where
  wallet_load : String → String → Request
  wallet_unload : String → Request
  wallet_set_tx_memo wallet_set_addr_memo : String → String → String → Request
  signer_load_software : String → String → Bool → Request
  signer_load_jade : String → String → Option String → Request
  signer_load_external : String → String → Request
  signer_unload : String → Request
  asset_insert : String → String → String → Request
  asset_remove : String → Request

pub record Host : Type 1 where
  pub devices : Devices
  pub elements : Elements
  pub wallets : Wallets
  pub Txid : Type 0
  pub txid_eq : PartialEq Txid
  pub txid_to_string : Txid → String
  pub txid_from_str : String → Result String Txid
  -- an address of a memo, and of the wallets
  pub address_to_string : wallets.Address → String
  pub address_from_str : String → Result String wallets.Address
  pub id_to_string : Bytes → String
  pub id_from_str : String → Result String Bytes
  pub fingerprint_to_string : Bytes → String
  pub fingerprint_from_str : String → Result String Bytes
  pub transaction_from_hex : String → Result String elements.Transaction
  pub contract_from_json : String → Result Error elements.Contract
  -- the descriptor's parser and `Wollet::with_fs_persist`, at the server's configuration
  pub load_wollet : String → Result Error wallets.Wollet
  pub is_mainnet : Bool
  pub jade_network : Network
  -- what the file system answers to writing these requests
  pub write : List Request → Result String (Unit {0})

module _ (host : Host) where
  open host use {
    devices, elements, wallets, Txid, txid_eq, txid_to_string, txid_from_str, address_to_string,
    address_from_str, id_to_string, id_from_str, fingerprint_to_string, fingerprint_from_str,
    transaction_from_hex, contract_from_json, load_wollet, is_mainnet, jade_network, write,
  }

  pub record State : Type 0 where
    pub wollets : HashMap String (wallets.Wollet)
    pub signers : Signers devices
    pub assets : Assets elements
    pub tx_memos : Memos Txid
    pub addr_memos : Memos (wallets.Address)
    pub do_persist : Bool
    pub file : List Request

  -- A write that fails is taken to leave the file as it was.
  abbrev pub written :
      State → List Request → Result String (Unit {0}) → State × Result Error (Unit {0})
  written s requests (ok _) = (record s { file = requests }, ok tt)
  written s requests (err e) = (s, err (io e))

  unfoldable pub persist : State → Request → State × Result Error (Unit {0})
  persist s request =
      let requests = s.file ++ (request ∷ []) in
      if s.do_persist then written s requests (write requests) else (s, ok tt)

  unfoldable pub wallet_request : String × wallets.Wollet → Request
  wallet_request (n, w) = wallet_load (wallets.descriptor w) n

  unfoldable pub tx_memo_requests : String × HashMap Txid String → List Request
  tx_memo_requests (n, memos) =
      map (λ e. wallet_set_tx_memo n (txid_to_string e.0) e.1) memos.entries

  unfoldable pub addr_memo_requests : String × HashMap (wallets.Address) String → List Request
  addr_memo_requests (n, memos) =
      map (λ e. wallet_set_addr_memo n (address_to_string e.0) e.1) memos.entries

  -- `none` is the panic on a software signer without a mnemonic.
  unfoldable pub signer_request : String × AppSigner devices → Option Request
  signer_request (n, s) = elim (s.inner) [
    | jade_id id network ↦ some (signer_load_jade n (id_to_string id) none)
    | available_signer a ↦ elim a [
      | software sw ↦
          and_then (devices.sw_mnemonic sw) (λ words. some (signer_load_software n words s.persist))
      | jade_signer j id ↦ some (signer_load_jade n (id_to_string id) none)
    ]
    | external_signer f ↦ some (signer_load_external n (fingerprint_to_string f))
  ]

  unfoldable pub signer_requests : List (String × AppSigner devices) → Option (List Request)
  signer_requests [] = some []
  signer_requests (e ∷ es) =
      let rest = signer_requests es in
      and_then (signer_request e) (λ r. and_then rest (λ rs. some (r ∷ rs)))

  unfoldable pub asset_request : Bytes × AppAsset elements → List Request
  asset_request (_, registry_asset d) =
      asset_insert (elements.asset_to_string d.asset_id) (elements.contract_json d.contract)
        (elements.transaction_hex d.issuance_tx)
      ∷ []
  asset_request _ = []

  unfoldable pub as_requests : State → Option (List Request)
  as_requests s = and_then (signer_requests s.signers.entries) (λ loaded. some (
      map wallet_request s.wollets.entries
      ++ (concat (map tx_memo_requests s.tx_memos.entries)
          ++ (concat (map addr_memo_requests s.addr_memos.entries)
              ++ (loaded ++ concat (map asset_request s.assets.entries))))))

  -- The whole file is written anew.
  unfoldable pub persist_all : State → Option (State × Result Error (Unit {0}))
  persist_all s = and_then (as_requests s) (λ requests. some (written s requests (write requests)))
