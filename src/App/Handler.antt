-- ===== src/App/Handler.antt =====
-- lwk_app/src/lib.rs: the arms of `inner_method_handler` that change the state. An arm answers with
-- the state that it leaves, on an error too; `none` is a panic. The answers' contents are left out.
pub mod Invariant
pub mod Unload
use Prim.Native.String.{String}
use satsails_lwk.Common.{
  Bool, true, false, Option, none, some, Result, ok, err, ◌>>=◌, if◌then◌else◌, list_eq, nat_eq,
}
use satsails_lwk.App.Error.{Error, string_eq, generic}
use satsails_lwk.App.Signer.{Bytes, AppSigner, fingerprint, new_sw, new_jade, new_external, wrap}
use satsails_lwk.App.Signers
use satsails_lwk.App.Wollets
use satsails_lwk.App.Memos
use satsails_lwk.App.Assets.{insert_asset, remove_asset}
use satsails_lwk.App.State.{
  Host, Request, State, persist, persist_all, wallet_load, wallet_unload, wallet_set_tx_memo,
  wallet_set_addr_memo, signer_load_software, signer_load_jade, signer_load_external, signer_unload,
  asset_insert, asset_remove,
}

module _ (host : Host) where
  open host use {
    devices, elements, wallets, Txid, txid_eq, txid_from_str, address_from_str, id_from_str,
    fingerprint_from_str, transaction_from_hex, contract_from_json, load_wollet, is_mainnet,
    jade_network,
  }

  abbrev pub Reply : Type 0
  Reply = State host × Result Error (Unit {0})

  -- `?` on a call that leaves a state, and the code after it
  unfoldable pub after :
      {A : Type 0} → State host → Result Error A → (A → Option Reply) → Option Reply
  after s (err e) rest = some (s, err e)
  after s (ok a) rest = rest a

  unfoldable pub load_wallet : State host → String → String → Option Reply
  load_wallet s descriptor name = after s (load_wollet descriptor) (λ w.
      let inserted = Wollets.insert wallets s.wollets name w in
      let s = record s { wollets = inserted.0 } in
      after s inserted.1 (λ _. some (persist host s (wallet_load descriptor name))))

  unfoldable pub unload_wallet : State host → String → Option Reply
  unload_wallet s name =
      let removed = Wollets.remove wallets s.wollets name in
      let s = record s { wollets = removed.0 } in
      after s removed.1 (λ _.
        let s = record s {
          tx_memos = Memos.remove ⦃eq = txid_eq⦄ s.tx_memos name;
          addr_memos = Memos.remove ⦃eq = wallets.address_eq⦄ s.addr_memos name;
        } in
        persist_all host s)

  -- `signer_response_from` reads the fingerprint before the signer is inserted.
  abbrev pub load_signer : State host → String → AppSigner devices → Bool → Request → Option Reply
  load_signer s name signer save request = after s (fingerprint devices signer) (λ _.
      let inserted = Signers.insert devices s.signers name signer in
      let s = record s { signers = inserted.0 } in
      after s inserted.1 (λ _. some (if save then persist host s request else (s, ok tt))))

  unfoldable pub load_software : State host → String → String → Bool → Option Reply
  load_software s name words save =
      after s (new_sw devices words is_mainnet save)
        (λ signer. load_signer s name signer save (signer_load_software name words save))

  unfoldable pub load_jade : State host → String → String → Option String → Option Reply
  load_jade s name id emulator = after s (wrap generic (id_from_str id)) (λ i.
      after s (new_jade devices i emulator jade_network)
        (λ signer. load_signer s name signer true (signer_load_jade name id emulator)))

  unfoldable pub load_external : State host → String → String → Option Reply
  load_external s name f =
      after s (wrap generic (fingerprint_from_str f))
        (λ f'. load_signer s name (new_external devices f') true (signer_load_external name f))

  -- The signer is removed before its fingerprint is read for the answer.
  unfoldable pub unload_signer : State host → String → Option Reply
  unload_signer s name =
      let removed = Signers.remove devices s.signers name in
      let s = record s { signers = removed.0 } in
      after s removed.1 (λ signer. after s (fingerprint devices signer) (λ _. persist_all host s))

  unfoldable pub set_tx_memo : State host → String → String → String → Option Reply
  set_tx_memo s name txid memo = after s (Wollets.get_wollet wallets s.wollets name) (λ _.
      after s (wrap generic (txid_from_str txid)) (λ id.
        let s = record s { tx_memos = (Memos.set ⦃eq = txid_eq⦄ s.tx_memos name id memo).0 } in
        some (persist host s (wallet_set_tx_memo name txid memo))))

  unfoldable pub set_addr_memo : State host → String → String → String → Option Reply
  set_addr_memo s name address memo = after s (Wollets.get_wollet wallets s.wollets name) (λ _.
      after s (wrap generic (address_from_str address)) (λ a.
        let s = record s {
          addr_memos = (Memos.set ⦃eq = wallets.address_eq⦄ s.addr_memos name a memo).0;
        } in
        some (persist host s (wallet_set_addr_memo name address memo))))

  unfoldable pub add_asset : State host → String → String → String → Option Reply
  add_asset s asset_id contract tx = after s (wrap generic (elements.asset_from_str asset_id)) (λ a.
      after s (wrap generic (transaction_from_hex tx)) (λ t.
        after s (contract_from_json contract) (λ c.
          let inserted = insert_asset elements s.assets a t c in
          let s = record s { assets = inserted.0 } in
          after s inserted.1 (λ _. some (persist host s (asset_insert asset_id contract tx))))))

  unfoldable pub drop_asset : State host → String → Option Reply
  drop_asset s asset_id = after s (wrap generic (elements.asset_from_str asset_id)) (λ a.
      let removed = remove_asset elements s.assets a in
      let s = record s { assets = removed.0 } in after s removed.1 (λ _. persist_all host s))

  unfoldable pub handle : State host → Request → Option Reply
  handle s (wallet_load descriptor name) = load_wallet s descriptor name
  handle s (wallet_unload name) = unload_wallet s name
  handle s (wallet_set_tx_memo name txid memo) = set_tx_memo s name txid memo
  handle s (wallet_set_addr_memo name address memo) = set_addr_memo s name address memo
  handle s (signer_load_software name words save) = load_software s name words save
  handle s (signer_load_jade name id emulator) = load_jade s name id emulator
  handle s (signer_load_external name f) = load_external s name f
  handle s (signer_unload name) = unload_signer s name
  handle s (asset_insert asset_id contract tx) = add_asset s asset_id contract tx
  handle s (asset_remove asset_id) = drop_asset s asset_id
