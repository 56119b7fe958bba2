-- ===== src/App/State/Saved.antt =====
-- What `State::as_requests` of lwk_app/src/state.rs writes to the state file.
use Prim.Native.String.{String}
use mathlib.Core.List.{Memᴰ}
use satsails_lwk.Common.{
  Bool, List, [], ◌∷◌, ◌++◌, Option, none, some, and_then, map, concat, ◌≡◌, refl, sym, ap, ◌∙◌,
  subst, nat_eq, list_eq, and_then-eq-some, PartialEq,
}
use satsails_lwk.Common.Members.{
  mem-append_left, mem-append_right, mem-map, mem-concat_map, mem-lookup,
}
use satsails_lwk.Common.HashMap.{HashMap, get, lookup}
use satsails_lwk.App.Error.{string_eq}
use satsails_lwk.App.Signer.{Bytes, AppSigner, available_signer, software}
use satsails_lwk.App.Memos.{for_wollet, or_default}
use satsails_lwk.App.Assets.{RegistryAssetData, registry_asset}
use satsails_lwk.App.State.{
  Host, State, Request, wallet_load, wallet_set_tx_memo, wallet_set_addr_memo, signer_load_software,
  asset_insert, wallet_request, tx_memo_requests, addr_memo_requests, signer_request,
  signer_requests, asset_request, as_requests,
}

memo_map :
    {K : Type 0} ⦃eq : PartialEq K⦄ (o : Option (HashMap K String)) (k : K) (memo : String)
    → get (or_default o) k ≡ some memo
    → (memos : HashMap K String) × (o ≡ some memos) × (get memos k ≡ some memo)
unfolding lookup
memo_map none k memo h = cc
memo_map (some memos) k memo h = (memos, refl, h)

module _ (host : Host) where
  open host use {devices, elements, wallets, Txid, txid_eq, txid_to_string, address_to_string}

  saved_signer :
      (es : List (String × AppSigner devices)) (rs : List Request) (e : String × AppSigner devices)
      → signer_requests host es ≡ some rs
      → Memᴰ e es
      → (r : Request) × (signer_request host e ≡ some r) × Memᴰ r rs
  unfolding signer_requests
  saved_signer [] rs e h m = elim m [ ]
  saved_signer (x ∷ es) rs e h (Memᴰ.head ex) =
      let (r, hr, rest) = and_then-eq-some (signer_request host x) _ h in
      let (rs', hrs, same) = and_then-eq-some (signer_requests host es) _ rest in
      (
        r,
        ap (signer_request host) ex ∙ hr,
        subst (Memᴰ r) {x = r ∷ rs'} {y = rs} (cc) (Memᴰ.head refl),
      )
  saved_signer (x ∷ es) rs e h (Memᴰ.tail m) =
      let (r, hr, rest) = and_then-eq-some (signer_request host x) _ h in
      let (rs', hrs, same) = and_then-eq-some (signer_requests host es) _ rest in
      let (q, hq, mq) = saved_signer es rs' e hrs m in
      (q, hq, subst (Memᴰ q) {x = r ∷ rs'} {y = rs} (cc) (Memᴰ.tail mq))

  -- The state file holds each wallet, memo, signer and registry asset of the state.
  pub record Saves (s : State host) (rs : List Request) : Type 0 where
    pub wallet :
        (n : String) (w : wallets.Wollet)
        → get s.wollets n ≡ some w
        → Memᴰ (wallet_load (wallets.descriptor w) n) rs
    pub tx_memo :
        (n : String) (id : Txid) (memo : String)
        → get ⦃eq = txid_eq⦄ (for_wollet ⦃eq = txid_eq⦄ s.tx_memos n) id ≡ some memo
        → Memᴰ (wallet_set_tx_memo n (txid_to_string id) memo) rs
    pub addr_memo :
        (n : String) (a : wallets.Address) (memo : String)
        → get ⦃eq = wallets.address_eq⦄ (for_wollet ⦃eq = wallets.address_eq⦄ s.addr_memos n) a
          ≡ some memo
        → Memᴰ (wallet_set_addr_memo n (address_to_string a) memo) rs
    pub signer :
        (n : String) (sg : AppSigner devices)
        → get s.signers n ≡ some sg
        → (r : Request) × (signer_request host (n, sg) ≡ some r) × Memᴰ r rs
    pub asset :
        (a : Bytes) (d : RegistryAssetData elements)
        → get s.assets a ≡ some (registry_asset d)
        → Memᴰ
            (asset_insert
              (elements.asset_to_string d.asset_id)
              (elements.contract_json d.contract)
              (elements.transaction_hex d.issuance_tx))
            rs

  module _ (s : State host) (loaded : List Request) where
    abbrev ws : List Request
    ws = map (wallet_request host) s.wollets.entries

    abbrev txs : List Request
    txs = concat (map (tx_memo_requests host) s.tx_memos.entries)

    abbrev addrs : List Request
    addrs = concat (map (addr_memo_requests host) s.addr_memos.entries)

    abbrev assets : List Request
    assets = concat (map (asset_request host) s.assets.entries)

    all_saved :
        signer_requests host s.signers.entries ≡ some loaded
        → Saves s (ws ++ (txs ++ (addrs ++ (loaded ++ assets))))
    unfolding wallet_request tx_memo_requests addr_memo_requests asset_request for_wollet
    all_saved hl = record {
      wallet = λ n w h. mem-append_left _ ws _ (
          mem-map (wallet_request host) (n, w) s.wollets.entries
            (mem-lookup n w s.wollets.entries h));
      tx_memo = λ n id memo h.
          let (memos, hn, hm) = memo_map ⦃eq = txid_eq⦄ (get s.tx_memos n) id memo h in
          mem-append_right _ ws _ (
            mem-append_left _ txs _ (
              mem-concat_map (tx_memo_requests host) (n, memos) _ s.tx_memos.entries
                (mem-lookup n memos s.tx_memos.entries hn)
                (mem-map (λ e. wallet_set_tx_memo n (txid_to_string e.0) e.1) (id, memo)
                  memos.entries (mem-lookup ⦃eq = txid_eq⦄ id memo memos.entries hm))));
      addr_memo = λ n a memo h.
          let (memos, hn, hm) = memo_map ⦃eq = wallets.address_eq⦄ (get s.addr_memos n) a memo h in
          mem-append_right _ ws _ (
            mem-append_right _ txs _ (
              mem-append_left _ addrs _ (
                mem-concat_map (addr_memo_requests host) (n, memos) _ s.addr_memos.entries
                  (mem-lookup n memos s.addr_memos.entries hn)
                  (mem-map (λ e. wallet_set_addr_memo n (address_to_string e.0) e.1) (a, memo)
                    memos.entries
                    (mem-lookup ⦃eq = wallets.address_eq⦄ a memo memos.entries hm)))));
      signer = λ n sg h.
          let (r, hr, mr) =
            saved_signer s.signers.entries loaded (n, sg) hl
              (mem-lookup n sg s.signers.entries h) in
          (
            r,
            hr,
            mem-append_right r ws _ (
                mem-append_right r txs _
                  (mem-append_right r addrs _ (mem-append_left r loaded assets mr))),
          );
      asset = λ a d h. mem-append_right _ ws _ (
          mem-append_right _ txs _ (
            mem-append_right _ addrs _ (
              mem-append_right _ loaded assets (
                mem-concat_map (asset_request host) (a, registry_asset d) _ s.assets.entries
                  (mem-lookup a (registry_asset d) s.assets.entries h) (Memᴰ.head refl)))));
    }

  pub as_requests-Saves :
      (s : State host) (rs : List Request) → as_requests host s ≡ some rs → Saves s rs
  unfolding as_requests
  as_requests-Saves s rs h =
      let (loaded, hl, same) = and_then-eq-some (signer_requests host s.signers.entries) _ h in
      subst (Saves s) (cc) (all_saved s loaded hl)

  -- A software signer's mnemonic is in the file whether it was loaded to be persisted or not.
  pub as_requests-software :
      (s : State host) (rs : List Request) (n words : String) (sw : devices.SwSigner) (save : Bool)
      → as_requests host s ≡ some rs
      → get s.signers n ≡ some (record { inner = available_signer (software sw); persist = save })
      → devices.sw_mnemonic sw ≡ some words
      → Memᴰ (signer_load_software n words save) rs
  unfolding signer_request
  as_requests-software s rs n words sw save h hn hw =
      let (r, hr, mr) = (as_requests-Saves s rs h).signer n _ hn in
      let same : ◌≡◌ {A = Option Request} (some (signer_load_software n words save)) (some r) =
        sym (
          ap (λ (o : Option String). and_then o (λ words. some (signer_load_software n words save)))
            hw)
        ∙ hr in
      subst (λ q. Memᴰ q rs) (cc) mr
