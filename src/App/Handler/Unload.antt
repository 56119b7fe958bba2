-- ===== src/App/Handler/Unload.antt =====
-- The unloading arms of lwk_app/src/lib.rs: what is gone, and whether the state file knows.
use Prim.Native.String.{String}
use satsails_lwk.Common.{
  List, Option, none, some, Result, ok, err, ok_or, and_then-eq-some, ◌≡◌, refl, ap, ◌∙◌, list_eq,
  nat_eq, subst,
}
use satsails_lwk.Common.HashMap.{get, new, lookup-without_same}
use satsails_lwk.App.Error.{Error, string_eq, signer_not_exist, wallet_not_exist, io}
use satsails_lwk.App.Signer.{AppSigner, fingerprint}
use satsails_lwk.App.Signers
use satsails_lwk.App.Wollets
use satsails_lwk.App.Memos
use satsails_lwk.App.State.{
  Host, State, Request, as_requests, persist_all, written, signer_unload, wallet_unload,
}
use satsails_lwk.App.Handler.{Reply, after, unload_signer, unload_wallet, handle}

module _ (host : Host) where
  open host use {devices, wallets, Txid, txid_eq}

  -- Unloading a loaded signer whose fingerprint cannot be read answers with the error; the signer is
  -- gone, and the file is as it was.
  pub unload_signer-unreadable :
      (s : State host) (name : String) (sg : AppSigner devices) (e : Error)
      → get s.signers name ≡ some sg
      → fingerprint devices sg ≡ err e
      → (s' : State host) × (handle host s (signer_unload name) ≡ some (s', err e))
        × (get s'.signers name ≡ none)
        × (s'.file ≡ s.file)
  unfolding handle unload_signer after Signers.remove
  unload_signer-unreadable s name sg e hs hf =
      let s1 : State host = record s { signers = (Signers.remove devices s.signers name).0 } in
      (
        s1,
        ap
              (λ (o : Option (AppSigner devices)).
                after host s1 (ok_or o (signer_not_exist name))
                  (λ signer. after host s1 (fingerprint devices signer) (λ _. persist_all host s1)))
              hs
            ∙ ap (λ (r : Result Error _). after host s1 r (λ _. persist_all host s1)) hf,
        lookup-without_same name s.signers.entries,
        refl,
      )

  after-eq-ok :
      {A : Type 0} (s : State host) (o : Option A) (e : Error) (rest : Option (Reply host))
      (s' : State host)
      → after host s (ok_or o e) (λ _. rest) ≡ some (s', ok tt)
      → rest ≡ some (s', ok tt)
  unfolding after
  after-eq-ok s none e rest s' h = cc
  after-eq-ok s (some a) e rest s' h = h

  written-eq-ok :
      (s : State host) (requests : List Request) (w : Result String (Unit {0})) (s' : State host)
      → written host s requests w ≡ (s', ok tt)
      → record s { file = requests } ≡ s'
  written-eq-ok s requests (ok u) s' h = ap (λ (x : Reply host). x.0) h
  written-eq-ok s requests (err e) s' h =
      let bad : ◌≡◌ {A = Result Error (Unit {0})} (err (io e)) (ok tt) =
        ap (λ (x : Reply host). x.1) h in
      cc

  persist_all-eq-ok :
      (s s' : State host)
      → persist_all host s ≡ some (s', ok tt)
      → (requests : List Request) × (as_requests host s ≡ some requests)
        × (record s { file = requests } ≡ s')
  unfolding persist_all
  persist_all-eq-ok s s' h =
      let (requests, hr, hw) = and_then-eq-some (as_requests host s) _ h in
      (requests, hr, written-eq-ok s requests (host.write requests) s' (cc))

  -- What an answered unloading of `name` leaves.
  pub record Forgotten (name : String) (s : State host) : Type 0 where
    pub no_wallet : get s.wollets name ≡ none
    pub no_tx_memo : Memos.for_wollet ⦃eq = txid_eq⦄ s.tx_memos name ≡ new
    pub no_addr_memo : Memos.for_wollet ⦃eq = wallets.address_eq⦄ s.addr_memos name ≡ new
    pub saved : as_requests host s ≡ some s.file

  -- An answered unloading leaves neither the wallet nor its memos, and the file holds the state.
  pub unload_wallet-Forgotten :
      (s s' : State host) (name : String)
      → handle host s (wallet_unload name) ≡ some (s', ok tt)
      → Forgotten name s'
  unfolding handle unload_wallet as_requests Wollets.remove
  unload_wallet-Forgotten s s' name h =
      let s1 : State host = record s { wollets = (Wollets.remove wallets s.wollets name).0 } in
      let s2 : State host = record s1 {
        tx_memos = Memos.remove ⦃eq = txid_eq⦄ s.tx_memos name;
        addr_memos = Memos.remove ⦃eq = wallets.address_eq⦄ s.addr_memos name;
      } in
      let all_written : persist_all host s2 ≡ some (s', ok tt) =
        after-eq-ok s1 (get s.wollets name) (wallet_not_exist name) (persist_all host s2) s' h in
      let (requests, hr, same) = persist_all-eq-ok s2 s' all_written in
      subst (Forgotten name) same (record {
        no_wallet = lookup-without_same name s.wollets.entries;
        no_tx_memo = (Memos.for_wollet-remove ⦃eq = txid_eq⦄ s.tx_memos name).0;
        no_addr_memo = (Memos.for_wollet-remove ⦃eq = wallets.address_eq⦄ s.addr_memos name).0;
        saved = hr;
      })
