-- ===== src/App/Handler/Invariant.antt =====
-- What the arms of lwk_app/src/lib.rs keep true of the state.
use Prim.Native.String.{String}
use satsails_lwk.Common.{
  Bool, true, false, Option, none, some, Result, ok, err, if◌then◌else◌, and_then, list_eq, nat_eq,
  ◌≡◌, subst,
}
use satsails_lwk.App.Error.{Error, string_eq}
use satsails_lwk.App.Checked.Laws
use satsails_lwk.App.Signer.{AppSigner, fingerprint, new_external}
use satsails_lwk.App.Signers
use satsails_lwk.App.Signers.Identity
use satsails_lwk.App.Wollets
use satsails_lwk.App.Wollets.{first_addr}
use satsails_lwk.App.State.{
  Host, Request, State, persist, persist_all, written, as_requests, wallet_load, wallet_unload,
  wallet_set_tx_memo, wallet_set_addr_memo, signer_load_software, signer_load_jade,
  signer_load_external, signer_unload, asset_insert, asset_remove,
}
use satsails_lwk.App.Handler.{
  Reply, after, load_wallet, unload_wallet, load_signer, load_software, load_jade, load_external,
  unload_signer, set_tx_memo, set_addr_memo, add_asset, drop_asset, handle,
}

module _ (host : Host) where
  open host use {devices, wallets}

  -- No two loaded wallets share a first address, and no two loaded signers a fingerprint.
  pub record IsValid (s : State host) : Type 0 where
    pub wollets_valid : Laws.IsValid ⦃eqx = wallets.address_eq⦄ (first_addr wallets) s.wollets
    pub signers_valid : Laws.IsValid (fingerprint devices) s.signers

  -- The state that an arm leaves is valid, if the arm does not panic.
  Keeps : Option (Reply host) → Type 0
  Keeps none = Unit
  Keeps (some r) = IsValid r.0

  after-Keeps :
      {A : Type 0} (s : State host) (r : Result Error A) (rest : A → Option (Reply host))
      → IsValid s
      → ((a : A) → Keeps (rest a))
      → Keeps (after host s r rest)
  unfolding Keeps after
  after-Keeps s (err e) rest v k = v
  after-Keeps s (ok a) rest v k = k a

  written-IsValid :
      (s : State host) (q : _) (r : Result String (Unit {0}))
      → IsValid s
      → IsValid (written host s q r).0
  written-IsValid s q (ok _) v = record {
    wollets_valid = v.wollets_valid;
    signers_valid = v.signers_valid;
  }
  written-IsValid s q (err e) v = v

  chosen-IsValid :
      (b : Bool) (x y : Reply host) → IsValid x.0 → IsValid y.0 → IsValid (if b then x else y).0
  chosen-IsValid true x y vx vy = vx
  chosen-IsValid false x y vx vy = vy

  persist-IsValid : (s : State host) (q : Request) → IsValid s → IsValid (persist host s q).0
  unfolding persist
  persist-IsValid s q v = chosen-IsValid s.do_persist _ _ (written-IsValid s _ _ v) v

  persist_all-Keeps : (s : State host) → IsValid s → Keeps (persist_all host s)
  unfolding persist_all Keeps
  persist_all-Keeps s v = by_requests (as_requests host s)
    where
      by_requests :
          (o : _)
          → Keeps (and_then o (λ requests. some (written host s requests (host.write requests))))
      by_requests none = tt
      by_requests (some requests) = written-IsValid s requests (host.write requests) v

  persist-Keeps : (s : State host) (q : Request) → IsValid s → Keeps (some (persist host s q))
  unfolding Keeps
  persist-Keeps s q v = persist-IsValid s q v

  save-Keeps :
      (save : Bool) (s : State host) (q : Request)
      → IsValid s
      → Keeps (some (if save then persist host s q else (s, ok tt)))
  unfolding Keeps
  save-Keeps save s q v = chosen-IsValid save _ _ (persist-IsValid s q v) v

  load_wallet-Keeps :
      (s : State host) (descriptor name : String)
      → IsValid s
      → Keeps (load_wallet host s descriptor name)
  unfolding load_wallet
  load_wallet-Keeps s descriptor name v = after-Keeps s (host.load_wollet descriptor) _ v (λ w.
      let v' : IsValid (record s { wollets = (Wollets.insert wallets s.wollets name w).0 }) =
        record {
          wollets_valid = Wollets.insert-IsValid wallets s.wollets name w v.wollets_valid;
          signers_valid = v.signers_valid;
        } in
      after-Keeps _ (Wollets.insert wallets s.wollets name w).1 _ v' (λ _. persist-Keeps _ _ v'))

  unload_wallet-Keeps :
      (s : State host) (name : String) → IsValid s → Keeps (unload_wallet host s name)
  unfolding unload_wallet
  unload_wallet-Keeps s name v =
      let kept = Wollets.remove-IsValid wallets s.wollets name v.wollets_valid in
      after-Keeps _ (Wollets.remove wallets s.wollets name).1 _
        (record { wollets_valid = kept; signers_valid = v.signers_valid })
        (λ _.
          persist_all-Keeps _ (record { wollets_valid = kept; signers_valid = v.signers_valid }))

  load_signer-Keeps :
      (s : State host) (name : String) (signer : AppSigner devices) (save : Bool) (q : Request)
      → IsValid s
      → Keeps (load_signer host s name signer save q)
  load_signer-Keeps s name signer save q v =
      let kept = Identity.insert-IsValid devices s.signers name signer v.signers_valid in
      let v' : IsValid (record s { signers = (Signers.insert devices s.signers name signer).0 }) =
        record { wollets_valid = v.wollets_valid; signers_valid = kept } in
      after-Keeps s (fingerprint devices signer) _ v (λ _.
        after-Keeps _ (Signers.insert devices s.signers name signer).1 _ v'
          (λ _. save-Keeps save _ q v'))

  unload_signer-Keeps :
      (s : State host) (name : String) → IsValid s → Keeps (unload_signer host s name)
  unfolding unload_signer
  unload_signer-Keeps s name v =
      let v' : IsValid (record s { signers = (Signers.remove devices s.signers name).0 }) = record {
        wollets_valid = v.wollets_valid;
        signers_valid = Identity.remove-IsValid devices s.signers name v.signers_valid;
      } in
      after-Keeps _ (Signers.remove devices s.signers name).1 _ v'
        (λ signer. after-Keeps _ (fingerprint devices signer) _ v' (λ _. persist_all-Keeps _ v'))

  handle-Keeps : (s : State host) (q : Request) → IsValid s → Keeps (handle host s q)
  unfolding handle load_software load_jade load_external set_tx_memo set_addr_memo add_asset
      drop_asset
  handle-Keeps s (wallet_load descriptor name) v = load_wallet-Keeps s descriptor name v
  handle-Keeps s (wallet_unload name) v = unload_wallet-Keeps s name v
  handle-Keeps s (wallet_set_tx_memo name txid memo) v = after-Keeps s _ _ v (λ _.
      after-Keeps s _ _ v (λ _.
        persist-Keeps _ _
          (record { wollets_valid = v.wollets_valid; signers_valid = v.signers_valid })))
  handle-Keeps s (wallet_set_addr_memo name address memo) v = after-Keeps s _ _ v (λ _.
      after-Keeps s _ _ v (λ _.
        persist-Keeps _ _
          (record { wollets_valid = v.wollets_valid; signers_valid = v.signers_valid })))
  handle-Keeps s (signer_load_software name words save) v =
      after-Keeps s _ _ v (λ signer. load_signer-Keeps s name signer save _ v)
  handle-Keeps s (signer_load_jade name id emulator) v =
      after-Keeps s _ _ v
        (λ i. after-Keeps s _ _ v (λ signer. load_signer-Keeps s name signer true _ v))
  handle-Keeps s (signer_load_external name f) v =
      after-Keeps s _ _ v (λ f'. load_signer-Keeps s name (new_external devices f') true _ v)
  handle-Keeps s (signer_unload name) v = unload_signer-Keeps s name v
  handle-Keeps s (asset_insert asset_id contract tx) v = after-Keeps s _ _ v (λ a.
      after-Keeps s _ _ v (λ t. after-Keeps s _ _ v (λ c.
        after-Keeps _ _ _
          (record { wollets_valid = v.wollets_valid; signers_valid = v.signers_valid })
          (λ _.
            persist-Keeps _ _
              (record { wollets_valid = v.wollets_valid; signers_valid = v.signers_valid })))))
  handle-Keeps s (asset_remove asset_id) v = after-Keeps s _ _ v (λ a.
      after-Keeps _ _ _
        (record { wollets_valid = v.wollets_valid; signers_valid = v.signers_valid })
        (λ _.
          persist_all-Keeps _
            (record { wollets_valid = v.wollets_valid; signers_valid = v.signers_valid })))

  -- Every request, answered or refused, leaves a valid state: the loaded wallets' names and first
  -- addresses stay apart, and the loaded signers' names and fingerprints.
  pub handle-IsValid :
      (s : State host) (q : Request) (s' : State host) (r : Result Error (Unit {0}))
      → IsValid s
      → handle host s q ≡ some (s', r)
      → IsValid s'
  unfolding Keeps
  handle-IsValid s q s' r v h = subst Keeps h (handle-Keeps s q v)
