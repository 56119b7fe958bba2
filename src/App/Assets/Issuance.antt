-- ===== src/App/Assets/Issuance.antt =====
-- About `RegistryAssetData::new` of lwk_app/src/state.rs and the issuance that it looks for.
use Prim.Native.String.{String}
use satsails_lwk.Common.{
  ℕ, zero, suc, ◌+◌, ◌≤◌, ◌^◌, Bool, true, false, List, [], ◌∷◌, Option, some, Result, ok, err,
  ◌>>=◌, not, ◌||◌, ◌==◌, nat_eq, list_eq, if◌then◌else◌, get_elem?, get_elem?-lt, and_then, ◌≡◌,
  refl, sym, ap, ◌∙◌, length, arith, ==_sound, Bool-cases, inl, inr,
}
use satsails_lwk.App.Error.{Error, invalid_contract_for_asset, wollet}
use satsails_lwk.App.Signer.{Bytes, wrap}
use satsails_lwk.App.Assets.{
  Elements, RegistryAssetData, registry_data, committed, find_issuance, new_registry_asset,
  issuance_prevout,
}

module _ (el : Elements) where
  open el use {Transaction, TxIn, Contract, inputs, previous_output, issuance_ids, asset_ids}

  -- The input `i` of the list issues the asset of `d` under its contract.
  record Issues (asset_id : Bytes) (tx : Transaction) (contract : Contract) (vin : ℕ)
      (rest : List TxIn) (d : RegistryAssetData el) : Type 0 where
    pub index : ℕ
    pub txin : TxIn
    pub at_index : get_elem? rest index ≡ some txin
    pub is_data : d ≡ registry_data el asset_id (issuance_ids txin).1 (vin + index) tx contract
    pub issued : (issuance_ids txin).0 ≡ asset_id
    pub agrees : asset_ids txin contract ≡ ok (asset_id, (issuance_ids txin).1)

  checked_ids :
      (asset_id token : Bytes) (a t : Bytes) (e : Error) (good d : RegistryAssetData el)
      → (if not (a == asset_id) || not (t == token) then err e else ok good) ≡ ok d
      → (a ≡ asset_id) × (t ≡ token) × (good ≡ d)
  checked_ids asset_id token a t e good d h = by_tests (a == asset_id) refl (t == token) refl h
    where
      by_tests :
          (p : Bool)
          → (a == asset_id) ≡ p
          → (q : Bool) → (t == token) ≡ q
          → (if not p || not q then err e else ok good) ≡ ok d
          → (a ≡ asset_id) × (t ≡ token) × (good ≡ d)
      by_tests true hp true hq h = (==_sound a asset_id hp, ==_sound t token hq, cc)
      by_tests true hp false hq h = cc
      by_tests false hp q hq h = cc

  committed-eq-ok :
      (asset_id : Bytes) (tx : Transaction) (contract : Contract) (vin : ℕ) (txin : TxIn)
      (d : RegistryAssetData el)
      → committed el asset_id tx contract vin txin ≡ ok d
      → (asset_ids txin contract ≡ ok (asset_id, (issuance_ids txin).1))
        × (registry_data el asset_id (issuance_ids txin).1 vin tx contract ≡ d)
  unfolding committed
  committed-eq-ok asset_id tx contract vin txin d h = by_ids (asset_ids txin contract) refl h
    where
      token : Bytes
      token = (issuance_ids txin).1

      by_ids :
          (r : Result String (Bytes × Bytes))
          → asset_ids txin contract ≡ r
          → (wrap wollet r >>= λ ids.
              if not (ids.0 == asset_id) || not (ids.1 == (issuance_ids txin).1)
              then err (invalid_contract_for_asset (el.asset_to_string asset_id))
              else ok (registry_data el asset_id (issuance_ids txin).1 vin tx contract))
            ≡ ok d
          → (asset_ids txin contract ≡ ok (asset_id, (issuance_ids txin).1))
            × (registry_data el asset_id (issuance_ids txin).1 vin tx contract ≡ d)
      by_ids (err e) hr h = cc
      by_ids (ok (a, t)) hr h =
          let (ea, et, same) =
            checked_ids asset_id (issuance_ids txin).1 a t
              (invalid_contract_for_asset (el.asset_to_string asset_id))
              (registry_data el asset_id (issuance_ids txin).1 vin tx contract) d h in
          (hr ∙ cc, same)

  find_issuance-Issues :
      (asset_id : Bytes) (tx : Transaction) (contract : Contract) (vin : ℕ) (rest : List TxIn)
      (d : RegistryAssetData el)
      → find_issuance el asset_id tx contract vin rest ≡ ok d
      → Issues asset_id tx contract vin rest d
  unfolding find_issuance
  find_issuance-Issues asset_id tx contract vin [] d h = cc
  find_issuance-Issues asset_id tx contract vin (txin ∷ rest) d h =
      elim (Bool-cases ((issuance_ids txin).0 == asset_id)) [
        | inl here ↦
            let h' : committed el asset_id tx contract vin txin ≡ ok d = rw here at h in
            let (agree, same) = committed-eq-ok asset_id tx contract vin txin d h' in
            record {
              index = zero;
              txin = txin;
              at_index = refl;
              is_data =
                  sym same
                  ∙ ap (λ (v : ℕ). registry_data el asset_id (issuance_ids txin).1 v tx contract)
                      (omega arith);
              issued = ==_sound (issuance_ids txin).0 asset_id here;
              agrees = agree;
            }
        | inr later ↦
            let h' : find_issuance el asset_id tx contract (vin + 1) rest ≡ ok d = rw later at h in
            let found = find_issuance-Issues asset_id tx contract (vin + 1) rest d h' in
            record {
              index = suc found.index;
              txin = found.txin;
              at_index = found.at_index;
              is_data =
                  found.is_data
                  ∙ ap
                      (λ (v : ℕ).
                        registry_data el asset_id (issuance_ids found.txin).1 v tx contract)
                      (omega arith);
              issued = found.issued;
              agrees = found.agrees;
            }
      ]

  prevout :
      (d : RegistryAssetData el) (tx : Transaction) (txin : TxIn)
      → d.issuance_tx ≡ tx
      → get_elem? (inputs tx) d.issuance_vin ≡ some txin
      → issuance_prevout el d ≡ some (previous_output txin)
  unfolding issuance_prevout
  prevout d tx txin same h =
      ap
        (λ (t : Transaction).
          and_then (get_elem? (inputs t) d.issuance_vin) (λ i. some (previous_output i)))
        same
      ∙ ap (λ (o : Option TxIn). and_then o (λ i. some (previous_output i))) h

  -- For a transaction of at most 2 ^ 32 inputs, the recorded input is in range and issues the asset
  -- and its token, the contract commits to both, and reading its outpoint does not panic.
  pub new_registry_asset-Issues :
      (asset_id : Bytes) (tx : Transaction) (contract : Contract) (d : RegistryAssetData el)
      → length (inputs tx) ≤ 2 ^ 32
      → new_registry_asset el asset_id tx contract ≡ ok d
      → (txin : TxIn) × (get_elem? (inputs tx) d.issuance_vin ≡ some txin)
        × (issuance_ids txin ≡ (asset_id, d.token_id))
        × (asset_ids txin contract ≡ ok (asset_id, d.token_id))
        × (issuance_prevout el d ≡ some (previous_output txin))
  unfolding new_registry_asset
  new_registry_asset-Issues asset_id tx contract d small h =
      let found = find_issuance-Issues asset_id tx contract 0 (inputs tx) d h in
      let inside = get_elem?-lt (inputs tx) found.index found.txin found.at_index in
      let vin : d.issuance_vin ≡ found.index =
        ap (λ (x : RegistryAssetData el). x.issuance_vin) found.is_data ∙ omega arith in
      let token : (issuance_ids found.txin).1 ≡ d.token_id =
        sym (ap (λ (x : RegistryAssetData el). x.token_id) found.is_data) in
      let same_tx : d.issuance_tx ≡ tx =
        ap (λ (x : RegistryAssetData el). x.issuance_tx) found.is_data in
      let at_vin : get_elem? (inputs tx) d.issuance_vin ≡ some found.txin =
        ap (get_elem? (inputs tx)) vin ∙ found.at_index in
      (
        found.txin,
        at_vin,
        pairs (issuance_ids found.txin) asset_id d.token_id found.issued token,
        found.agrees ∙ ap (λ (t : Bytes). ok (asset_id, t)) token,
        prevout d tx found.txin same_tx at_vin,
      )
    where
      pairs : (p : Bytes × Bytes) (a t : Bytes) → p.0 ≡ a → p.1 ≡ t → p ≡ (a, t)
      pairs (x, y) a t ha ht = cc
