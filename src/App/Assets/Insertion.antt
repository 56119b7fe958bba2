-- ===== src/App/Assets/Insertion.antt =====
-- About `State::insert_asset` of lwk_app/src/state.rs.
use satsails_lwk.Common.{
  Option, some, Result, ok, err, ◌==◌, nat_eq, list_eq, if◌then◌else◌, ◌≡◌, refl, sym, ap, ◌∙◌,
}
use satsails_lwk.Common.HashMap.{get, insert, get-insert}
use satsails_lwk.App.Error.{Error}
use satsails_lwk.App.Signer.{Bytes}
use satsails_lwk.App.Assets.{
  Elements, Assets, RegistryAssetData, AppAsset, registry_asset, reissuance_token,
  new_registry_asset, with_registry_asset, insert_asset,
}

module _ (el : Elements) where
  with_registry_asset-eq-ok :
      (m m' : Assets el) (a : Bytes) (r : Result Error (RegistryAssetData el)) (x : Bytes)
      → with_registry_asset el m a r ≡ (m', ok tt)
      → (d : RegistryAssetData el) × (r ≡ ok d)
        × (get m' x ≡ (
            if d.token_id == x
            then some (reissuance_token d)
            else if a == x
            then some (registry_asset d)
            else get m x))
  with_registry_asset-eq-ok m m' a (err e) x h =
      let bad : ◌≡◌ {A = Result Error (Unit {0})} (err e) (ok tt) =
        ap (λ (p : Assets el × Result Error (Unit {0})). p.1) h in
      cc
  with_registry_asset-eq-ok m m' a (ok d) x h = (
    d,
    refl,
    sym (ap (λ (p : Assets el × Result Error (Unit {0})). get p.0 x) h)
        ∙ get-insert (insert m a (registry_asset d)) d.token_id x (reissuance_token d)
        ∙ ap
            (λ (o : Option (AppAsset el)). if d.token_id == x then some (reissuance_token d) else o)
            (get-insert m a x (registry_asset d)),
  )

  -- A successful insertion stores the data that RegistryAssetData::new found, as a reissuance token
  -- under the token's id and, if that is another id, as an asset under the asset's; the other ids
  -- stand for what they stood for.
  pub get-insert_asset :
      (m m' : Assets el) (a : Bytes) (tx : el.Transaction) (c : el.Contract) (x : Bytes)
      → insert_asset el m a tx c ≡ (m', ok tt)
      → (d : RegistryAssetData el) × (new_registry_asset el a tx c ≡ ok d)
        × (get m' x ≡ (
            if d.token_id == x
            then some (reissuance_token d)
            else if a == x
            then some (registry_asset d)
            else get m x))
  unfolding insert_asset
  get-insert_asset m m' a tx c x h =
      with_registry_asset-eq-ok m m' a (new_registry_asset el a tx c) x h
