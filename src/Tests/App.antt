-- ===== src/Tests/App.antt =====
-- state.rs, method.rs and the request handlers of lwk_app.
use mathlib.Core.List.{Memᴰ}
use satsails_lwk.Common.{
  ◌==◌, if◌then◌else◌, true, ℕ, ◌+◌, false, [], ◌∷◌, none, some, ok, err, ◌≡◌, refl, nat_eq,
  list_eq, get_elem?, arith,
}
use satsails_lwk.Common.HashMap.{get, new, lookup, without}
use satsails_lwk.App.Error.{string_eq, signer, signer_already_loaded}
use satsails_lwk.App.Matching.{keys_where, collect}
use satsails_lwk.App.Checked.{names_matching, insert_checked}
use satsails_lwk.App.Checked.Laws
use satsails_lwk.App.Checked.Laws.{Outcome}
use satsails_lwk.App.Signer.{Bytes, any_xpub, fingerprint}
use satsails_lwk.App.Signers
use satsails_lwk.App.Signers.Identity.{name_from_fingerprint-loaded}
use satsails_lwk.App.Signers.Availability.{Settled, get_available-Settled}
use satsails_lwk.App.Wollets
use satsails_lwk.App.Memos
use satsails_lwk.App.Assets.{
  RegistryAssetData, Assets, insert_asset, registry_asset, reissuance_token, policy_asset,
  insert_policy_asset, new_registry_asset, registry_data, find_issuance, committed,
  issuance_prevout,
}
use satsails_lwk.App.Assets.Insertion.{get-insert_asset}
use satsails_lwk.App.Assets.Issuance.{new_registry_asset-Issues}
use satsails_lwk.App.State.{
  persist, State, as_requests, wallet_unload, signer_unload, signer_load_software, wallet_load,
  signer_requests, signer_request, wallet_request, tx_memo_requests, addr_memo_requests,
  asset_request, persist_all,
}
use satsails_lwk.App.State.Saved.{as_requests-software}
use satsails_lwk.App.Start.{initial, replay, run, run-IsValid}
use satsails_lwk.App.Handler.{load_wallet, handle, unload_wallet, after}
use satsails_lwk.App.Handler.Invariant.{IsValid, handle-IsValid}
use satsails_lwk.App.Handler.Unload.{Forgotten, unload_wallet-Forgotten, unload_signer-unreadable}
use satsails_lwk.Tests.Server.{
  toy_devices, toy_elements, toy_wallets, toy_host, sw, off_jade, start,
}

start-requests :
    as_requests toy_host start
    ≡ some (wallet_load "desc" "alice" ∷ signer_load_software "sw" "abandon about" false ∷ [])
unfolding as_requests signer_requests signer_request wallet_request tx_memo_requests
    addr_memo_requests asset_request
start-requests = refl

as_requests-software_example :
    Memᴰ
      (signer_load_software "sw" "abandon about" false)
      (wallet_load "desc" "alice" ∷ signer_load_software "sw" "abandon about" false ∷ [])
unfolding lookup
as_requests-software_example =
    as_requests-software toy_host start _ "sw" "abandon about" "abandon about" false start-requests
      refl refl

abbrev forgotten : State toy_host
forgotten = record start {
  wollets = new;
  file = signer_load_software "sw" "abandon about" false ∷ [];
}

alice_unloads : handle toy_host start (wallet_unload "alice") ≡ some (forgotten, ok tt)
unfolding handle unload_wallet after Wollets.remove Memos.remove persist_all without lookup
    as_requests signer_requests signer_request wallet_request tx_memo_requests addr_memo_requests
    asset_request
alice_unloads = refl

unload_wallet-Forgotten_example : Forgotten toy_host "alice" forgotten
unload_wallet-Forgotten_example =
    unload_wallet-Forgotten toy_host start forgotten "alice" alice_unloads

abbrev with_off_jade : State toy_host
with_off_jade = record start { signers = record { entries = ("jade", off_jade) ∷ [] } }

off_jade_unreadable : fingerprint toy_devices off_jade ≡ err (signer "off")
unfolding fingerprint any_xpub
off_jade_unreadable = refl

unload_signer-unreadable_example :
    (s' : State toy_host) × (handle toy_host with_off_jade (signer_unload "jade")
      ≡ some (s', err (signer "off")))
    × (get s'.signers "jade" ≡ none)
    × (s'.file ≡ [])
unfolding lookup
unload_signer-unreadable_example =
    unload_signer-unreadable toy_host with_off_jade "jade" off_jade (signer "off") refl
      off_jade_unreadable

abbrev sw_print : Bytes
sw_print = 1 ∷ 2 ∷ 3 ∷ 4 ∷ []

sw_alone : Laws.IsValid (fingerprint toy_devices) start.signers
unfolding Signers.insert insert_checked names_matching keys_where collect lookup without fingerprint
    any_xpub
sw_alone =
    Signers.Identity.insert-IsValid toy_devices new "sw" sw
      (Laws.new-IsValid (fingerprint toy_devices))

alice_alone : Laws.IsValid ⦃eqx = string_eq⦄ (Wollets.first_addr toy_wallets) start.wollets
unfolding Wollets.insert Wollets.first_addr insert_checked names_matching keys_where collect lookup
    without
alice_alone =
    Wollets.insert-IsValid toy_wallets new "alice" "desc"
      (Laws.new-IsValid ⦃eqx = string_eq⦄ (Wollets.first_addr toy_wallets))

start-IsValid : IsValid toy_host start
start-IsValid = record { wollets_valid = alice_alone; signers_valid = sw_alone }

handle-IsValid_example : IsValid toy_host forgotten
handle-IsValid_example =
    handle-IsValid toy_host start (wallet_unload "alice") forgotten (ok tt) start-IsValid
      alice_unloads

sw-fingerprint : fingerprint toy_devices sw ≡ ok sw_print
unfolding fingerprint any_xpub
sw-fingerprint = refl

name_from_fingerprint-loaded_example :
    Signers.name_from_fingerprint toy_devices start.signers sw_print ≡ (some "sw", 0)
unfolding lookup collect fingerprint any_xpub
name_from_fingerprint-loaded_example =
    name_from_fingerprint-loaded toy_devices start.signers (sw_print ∷ []) "sw" sw sw_print sw_alone
      refl refl sw-fingerprint

get_available-Settled_example :
    Settled toy_devices with_off_jade.signers "jade" none off_jade
      (Signers.get_available toy_devices with_off_jade.signers "jade" none)
unfolding lookup
get_available-Settled_example =
    get_available-Settled toy_devices with_off_jade.signers "jade" none off_jade refl

insert_checked-Outcome_example :
    Outcome
      (fingerprint toy_devices)
      signer_already_loaded
      start.signers
      "other"
      sw
      (insert_checked (fingerprint toy_devices) signer_already_loaded start.signers "other" sw)
insert_checked-Outcome_example =
    Laws.insert_checked-Outcome (fingerprint toy_devices) signer_already_loaded start.signers
      "other" sw sw_alone.distinct

new_registry_asset-Issues_example :
    (txin : ℕ) × (get_elem? (5 ∷ 7 ∷ []) 1 ≡ some txin)
    × (◌≡◌ {A = Bytes × Bytes} (txin ∷ [], (txin + 100) ∷ []) (7 ∷ [], 107 ∷ []))
    × (toy_elements.asset_ids txin 7 ≡ ok (7 ∷ [], 107 ∷ []))
    × (issuance_prevout toy_elements
          (registry_data toy_elements (7 ∷ []) (107 ∷ []) 1 (5 ∷ 7 ∷ []) 7)
        ≡ some txin)
unfolding new_registry_asset find_issuance committed
new_registry_asset-Issues_example =
    new_registry_asset-Issues toy_elements (7 ∷ []) (5 ∷ 7 ∷ []) 7
      (registry_data toy_elements (7 ∷ []) (107 ∷ []) 1 (5 ∷ 7 ∷ []) 7) (omega arith) refl

abbrev loaded : State toy_host
loaded = record {
  wollets = record { entries = ("alice", "desc") ∷ [] };
  signers = new;
  assets = record { entries = (0 ∷ [], policy_asset (0 ∷ [])) ∷ [] };
  tx_memos = new;
  addr_memos = new;
  do_persist = true;
  file = wallet_load "desc" "alice" ∷ [];
}

alice_replayed : run toy_host (0 ∷ []) (wallet_load "desc" "alice" ∷ []) ≡ some (ok loaded)
unfolding run replay initial insert_policy_asset handle load_wallet after Wollets.insert
    Wollets.first_addr insert_checked names_matching keys_where collect lookup without persist
alice_replayed = refl

run-IsValid_example : IsValid toy_host loaded × (true ≡ true)
run-IsValid_example =
    run-IsValid toy_host (0 ∷ []) (wallet_load "desc" "alice" ∷ []) loaded alice_replayed

abbrev gold : RegistryAssetData toy_elements
gold = registry_data toy_elements (7 ∷ []) (107 ∷ []) 1 (5 ∷ 7 ∷ []) 7

abbrev with_gold : Assets toy_elements
with_gold = record {
  entries = (107 ∷ [], reissuance_token gold) ∷ (7 ∷ [], registry_asset gold) ∷ [];
}

gold_inserted : insert_asset toy_elements new (7 ∷ []) (5 ∷ 7 ∷ []) 7 ≡ (with_gold, ok tt)
unfolding insert_asset new_registry_asset find_issuance committed without
gold_inserted = refl

abbrev gold_id : Bytes
gold_id = 7 ∷ []

get-insert_asset_example :
    (d : RegistryAssetData toy_elements) × (new_registry_asset toy_elements gold_id (5 ∷ 7 ∷ []) 7
      ≡ ok d)
    × (get with_gold gold_id ≡ (
        if d.token_id == gold_id
        then some (reissuance_token d)
        else if gold_id == gold_id
        then some (registry_asset d)
        else none))
unfolding lookup
get-insert_asset_example =
    get-insert_asset toy_elements new with_gold gold_id (5 ∷ 7 ∷ []) 7 gold_id gold_inserted
