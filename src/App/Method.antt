-- ===== src/App/Method.antt =====
-- lwk_app/src/method.rs: the methods of the server and their names.
use Prim.Native.String.{String}
use satsails_lwk.Common.{
  List, [], ◌∷◌, Option, none, some, Result, ok, err, ◌≡◌, ◌↔◌, refl, sym, ap, ◌∙◌, ◌==◌, ==_sound,
  find, find_sound, All, All-find, Bool-cases, inl, inr, Bool, true, false, ◌&&◌,
}
use satsails_lwk.App.Error.{Error, string_eq, method_not_exist}

pub data Method : Type 0 where
  schema version scan stop wallet_load wallet_unload wallet_list wallet_details : Method
  wallet_address wallet_balance wallet_utxos wallet_txs wallet_tx wallet_send_many : Method
  wallet_issue wallet_reissue wallet_burn wallet_combine wallet_broadcast : Method
  wallet_pset_details wallet_multisig_descriptor wallet_set_tx_memo wallet_set_addr_memo : Method
  signer_generate signer_jade_id signer_load_software signer_load_jade signer_load_external : Method
  signer_unload signer_list signer_details signer_xpub signer_sign : Method
  signer_singlesig_descriptor signer_register_multisig asset_contract asset_insert : Method
  asset_remove asset_list asset_details asset_from_explorer asset_publish : Method

-- `to_string`
unfoldable pub method_name : Method → String
method_name Method.schema = "schema"
method_name Method.version = "version"
method_name Method.scan = "scan"
method_name Method.stop = "stop"
method_name Method.wallet_load = "wallet_load"
method_name Method.wallet_unload = "wallet_unload"
method_name Method.wallet_list = "wallet_list"
method_name Method.wallet_details = "wallet_details"
method_name Method.wallet_address = "wallet_address"
method_name Method.wallet_balance = "wallet_balance"
method_name Method.wallet_utxos = "wallet_utxos"
method_name Method.wallet_txs = "wallet_txs"
method_name Method.wallet_tx = "wallet_tx"
method_name Method.wallet_send_many = "wallet_send_many"
method_name Method.wallet_issue = "wallet_issue"
method_name Method.wallet_reissue = "wallet_reissue"
method_name Method.wallet_burn = "wallet_burn"
method_name Method.wallet_combine = "wallet_combine"
method_name Method.wallet_broadcast = "wallet_broadcast"
method_name Method.wallet_pset_details = "wallet_pset_details"
method_name Method.wallet_multisig_descriptor = "wallet_multisig_descriptor"
method_name Method.wallet_set_tx_memo = "wallet_set_tx_memo"
method_name Method.wallet_set_addr_memo = "wallet_set_addr_memo"
method_name Method.signer_generate = "signer_generate"
method_name Method.signer_jade_id = "signer_jade_id"
method_name Method.signer_load_software = "signer_load_software"
method_name Method.signer_load_jade = "signer_load_jade"
method_name Method.signer_load_external = "signer_load_external"
method_name Method.signer_unload = "signer_unload"
method_name Method.signer_list = "signer_list"
method_name Method.signer_details = "signer_details"
method_name Method.signer_xpub = "signer_xpub"
method_name Method.signer_sign = "signer_sign"
method_name Method.signer_singlesig_descriptor = "signer_singlesig_descriptor"
method_name Method.signer_register_multisig = "signer_register_multisig"
method_name Method.asset_contract = "asset_contract"
method_name Method.asset_insert = "asset_insert"
method_name Method.asset_remove = "asset_remove"
method_name Method.asset_list = "asset_list"
method_name Method.asset_details = "asset_details"
method_name Method.asset_from_explorer = "asset_from_explorer"
method_name Method.asset_publish = "asset_publish"

-- The arms of `from_str`, in order.
abbrev pub arms : List (String × Method)
arms =
    ("schema", Method.schema)
    ∷ ("version", Method.version)
    ∷ ("scan", Method.scan)
    ∷ ("stop", Method.stop)
    ∷ ("wallet_load", Method.wallet_load)
    ∷ ("wallet_unload", Method.wallet_unload)
    ∷ ("wallet_list", Method.wallet_list)
    ∷ ("wallet_details", Method.wallet_details)
    ∷ ("wallet_address", Method.wallet_address)
    ∷ ("wallet_balance", Method.wallet_balance)
    ∷ ("wallet_utxos", Method.wallet_utxos)
    ∷ ("wallet_txs", Method.wallet_txs)
    ∷ ("wallet_tx", Method.wallet_tx)
    ∷ ("wallet_send_many", Method.wallet_send_many)
    ∷ ("wallet_issue", Method.wallet_issue)
    ∷ ("wallet_reissue", Method.wallet_reissue)
    ∷ ("wallet_burn", Method.wallet_burn)
    ∷ ("wallet_combine", Method.wallet_combine)
    ∷ ("wallet_broadcast", Method.wallet_broadcast)
    ∷ ("wallet_pset_details", Method.wallet_pset_details)
    ∷ ("wallet_multisig_descriptor", Method.wallet_multisig_descriptor)
    ∷ ("wallet_set_tx_memo", Method.wallet_set_tx_memo)
    ∷ ("wallet_set_addr_memo", Method.wallet_set_addr_memo)
    ∷ ("signer_generate", Method.signer_generate)
    ∷ ("signer_jade_id", Method.signer_jade_id)
    ∷ ("signer_load_software", Method.signer_load_software)
    ∷ ("signer_load_jade", Method.signer_load_jade)
    ∷ ("signer_load_external", Method.signer_load_external)
    ∷ ("signer_unload", Method.signer_unload)
    ∷ ("signer_list", Method.signer_list)
    ∷ ("signer_details", Method.signer_details)
    ∷ ("signer_xpub", Method.signer_xpub)
    ∷ ("signer_sign", Method.signer_sign)
    ∷ ("signer_singlesig_descriptor", Method.signer_singlesig_descriptor)
    ∷ ("signer_register_multisig", Method.signer_register_multisig)
    ∷ ("asset_contract", Method.asset_contract)
    ∷ ("asset_insert", Method.asset_insert)
    ∷ ("asset_remove", Method.asset_remove)
    ∷ ("asset_list", Method.asset_list)
    ∷ ("asset_details", Method.asset_details)
    ∷ ("asset_from_explorer", Method.asset_from_explorer)
    ∷ ("asset_publish", Method.asset_publish)
    ∷ []

abbrev found : String → Option (String × Method) → Result Error Method
found s none = err (method_not_exist s)
found s (some (_, m)) = ok m

unfoldable pub from_str : String → Result Error Method
from_str s = found s (find (λ arm. arm.0 == s) arms)

-- Each arm's text is its method's name, by a test of the table.
all_named : List (String × Method) → Bool
all_named [] = true
all_named ((n, m) ∷ rest) = method_name m == n && all_named rest

all_named-All :
    (table : List (String × Method))
    → all_named table ≡ true
    → All (λ (arm : String × Method). method_name arm.1 ≡ arm.0) table
unfolding all_named
all_named-All [] h = tt
all_named-All ((n, m) ∷ rest) h = elim (Bool-cases (method_name m == n)) [
  | inl e ↦
      let h' : all_named rest ≡ true = rw e at h in
      (==_sound (method_name m) n e, all_named-All rest h')
  | inr e ↦ let no_way : false ≡ true = rw e at h in cc
]

arms_named : all_named arms ≡ true
unfolding all_named method_name
arms_named = refl

from_str-method_name : (m : Method) → from_str (method_name m) ≡ ok m
unfolding from_str method_name
from_str-method_name Method.schema = refl
from_str-method_name Method.version = refl
from_str-method_name Method.scan = refl
from_str-method_name Method.stop = refl
from_str-method_name Method.wallet_load = refl
from_str-method_name Method.wallet_unload = refl
from_str-method_name Method.wallet_list = refl
from_str-method_name Method.wallet_details = refl
from_str-method_name Method.wallet_address = refl
from_str-method_name Method.wallet_balance = refl
from_str-method_name Method.wallet_utxos = refl
from_str-method_name Method.wallet_txs = refl
from_str-method_name Method.wallet_tx = refl
from_str-method_name Method.wallet_send_many = refl
from_str-method_name Method.wallet_issue = refl
from_str-method_name Method.wallet_reissue = refl
from_str-method_name Method.wallet_burn = refl
from_str-method_name Method.wallet_combine = refl
from_str-method_name Method.wallet_broadcast = refl
from_str-method_name Method.wallet_pset_details = refl
from_str-method_name Method.wallet_multisig_descriptor = refl
from_str-method_name Method.wallet_set_tx_memo = refl
from_str-method_name Method.wallet_set_addr_memo = refl
from_str-method_name Method.signer_generate = refl
from_str-method_name Method.signer_jade_id = refl
from_str-method_name Method.signer_load_software = refl
from_str-method_name Method.signer_load_jade = refl
from_str-method_name Method.signer_load_external = refl
from_str-method_name Method.signer_unload = refl
from_str-method_name Method.signer_list = refl
from_str-method_name Method.signer_details = refl
from_str-method_name Method.signer_xpub = refl
from_str-method_name Method.signer_sign = refl
from_str-method_name Method.signer_singlesig_descriptor = refl
from_str-method_name Method.signer_register_multisig = refl
from_str-method_name Method.asset_contract = refl
from_str-method_name Method.asset_insert = refl
from_str-method_name Method.asset_remove = refl
from_str-method_name Method.asset_list = refl
from_str-method_name Method.asset_details = refl
from_str-method_name Method.asset_from_explorer = refl
from_str-method_name Method.asset_publish = refl

found-eq-ok :
    (s : String) (m : Method) (o : Option (String × Method))
    → found s o ≡ ok m
    → (n : String) × (o ≡ some (n, m))
found-eq-ok s m none h = cc
found-eq-ok s m (some (n, k)) h = (n, cc)

named : (s : String) (m : Method) → from_str s ≡ ok m → s ≡ method_name m
unfolding from_str
named s m h =
    let (n, hn) = found-eq-ok s m (find (λ arm. arm.0 == s) arms) h in
    let same = ==_sound n s (find_sound (λ (arm : String × Method). arm.0 == s) arms (n, m) hn) in
    let text =
      All-find (λ (arm : String × Method). method_name arm.1 ≡ arm.0) (λ arm. arm.0 == s) arms
        (n, m) (all_named-All arms arms_named) hn in
    sym (text ∙ same)

-- A text is parsed as a method exactly when it is the method's name.
pub from_str_iff : (s : String) (m : Method) → (from_str s ≡ ok m) ↔ (s ≡ method_name m)
from_str_iff s m = (named s m, λ h. ap from_str h ∙ from_str-method_name m)
