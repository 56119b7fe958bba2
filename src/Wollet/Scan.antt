-- ===== src/Wollet/Scan.antt =====
-- lwk_wollet/src/clients/mod.rs, and `get_script_batch` of store.rs: how a client scans the scripts of a
-- wallet and makes an update of what the server tells. The server answers a question always alike.
pub mod Download
pub mod Ends
pub mod Gathers
pub mod Gap
pub mod Raised
pub mod Unused
pub mod Listed
pub mod Found
pub mod Maps
pub mod Sync
pub mod Missing
pub mod Confirmed
pub mod Complete
use satsails_lwk.Common.{
  ℕ, zero, suc, ◌+◌, ◌-◌, ◌*◌, ◌%◌, ◌^◌, Bool, true, false, List, [], ◌∷◌, Option, none, some,
  Result, ok, err, ◌>>=◌, ◌≡◌, refl, map, concat, keep, not, ◌&&◌, ◌||◌, is_empty, if◌then◌else◌,
  PartialEq, ◌==◌, nat_eq, pair_eq,
}
use satsails_lwk.Common.HashMap.{HashMap, get, contains_key, insert, keys, values, new}
use satsails_lwk.Common.Extend.{contains, extend}
use satsails_lwk.Wollet.{
  Elements, Chain, external, internal, ChildNumber, normal, OutPoint, TxOutSecrets, chain_eq,
  child_eq, Error, generic, foreign,
}
use satsails_lwk.Wollet.Update.{later, DownloadTxResult, Update, RawCache}
use satsails_lwk.Wollet.Utxos.{enumerate}

-- An i32; `negsuc n` is -(n + 1).
pub data ℤ : Type 0 where
  pos : ℕ → ℤ
  negsuc : ℕ → ℤ

-- `height.max(0)`
abbrev pub max_zero : ℤ → ℕ
max_zero (pos n) = n
max_zero (negsuc n) = 0

-- What the server, elements and miniscript answer. The descriptor of the wallet is fixed.
pub record Backend (el : Elements) : Type 1 where
  pub Single : Type 0
  pub SecretKey : Type 0
  pub into_single_descriptors : Result Error (List Single)
  -- the last step of the derivation path of the first key, where it has one
  pub last_step : Single → Option ChildNumber
  pub from_normal_idx : ℕ → Result Error ChildNumber
  pub script_at : Single → ℕ → Result Error el.Script
  pub get_scripts_history :
      List el.Script → Result Error (List (List (el.Txid × ℤ × Option el.BlockHash)))
  pub get_transactions : List el.Txid → Result Error (List el.Transaction)
  pub get_headers : List ℕ → HashMap ℕ el.BlockHash → Result Error (List el.BlockHeader)
  pub tip : Result Error el.BlockHeader
  pub time : el.BlockHeader → ℕ
  pub block_hash_eq : PartialEq el.BlockHash
  -- the asset, the value and the nonce of an output are confidential
  pub is_confidential : el.TxOut → Bool
  pub derive_blinding_key : el.Script → Option SecretKey
  pub unblind : el.TxOut → SecretKey → Result Error (TxOutSecrets el)

abbrev pub batch_size : ℕ
batch_size = 20

abbrev chain_of_step : Option ChildNumber → Option Chain
chain_of_step (some (normal zero)) = some external
chain_of_step (some (normal (suc zero))) = some internal
chain_of_step _ = none

abbrev unwrap_or_external : Option Chain → Chain
unwrap_or_external (some chain) = chain
unwrap_or_external none = external

abbrev pub same_height : Option ℕ → Option ℕ → Bool
same_height (some a) (some b) = a == b
same_height none none = true
same_height _ _ = false

abbrev pub differs : Option (Option ℕ) → Option ℕ → Bool
differs (some h) height = not (same_height h height)
differs none height = true

-- A step that may run out of fuel, and what follows where it answers.
abbrev pub and_then_ok :
    {A B : Type 0}
    → Option (Result Error A)
    → (A → Option (Result Error B))
    → Option (Result Error B)
and_then_ok none next = none
and_then_ok (some (err e)) next = some (err e)
and_then_ok (some (ok a)) next = next a

pub and_then_ok-eq-ok :
    {A B : Type 0} (o : Option (Result Error A)) (next : A → Option (Result Error B)) (b : B)
    → and_then_ok o next ≡ some (ok b)
    → (a : A) × (o ≡ some (ok a)) × (next a ≡ some (ok b))
and_then_ok-eq-ok none next b h = cc
and_then_ok-eq-ok (some (err e)) next b h = cc
and_then_ok-eq-ok (some (ok a)) next b h = (a, refl, h)

-- The elements of the first list that are not in the second: `difference` of two sets.
abbrev pub difference {ℓ} : {A : Type ℓ} ⦃eq : PartialEq A⦄ → List A → List A → List A
difference xs ys = keep (λ x. not (contains ys x)) xs

module _ {el : Elements} (server : Backend el) where
  open server use {Single, last_step, from_normal_idx, script_at, get_scripts_history}
  open el use {Txid, Script, BlockHash, txid_eq, script_eq, height}

  abbrev pub chain_of : Single → Chain
  chain_of d = unwrap_or_external (chain_of_step (last_step d))

  abbrev pub History : Type 0
  History = Txid × ℤ × Option BlockHash

  pub record ScriptBatch : Type 0 where
    pub cached : Bool
    pub value : List (Script × (Chain × ChildNumber))

  -- The script that the cache knows at a path, or the one derived there.
  unfoldable pub known_script :
      RawCache el → Single → ChildNumber → ℕ → Result Error (Bool × Script)
  known_script c d child j = elim (get c.scripts (chain_of d, child)) [
    | some script ↦ ok (true, script)
    | none ↦ script_at d j >>= (λ script. ok (false, script))
  ]

  unfoldable pub scripts_from : RawCache el → Single → ℕ → ℕ → Result Error ScriptBatch
  scripts_from c d zero j = ok (record { cached = true; value = [] })
  scripts_from c d (suc n) j = from_normal_idx j >>= (λ child.
      known_script c d child j >>= (λ known. scripts_from c d n (suc j) >>= (λ rest. ok (record {
        cached = known.0 && rest.cached;
        value = (known.1, (chain_of d, child)) ∷ rest.value;
      }))))

  -- `start..end` on u32
  unfoldable pub get_script_batch : RawCache el → ℕ → Single → Result Error ScriptBatch
  get_script_batch c batch d =
      let start : ℕ = (batch * batch_size) % 2 ^ 32 in
      scripts_from c d ((start + batch_size) % 2 ^ 32 - start) start

  -- What a scan has gathered.
  pub record Progress : Type 0 where
    pub txid_height : HashMap Txid (Option ℕ)
    pub scripts : HashMap Script (Chain × ChildNumber)
    pub last_unused_external : ℕ
    pub last_unused_internal : ℕ
    pub height_blockhash : HashMap ℕ BlockHash

  abbrev pub nothing_yet : Progress
  nothing_yet = record {
    txid_height = new;
    scripts = new;
    last_unused_external = 0;
    last_unused_internal = 0;
    height_blockhash = new;
  }

  abbrev pub with_scripts : ScriptBatch → Progress → Progress
  with_scripts b p =
      if b.cached then p else record p { scripts = extend ⦃eq = script_eq⦄ p.scripts b.value }

  -- The greatest index of a history that is not empty.
  unfoldable pub max_used : ℕ → List (List History) → Option ℕ
  max_used i [] = none
  max_used i (h ∷ hs) =
      let rest = max_used (suc i) hs in if is_empty h then rest else later (i % 2 ^ 32) rest

  abbrev pub with_max : Chain → ℕ → Option ℕ → Progress → Progress
  with_max chain batch none p = p
  with_max external batch (some max) p = record p {
    last_unused_external = (1 + max + batch * batch_size) % 2 ^ 32;
  }
  with_max internal batch (some max) p = record p {
    last_unused_internal = (1 + max + batch * batch_size) % 2 ^ 32;
  }

  abbrev with_block_hash : ℕ → Option BlockHash → Progress → Progress
  with_block_hash h none p = p
  with_block_hash h (some hash) p = record p { height_blockhash = insert p.height_blockhash h hash }

  -- A height of zero or below is that of a transaction that is not confirmed.
  abbrev pub recorded : ℕ → Txid → Option BlockHash → Progress → Progress
  recorded height t hash p =
      if height == 0
      then record p { txid_height = insert ⦃eq = txid_eq⦄ p.txid_height t none }
      else with_block_hash height hash
          (record p { txid_height = insert ⦃eq = txid_eq⦄ p.txid_height t (some height) })

  unfoldable pub record_history : List History → Progress → Progress
  record_history [] p = p
  record_history ((t, height, hash) ∷ rest) p =
      record_history rest (recorded (max_zero height) t hash p)

  -- One turn of the loop, and whether it is the last.
  unfoldable pub noted : Single → ℕ → ScriptBatch → List (List History) → Progress → Progress × Bool
  noted d batch b result p = (
    record_history (concat result)
        (with_max (chain_of d) batch (max_used 0 result) (with_scripts b p)),
    is_empty (concat result),
  )

  unfoldable pub scan_batch : RawCache el → Single → ℕ → Progress → Result Error (Progress × Bool)
  scan_batch c d batch p = get_script_batch c batch d >>= (λ b.
      get_scripts_history (map (λ e. e.0) b.value) >>= (λ result. ok (noted d batch b result p)))

  abbrev pub turn :
      Result Error (Progress × Bool)
      → (Progress → Option (Result Error Progress))
      → Option (Result Error Progress)
  turn (err e) next = some (err e)
  turn (ok (p, true)) next = some (ok p)
  turn (ok (p, false)) next = next p

  -- The loop over the batches of a descriptor, where `none` means that the fuel ran out.
  unfoldable pub scan_loop :
      ℕ → RawCache el → Single → ℕ → Progress → Option (Result Error Progress)
  scan_loop zero c d batch p = none
  scan_loop (suc fuel) c d batch p =
      turn (scan_batch c d batch p) (λ p. scan_loop fuel c d ((batch + 1) % 2 ^ 32) p)

  -- The loop over the descriptors, with the fuel for each.
  unfoldable pub scan_all :
      ℕ → RawCache el → List Single → Progress → Option (Result Error Progress)
  scan_all fuel c [] p = some (ok p)
  scan_all fuel c (d ∷ ds) p = and_then_ok (scan_loop fuel c d 0 p) (λ p. scan_all fuel c ds p)
