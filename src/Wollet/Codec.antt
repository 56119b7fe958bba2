-- ===== src/Wollet/Codec.antt =====
-- lwk_wollet/src/update.rs: the consensus encoding of an update. How elements encodes its own types and
-- integers is the parameter `Encodings`.
pub mod Reading
pub mod RoundTrip
use Prim.Native.String.{String}
use satsails_lwk.Common.{
  ℕ, zero, suc, ◌+◌, ◌-◌, ◌^◌, ◌<◌, Bool, true, false, List, [], ◌∷◌, ◌++◌, Option, none, some,
  Result, ok, err, ◌>>=◌, ◌>>◌, reject_if, length, map, not, if◌then◌else◌, ◌==◌, nat_eq, list_eq,
  ◌≡◌,
}
use satsails_lwk.Common.HashMap.{HashMap, new}
use satsails_lwk.Common.Extend.{extend}
use satsails_lwk.Wollet.{
  Elements, Chain, external, internal, ChildNumber, normal, hardened, OutPoint, TxOutSecrets,
}
use satsails_lwk.Wollet.Update.{Update, DownloadTxResult}

abbrev pub Bytes : Type 0
Bytes = List ℕ

-- `consensus_encode`, and `consensus_decode` with the bytes that it leaves.
pub record Codec {ℓ} (A : Type ℓ) : Type ℓ where
  pub encode : A → Bytes
  pub decode : Bytes → Result String (A × Bytes)

-- What is encoded is read back, and nothing after it.
pub record ReadsBack {ℓ} {A : Type ℓ} (c : Codec A) (Valid : A → Type 0) : Type ℓ where
  pub reads : (a : A) (rest : Bytes) → Valid a → c.decode (c.encode a ++ rest) ≡ ok (a, rest)

pub record Encodings (el : Elements) : Type 1 where
  pub u8 : Codec ℕ
  pub u32 : Codec ℕ
  pub u64 : Codec ℕ
  pub var_int : Codec ℕ
  -- an array of four bytes
  pub array : Codec Bytes
  pub transaction : Codec el.Transaction
  pub out_point : Codec (OutPoint el)
  pub asset : Codec el.AssetId
  pub asset_bf : Codec el.AssetFactor
  pub value_bf : Codec el.ValueFactor
  pub txid : Codec el.Txid
  pub script : Codec el.Script
  pub header : Codec el.BlockHeader
  -- bip32
  pub child_to_u32 : ChildNumber → ℕ
  pub child_from_u32 : ℕ → ChildNumber

module _ {ℓ κ} {A : Type ℓ} {B : Type κ} where
  unfoldable pub pair_codec : Codec A → Codec B → Codec (A × B)
  pair_codec a b = record {
    encode = λ p. a.encode p.0 ++ b.encode p.1;
    decode = λ bs. a.decode bs >>= (λ r. b.decode r.1 >>= (λ q. ok ((r.0, q.0), q.1)));
  }

  -- Another form of the same values, which may be refused.
  unfoldable pub as_codec : Codec A → (B → A) → (A → Result String B) → Codec B
  as_codec c to from = record {
    encode = λ b. c.encode (to b);
    decode = λ bs. c.decode bs >>= (λ r. from r.0 >>= (λ b. ok (b, r.1)));
  }

module _ {ℓ} {A : Type ℓ} where
  unfoldable pub encode_items : Codec A → List A → Bytes
  encode_items c [] = []
  encode_items c (x ∷ xs) = c.encode x ++ encode_items c xs

  unfoldable pub decode_items : Codec A → ℕ → Bytes → Result String (List A × Bytes)
  decode_items c zero bs = ok ([], bs)
  decode_items c (suc n) bs =
      c.decode bs >>= (λ r. decode_items c n r.1 >>= (λ q. ok (r.0 ∷ q.0, q.1)))

  -- The number of the items, and the items.
  unfoldable pub list_codec : Codec ℕ → Codec A → Codec (List A)
  list_codec var_int c = record {
    encode = λ xs. var_int.encode (length xs) ++ encode_items c xs;
    decode = λ bs. var_int.decode bs >>= (λ r. decode_items c r.0 r.1);
  }

-- `height.unwrap_or(u32::MAX)`, and back
abbrev pub height_to_u32 : Option ℕ → ℕ
height_to_u32 none = 2 ^ 32 - 1
height_to_u32 (some h) = h

abbrev pub height_from_u32 : ℕ → Option ℕ
height_from_u32 n = if n == 2 ^ 32 - 1 then none else some n

abbrev pub chain_to_u8 : Chain → ℕ
chain_to_u8 external = 0
chain_to_u8 internal = 1

abbrev pub chain_from_u8 : ℕ → Result String Chain
chain_from_u8 n =
    if n == 0 then ok external else if n == 1 then ok internal else err "Invalid chain"

abbrev pub update_magic_bytes : Bytes
update_magic_bytes = 0x89 ∷ 0x61 ∷ 0xb8 ∷ 0xc8 ∷ []

module _ {el : Elements} (en : Encodings el) where
  open en use {
    u8, u32, u64, var_int, array, transaction, out_point, asset, asset_bf, value_bf, script, header,
    child_to_u32, child_from_u32,
  }
  open el use {Txid, Transaction, Script, AssetId, AssetFactor, ValueFactor, BlockHeader}

  -- The id is computed again from the transaction.
  abbrev pub tx_codec : Codec (Txid × Transaction)
  tx_codec = as_codec transaction (λ e. e.1) (λ tx. ok (el.txid tx, tx))

  abbrev pub secrets_codec : Codec (TxOutSecrets el)
  secrets_codec =
      as_codec (pair_codec asset (pair_codec asset_bf (pair_codec u64 value_bf)))
        (λ s. (s.asset, (s.asset_bf, (s.value, s.value_bf))))
        (λ t. ok (record { asset = t.0; asset_bf = t.1.0; value = t.1.1.0; value_bf = t.1.1.1 }))

  abbrev pub download_codec : Codec (DownloadTxResult el)
  download_codec =
      as_codec
        (pair_codec (list_codec var_int tx_codec)
          (list_codec var_int (pair_codec out_point secrets_codec)))
        (λ d. (d.txs, d.unblinds)) (λ t. ok (record { txs = t.0; unblinds = t.1 }))

  abbrev pub height_codec : Codec (Txid × Option ℕ)
  height_codec = pair_codec en.txid (as_codec u32 height_to_u32 (λ n. ok (height_from_u32 n)))

  abbrev pub path_codec : Codec (Script × (Chain × ChildNumber))
  path_codec = pair_codec script (
      pair_codec (as_codec u8 chain_to_u8 chain_from_u8)
        (as_codec u32 child_to_u32 (λ n. ok (child_from_u32 n))))

  abbrev pub magic_codec : Codec (Unit {0})
  magic_codec =
      as_codec array (λ _. update_magic_bytes)
        (λ bs. reject_if (not (bs == update_magic_bytes)) "Invalid magic bytes")

  abbrev pub version_codec : Codec (Unit {0})
  version_codec = as_codec u8 (λ _. 0) (λ v. reject_if (not (v == 0)) "Unsupported version")

  abbrev pub Fields : Type 0
  Fields =
      DownloadTxResult el
      × (List (Txid × Option ℕ)
          × (List Txid × (List (ℕ × ℕ) × (List (Script × (Chain × ChildNumber)) × BlockHeader))))

  -- `consensus_encode` writes these fields in this order, and `consensus_decode` reads them.
  abbrev pub fields_codec : Codec Fields
  fields_codec = pair_codec download_codec (
      pair_codec (list_codec var_int height_codec) (
        pair_codec (list_codec var_int en.txid) (
          pair_codec (list_codec var_int (pair_codec u32 u32))
            (pair_codec (list_codec var_int path_codec) header))))

  abbrev pub to_fields : Update el → Fields
  to_fields u = (
    u.new_txs,
    (u.txid_height_new, (u.txid_height_delete, (u.timestamps, (u.scripts.entries, u.tip)))),
  )

  -- The scripts are inserted into a new map as they come.
  abbrev pub from_fields : Fields → Update el
  from_fields f = record {
    new_txs = f.0;
    txid_height_new = f.1.0;
    txid_height_delete = f.1.1.0;
    timestamps = f.1.1.1.0;
    scripts = extend ⦃eq = el.script_eq⦄ new f.1.1.1.1.0;
    tip = f.1.1.1.1.1;
  }

  unfoldable pub serialize : Update el → Bytes
  serialize u =
      magic_codec.encode tt ++ (version_codec.encode tt ++ fields_codec.encode (to_fields u))

  unfoldable pub deserialize_partial : Bytes → Result String (Update el × Bytes)
  deserialize_partial bs = magic_codec.decode bs >>= (λ m.
      version_codec.decode m.1
      >>= (λ v. fields_codec.decode v.1 >>= (λ f. ok (from_fields f.0, f.1))))
