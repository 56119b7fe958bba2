-- ===== src/Tests/Encoding.antt =====
-- The encoding of update.rs of lwk_wollet, where all of elements' types are numbers.
use Prim.Native.String.{String}
use satsails_lwk.Common.{
  if◌then◌else◌, ℕ, ◌+◌, ◌-◌, ◌^◌, ◌<◌, true, false, [], ◌∷◌, ◌++◌, none, some, Result, ok, err,
  ◌≡◌, refl, nat_eq, arith, length, ltb,
}
use satsails_lwk.Common.HashMap.{get, new, Distinct, lookup}
use satsails_lwk.Common.Extend.{extend}
use satsails_lwk.Wollet.{Elements, external, internal, ChildNumber, normal, hardened, OutPoint}
use satsails_lwk.Wollet.Update.{Update}
use satsails_lwk.Wollet.Codec.{
  Bytes, Codec, ReadsBack, Encodings, serialize, deserialize_partial, as_codec,
}
use satsails_lwk.Wollet.Codec.RoundTrip.{
  IsChild, Faithful, IsEncodable, deserialize_partial-serialize,
}

abbrev pub numbers : Elements
numbers = record {
  Txid = ℕ;
  Transaction = ℕ;
  TxOut = ℕ;
  TxIn = ℕ;
  Script = ℕ;
  AssetId = ℕ;
  AssetFactor = ℕ;
  ValueFactor = ℕ;
  BlockHash = ℕ;
  BlockHeader = ℕ;
  txid_eq = nat_eq;
  script_eq = nat_eq;
  asset_eq = nat_eq;
  txid = λ tx. tx;
  inputs = λ tx. [];
  outputs = λ tx. [];
  script_pubkey = λ o. o;
  height = λ h. h;
  block_hash = λ h. h;
  previous_txid = λ i. i;
  previous_vout = λ i. i;
  issuance_is_null = λ i. true;
  nonce_is_zero = λ i. true;
  script_is_empty = λ s. false;
  explicit_value = λ o. none;
  burn_script = 0;
  txid_to_string = λ t. "txid";
  zero_hash = 0;
}

abbrev read_number : Bytes → Result String (ℕ × Bytes)
read_number [] = err "end of file"
read_number (n ∷ rest) = ok (n, rest)

abbrev number : Codec ℕ
number = record { encode = λ n. n ∷ []; decode = read_number }

abbrev read_four : Bytes → Result String (Bytes × Bytes)
read_four (a ∷ b ∷ c ∷ d ∷ rest) = ok (a ∷ b ∷ c ∷ d ∷ [], rest)
read_four bs = err "end of file"

abbrev read_point : Bytes → Result String (OutPoint numbers × Bytes)
read_point (t ∷ v ∷ rest) = ok (record { txid = t; vout = v }, rest)
read_point bs = err "end of file"

abbrev to_u32 : ChildNumber → ℕ
to_u32 (normal i) = i
to_u32 (hardened i) = i + 2 ^ 31

abbrev from_u32 : ℕ → ChildNumber
from_u32 n = if ltb n (2 ^ 31) then normal n else hardened (n - 2 ^ 31)

abbrev pub plain : Encodings numbers
plain = record {
  u8 = number;
  u32 = number;
  u64 = number;
  var_int = number;
  array = record { encode = λ bs. bs; decode = read_four };
  transaction = number;
  out_point = record { encode = λ o. o.txid ∷ o.vout ∷ []; decode = read_point };
  asset = number;
  asset_bf = number;
  value_bf = number;
  txid = number;
  script = number;
  header = number;
  child_to_u32 = to_u32;
  child_from_u32 = from_u32;
}

number-ReadsBack : {V : ℕ → Type 0} → ReadsBack number V
number-ReadsBack = record { reads = λ n rest valid. refl }

read_four-append : (bs rest : Bytes) → length bs ≡ 4 → read_four (bs ++ rest) ≡ ok (bs, rest)
read_four-append [] rest h = absurd (omega arith)
read_four-append (a ∷ []) rest h = absurd (omega arith)
read_four-append (a ∷ b ∷ []) rest h = absurd (omega arith)
read_four-append (a ∷ b ∷ c ∷ []) rest h = absurd (omega arith)
read_four-append (a ∷ b ∷ c ∷ d ∷ []) rest h = refl
read_four-append (a ∷ b ∷ c ∷ d ∷ e ∷ more) rest h = absurd (omega arith)

to_u32_below : (c : ChildNumber) → IsChild c → to_u32 c < 2 ^ 32
to_u32_below (normal i) h = omega arith
to_u32_below (hardened i) h = omega arith

from_u32-to_u32 : (c : ChildNumber) → IsChild c → from_u32 (to_u32 c) ≡ c
from_u32-to_u32 (normal i) h = ground arith
from_u32-to_u32 (hardened i) h = ground arith

pub plain-Faithful : Faithful plain
plain-Faithful = record {
  u8_reads = number-ReadsBack;
  u32_reads = number-ReadsBack;
  u64_reads = number-ReadsBack;
  var_int_reads = number-ReadsBack;
  array_reads = record { reads = λ bs rest valid. read_four-append bs rest valid };
  transaction_reads = number-ReadsBack;
  out_point_reads = record { reads = λ o rest valid. refl };
  asset_reads = number-ReadsBack;
  asset_bf_reads = number-ReadsBack;
  value_bf_reads = number-ReadsBack;
  txid_reads = number-ReadsBack;
  script_reads = number-ReadsBack;
  header_reads = number-ReadsBack;
  child_below = to_u32_below;
  child_back = from_u32-to_u32;
}

abbrev pub sample : Update numbers
sample = record {
  new_txs = record {
    txs = (7, 7) ∷ [];
    unblinds =
        (
          record { txid = 7; vout = 0 },
          record { asset = 1; asset_bf = 0; value = 500; value_bf = 0 },
        )
        ∷ [];
  };
  txid_height_new = (7, some 100) ∷ (8, none) ∷ [];
  txid_height_delete = 9 ∷ [];
  timestamps = (100, 1700) ∷ [];
  scripts = record { entries = (3, (external, normal 3)) ∷ (4, (internal, hardened 1)) ∷ [] };
  tip = 100;
}

pub sample-IsEncodable : IsEncodable plain sample
unfolding Distinct lookup
sample-IsEncodable = record {
  txs_listed = ((refl, tt), omega arith);
  unblinds_listed = (((omega arith, omega arith), tt), omega arith);
  heights_listed = ((omega arith, (tt, tt)), omega arith);
  deletes_listed = ((tt, tt), omega arith);
  timestamps_listed = (((omega arith, omega arith), tt), omega arith);
  scripts_listed = ((omega arith, (omega arith, tt)), omega arith);
  scripts_distinct = (refl, (refl, tt));
}

deserialize_partial-serialize_example :
    (deserialize_partial plain (serialize plain sample ++ (1 ∷ 2 ∷ []))
      ≡ ok (record sample { scripts = extend new sample.scripts.entries }, 1 ∷ 2 ∷ []))
    × ((s : ℕ) → get (extend new sample.scripts.entries) s ≡ get sample.scripts s)
deserialize_partial-serialize_example =
    deserialize_partial-serialize plain plain-Faithful sample (1 ∷ 2 ∷ []) sample-IsEncodable

bad_version :
    deserialize_partial plain (0x89 ∷ 0x61 ∷ 0xb8 ∷ 0xc8 ∷ 1 ∷ []) ≡ err "Unsupported version"
unfolding deserialize_partial as_codec
bad_version = refl
