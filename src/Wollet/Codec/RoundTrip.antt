-- ===== src/Wollet/Codec/RoundTrip.antt =====
-- What lwk_wollet/src/update.rs encodes is what it reads back.
use Prim.Native.String.{String}
use satsails_lwk.Common.{
  ℕ, ◌-◌, ◌^◌, ◌<◌, false, List, [], ◌∷◌, ◌++◌, append_assoc, Option, none, some, Result, ok, ◌>>=◌,
  reject_if, length, ◌==◌, nat_eq, list_eq, ◌≡◌, refl, sym, ap, ◌∙◌, subst, arith, PartialEq,
  ==-cases, inl, inr, not,
}
use satsails_lwk.Common.HashMap.{Distinct, lookup, get, new}
use satsails_lwk.Common.Extend.{extend, last_of, or_else-none, get-extend}
use satsails_lwk.Wollet.{
  Elements, Chain, external, internal, ChildNumber, normal, hardened, TxOutSecrets,
}
use satsails_lwk.Wollet.Update.{Update}
use satsails_lwk.Wollet.Codec.{
  Bytes, ReadsBack, Encodings, height_to_u32, height_from_u32, chain_to_u8, chain_from_u8,
  update_magic_bytes, tx_codec, secrets_codec, download_codec, height_codec, path_codec,
  magic_codec, version_codec, fields_codec, to_fields, from_fields, serialize, deserialize_partial,
}
use satsails_lwk.Wollet.Codec.Reading.{
  Listed, ReadsBack-narrow, pair_codec-ReadsBack, as_codec-ReadsBack, list_codec-ReadsBack,
}

-- Bip32 splits the indices at 2 ^ 31.
abbrev pub IsChild : ChildNumber → Type 0
IsChild (normal i) = i < 2 ^ 31
IsChild (hardened i) = i < 2 ^ 31

-- u32::MAX stands for an unconfirmed transaction.
abbrev pub IsHeight : Option ℕ → Type 0
IsHeight none = Unit
IsHeight (some h) = h < 2 ^ 32 - 1

pub record Faithful {el : Elements} (en : Encodings el) : Type 0 where
  pub u8_reads : ReadsBack en.u8 (λ n. n < 2 ^ 8)
  pub u32_reads : ReadsBack en.u32 (λ n. n < 2 ^ 32)
  pub u64_reads : ReadsBack en.u64 (λ n. n < 2 ^ 64)
  pub var_int_reads : ReadsBack en.var_int (λ n. n < 2 ^ 64)
  pub array_reads : ReadsBack en.array (λ bs. length bs ≡ 4)
  pub transaction_reads : ReadsBack en.transaction (λ _. Unit)
  pub out_point_reads : ReadsBack en.out_point (λ o. o.vout < 2 ^ 32)
  pub asset_reads : ReadsBack en.asset (λ _. Unit)
  pub asset_bf_reads : ReadsBack en.asset_bf (λ _. Unit)
  pub value_bf_reads : ReadsBack en.value_bf (λ _. Unit)
  pub txid_reads : ReadsBack en.txid (λ _. Unit)
  pub script_reads : ReadsBack en.script (λ _. Unit)
  pub header_reads : ReadsBack en.header (λ _. Unit)
  pub child_below : (c : ChildNumber) → IsChild c → en.child_to_u32 c < 2 ^ 32
  pub child_back : (c : ChildNumber) → IsChild c → en.child_from_u32 (en.child_to_u32 c) ≡ c

height_back :
    (o : Option ℕ)
    → IsHeight o
    → (height_to_u32 o < 2 ^ 32) × (height_from_u32 (height_to_u32 o) ≡ o)
height_back none valid = (omega arith, refl)
height_back (some h) valid =
    let other : (h == 2 ^ 32 - 1) ≡ false = ground arith in (omega arith, rw other refl)

chain_back : (c : Chain) → (chain_to_u8 c < 2 ^ 8) × (chain_from_u8 (chain_to_u8 c) ≡ ok c)
chain_back external = (omega arith, refl)
chain_back internal = (omega arith, refl)

last_of-Distinct {ℓ κ} :
    {K : Type ℓ} {V : Type κ} ⦃eq : PartialEq K⦄ (es : List (K × V)) (k : K)
    → Distinct es
    → last_of k es ≡ lookup k es
unfolding last_of lookup Distinct
last_of-Distinct [] k d = refl
last_of-Distinct ((j, v) ∷ es) k d = elim (==-cases j k) [
  | inl (same, e) ↦
      let absent : last_of k es ≡ none =
        last_of-Distinct es k d.1 ∙ subst (λ x. lookup x es ≡ none) same d.0 in
      rw (e, absent) refl
  | inr (ne, e) ↦ rw e (or_else-none (last_of k es) ∙ last_of-Distinct es k d.1)
]

get-extend-new {ℓ κ} :
    {K : Type ℓ} {V : Type κ} ⦃eq : PartialEq K⦄ (es : List (K × V)) (k : K)
    → Distinct es
    → get (extend new es) k ≡ lookup k es
unfolding lookup
get-extend-new es k d = get-extend new es k ∙ or_else-none (last_of k es) ∙ last_of-Distinct es k d

module _ {el : Elements} (en : Encodings el) where
  abbrev after_version : Unit {0} × Bytes → Result String (Update el × Bytes)
  after_version v = (fields_codec en).decode v.1 >>= (λ f. ok (from_fields en f.0, f.1))

  abbrev after_magic : Unit {0} × Bytes → Result String (Update el × Bytes)
  after_magic m = (version_codec en).decode m.1 >>= after_version

  -- The ids are those of the transactions, and numbers fit their types.
  pub record IsEncodable (u : Update el) : Type 0 where
    pub txs_listed : Listed (λ e. e.0 ≡ el.txid e.1) u.new_txs.txs
    pub unblinds_listed :
        Listed (λ e. (e.0.vout < 2 ^ 32) × (e.1.value < 2 ^ 64)) u.new_txs.unblinds
    pub heights_listed : Listed (λ e. IsHeight e.1) u.txid_height_new
    pub deletes_listed : Listed (λ (_ : el.Txid). Unit {0}) u.txid_height_delete
    pub timestamps_listed : Listed (λ e. (e.0 < 2 ^ 32) × (e.1 < 2 ^ 32)) u.timestamps
    pub scripts_listed : Listed (λ e. IsChild e.1.1) u.scripts.entries
    pub scripts_distinct : Distinct ⦃eq = el.script_eq⦄ u.scripts.entries

  module _ (f : Faithful en) where
    tx_codec-ReadsBack : ReadsBack (tx_codec en) (λ e. e.0 ≡ el.txid e.1)
    tx_codec-ReadsBack =
        as_codec-ReadsBack (λ tx. ok (el.txid tx, tx)) f.transaction_reads
          (λ e h. (tt, ap (λ t. ok (t, e.1)) (sym h)))

    secrets_codec-ReadsBack :
        ReadsBack (secrets_codec en) (λ (s : TxOutSecrets el). s.value < 2 ^ 64)
    secrets_codec-ReadsBack =
        as_codec-ReadsBack
          (λ t. ok (record { asset = t.0; asset_bf = t.1.0; value = t.1.1.0; value_bf = t.1.1.1 }))
          (pair_codec-ReadsBack f.asset_reads (
            pair_codec-ReadsBack f.asset_bf_reads
              (pair_codec-ReadsBack f.u64_reads f.value_bf_reads)))
          (λ s h. ((tt, (tt, (h, tt))), refl))

    height_codec-ReadsBack : ReadsBack (height_codec en) (λ e. IsHeight e.1)
    height_codec-ReadsBack =
        ReadsBack-narrow
          (pair_codec-ReadsBack f.txid_reads (
            as_codec-ReadsBack {W = IsHeight} (λ n. ok (height_from_u32 n)) f.u32_reads
              (λ o h. let (below, back) = height_back o h in (below, ap ok back))))
          (λ e h. (tt, h))

    path_codec-ReadsBack : ReadsBack (path_codec en) (λ e. IsChild e.1.1)
    path_codec-ReadsBack =
        ReadsBack-narrow
          (pair_codec-ReadsBack f.script_reads (
            pair_codec-ReadsBack
              (as_codec-ReadsBack {W = λ _. Unit} chain_from_u8 f.u8_reads (λ c _. chain_back c))
              (as_codec-ReadsBack {W = IsChild} (λ n. ok (en.child_from_u32 n)) f.u32_reads
                (λ c h. (f.child_below c h, ap ok (f.child_back c h))))))
          (λ e h. (tt, (tt, h)))

    magic_codec-ReadsBack : ReadsBack (magic_codec en) (λ _. Unit)
    magic_codec-ReadsBack =
        as_codec-ReadsBack (λ bs. reject_if (not (bs == update_magic_bytes)) "Invalid magic bytes")
          f.array_reads (λ _ _. (refl, refl))

    version_codec-ReadsBack : ReadsBack (version_codec en) (λ _. Unit)
    version_codec-ReadsBack =
        as_codec-ReadsBack (λ v. reject_if (not (v == 0)) "Unsupported version") f.u8_reads
          (λ _ _. (omega arith, refl))

    download_codec-ReadsBack : ReadsBack (download_codec en) (λ d.
        Listed (λ e. e.0 ≡ el.txid e.1) d.txs
        × Listed (λ e. (e.0.vout < 2 ^ 32) × (e.1.value < 2 ^ 64)) d.unblinds)
    download_codec-ReadsBack =
        as_codec-ReadsBack (λ t. ok (record { txs = t.0; unblinds = t.1 }))
          (pair_codec-ReadsBack (list_codec-ReadsBack f.var_int_reads tx_codec-ReadsBack) (
            list_codec-ReadsBack f.var_int_reads
              (pair_codec-ReadsBack f.out_point_reads secrets_codec-ReadsBack)))
          (λ d h. (h, refl))

    fields_codec-reads :
        (u : Update el) (rest : Bytes)
        → IsEncodable u
        → (fields_codec en).decode ((fields_codec en).encode (to_fields en u) ++ rest)
          ≡ ok (to_fields en u, rest)
    fields_codec-reads u rest h =
        (pair_codec-ReadsBack download_codec-ReadsBack (
            pair_codec-ReadsBack (list_codec-ReadsBack f.var_int_reads height_codec-ReadsBack) (
              pair_codec-ReadsBack (list_codec-ReadsBack f.var_int_reads f.txid_reads) (
                pair_codec-ReadsBack
                  (list_codec-ReadsBack f.var_int_reads
                    (pair_codec-ReadsBack f.u32_reads f.u32_reads))
                  (pair_codec-ReadsBack (list_codec-ReadsBack f.var_int_reads path_codec-ReadsBack)
                    f.header_reads))))).reads
          (to_fields en u) rest
          (
            (h.txs_listed, h.unblinds_listed),
            (h.heights_listed, (h.deletes_listed, (h.timestamps_listed, (h.scripts_listed, tt)))),
          )

    -- An encoded update is read back, whatever follows it, with the scripts in a map of the same entries.
    pub deserialize_partial-serialize :
        (u : Update el) (rest : Bytes)
        → IsEncodable u
        → (deserialize_partial en (serialize en u ++ rest)
            ≡ ok (record u { scripts = extend ⦃eq = el.script_eq⦄ new u.scripts.entries }, rest))
          × ((s : el.Script)
              → get ⦃eq = el.script_eq⦄ (extend ⦃eq = el.script_eq⦄ new u.scripts.entries) s
                ≡ get ⦃eq = el.script_eq⦄ u.scripts s)
    unfolding serialize deserialize_partial
    deserialize_partial-serialize u rest h =
        let magic : Bytes = (magic_codec en).encode tt in
        let version : Bytes = (version_codec en).encode tt in
        let body : Bytes = (fields_codec en).encode (to_fields en u) in
        let split : (magic ++ (version ++ body)) ++ rest ≡ magic ++ (version ++ (body ++ rest)) =
          append_assoc magic (version ++ body) rest
          ∙ ap (λ bs. magic ++ bs) (append_assoc version body rest) in
        (
          ap (λ bs. (magic_codec en).decode bs >>= after_magic) split
              ∙ ap (λ r. r >>= after_magic)
                  (magic_codec-ReadsBack.reads tt (version ++ (body ++ rest)) tt)
              ∙ ap (λ r. r >>= after_version) (version_codec-ReadsBack.reads tt (body ++ rest) tt)
              ∙ ap (λ r. r >>= (λ f. ok (from_fields en f.0, f.1))) (fields_codec-reads u rest h),
          λ s. get-extend-new ⦃eq = el.script_eq⦄ u.scripts.entries s h.scripts_distinct,
        )
