-- ===== src/Wollet/Codec/Reading.antt =====
-- Pairs, lists and other forms of the encodings of lwk_wollet/src/update.rs are read back as their parts are.
use Prim.Native.String.{String}
use satsails_lwk.Common.{
  ℕ, ◌^◌, ◌<◌, List, [], ◌∷◌, ◌++◌, append_assoc, Result, ok, ◌>>=◌, length, All, nat_eq, list_eq,
  ◌≡◌, refl, ap, ◌∙◌,
}
use satsails_lwk.Wollet.Codec.{
  Bytes, Codec, ReadsBack, pair_codec, as_codec, encode_items, decode_items, list_codec,
}

abbrev pub Listed {ℓ} : {A : Type ℓ} → (A → Type 0) → List A → Type 0
Listed V xs = All V xs × (length xs < 2 ^ 64)

module _ {ℓ κ} {A : Type ℓ} {B : Type κ} where
  pub pair_codec-ReadsBack :
      {a : Codec A} {b : Codec B} {V : A → Type 0} {W : B → Type 0}
      → ReadsBack a V
      → ReadsBack b W
      → ReadsBack (pair_codec a b) (λ p. V p.0 × W p.1)
  unfolding pair_codec
  pair_codec-ReadsBack {a = a} {b = b} ha hb = record {
    reads = λ p rest valid.
        let first : a.decode ((a.encode p.0 ++ b.encode p.1) ++ rest)
            ≡ ok (p.0, b.encode p.1 ++ rest) =
          ap a.decode (append_assoc (a.encode p.0) (b.encode p.1) rest)
          ∙ ha.reads p.0 (b.encode p.1 ++ rest) valid.0 in
        ap (λ r. r >>= (λ r. b.decode r.1 >>= (λ q. ok ((r.0, q.0), q.1)))) first
        ∙ ap (λ r. r >>= (λ q. ok ((p.0, q.0), q.1))) (hb.reads p.1 rest valid.1);
  }

  pub as_codec-ReadsBack :
      {c : Codec A} {to : B → A} {V : A → Type 0} {W : B → Type 0} (from : A → Result String B)
      → ReadsBack c V
      → ((b : B) → W b → V (to b) × (from (to b) ≡ ok b))
      → ReadsBack (as_codec c to from) W
  unfolding as_codec
  as_codec-ReadsBack {c = c} {to = to} from hc inverse = record {
    reads = λ b rest valid.
        let (fine, back) = inverse b valid in
        ap (λ r. r >>= (λ r. from r.0 >>= (λ b. ok (b, r.1)))) (hc.reads (to b) rest fine)
        ∙ ap (λ r. r >>= (λ b. ok (b, rest))) back;
  }

module _ {ℓ} {A : Type ℓ} where
  pub ReadsBack-narrow :
      {c : Codec A} {V W : A → Type 0} → ReadsBack c V → ((a : A) → W a → V a) → ReadsBack c W
  ReadsBack-narrow hc narrow = record { reads = λ a rest valid. hc.reads a rest (narrow a valid) }

  decode_items-encode_items :
      (c : Codec A) (V : A → Type 0) (xs : List A) (rest : Bytes)
      → ReadsBack c V
      → All V xs
      → decode_items c (length xs) (encode_items c xs ++ rest) ≡ ok (xs, rest)
  unfolding decode_items encode_items
  decode_items-encode_items c V [] rest hc all = refl
  decode_items-encode_items c V (x ∷ xs) rest hc all =
      let first : c.decode ((c.encode x ++ encode_items c xs) ++ rest)
          ≡ ok (x, encode_items c xs ++ rest) =
        ap c.decode (append_assoc (c.encode x) (encode_items c xs) rest)
        ∙ hc.reads x (encode_items c xs ++ rest) all.0 in
      ap (λ r. r >>= (λ r. decode_items c (length xs) r.1 >>= (λ q. ok (r.0 ∷ q.0, q.1)))) first
      ∙ ap (λ r. r >>= (λ q. ok (x ∷ q.0, q.1))) (decode_items-encode_items c V xs rest hc all.1)

  pub list_codec-ReadsBack :
      {n : Codec ℕ} {c : Codec A} {V : A → Type 0}
      → ReadsBack n (λ k. k < 2 ^ 64)
      → ReadsBack c V
      → ReadsBack (list_codec n c) (Listed V)
  unfolding list_codec
  list_codec-ReadsBack {n = n} {c = c} {V = V} hn hc = record {
    reads = λ xs rest valid.
        let first : n.decode ((n.encode (length xs) ++ encode_items c xs) ++ rest)
            ≡ ok (length xs, encode_items c xs ++ rest) =
          ap n.decode (append_assoc (n.encode (length xs)) (encode_items c xs) rest)
          ∙ hn.reads (length xs) (encode_items c xs ++ rest) valid.1 in
        ap (λ r. r >>= (λ r. decode_items c r.0 r.1)) first
        ∙ decode_items-encode_items c V xs rest hc valid.0;
  }
