-- ===== src/App/Matching.antt =====
-- The search of lwk_app/src/state.rs for the entries of a map that share a key material, which
-- `Wollets::insert` and `Signers::names_matching_fingerprint` write alike.
use satsails_lwk.Common.{
  ◌≡◌, refl, sym, ap, ◌∙◌, List, [], ◌∷◌, Option, none, some, inl, inr, if◌then◌else◌, PartialEq,
  ◌==◌, ==-cases, map, ◌≢◌, subst, Result, ok, err, ◌>>=◌, ==_refl,
}
use satsails_lwk.Common.HashMap.{lookup, Distinct, lookup-here, lookup-there, Distinct-rest}

-- `keys.zip(xs).filter(|(_, b)| x == b).map(|(n, _)| n).collect()`
unfoldable pub keys_where : {K X : Type 0} ⦃eq : PartialEq X⦄ → X → List K → List X → List K
keys_where x (k ∷ ks) (b ∷ bs) = let rest = keys_where x ks bs in if x == b then k ∷ rest else rest
keys_where x _ _ = []

collected {ℓ} :
    {X : Type 0} {E : Type ℓ} (a : Result E X) (b : Result E (List X)) (xs : List X)
    → (a >>= λ x. b >>= λ ys. ok (x ∷ ys)) ≡ ok xs
    → (x : X) × (ys : List X) × (a ≡ ok x) × (b ≡ ok ys) × (xs ≡ x ∷ ys)
collected (ok x) (ok ys) xs h = (x, ys, refl, refl, cc)
collected (ok x) (err e) xs h = cc
collected (err e) b xs h = cc

module _ {ℓ} {V X : Type 0} {E : Type ℓ} where
  -- `.map(f).collect::<Result<_, _>>()`
  unfoldable pub collect : (V → Result E X) → List V → Result E (List X)
  collect f [] = ok []
  collect f (v ∷ vs) = do x ← f v; xs ← collect f vs; ok (x ∷ xs)

  collect-cons :
      (f : V → Result E X) (v : V) (vs : List V) (xs : List X)
      → collect f (v ∷ vs) ≡ ok xs
      → (x : X) × (ys : List X) × (f v ≡ ok x) × (collect f vs ≡ ok ys) × (xs ≡ x ∷ ys)
  unfolding collect
  collect-cons f v vs xs h = collected (f v) (collect f vs) xs h

abbrev pub names : {K V : Type 0} → List (K × V) → List K
names es = map (λ e. e.0) es

abbrev pub materials {ℓ} :
    {K V X : Type 0} {E : Type ℓ} → (V → Result E X) → List (K × V) → Result E (List X)
materials f es = collect f (map (λ e. e.1) es)

-- No two names stand for one key material.
unfoldable pub Unique {ℓ} :
    {K V X : Type 0} {E : Type ℓ} ⦃eqk : PartialEq K⦄ → (V → Result E X) → List (K × V) → Type ℓ
Unique {K = K} {V = V} {X = X} f es =
    (j k : K) (u v : V) (x : X)
    → lookup j es ≡ some u
    → lookup k es ≡ some v
    → f u ≡ ok x
    → f v ≡ ok x
    → j ≡ k

-- The section's `f` reads the key material of a value, and may fail.
module _ {ℓ} {K V X : Type 0} {E : Type ℓ} ⦃eqk : PartialEq K⦄ ⦃eqx : PartialEq X⦄
    (f : V → Result E X) where
  keys_where-cons_same :
      (x : X) (k : K) (ks : List K) (bs : List X)
      → keys_where x (k ∷ ks) (x ∷ bs) ≡ k ∷ keys_where x ks bs
  unfolding keys_where
  keys_where-cons_same x k ks bs = rw (==_refl x)

  keys_where-cons_other :
      (x b : X) (k : K) (ks : List K) (bs : List X)
      → x ≢ b
      → keys_where x (k ∷ ks) (b ∷ bs) ≡ keys_where x ks bs
  unfolding keys_where
  keys_where-cons_other x b k ks bs ne = elim (==-cases x b) [
    | inl (e, _) ↦ absurd (ne e)
    | inr (_, e) ↦ rw e
  ]

  -- When the search finds nothing, no loaded value has the key material.
  pub keys_where-none :
      (es : List (K × V)) (xs : List X) (x : X) (k : K) (v : V)
      → materials f es ≡ ok xs
      → keys_where x (names es) xs ≡ []
      → lookup k es ≡ some v
      → f v ≢ ok x
  unfolding lookup
  keys_where-none [] xs x k v hm hk hl fv = cc
  keys_where-none ((j, w) ∷ es) xs x k v hm hk hl fv =
      let (y, ys, fw, rest, exs) = collect-cons f w (map (λ e. e.1) es) xs hm in
      let hk' : keys_where x (j ∷ names es) (y ∷ ys) ≡ [] =
        subst (λ z. keys_where x (j ∷ names es) z ≡ []) exs hk in
      elim (==-cases x y) [
        | inl (same, _) ↦
            let bad : keys_where x (j ∷ names es) (x ∷ ys) ≡ [] =
              subst (λ z. keys_where x (j ∷ names es) (z ∷ ys) ≡ []) (sym same) hk' in
            let bad' : j ∷ keys_where x (names es) ys ≡ [] =
              sym (keys_where-cons_same x j (names es) ys) ∙ bad in
            cc
        | inr (ne, _) ↦ elim (==-cases j k) [
          | inl (same, _) ↦
              let here : ◌≡◌ {A = Option V} (some w) (some v) =
                sym (lookup-here j w es)
                ∙ subst (λ z. lookup z ((j, w) ∷ es) ≡ some v) (sym same) hl in
              let vs : ◌≡◌ {A = Result E X} (ok y) (ok x) = cc in ne (cc)
          | inr (differ, _) ↦
              keys_where-none es ys x k v rest
                (sym (keys_where-cons_other x y j (names es) ys ne) ∙ hk')
                (sym (lookup-there j k w es differ) ∙ hl) fv
        ]
      ]

  -- The first name that the search finds stands for a loaded value with the key material.
  pub keys_where-some :
      (es : List (K × V)) (xs : List X) (x : X) (k : K) (ks : List K)
      → Distinct es
      → materials f es ≡ ok xs
      → keys_where x (names es) xs ≡ k ∷ ks
      → (v : V) × (lookup k es ≡ some v) × (f v ≡ ok x)
  unfolding keys_where Distinct
  keys_where-some [] xs x k ks d hm hk = cc
  keys_where-some ((j, w) ∷ es) xs x k ks d hm hk =
      let (y, ys, fw, rest, exs) = collect-cons f w (map (λ e. e.1) es) xs hm in
      let hk' : keys_where x (j ∷ names es) (y ∷ ys) ≡ k ∷ ks =
        subst (λ z. keys_where x (j ∷ names es) z ≡ k ∷ ks) exs hk in
      elim (==-cases x y) [
        | inl (same, _) ↦
            let found : j ∷ keys_where x (names es) ys ≡ k ∷ ks =
              sym (keys_where-cons_same x j (names es) ys)
              ∙ subst (λ z. keys_where x (j ∷ names es) (z ∷ ys) ≡ k ∷ ks) (sym same) hk' in
            let jk : j ≡ k = cc in
            (
              w,
              subst (λ z. lookup z ((j, w) ∷ es) ≡ some w) jk (lookup-here j w es),
              fw ∙ ap ok (sym same),
            )
        | inr (ne, _) ↦
            let (v, hl, fv) =
              keys_where-some es ys x k ks d.1 rest
                (sym (keys_where-cons_other x y j (names es) ys ne) ∙ hk') in
            (v, Distinct-rest j w es k v d.0 hl, fv)
      ]

  -- Without a loaded value of that key material the search finds nothing.
  pub keys_where-absent :
      (es : List (K × V)) (xs : List X) (x : X)
      → Distinct es
      → materials f es ≡ ok xs
      → ((k : K) (v : V) → lookup k es ≡ some v → f v ≢ ok x)
      → keys_where x (names es) xs ≡ []
  keys_where-absent es xs x d hm missing = nothing (keys_where x (names es) xs) refl
    where
      nothing : (ks : List K) → keys_where x (names es) xs ≡ ks → ks ≡ []
      nothing [] e = refl
      nothing (k ∷ ks) e =
          let (v, hl, fv) = keys_where-some es xs x k ks d hm e in absurd (missing k v hl fv)

  -- Among unique key materials the search finds the one name.
  pub keys_where-Unique :
      (es : List (K × V)) (xs : List X) (x : X) (k : K) (v : V)
      → Distinct es
      → Unique f es
      → materials f es ≡ ok xs
      → lookup k es ≡ some v
      → f v ≡ ok x
      → keys_where x (names es) xs ≡ k ∷ []
  unfolding Distinct Unique lookup
  keys_where-Unique [] xs x k v d u hm hl fv = cc
  keys_where-Unique ((j, w) ∷ es) xs x k v d u hm hl fv =
      let (y, ys, fw, rest, exs) = collect-cons f w (map (λ e. e.1) es) xs hm in
      let goal_of : (z : List K)
          → keys_where x (j ∷ names es) (y ∷ ys) ≡ z
          → keys_where x (j ∷ names es) xs ≡ z =
        λ z e. subst (λ t. keys_where x (j ∷ names es) t ≡ z) (sym exs) e in
      elim (==-cases x y) [
        | inl (same, _) ↦
            let jk : j ≡ k = u j k w v x (lookup-here j w es) hl (fw ∙ ap ok (sym same)) fv in
            let tail_none : keys_where x (names es) ys ≡ [] =
              keys_where-absent es ys x d.1 rest (λ i z hi fz.
                let ji : j ≡ i =
                  u j i w z x (lookup-here j w es) (Distinct-rest j w es i z d.0 hi)
                    (fw ∙ ap ok (sym same)) fz in
                let bad : lookup i es ≡ none = subst (λ t. lookup t es ≡ none) ji d.0 in cc) in
            goal_of (k ∷ []) (
              subst (λ z. keys_where x (j ∷ names es) (z ∷ ys) ≡ j ∷ keys_where x (names es) ys)
                same (keys_where-cons_same x j (names es) ys)
              ∙ cc)
        | inr (ne, _) ↦
            let differ : j ≢ k = λ jk.
              let here : ◌≡◌ {A = Option V} (some w) (some v) =
                sym (lookup-here j w es)
                ∙ subst (λ z. lookup z ((j, w) ∷ es) ≡ some v) (sym jk) hl in
              let vs : ◌≡◌ {A = Result E X} (ok y) (ok x) = cc in ne (cc) in
            goal_of (k ∷ []) (
              keys_where-cons_other x y j (names es) ys ne
              ∙ keys_where-Unique es ys x k v d.1
                  (λ a b p q z ha hb fa fb.
                    u a b p q z (Distinct-rest j w es a p d.0 ha) (Distinct-rest j w es b q d.0 hb)
                      fa fb)
                  rest (sym (lookup-there j k w es differ) ∙ hl) fv)
      ]
