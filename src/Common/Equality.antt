-- ===== src/Common/Equality.antt =====
-- Equality of bytes, keys and lists of them as an interface: what a Boolean test has to answer.
use Prim.Native.Nat.{ℕ}
use mathlib.Core.Path.{◌≡◌, refl, subst}
use mathlib.Core.Logic.{◌≢◌, ◌⊎◌, inl, inr}
use mathlib.Core.Bool.{Bool, true, false, ◌&&◌}
use mathlib.Core.List.{List, [], ◌∷◌}
use native.Mathlib.Omega.{arith}
use satsails_lwk.Common.Tests.{nat_beq, nat_beq_iff, Bool-cases}

pub record PartialEq {ℓ} (A : Type ℓ) : Type ℓ where
  pub same : A → A → Bool
  pub accepts : (a : A) → same a a ≡ true
  pub separates : (a b : A) → same a b ≡ true → a ≡ b

instance abbrev pub nat_eq : PartialEq ℕ
nat_eq = record {
  same = nat_beq;
  accepts = λ a. (nat_beq_iff a a).1 refl;
  separates = λ a b. (nat_beq_iff a b).0;
}

module _ {ℓ} {A : Type ℓ} ⦃eq : PartialEq A⦄ where
  infix 50 ◌==◌
  abbrev pub ◌==◌ : A → A → Bool
  ◌==◌ = eq.same

  pub ==_refl : (a : A) → (a == a) ≡ true
  ==_refl = eq.accepts

  pub ==_sound : (a b : A) → (a == b) ≡ true → a ≡ b
  ==_sound = eq.separates

  abbrev pub same_items : List A → List A → Bool
  same_items [] ys = elim ys [ [] ↦ true | _ ↦ false ]
  same_items (x ∷ xs) ys = elim ys [ [] ↦ false | y ∷ ys ↦ same_items xs ys && x == y ]

  pub same_items_refl : (xs : List A) → same_items xs xs ≡ true
  same_items_refl [] = refl
  same_items_refl (x ∷ xs) = rw (same_items_refl xs, ==_refl x)

  pub same_items_sound : (xs ys : List A) → same_items xs ys ≡ true → xs ≡ ys
  same_items_sound [] [] h = refl
  same_items_sound [] (y ∷ ys) h = cc
  same_items_sound (x ∷ xs) [] h = cc
  same_items_sound (x ∷ xs) (y ∷ ys) h = ground (arith, ==_sound x y, same_items_sound xs ys)

  instance abbrev pub list_eq : PartialEq (List A)
  list_eq = record { same = same_items; accepts = same_items_refl; separates = same_items_sound }

-- Both answers of the test, with what each says.
pub ==-cases {ℓ} :
    {A : Type ℓ} ⦃eq : PartialEq A⦄ (a b : A)
    → ((a ≡ b) × ((a == b) ≡ true)) ⊎ ((a ≢ b) × ((a == b) ≡ false))
==-cases a b = elim (Bool-cases (a == b)) [
  | inl e ↦ inl (==_sound a b e, e)
  | inr e ↦ inr (λ s. let t : (a == b) ≡ true = subst (λ x. (a == x) ≡ true) s (==_refl a) in cc, e)
]

pub and_true : (a b : Bool) → (a && b) ≡ true → (a ≡ true) × (b ≡ true)
and_true true b h = (refl, h)
and_true false b h = cc

module _ {ℓ κ} {A : Type ℓ} {B : Type κ} ⦃eq : PartialEq A⦄ ⦃eq' : PartialEq B⦄ where
  abbrev pub same_pair : A × B → A × B → Bool
  same_pair p q = p.0 == q.0 && p.1 == q.1

  pub same_pair_refl : (p : A × B) → same_pair p p ≡ true
  same_pair_refl p = rw (==_refl p.0, ==_refl p.1) refl

  pub same_pair_sound : (p q : A × B) → same_pair p q ≡ true → p ≡ q
  same_pair_sound (a, b) (c, d) h =
      let (l, r) = and_true (a == c) (b == d) h in
      let left : a ≡ c = ==_sound a c l in let right : b ≡ d = ==_sound b d r in cc

  instance abbrev pub pair_eq : PartialEq (A × B)
  pair_eq = record { same = same_pair; accepts = same_pair_refl; separates = same_pair_sound }
