-- ===== src/Common/Outcome.antt =====
-- Code that may fail: the `Result` of each crate, and `Option` where `none` is an absent value or a panic.
use mathlib.Core.Path.{◌≡◌, refl, ap, ◌∙◌}
use mathlib.Core.Bool.{Bool, true, false}
use mathlib.Core.Option.{Option, none, some}
use satsails_lwk.Common.Tests.{if◌then◌else◌}

module _ {ℓ κ} {A : Type ℓ} {B : Type κ} where
  abbrev pub and_then : Option A → (A → Option B) → Option B
  and_then o f = elim o [ some a ↦ f a | none ↦ none ]

  pub and_then-eq-some :
      (o : Option A) (f : A → Option B) {b : B}
      → and_then o f ≡ some b
      → (a : A) × (o ≡ some a) × (f a ≡ some b)
  and_then-eq-some (some a) f h = (a, refl, h)
  and_then-eq-some none f h = cc

-- Code that returns, where `none` is a panic.
abbrev pub Defined {ℓ} : {A : Type ℓ} → Option A → Type ℓ
Defined {A = A} o = (a : A) × (o ≡ some a)

pub Defined-if {ℓ} :
    {A : Type ℓ} (b : Bool) (x y : Option A) → Defined x → Defined y → Defined (if b then x else y)
Defined-if true x y dx dy = dx
Defined-if false x y dx dy = dy

pub Defined-and_then {ℓ κ} :
    {A : Type ℓ} {B : Type κ} (o : Option A) (f : A → Option B) (a : A)
    → o ≡ some a
    → Defined (f a)
    → Defined (and_then o f)
Defined-and_then none f a e d = cc
Defined-and_then (some b) f a e (c, ec) = (c, ap f (cc) ∙ ec)

pub data Result {ℓ κ} (E : Type ℓ) (A : Type κ) : Type (ℓ ⊔ κ) where
  err : E → Result E A
  ok : A → Result E A

-- `r?` and the code after it
infixl 5 ◌>>=◌ ◌>>◌
abbrev pub ◌>>=◌ {ℓ κ μ} :
    {E : Type ℓ} {A : Type κ} {B : Type μ} → Result E A → (A → Result E B) → Result E B
r >>= rest = elim r [ err e ↦ err e | ok a ↦ rest a ]

abbrev pub ◌>>◌ {ℓ κ} : {E : Type ℓ} {B : Type κ} → Result E (Unit {0}) → Result E B → Result E B
r >> rest = elim r [ err e ↦ err e | ok _ ↦ rest ]

-- `o.ok_or(e)?`
abbrev pub ok_or {ℓ κ} : {E : Type ℓ} {A : Type κ} → Option A → E → Result E A
ok_or o e = elim o [ some a ↦ ok a | none ↦ err e ]

-- `if c { return Err(e) }`
abbrev pub reject_if {ℓ} : {E : Type ℓ} → Bool → E → Result E (Unit {0})
reject_if c e = if c then err e else ok tt

-- What answered was answered twice.
pub >>=-eq-ok {ℓ κ μ} :
    {E : Type ℓ} {A : Type κ} {B : Type μ} (r : Result E A) (rest : A → Result E B) (b : B)
    → (r >>= rest) ≡ ok b
    → (a : A) × (r ≡ ok a) × (rest a ≡ ok b)
>>=-eq-ok (ok a) rest b h = (a, refl, h)
>>=-eq-ok (err e) rest b h = cc

pub ok_injective {ℓ κ} :
    {E : Type ℓ} {A : Type κ} {a b : A} → ◌≡◌ {A = Result E A} (ok a) (ok b) → a ≡ b
ok_injective h = cc

pub ok_or-eq-ok {ℓ κ} :
    {E : Type ℓ} {A : Type κ} (o : Option A) (e : E) (a : A) → ok_or o e ≡ ok a → o ≡ some a
ok_or-eq-ok none e a h = cc
ok_or-eq-ok (some b) e a h = ap some (ok_injective h)

pub reject_if-eq-ok {ℓ κ} :
    {E : Type ℓ} {A : Type κ} (b : Bool) (e : E) (r : Result E A) (a : A)
    → (reject_if b e >> r) ≡ ok a
    → (b ≡ false) × (r ≡ ok a)
reject_if-eq-ok true e r a h = cc
reject_if-eq-ok false e r a h = (refl, h)
