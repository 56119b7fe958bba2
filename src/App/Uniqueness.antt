-- ===== src/App/Uniqueness.antt =====
-- About insertion into and removal from the maps of lwk_app/src/state.rs, and the key materials of
-- their values.
use satsails_lwk.Common.{some, Result, ok, ◌≡◌, sym, ◌∙◌, subst, ◌≢◌, inl, inr, ==-cases, PartialEq}
use satsails_lwk.Common.HashMap.{
  HashMap, get, insert as map_insert, remove as map_remove, get-insert_same, get-insert_other,
  without-some,
}
use satsails_lwk.App.Matching.{Unique}

-- Whatever `f` reads, a value whose material no entry has joins a map of unique materials.
module _ {ℓ} {K V X : Type 0} {E : Type ℓ} ⦃eqk : PartialEq K⦄ (f : V → Result E X) where
  pub insert-Unique :
      (m : HashMap K V) (k : K) (v : V)
      → ((x : X) (j : K) (u : V) → f v ≡ ok x → get m j ≡ some u → f u ≢ ok x)
      → Unique f m.entries
      → Unique f (map_insert m k v).entries
  unfolding Unique
  insert-Unique m k v new u a b p q x ha hb fa fb = elim (==-cases k a) [
    | inl (ka, _) ↦ elim (==-cases k b) [
      | inl (kb, _) ↦ sym ka ∙ kb
      | inr (kb, _) ↦
          let at_a : get (map_insert m k v) k ≡ some p =
            subst (λ z. get (map_insert m k v) z ≡ some p) (sym ka) ha in
          let pv : v ≡ p = cc (get-insert_same m k v) in
          absurd (new x b q (cc) (sym (get-insert_other m k b v kb) ∙ hb) fb)
    ]
    | inr (ka, _) ↦ elim (==-cases k b) [
      | inl (kb, _) ↦
          let at_b : get (map_insert m k v) k ≡ some q =
            subst (λ z. get (map_insert m k v) z ≡ some q) (sym kb) hb in
          let qv : v ≡ q = cc (get-insert_same m k v) in
          absurd (new x a p (cc) (sym (get-insert_other m k a v ka) ∙ ha) fa)
      | inr (kb, _) ↦
          u a b p q x (sym (get-insert_other m k a v ka) ∙ ha)
            (sym (get-insert_other m k b v kb) ∙ hb) fa fb
    ]
  ]

  pub remove-Unique :
      (m : HashMap K V) (k : K) → Unique f m.entries → Unique f (map_remove m k).0.entries
  unfolding Unique
  remove-Unique m k u a b p q x ha hb fa fb =
      u a b p q x (without-some k a m.entries ha) (without-some k b m.entries hb) fa fb
