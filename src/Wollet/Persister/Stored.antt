-- ===== src/Wollet/Persister/Stored.antt =====
-- What the directory of lwk_wollet/src/persister.rs holds: a list of updates, the newest first.
use Prim.Native.String.{String}
use satsails_lwk.Common.{
  ℕ, suc, ◌+◌, ◌-◌, ◌≤◌, Bool, true, false, List, [], ◌∷◌, ◌++◌, none, some, Result, ok, err, ◌≡◌,
  refl, sym, ap, ◌∙◌, subst, arith, length, nat_eq, if◌then◌else◌, ltb, lt→ltb, le→ltb,
  take-append_length, drop-append_length, length-append, ◌==◌, take, drop, >>=-eq-ok, ok_injective,
  append-nil, Bool-cases, inl, inr, ◌≢◌,
}
use satsails_lwk.Common.HashMap.{HashMap, new, get, insert, get-insert_same, get-insert_other}
use satsails_lwk.Wollet.{Elements}
use satsails_lwk.Wollet.Update.{Update, only_tip}
use satsails_lwk.Wollet.Persister.{
  Disk, FsPersister, PersistError, get_update, read, decrypted, last, target, push, store, written,
  io, serialize_encrypted, deserialize_decrypted, deserialize,
}
use satsails_lwk.Wollet.Codec.{Bytes, Encodings, serialize, deserialize_partial}
use satsails_lwk.Wollet.Codec.RoundTrip.{Faithful, IsEncodable, deserialize_partial-serialize}
use satsails_lwk.Common.Extend.{extend}

if_either {ℓ κ} :
    {A : Type ℓ} (P : A → Type κ) (b : Bool) (x y : A) → P x → P y → P (if b then x else y)
if_either P true x y hx hy = hx
if_either P false x y hx hy = hy

module _ {el : Elements} (en : Encodings el) (disk : Disk) where
  open disk use {IoError, encrypt, decrypt, write}

  -- Each update is read back from the file of its position.
  unfoldable pub Holds : HashMap ℕ Bytes → List (Update el) → Type 0
  Holds files [] = Unit
  Holds files (u ∷ older) =
      (read en disk (get files (length older)) ≡ ok (some u)) × Holds files older

  pub record Stored (p : FsPersister en disk) (us : List (Update el)) : Type 0 where
    pub count : p.next ≡ length us
    pub holds : Holds p.files us

  -- What stays under a pushed update: a tip takes the place of a tip.
  abbrev pub under : Update el → List (Update el) → List (Update el)
  under u [] = []
  under u (prev ∷ older) =
      if only_tip el u then (if only_tip el prev then older else prev ∷ older) else prev ∷ older

  -- An update as it is read back: its scripts are inserted into a new map.
  abbrev pub reread : Update el → Update el
  reread u = record u { scripts = extend ⦃eq = el.script_eq⦄ new u.scripts.entries }

  abbrev pub coalesced : Update el → List (Update el) → List (Update el)
  coalesced u us = reread u ∷ under u us

  abbrev pub in_order : List (Update el) → List (Update el)
  in_order [] = []
  in_order (u ∷ older) = in_order older ++ (u ∷ [])

  pub length-in_order : (us : List (Update el)) → length (in_order us) ≡ length us
  length-in_order [] = refl
  length-in_order (u ∷ older) =
      let e : length (in_order older ++ (u ∷ [])) ≡ length (in_order older) + 1 =
        length-append (in_order older) (u ∷ []) in
      omega (arith, length-in_order older)

  Holds-insert :
      (files : HashMap ℕ Bytes) (us : List (Update el)) (n : ℕ) (bytes : Bytes)
      → length us ≤ n
      → Holds files us
      → Holds (insert files n bytes) us
  unfolding Holds
  Holds-insert files [] n bytes le h = tt
  Holds-insert files (u ∷ older) n bytes le h =
      let other : n ≢ length older = λ e. omega arith in
      (
        ap (read en disk) (get-insert_other files n (length older) bytes other) ∙ h.0,
        Holds-insert files older n bytes (omega arith) h.1,
      )

  Holds-cons :
      (files : HashMap ℕ Bytes) (us : List (Update el)) (u : Update el) (bytes : Bytes)
      → deserialize_decrypted en disk bytes ≡ ok u
      → Holds files us
      → Holds (insert files (length us) bytes) (u ∷ us)
  unfolding Holds
  Holds-cons files us u bytes e h = (
    ap (read en disk) (get-insert_same files (length us) bytes) ∙ ap (decrypted en disk) e,
    Holds-insert files us (length us) bytes (omega arith) h,
  )

  Holds-under :
      (files : HashMap ℕ Bytes) (us : List (Update el)) (u : Update el)
      → Holds files us
      → Holds files (under u us)
  unfolding Holds
  Holds-under files [] u h = tt
  Holds-under files (prev ∷ older) u h =
      if_either (Holds files) (only_tip el u) (if only_tip el prev then older else prev ∷ older)
        (prev ∷ older) (if_either (Holds files) (only_tip el prev) older (prev ∷ older) h.1 h) h

  last-Stored :
      (p : FsPersister en disk) (prev : Update el) (older : List (Update el))
      → Stored p (prev ∷ older)
      → last en disk p ≡ ok (some prev)
  unfolding last get_update Holds
  last-Stored p prev older s =
      let here : p.next - 1 ≡ length older = omega (arith, s.count) in
      let some_there : (p.next == 0) ≡ false = ground (arith, s.count) in
      let below : ltb (p.next - 1) p.next ≡ true =
        lt→ltb (p.next - 1) p.next (omega (arith, s.count)) in
      rw (some_there, below) (ap (λ n. read en disk (get p.files n)) here ∙ s.holds.0)

  last-empty : (p : FsPersister en disk) → Stored p [] → last en disk p ≡ ok none
  unfolding last
  last-empty p s =
      let none_there : (p.next == 0) ≡ true = ground (arith, s.count) in rw none_there refl

  target-Stored :
      (p : FsPersister en disk) (u : Update el) (us : List (Update el))
      → Stored p us
      → target en disk p u ≡ length (under u us)
  target-Stored p u [] s = elim (Bool-cases (only_tip el u)) [
    | inl e ↦ rw (e, last-empty p s) s.count
    | inr e ↦ rw e s.count
  ]
  target-Stored p u (prev ∷ older) s = elim (Bool-cases (only_tip el u)) [
    | inr e ↦ rw e s.count
    | inl e ↦ elim (Bool-cases (only_tip el prev)) [
      | inl f ↦ rw (e, last-Stored p prev older s, f) (omega (arith, s.count))
      | inr f ↦ rw (e, last-Stored p prev older s, f) s.count
    ]
  ]

  by_result :
      (n : ℕ) (r : HashMap ℕ Bytes × Result IoError (Unit {0})) (p' : FsPersister en disk)
      → written en disk n r ≡ (p', ok tt)
      → (r.1 ≡ ok tt) × (◌≡◌ {A = FsPersister en disk} (record { files = r.0; next = n + 1 }) p')
  by_result n (files, ok u) p' h = (refl, ap (λ x. x.0) h)
  by_result n (files, err e) p' h =
      let no : ◌≡◌ {A = Result (PersistError en disk) (Unit {0})} (err (io e)) (ok tt) =
        ap (λ x. x.1) h in
      cc

  ok_not_err :
      {p p' : FsPersister en disk} {e : PersistError en disk}
      → ◌≡◌ {A = FsPersister en disk × Result (PersistError en disk) (Unit {0})}
          (p, err e)
          (p', ok tt)
      → ⊥
  ok_not_err {e = e} h =
      let no : ◌≡◌ {A = Result (PersistError en disk) (Unit {0})} (err e) (ok tt) =
        ap (λ x. x.1) h in
      cc

  module _ (faithful : Faithful en)
      (decrypts : (nonce plaintext ciphertext : Bytes)
        → encrypt nonce plaintext ≡ ok ciphertext
        → decrypt nonce ciphertext ≡ ok plaintext)
      (writes : (files : HashMap ℕ Bytes) (n : ℕ) (bytes : Bytes)
        → (write files n bytes).1 ≡ ok tt
        → (write files n bytes).0 ≡ insert files n bytes) where
    -- What is encrypted under a nonce of twelve bytes is read back, with its scripts in a new map.
    deserialize_decrypted-serialize_encrypted :
        (nonce : Bytes) (u : Update el) (bytes : Bytes)
        → length nonce ≡ 12
        → IsEncodable en u
        → serialize_encrypted en disk nonce u ≡ ok bytes
        → deserialize_decrypted en disk bytes ≡ ok (reread u)
    unfolding serialize_encrypted deserialize_decrypted deserialize
    deserialize_decrypted-serialize_encrypted nonce u bytes twelve encodable h =
        let (cipher, sealed, h1) = >>=-eq-ok (encrypt nonce (serialize en u)) _ bytes h in
        let made : nonce ++ cipher ≡ bytes = ok_injective h1 in
        let long : ltb (length (nonce ++ cipher)) 12 ≡ false =
          le→ltb (length (nonce ++ cipher)) 12
            (omega (arith, twelve, length-append nonce cipher)) in
        let front : take 12 (nonce ++ cipher) ≡ nonce =
          subst (λ n. take n (nonce ++ cipher) ≡ nonce) twelve (take-append_length nonce cipher) in
        let back : drop 12 (nonce ++ cipher) ≡ cipher =
          subst (λ n. drop n (nonce ++ cipher) ≡ cipher) twelve (drop-append_length nonce cipher) in
        let opened = decrypts nonce (serialize en u) cipher sealed in
        let read : deserialize_partial en (serialize en u) ≡ ok (reread u, []) =
          ap (deserialize_partial en) (sym (append-nil (serialize en u)))
          ∙ (deserialize_partial-serialize en faithful u [] encodable).0 in
        subst (λ bs. deserialize_decrypted en disk bs ≡ ok (reread u)) made
          (rw (long, front, back, opened, read) refl)

    written-Stored :
        (p : FsPersister en disk) (u : Update el) (us : List (Update el)) (bytes : Bytes) (n : ℕ)
        (p' : FsPersister en disk)
        → Stored p us
        → deserialize_decrypted en disk bytes ≡ ok (reread u)
        → n ≡ length (under u us)
        → written en disk n (write p.files n bytes) ≡ (p', ok tt)
        → Stored p' (coalesced u us)
    written-Stored p u us bytes n p' s e at h =
        let (done, same) = by_result n (write p.files n bytes) p' h in
        let kept : Holds p.files (under u us) = Holds-under p.files us u s.holds in
        let stored : Holds (insert p.files n bytes) (coalesced u us) =
          subst (λ k. Holds (insert p.files k bytes) (coalesced u us)) (sym at)
            (Holds-cons p.files (under u us) (reread u) bytes e kept) in
        subst (λ (q : FsPersister en disk). Stored q (coalesced u us)) same
          (record {
            count = let c : n + 1 ≡ suc (length (under u us)) = omega (arith, at) in c;
            holds =
                subst (λ f. Holds f (coalesced u us)) (sym (writes p.files n bytes done)) stored;
          })

    store-Stored :
        (p : FsPersister en disk) (u : Update el) (us : List (Update el)) (n : ℕ)
        (sealed : Result String Bytes) (p' : FsPersister en disk)
        → Stored p us
        → ((bytes : Bytes)
            → sealed ≡ ok bytes
            → deserialize_decrypted en disk bytes ≡ ok (reread u))
        → n ≡ length (under u us)
        → store en disk p n sealed ≡ (p', ok tt)
        → Stored p' (coalesced u us)
    store-Stored p u us n (ok bytes) p' s opens at h =
        written-Stored p u us bytes n p' s (opens bytes refl) at h
    store-Stored p u us n (err e) p' s opens at h = absurd (ok_not_err h)

    -- An answered push of an update that can be encoded, under a nonce of twelve bytes, puts it on the list as
    -- it is read back, in the place of the last one where both are tips.
    pub push-Stored :
        (p : FsPersister en disk) (nonce : Bytes) (u : Update el) (us : List (Update el))
        (p' : FsPersister en disk)
        → length nonce ≡ 12
        → IsEncodable en u
        → Stored p us
        → push en disk p nonce u ≡ (p', ok tt)
        → Stored p' (coalesced u us)
    unfolding push
    push-Stored p nonce u us p' twelve encodable s h =
        store-Stored p u us (target en disk p u) (serialize_encrypted en disk nonce u) p' s
          (λ bytes e. deserialize_decrypted-serialize_encrypted nonce u bytes twelve encodable e)
          (target-Stored p u us s) h
