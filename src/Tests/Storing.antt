-- ===== src/Tests/Storing.antt =====
-- The persister of lwk_wollet.
use Prim.Native.String.{String}
use satsails_lwk.Common.{
  ℕ, suc, ◌-◌, [], ◌∷◌, ◌++◌, some, Result, ok, ok_injective, ◌≡◌, refl, sym, ap, subst, arith, map,
  nat_eq,
}
use satsails_lwk.Common.HashMap.{insert, new}
use satsails_lwk.Wollet.Update.{default, only_tip, nothing_downloaded}
use satsails_lwk.Wollet.Update.Tip.{replay}
use satsails_lwk.Wollet.Codec.{Bytes, serialize}
use satsails_lwk.Wollet.Persister.{
  Disk, FsPersister, push, last, new_wollet, with_persister, serialize_encrypted,
}
use satsails_lwk.Wollet.Persister.Stored.{Stored, Holds, coalesced, reread, push-Stored}
use satsails_lwk.Wollet.Persister.Reload.{lifted, new_wollet-replay}
use satsails_lwk.Tests.Encoding.{numbers, plain, sample, plain-Faithful, sample-IsEncodable}

-- A disk that never fails, with a cipher that adds one to each byte.
abbrev shifted : Disk
shifted = record {
  IoError = ℕ;
  not_found = 0;
  encrypt = λ nonce bytes. ok (map suc bytes);
  decrypt = λ nonce bytes. ok (map (λ b. b - 1) bytes);
  write = λ files n bytes. (insert files n bytes, ok tt);
}

unshifts : (bs : Bytes) → map (λ b. b - 1) (map suc bs) ≡ bs
unshifts [] = refl
unshifts (b ∷ bs) =
    let first : suc b - 1 ≡ b = omega arith in
    subst (λ x. x ∷ map (λ b. b - 1) (map suc bs) ≡ b ∷ bs) (sym first)
      (ap (λ r. b ∷ r) (unshifts bs))

shifted-decrypts :
    (nonce plaintext ciphertext : Bytes)
    → ◌≡◌ {A = Result String Bytes} (ok (map suc plaintext)) (ok ciphertext)
    → ◌≡◌ {A = Result String Bytes} (ok (map (λ b. b - 1) ciphertext)) (ok plaintext)
shifted-decrypts nonce plaintext ciphertext h =
    let same : map suc plaintext ≡ ciphertext = ok_injective h in
    subst (λ (x : Bytes). ◌≡◌ {A = Result String Bytes} (ok (map (λ b. b - 1) x)) (ok plaintext))
      same (ap ok (unshifts plaintext))

abbrev nonce : Bytes
nonce = 1 ∷ 2 ∷ 3 ∷ 4 ∷ 5 ∷ 6 ∷ 7 ∷ 8 ∷ 9 ∷ 10 ∷ 11 ∷ 12 ∷ []

abbrev empty_dir : FsPersister plain shifted
empty_dir = record { files = new; next = 0 }

abbrev one_file : FsPersister plain shifted
one_file = record { files = insert new 0 (nonce ++ map suc (serialize plain sample)); next = 1 }

empty_dir-Stored : Stored plain shifted empty_dir []
unfolding Holds
empty_dir-Stored = record { count = refl; holds = tt }

push-sample : push plain shifted empty_dir nonce sample ≡ (one_file, ok tt)
unfolding push last only_tip nothing_downloaded serialize_encrypted
push-sample = refl

push-Stored_example : Stored plain shifted one_file (coalesced plain shifted sample [])
push-Stored_example =
    push-Stored plain shifted plain-Faithful shifted-decrypts (λ files n bytes h. refl) empty_dir
      nonce sample [] one_file refl sample-IsEncodable empty_dir-Stored push-sample

new_wollet-replay_example :
    new_wollet plain shifted 2 one_file
    ≡ with_persister plain shifted one_file (
        some (
          lifted plain shifted
            (replay numbers (default numbers) (reread plain shifted sample ∷ []))))
new_wollet-replay_example =
    new_wollet-replay plain shifted one_file (reread plain shifted sample ∷ []) 2
      push-Stored_example (omega arith)
