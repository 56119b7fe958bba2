-- ===== src/App/Checked.antt =====
-- The insertion that `Wollets::insert` and `Signers::insert` of lwk_app/src/state.rs write alike: a
-- new name, and a key material (the first address, the fingerprint) that no loaded value has.
pub mod Laws
use Prim.Native.String.{String}
use satsails_lwk.Common.{
  Bool, true, false, List, [], ◌∷◌, Option, none, some, Result, ok, err, ◌>>=◌, if◌then◌else◌,
  PartialEq,
}
use satsails_lwk.Common.HashMap.{HashMap, contains_key, insert as map_insert}
use satsails_lwk.App.Error.{Error, string_eq}
use satsails_lwk.App.Matching.{keys_where, names, materials}

module _ {V X : Type 0} ⦃eqx : PartialEq X⦄ (f : V → Result Error X) where
  -- The names of the loaded values of key material `x`.
  unfoldable pub names_matching : HashMap String V → X → Result Error (List String)
  names_matching m x = do xs ← materials f m.entries; ok (keys_where x (names m.entries) xs)

  -- `already` is the error for a name that stands in the way.
  abbrev pub insert_unmatched :
      (String → Error)
      → HashMap String V
      → String
      → V
      → Result Error (List String)
      → HashMap String V × Result Error (Unit {0})
  insert_unmatched already m name v (err e) = (m, err e)
  insert_unmatched already m name v (ok (existing ∷ _)) = (m, err (already existing))
  insert_unmatched already m name v (ok []) = (map_insert m name v, ok tt)

  unfoldable pub insert_checked :
      (String → Error) → HashMap String V → String → V → HashMap String V × Result Error (Unit {0})
  insert_checked already m name v =
      if contains_key m name
      then (m, err (already name))
      else insert_unmatched already m name v (f v >>= names_matching m)
