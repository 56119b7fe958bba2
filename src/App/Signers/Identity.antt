-- ===== src/App/Signers/Identity.antt =====
-- `Signers::insert`, `Signers::remove` and `Signers::name_from_fingerprint` of
-- lwk_app/src/state.rs: one fingerprint for one name.
use Prim.Native.String.{String}
use satsails_lwk.Common.{List, some, Result, ok, nat_eq, list_eq, ◌≡◌, ap}
use satsails_lwk.Common.HashMap.{get}
use satsails_lwk.App.Error.{Error, string_eq, signer_already_loaded}
use satsails_lwk.App.Matching.{materials}
use satsails_lwk.App.Checked.Laws.{
  IsValid, Outcome, insert_checked-Outcome, insert_checked-IsValid, names_matching-loaded,
  remove-IsValid as removal-IsValid,
}
use satsails_lwk.App.Signer.{Bytes, Devices, Signers, AppSigner, fingerprint}
use satsails_lwk.App.Signers.{
  insert, remove, names_matching_fingerprint, name_from_fingerprint, one_name,
}

module _ (dev : Devices) where
  pub insert-IsValid :
      (m : Signers dev) (name : String) (s : AppSigner dev)
      → IsValid (fingerprint dev) m
      → IsValid (fingerprint dev) (insert dev m name s).0
  unfolding insert
  insert-IsValid m name s v =
      insert_checked-IsValid (fingerprint dev) signer_already_loaded m name s v

  pub insert-Outcome :
      (m : Signers dev) (name : String) (s : AppSigner dev)
      → IsValid (fingerprint dev) m
      → Outcome (fingerprint dev) signer_already_loaded m name s (insert dev m name s)
  unfolding insert
  insert-Outcome m name s v =
      insert_checked-Outcome (fingerprint dev) signer_already_loaded m name s v.distinct

  pub remove-IsValid :
      (m : Signers dev) (name : String)
      → IsValid (fingerprint dev) m
      → IsValid (fingerprint dev) (remove dev m name).0
  unfolding remove
  remove-IsValid m name v = removal-IsValid (fingerprint dev) m name v

  -- Among valid signers whose fingerprints can all be read, the name of a loaded fingerprint is found,
  -- without a warning.
  pub name_from_fingerprint-loaded :
      (m : Signers dev) (xs : List Bytes) (name : String) (s : AppSigner dev) (f : Bytes)
      → IsValid (fingerprint dev) m
      → materials (fingerprint dev) m.entries ≡ ok xs
      → get m name ≡ some s
      → fingerprint dev s ≡ ok f
      → name_from_fingerprint dev m f ≡ (some name, 0)
  unfolding name_from_fingerprint names_matching_fingerprint
  name_from_fingerprint-loaded m xs name s f v hx hs hf =
      ap (λ (r : Result Error (List String)). one_name dev r)
        (names_matching-loaded (fingerprint dev) m xs name s f v hx hs hf)
