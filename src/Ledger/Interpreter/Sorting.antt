-- ===== src/Ledger/Interpreter/Sorting.antt =====
-- The stable sort by key of `add_known_mapping` and `get_merkleized_map_commitment`.
use satsails_lwk.Common.{
  Bool, true, false, ◌&&◌, ◌||◌, List, [], ◌∷◌, if◌then◌else◌, ltb, ◌==◌, nat_eq,
}
use satsails_lwk.Ledger.Merkle.{Bytes}

-- `a.cmp(b)` is not `Greater`, on slices of bytes.
unfoldable pub bytes_leb : Bytes → Bytes → Bool
bytes_leb [] ys = true
bytes_leb (x ∷ xs) [] = false
bytes_leb (x ∷ xs) (y ∷ ys) = ltb x y || (x == y) && bytes_leb xs ys

unfoldable pub insert : Bytes × Bytes → List (Bytes × Bytes) → List (Bytes × Bytes)
unfolding bytes_leb
insert x [] = x ∷ []
insert x (y ∷ ys) = if bytes_leb x.0 y.0 then x ∷ y ∷ ys else y ∷ insert x ys

unfoldable pub sort_by_key : List (Bytes × Bytes) → List (Bytes × Bytes)
unfolding insert
sort_by_key [] = []
sort_by_key (x ∷ xs) = insert x (sort_by_key xs)
