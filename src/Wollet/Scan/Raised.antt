-- ===== src/Wollet/Scan/Raised.antt =====
-- What a turn of the scan in lwk_wollet/src/clients/mod.rs does to the last unused index.
use satsails_lwk.Common.{
  ℕ, suc, ◌+◌, ◌*◌, ◌%◌, ◌^◌, List, [], ◌∷◌, Option, some, none, Bool, true, false, not, is_empty,
  concat, ◌≡◌, refl, sym, ap, ◌∙◌, inl, inr, ltb, Bool-cases, ◌==◌, nat_eq,
}
use satsails_lwk.Wollet.{Elements, Chain, external, internal}
use satsails_lwk.Wollet.Update.{later}
use satsails_lwk.Wollet.Scan.{
  Backend, ScriptBatch, Progress, History, max_used, noted, chain_of, with_max, with_scripts,
  record_history, recorded, max_zero,
}

abbrev pub is_some : Option ℕ → Bool
is_some none = false
is_some (some a) = true

later-is_some : (i : ℕ) (m : Option ℕ) → is_some (later i m) ≡ true
later-is_some i none = refl
later-is_some i (some m) = elim (Bool-cases (ltb m i)) [ inl e ↦ rw e refl | inr e ↦ rw e refl ]

abbrev pub raised : ℕ → Option ℕ → ℕ → ℕ
raised batch none l = l
raised batch (some m) l = (1 + m + batch * 20) % 2 ^ 32

module _ {el : Elements} (server : Backend el) where
  open server use {Single, get_scripts_history}

  pub empty-max_used :
      (i : ℕ) (hs : List (List (History server)))
      → is_empty (concat hs) ≡ not (is_some (max_used server i hs))
  unfolding max_used
  empty-max_used i [] = refl
  empty-max_used i ([] ∷ hs) = empty-max_used (suc i) hs
  empty-max_used i ((x ∷ xs) ∷ hs) =
      ap not (sym (later-is_some (i % 2 ^ 32) (max_used server (suc i) hs)))

  abbrev pub last_unused : Chain → Progress server → ℕ
  last_unused external p = p.last_unused_external
  last_unused internal p = p.last_unused_internal

  last_unused-recorded :
      (chain : Chain) (height : ℕ) (t : el.Txid) (hash : Option el.BlockHash) (p : Progress server)
      → last_unused chain (recorded server height t hash p) ≡ last_unused chain p
  last_unused-recorded external height t none p = elim (Bool-cases (height == 0)) [
    | inl e ↦ rw e refl
    | inr e ↦ rw e refl
  ]
  last_unused-recorded internal height t none p = elim (Bool-cases (height == 0)) [
    | inl e ↦ rw e refl
    | inr e ↦ rw e refl
  ]
  last_unused-recorded external height t (some hash) p = elim (Bool-cases (height == 0)) [
    | inl e ↦ rw e refl
    | inr e ↦ rw e refl
  ]
  last_unused-recorded internal height t (some hash) p = elim (Bool-cases (height == 0)) [
    | inl e ↦ rw e refl
    | inr e ↦ rw e refl
  ]

  last_unused-record_history :
      (chain : Chain) (hs : List (History server)) (p : Progress server)
      → last_unused chain (record_history server hs p) ≡ last_unused chain p
  unfolding record_history
  last_unused-record_history chain [] p = refl
  last_unused-record_history chain ((t, height, hash) ∷ hs) p =
      last_unused-record_history chain hs (recorded server (max_zero height) t hash p)
      ∙ last_unused-recorded chain (max_zero height) t hash p

  last_unused-with_scripts :
      (chain : Chain) (b : ScriptBatch server) (p : Progress server)
      → last_unused chain (with_scripts server b p) ≡ last_unused chain p
  last_unused-with_scripts external b p = elim (Bool-cases b.cached) [
    | inl e ↦ rw e refl
    | inr e ↦ rw e refl
  ]
  last_unused-with_scripts internal b p = elim (Bool-cases b.cached) [
    | inl e ↦ rw e refl
    | inr e ↦ rw e refl
  ]

  last_unused-with_max :
      (chain : Chain) (batch : ℕ) (m : Option ℕ) (p : Progress server)
      → last_unused chain (with_max server chain batch m p) ≡ raised batch m (last_unused chain p)
  last_unused-with_max external batch none p = refl
  last_unused-with_max internal batch none p = refl
  last_unused-with_max external batch (some m) p = refl
  last_unused-with_max internal batch (some m) p = refl

  pub last_unused-noted :
      (d : Single) (batch : ℕ) (b : ScriptBatch server) (result : List (List (History server)))
      (p : Progress server)
      → last_unused (chain_of server d) (noted server d batch b result p).0
        ≡ raised batch (max_used server 0 result) (last_unused (chain_of server d) p)
  unfolding noted
  last_unused-noted d batch b result p =
      let chain : Chain = chain_of server d in
      let m : Option ℕ = max_used server 0 result in
      last_unused-record_history chain (concat result)
        (with_max server chain batch m (with_scripts server b p))
      ∙ last_unused-with_max chain batch m (with_scripts server b p)
      ∙ ap (raised batch m) (last_unused-with_scripts chain b p)
