-- ===== src/App/Start.antt =====
-- `App::run` of lwk_app/src/lib.rs: the state before the first request, and the replay of the state
-- file. A failed line is told by its error and its number from 1. The client that sends the lines to
-- the server, and the threads, are left out.
use satsails_lwk.Common.{
  nat_eq, list_eq, ℕ, ◌+◌, true, false, List, [], ◌∷◌, Option, some, Result, ok, err, and_then,
  and_then-eq-some, ◌≡◌, subst, ap, refl, ◌∙◌,
}
use satsails_lwk.Common.HashMap.{new}
use satsails_lwk.App.Error.{Error}
use satsails_lwk.App.Signer.{Bytes, fingerprint}
use satsails_lwk.App.Wollets.{first_addr}
use satsails_lwk.App.Assets.{insert_policy_asset}
use satsails_lwk.App.Checked.Laws
use satsails_lwk.App.State.{Host, State, Request}
use satsails_lwk.App.Handler.{handle}
use satsails_lwk.App.Handler.Invariant.{IsValid, handle-IsValid}

module _ (host : Host) where
  open host use {devices, elements, wallets}

  unfoldable pub initial : Bytes → List Request → State host
  initial policy_asset file = record {
    wollets = new;
    signers = new;
    assets = insert_policy_asset elements policy_asset new;
    tx_memos = new;
    addr_memos = new;
    do_persist = false;
    file = file;
  }

  -- What follows the line after `n` others: `rest`, or the error with its number.
  abbrev pub answered :
      ℕ
      → Option (Result (Error × ℕ) (State host))
      → Result Error (Unit {0})
      → Option (Result (Error × ℕ) (State host))
  answered n rest (ok _) = rest
  answered n rest (err e) = some (err (e, n + 1))

  unfoldable pub replay : ℕ → State host → List Request → Option (Result (Error × ℕ) (State host))
  replay n s [] = some (ok s)
  replay n s (q ∷ qs) =
      and_then (handle host s q) (λ reply. answered n (replay (n + 1) reply.0 qs) reply.1)

  abbrev pub persisting : Result (Error × ℕ) (State host) → Result (Error × ℕ) (State host)
  persisting (ok s) = ok (record s { do_persist = true })
  persisting (err e) = err e

  unfoldable pub run : Bytes → List Request → Option (Result (Error × ℕ) (State host))
  run policy_asset file =
      and_then (replay 0 (initial policy_asset file) file) (λ r. some (persisting r))

  initial-IsValid :
      (policy_asset : Bytes) (file : List Request) → IsValid host (initial policy_asset file)
  unfolding initial
  initial-IsValid policy_asset file = record {
    wollets_valid = Laws.new-IsValid ⦃eqx = wallets.address_eq⦄ (first_addr wallets);
    signers_valid = Laws.new-IsValid (fingerprint devices);
  }

  replay-IsValid :
      (n : ℕ) (s : State host) (qs : List Request) (s' : State host)
      → IsValid host s
      → replay n s qs ≡ some (ok s')
      → IsValid host s'
  unfolding replay
  replay-IsValid n s [] s' v h = subst (IsValid host) (cc) v
  replay-IsValid n s (q ∷ qs) s' v h =
      let (reply, hr, rest) = and_then-eq-some (handle host s q) _ h in
      by_answer (λ s1 v1 h. replay-IsValid (n + 1) s1 qs s' v1 h) reply.0 reply.1
        (handle-IsValid host s q reply.0 reply.1 v hr) rest
    where
      by_answer :
          ((s1 : State host)
            → IsValid host s1
            → replay (n + 1) s1 qs ≡ some (ok s')
            → IsValid host s')
          → (s1 : State host) (r : Result Error (Unit {0})) → IsValid host s1
          → answered n (replay (n + 1) s1 qs) r ≡ some (ok s')
          → IsValid host s'
      by_answer later s1 (ok _) v1 h = later s1 v1 h
      by_answer later s1 (err e) v1 h = cc

  persisting-eq-ok :
      (r : Result (Error × ℕ) (State host)) (s' : State host)
      → persisting r ≡ ok s'
      → (s : State host) × (r ≡ ok s) × (record s { do_persist = true } ≡ s')
  persisting-eq-ok (ok s) s' h = (s, refl, cc)
  persisting-eq-ok (err e) s' h = cc

  -- When the replay of a state file succeeds, the server starts to save what changes, and no two
  -- loaded wallets share a first address and no two loaded signers a fingerprint.
  pub run-IsValid :
      (policy_asset : Bytes) (file : List Request) (s' : State host)
      → run policy_asset file ≡ some (ok s')
      → IsValid host s' × (s'.do_persist ≡ true)
  unfolding run
  run-IsValid policy_asset file s' h =
      let (r, hr, hp) = and_then-eq-some (replay 0 (initial policy_asset file) file) _ h in
      let (s, hs, same) = persisting-eq-ok r s' (cc) in
      let v =
        replay-IsValid 0 (initial policy_asset file) file s (initial-IsValid policy_asset file)
          (hr ∙ ap some hs) in
      subst (λ s'. IsValid host s' × (s'.do_persist ≡ true)) same
        (record { wollets_valid = v.wollets_valid; signers_valid = v.signers_valid }, refl)
