-- ===== src/App/Signers/Availability.antt =====
-- `Signers::get_available` of lwk_app/src/state.rs: a Jade goes from known to connected and back.
use Prim.Native.String.{String}
use satsails_lwk.Common.{
  Bool, true, false, Option, none, some, Result, ok, err, ◌>>=◌, ◌≡◌, refl, sym, ap, subst, ◌≢◌, ℕ,
  if◌then◌else◌, ok_or,
}
use satsails_lwk.Common.HashMap.{get, insert, get-insert_same, get-insert_other}
use satsails_lwk.App.Error.{Error, string_eq, signer_not_exist, feat_serial_disabled, generic}
use satsails_lwk.App.Signer.{
  Network, Bytes, Devices, Signers, AppSigner, AppSignerInner, AnySigner, jade_id, available_signer,
  external_signer, software, jade_signer,
}
use satsails_lwk.App.Signers.{
  get_available, get_signer, replacement, replace, answer, settle, connected, disconnected,
}

module _ (dev : Devices) where
  open dev use {from_serial_matching_id, unlock, jade_network, serial}

  abbrev pub no_external : Error
  no_external = generic "Invalid operation for external signer"

  abbrev pub not_connected : Error
  not_connected = generic "Invalid operation jade is not connected"

  -- The entry of a name before and after `get_available` with a timeout, and its answer.
  pub data Transition (timeout : Option ℕ)
      : AppSigner dev → AppSigner dev → Result Error (AnySigner dev) → Type 0 where
    in_software :
        (sw : dev.SwSigner) (p : Bool)
        → Transition timeout
            (record { inner = available_signer (software sw); persist = p })
            (record { inner = available_signer (software sw); persist = p })
            (ok (software sw))
    refuses :
        (f : Bytes) (p : Bool)
        → Transition timeout
            (record { inner = external_signer f; persist = p })
            (record { inner = external_signer f; persist = p })
            (err no_external)
    no_serial :
        (id : Bytes) (network : Network) (p : Bool)
        → serial ≡ false
        → Transition timeout
            (record { inner = jade_id id network; persist = p })
            (record { inner = jade_id id network; persist = p })
            (err feat_serial_disabled)
    stays_away :
        (id : Bytes) (network : Network) (p : Bool)
        → serial ≡ true
        → from_serial_matching_id network id timeout ≡ none
        → Transition timeout
            (record { inner = jade_id id network; persist = p })
            (record { inner = jade_id id network; persist = p })
            (err not_connected)
    connects :
        (id : Bytes) (network : Network) (p : Bool) (j : dev.Jade)
        → serial ≡ true
        → from_serial_matching_id network id timeout ≡ some j
        → Transition timeout
            (record { inner = jade_id id network; persist = p })
            (record { inner = available_signer (jade_signer j id); persist = true })
            (ok (jade_signer j id))
    stays_connected :
        (id : Bytes) (p : Bool) (j : dev.Jade)
        → unlock j ≡ ok tt
        → Transition timeout
            (record { inner = available_signer (jade_signer j id); persist = p })
            (record { inner = available_signer (jade_signer j id); persist = p })
            (ok (jade_signer j id))
    disconnects :
        (id : Bytes) (p : Bool) (j : dev.Jade) (e : String)
        → unlock j ≡ err e
        → Transition timeout
            (record { inner = available_signer (jade_signer j id); persist = p })
            (record { inner = jade_id id (jade_network j); persist = true })
            (err not_connected)

  -- The entry of the name and the answer are as a transition says, and no other name is touched.
  pub record Settled (m : Signers dev) (name : String) (timeout : Option ℕ) (s : AppSigner dev)
      (out : Signers dev × Result Error (AnySigner dev)) : Type 0 where
    pub after : AppSigner dev
    pub holds : get out.0 name ≡ some after
    pub moved : Transition timeout s after out.1
    pub others : (j : String) → name ≢ j → get out.0 j ≡ get m j

  refused-Settled :
      (m : Signers dev) (name : String) (timeout : Option ℕ) (s : AppSigner dev) (e : Error)
      → get m name ≡ some s
      → Transition timeout s s (err e)
      → Settled m name timeout s (settle dev m name (err e))
  refused-Settled m name timeout s e hs move = record {
    after = s;
    holds = hs;
    moved = move;
    others = λ j ne. refl;
  }

  answered :
      (m : Signers dev) (name : String) (s : AppSigner dev)
      → get m name ≡ some s
      → (get_signer dev m name >>= answer dev) ≡ answer dev s
  unfolding get_signer
  answered m name s hs =
      ap (λ (o : Option (AppSigner dev)). ok_or o (signer_not_exist name) >>= answer dev) hs

  kept-Settled :
      (m : Signers dev) (name : String) (timeout : Option ℕ) (s : AppSigner dev)
      → get m name ≡ some s
      → Transition timeout s s (answer dev s)
      → Settled m name timeout s (settle dev m name (ok none))
  unfolding replace
  kept-Settled m name timeout s hs move = record {
    after = s;
    holds = hs;
    moved = subst (Transition timeout s s) (sym (answered m name s hs)) move;
    others = λ j ne. refl;
  }

  replaced-Settled :
      (m : Signers dev) (name : String) (timeout : Option ℕ) (s : AppSigner dev)
      (inner : AppSignerInner dev)
      → Transition timeout s
          (record { inner = inner; persist = true })
          (answer dev (record { inner = inner; persist = true }))
      → Settled m name timeout s (settle dev m name (ok (some inner)))
  unfolding replace
  replaced-Settled m name timeout s inner move =
      let next : AppSigner dev = record { inner = inner; persist = true } in
      let here = get-insert_same m name next in
      record {
        after = next;
        holds = here;
        moved =
            subst (Transition timeout s next) (sym (answered (insert m name next) name next here))
              move;
        others = λ j ne. get-insert_other m name j next ne;
      }

  serial-Settled :
      (m : Signers dev) (name : String) (timeout : Option ℕ) (id : Bytes) (network : Network)
      (p b : Bool) (o : Option (dev.Jade))
      → get m name ≡ some (record { inner = jade_id id network; persist = p })
      → serial ≡ b
      → from_serial_matching_id network id timeout ≡ o
      → Settled m name timeout
          (record { inner = jade_id id network; persist = p })
          (settle dev m name (if b then ok (connected dev id o) else err feat_serial_disabled))
  unfolding answer
  serial-Settled m name timeout id network p false o hs off found =
      refused-Settled m name timeout _ feat_serial_disabled hs (no_serial id network p off)
  serial-Settled m name timeout id network p true none hs on found =
      kept-Settled m name timeout _ hs (stays_away id network p on found)
  serial-Settled m name timeout id network p true (some j) hs on found =
      replaced-Settled m name timeout _ (available_signer (jade_signer j id))
        (connects id network p j on found)

  unlock-Settled :
      (m : Signers dev) (name : String) (timeout : Option ℕ) (j : dev.Jade) (id : Bytes) (p : Bool)
      (u : Result String (Unit {0}))
      → get m name ≡ some (record { inner = available_signer (jade_signer j id); persist = p })
      → unlock j ≡ u
      → Settled m name timeout
          (record { inner = available_signer (jade_signer j id); persist = p })
          (settle dev m name (ok (disconnected dev j id u)))
  unfolding answer
  unlock-Settled m name timeout j id p (ok done) hs h =
      kept-Settled m name timeout _ hs (stays_connected id p j h)
  unlock-Settled m name timeout j id p (err e) hs h =
      replaced-Settled m name timeout _ (jade_id id (jade_network j)) (disconnects id p j e h)

  replacement-Settled :
      (m : Signers dev) (name : String) (timeout : Option ℕ) (i : AppSignerInner dev) (p : Bool)
      → get m name ≡ some (record { inner = i; persist = p })
      → Settled m name timeout
          (record { inner = i; persist = p })
          (settle dev m name (replacement dev i timeout))
  unfolding replacement answer
  replacement-Settled m name timeout (jade_id id network) p hs =
      serial-Settled m name timeout id network p serial (from_serial_matching_id network id timeout)
        hs refl refl
  replacement-Settled m name timeout (available_signer (jade_signer j id)) p hs =
      unlock-Settled m name timeout j id p (unlock j) hs refl
  replacement-Settled m name timeout (available_signer (software sw)) p hs =
      kept-Settled m name timeout _ hs (in_software sw p)
  replacement-Settled m name timeout (external_signer f) p hs =
      kept-Settled m name timeout _ hs (refuses f p)

  -- For a loaded name the other names keep their entries. A software or external signer stays, a known Jade
  -- connects exactly where the serial port finds it, a connected one disconnects exactly where it does not
  -- unlock; a connection and a disconnection are persisted, and a signer is answered exactly where it is
  -- connected then or in software.
  pub get_available-Settled :
      (m : Signers dev) (name : String) (timeout : Option ℕ) (s : AppSigner dev)
      → get m name ≡ some s
      → Settled m name timeout s (get_available dev m name timeout)
  unfolding get_available get_signer
  get_available-Settled m name timeout s hs =
      let asked : (get_signer dev m name >>= λ s. replacement dev s.inner timeout)
          ≡ replacement dev s.inner timeout =
        ap
          (λ (o : Option (AppSigner dev)).
            ok_or o (signer_not_exist name) >>= λ s. replacement dev s.inner timeout)
          hs in
      subst (λ r. Settled m name timeout s (settle dev m name r)) (sym asked)
        (replacement-Settled m name timeout s.inner s.persist hs)
