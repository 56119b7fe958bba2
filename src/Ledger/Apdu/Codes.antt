-- ===== src/Ledger/Apdu/Codes.antt =====
-- About the codes and the framing of apdu.rs, read back.
use satsails_lwk.Common.{
  ℕ, ◌%◌, ◌^◌, ◌<◌, ◌≡◌, ◌≢◌, ◌↔◌, Option, none, some, [], ◌∷◌, length, take, drop, take_all,
  drop_all, nat_eq, arith,
}
use satsails_lwk.Ledger.Merkle.{Bytes}
use satsails_lwk.Ledger.Apdu.{
  ClientCommandCode, client_code, client_try_from, StatusWord, unknown, status_code,
  status_try_from, ApduCommand, encode,
}

-- `try_from` accepts exactly the codes of the client commands, and gives the command back.
pub client_try_from_iff :
    (v : ℕ) (c : ClientCommandCode) → (client_try_from v ≡ some c) ↔ (v ≡ client_code c)
unfolding client_try_from client_code
client_try_from_iff v ClientCommandCode.yield = ground arith
client_try_from_iff v _ = ground arith

-- `try_from` accepts exactly the codes of the status words other than `Unknown`.
pub status_try_from_iff :
    (v : ℕ) (s : StatusWord) → (status_try_from v ≡ some s) ↔ ((v ≡ status_code s) × (s ≢ unknown))
unfolding status_try_from status_code
status_try_from_iff v StatusWord.deny = ground arith
status_try_from_iff v _ = ground arith

-- The device's reading of a frame: the header, and as many bytes as the length byte says.
abbrev pub decode : Bytes → Option (ApduCommand × Bytes)
decode (cla ∷ ins ∷ p1 ∷ p2 ∷ len ∷ rest) =
    some (record { cla = cla; ins = ins; p1 = p1; p2 = p2; payload = take len rest }, drop len rest)
decode _ = none

-- A command of at most 255 bytes of data is read back whole, with nothing left over.
pub decode-encode : (c : ApduCommand) → length c.payload < 256 → decode (encode c) ≡ some (c, [])
unfolding encode
decode-encode c h =
    let n : length c.payload % 2 ^ 8 ≡ length c.payload = omega arith in
    rw (
      n,
      take_all (length c.payload) c.payload (omega arith),
      drop_all (length c.payload) c.payload (omega arith),
    )
