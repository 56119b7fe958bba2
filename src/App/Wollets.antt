-- ===== src/App/Wollets.antt =====
-- lwk_app/src/state.rs: `Wollets`, the wallets that are loaded by name. The wallet of lwk_wollet is
-- the parameter `Wallets`.
use Prim.Native.String.{String}
use satsails_lwk.Common.{Result, ok_or, PartialEq}
use satsails_lwk.Common.HashMap.{HashMap, get, remove as map_remove}
use satsails_lwk.App.Error.{Error, string_eq, wollet, wallet_not_exist, wallet_already_loaded}
use satsails_lwk.App.Signer.{wrap}
use satsails_lwk.App.Checked.{insert_checked}
use satsails_lwk.App.Checked.Laws.{
  IsValid, Outcome, insert_checked-IsValid, insert_checked-Outcome,
  remove-IsValid as removal-IsValid,
}

pub record Wallets : Type 1 where
  pub Wollet : Type 0
  pub Address : Type 0
  pub address_eq : PartialEq Address
  -- `w.address(Some(0))`
  pub first_address : Wollet → Result String Address
  pub descriptor : Wollet → String

module _ (ws : Wallets) where
  open ws use {Wollet, Address, address_eq, first_address}

  unfoldable pub first_addr : Wollet → Result Error Address
  first_addr w = wrap wollet (first_address w)

  abbrev pub Wollets : Type 0
  Wollets = HashMap String Wollet

  unfoldable pub get_wollet : Wollets → String → Result Error Wollet
  get_wollet m name = ok_or (get m name) (wallet_not_exist name)

  unfoldable pub insert : Wollets → String → Wollet → Wollets × Result Error (Unit {0})
  insert = insert_checked ⦃eqx = address_eq⦄ first_addr wallet_already_loaded

  unfoldable pub remove : Wollets → String → Wollets × Result Error Wollet
  remove m name = let (m', old) = map_remove m name in (m', ok_or old (wallet_not_exist name))

  pub insert-IsValid :
      (m : Wollets) (name : String) (w : Wollet)
      → IsValid ⦃eqx = address_eq⦄ first_addr m
      → IsValid ⦃eqx = address_eq⦄ first_addr (insert m name w).0
  unfolding insert
  insert-IsValid m name w v =
      insert_checked-IsValid ⦃eqx = address_eq⦄ first_addr wallet_already_loaded m name w v

  pub insert-Outcome :
      (m : Wollets) (name : String) (w : Wollet)
      → IsValid ⦃eqx = address_eq⦄ first_addr m
      → Outcome ⦃eqx = address_eq⦄ first_addr wallet_already_loaded m name w (insert m name w)
  unfolding insert
  insert-Outcome m name w v =
      insert_checked-Outcome ⦃eqx = address_eq⦄ first_addr wallet_already_loaded m name w v.distinct

  pub remove-IsValid :
      (m : Wollets) (name : String)
      → IsValid ⦃eqx = address_eq⦄ first_addr m
      → IsValid ⦃eqx = address_eq⦄ first_addr (remove m name).0
  unfolding remove
  remove-IsValid m name v = removal-IsValid ⦃eqx = address_eq⦄ first_addr m name v
