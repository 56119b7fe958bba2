-- ===== src/Tests/Recipients.antt =====
-- model.rs and the builder of lwk_wollet.
use satsails_lwk.Common.{ℕ, [], ◌∷◌, List, none, some, ok, All, ◌≡◌, refl}
use satsails_lwk.Wollet.{external, hardened, normal}
use satsails_lwk.Wollet.TxBuilder.{Recipient}
use satsails_lwk.Wollet.Recipients.{
  Addresses, UnvalidatedRecipient, burn, lbtc, new_builder, validate, validate_asset,
  validate_address, add_unvalidated_recipient, add_unvalidated_recipients,
  set_unvalidated_recipients,
}
use satsails_lwk.Wollet.Recipients.Valid.{
  Sendable, with_recipients, set_unvalidated_recipients-Sendable,
}
use satsails_lwk.Tests.Spending.{fixed_fee, output}

-- Every text is the confidential address 9 and the asset 1.
abbrev pub shop : Addresses fixed_fee
shop = record {
  Address = ℕ;
  Network = ℕ;
  Contract = ℕ;
  policy_asset = λ network. 1;
  parse_with_params = λ network text. ok 9;
  address_to_string = λ address. "lq9";
  address_script = λ address. (external, normal address);
  blinding_pubkey = λ address. some 33;
  parse_asset = λ text. ok 1;
  asset_to_string = λ asset. "01";
  default_rate = 100;
}

abbrev orders : List UnvalidatedRecipient
orders = burn "01" 3 ∷ lbtc "lq9" 2000 ∷ []

abbrev sold : List (Recipient fixed_fee)
sold =
    record {
      satoshi = 3;
      script_pubkey = (external, hardened 0);
      blinding_pubkey = none;
      asset = 1;
    }
    ∷ record {
      satoshi = 2000;
      script_pubkey = (external, normal 9);
      blinding_pubkey = some 33;
      asset = 1;
    }
    ∷ []

orders_set :
    set_unvalidated_recipients shop
      (with_recipients shop (new_builder shop 0) (output 7 ∷ []))
      orders
    ≡ ok (with_recipients shop (new_builder shop 0) sold)
unfolding set_unvalidated_recipients add_unvalidated_recipients add_unvalidated_recipient validate
    validate_asset validate_address
orders_set = refl

set_unvalidated_recipients-Sendable_example : All (Sendable shop) sold
set_unvalidated_recipients-Sendable_example =
    set_unvalidated_recipients-Sendable shop
      (with_recipients shop (new_builder shop 0) (output 7 ∷ [])) orders
      (with_recipients shop (new_builder shop 0) sold) orders_set
