-- ===== src/Wollet/Issuance/Conserves.antt =====
-- That the transactions of `TxBuilder::finish`, in lwk_wollet/src/tx_builder.rs, neither make nor lose value.
use satsails_lwk.Wollet.TxBuilder.{TxBuilder}
