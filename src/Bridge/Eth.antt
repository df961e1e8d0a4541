-- ===== src/Bridge/Eth.antt =====
-- What the bridge takes from the packages eth_utils and eth_keys: parameters of the model. `from_wei` is
-- the text of an amount in ether; it raises a ValueError where the amount is out of range.
use trustlines_blockchain.Prelude.{ℕ, String, Bool, Result}
use trustlines_blockchain.Prelude.Int.{ℤ}
use trustlines_blockchain.Prelude.Classes.{Bytes}

pub record EthLib : Type 0 where
  pub keccak : Bytes → Bytes
  pub int_to_big_endian : ℕ → Bytes
  pub is_same_address : String → String → Bool
  pub from_wei : ℤ → Result String
