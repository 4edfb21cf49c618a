-- ===== src/Proto/Message.antt =====
-- Message of v2/proto/messages.go, the entry of a message set.
use kafka_api.Common.{ℕ, Option, List}
use kafka_api.Common.Int.{ℤ}

-- a nil key or value is `none`
pub record Message : Type 0 where
  pub key : Option (List ℕ)
  pub value : Option (List ℕ)
  pub offset : ℤ
  pub crc : ℕ
  pub topic : List ℕ
  pub partition : ℤ
  pub tip_offset : ℤ
