-- ===== src/Secs2/Message.antt =====
-- A SECS-II message (include/ssim/secsgem/secs2/message.hpp).
use semiconductor_metrology.Base.{ℕ, Bool, Option}
use semiconductor_metrology.Secs2.Item.{Item}

pub record Message : Type 0 where
  pub stream : ℕ
  pub function : ℕ
  pub w_bit : Bool
  pub body : Option Item
