-- ===== src/Operators/Interface.antt =====
-- ft_interface.hpp: what a compute thread and the recovery code call on an operator. A virtual
-- method that changes the operator returns the new one. A `double` divergence is an integer that
-- `to_double` has rounded: every operator that the library compiles counts in an integral V. A threshold
-- is an integer.
use af_stream.Prelude.Int.{ℤ}
use af_stream.Fault.Item.{BackupData}

pub record FtInterface (S : Type 0) : Type 0 where
  pub calculate_divergence : S → ℤ
  pub get_divergence_thresh : S → ℤ
  -- the operator after the call, and the buffer that it filled
  pub serialize_state : S → BackupData → S × BackupData
  pub recovery_state : S → BackupData → S
  pub clear : S → S
