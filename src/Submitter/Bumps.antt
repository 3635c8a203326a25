-- ===== src/Submitter/Bumps.antt =====
-- The base fee of the fee bumps that the engine builds (engine.go, `buildFeeBump` and `bumpFee`).
use tx_submitter.World.{World}
