-- ===== src/Wire/Capabilities/Tests.antt =====
-- What two endpoints share (src/wire.rs), at work.
use quicp.Prelude.{◌≡◌, refl, true, false}
use quicp.Wire.Capabilities.{local, bit_and, supports_adaptive}

local_support : (supports_adaptive (local true) ≡ true) × (supports_adaptive (local false) ≡ false)
unfolding supports_adaptive local bit_and
local_support = (refl, refl)
