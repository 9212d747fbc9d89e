-- ===== src/Pico/Actuators/Types.antt =====
-- The data of actuators_pico/src/bin/actuators_pico.rs. `G` is the type of a GPIO output, which
-- embassy drives.
use locoloco.Common.{ℕ, ◌≡◌, List}
use locoloco.Protocol.Types as ProtocolTypes
use locoloco.Protocol.Types.{ActuatorId, Operation}

pub data Error : Type 0 where
  convert_loco_protocol_type : ProtocolTypes.Error → Error
  decode_from_slice : Error
  invalid_backend_protocol_magic_number : ℕ → Error
  tcp_read : Error
  unsupported_operation : Operation → Error

-- embassy's `Level`
pub data Level : Type 0 where
  low high : Level

-- What the firmware uses of an output, which cannot fail.
pub record Output (G : Type 0) : Type 0 where
  pub set_level : G → Level → G

-- Its documented behaviour: the level is what was set last.
pub record IsOutput {G : Type 0} (o : Output G) (level : G → Level) : Type 0 where
  pub set : (g : G) (l : Level) → level (o.set_level g l) ≡ l

pub record SwitchRails (G : Type 0) : Type 0 where
  pub gpio : G
  pub id : ActuatorId

-- The eight switches, in the order of the array.
pub record Actuators (G : Type 0) : Type 0 where
  pub switch_rails : List (SwitchRails G)
