-- ===== src/Protocol/Codes.antt =====
-- The byte codes of the enums together, and the tags of the locos (loco_protocol/src/lib.rs).
use locoloco.Common.{ℕ, ◌≡◌, ◌↔◌, refl, true, List, [], ◌∷◌, ok, arith, sym, subst}
use locoloco.Protocol.Types.{
  LocoId, loco1, loco2, unknown_actuator_id, unknown_actuator_type, unknown_direction,
  unknown_loco_id, unknown_operation, unknown_sensor_id, unknown_switch_rails_state,
}
use locoloco.Protocol.IsCode.{IsCode}
use locoloco.Protocol.LocoId
use locoloco.Protocol.LocoId.{same_bytes, try_from_uid}
use locoloco.Protocol.SensorId
use locoloco.Protocol.ActuatorId
use locoloco.Protocol.ActuatorType
use locoloco.Protocol.SwitchRailsState
use locoloco.Protocol.Direction
use locoloco.Protocol.Operation

-- For each of the seven enums with a byte code: a value is read back from its code, an accepted byte
-- is the code of the value read, a byte that is no code is refused with that byte in the error, and
-- a code is below 256.
codes-IsCode :
    IsCode LocoId.into LocoId.try_from unknown_loco_id
    × IsCode SensorId.into SensorId.try_from unknown_sensor_id
    × IsCode ActuatorId.into ActuatorId.try_from unknown_actuator_id
    × IsCode ActuatorType.into ActuatorType.try_from unknown_actuator_type
    × IsCode SwitchRailsState.into SwitchRailsState.try_from unknown_switch_rails_state
    × IsCode Direction.into Direction.try_from unknown_direction
    × IsCode Operation.into Operation.try_from unknown_operation
codes-IsCode = (
  LocoId.into-IsCode, SensorId.into-IsCode, ActuatorId.into-IsCode, ActuatorType.into-IsCode,
  SwitchRailsState.into-IsCode, Direction.into-IsCode, Operation.into-IsCode,
)

-- the four bytes of a loco's tag
abbrev pub tag : LocoId → List ℕ
tag loco1 = 0xe3 ∷ 0xa6 ∷ 0xaf ∷ 0x05 ∷ []
tag loco2 = 0x69 ∷ 0xd0 ∷ 0x47 ∷ 0x06 ∷ []

same_bytes-eq : (xs ys : List ℕ) → same_bytes xs ys ≡ true → xs ≡ ys
unfolding same_bytes
same_bytes-eq [] [] h = refl
same_bytes-eq [] (y ∷ ys) h = cc
same_bytes-eq (x ∷ xs) [] h = cc
same_bytes-eq (x ∷ xs) (y ∷ ys) h = let ih = same_bytes-eq xs ys in ground arith

-- A tag is recognised as a loco exactly when its bytes are those of that loco.
try_from_uid_iff : (uid : List ℕ) (a : LocoId) → (try_from_uid uid ≡ ok a) ↔ (uid ≡ tag a)
unfolding try_from_uid
try_from_uid_iff uid loco1 = (
  λ h. same_bytes-eq uid (tag loco1) (ground arith),
  λ e. subst (λ u. try_from_uid u ≡ ok loco1) (sym e) refl,
)
try_from_uid_iff uid loco2 = (
  λ h. same_bytes-eq uid (tag loco2) (ground arith),
  λ e. subst (λ u. try_from_uid u ≡ ok loco2) (sym e) refl,
)
