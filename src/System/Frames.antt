-- ===== src/System/Frames.antt =====
-- The frames of the controller and of the boards (loco_controller/src/backend.rs,
-- loco_pico/src/bin/loco_pico.rs, sensors_pico/src/bin/sensors_pico.rs).
use locoloco.Common.{
  ℕ, ◌≤◌, ◌<◌, ◌≡◌, refl, Bool, true, none, some, List, [], ◌∷◌, ◌++◌, length, All, Result, ok,
  arith, if◌then◌else◌,
}
use locoloco.Protocol.Types.{
  Direction, Speed, ActuatorId, ActuatorType, Operation, connect, control_loco, loco_status,
  drive_actuator, sensors_status,
}
use locoloco.Protocol.LocoId
use locoloco.Protocol.SensorId
use locoloco.Protocol.Direction
use locoloco.Protocol.Speed
use locoloco.Protocol.ActuatorId
use locoloco.Protocol.ActuatorType
use locoloco.Protocol.Operation
use locoloco.Wire.{Wire, Traffic, IsWire}
use locoloco.Backend.Frames.{control_loco_message, loco_status_message, drive_actuator_message}
use locoloco.Backend.Delivery.{requests}
use locoloco.Backend.Reports.{Sighting, reports_bytes}
use locoloco.Pico.Socket.{Socket, IsSocket}
use locoloco.Pico.Receive.Limits.{IsByte}
use locoloco.Pico.Loco.Types.{PwmOutput}
use locoloco.Pico.Loco.Messages.{connect_message}
use locoloco.Pico.Loco.Connect.{connect_message-eq}
use locoloco.Pico.Sensors.Types.{SensorsData}
use locoloco.Pico.Sensors.Updates.{update}
use locoloco.Pico.Sensors.Buffer.{sightings}
use locoloco.Pico.Sensors.Delivery.{frame, is_due, length-reports}
use locoloco.Pico.Sensors.Locating.{update-IsSent}

-- A frame of the protocol: the magic number, the code of an operation, the length of the payload, and
-- the payload, all of them bytes.
pub record IsFrame (op : Operation) (m : List ℕ) : Type 0 where
  pub payload : List ℕ
  pub shape : m ≡ 0xab ∷ Operation.into op ∷ length payload ∷ payload
  pub bytes : All IsByte m

-- A frame is built, and it is one.
abbrev pub Builds : {E : Type 0} → Operation → Result E (List ℕ) → Type 0
Builds op result = (m : List ℕ) × (result ≡ ok m) × IsFrame op m

reports-bytes : (l : List Sighting) → All IsByte (reports_bytes l)
reports-bytes [] = tt
reports-bytes ((id, sensor) ∷ l) =
    (SensorId.into-IsCode.fits sensor, (LocoId.into-IsCode.fits id, reports-bytes l))

length-sightings : (slots : SensorsData) → length (sightings slots) ≤ length slots
length-sightings [] = omega arith
length-sightings (none ∷ slots) = omega (arith, length-sightings slots)
length-sightings (some d ∷ slots) = omega (arith, length-sightings slots)

frame-IsFrame : (slots : SensorsData) → length slots ≤ 8 → IsFrame sensors_status (frame slots)
unfolding Operation.into
frame-IsFrame slots h = record {
  payload = length (sightings slots) ∷ reports_bytes (sightings slots);
  shape = refl;
  bytes = (
    omega arith,
    (
      omega arith,
      (
        omega (arith, length-reports slots, h),
        (omega (arith, length-sightings slots, h), reports-bytes (sightings slots)),
      ),
    ),
  );
}

module _ {S T P : Type 0} (w : Wire S) (t : Traffic S) (wired : IsWire w t) (k : Socket T)
    (u : Traffic T) (network : IsSocket k u) (o : PwmOutput P) where
  -- Under the laws of `IsWire` and `IsSocket`, while the board's writes succeed, with a state below
  -- 256, a buffer of 259 bytes and at most 8 slots: the controller's two requests for a loco and
  -- its request for a switch, and the request with which a loco connects, are built, and so is what
  -- a round of the sensors' board sends, if it sends anything. Each is a frame: the magic number,
  -- the code of its operation, the length of its payload, and the payload, all of them bytes.
  pub frames-AreFrames :
      (d : Direction) (s : Speed) (i : ActuatorId) (kind : ActuatorType) (state : ℕ) (late : Bool)
      (socket : T) (message : List ℕ) (slots : SensorsData)
      → state < 256
      → length message ≡ 259
      → length slots ≤ 8
      → ((s : T) (l : List ℕ) → (k.write_all s l).0 ≡ true)
      → Builds control_loco (control_loco_message w d s)
        × Builds loco_status (loco_status_message w)
        × Builds drive_actuator (drive_actuator_message w i kind state)
        × Builds connect (connect_message k o)
        × (m : List ℕ) × IsFrame sensors_status m
        × (u.sent (update k late socket message slots).1
            ≡ u.sent socket ++ (if is_due late slots then m else []))
  unfolding Operation.into
  frames-AreFrames d s i kind state late socket message slots small size few writing =
      let (driving, asking, switching) = requests w t wired d s i kind state in
      (
        (
          0xab ∷ 2 ∷ 2 ∷ Direction.into d ∷ Speed.into s ∷ [],
          driving,
          record {
            payload = Direction.into d ∷ Speed.into s ∷ [];
            shape = refl;
            bytes = (
              omega arith,
              (omega arith, (omega arith, (Direction.into-IsCode.fits d, (Speed.into-lt s, tt)))),
            );
          },
        ),
        (
          0xab ∷ 3 ∷ 0 ∷ [],
          asking,
          record {
            payload = [];
            shape = refl;
            bytes = (omega arith, (omega arith, (omega arith, tt)));
          },
        ),
        (
          0xab ∷ 5 ∷ 3 ∷ ActuatorId.into i ∷ ActuatorType.into kind ∷ state ∷ [],
          switching,
          record {
            payload = ActuatorId.into i ∷ ActuatorType.into kind ∷ state ∷ [];
            shape = refl;
            bytes = (
              omega arith,
              (
                omega arith,
                (
                  omega arith,
                  (
                    ActuatorId.into-IsCode.fits i,
                    (ActuatorType.into-IsCode.fits kind, (small, tt)),
                  ),
                ),
              ),
            );
          },
        ),
        (
          0xab ∷ 1 ∷ 1 ∷ 1 ∷ [],
          connect_message-eq k u network o,
          record {
            payload = 1 ∷ [];
            shape = refl;
            bytes = (omega arith, (omega arith, (omega arith, (omega arith, tt))));
          },
        ),
        frame slots,
        frame-IsFrame slots few,
        (update-IsSent k u network late socket message slots size few writing).sent,
      )
