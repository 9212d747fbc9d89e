-- ===== src/Wire.antt =====
-- What the controller uses of bincode and of TCP streams, which are not part of the repository: an
-- interface with the behaviour that they document.
use locoloco.Common.{ℕ, ◌<◌, ◌≡◌, Bool, true, Option, none, some, List, [], ◌∷◌, ◌++◌, length}
use locoloco.Protocol.Types.{
  Header, ConnectPayload, ControlLocoPayload, SensorsStatusArray, SensorStatus, LocoStatusResponse,
  DriveActuatorPayload,
}

-- `encode_to_vec` and `decode_from_std_read` at one type of message, under the legacy configuration.
-- `none` is an error.
pub record Codec (S A : Type 0) : Type 0 where
  pub encode_to_vec : A → Option (List ℕ)
  pub decode_from_std_read : S → Option A × S

-- A stream `S` with `write_all`, whose result is false on an error, and the codecs of the messages.
pub record Wire (S : Type 0) : Type 0 where
  pub write_all : S → List ℕ → Bool × S
  pub header : Codec S Header
  pub connect_payload : Codec S ConnectPayload
  pub control_loco_payload : Codec S ControlLocoPayload
  pub sensors_status_array : Codec S SensorsStatusArray
  pub sensor_status : Codec S SensorStatus
  pub loco_status_response : Codec S LocoStatusResponse
  pub drive_actuator_payload : Codec S DriveActuatorPayload

-- The format of a message of u8 fields: a byte for each, in the order of the declaration.
abbrev pub header_bytes : Header → List ℕ
header_bytes h = h.magic ∷ h.operation ∷ h.payload_len ∷ []

abbrev pub connect_bytes : ConnectPayload → List ℕ
connect_bytes p = p.loco_id ∷ []

abbrev pub control_loco_bytes : ControlLocoPayload → List ℕ
control_loco_bytes p = p.direction ∷ p.speed ∷ []

abbrev pub array_bytes : SensorsStatusArray → List ℕ
array_bytes a = a.len ∷ []

abbrev pub sensor_status_bytes : SensorStatus → List ℕ
sensor_status_bytes s = s.sensor_id ∷ s.loco_id ∷ []

abbrev pub loco_status_bytes : LocoStatusResponse → List ℕ
loco_status_bytes r = r.direction ∷ r.speed ∷ []

abbrev pub drive_actuator_bytes : DriveActuatorPayload → List ℕ
drive_actuator_bytes p = p.actuator_id ∷ p.actuator_type ∷ p.actuator_state ∷ []

-- What a stream still delivers, and what was written to it.
pub record Traffic (S : Type 0) : Type 0 where
  pub incoming : S → List ℕ
  pub sent : S → List ℕ

-- A codec that writes and reads `bytes`. A read takes the message off the front and writes nothing;
-- where the stream delivers less than `size` bytes, it fails.
pub record IsCodec {S A : Type 0} (t : Traffic S) (c : Codec S A) (size : ℕ) (bytes : A → List ℕ)
    : Type 0 where
  pub encodes : (a : A) → c.encode_to_vec a ≡ some (bytes a)
  pub reads :
      (s : S) (a : A) (rest : List ℕ)
      → t.incoming s ≡ bytes a ++ rest
      → ((c.decode_from_std_read s).0 ≡ some a)
        × (t.incoming (c.decode_from_std_read s).1 ≡ rest)
        × (t.sent (c.decode_from_std_read s).1 ≡ t.sent s)
  pub short : (s : S) → length (t.incoming s) < size → (c.decode_from_std_read s).0 ≡ none

-- The documented behaviour of all of them.
pub record IsWire {S : Type 0} (w : Wire S) (t : Traffic S) : Type 0 where
  pub writes :
      (s : S) (message : List ℕ)
      → (w.write_all s message).0 ≡ true
      → (t.sent (w.write_all s message).1 ≡ t.sent s ++ message)
        × (t.incoming (w.write_all s message).1 ≡ t.incoming s)
  pub header_codec : IsCodec t w.header 3 header_bytes
  pub connect_codec : IsCodec t w.connect_payload 1 connect_bytes
  pub control_loco_codec : IsCodec t w.control_loco_payload 2 control_loco_bytes
  pub array_codec : IsCodec t w.sensors_status_array 1 array_bytes
  pub sensor_status_codec : IsCodec t w.sensor_status 2 sensor_status_bytes
  pub loco_status_codec : IsCodec t w.loco_status_response 2 loco_status_bytes
  pub drive_actuator_codec : IsCodec t w.drive_actuator_payload 3 drive_actuator_bytes
