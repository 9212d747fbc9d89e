-- ===== src/Pico/Socket.antt =====
-- What the firmware uses of bincode's slices and of embassy's TCP sockets, which are not part of the
-- repository: an interface with the behaviour that they document.
use locoloco.Common.{ℕ, ◌<◌, ◌≤◌, ◌≡◌, Bool, true, Option, none, some, List, ◌++◌, length}
use locoloco.Protocol.Types.{
  Header, ConnectPayload, ControlLocoPayload, SensorsStatusArray, SensorStatus, LocoStatusResponse,
  DriveActuatorPayload,
}
use locoloco.Wire.{
  Traffic, header_bytes, connect_bytes, control_loco_bytes, array_bytes, sensor_status_bytes,
  loco_status_bytes, drive_actuator_bytes,
}

-- `decode_from_slice`, without the size that it also returns, and `encode_into_slice` into a slice of
-- the given length: the bytes that it writes at the slice's start. `none` is an error.
pub record SliceCodec (A : Type 0) : Type 0 where
  pub decode_from_slice : List ℕ → Option A
  pub encode_into_slice : A → ℕ → Option (List ℕ)

-- A socket `S`, and the codecs of the messages. `read_exact` returns the bytes that fill a buffer of
-- the given length; the result of `write_all` is false on an error.
pub record Socket (S : Type 0) : Type 0 where
  pub read_exact : S → ℕ → Option (List ℕ) × S
  pub write_all : S → List ℕ → Bool × S
  pub header : SliceCodec Header
  pub connect_payload : SliceCodec ConnectPayload
  pub control_loco_payload : SliceCodec ControlLocoPayload
  pub sensors_status_array : SliceCodec SensorsStatusArray
  pub sensor_status : SliceCodec SensorStatus
  pub loco_status_response : SliceCodec LocoStatusResponse
  pub drive_actuator_payload : SliceCodec DriveActuatorPayload

-- A codec of messages of `size` bytes: it writes `bytes` where they fit, and reads them off the start.
pub record IsSliceCodec {A : Type 0} (c : SliceCodec A) (size : ℕ) (bytes : A → List ℕ)
    : Type 0 where
  pub encodes : (a : A) (room : ℕ) → size ≤ room → c.encode_into_slice a room ≡ some (bytes a)
  pub full : (a : A) (room : ℕ) → room < size → c.encode_into_slice a room ≡ none
  pub decodes : (a : A) (rest : List ℕ) → c.decode_from_slice (bytes a ++ rest) ≡ some a
  pub short : (l : List ℕ) → length l < size → c.decode_from_slice l ≡ none

-- The documented behaviour of all of them.
pub record IsSocket {S : Type 0} (k : Socket S) (t : Traffic S) : Type 0 where
  -- where the bytes arrive, they are read
  pub reads :
      (s : S) (m rest : List ℕ)
      → t.incoming s ≡ m ++ rest
      → ((k.read_exact s (length m)).0 ≡ some m)
        × (t.incoming (k.read_exact s (length m)).1 ≡ rest)
        × (t.sent (k.read_exact s (length m)).1 ≡ t.sent s)
  -- where the connection ends before, the read fails
  pub ends : (s : S) (n : ℕ) → length (t.incoming s) < n → (k.read_exact s n).0 ≡ none
  pub writes :
      (s : S) (m : List ℕ)
      → (k.write_all s m).0 ≡ true
      → (t.sent (k.write_all s m).1 ≡ t.sent s ++ m)
        × (t.incoming (k.write_all s m).1 ≡ t.incoming s)
  pub header_codec : IsSliceCodec k.header 3 header_bytes
  pub connect_codec : IsSliceCodec k.connect_payload 1 connect_bytes
  pub control_loco_codec : IsSliceCodec k.control_loco_payload 2 control_loco_bytes
  pub array_codec : IsSliceCodec k.sensors_status_array 1 array_bytes
  pub sensor_status_codec : IsSliceCodec k.sensor_status 2 sensor_status_bytes
  pub loco_status_codec : IsSliceCodec k.loco_status_response 2 loco_status_bytes
  pub drive_actuator_codec : IsSliceCodec k.drive_actuator_payload 3 drive_actuator_bytes
