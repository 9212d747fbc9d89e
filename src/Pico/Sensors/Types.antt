-- ===== src/Pico/Sensors/Types.antt =====
-- The data of sensors_pico/src/bin/sensors_pico.rs. `D` is the type of a tag reader, which the mfrc522
-- driver reads.
use locoloco.Common.{ℕ, Option, none, List, [], ◌∷◌}
use locoloco.Protocol.Types.{LocoId, SensorId}

pub data Error : Type 0 where
  encode_into_slice : Error
  invalid_encoded_header_size : ℕ → Error
  payload_size_too_large tcp_write : Error

pub record SensorData : Type 0 where
  pub loco_id : LocoId
  pub sensor_id : SensorId

-- `SENSORS_DATA`: a slot for each reader, under a mutex.
abbrev pub SensorsData : Type 0
SensorsData = List (Option SensorData)

abbrev pub no_data : SensorsData
no_data = none ∷ none ∷ none ∷ none ∷ none ∷ none ∷ none ∷ none ∷ []

-- What `select` finds: a tag of four bytes, a tag of another size, or an error.
pub data Selected : Type 0 where
  single : List ℕ → Selected
  other_size failed : Selected

-- What the firmware uses of a reader: it wakes up a tag, if there is one, selects it, and sends it to
-- sleep.
pub record Mfrc522 (D Atqa : Type 0) : Type 0 where
  pub wupa : D → Option Atqa × D
  pub select : D → Atqa → Selected × D
  pub hlta : D → D

pub record RfidReader (D : Type 0) : Type 0 where
  pub mfrc522 : D
  pub sensor_id : SensorId
  pub sensor_data_idx : ℕ
