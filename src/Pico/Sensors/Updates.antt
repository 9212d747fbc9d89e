-- ===== src/Pico/Sensors/Updates.antt =====
-- `Sensors` of sensors_pico/src/bin/sensors_pico.rs: the frame of the sightings in its buffer, and one
-- round of `handle_sensors_updates`.
use locoloco.Common.{
  ℕ, ◌+◌, ◌-◌, Bool, not, ◌||◌, none, some, List, [], ◌∷◌, ◌++◌, length, map, take, drop, Result,
  ok, err, panic, ◌>>=◌, nat_eq, ltb, if◌then◌else◌,
}
use locoloco.Protocol.Types.{sensors_status, backend_protocol_magic_number}
use locoloco.Protocol.LocoId
use locoloco.Protocol.SensorId
use locoloco.Protocol.Operation
use locoloco.Pico.Sizes.{header_size}
use locoloco.Pico.Socket.{Socket}
use locoloco.Pico.Sensors.Types.{
  Error, encode_into_slice, invalid_encoded_header_size, payload_size_too_large, tcp_write,
  SensorsData,
}

-- The bytes written over the buffer at an offset.
unfoldable pub write_at : ℕ → List ℕ → List ℕ → List ℕ
write_at offset bytes buffer = take offset buffer ++ (bytes ++ drop (offset + length bytes) buffer)

-- `take()` on every slot
unfoldable pub cleared : SensorsData → SensorsData
cleared slots = map (λ _. none) slots

module _ {S : Type 0} (k : Socket S) where
  -- The loop over the slots: the number of sightings, the offset in the payload, and the message,
  -- whose payload stands behind the header. An encoding that does not fit panics.
  unfoldable pub fill : SensorsData → (updated offset : ℕ) → List ℕ → Result Error (ℕ × ℕ × List ℕ)
  unfolding SensorId.into LocoId.into write_at
  fill [] updated offset message = ok (updated, offset, message)
  fill (none ∷ rest) updated offset message = fill rest updated offset message
  fill (some d ∷ rest) updated offset message =
      let encoded =
        k.sensor_status.encode_into_slice
          (record { sensor_id = SensorId.into d.sensor_id; loco_id = LocoId.into d.loco_id })
          (length message - (header_size + offset)) in
      elim encoded [
        | none ↦ panic
        | some bytes ↦
            fill rest (updated + 1) (offset + length bytes)
              (write_at (header_size + offset) bytes message)
      ]

  -- `extend_payload_with_sensor_status_list`: behind the length, which is one byte
  unfoldable pub extend_with_list : SensorsData → List ℕ → Result Error (ℕ × ℕ × List ℕ)
  unfolding fill
  extend_with_list slots message = fill slots 0 1 message >>= λ (f : ℕ × ℕ × List ℕ).
      if ltb f.1 256 then ok f else err payload_size_too_large

  -- `extend_payload_with_sensors_status_array`
  unfoldable pub extend_with_array : ℕ → List ℕ → Result Error (List ℕ)
  unfolding write_at
  extend_with_array updated message =
      elim (k.sensors_status_array.encode_into_slice (record { len = updated })
        (length message - header_size)) [
          | none ↦ err encode_into_slice
          | some bytes ↦ ok (write_at header_size bytes message)
        ]

  -- the message with its header
  unfoldable pub with_header : ℕ → List ℕ → Result Error (List ℕ)
  unfolding Operation.into write_at
  with_header payload_len message =
      let encoded =
        k.header.encode_into_slice
          (record {
            magic = backend_protocol_magic_number;
            operation = Operation.into sensors_status;
            payload_len = payload_len;
          })
          header_size in
      elim encoded [
        | none ↦ err encode_into_slice
        | some bytes ↦
            if not (nat_eq (length bytes) header_size)
            then err (invalid_encoded_header_size (length bytes))
            else ok (write_at 0 bytes message)
      ]

  -- `send_sensors_status_op`, with the message as it is left
  unfoldable pub send_sensors_status_op : S → List ℕ → ℕ → Result Error (Unit {0}) × S × List ℕ
  unfolding with_header
  send_sensors_status_op socket message payload_len = elim (with_header payload_len message) [
    | err e ↦ (err e, socket, message)
    | panic ↦ (panic, socket, message)
    | ok message' ↦
        let (done, socket') = k.write_all socket (take (header_size + payload_len) message') in
        (if done then ok tt else err tcp_write, socket', message')
  ]

  -- with the length written, or the error of that
  unfoldable pub send_with_array :
      Result Error (List ℕ) → ℕ → S → List ℕ → Result Error (Unit {0}) × S × List ℕ
  unfolding send_sensors_status_op
  send_with_array (ok message') payload_len socket message =
      send_sensors_status_op socket message' payload_len
  send_with_array (err e) payload_len socket message = (err e, socket, message)
  send_with_array panic payload_len socket message = (panic, socket, message)

  -- with the filled message; nothing is sent if there is no sighting and the last frame is not older
  -- than a second
  unfoldable pub send_filled :
      Bool → Result Error (ℕ × ℕ × List ℕ) → S → List ℕ → Result Error (Unit {0}) × S × List ℕ
  unfolding extend_with_array send_with_array
  send_filled late (ok (updated, payload_len, message')) socket message =
      if ltb 0 updated || late
      then send_with_array (extend_with_array updated message') payload_len socket message'
      else (ok tt, socket, message')
  send_filled late (err e) socket message = (err e, socket, message)
  send_filled late panic socket message = (panic, socket, message)

  -- One round of the loop of `handle_sensors_updates`; `late` tells whether more than a second has
  -- passed since the last frame. The slots are empty behind it.
  unfoldable pub update :
      Bool → S → List ℕ → SensorsData → Result Error (Unit {0}) × S × List ℕ × SensorsData
  unfolding extend_with_list send_filled cleared
  update late socket message slots =
      let (r, socket', message') =
        send_filled late (extend_with_list slots message) socket message in
      (r, socket', message', cleared slots)
