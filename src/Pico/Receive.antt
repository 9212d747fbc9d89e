-- ===== src/Pico/Receive.antt =====
-- How a board receives one message: the header, its checks, and the payload. The two boards that
-- receive have the same steps, each with an error type of its own
-- (loco_pico/src/bin/loco_pico.rs, actuators_pico/src/bin/actuators_pico.rs).
pub mod Frames
pub mod Limits
use locoloco.Common.{
  ℕ, Bool, not, Option, none, some, List, [], ◌∷◌, Result, ok, err, panic, map_err, nat_eq, leb,
  if◌then◌else◌,
}
use locoloco.Protocol.Types as ProtocolTypes
use locoloco.Protocol.Types.{Header, Operation, backend_protocol_magic_number}
use locoloco.Protocol.Operation
use locoloco.Pico.Sizes.{header_size, payload_max_size}
use locoloco.Pico.Socket.{Socket}

-- The errors of receiving, in the board's error type.
pub record Reasons (E : Type 0) : Type 0 where
  pub tcp_read : E
  pub decode_from_slice : E
  pub invalid_backend_protocol_magic_number : ℕ → E
  pub convert_loco_protocol_type : ProtocolTypes.Error → E

module _ {E : Type 0} (reasons : Reasons E) where
  -- the checks on a decoded header
  unfoldable pub check_header : Header → Result E Operation
  unfolding Operation.try_from
  check_header header =
      if not (nat_eq header.magic backend_protocol_magic_number)
      then err (reasons.invalid_backend_protocol_magic_number header.magic)
      else map_err reasons.convert_loco_protocol_type (Operation.try_from header.operation)

  module _ {S : Type 0} (k : Socket S) where
    -- The slice of the buffer with the payload; it panics where the buffer is shorter. An empty
    -- payload is not read.
    unfoldable pub receive_payload : Operation → ℕ → S → Result E (Operation × List ℕ) × S
    receive_payload op payload_len socket =
        if not (leb payload_len payload_max_size)
        then (panic, socket)
        else if nat_eq payload_len 0
        then (ok (op, []), socket)
        else let (payload, socket') = k.read_exact socket payload_len in
          (elim payload [ some bytes ↦ ok (op, bytes) | none ↦ err reasons.tcp_read ], socket')

    -- with the checked header
    unfoldable pub receive_behind : Result E Operation → ℕ → S → Result E (Operation × List ℕ) × S
    unfolding receive_payload
    receive_behind (ok op) payload_len socket = receive_payload op payload_len socket
    receive_behind (err e) payload_len socket = (err e, socket)
    receive_behind panic payload_len socket = (panic, socket)

    -- with the bytes of the header
    unfoldable pub receive_header : Option (List ℕ) → S → Result E (Operation × List ℕ) × S
    unfolding check_header receive_behind
    receive_header none socket = (err reasons.tcp_read, socket)
    receive_header (some hdr) socket = elim (k.header.decode_from_slice hdr) [
      | none ↦ (err reasons.decode_from_slice, socket)
      | some header ↦ receive_behind (check_header header) header.payload_len socket
    ]

    unfoldable pub receive : S → Result E (Operation × List ℕ) × S
    unfolding receive_header
    receive socket =
        let (hdr, socket') = k.read_exact socket header_size in receive_header hdr socket'
