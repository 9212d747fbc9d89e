-- ===== src/Pico/Sensors/Locating.antt =====
-- From the slots of the sensors' board to the locations of the controller
-- (sensors_pico/src/bin/sensors_pico.rs, loco_controller/src/backend.rs).
use locoloco.Common.{
  ℕ, ◌≤◌, ◌≡◌, sym, ap, ◌∙◌, Bool, true, List, [], ◌∷◌, ◌++◌, length, append-cancel, if◌then◌else◌,
  Bool-cases, inl, inr, arith,
}
use locoloco.Protocol.Operation
use locoloco.Wire.{Wire, Traffic, IsWire}
use locoloco.Backend.Types.{Backend}
use locoloco.Backend.State.{IsFull}
use locoloco.Backend.Sensors.{serve_round}
use locoloco.Backend.Reports.{IsRead, serve_round-IsRead}
use locoloco.Pico.Socket.{Socket, IsSocket}
use locoloco.Pico.Sensors.Types.{SensorsData}
use locoloco.Pico.Sensors.Updates.{update}
use locoloco.Pico.Sensors.Buffer.{sightings}
use locoloco.Pico.Sensors.Delivery.{frame, is_due, IsSent, update-due, update-not_due}

module _ {S : Type 0} (k : Socket S) (t : Traffic S) (network : IsSocket k t) where
  -- Under the laws of `IsSocket`, while writes succeed, with a buffer of 259 bytes and at most 8 slots:
  -- a round succeeds, empties the slots and keeps the size of the buffer. It sends the frame of the
  -- sightings, in the order of the slots, if there is a sighting or a second has passed, and nothing
  -- else.
  pub update-IsSent :
      (late : Bool) (socket : S) (message : List ℕ) (slots : SensorsData)
      → length message ≡ 259
      → length slots ≤ 8
      → ((s : S) (l : List ℕ) → (k.write_all s l).0 ≡ true)
      → IsSent k t network
          (if is_due late slots then frame slots else [])
          socket
          (update k late socket message slots)
  update-IsSent late socket [] slots size few writing = absurd (omega arith)
  update-IsSent late socket (a ∷ []) slots size few writing = absurd (omega arith)
  update-IsSent late socket (a ∷ b ∷ []) slots size few writing = absurd (omega arith)
  update-IsSent late socket (a ∷ b ∷ c ∷ []) slots size few writing = absurd (omega arith)
  update-IsSent late socket (a ∷ b ∷ c ∷ x ∷ rest) slots size few writing =
      elim (Bool-cases (is_due late slots)) [
        | inl due ↦
            rw due
              (update-due k t network late socket a b c x rest slots few (omega arith) due writing)
        | inr not_due ↦
            rw not_due
              (update-not_due k t network late socket a b c x rest slots few (omega arith) not_due)
      ]

-- the frame of the sightings, at the controller
pub frame_located :
    {C : Type 0} (w : Wire C) (c : Traffic C) (wired : IsWire w c) (slots : SensorsData)
    (rest : List ℕ) (stream : C) (b : Backend C)
    → IsFull b
    → c.incoming stream ≡ frame slots ++ rest
    → IsRead w c wired (sightings slots) rest b (serve_round w stream b)
unfolding Operation.into
frame_located w c wired slots rest stream b full e =
    serve_round-IsRead w c wired (sightings slots) _ rest stream b full e

-- Under the laws of `IsSocket` and `IsWire`, while the board's writes succeed, with a buffer of 259
-- bytes and at most 8 slots: take a round of the board with something to say, the bytes that it wrote
-- behind those written before, and a stream of the controller on which they arrive. If the backend has
-- an entry for each loco, one round of the controller reads exactly these bytes and succeeds, and each
-- loco is then where the last slot that names it says, or where it was if no slot names it.
pub sightings_located :
    {S C : Type 0} (k : Socket S) (t : Traffic S) (network : IsSocket k t) (w : Wire C)
    (c : Traffic C) (wired : IsWire w c) (late : Bool) (socket : S) (message : List ℕ)
    (slots : SensorsData) (written rest : List ℕ) (stream : C) (b : Backend C)
    → length message ≡ 259
    → length slots ≤ 8
    → ((s : S) (l : List ℕ) → (k.write_all s l).0 ≡ true)
    → is_due late slots ≡ true
    → t.sent (update k late socket message slots).1 ≡ t.sent socket ++ written
    → c.incoming stream ≡ written ++ rest
    → IsFull b
    → IsRead w c wired (sightings slots) rest b (serve_round w stream b)
sightings_located k t network w c wired late socket message slots written rest stream b size few
      writing due sent arrived full =
    let round = update-IsSent k t network late socket message slots size few writing in
    let all : (if is_due late slots then frame slots else []) ≡ frame slots =
      ap (λ d. if d then frame slots else []) due in
    let same : written ≡ frame slots =
      append-cancel (t.sent socket) (sym sent ∙ round.sent) ∙ all in
    frame_located w c wired slots rest stream b full (arrived ∙ ap (λ l. l ++ rest) same)
