-- ===== src/Backend/Delivery.antt =====
-- What the controller puts on the wire, and what a command or a connection changes.
use locoloco.Common.{
  ℕ, ◌≡◌, refl, sym, ap, ◌∙◌, true, none, some, List, [], ◌∷◌, ◌++◌, ok, get, insert, get-insert,
  ◌==◌, arith, if◌then◌else◌,
}
use locoloco.Protocol.Types.{
  LocoStatusResponse, LocoId, Direction, Speed, ActuatorId, ActuatorType, loco_id_eq,
}
use locoloco.Protocol.Direction
use locoloco.Protocol.Speed
use locoloco.Protocol.Speed.{IsReadable}
use locoloco.Protocol.ActuatorId
use locoloco.Protocol.ActuatorType
use locoloco.Wire.{Wire, Traffic, IsWire}
use locoloco.Backend.Types.{LocoInfo, Backend}
use locoloco.Backend.State.{with_loco_info}
use locoloco.Backend.Frames.{control_loco_message, loco_status_message, drive_actuator_message}
use locoloco.Backend.Locos.{status_of, send, control_loco}
use locoloco.Backend.Totality.{with_loco_info_lem}

-- What was written to a loco's stream.
abbrev pub sent_to : {S : Type 0} → Traffic S → Backend S → LocoId → List ℕ
sent_to t b id = elim (get b.loco_info id) [
  | some info ↦ elim info.stream [ some stream ↦ t.sent stream | none ↦ [] ]
  | none ↦ []
]

module _ {S : Type 0} (w : Wire S) (t : Traffic S) (lawful : IsWire w t) where
  -- Under the laws of `IsWire`, the three requests as bytes: the magic number, the code of the operation, the length of the
  -- payload, and the payload.
  pub requests :
      (d : Direction) (s : Speed) (i : ActuatorId) (k : ActuatorType) (state : ℕ)
      → (control_loco_message w d s ≡ ok (0xab ∷ 2 ∷ 2 ∷ Direction.into d ∷ Speed.into s ∷ []))
        × (loco_status_message w ≡ ok (0xab ∷ 3 ∷ 0 ∷ []))
        × (drive_actuator_message w i k state
            ≡ ok (0xab ∷ 5 ∷ 3 ∷ ActuatorId.into i ∷ ActuatorType.into k ∷ state ∷ []))
  unfolding control_loco_message loco_status_message drive_actuator_message
  requests d s i k state = (
    rw (lawful.control_loco_codec.encodes, lawful.header_codec.encodes),
    rw lawful.header_codec.encodes,
    rw (lawful.drive_actuator_codec.encodes, lawful.header_codec.encodes),
  )

  pub control_loco-eq :
      (b : Backend S) (id : LocoId) (d : Direction) (s : Speed)
      → control_loco w id d s b
        ≡ with_loco_info id (send w id (0xab ∷ 2 ∷ 2 ∷ Direction.into d ∷ Speed.into s ∷ [])) b
  unfolding control_loco
  control_loco-eq b id d s =
      rw (lawful.control_loco_codec.encodes, lawful.header_codec.encodes, control_loco)

  pub send-written :
      (id : LocoId) (m : List ℕ) (info : LocoInfo S) (stream : S)
      → info.stream ≡ some stream
      → (w.write_all stream m).0 ≡ true
      → send w id m info ≡ (ok tt, record info { stream = some (w.write_all stream m).1 })
  unfolding send
  send-written id m info stream f g = ground arith

  -- with the frame written, the streams are those of the entries, with one replaced
  pub sent_to-insert :
      (b : Backend S) (id j : LocoId) (info : LocoInfo S) (stream : S)
      → sent_to t
          (record b { loco_info = insert id (record info { stream = some stream }) b.loco_info })
          j
        ≡ (if id == j then t.sent stream else sent_to t b j)
  sent_to-insert b id j info stream =
      ground (arith, get-insert id j (record info { stream = some stream }) b.loco_info)

  -- Under the laws of `IsWire`: if a loco is connected and its stream takes the frame, `control_loco` succeeds: the frame is
  -- written behind what was written to that loco, and nothing is written to the other.
  control_loco_delivers :
      (b : Backend S) (id : LocoId) (d : Direction) (s : Speed) (info : LocoInfo S) (stream : S)
      → get b.loco_info id ≡ some info
      → info.stream ≡ some stream
      → (w.write_all stream (0xab ∷ 2 ∷ 2 ∷ Direction.into d ∷ Speed.into s ∷ [])).0 ≡ true
      → ((control_loco w id d s b).0 ≡ ok tt)
        × ((j : LocoId)
            → sent_to t (control_loco w id d s b).1 j ≡ (
                if id == j
                then sent_to t b id ++ 0xab ∷ 2 ∷ 2 ∷ Direction.into d ∷ Speed.into s ∷ []
                else sent_to t b j))
  control_loco_delivers b id d s info stream e f g =
      let m : List ℕ = 0xab ∷ 2 ∷ 2 ∷ Direction.into d ∷ Speed.into s ∷ [] in
      let stored = with_loco_info_lem id (send w id m) b info e in
      let done = send-written id m info stream f g in
      let whole = control_loco-eq b id d s ∙ stored in
      let sent : sent_to t b id ≡ t.sent stream = ground arith in
      let written = (lawful.writes stream m g).0 ∙ ap (λ l. l ++ m) (sym sent) in
      (
        ap (λ p. p.0) whole ∙ ap (λ p. p.0) done,
        λ j.
            ap (λ p. sent_to t p.1 j) whole
            ∙ ap (λ p. sent_to t (record b { loco_info = insert id p.1 b.loco_info }) j) done
            ∙ sent_to-insert b id j info (w.write_all stream m).1
            ∙ ap (λ l. if id == j then l else sent_to t b j) written,
      )

  -- an answer that can be read back
  pub status_of-eq :
      (d : Direction) (s : Speed) (info : LocoInfo S) (stream : S) (more : List ℕ)
      → IsReadable s
      → t.incoming stream ≡ Direction.into d ∷ Speed.into s ∷ more
      → status_of info (w.loco_status_response.decode_from_std_read stream).0
        ≡ ok (record { direction = d; speed = s; location = info.location; intent = info.intent })
  unfolding status_of
  status_of-eq d s info stream more h e =
      let resp : LocoStatusResponse = record {
        direction = Direction.into d;
        speed = Speed.into s;
      } in
      let read = (lawful.loco_status_codec.reads stream resp more e).0 in
      rw (read, status_of, Direction.into-IsCode.from_into d, (Speed.try_from-into_iff s).1 h) refl
