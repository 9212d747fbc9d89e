-- ===== src/Examples/System.antt =====
-- A round of the oracle with two locos, and the boards behind the streams.
use locoloco.Common.{
  ℕ, ◌≡◌, refl, true, false, some, none, List, [], ◌∷◌, ◌++◌, get, length, if◌then◌else◌, arith,
}
use locoloco.Protocol.Types.{
  LocoId, loco1, loco2, forward, backward, normal, stop, rfid_reader1, rfid_reader3, switch_rails2,
  direct, diverted, switch_rails, Operation,
}
use locoloco.Protocol.ActuatorId
use locoloco.Protocol.ActuatorType
use locoloco.Protocol.SwitchRailsState
use locoloco.RailNetwork.Types.{TrackId}
use locoloco.Protocol.Direction
use locoloco.Protocol.Speed
use locoloco.RailNetwork.Tables.{new}
use locoloco.Backend.Types.{Backend, drive}
use locoloco.Backend.State.{loco_ids}
use locoloco.Oracle.Process.{init, process}
use locoloco.Pico.Loco.Messages as LocoMessages
use locoloco.Pico.Replay.{all_bytes}
use locoloco.Pico.Loco.Requests as Requests
use locoloco.Pico.Sensors.Types.{SensorsData}
use locoloco.Pico.Sensors.Updates.{update}
use locoloco.Pico.Sensors.Delivery.{is_due}
use locoloco.Backend.Frames.{control_loco_message, loco_status_message, drive_actuator_message}
use locoloco.System.Frames.{IsFrame, Builds, frames-AreFrames}
use locoloco.Pico.Actuators.Messages as ActuatorsMessages
use locoloco.Pico.Actuators.Replay.{bytes_of, IsDriven, handle_messages-IsDriven}
use locoloco.System.Links.{Link, IsLinked, sent_to_actuators}
use locoloco.System.Switches.{IsPositioned, process-IsPositioned}
use locoloco.System.Questions.{IsDistinct, Talk}
use locoloco.System.Round.{taken_by, IsRound, process-IsRound}
use locoloco.Examples.Pipe.{Pipe, pipe, traffic, pipe-IsWire}
use locoloco.Examples.Slices.{socket, socket-IsSocket}
use locoloco.Examples.Boards.{pwm}
use locoloco.Examples.Actuators.{output, level, output-IsOutput, switches, switches-IsWired}

-- The first loco was asked before, and the switch of the first segment is diverted; the first loco
-- answers that it stands, the second that it drives.
abbrev b : Backend Pipe
b = record {
  loco_info =
      (
        loco1,
        record {
          stream = some (1 ∷ 0 ∷ [], 0xab ∷ 3 ∷ 0 ∷ []);
          location = some rfid_reader1;
          intent = some (drive forward TrackId.station2);
        },
      )
      ∷ (
        loco2,
        record { stream = some (2 ∷ 2 ∷ [], []); location = some rfid_reader3; intent = none },
      )
      ∷ [];
  actuator_info = record { stream = some ([], 0xab ∷ 5 ∷ 3 ∷ 2 ∷ 1 ∷ 2 ∷ []) };
  oracle_enabled = true;
}

link : (id : LocoId) → Link b id
unfolding get
link loco1 = record { info = _; stream = _; entry = refl; connected = refl }
link loco2 = record { info = _; stream = _; entry = refl; connected = refl }

linked : IsLinked b
linked = record { link = link; actuators = _; switched = refl }

talk : (id : LocoId) → Talk traffic b id
unfolding get Direction.into Speed.into
talk loco1 = record { direction = forward; speed = stop; readable = tt; more = []; arrives = refl }
talk loco2 = record {
  direction = backward;
  speed = normal;
  readable = tt;
  more = [];
  arrives = refl;
}

distinct : IsDistinct (loco_ids b)
unfolding loco_ids
distinct = ((refl, tt), (tt, tt))

tables : init.rail_network ≡ new
unfolding init
tables = refl

writing : (s : Pipe) (m : List ℕ) → (pipe.write_all s m).0 ≡ true
writing s m = refl

process-IsRound_example : IsRound pipe traffic pipe-IsWire writing init b talk (process pipe init b)
process-IsRound_example =
    process-IsRound pipe traffic pipe-IsWire writing init b talk tables refl linked distinct

-- the switch was diverted, and the first segment wants it straight
abbrev straight : Pipe
straight = (0xab ∷ 5 ∷ 3 ∷ 2 ∷ 1 ∷ 2 ∷ 0xab ∷ 5 ∷ 3 ∷ 2 ∷ 1 ∷ 1 ∷ [], [])

diverted-sent :
    sent_to_actuators traffic b ≡ [] ++ all_bytes bytes_of ((switch_rails2, diverted) ∷ [])
unfolding ActuatorId.into ActuatorType.into SwitchRailsState.into
diverted-sent = refl

straight-sent : sent_to_actuators traffic (process pipe init b).2 ≡ [] ++ traffic.incoming straight
unfolding init process SwitchRailsState.into
straight-sent = refl

process-IsPositioned_example :
    (round : IsRound pipe traffic pipe-IsWire writing init b talk (process pipe init b))
    × IsPositioned level
        (taken_by init round.segments)
        ((switch_rails2, diverted) ∷ [])
        switches
        (ActuatorsMessages.handle_messages socket output 13 straight switches)
process-IsPositioned_example =
    process-IsPositioned pipe traffic pipe-IsWire writing socket traffic socket-IsSocket output
      level output-IsOutput init b talk [] ((switch_rails2, diverted) ∷ []) 13 straight switches
      tables refl linked distinct switches-IsWired diverted-sent straight-sent (omega arith)

-- the first loco was asked, is asked again, and sent off
abbrev sent_off : Pipe
sent_off = (0xab ∷ 3 ∷ 0 ∷ 0xab ∷ 3 ∷ 0 ∷ 0xab ∷ 2 ∷ 2 ∷ 1 ∷ 2 ∷ [], [])

handle_messages-IsDriven_example :
    IsDriven socket traffic socket-IsSocket output level output-IsOutput
      ((switch_rails2, diverted) ∷ (switch_rails2, direct) ∷ [])
      switches
      (ActuatorsMessages.handle_messages socket output 13 straight switches)
unfolding ActuatorId.into ActuatorType.into SwitchRailsState.into
handle_messages-IsDriven_example =
    handle_messages-IsDriven socket traffic socket-IsSocket output level output-IsOutput
      ((switch_rails2, diverted) ∷ (switch_rails2, direct) ∷ []) 13 straight switches
      switches-IsWired refl (omega arith)

-- a sighting of the first loco at the first reader
abbrev seen : SensorsData
seen = some (record { loco_id = loco1; sensor_id = rfid_reader1 }) ∷ []

length-zeros : length (LocoMessages.zeros 259) ≡ 259
unfolding LocoMessages.zeros
length-zeros = refl

frames-AreFrames_example :
    Builds Operation.control_loco (control_loco_message pipe forward normal)
    × Builds Operation.loco_status (loco_status_message pipe)
    × Builds Operation.drive_actuator (drive_actuator_message pipe switch_rails2 switch_rails 1)
    × Builds Operation.connect (LocoMessages.connect_message socket pwm)
    × (m : List ℕ) × IsFrame Operation.sensors_status m
    × (traffic.sent (update socket false ([], []) (LocoMessages.zeros 259) seen).1
        ≡ traffic.sent ([], []) ++ (if is_due false seen then m else []))
frames-AreFrames_example =
    frames-AreFrames pipe traffic pipe-IsWire socket traffic socket-IsSocket pwm forward normal
      switch_rails2 switch_rails 1 false ([], []) (LocoMessages.zeros 259) seen (omega arith)
      length-zeros (omega arith) writing
