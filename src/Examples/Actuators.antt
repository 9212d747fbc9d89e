-- ===== src/Examples/Actuators.antt =====
-- The board of the switches, on a socket that is two lists and outputs that are levels.
use locoloco.Common.{ℕ, ◌≡◌, refl, some, List, [], ◌∷◌, arith}
use locoloco.Protocol.Types.{forward, fast, switch_rails, switch_rails3, diverted, loco_id_eq}
use locoloco.Protocol.ActuatorId
use locoloco.Protocol.ActuatorType
use locoloco.Protocol.SwitchRailsState
use locoloco.Backend.Delivery.{requests}
use locoloco.Pico.Actuators.Types.{Level, low, Output, IsOutput, Actuators}
use locoloco.Pico.Actuators.Messages as ActuatorsMessages
use locoloco.Pico.Actuators.Switches.{wired, IsWired, wired-IsWired}
use locoloco.Pico.Actuators.Delivery.{IsSwitched, drive_actuator_reaches}
use locoloco.Pico.Actuators.Program as Program
use locoloco.Examples.Pipe.{Pipe, pipe, traffic, pipe-IsWire}
use locoloco.Examples.Slices.{socket, socket-IsSocket}
use locoloco.Examples.Boards.{talk-IsByte, connections}

-- an output that is its level
abbrev pub output : Output Level
output = record { set_level = λ g l. l }

abbrev pub level : Level → Level
level l = l

pub output-IsOutput : IsOutput output level
output-IsOutput = record { set = λ g l. refl }

abbrev pub switches : Actuators Level
switches = wired low low low low low low low low

pub switches-IsWired : IsWired switches
switches-IsWired = wired-IsWired low low low low low low low low

abbrev divert : List ℕ
divert =
    0xab
    ∷ 5
    ∷ 3
    ∷ ActuatorId.into switch_rails3
    ∷ ActuatorType.into switch_rails
    ∷ SwitchRailsState.into diverted
    ∷ []

abbrev divert_pipe : Pipe
divert_pipe = (divert, [])

drive_actuator_reaches_example :
    IsSwitched socket traffic socket-IsSocket output level output-IsOutput switch_rails3 diverted []
      divert_pipe switches
      (ActuatorsMessages.handle_message socket output divert_pipe switches)
drive_actuator_reaches_example =
    drive_actuator_reaches socket traffic socket-IsSocket output level output-IsOutput pipe traffic
      pipe-IsWire switch_rails3 diverted divert [] divert_pipe switches switches-IsWired
      (requests pipe traffic pipe-IsWire forward fast switch_rails3 switch_rails
        (SwitchRailsState.into diverted)).2
      refl

abbrev pins : Program.Pins Level
pins = record {
  pin2 = low;
  pin3 = low;
  pin4 = low;
  pin5 = low;
  pin6 = low;
  pin7 = low;
  pin8 = low;
  pin9 = low;
}

main-IsWired_example :
    (a : Actuators Level) × (Program.main socket output pins connections ≡ some a) × IsWired a
main-IsWired_example =
    Program.main-IsWired socket output traffic socket-IsSocket level output-IsOutput pins
      connections
      ((omega arith, talk-IsByte), ((omega arith, tt), ((omega arith, talk-IsByte), tt)))
