-- ===== src/Examples/Threads.antt =====
-- The controller's threads, on streams that are two lists.
use locoloco.Common.{◌≡◌, refl, true, some, List, [], ◌∷◌, Result, All, arith}
use locoloco.Protocol.Types.{loco2, forward, slow, rfid_reader5, switch_rails2, diverted}
use locoloco.RailNetwork.Types.{station1}
use locoloco.RailNetwork.Tables as Tables
use locoloco.Backend.Types.{Error, Backend, auto, drive}
use locoloco.Backend.State.{new, IsFull}
use locoloco.Backend.Totality.{new-IsFull}
use locoloco.Oracle.Process.{init}
use locoloco.Http as Http
use locoloco.Http.{serve}
use locoloco.Threads.{backend_locos, backend_sensors, backend_actuators, backend_oracle}
use locoloco.Threads.Calls as Calls
use locoloco.Threads.Calls.{Call, interleave}
use locoloco.Threads.Views.{view, changes}
use locoloco.Threads.Refinement.{view-interleave}
use locoloco.Threads.Rounds.{IsCommand, IsReport, AreCalls}
use locoloco.Threads.Requests.{IsRequest}
use locoloco.Threads.Program.{Event, main}
use locoloco.Threads.Steps.{IsFueled}
use locoloco.Threads.Running.{IsRunning, main-IsRunning}
use locoloco.Threads.Totality.{IsConnection, GoesOn, threads_go_on}
use locoloco.Examples.Pipe.{Pipe, pipe, traffic, pipe-IsWire}

abbrev calls : List (Call Pipe)
calls =
    Calls.handle_loco_connection (0xab ∷ 1 ∷ 1 ∷ 2 ∷ [], [])
    ∷ Calls.set_location loco2 rfid_reader5
    ∷ Calls.loco_intent loco2 (drive forward station1)
    ∷ Calls.oracle_mode auto
    ∷ Calls.control_loco loco2 forward slow
    ∷ []

view-interleave_example :
    ((interleave pipe calls new).0 ≡ true)
    × IsFull (interleave pipe calls new).1
    × (view (interleave pipe calls new).1 ≡ changes calls (view (new {S = Pipe})))
view-interleave_example = view-interleave pipe calls new new-IsFull

-- the sensors report the second loco at the fifth reader
abbrev report : Pipe
report = (0xab ∷ 4 ∷ 3 ∷ 1 ∷ 5 ∷ 2 ∷ [], [])

abbrev hello : Pipe
hello = (0xab ∷ 1 ∷ 1 ∷ 1 ∷ [], [])

tables : init.rail_network ≡ Tables.new
unfolding init
tables = refl

threads_go_on_example :
    GoesOn pipe IsConnection new (backend_locos pipe hello new)
    × GoesOn pipe IsConnection new (backend_actuators pipe ([], []) new)
    × ((out : Result Error (Unit {0}) × Backend Pipe) × (backend_sensors pipe 7 report new
          ≡ some out)
        × GoesOn pipe IsReport new out)
    × GoesOn pipe IsCommand new ((backend_oracle pipe init new).0, (backend_oracle pipe init new).2)
    × ((backend_oracle pipe init new).1.rail_network ≡ Tables.new)
    × AreCalls pipe IsRequest new
        (serve pipe (Http.drive_switch_rails switch_rails2 diverted) new).1
threads_go_on_example =
    threads_go_on pipe traffic pipe-IsWire 7 hello ([], []) report init
      (Http.drive_switch_rails switch_rails2 diverted) new (omega arith) tables new-IsFull

-- a loco connects and is given an intent, the oracle is turned on, and the sensors report a loco
abbrev events : List (Event Pipe)
events =
    Event.locos hello
    ∷ Event.http (Http.loco_intent loco2 (drive forward station1))
    ∷ Event.actuators ([], [])
    ∷ Event.http (Http.oracle_mode auto)
    ∷ Event.sensors 7 report
    ∷ Event.oracle_round
    ∷ []

events-IsFueled : All (IsFueled pipe traffic pipe-IsWire) events
events-IsFueled = (tt, (tt, (tt, (tt, (omega arith, (tt, tt))))))

main-IsRunning_example : IsRunning pipe traffic pipe-IsWire events (main pipe events)
main-IsRunning_example = main-IsRunning pipe traffic pipe-IsWire events events-IsFueled
