-- ===== src/Threads/Totality.antt =====
-- What each thread of the controller does with one connection, or in one round
-- (loco_controller/src/main.rs).
use locoloco.Common.{ℕ, ◌<◌, ◌≡◌, ◌≢◌, refl, ap, subst, some, length, Result, ok, err, panic}
use mathlib.Core.Option
use locoloco.RailNetwork.Tables.{new}
use locoloco.Wire.{Wire, Traffic, IsWire}
use locoloco.Backend.Types as BackendTypes
use locoloco.Backend.Types.{Backend}
use locoloco.Backend.State.{IsFull}
use locoloco.Backend.Locos.{handle_loco_connection}
use locoloco.Backend.Actuators.{handle_actuators_connection}
use locoloco.Backend.Totality.{handle_loco_connection-IsTotal}
use locoloco.Backend.Termination.{serve_sensors_ends}
use locoloco.Oracle.Types.{Oracle}
use locoloco.Oracle.Process.{process}
use locoloco.Oracle.Totality.{process-IsTotal}
use locoloco.Threads.{logged, backend_locos, backend_sensors, backend_actuators, backend_oracle}
use locoloco.Threads.Calls as Calls
use locoloco.Threads.Calls.{Call, call}
use locoloco.Threads.Refinement.{view-interleave}
use locoloco.Threads.Rounds.{IsCommand, IsReport, AreCalls, AreCalls-one, process-AreCalls}
use locoloco.Http.{Request, serve}
use locoloco.Threads.Requests.{IsRequest, serve-AreCalls}
use locoloco.Threads.Reports.{serve_sensors-IsServed}

-- A new connection of a loco, or of the actuators.
abbrev pub IsConnection : {S : Type 0} → Call S → Type 0
IsConnection (Calls.handle_loco_connection stream) = Unit
IsConnection (Calls.handle_actuators_connection stream) = Unit
IsConnection _ = ⊥

pub logged-eq : {E A : Type 0} (r : Result E A) → r ≢ panic → logged r ≡ ok tt
logged-eq (ok a) h = refl
logged-eq (err e) h = refl
logged-eq panic h = absurd (h refl)

module _ {S : Type 0} (w : Wire S) where
  -- The thread goes on, and what it did to the backend are calls of its kind.
  pub record GoesOn (P : Call S → Type 0) (b : Backend S)
      (out : Result BackendTypes.Error (Unit {0}) × Backend S) : Type 0 where
    pub fine : out.0 ≡ ok tt
    pub full : IsFull out.1
    pub calls : AreCalls w P b out.1

  AreCalls-IsFull :
      {P : Call S → Type 0} {b b' : Backend S} → AreCalls w P b b' → IsFull b → IsFull b'
  AreCalls-IsFull {b} a full = subst IsFull a.left (view-interleave w a.calls b full).1

  pub backend_locos-GoesOn :
      (stream : S) (b : Backend S) → IsFull b → GoesOn IsConnection b (backend_locos w stream b)
  unfolding backend_locos
  backend_locos-GoesOn stream b full =
      let (full', safe) = handle_loco_connection-IsTotal w stream b full in
      record {
        fine = logged-eq (handle_loco_connection w stream b).0 safe;
        full = full';
        calls = unfold call in AreCalls-one w (Calls.handle_loco_connection stream) tt b;
      }

  pub backend_actuators-GoesOn :
      (stream : S) (b : Backend S) → IsFull b → GoesOn IsConnection b (backend_actuators w stream b)
  unfolding backend_actuators handle_actuators_connection
  backend_actuators-GoesOn stream b full = record {
    fine = refl;
    full = full;
    calls = unfold call in AreCalls-one w (Calls.handle_actuators_connection stream) tt b;
  }

  pub backend_oracle-GoesOn :
      (o : Oracle) (b : Backend S)
      → o.rail_network ≡ new
      → IsFull b
      → let out = backend_oracle w o b in
        GoesOn IsCommand b (out.0, out.2) × (out.1.rail_network ≡ new)
  unfolding backend_oracle
  backend_oracle-GoesOn o b tables full =
      let (full', safe, kept) = process-IsTotal w o b tables full in
      (
        record {
          fine = logged-eq (process w o b).0 safe;
          full = full';
          calls = process-AreCalls w o b;
        },
        kept,
      )

  module _ (t : Traffic S) (wired : IsWire w t) where
    pub backend_sensors-GoesOn :
        (fuel : ℕ) (stream : S) (b : Backend S)
        → length (t.incoming stream) < fuel
        → IsFull b
        → (out : Result BackendTypes.Error (Unit {0}) × Backend S) × (backend_sensors w fuel stream
              b
            ≡ some out)
          × GoesOn IsReport b out
    unfolding backend_sensors
    backend_sensors-GoesOn fuel stream b enough full =
        let (out, ended, _) = serve_sensors_ends w t wired fuel stream b enough in
        let (safe, reports) = serve_sensors-IsServed w fuel stream b out full ended in
        (
          (logged out.0, out.2),
          ap (Option.map (λ x. (logged x.0, x.2))) ended,
          record {
            fine = logged-eq out.0 safe;
            full = AreCalls-IsFull reports full;
            calls = reports;
          },
        )

    -- Under the laws of `IsWire`, from a backend with an entry for each loco, with the tables of `new`
    -- and more fuel than bytes to come on the sensors' stream: each of the four threads comes to the end
    -- of a connection, or of a round of the oracle, and goes on with the next, whatever the connections
    -- do, and leaves an entry for each loco. What it did to the backend is a sequence of the calls of
    -- its kind: connections for the locos and the actuators, reports for the sensors, questions and
    -- commands for the oracle, which keeps its tables. What an HTTP request does is such a sequence
    -- too, without a connection or a report.
    pub threads_go_on :
        (fuel : ℕ) (loco actuators sensors : S) (o : Oracle) (request : Request) (b : Backend S)
        → length (t.incoming sensors) < fuel
        → o.rail_network ≡ new
        → IsFull b
        → let round = backend_oracle w o b in
          GoesOn IsConnection b (backend_locos w loco b)
          × GoesOn IsConnection b (backend_actuators w actuators b)
          × ((out : Result BackendTypes.Error (Unit {0}) × Backend S) × (backend_sensors w fuel
                  sensors b
                ≡ some out)
              × GoesOn IsReport b out)
          × GoesOn IsCommand b (round.0, round.2)
          × (round.1.rail_network ≡ new)
          × AreCalls w IsRequest b (serve w request b).1
    threads_go_on fuel loco actuators sensors o request b enough tables full =
        let (commands, kept) = backend_oracle-GoesOn o b tables full in
        (
          backend_locos-GoesOn loco b full,
          backend_actuators-GoesOn actuators b full,
          backend_sensors-GoesOn fuel sensors b enough full,
          commands,
          kept,
          serve-AreCalls w request b,
        )
