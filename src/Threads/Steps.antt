-- ===== src/Threads/Steps.antt =====
-- What each kind of event of `main` (loco_controller/src/main.rs) does to the program.
use locoloco.Common.{
  ℕ, ◌<◌, ◌≡◌, ◌≢◌, refl, sym, ap, false, Option, none, some, List, [], ◌∷◌, length, Result, ok,
  inl, inr, Bool-cases,
}
use locoloco.RailNetwork.Tables as Tables
use locoloco.Wire.{Wire, Traffic, IsWire}
use locoloco.Backend.Types.{Error, Backend}
use locoloco.Backend.State.{IsFull}
use locoloco.Backend.Termination.{serve_sensors_ends}
use locoloco.Oracle.Types.{Oracle}
use locoloco.Oracle.Process.{process}
use locoloco.Http.{
  Request, Response, index, loco_status, control_loco, loco_intent, drive_switch_rails, oracle_mode,
  body, json, oracle_is_running, internal_server_error, panicked, serve, handle_loco_status,
  handle_control_loco, handle_drive_switch_rails, handle_loco_intent,
}
use locoloco.Http.Totality.{serve-IsTotal}
use locoloco.Threads.{logged, backend_locos, backend_sensors, backend_actuators, backend_oracle}
use locoloco.Threads.Calls as Calls
use locoloco.Threads.Calls.{Call, call, interleave}
use locoloco.Threads.Rounds.{process-AreCalls}
use locoloco.Threads.Reports.{serve_sensors-IsServed}
use locoloco.Threads.Totality.{
  backend_locos-GoesOn, backend_actuators-GoesOn, backend_oracle-GoesOn, logged-eq,
}
use locoloco.Threads.Program.{
  Event, locos, actuators, sensors, oracle_round, http, Program, go_on, handle,
}
use locoloco.Threads.Trace.{request_calls, Step}

module _ {S : Type 0} (w : Wire S) where
  serve-request_calls :
      (r : Request) (b : Backend S)
      → (interleave w (request_calls b.oracle_enabled r) b).1 ≡ (serve w r b).1
  unfolding interleave call serve handle_loco_status handle_control_loco handle_loco_intent
      handle_drive_switch_rails
  serve-request_calls index b = refl
  serve-request_calls (loco_status id) b = refl
  serve-request_calls (control_loco id d s) b = elim (Bool-cases b.oracle_enabled) [
    | inl on ↦ simp on refl
    | inr off ↦ simp off refl
  ]
  serve-request_calls (loco_intent id intent) b = refl
  serve-request_calls (drive_switch_rails id state) b = elim (Bool-cases b.oracle_enabled) [
    | inl on ↦ simp on refl
    | inr off ↦ simp off refl
  ]
  serve-request_calls (oracle_mode mode) b = refl

  process-off : (o : Oracle) (b : Backend S) → b.oracle_enabled ≡ false → (process w o b).2 ≡ b
  unfolding process
  process-off o b off = simp off refl

  -- what a thread that goes on hands to its next round
  go_on-eq :
      (o : Oracle) (out : Result Error (Unit {0}) × Backend S)
      → out.0 ≡ ok tt
      → go_on o out ≡ some (record { backend = out.1; oracle = o })
  unfolding go_on
  go_on-eq o (r, b) fine = ap (λ r. go_on o (r, b)) fine

  -- The program between two events: an entry for each loco, and the tables of `new`.
  pub record IsSound (p : Program S) : Type 0 where
    pub full : IsFull p.backend
    pub tables : p.oracle.rail_network ≡ Tables.new

  -- The event is handled, and the program goes on.
  pub record Handled (e : Event S) (p : Program S) : Type 0 where
    pub after : Program S
    pub calls : List (Call S)
    pub fine : handle w e p ≡ some after
    pub step : Step w e p after calls
    pub tables : after.oracle.rail_network ≡ Tables.new

  oracle_round-Handled : (p : Program S) → IsSound p → Handled oracle_round p
  unfolding handle backend_oracle
  oracle_round-Handled p sound =
      let (goes, kept) = backend_oracle-GoesOn w p.oracle p.backend sound.tables sound.full in
      let (r, oracle', b') = process w p.oracle p.backend in
      let fine = go_on-eq oracle' (logged r, b') (unfold backend_oracle in goes.fine) in
      elim (Bool-cases p.backend.oracle_enabled) [
        | inl on ↦
            let asked = process-AreCalls w p.oracle p.backend in
            record {
              after = record { backend = b'; oracle = oracle' };
              calls = asked.calls;
              fine = fine;
              step = record { made = (refl, refl, asked.each, inl on); left = asked.left };
              tables = unfold backend_oracle in kept;
            }
        | inr off ↦ record {
          after = record { backend = b'; oracle = oracle' };
          calls = [];
          fine = fine;
          step = record {
            made = (refl, refl, tt, inr refl);
            left = unfold interleave in sym (process-off p.oracle p.backend off);
          };
          tables = unfold backend_oracle in kept;
        }
      ]

  http-Handled : (request : Request) (p : Program S) → IsSound p → Handled (http request) p
  unfolding handle
  http-Handled request p sound =
      let (full, safe) = serve-IsTotal w request p.backend sound.full in
      let (response, b') = serve w request p.backend in
      record {
        after = record p { backend = b' };
        calls = request_calls p.backend.oracle_enabled request;
        fine = answered response safe;
        step = record { made = (refl, refl); left = serve-request_calls request p.backend };
        tables = sound.tables;
      }
    where
      answered :
          (r : Response)
          → r ≢ panicked
          → {q : Program S}
          → (elim r as (λ _. Option (Program S)) [ panicked ↦ none | _ ↦ some q ]) ≡ some q
      answered body h = refl
      answered (json status) h = refl
      answered oracle_is_running h = refl
      answered (internal_server_error e) h = refl
      answered panicked h = absurd (h refl)

  locos-Handled : (stream : S) (p : Program S) → IsSound p → Handled (locos stream) p
  unfolding handle
  locos-Handled stream p sound = record {
    after = record { backend = (backend_locos w stream p.backend).1; oracle = p.oracle };
    calls = Calls.handle_loco_connection stream ∷ [];
    fine =
        go_on-eq p.oracle (backend_locos w stream p.backend)
          (backend_locos-GoesOn w stream p.backend sound.full).fine;
    step = record { made = (refl, refl); left = unfold interleave call backend_locos in refl };
    tables = sound.tables;
  }

  actuators-Handled : (stream : S) (p : Program S) → IsSound p → Handled (actuators stream) p
  unfolding handle
  actuators-Handled stream p sound = record {
    after = record { backend = (backend_actuators w stream p.backend).1; oracle = p.oracle };
    calls = Calls.handle_actuators_connection stream ∷ [];
    fine =
        go_on-eq p.oracle (backend_actuators w stream p.backend)
          (backend_actuators-GoesOn w stream p.backend sound.full).fine;
    step = record { made = (refl, refl); left = unfold interleave call backend_actuators in refl };
    tables = sound.tables;
  }

  module _ (t : Traffic S) (wired : IsWire w t) where
    -- The sensors' connections have more fuel than bytes to come.
    abbrev pub IsFueled : Event S → Type 0
    IsFueled (sensors fuel stream) = length (t.incoming stream) < fuel
    IsFueled _ = Unit

    sensors-Handled :
        (fuel : ℕ) (stream : S) (p : Program S)
        → length (t.incoming stream) < fuel
        → IsSound p
        → Handled (sensors fuel stream) p
    unfolding handle backend_sensors
    sensors-Handled fuel stream p enough sound =
        let ((r, rest, b'), ended, _) = serve_sensors_ends w t wired fuel stream p.backend enough in
        let (safe, reports) =
          serve_sensors-IsServed w fuel stream p.backend (r, rest, b') sound.full ended in
        record {
          after = record { backend = b'; oracle = p.oracle };
          calls = reports.calls;
          fine = rw (ended, handle) (go_on-eq p.oracle (logged r, b') (logged-eq r safe));
          step = record { made = ((r, rest, ended), reports.each, refl); left = reports.left };
          tables = sound.tables;
        }

    -- an event of any kind
    pub handle-Handled : (e : Event S) (p : Program S) → IsFueled e → IsSound p → Handled e p
    handle-Handled (locos stream) p enough sound = locos-Handled stream p sound
    handle-Handled (actuators stream) p enough sound = actuators-Handled stream p sound
    handle-Handled (sensors fuel stream) p enough sound = sensors-Handled fuel stream p enough sound
    handle-Handled oracle_round p enough sound = oracle_round-Handled p sound
    handle-Handled (http request) p enough sound = http-Handled request p sound
