-- ===== src/Threads/Running.antt =====
-- What `main` of loco_controller/src/main.rs makes of a sequence of events.
use locoloco.Common.{◌≡◌, refl, sym, ap, subst, ◌∙◌, Option, some, List, [], ◌∷◌, ◌++◌, All}
use locoloco.Protocol.Types.{loco1, loco2}
use locoloco.RailNetwork.Tables as Tables
use locoloco.Wire.{Wire, Traffic, IsWire}
use locoloco.Backend.State.{IsFull, loco_ids, new}
use locoloco.Backend.Totality.{new-IsFull}
use locoloco.Oracle.Process.{init}
use locoloco.Threads.Calls.{Call, interleave}
use locoloco.Threads.Views.{view, changes}
use locoloco.Threads.Refinement.{view-interleave}
use locoloco.Threads.Entries.{loco_ids-interleave}
use locoloco.Threads.Program.{Event, Program, run, main}
use locoloco.Threads.Trace.{Trace, end, next, Trace-interleave}
use locoloco.Threads.Steps.{IsFueled, IsSound, Handled, handle-Handled}

module _ {S : Type 0} (w : Wire S) (t : Traffic S) (wired : IsWire w t) where
  Handled-IsSound :
      {e : Event S} {p : Program S} → IsSound w p → (h : Handled w e p) → IsSound w h.after
  Handled-IsSound {p = p} sound h = record {
    full = subst IsFull h.step.left (view-interleave w h.calls p.backend sound.full).1;
    tables = h.tables;
  }

  run-Trace :
      (events : List (Event S)) (p : Program S)
      → All (IsFueled w t wired) events
      → IsSound w p
      → (p' : Program S) × (calls : List (Call S)) × (run w events p ≡ some p')
        × Trace w events p p' calls
        × IsSound w p'
  unfolding run
  run-Trace [] p enough sound = (p, [], refl, end, sound)
  run-Trace (e ∷ events) p enough sound =
      let h = handle-Handled w t wired e p enough.0 sound in
      let (p', calls, fine, trace, sound') =
        run-Trace events h.after enough.1 (Handled-IsSound sound h) in
      (p', h.calls ++ calls, rw (h.fine, run) fine, next h.step trace, sound')

  -- The program went through all its events.
  pub record IsRunning (events : List (Event S)) (result : Option (Program S)) : Type 0 where
    pub program : Program S
    pub calls : List (Call S)
    pub ended : result ≡ some program
    pub trace : Trace w events (record { backend = new; oracle = init }) program calls
    pub full : IsFull program.backend
    pub ids : loco_ids program.backend ≡ loco1 ∷ loco2 ∷ []
    pub tables : program.oracle.rail_network ≡ Tables.new
    pub left : (interleave w calls new).1 ≡ program.backend
    pub seen : view program.backend ≡ changes calls (view (new {S = S}))

  -- Under the laws of `IsWire`, with more fuel than bytes to come on each connection of the
  -- sensors: take any sequence of events, each a connection that a listener accepts, a round of
  -- the oracle or an HTTP request, one handled after the other, whatever the connections do.
  -- `main`, which begins with `Backend::new` and `Oracle::new`, goes through all of them, no
  -- thread ends, and its states form a trace of these events. In the trace an accepted connection
  -- of a loco or of the actuators is the one call that handles it; one of the sensors is a
  -- sequence of reports, which leaves the backend of `serve_sensors`; a round of the oracle is a
  -- sequence of questions and commands, none while it is off, which leaves the oracle and the
  -- backend of `process`; an HTTP request is the call it stands for, and a command for a loco or
  -- a switch is none while the oracle is on. These calls, in the order of the events, lead from
  -- the start to the backend at the end: where each loco is, where it is to go, and whether the
  -- oracle is on are what they make of the start. The backend then has an entry for each loco and
  -- lists the two locos once each, and the oracle has the tables of `new`.
  pub main-IsRunning :
      (events : List (Event S)) → All (IsFueled w t wired) events → IsRunning events (main w events)
  unfolding main init loco_ids new
  main-IsRunning events enough =
      let begin : Program S = record { backend = new; oracle = init } in
      let (p, calls, fine, trace, sound) =
        run-Trace events begin enough (record { full = new-IsFull; tables = refl }) in
      let (_, _, seen) = view-interleave w calls new new-IsFull in
      let left = Trace-interleave w trace in
      record {
        program = p;
        calls = calls;
        ended = fine;
        trace = trace;
        full = sound.full;
        ids = ap loco_ids (sym left) ∙ loco_ids-interleave w calls new;
        tables = sound.tables;
        left = left;
        seen = ap view (sym left) ∙ seen;
      }
