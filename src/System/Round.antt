-- ===== src/System/Round.antt =====
-- A round of the automatic mode on the streams (loco_controller/src/oracle.rs,
-- loco_controller/src/backend.rs).
use locoloco.Common.{
  refl, All, [], ◌∷◌, ℕ, ◌≡◌, sym, ap, subst, ◌∙◌, ◌>>=◌, true, List, ◌++◌, append-nil, map, Result,
  ok,
}
use locoloco.Protocol.Types.{LocoId}
use locoloco.RailNetwork.Types.{SegmentId}
use locoloco.RailNetwork.Tables.{new}
use locoloco.Wire.{Wire, Traffic, IsWire}
use locoloco.Backend.Types.{Backend}
use locoloco.Backend.State.{loco_ids}
use locoloco.Oracle.Types.{Error, Oracle, ActiveSegment}
use locoloco.Oracle.Segments.{determine_active_segments_from}
use locoloco.Oracle.Order.{sort_active_segments}
use locoloco.Oracle.Controls.{Controls, determine_controls}
use locoloco.Oracle.Commands.{moving}
use locoloco.Oracle.Process.{
  ask, active_locos, determine_active_segments, act_on, act, apply_controls, process,
}
use locoloco.Oracle.Round.{IsSafeRound, round-IsSafeRound}
use locoloco.Threads.Calls as Calls
use locoloco.Threads.Calls.{Call}
use locoloco.Threads.Views.{View, view, changes}
use locoloco.Threads.Refinement.{view-interleave}
use locoloco.Threads.Rounds.{IsCommand, process-AreCalls}
use locoloco.Threads.Entries.{loco_ids-interleave}
use locoloco.System.Links.{IsLinked-IsFull, IsLinked, Writes, Writes-append}
use locoloco.System.Commands.{switch_bytes, command_bytes, apply_controls-Writes}
use locoloco.System.Questions.{question_bytes, IsDistinct, Talk, known, ask-IsHeard}

-- The commands of a round that finds these segments.
abbrev pub controls_of : Oracle → List ActiveSegment → Controls
controls_of o segments =
    determine_controls o.last_segment_id (sort_active_segments o.last_segment_id segments)

-- Questions and commands change nothing that the threads see.
changes-commands :
    {S : Type 0} (calls : List (Call S)) (v : View) → All IsCommand calls → changes calls v ≡ v
changes-commands [] v h = refl
changes-commands (Calls.loco_status id ∷ calls) v h = changes-commands calls v h.1
changes-commands (Calls.control_loco id d s ∷ calls) v h = changes-commands calls v h.1
changes-commands (Calls.drive_actuator id k n ∷ calls) v h = changes-commands calls v h.1
changes-commands (Calls.handle_loco_connection stream ∷ calls) v h = absurd h.0
changes-commands (Calls.handle_actuators_connection stream ∷ calls) v h = absurd h.0
changes-commands (Calls.set_location id sensor ∷ calls) v h = absurd h.0
changes-commands (Calls.loco_intent id intent ∷ calls) v h = absurd h.0
changes-commands (Calls.oracle_mode mode ∷ calls) v h = absurd h.0

-- The segments that locos are sent onto by a round that finds these segments.
abbrev pub taken_by : Oracle → List ActiveSegment → List SegmentId
taken_by o segments =
    moving (sort_active_segments o.last_segment_id segments) (controls_of o segments).loco_controls

module _ {S : Type 0} (w : Wire S) (t : Traffic S) (wired : IsWire w t)
    (writing : (s : S) (m : List ℕ) → (w.write_all s m).0 ≡ true) where
  -- What a round does, on each stream too.
  pub record IsRound (o : Oracle) (b : Backend S) (talk : (id : LocoId) → Talk t b id)
      (out : Result Error (Unit {0}) × Oracle × Backend S) : Type 0 where
    pub segments : List ActiveSegment
    pub found : determine_active_segments_from new (map (known b talk) (loco_ids b)) ≡ ok segments
    pub safe :
        IsSafeRound o.last_segment_id
          (map (known b talk) (loco_ids b))
          segments
          (controls_of o segments)
    pub fine : out.0 ≡ ok tt
    pub remembers : out.1 ≡ record o { last_segment_id = (controls_of o segments).last_segment_id }
    pub writes :
        Writes t b
          (λ j.
            question_bytes (loco_ids b) j ++ command_bytes (controls_of o segments).loco_controls j)
          (switch_bytes (controls_of o segments).actuator_controls)
          out.2
    pub tables : out.1.rail_network ≡ new
    pub same : view out.2 ≡ view b
    pub ids : loco_ids out.2 ≡ loco_ids b

  -- Under the laws of `IsWire`, while writes succeed: if the oracle is on and has the tables of
  -- `new`, the actuators and every loco are connected, no loco is listed twice, and each loco's
  -- stream delivers an answer, then `process` succeeds. It heard each listed loco's answer, found
  -- the active segments of these, and its commands for them are safe; it keeps the map that the
  -- commands leave. Each loco was written the questions and then its commands, the actuators were
  -- written the commands for the switches, each in order and nothing else, and all stay connected.
  -- The tables, the listed locos, where each loco is, where it is to go, and the mode stay as they
  -- were, so that the next round begins under these conditions too, once the locos answer.
  pub process-IsRound :
      (o : Oracle) (b : Backend S) (talk : (id : LocoId) → Talk t b id)
      → o.rail_network ≡ new
      → b.oracle_enabled ≡ true
      → IsLinked b
      → IsDistinct (loco_ids b)
      → IsRound o b talk (process w o b)
  unfolding process determine_active_segments active_locos act_on act
  process-IsRound o b talk tables on h distinct =
      let ids = loco_ids b in
      let locos = map (known b talk) ids in
      let (heard, asked) = ask-IsHeard w t wired writing b talk ids h distinct in
      let (segments, found, safe) = round-IsSafeRound o.last_segment_id locos in
      let c = controls_of o segments in
      let b' = (ask w ids b).1 in
      let (fine, commanded) =
        apply_controls-Writes w t wired writing c.actuator_controls c.loco_controls b'
          asked.linked in
      let after = apply_controls w c.actuator_controls c.loco_controls b' in
      let calls = process-AreCalls w o b in
      let determined : ((ask w ids b).0 >>= determine_active_segments_from o.rail_network)
          ≡ ok segments =
        ap (λ r. r >>= determine_active_segments_from o.rail_network) heard
        ∙ ap (λ n. determine_active_segments_from n locos) tables
        ∙ found in
      let step : process w o b
          ≡ (after.0, record o { last_segment_id = c.last_segment_id }, after.1) =
        simp on (ap (λ r. act_on w o r b') determined) in
      record {
        segments = segments;
        found = found;
        safe = safe;
        fine = ap (λ r. r.0) step ∙ fine;
        remembers = ap (λ r. r.1) step;
        writes =
            subst
              (Writes t b (λ j. question_bytes ids j ++ command_bytes c.loco_controls j)
                (switch_bytes c.actuator_controls))
              (sym (ap (λ r. r.2) step))
              (subst
                (λ l.
                  Writes t b (λ j. question_bytes ids j ++ command_bytes c.loco_controls j) l
                    after.1)
                (append-nil (switch_bytes c.actuator_controls))
                (Writes-append t (question_bytes ids) (command_bytes c.loco_controls) []
                  (switch_bytes c.actuator_controls ++ []) asked commanded));
        tables = ap (λ r. r.1.rail_network) step ∙ tables;
        same =
            ap view (sym calls.left)
            ∙ (view-interleave w calls.calls b (IsLinked-IsFull h)).2
            ∙ changes-commands calls.calls (view b) calls.each;
        ids = ap loco_ids (sym calls.left) ∙ loco_ids-interleave w calls.calls b;
      }
