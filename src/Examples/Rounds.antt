-- ===== src/Examples/Rounds.antt =====
-- Rounds of the oracle with two locos.
use locoloco.Common.{◌≡◌, ◌≢◌, refl, some, List, [], ◌∷◌, ok, inl, get}
use locoloco.Protocol.Types.{
  LocoId, loco_id_eq, Direction, loco1, loco2, forward, backward, normal, switch_rails2, direct,
}
use locoloco.RailNetwork.Types.{
  SegmentId, segment_id_eq, TrackId, Segment, priority0, checkpoint1, checkpoint3, segment1,
  segment2, segment8,
}
use locoloco.RailNetwork.Tables.{new}
use locoloco.Backend.Types.{drive}
use locoloco.Oracle.Types.{ActiveLoco, ActiveSegment}
use locoloco.Oracle.Segments.{determine_active_segments_from}
use locoloco.Oracle.Order.{sort_active_segments}
use locoloco.Oracle.Controls.{determine_controls}
use locoloco.Oracle.Commands.{moving}
use locoloco.Oracle.Commanded.{Commanded, determine_controls-Commanded}
use locoloco.Oracle.Safety.{IsFromTable}
use locoloco.Oracle.Progress.{IsServed, moving-IsServed}
use locoloco.Oracle.Intents.{Plans}
use locoloco.Oracle.Ordering.{ahead_first}
use locoloco.Oracle.Turns.{IsInTurn, round-IsInTurn}
use locoloco.Oracle.Round.{IsSafeRound, round-IsSafeRound}

abbrev locos : List ActiveLoco
locos =
    record {
      id = loco1;
      speed = normal;
      location = some checkpoint1;
      intent = some (drive forward TrackId.station2);
    }
    ∷ record {
      id = loco2;
      speed = normal;
      location = some checkpoint3;
      intent = some (drive backward TrackId.station1);
    }
    ∷ []

-- the loco on its way to a segment of the table
abbrev going : LocoId → Direction → SegmentId → ActiveSegment
going loco_id direction id = record {
  id = some id;
  segment = get new.segments id;
  direction = direction;
  loco_id = loco_id;
}

-- one switch, and two positions wanted
abbrev rivals : List ActiveSegment
rivals = going loco1 forward segment1 ∷ going loco2 backward segment8 ∷ []

abbrev last : List (LocoId × SegmentId)
last = (loco1, segment1) ∷ []

round-IsSafeRound_example :
    (segments : List ActiveSegment) × (determine_active_segments_from new locos ≡ ok segments)
    × IsSafeRound last locos segments (determine_controls last (sort_active_segments last segments))
round-IsSafeRound_example = round-IsSafeRound last locos

abbrev first_segment : Segment
first_segment = record {
  priority = priority0;
  switch_rails = record { actuator_id = switch_rails2; state = direct } ∷ [];
  conflicts = segment8 ∷ [];
}

at_first : get new.segments segment1 ≡ some first_segment
unfolding get new
at_first = refl

moving-IsServed_example :
    IsServed (moving rivals (determine_controls last rivals).loco_controls) segment1
moving-IsServed_example =
    moving-IsServed last rivals (going loco1 forward segment1) segment1 first_segment (inl refl)
      refl at_first at_first

going-IsFromTable :
    (loco_id : LocoId) (direction : Direction) (id : SegmentId)
    → IsFromTable (going loco_id direction id)
going-IsFromTable loco_id direction id i s e f = cc

determine_controls-Commanded_example :
    Commanded [] rivals (determine_controls last rivals).loco_controls
determine_controls-Commanded_example =
    determine_controls-Commanded last rivals
      (going-IsFromTable loco1 forward segment1, (going-IsFromTable loco2 backward segment8, tt))

round-IsInTurn_example :
    (segments : List ActiveSegment) × (determine_active_segments_from new locos ≡ ok segments)
    × IsInTurn last segments (sort_active_segments last segments)
round-IsInTurn_example = round-IsInTurn last locos

before : get last loco1 ≡ some segment1
unfolding get
before = refl

not_before : get last loco2 ≢ some segment1
unfolding get
not_before p = cc

ahead_example :
    (sort_active_segments last (going loco1 forward segment1 ∷ going loco2 backward segment1 ∷ [])
      ≡ going loco1 forward segment1 ∷ going loco2 backward segment1 ∷ [])
    × (sort_active_segments last (going loco2 backward segment1 ∷ going loco1 forward segment1 ∷ [])
        ≡ going loco1 forward segment1 ∷ going loco2 backward segment1 ∷ [])
ahead_example =
    ahead_first last (going loco1 forward segment1) (going loco2 backward segment1) segment1 refl
      refl refl before not_before

-- Two locos that move towards each other, on neighbouring segments, are both sent to the checkpoint
-- between these.
head_on :
    determine_active_segments_from new locos
    ≡ ok (going loco1 forward segment1 ∷ going loco2 backward segment2 ∷ [])
unfolding determine_active_segments_from new get
head_on = refl

head_on-moving :
    moving
      (going loco1 forward segment1 ∷ going loco2 backward segment2 ∷ [])
      (determine_controls []
        (going loco1 forward segment1 ∷ going loco2 backward segment2 ∷ [])).loco_controls
    ≡ segment1 ∷ segment2 ∷ []
unfolding moving determine_controls new get
head_on-moving = refl
