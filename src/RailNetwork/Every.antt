-- ===== src/RailNetwork/Every.antt =====
-- Tests over every value of the railway's enums, so that a table is checked by evaluation.
use locoloco.Common.{◌≡◌, Bool, true, ◌&&◌, arith}
use locoloco.Protocol.Types.{Direction, forward, backward}
use locoloco.RailNetwork.Types.{
  CheckpointId, checkpoint1, checkpoint2, checkpoint3, checkpoint4, checkpoint5, checkpoint6,
  TrackId, track1, SegmentId, segment1, segment2, segment3, segment4, segment5, segment6, segment7,
  segment8, segment9, segment10,
}

unfoldable pub every_direction : (Direction → Bool) → Bool
every_direction p = p forward && p backward

unfoldable pub every_track : (TrackId → Bool) → Bool
every_track p = p track1 && (p TrackId.station1 && p TrackId.station2)

unfoldable pub every_checkpoint : (CheckpointId → Bool) → Bool
every_checkpoint p =
    p checkpoint1
    && (p checkpoint2
        && (p checkpoint3
            && (p checkpoint4
                && (p checkpoint5
                    && (p checkpoint6 && (p CheckpointId.station1 && p CheckpointId.station2))))))

unfoldable pub every_segment : (SegmentId → Bool) → Bool
every_segment p =
    p segment1
    && (p segment2
        && (p segment3
            && (p segment4
                && (p segment5
                    && (p segment6
                        && (p segment7 && (p segment8 && (p segment9 && p segment10))))))))

pub every_direction_sound :
    (p : Direction → Bool) (d : Direction) → every_direction p ≡ true → p d ≡ true
unfolding every_direction
every_direction_sound p forward h = ground arith
every_direction_sound p _ h = ground arith

pub every_track_sound : (p : TrackId → Bool) (t : TrackId) → every_track p ≡ true → p t ≡ true
unfolding every_track
every_track_sound p track1 h = ground arith
every_track_sound p _ h = ground arith

pub every_checkpoint_sound :
    (p : CheckpointId → Bool) (c : CheckpointId) → every_checkpoint p ≡ true → p c ≡ true
unfolding every_checkpoint
every_checkpoint_sound p checkpoint1 h = ground arith
every_checkpoint_sound p _ h = ground arith

pub every_segment_sound :
    (p : SegmentId → Bool) (s : SegmentId) → every_segment p ≡ true → p s ≡ true
unfolding every_segment
every_segment_sound p segment1 h = ground arith
every_segment_sound p _ h = ground arith
