-- ===== src/RailNetwork/Tables.antt =====
-- `RailNetwork::new` of loco_controller/src/rail_network.rs: the tables of the railway.
use locoloco.Common.{List, [], ◌∷◌}
use locoloco.Protocol.Types.{
  forward, backward, direct, diverted, switch_rails1, switch_rails2, switch_rails3, switch_rails4,
}
use locoloco.RailNetwork.Types.{
  RailNetwork, Checkpoint, Segment, priority0, priority1, track1, CheckpointId, checkpoint1,
  checkpoint2, checkpoint3, checkpoint4, checkpoint5, checkpoint6, SegmentId, TrackId, segment1,
  segment2, segment3, segment4, segment5, segment6, segment7, segment8, segment9, segment10,
}

abbrev checkpoints : List (CheckpointId × Checkpoint)
checkpoints =
    (
      checkpoint1,
      record {
        checkpoint_ids = (forward, checkpoint2 ∷ []) ∷ (backward, checkpoint6 ∷ []) ∷ [];
        track_id = track1;
        priority = priority0;
      },
    )
    ∷ (
      checkpoint2,
      record {
        checkpoint_ids =
            (forward, checkpoint3 ∷ []) ∷ (backward, checkpoint1 ∷ CheckpointId.station1 ∷ []) ∷ [];
        track_id = track1;
        priority = priority0;
      },
    )
    ∷ (
      checkpoint3,
      record {
        checkpoint_ids =
            (forward, checkpoint4 ∷ CheckpointId.station2 ∷ []) ∷ (backward, checkpoint2 ∷ []) ∷ [];
        track_id = track1;
        priority = priority0;
      },
    )
    ∷ (
      checkpoint4,
      record {
        checkpoint_ids = (forward, checkpoint5 ∷ []) ∷ (backward, checkpoint3 ∷ []) ∷ [];
        track_id = track1;
        priority = priority0;
      },
    )
    ∷ (
      checkpoint5,
      record {
        checkpoint_ids =
            (forward, checkpoint6 ∷ []) ∷ (backward, checkpoint4 ∷ CheckpointId.station2 ∷ []) ∷ [];
        track_id = track1;
        priority = priority0;
      },
    )
    ∷ (
      checkpoint6,
      record {
        checkpoint_ids =
            (forward, checkpoint1 ∷ CheckpointId.station1 ∷ []) ∷ (backward, checkpoint5 ∷ []) ∷ [];
        track_id = track1;
        priority = priority0;
      },
    )
    ∷ (
      CheckpointId.station1,
      record {
        checkpoint_ids = (forward, checkpoint2 ∷ []) ∷ (backward, checkpoint6 ∷ []) ∷ [];
        track_id = TrackId.station1;
        priority = priority1;
      },
    )
    ∷ (
      CheckpointId.station2,
      record {
        checkpoint_ids = (forward, checkpoint5 ∷ []) ∷ (backward, checkpoint3 ∷ []) ∷ [];
        track_id = TrackId.station2;
        priority = priority1;
      },
    )
    ∷ []

abbrev segments : List (SegmentId × Segment)
segments =
    (
      segment1,
      record {
        priority = priority0;
        switch_rails = record { actuator_id = switch_rails2; state = direct } ∷ [];
        conflicts = segment8 ∷ [];
      },
    )
    ∷ (segment2, record { priority = priority0; switch_rails = []; conflicts = [] })
    ∷ (
      segment3,
      record {
        priority = priority0;
        switch_rails = record { actuator_id = switch_rails3; state = direct } ∷ [];
        conflicts = segment9 ∷ [];
      },
    )
    ∷ (
      segment4,
      record {
        priority = priority0;
        switch_rails = record { actuator_id = switch_rails4; state = direct } ∷ [];
        conflicts = segment10 ∷ [];
      },
    )
    ∷ (segment5, record { priority = priority0; switch_rails = []; conflicts = [] })
    ∷ (
      segment6,
      record {
        priority = priority0;
        switch_rails = record { actuator_id = switch_rails1; state = direct } ∷ [];
        conflicts = segment7 ∷ [];
      },
    )
    ∷ (
      segment7,
      record {
        priority = priority1;
        switch_rails = record { actuator_id = switch_rails1; state = diverted } ∷ [];
        conflicts = segment6 ∷ [];
      },
    )
    ∷ (
      segment8,
      record {
        priority = priority1;
        switch_rails = record { actuator_id = switch_rails2; state = diverted } ∷ [];
        conflicts = segment1 ∷ [];
      },
    )
    ∷ (
      segment9,
      record {
        priority = priority1;
        switch_rails = record { actuator_id = switch_rails3; state = diverted } ∷ [];
        conflicts = segment3 ∷ [];
      },
    )
    ∷ (
      segment10,
      record {
        priority = priority1;
        switch_rails = record { actuator_id = switch_rails4; state = diverted } ∷ [];
        conflicts = segment4 ∷ [];
      },
    )
    ∷ []

unfoldable pub new : RailNetwork
new = record { checkpoints = checkpoints; segments = segments; longest_path = 6 }
