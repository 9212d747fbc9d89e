-- ===== src/RailNetwork/Convert.antt =====
-- The conversions of loco_controller/src/rail_network.rs: a sensor to its checkpoint, and two
-- neighbouring checkpoints to the segment between them.
use locoloco.Common.{Result, ok, err}
use locoloco.Protocol.Types.{
  SensorId, rfid_reader1, rfid_reader2, rfid_reader3, rfid_reader4, rfid_reader5, rfid_reader6,
  rfid_reader7, rfid_reader8,
}
use locoloco.RailNetwork.Types.{
  Error, convert_checkpoints_into_segment_id, CheckpointId, checkpoint1, checkpoint2, checkpoint3,
  checkpoint4, checkpoint5, checkpoint6, CheckpointId.station1, CheckpointId.station2, SegmentId,
  segment1, segment2, segment3, segment4, segment5, segment6, segment7, segment8, segment9,
  segment10,
}

-- `Into<CheckpointId> for SensorId`
unfoldable pub into_checkpoint_id : SensorId → CheckpointId
into_checkpoint_id rfid_reader1 = checkpoint1
into_checkpoint_id rfid_reader2 = checkpoint2
into_checkpoint_id rfid_reader3 = checkpoint3
into_checkpoint_id rfid_reader4 = checkpoint4
into_checkpoint_id rfid_reader5 = checkpoint5
into_checkpoint_id rfid_reader6 = checkpoint6
into_checkpoint_id rfid_reader7 = station1
into_checkpoint_id rfid_reader8 = station2

-- `TryInto<SegmentId> for (CheckpointId, CheckpointId)`
unfoldable pub try_into_segment_id : CheckpointId → CheckpointId → Result Error SegmentId
try_into_segment_id checkpoint1 checkpoint2 = ok segment1
try_into_segment_id checkpoint2 checkpoint1 = ok segment1
try_into_segment_id checkpoint2 checkpoint3 = ok segment2
try_into_segment_id checkpoint3 checkpoint2 = ok segment2
try_into_segment_id checkpoint3 checkpoint4 = ok segment3
try_into_segment_id checkpoint4 checkpoint3 = ok segment3
try_into_segment_id checkpoint4 checkpoint5 = ok segment4
try_into_segment_id checkpoint5 checkpoint4 = ok segment4
try_into_segment_id checkpoint5 checkpoint6 = ok segment5
try_into_segment_id checkpoint6 checkpoint5 = ok segment5
try_into_segment_id checkpoint6 checkpoint1 = ok segment6
try_into_segment_id checkpoint1 checkpoint6 = ok segment6
try_into_segment_id checkpoint6 station1 = ok segment7
try_into_segment_id station1 checkpoint6 = ok segment7
try_into_segment_id station1 checkpoint2 = ok segment8
try_into_segment_id checkpoint2 station1 = ok segment8
try_into_segment_id checkpoint3 station2 = ok segment9
try_into_segment_id station2 checkpoint3 = ok segment9
try_into_segment_id checkpoint5 station2 = ok segment10
try_into_segment_id station2 checkpoint5 = ok segment10
try_into_segment_id _ _ = err convert_checkpoints_into_segment_id
