-- ===== src/Oracle/Segments.antt =====
-- `determine_active_segments` of loco_controller/src/oracle.rs, from the list of active locos on.
use locoloco.Common.{
  none, some, List, [], ◌∷◌, Result, ok, map_err, ok_or, ◌>>=◌, ◌==◌, contains, if◌then◌else◌,
}
use locoloco.Protocol.Types.{LocoId, Direction, Speed, speed_eq}
use locoloco.RailNetwork.Types.{CheckpointId, RailNetwork, checkpoint_id_eq}
use locoloco.RailNetwork.Convert.{try_into_segment_id}
use locoloco.RailNetwork.Search.{
  segment, next_checkpoint_id_for_track_id_target, next_checkpoint_id_for_checkpoint_id_target,
}
use locoloco.Backend.Types.{LocoIntent, drive}
use locoloco.Oracle.Types.{
  Error, ActiveLoco, ActiveSegment, convert_checkpoints_into_segment_id, next_checkpoint_not_found,
}

-- the first loop: the checkpoints at which a loco stands still
unfoldable pub busy_checkpoint_ids : List ActiveLoco → List CheckpointId
busy_checkpoint_ids [] = []
busy_checkpoint_ids (l ∷ ls) =
    let rest = busy_checkpoint_ids ls in
    elim l.location [
      | some location ↦ if l.speed == Speed.stop then location ∷ rest else rest
      | none ↦ rest
    ]

-- the active segment of a loco that has to wait
abbrev pub halted : LocoId → Direction → ActiveSegment
halted loco_id direction = record {
  id = none;
  segment = none;
  direction = direction;
  loco_id = loco_id;
}

-- a loco at `here` on its way to `next`
unfoldable pub towards :
    RailNetwork
    → List CheckpointId
    → LocoId
    → CheckpointId
    → Direction
    → CheckpointId
    → Result Error ActiveSegment
unfolding try_into_segment_id segment
towards net busy loco_id here direction next =
    if contains busy next then ok (halted loco_id direction) else do
      id ← map_err convert_checkpoints_into_segment_id (try_into_segment_id here next)
      found ← segment net id
      ok (record { id = some id; segment = some found; direction = direction; loco_id = loco_id })

-- a loco with a location and an intent
unfoldable pub active_for :
    RailNetwork
    → List CheckpointId
    → LocoId
    → CheckpointId
    → LocoIntent
    → Result Error ActiveSegment
unfolding towards next_checkpoint_id_for_track_id_target next_checkpoint_id_for_checkpoint_id_target
active_for net busy loco_id here (drive direction target) = do
  found ← next_checkpoint_id_for_track_id_target net 0 here direction target
  next ← ok_or next_checkpoint_not_found found
  towards net busy loco_id here direction next
active_for net busy loco_id here (LocoIntent.stop direction target) =
    if target == here then ok (halted loco_id direction) else do
      found ← next_checkpoint_id_for_checkpoint_id_target net 0 here direction target
      next ← ok_or next_checkpoint_not_found found
      towards net busy loco_id here direction next

-- the second loop; a loco with no location or no intent is passed over
unfoldable pub segments_of :
    RailNetwork → List CheckpointId → List ActiveLoco → Result Error (List ActiveSegment)
unfolding active_for
segments_of net busy [] = ok []
segments_of net busy (l ∷ ls) =
    let rest = segments_of net busy ls in
    elim l.location [
      | none ↦ rest
      | some here ↦ elim l.intent [
        | none ↦ rest
        | some intent ↦ do
          active ← active_for net busy l.id here intent
          more ← rest
          ok (active ∷ more)
      ]
    ]

unfoldable pub determine_active_segments_from :
    RailNetwork → List ActiveLoco → Result Error (List ActiveSegment)
unfolding busy_checkpoint_ids segments_of
determine_active_segments_from net locos = segments_of net (busy_checkpoint_ids locos) locos
