-- ===== src/Examples/Railway.antt =====
-- The protocol's codes and the railway's searches on concrete values.
use locoloco.Common.{◌≤◌, ◌≡◌, refl, ◌⊎◌, ◌↔◌, some, ok, err, arith, ◌==◌}
use locoloco.Protocol.Types.{forward, backward, pwm_duty_cycle, unknown_speed}
use locoloco.Protocol.Speed as Speed
use locoloco.RailNetwork.Types.{
  Error, SegmentId, TrackId, checkpoint1, checkpoint2, checkpoint3, segment1, segment8,
  checkpoint_id_eq,
}
use locoloco.RailNetwork.Convert.{try_into_segment_id}
use locoloco.RailNetwork.Tables.{new}
use locoloco.RailNetwork.Search.{
  next_checkpoint_id_for_track_id_target, next_checkpoint_id_for_checkpoint_id_target,
}
use locoloco.RailNetwork.Soundness.{
  IsNext, IsOn, Route, track_target-Route, checkpoint_target-Route,
}
use locoloco.RailNetwork.Arrival.{Arrives, is_on, track_target-Arrives, checkpoint_target-Arrives}
use locoloco.RailNetwork.Topology.{try_into_segment_id_iff}
use locoloco.RailNetwork.Conflicts.{IsConflict, IsOpposed, IsConflict-iff_IsOpposed}

speed_iff_example :
    (Speed.try_from (Speed.into (pwm_duty_cycle 60)) ≡ ok (pwm_duty_cycle 60))
    ↔ Speed.IsReadable (pwm_duty_cycle 60)
speed_iff_example = Speed.try_from-into_iff (pwm_duty_cycle 60)

full_duty : 100 ≤ 100
full_duty = omega arith

speed_full_example :
    (Speed.into (pwm_duty_cycle 100) ≡ 200)
    × (Speed.try_from (Speed.into (pwm_duty_cycle 100)) ≡ err (unknown_speed 200))
speed_full_example = Speed.try_from-into_full 100 full_duty

read_150 : Speed.try_from 150 ≡ ok (pwm_duty_cycle 50)
unfolding Speed.try_from
read_150 = refl

to_station :
    next_checkpoint_id_for_track_id_target {E = Error} new 0 checkpoint1 forward TrackId.station2
    ≡ ok (some checkpoint2)
unfolding next_checkpoint_id_for_track_id_target new
to_station = refl

track_target-Route_example : Route new forward (IsOn new TrackId.station2) checkpoint1 checkpoint2
track_target-Route_example =
    track_target-Route {E = Error} new 0 checkpoint1 checkpoint2 forward TrackId.station2 to_station

to_checkpoint :
    next_checkpoint_id_for_checkpoint_id_target {E = Error} new 0 checkpoint1 forward checkpoint3
    ≡ ok (some checkpoint2)
unfolding next_checkpoint_id_for_checkpoint_id_target new
to_checkpoint = refl

checkpoint_target-Route_example : Route new forward (λ c. c ≡ checkpoint3) checkpoint1 checkpoint2
checkpoint_target-Route_example =
    checkpoint_target-Route {E = Error} new 0 checkpoint1 checkpoint2 forward checkpoint3
      to_checkpoint

track_target-Arrives_example :
    Arrives
      (λ c. next_checkpoint_id_for_track_id_target {E = Error} new 0 c backward TrackId.station1)
      (is_on TrackId.station1)
      7
      checkpoint1
track_target-Arrives_example =
    track_target-Arrives {E = Error} checkpoint1 backward TrackId.station1

checkpoint_target-Arrives_example :
    Arrives
      (λ c. next_checkpoint_id_for_checkpoint_id_target {E = Error} new 0 c backward checkpoint2)
      (λ c. c == checkpoint2)
      7
      checkpoint1
checkpoint_target-Arrives_example =
    checkpoint_target-Arrives {E = Error} checkpoint1 backward checkpoint2

IsConflict-iff_IsOpposed_example :
    IsConflict new segment1 segment8 ↔ IsOpposed new segment1 segment8
IsConflict-iff_IsOpposed_example = IsConflict-iff_IsOpposed segment1 segment8

segment_iff_example :
    ((s : SegmentId) × (try_into_segment_id checkpoint1 checkpoint3 ≡ ok s))
    ↔ (IsNext new forward checkpoint1 checkpoint3 ⊎ IsNext new backward checkpoint1 checkpoint3)
segment_iff_example = try_into_segment_id_iff checkpoint1 checkpoint3

one_way : try_into_segment_id checkpoint1 checkpoint2 ≡ ok segment1
unfolding try_into_segment_id
one_way = refl

other_way : try_into_segment_id checkpoint2 checkpoint1 ≡ ok segment1
unfolding try_into_segment_id
other_way = refl
