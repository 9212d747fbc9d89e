-- ===== src/RailNetwork/Arrival.antt =====
-- The searches of loco_controller/src/rail_network.rs, asked again at each checkpoint on the way.
use locoloco.Common.{
  ℕ, zero, suc, ◌≡◌, refl, Bool, true, false, Option, some, Result, ok, ◌==◌, arith, Bool-cases,
  inl, inr, none, panic, err,
}
use locoloco.Protocol.Types.{Direction}
use locoloco.RailNetwork.Types.{Error, CheckpointId, TrackId, checkpoint_id_eq, track_id_eq}
use locoloco.RailNetwork.Tables.{new}
use locoloco.RailNetwork.Every.{
  every_checkpoint, every_direction, every_track, every_checkpoint_sound, every_direction_sound,
  every_track_sound,
}
use locoloco.RailNetwork.Search.{
  checkpoint, next_checkpoint_id_for_track_id_target, next_checkpoint_id_for_checkpoint_id_target,
}

abbrev pub Hop : Type 0 → Type 0
Hop E = CheckpointId → Result E (Option CheckpointId)

-- Asked again at each checkpoint, `hop` leads to a checkpoint of `goal` in at most `n` hops.
pub data Arrives {E : Type 0} (hop : Hop E) (goal : CheckpointId → Bool)
    : ℕ → CheckpointId → Type 0 where
  now :
      {n : ℕ} {a : CheckpointId} (b : CheckpointId)
      → hop a ≡ ok (some b)
      → goal b ≡ true
      → Arrives hop goal (suc n) a
  later :
      {n : ℕ} {a : CheckpointId} (b : CheckpointId)
      → hop a ≡ ok (some b)
      → Arrives hop goal n b
      → Arrives hop goal (suc n) a

-- the checkpoint lies on the track
abbrev pub is_on : TrackId → CheckpointId → Bool
is_on t c = elim (checkpoint {E = Error} new c) [ ok cp ↦ cp.track_id == t | _ ↦ false ]

module _ {E : Type 0} where
  -- one hop: at the goal, or on from where it ends
  ends : (goal rest : CheckpointId → Bool) → Result E (Option CheckpointId) → Bool
  ends goal rest (ok (some b)) = elim (goal b) [ true ↦ true | false ↦ rest b ]
  ends goal rest _ = false

  arrives : Hop E → (CheckpointId → Bool) → ℕ → CheckpointId → Bool
  unfolding ends
  arrives hop goal zero a = false
  arrives hop goal (suc n) a = ends goal (arrives hop goal n) (hop a)

  module _ (hop : Hop E) (goal : CheckpointId → Bool) where
    ends_sound :
        (n : ℕ) (a : CheckpointId) (rest : CheckpointId → Bool) (r : Result E (Option CheckpointId))
        → ((b : CheckpointId) → rest b ≡ true → Arrives hop goal n b)
        → hop a ≡ r
        → ends goal rest r ≡ true
        → Arrives hop goal (suc n) a
    unfolding ends
    ends_sound n a rest (ok (some b)) on e h = elim (Bool-cases (goal b)) [
      | inl g ↦ now b e g
      | inr g ↦ later b e (on b (ground arith))
    ]
    ends_sound n a rest (ok none) on e h = cc
    ends_sound n a rest (err x) on e h = cc
    ends_sound n a rest panic on e h = cc

    arrives_sound : (n : ℕ) (a : CheckpointId) → arrives hop goal n a ≡ true → Arrives hop goal n a
    unfolding arrives
    arrives_sound zero a h = cc
    arrives_sound (suc n) a h =
        ends_sound n a (arrives hop goal n) (hop a) (λ b. arrives_sound n b) refl h

module _ (E : Type 0) where
  to_track_table :
      every_checkpoint (λ a. every_direction (λ d. every_track (λ t.
        arrives (λ c. next_checkpoint_id_for_track_id_target {E = E} new 0 c d t) (is_on t) 7 a)))
      ≡ true
  unfolding arrives next_checkpoint_id_for_track_id_target new every_checkpoint every_direction
      every_track
  to_track_table = refl

  to_checkpoint_table :
      every_checkpoint (λ a. every_direction (λ d. every_checkpoint (λ t.
        arrives
          (λ c. next_checkpoint_id_for_checkpoint_id_target {E = E} new 0 c d t)
          (λ c. c == t)
          7
          a)))
      ≡ true
  unfolding arrives next_checkpoint_id_for_checkpoint_id_target new every_checkpoint every_direction
  to_checkpoint_table = refl

module _ {E : Type 0} where
  -- From every checkpoint, in either direction, the next checkpoint towards a track is found each time
  -- it is asked for, and at most 7 hops lead to a checkpoint of the track.
  pub track_target-Arrives :
      (a : CheckpointId) (d : Direction) (t : TrackId)
      → Arrives (λ c. next_checkpoint_id_for_track_id_target {E = E} new 0 c d t) (is_on t) 7 a
  track_target-Arrives a d t = arrives_sound _ _ 7 a (
      every_track_sound _ t
        (every_direction_sound _ d (every_checkpoint_sound _ a (to_track_table E))))

  -- From every checkpoint, in either direction, the next checkpoint towards a checkpoint is found each
  -- time it is asked for, and at most 7 hops lead there.
  pub checkpoint_target-Arrives :
      (a : CheckpointId) (d : Direction) (t : CheckpointId)
      → Arrives
          (λ c. next_checkpoint_id_for_checkpoint_id_target {E = E} new 0 c d t)
          (λ c. c == t)
          7
          a
  checkpoint_target-Arrives a d t = arrives_sound _ _ 7 a (
      every_checkpoint_sound _ t
        (every_direction_sound _ d (every_checkpoint_sound _ a (to_checkpoint_table E))))
