-- ===== src/Oracle/Plans.antt =====
-- `determine_active_segments` of loco_controller/src/oracle.rs on the tables of `RailNetwork::new`:
-- what the active segments are, as the intents of the locos give them.
use locoloco.Common.{
  ℕ, ◌≡◌, refl, ap, Bool, Option, some, List, [], ◌∷◌, Result, ok, ◌==◌, contains, contains_iff_In,
  All, Bool-cases, Option-cases, inl, inr, arith,
}
use locoloco.Protocol.Types.{LocoId, Direction, forward, backward, speed_eq}
use locoloco.RailNetwork.Types.{
  CheckpointId, SegmentId, RailNetwork, checkpoint_id_eq, segment_id_eq,
}
use locoloco.RailNetwork.Convert.{try_into_segment_id}
use locoloco.RailNetwork.Tables.{new}
use locoloco.RailNetwork.Search.{segment}
use locoloco.RailNetwork.Soundness.{
  IsNext, Route, arrive, via, track_target-Route, checkpoint_target-Route,
}
use locoloco.RailNetwork.Topology.{get_segment, try_into_segment_id_iff}
use locoloco.RailNetwork.Arrival.{
  Arrives, now, later, track_target-Arrives, checkpoint_target-Arrives,
}
use locoloco.Backend.Types.{LocoIntent, drive}
use locoloco.Oracle.Types.{Error, ActiveLoco, ActiveSegment}
use locoloco.Oracle.Segments.{
  busy_checkpoint_ids, halted, towards, active_for, segments_of, determine_active_segments_from,
}
use locoloco.Oracle.Safety.{IsFromTable}
use locoloco.Oracle.Intents.{
  heading, Aim, there, blocked, Planned, waits, wants, Plans, done, skip, plan,
  busy_checkpoint_ids_iff,
}

-- the first hop of a route is a neighbour
Route-IsNext :
    {net : RailNetwork} {d : Direction} {goal : CheckpointId → Type 0} {a b : CheckpointId}
    → Route net d goal a b
    → IsNext net d a b
Route-IsNext (arrive n g) = n
Route-IsNext (via n r) = n

segment_between :
    (d : Direction) (a b : CheckpointId)
    → IsNext new d a b
    → (s : SegmentId) × (try_into_segment_id a b ≡ ok s)
segment_between forward a b n = (try_into_segment_id_iff a b).1 (inl n)
segment_between backward a b n = (try_into_segment_id_iff a b).1 (inr n)

module _ (all : List ActiveLoco) (loco_id : LocoId) (here : CheckpointId) where
  towards-Planned :
      (next : CheckpointId) (intent : LocoIntent)
      → Route new (heading intent) (Aim intent) here next
      → (s : ActiveSegment) × (towards new
            (busy_checkpoint_ids all)
            loco_id
            here
            (heading intent)
            next
          ≡ ok s)
        × Planned all loco_id here intent s
  unfolding towards
  towards-Planned next intent r =
      let busy = busy_checkpoint_ids all in
      elim (Bool-cases (contains busy next)) [
        | inl e ↦ (
          halted loco_id (heading intent),
          rw e,
          waits (
              blocked next r
                ((busy_checkpoint_ids_iff next all).0 ((contains_iff_In busy next).0 e))),
        )
        | inr e ↦
            let (id, between) = segment_between (heading intent) here next (Route-IsNext r) in
            let (found, at) = get_segment id in
            (
              record {
                id = some id;
                segment = some found;
                direction = heading intent;
                loco_id = loco_id;
              },
              rw (e, between, at),
              wants id found
                  (record {
                    next = next;
                    route = r;
                    free = λ s.
                        let m = (busy_checkpoint_ids_iff next all).1 s in
                        ground (arith, (contains_iff_In busy next).1 m);
                    between = between;
                  })
                  at,
            )
      ]

-- the next checkpoint is found
found_next :
    {E : Type 0} {hop : CheckpointId → Result E (Option CheckpointId)} {goal : CheckpointId → Bool}
    {n : ℕ} {a : CheckpointId}
    → Arrives hop goal n a
    → (b : CheckpointId) × (hop a ≡ ok (some b))
found_next (now b e g) = (b, e)
found_next (later b e r) = (b, e)

active_for-Planned :
    (all : List ActiveLoco) (loco_id : LocoId) (here : CheckpointId) (intent : LocoIntent)
    → (s : ActiveSegment) × (active_for new (busy_checkpoint_ids all) loco_id here intent ≡ ok s)
      × Planned all loco_id here intent s
unfolding active_for
active_for-Planned all loco_id here (drive d t) =
    let (next, e) = found_next (track_target-Arrives {E = Error} here d t) in
    let route = track_target-Route new 0 here next d t e in
    let (s, e', p) = towards-Planned all loco_id here next (drive d t) route in (s, rw e e', p)
active_for-Planned all loco_id here (LocoIntent.stop d t) = elim (Bool-cases (t == here)) [
  | inl same ↦
      let at = (checkpoint_id_eq.beq_iff t here).0 same in
      (halted loco_id d, rw same, waits (there (ap (LocoIntent.stop d) at)))
  | inr other ↦
      let (next, e) = found_next (checkpoint_target-Arrives {E = Error} here d t) in
      let route = checkpoint_target-Route new 0 here next d t e in
      let (s, e', p) = towards-Planned all loco_id here next (LocoIntent.stop d t) route in
      (s, rw (other, e) e', p)
]

segments_of-Plans :
    (all ls : List ActiveLoco)
    → (ss : List ActiveSegment) × (segments_of new (busy_checkpoint_ids all) ls ≡ ok ss)
      × Plans all ls ss
unfolding segments_of
segments_of-Plans all [] = ([], refl, done)
segments_of-Plans all (l ∷ ls) =
    let (ss, e, p) = segments_of-Plans all ls in
    elim (Option-cases l.location) [
      | inl lost ↦ (ss, simp lost e, skip (inl lost) p)
      | inr (here, at) ↦ elim (Option-cases l.intent) [
        | inl idle ↦ (ss, simp (at, idle) e, skip (inr idle) p)
        | inr (intent, wish) ↦
            let (s, e', q) = active_for-Planned all l.id here intent in
            (s ∷ ss, simp (at, wish, e, e'), plan here intent at wish q p)
      ]
    ]

pub determine_active_segments-Plans :
    (locos : List ActiveLoco)
    → (segments : List ActiveSegment) × (determine_active_segments_from new locos ≡ ok segments)
      × Plans locos locos segments
unfolding determine_active_segments_from
determine_active_segments-Plans locos = segments_of-Plans locos locos

Planned-IsFromTable :
    {all : List ActiveLoco} {loco_id : LocoId} {here : CheckpointId} {intent : LocoIntent}
    {s : ActiveSegment}
    → Planned all loco_id here intent s
    → IsFromTable s
Planned-IsFromTable (waits w) id segment e e' = cc
Planned-IsFromTable (wants i found w at) id segment e e' = cc (e, e', at)

-- Planned active segments carry their entries of the table.
pub Plans-IsFromTable :
    {all : List ActiveLoco} {ls : List ActiveLoco} {ss : List ActiveSegment}
    → Plans all ls ss
    → All IsFromTable ss
Plans-IsFromTable done = tt
Plans-IsFromTable (skip w p) = Plans-IsFromTable p
Plans-IsFromTable (plan here intent at wish q p) = (Planned-IsFromTable q, Plans-IsFromTable p)
