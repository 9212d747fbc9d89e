-- ===== src/Oracle/Intents.antt =====
-- What the active segments of a round should be (`determine_active_segments` of
-- loco_controller/src/oracle.rs), told by the intents of the locos and by where they stand.
use locoloco.Common.{
  ◌≡◌, ◌⊎◌, refl, ap, none, some, List, [], ◌∷◌, ok, ◌==◌, get, In, Bool-cases, Option-cases, inl,
  inr, arith, ◌∙◌,
}
use locoloco.Protocol.Types.{LocoId, Direction, Speed, speed_eq}
use locoloco.RailNetwork.Types.{CheckpointId, SegmentId, Segment, checkpoint_id_eq, segment_id_eq}
use locoloco.RailNetwork.Convert.{try_into_segment_id}
use locoloco.RailNetwork.Tables.{new}
use locoloco.RailNetwork.Soundness.{IsOn, Route}
use locoloco.Backend.Types.{LocoIntent, drive}
use locoloco.Oracle.Types.{ActiveLoco, ActiveSegment}
use locoloco.Oracle.Segments.{busy_checkpoint_ids}

-- The direction that an intent gives.
abbrev pub heading : LocoIntent → Direction
heading (drive d _) = d
heading (LocoIntent.stop d _) = d

-- What an intent aims at, on the tables of `new`.
abbrev pub Aim : LocoIntent → CheckpointId → Type 0
Aim (drive _ t) c = IsOn new t c
Aim (LocoIntent.stop _ t) c = c ≡ t

-- One of the locos stands at the checkpoint.
pub record Stands (all : List ActiveLoco) (c : CheckpointId) : Type 0 where
  pub loco : ActiveLoco
  pub listed : In loco all
  pub at : loco.location ≡ some c
  pub still : loco.speed ≡ Speed.stop

-- The loco at `here` waits: it is where it should stop, or a loco stands at its next checkpoint.
pub data Waits (all : List ActiveLoco) (here : CheckpointId) (intent : LocoIntent) : Type 0 where
  there : intent ≡ LocoIntent.stop (heading intent) here → Waits all here intent
  blocked :
      (next : CheckpointId)
      → Route new (heading intent) (Aim intent) here next
      → Stands all next
      → Waits all here intent

-- The loco at `here` wants the segment `id` to the first checkpoint of a route to its aim.
pub record Wants (all : List ActiveLoco) (here : CheckpointId) (intent : LocoIntent)
    (id : SegmentId) : Type 0 where
  pub next : CheckpointId
  pub route : Route new (heading intent) (Aim intent) here next
  pub free : ¬ Stands all next
  pub between : try_into_segment_id here next ≡ ok id

-- The active segment `s` of a loco at `here` with an intent.
pub data Planned (all : List ActiveLoco) (loco_id : LocoId) (here : CheckpointId)
    (intent : LocoIntent) : ActiveSegment → Type 0 where
  waits :
      Waits all here intent
      → Planned all loco_id here intent
          (record { id = none; segment = none; direction = heading intent; loco_id = loco_id })
  wants :
      (id : SegmentId) (found : Segment)
      → Wants all here intent id
      → get new.segments id ≡ some found
      → Planned all loco_id here intent (record {
        id = some id;
        segment = some found;
        direction = heading intent;
        loco_id = loco_id;
      })

-- One active segment for each loco with a location and an intent, in the order of the locos.
pub data Plans (all : List ActiveLoco) : List ActiveLoco → List ActiveSegment → Type 0 where
  done : Plans all [] []
  skip :
      {l : ActiveLoco} {ls : List ActiveLoco} {ss : List ActiveSegment}
      → (l.location ≡ none) ⊎ (l.intent ≡ none)
      → Plans all ls ss
      → Plans all (l ∷ ls) ss
  plan :
      {l : ActiveLoco} {ls : List ActiveLoco} {s : ActiveSegment} {ss : List ActiveSegment}
      (here : CheckpointId) (intent : LocoIntent)
      → l.location ≡ some here
      → l.intent ≡ some intent
      → Planned all l.id here intent s
      → Plans all ls ss
      → Plans all (l ∷ ls) (s ∷ ss)

module _ {c : CheckpointId} {l : ActiveLoco} {ls : List ActiveLoco} where
  Stands-later : Stands ls c → Stands (l ∷ ls) c
  Stands-later s = record { loco = s.loco; listed = inr s.listed; at = s.at; still = s.still }

  Stands-cons : Stands (l ∷ ls) c → ((l.location ≡ some c) × (l.speed ≡ Speed.stop)) ⊎ Stands ls c
  Stands-cons s = elim s.listed [
    | inl e ↦ inl (ap (λ x. x.location) e ∙ s.at, ap (λ x. x.speed) e ∙ s.still)
    | inr m ↦ inr (record { loco = s.loco; listed = m; at = s.at; still = s.still })
  ]

-- what the first loop collects
pub busy_checkpoint_ids_iff :
    (c : CheckpointId) (all : List ActiveLoco)
    → (In c (busy_checkpoint_ids all) → Stands all c)
      × (Stands all c → In c (busy_checkpoint_ids all))
unfolding busy_checkpoint_ids
busy_checkpoint_ids_iff c [] = (λ m. absurd m, λ s. absurd s.listed)
busy_checkpoint_ids_iff c (l ∷ ls) =
    let (stands, listed) = busy_checkpoint_ids_iff c ls in
    elim (Option-cases l.location) [
      | inl lost ↦ simp lost (
        λ m. Stands-later (stands m),
        λ s. elim (Stands-cons s) [ inl (at, still) ↦ cc (lost, at) | inr s' ↦ listed s' ],
      )
      | inr (here, at) ↦ elim (Bool-cases (l.speed == Speed.stop)) [
        | inl e ↦
            simp (at, e)
              (
                λ m. elim m [
                  | inl same ↦ record {
                    loco = l;
                    listed = inl refl;
                    at = at ∙ ap some same;
                    still = (speed_eq.beq_iff l.speed Speed.stop).0 e;
                  }
                  | inr m' ↦ Stands-later (stands m')
                ],
                λ s. elim (Stands-cons s) [ inl (at', still) ↦ inl cc | inr s' ↦ inr (listed s') ],
              )
        | inr e ↦
            simp (at, e)
              (
                λ m. Stands-later (stands m),
                λ s. elim (Stands-cons s) [
                  | inl (at', still) ↦ ground (arith, (speed_eq.beq_iff l.speed Speed.stop).1 still)
                  | inr s' ↦ listed s'
                ],
              )
      ]
    ]
