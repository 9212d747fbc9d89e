-- ===== src/Oracle/Grants.antt =====
-- The commands of a round and the segments behind them (loco_controller/src/oracle.rs).
use locoloco.Common.{
  ◌≡◌, refl, sym, ap, ◌∙◌, some, List, [], ◌∷◌, ◌++◌, In, inl, inr, Option-cases, arith,
}
use locoloco.Protocol.Types.{Speed, normal, stop}
use locoloco.RailNetwork.Types.{SegmentId}
use locoloco.Oracle.Types.{ActiveSegment, LocoControl}
use locoloco.Oracle.Commands.{entered, added, speed_for, moving, commands}
use locoloco.Oracle.Switches.{taken-here, taken-later}

-- The segment that a loco is sent onto, or the stop.
pub data IsGranted (s : ActiveSegment) (taken : List SegmentId) (v : Speed) : Type 0 where
  sent_off : (id : SegmentId) → s.id ≡ some id → In id taken → v ≡ normal → IsGranted s taken v
  stopped : v ≡ stop → IsGranted s taken v

-- Where a command comes from.
pub record IsCaused (segments : List ActiveSegment) (taken : List SegmentId) (k : LocoControl)
    : Type 0 where
  pub segment : ActiveSegment
  pub listed : In segment segments
  pub loco : segment.loco_id ≡ k.0
  pub direction : segment.direction ≡ k.1
  pub granted : IsGranted segment taken k.2

id-entered :
    (busy : List SegmentId) (s : ActiveSegment) (id : SegmentId)
    → entered busy s ≡ some id
    → s.id ≡ some id
id-entered busy s id e = ground arith

IsGranted-later :
    {s : ActiveSegment} {taken taken' : List SegmentId} {v : Speed}
    → ((id : SegmentId) → In id taken → In id taken')
    → IsGranted s taken v
    → IsGranted s taken' v
IsGranted-later f (sent_off id e m n) = sent_off id e (f id m) n
IsGranted-later f (stopped e) = stopped e

-- Each command stems from an active segment: it sends its loco off where that was granted, and stops it
-- otherwise.
pub commands-IsCaused :
    (busy : List SegmentId) (segments : List ActiveSegment) (k : LocoControl)
    → In k (commands busy segments)
    → IsCaused segments (moving segments (commands busy segments)) k
unfolding commands
commands-IsCaused busy [] k m = absurd m
commands-IsCaused busy (s ∷ rest) k (inl e) = record {
  segment = s;
  listed = inl refl;
  loco = ap (λ (c : LocoControl). c.0) e;
  direction = ap (λ (c : LocoControl). c.1) e;
  granted = elim (Option-cases (entered busy s)) [
    | inl nothing ↦ stopped (sym (ap (λ (c : LocoControl). c.2) e) ∙ ap speed_for nothing)
    | inr (id, f) ↦
        sent_off id (id-entered busy s id f) (taken-here busy s rest id f)
          (sym (ap (λ (c : LocoControl). c.2) e) ∙ ap speed_for f)
  ];
}
commands-IsCaused busy (s ∷ rest) k (inr m) =
    let c = commands-IsCaused (busy ++ added (entered busy s)) rest k m in
    record {
      segment = c.segment;
      listed = inr c.listed;
      loco = c.loco;
      direction = c.direction;
      granted = IsGranted-later (λ id n. taken-later busy s rest id n) c.granted;
    }
