-- ===== src/System/Switches.antt =====
-- A round of the oracle and the actuators' board behind it (loco_controller/src/oracle.rs,
-- loco_controller/src/backend.rs, actuators_pico/src/bin/actuators_pico.rs).
use locoloco.Common.{
  ℕ, ◌<◌, ◌≡◌, ◌≢◌, refl, sym, ap, subst, ◌∙◌, true, Option, some, List, [], ◌∷◌, ◌++◌, map, length,
  get, All, In, inl, inr, Bool-cases, Result, err, ◌==◌,
}
use locoloco.Protocol.Types.{LocoId, ActuatorId, actuator_id_eq}
use locoloco.RailNetwork.Types.{SegmentId, Segment, SwitchRails, segment_id_eq}
use locoloco.RailNetwork.Tables.{new}
use locoloco.Wire.{Wire, Traffic, IsWire}
use locoloco.Backend.Types.{Backend}
use locoloco.Backend.State.{loco_ids}
use locoloco.Oracle.Types.{Oracle, ActiveSegment}
use locoloco.Oracle.Controls.{actuator_control, determine_controls}
use locoloco.Oracle.Order.{sort_active_segments}
use locoloco.Oracle.Commands.{moving, loco_controls-determine_controls}
use locoloco.Oracle.Switches.{
  rails, rails_complete, rails_sound, rails_agree, actuator_controls-determine_controls,
}
use locoloco.Oracle.Process.{process}
use locoloco.Oracle.Safety.{IsFromTable}
use locoloco.Oracle.Round.{sorted-IsFromTable}
use locoloco.Pico.Socket.{Socket, IsSocket}
use locoloco.Pico.Replay.{all_bytes-append, all_bytes}
use locoloco.Pico.Actuators.Types.{Error, Level, Output, IsOutput, Actuators}
use locoloco.Pico.Actuators.Messages.{level_of, handle_messages}
use locoloco.Pico.Actuators.Switches.{IsWired, level_at}
use locoloco.Pico.Actuators.Replay.{
  last_level-append, Drive, bytes_of, last_level, handle_messages-IsDriven,
}
use locoloco.System.Links.{since, IsLinked, sent_to_actuators}
use locoloco.System.Commands.{switch_bytes}
use locoloco.System.Questions.{IsDistinct, Talk, known}
use locoloco.System.Round.{controls_of, taken_by, IsRound, process-IsRound}

abbrev drives : List SwitchRails → List Drive
drives rs = map (λ r. (r.actuator_id, r.state)) rs

switch_bytes-drives :
    (rs : List SwitchRails)
    → switch_bytes (map actuator_control rs) ≡ all_bytes bytes_of (drives rs)
switch_bytes-drives [] = refl
switch_bytes-drives (r ∷ rs) =
    ap (λ l. bytes_of (r.actuator_id, r.state) ++ l) (switch_bytes-drives rs)

-- All commands for a switch want one position.
abbrev Agree : SwitchRails → List SwitchRails → Type 0
Agree r rs = (a : SwitchRails) → In a rs → a.actuator_id ≡ r.actuator_id → a.state ≡ r.state

last_level-stays :
    (r : SwitchRails) (rs : List SwitchRails) (before : Option Level)
    → Agree r rs
    → before ≡ some (level_of r.state)
    → last_level r.actuator_id (drives rs) before ≡ some (level_of r.state)
last_level-stays r [] before agree e = e
last_level-stays r (x ∷ rs) before agree e =
    last_level-stays r rs _ (λ a m. agree a (inr m))
      (elim (Bool-cases (actuator_id_eq.beq x.actuator_id r.actuator_id)) [
        | inl same ↦ rw same (
            ap (λ s. some (level_of s))
              (agree x (inl refl) ((actuator_id_eq.beq_iff x.actuator_id r.actuator_id).0 same)))
        | inr differ ↦ rw differ e
      ])

last_level-In :
    (r : SwitchRails) (rs : List SwitchRails) (before : Option Level)
    → Agree r rs
    → In r rs
    → last_level r.actuator_id (drives rs) before ≡ some (level_of r.state)
last_level-In r [] before agree m = absurd m
last_level-In r (x ∷ rs) before agree (inr m) = last_level-In r rs _ (λ a n. agree a (inr n)) m
last_level-In r (x ∷ rs) before agree (inl e) =
    let same : (x.actuator_id == r.actuator_id) ≡ true =
      (actuator_id_eq.beq_iff x.actuator_id r.actuator_id).1 (ap (λ s. s.actuator_id) e) in
    last_level-stays r rs _ (λ a n. agree a (inr n))
      (rw same (ap (λ (s : SwitchRails). some (level_of s.state)) e))

last_level-absent :
    (j : ActuatorId) (rs : List SwitchRails) (before : Option Level)
    → ((a : SwitchRails) → In a rs → a.actuator_id ≢ j)
    → last_level j (drives rs) before ≡ before
last_level-absent j [] before h = refl
last_level-absent j (x ∷ rs) before h =
    last_level-absent j rs _ (λ a m. h a (inr m))
    ∙ elim (Bool-cases (actuator_id_eq.beq x.actuator_id j)) [
      | inl same ↦ absurd (h x (inl refl) ((actuator_id_eq.beq_iff x.actuator_id j).0 same))
      | inr differ ↦ rw differ refl
    ]

-- The switches of the segments that locos were sent onto are in the positions that these segments
-- want, and all others are where the earlier commands left them.
pub record IsPositioned {S G : Type 0} (level : G → Level) (taken : List SegmentId)
    (earlier : List Drive) (a : Actuators G)
    (result : Option (Result Error (Unit {0}) × S × Actuators G)) : Type 0 where
  pub error : Error
  pub socket : S
  pub state : Actuators G
  pub ended : result ≡ some (err error, socket, state)
  pub set :
      (id : SegmentId)
      → In id taken
      → (segment : Segment) × (get new.segments id ≡ some segment)
        × ((r : SwitchRails)
            → In r segment.switch_rails
            → level_at level state.switch_rails r.actuator_id ≡ some (level_of r.state))
  pub left :
      (j : ActuatorId)
      → ((id : SegmentId) (segment : Segment) (r : SwitchRails)
          → In id taken
          → get new.segments id ≡ some segment
          → In r segment.switch_rails
          → r.actuator_id ≢ j)
      → level_at level state.switch_rails j ≡ last_level j earlier (level_at level a.switch_rails j)

module _ {S G : Type 0} (k : Socket S) (t : Traffic S) (network : IsSocket k t) (o : Output G)
    (level : G → Level) (lawful : IsOutput o level) where
  switches-IsPositioned :
      (last : List (LocoId × SegmentId)) (sorted : List ActiveSegment)
      → All IsFromTable sorted
      → let c = determine_controls last sorted in
        (earlier : List Drive) (fuel : ℕ) (s : S) (a : Actuators G)
        → IsWired a
        → t.incoming s ≡ all_bytes bytes_of earlier ++ switch_bytes c.actuator_controls
        → length (t.incoming s) < fuel
        → IsPositioned level
            (moving sorted c.loco_controls)
            earlier
            a
            (handle_messages k o fuel s a)
  switches-IsPositioned last sorted table earlier fuel s a wired e h =
      let rs = rails [] sorted in
      let sent = loco_controls-determine_controls last sorted in
      let e' : t.incoming s ≡ all_bytes bytes_of (earlier ++ drives rs) =
        e
        ∙ ap (λ l. all_bytes bytes_of earlier ++ l)
            (ap switch_bytes (actuator_controls-determine_controls last sorted)
              ∙ switch_bytes-drives rs)
        ∙ sym (all_bytes-append bytes_of earlier (drives rs)) in
      let r =
        handle_messages-IsDriven k t network o level lawful (earlier ++ drives rs) fuel s a wired e'
          (subst (λ l. length l < fuel) e' h) in
      record {
        error = r.error;
        socket = r.socket;
        state = r.state;
        ended = r.ended;
        set = λ id m.
            let ((segment, at), inside) =
              rails_complete [] sorted id table (subst (λ l. In id (moving sorted l)) sent m) in
            (
              segment,
              at,
              λ x n.
                  r.levels x.actuator_id
                  ∙ last_level-append x.actuator_id earlier (drives rs) _
                  ∙ last_level-In x rs _
                      (λ y n' same. rails_agree last sorted y x table n' (inside x n) same)
                      (inside x n),
            );
        left = λ j free.
            r.levels j
            ∙ last_level-append j earlier (drives rs) _
            ∙ last_level-absent j rs _ (λ x n.
              let (id, (segment, at), m, mine) = rails_sound [] sorted x table n in
              free id segment x (subst (λ l. In id (moving sorted l)) (sym sent) m) at mine);
      }

module _ {S T G : Type 0} (w : Wire S) (t : Traffic S) (wired : IsWire w t)
    (writing : (s : S) (m : List ℕ) → (w.write_all s m).0 ≡ true) (k : Socket T) (u : Traffic T)
    (network : IsSocket k u) (o : Output G) (level : G → Level) (lawful : IsOutput o level) where
  -- Under the laws of `IsWire`, `IsSocket` and `IsOutput`, while writes succeed, for a round of the
  -- oracle as in `process-IsRound`: take the actuators' board, whose array has every switch once,
  -- when the controller has written `base` to the actuators. Let it receive exactly what the
  -- controller then wrote, which is some commands for switches, then what the round wrote, and then
  -- the end of the connection. With more fuel than bytes, the board's `handle_messages` ends. Then
  -- each switch of each segment onto which the round sent a loco is in the position that the table
  -- wants for that segment, and every switch that none of these segments has is where the commands
  -- before the round left it.
  pub process-IsPositioned :
      (oracle : Oracle) (b : Backend S) (talk : (id : LocoId) → Talk t b id) (base : List ℕ)
      (earlier : List Drive) (fuel : ℕ) (s : T) (a : Actuators G)
      → oracle.rail_network ≡ new
      → b.oracle_enabled ≡ true
      → IsLinked b
      → IsDistinct (loco_ids b)
      → IsWired a
      → sent_to_actuators t b ≡ base ++ all_bytes bytes_of earlier
      → let out = process w oracle b in
        sent_to_actuators t out.2 ≡ base ++ u.incoming s
        → length (u.incoming s) < fuel
        → (round : IsRound w t wired writing oracle b talk out) × IsPositioned level
            (taken_by oracle round.segments)
            earlier
            a
            (handle_messages k o fuel s a)
  process-IsPositioned oracle b talk base earlier fuel s a tables on h distinct full history carried
        enough =
      let round = process-IsRound w t wired writing oracle b talk tables on h distinct in
      let c = controls_of oracle round.segments in
      let arrived =
        since base (all_bytes bytes_of earlier) (switch_bytes c.actuator_controls) (u.incoming s)
          history round.writes.to_actuators carried in
      (
        round,
        switches-IsPositioned k u network o level lawful oracle.last_segment_id
            (sort_active_segments oracle.last_segment_id round.segments)
            (sorted-IsFromTable oracle.last_segment_id (map (known b talk) (loco_ids b))
              round.segments round.found)
            earlier fuel s a full arrived enough,
      )
