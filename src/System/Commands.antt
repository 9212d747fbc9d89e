-- ===== src/System/Commands.antt =====
-- The commands of a round on the streams (loco_controller/src/oracle.rs,
-- loco_controller/src/backend.rs).
use locoloco.Common.{
  ℕ, ◌≡◌, refl, sym, ap, subst, ◌∙◌, true, some, List, [], ◌∷◌, ◌++◌, ok, insert, arith,
}
use locoloco.Protocol.Types.{
  LocoId, loco_id_eq, Direction, forward, Speed, stop, ActuatorId, ActuatorType,
}
use locoloco.Protocol.Direction
use locoloco.Protocol.Speed
use locoloco.Protocol.ActuatorId
use locoloco.Protocol.ActuatorType
use locoloco.Wire.{Wire, Traffic, IsWire}
use locoloco.Backend.Types.{Backend}
use locoloco.Backend.Locos as Locos
use locoloco.Backend.Locos.{send}
use locoloco.Backend.Actuators as Actuators
use locoloco.Backend.Actuators.{send_actuators}
use locoloco.Backend.Totality.{with_loco_info_lem}
use locoloco.Backend.Delivery.{requests, control_loco-eq, send-written}
use locoloco.Oracle.Types.{ActuatorControl, LocoControl}
use locoloco.Oracle.Process.{go_on, drive_all, control_each, apply_controls}
use locoloco.System.Links.{
  IsLinked, only, nothing, Writes, Writes-none, Writes-append, Writes-replaced, sent_to_actuators,
}

-- The frames of the commands for the switches.
abbrev pub switch_bytes : List ActuatorControl → List ℕ
switch_bytes [] = []
switch_bytes ((id, kind, state) ∷ rest) =
    (0xab ∷ 5 ∷ 3 ∷ ActuatorId.into id ∷ ActuatorType.into kind ∷ state ∷ []) ++ switch_bytes rest

-- The frames of the commands for one loco.
abbrev pub command_bytes : List LocoControl → LocoId → List ℕ
command_bytes [] j = []
command_bytes ((id, d, s) ∷ rest) j =
    only id (0xab ∷ 2 ∷ 2 ∷ Direction.into d ∷ Speed.into s ∷ []) j ++ command_bytes rest j

module _ {S : Type 0} (w : Wire S) (t : Traffic S) (wired : IsWire w t)
    (writing : (s : S) (m : List ℕ) → (w.write_all s m).0 ≡ true) where
  control-Writes :
      (id : LocoId) (d : Direction) (s : Speed) (b : Backend S)
      → IsLinked b
      → let out = Locos.control_loco w id d s b in
        (out.0 ≡ ok tt)
        × Writes t b (only id (0xab ∷ 2 ∷ 2 ∷ Direction.into d ∷ Speed.into s ∷ [])) [] out.1
  control-Writes id d s b h =
      let l = h.link id in
      let m : List ℕ = 0xab ∷ 2 ∷ 2 ∷ Direction.into d ∷ Speed.into s ∷ [] in
      let wrote = writing l.stream m in
      let stream' = (w.write_all l.stream m).1 in
      let step =
        control_loco-eq w t wired b id d s
        ∙ with_loco_info_lem id (send w id m) b l.info l.entry
        ∙ ap (λ o. (o.0, record b { loco_info = insert id o.1 b.loco_info }))
            (send-written w t wired id m l.info l.stream l.connected wrote) in
      (
        ap (λ o. o.0) step,
        subst (Writes t b (only id m) []) (sym (ap (λ o. o.1) step)) (
            Writes-replaced t id l.info l.stream stream' b h l.entry l.connected m
              (wired.writes l.stream m wrote).0),
      )

  send_actuators-Writes :
      (m : List ℕ) (b : Backend S)
      → IsLinked b
      → let out = send_actuators w m b in (out.0 ≡ ok tt) × Writes t b nothing m out.1
  unfolding send_actuators
  send_actuators-Writes m b h =
      let wrote = writing h.actuators m in
      let stream' = (w.write_all h.actuators m).1 in
      let before : sent_to_actuators t b ≡ t.sent h.actuators = ground arith in
      let step : send_actuators w m b
          ≡ (ok tt, record b { actuator_info = record { stream = some stream' } }) =
        rw (h.switched, send_actuators, wrote) refl in
      (
        ap (λ o. o.0) step,
        subst (Writes t b nothing m) (sym (ap (λ o. o.1) step)) (record {
          linked = record {
            link = λ id.
                let l = h.link id in
                record {
                  info = l.info;
                  stream = l.stream;
                  entry = l.entry;
                  connected = l.connected;
                };
            actuators = stream';
            switched = refl;
          };
          to_locos = (Writes-none t h).to_locos;
          to_actuators = (wired.writes h.actuators m wrote).0 ∙ ap (λ l. l ++ m) (sym before);
        }),
      )

  drive-Writes :
      (i : ActuatorId) (k : ActuatorType) (n : ℕ) (b : Backend S)
      → IsLinked b
      → let out = Actuators.drive_actuator w i k n b in
        (out.0 ≡ ok tt)
        × Writes t b nothing (0xab ∷ 5 ∷ 3 ∷ ActuatorId.into i ∷ ActuatorType.into k ∷ n ∷ []) out.1
  unfolding Actuators.drive_actuator
  drive-Writes i k n b h =
      let message = (requests w t wired forward stop i k n).2 in
      rw (message, Actuators.drive_actuator) (send_actuators-Writes _ b h)

  drive_all-Writes :
      (cs : List ActuatorControl) (b : Backend S)
      → IsLinked b
      → let out = drive_all w cs b in (out.0 ≡ ok tt) × Writes t b nothing (switch_bytes cs) out.1
  unfolding drive_all go_on
  drive_all-Writes [] b h = (refl, Writes-none t h)
  drive_all-Writes ((i, k, n) ∷ rest) b h =
      let (fine, one) = drive-Writes i k n b h in
      let (fine', more) = drive_all-Writes rest (Actuators.drive_actuator w i k n b).1 one.linked in
      rw (fine, drive_all, go_on)
        (fine', Writes-append t nothing nothing _ (switch_bytes rest) one more)

  control_each-Writes :
      (cs : List LocoControl) (b : Backend S)
      → IsLinked b
      → let out = control_each w cs b in (out.0 ≡ ok tt) × Writes t b (command_bytes cs) [] out.1
  unfolding control_each go_on
  control_each-Writes [] b h = (refl, Writes-none t h)
  control_each-Writes ((id, d, s) ∷ rest) b h =
      let (fine, one) = control-Writes id d s b h in
      let (fine', more) = control_each-Writes rest (Locos.control_loco w id d s b).1 one.linked in
      rw (fine, control_each, go_on)
        (fine', Writes-append t (only id _) (command_bytes rest) [] [] one more)

  -- the switches first, then the locos
  pub apply_controls-Writes :
      (ds : List ActuatorControl) (cs : List LocoControl) (b : Backend S)
      → IsLinked b
      → let out = apply_controls w ds cs b in
        (out.0 ≡ ok tt) × Writes t b (command_bytes cs) (switch_bytes ds ++ []) out.1
  unfolding apply_controls go_on
  apply_controls-Writes ds cs b h =
      let (fine, one) = drive_all-Writes ds b h in
      let (fine', more) = control_each-Writes cs (drive_all w ds b).1 one.linked in
      rw (fine, apply_controls, go_on)
        (fine', Writes-append t nothing (command_bytes cs) (switch_bytes ds) [] one more)
