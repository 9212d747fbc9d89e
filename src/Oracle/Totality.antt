-- ===== src/Oracle/Totality.antt =====
-- Panics of a round of the oracle (loco_controller/src/oracle.rs).
use locoloco.Common.{
  ◌≡◌, ◌≢◌, refl, sym, ◌∙◌, ◌>>=◌, false, List, [], ◌∷◌, Result, ok, err, panic, Bool-cases, inl,
  inr, arith,
}
use locoloco.Protocol.Types.{LocoId}
use locoloco.RailNetwork.Tables.{new}
use locoloco.Wire.{Wire}
use locoloco.Backend.Types as BackendTypes
use locoloco.Backend.Types.{Backend, LocoStatus, loco_not_connected}
use locoloco.Backend.State.{IsFull, loco_ids}
use locoloco.Backend.Locos as Locos
use locoloco.Backend.Totality.{control_loco-IsTotal, loco_status-IsTotal, drive_actuator-IsTotal}
use locoloco.Oracle.Types.{
  Error, control_loco, drive_actuator, Oracle, ActiveLoco, ActiveSegment, ActuatorControl,
  LocoControl,
}
use locoloco.Oracle.Segments.{determine_active_segments_from}
use locoloco.Oracle.Order.{sort_active_segments}
use locoloco.Oracle.Controls.{determine_controls}
use locoloco.Oracle.Plans.{determine_active_segments-Plans}
use locoloco.Oracle.Process.{
  heard, go_on, prepend, ask, active_locos, active_loco, act_on, drive_all, control_each,
  apply_controls, determine_active_segments, process,
}

-- On a backend with an entry for each loco the action does not panic, and leaves such a backend.
abbrev Goes : {S A : Type 0} → (Backend S → Result Error A × Backend S) → Type 0
Goes {S} f = (b : Backend S) → IsFull b → IsFull (f b).1 × ((f b).0 ≢ panic)

prepend-ne-panic :
    (l : ActiveLoco) (r : Result Error (List ActiveLoco)) → r ≢ panic → prepend l r ≢ panic
prepend-ne-panic l r h = ground arith

module _ {S : Type 0} where
  heard-Goes :
      (id : LocoId) (next : Backend S → Result Error (List ActiveLoco) × Backend S)
      → Goes next
      → (status : Result BackendTypes.Error LocoStatus) → status ≢ panic
      → Goes (heard id next status)
  unfolding heard
  heard-Goes id next t (ok s) h b full =
      let (full', k) = t b full in (full', prepend-ne-panic (active_loco id s) (next b).0 k)
  heard-Goes id next t (err (loco_not_connected _)) h b full = t b full
  heard-Goes id next t (err e) h b full = (full, λ p. cc)
  heard-Goes id next t panic h b full = absurd (h refl)

  go_on-Goes :
      {E : Type 0} (wrap : E → Error) (next : Backend S → Result Error (Unit {0}) × Backend S)
      → Goes next
      → (r : Result E (Unit {0})) → r ≢ panic
      → Goes (go_on wrap next r)
  unfolding go_on
  go_on-Goes wrap next t (ok u) h b full = t b full
  go_on-Goes wrap next t (err e) h b full = (full, λ p. cc)
  go_on-Goes wrap next t panic h b full = absurd (h refl)

module _ {S : Type 0} (w : Wire S) where
  ask-Goes : (ids : List LocoId) → Goes (ask w ids)
  unfolding ask
  ask-Goes [] b full = (full, λ p. cc)
  ask-Goes (id ∷ ids) b full =
      let (full', k) = loco_status-IsTotal w id b full in
      heard-Goes id (ask w ids) (ask-Goes ids) (Locos.loco_status w id b).0 k _ full'

  drive_all-Goes : (cs : List ActuatorControl) → Goes (drive_all w cs)
  unfolding drive_all
  drive_all-Goes [] b full = (full, λ p. cc)
  drive_all-Goes ((id, kind, state) ∷ rest) b full =
      let (full', k) = drive_actuator-IsTotal w id kind state b full in
      go_on-Goes drive_actuator (drive_all w rest) (drive_all-Goes rest) _ k _ full'

  control_each-Goes : (cs : List LocoControl) → Goes (control_each w cs)
  unfolding control_each
  control_each-Goes [] b full = (full, λ p. cc)
  control_each-Goes ((id, d, v) ∷ rest) b full =
      let (full', k) = control_loco-IsTotal w id d v b full in
      go_on-Goes control_loco (control_each w rest) (control_each-Goes rest) _ k _ full'

  apply_controls-Goes :
      (ds : List ActuatorControl) (cs : List LocoControl) → Goes (apply_controls w ds cs)
  unfolding apply_controls
  apply_controls-Goes ds cs b full =
      let (full', k) = drive_all-Goes ds b full in
      go_on-Goes (λ e. e) (control_each w cs) (control_each-Goes cs) _ k _ full'

  act_on-IsTotal :
      (o : Oracle) (r : Result Error (List ActiveSegment)) (b : Backend S)
      → IsFull b
      → r ≢ panic
      → IsFull (act_on w o r b).2
        × ((act_on w o r b).0 ≢ panic)
        × ((act_on w o r b).1.rail_network ≡ o.rail_network)
  unfolding act_on
  act_on-IsTotal o (ok segments) b full h =
      let c =
        determine_controls o.last_segment_id (sort_active_segments o.last_segment_id segments) in
      let (full', k) = apply_controls-Goes c.actuator_controls c.loco_controls b full in
      (full', k, refl)
  act_on-IsTotal o (err e) b full h = (full, λ p. cc, refl)
  act_on-IsTotal o panic b full h = absurd (h refl)

  determined :
      (o : Oracle) (r : Result Error (List ActiveLoco))
      → o.rail_network ≡ new
      → r ≢ panic
      → (r >>= determine_active_segments_from o.rail_network) ≢ panic
  determined o (ok ls) e h =
      let (segments, p, _) = determine_active_segments-Plans ls in rw e (λ q. cc (sym q ∙ p))
  determined o (err x) e h = λ p. cc
  determined o panic e h = absurd (h refl)

  -- On the tables of `new` and a backend with an entry for each loco, a round of the oracle does not
  -- panic, whatever the connections do; it keeps the entries and the tables.
  pub process-IsTotal :
      (o : Oracle) (b : Backend S)
      → o.rail_network ≡ new
      → IsFull b
      → IsFull (process w o b).2
        × ((process w o b).0 ≢ panic)
        × ((process w o b).1.rail_network ≡ new)
  unfolding process determine_active_segments active_locos
  process-IsTotal o b e full = elim (Bool-cases b.oracle_enabled) [
    | inl on ↦
        let (full', k) = ask-Goes (loco_ids b) b full in
        let (full'', k', kept) =
          act_on-IsTotal o
            ((ask w (loco_ids b) b).0 >>= determine_active_segments_from o.rail_network)
            (ask w (loco_ids b) b).1 full' (determined o (ask w (loco_ids b) b).0 e k) in
        simp on (full'', k', kept ∙ e)
    | inr off ↦ simp off (full, (λ p. cc), e)
  ]

  -- While the oracle is off, a round does nothing.
  pub process_off :
      (o : Oracle) (b : Backend S) → b.oracle_enabled ≡ false → process w o b ≡ (ok tt, o, b)
  unfolding process
  process_off o b off = simp off
