-- ===== src/Http/Automatic.antt =====
-- The HTTP requests while the oracle is on (loco_controller/src/main.rs).
use locoloco.Common.{
  ◌≡◌, ◌≢◌, refl, true, Option, none, some, get, get-insert, Option-cases, inl, inr, arith,
}
use locoloco.Protocol.Types.{LocoId, loco_id_eq}
use locoloco.Wire.{Wire}
use locoloco.Backend.Types.{LocoIntent, OracleMode, Backend}
use locoloco.Backend.State.{set_loco_intent, set_oracle_mode, with_loco_info}
use locoloco.Http.{
  Request, index, loco_status, control_loco, loco_intent, drive_switch_rails, oracle_mode, serve,
  handle_control_loco, handle_drive_switch_rails, handle_loco_intent,
}

-- The stream of a loco.
abbrev pub stream_of : {S : Type 0} → Backend S → LocoId → Option S
stream_of b id = elim (get b.loco_info id) [ some info ↦ info.stream | none ↦ none ]

-- No stream was written to or replaced.
pub record IsQuiet {S : Type 0} (b b' : Backend S) : Type 0 where
  pub locos : (id : LocoId) → stream_of b' id ≡ stream_of b id
  pub actuators : b'.actuator_info ≡ b.actuator_info

module _ {S : Type 0} (w : Wire S) where
  IsQuiet-refl : (b : Backend S) → IsQuiet b b
  IsQuiet-refl b = record { locos = λ id. refl; actuators = refl }

  set_loco_intent-IsQuiet :
      (id : LocoId) (intent : LocoIntent) (b : Backend S)
      → IsQuiet b (set_loco_intent id intent b).1
  unfolding set_loco_intent with_loco_info
  set_loco_intent-IsQuiet id intent b = elim (Option-cases (get b.loco_info id)) [
    | inl e ↦ rw (e, with_loco_info) (IsQuiet-refl b)
    | inr (info, e) ↦
        rw (e, with_loco_info)
          (record {
            locos = λ j. ground (
              arith,
              loco_id_eq.beq_iff id j,
              get-insert id j (record info { intent = some intent }) b.loco_info,
            );
            actuators = refl;
          })
  ]

  -- While the oracle is on, a request other than `loco_status` leaves the stream of each loco and
  -- that of the actuators as they were: nothing is written to a loco or to a switch.
  pub serve-IsQuiet :
      (r : Request) (b : Backend S)
      → b.oracle_enabled ≡ true
      → ((id : LocoId) → r ≢ loco_status id)
      → IsQuiet b (serve w r b).1
  unfolding serve handle_control_loco handle_drive_switch_rails handle_loco_intent set_oracle_mode
  serve-IsQuiet index b on h = IsQuiet-refl b
  serve-IsQuiet (loco_status id) b on h = absurd (h id refl)
  serve-IsQuiet (control_loco id d s) b on h = simp on (IsQuiet-refl b)
  serve-IsQuiet (loco_intent id intent) b on h = set_loco_intent-IsQuiet id intent b
  serve-IsQuiet (drive_switch_rails id state) b on h = simp on (IsQuiet-refl b)
  serve-IsQuiet (oracle_mode OracleMode.off) b on h = record {
    locos = λ id. refl;
    actuators = refl;
  }
  serve-IsQuiet (oracle_mode OracleMode.auto) b on h = record {
    locos = λ id. refl;
    actuators = refl;
  }
