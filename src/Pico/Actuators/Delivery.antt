-- ===== src/Pico/Actuators/Delivery.antt =====
-- The controller's commands to the switches, from the bytes to the outputs
-- (loco_controller/src/backend.rs, actuators_pico/src/bin/actuators_pico.rs).
use locoloco.Common.{
  ℕ, ◌≡◌, refl, sym, ap, subst, ◌∙◌, some, List, [], ◌∷◌, ◌++◌, Result, ok, ◌==◌, if◌then◌else◌,
  arith, ok-injective,
}
use locoloco.Protocol.Types as ProtocolTypes
use locoloco.Protocol.Types.{
  ActuatorId, SwitchRailsState, switch_rails, actuator_id_eq, forward, Speed, Operation,
  DriveActuatorPayload,
}
use locoloco.Protocol.ActuatorId
use locoloco.Protocol.ActuatorType
use locoloco.Protocol.SwitchRailsState
use locoloco.Protocol.Operation
use locoloco.Wire.{Wire, Traffic, IsWire}
use locoloco.Backend.Frames.{drive_actuator_message}
use locoloco.Backend.Delivery.{requests}
use locoloco.Pico.Socket.{Socket, IsSocket}
use locoloco.Pico.Receive.{receive}
use locoloco.Pico.Receive.Frames.{IsReceived, receive-IsReceived}
use locoloco.Pico.Actuators.Types.{Error, Level, Output, IsOutput, Actuators}
use locoloco.Pico.Actuators.Messages.{
  reasons, level_of, update_first, update_switch_rails, drive_state, drive_type, drive_id, drive,
  handle_op_drive_actuator, dispatch, handle, handle_message,
}
use locoloco.Pico.Actuators.Switches.{
  IsWired, level_at, ids-update_first, level_at-update_first, IsWired-In,
}

-- The frame that drives a switch to a position.
abbrev pub drive_bytes : ActuatorId → SwitchRailsState → List ℕ
drive_bytes id state =
    0xab
    ∷ 5
    ∷ 3
    ∷ ActuatorId.into id
    ∷ ActuatorType.into switch_rails
    ∷ SwitchRailsState.into state
    ∷ []

module _ {S G : Type 0} (k : Socket S) (t : Traffic S) (network : IsSocket k t) (o : Output G)
    (level : G → Level) (lawful : IsOutput o level) where
  -- One switch was set, and nothing was said.
  pub record IsSwitched (id : ActuatorId) (state : SwitchRailsState) (rest : List ℕ) (socket : S)
      (a : Actuators G) (out : Result Error (Unit {0}) × S × Actuators G) : Type 0 where
    pub done : out.0 ≡ ok tt
    pub left : t.incoming out.1 ≡ rest
    pub silent : t.sent out.1 ≡ t.sent socket
    pub wired : IsWired out.2
    pub levels :
        (j : ActuatorId)
        → level_at level out.2.switch_rails j
          ≡ (if id == j then some (level_of state) else level_at level a.switch_rails j)

  handle_op_drive_actuator-eq :
      (id : ActuatorId) (state : SwitchRailsState) (a : Actuators G)
      → handle_op_drive_actuator k o
          (ActuatorId.into id ∷ ActuatorType.into switch_rails ∷ SwitchRailsState.into state ∷ [])
          a
        ≡ (ok tt, record { switch_rails = update_first o id state a.switch_rails })
  unfolding handle_op_drive_actuator update_switch_rails
  handle_op_drive_actuator-eq id state a =
      let p : DriveActuatorPayload = record {
        actuator_id = ActuatorId.into id;
        actuator_type = ActuatorType.into switch_rails;
        actuator_state = SwitchRailsState.into state;
      } in
      rw
        (
          network.drive_actuator_codec.decodes p [],
          handle_op_drive_actuator,
          drive,
          ActuatorId.into-IsCode.from_into id,
          drive_id,
          ActuatorType.into-IsCode.from_into switch_rails,
          drive_type,
          SwitchRailsState.into-IsCode.from_into state,
          drive_state,
        )
        refl

  handle_message-drive_actuator :
      (payload rest : List ℕ) (socket : S) (a : Actuators G)
      → IsReceived reasons k t network ProtocolTypes.drive_actuator payload rest socket
          (receive reasons k socket)
      → handle_message k o socket a ≡ (
        (handle_op_drive_actuator k o payload a).0,
        (receive reasons k socket).1,
        (handle_op_drive_actuator k o payload a).1,
      )
  unfolding handle_message handle dispatch
  handle_message-drive_actuator payload rest socket a r =
      rw (r.message, handle_message, handle, dispatch) refl

  -- a frame for a switch and a position
  pub handle_message-IsSwitched :
      (id : ActuatorId) (state : SwitchRailsState) (rest : List ℕ) (socket : S) (a : Actuators G)
      → IsWired a
      → t.incoming socket ≡ drive_bytes id state ++ rest
      → IsSwitched id state rest socket a (handle_message k o socket a)
  unfolding Operation.into
  handle_message-IsSwitched id state rest socket a h arrived =
      let payload : List ℕ =
        ActuatorId.into id ∷ ActuatorType.into switch_rails ∷ SwitchRailsState.into state ∷ [] in
      let r =
        receive-IsReceived reasons k t network ProtocolTypes.drive_actuator payload rest socket
          (omega arith) arrived in
      let step =
        handle_message-drive_actuator payload rest socket a r
        ∙ ap (λ p. (p.0, (receive reasons k socket).1, p.1))
            (handle_op_drive_actuator-eq id state a) in
      subst (IsSwitched id state rest socket a) (sym step) (record {
        done = refl;
        left = r.left;
        silent = r.silent;
        wired = record { same = ids-update_first o level lawful id state a.switch_rails ∙ h.same };
        levels = λ j.
            level_at-update_first o level lawful id j state a.switch_rails
              (IsWired-In o level lawful a h id);
      })

  -- Under the laws of `IsWire`, `IsSocket` and `IsOutput`: when the bytes of the controller's
  -- `drive_actuator` for a switch and a position arrive at the board, whose array has every switch
  -- once, one message succeeds and takes exactly these bytes. The output of that switch then has the
  -- level of the position, all others have the level that they had, and nothing was answered.
  pub drive_actuator_reaches :
      {C : Type 0} (w : Wire C) (c : Traffic C)
      → IsWire w c
      → (id : ActuatorId) (state : SwitchRailsState) (message rest : List ℕ) (socket : S)
        (a : Actuators G)
      → IsWired a
      → drive_actuator_message w id switch_rails (SwitchRailsState.into state) ≡ ok message
      → t.incoming socket ≡ message ++ rest
      → IsSwitched id state rest socket a (handle_message k o socket a)
  drive_actuator_reaches w c wire id state message rest socket a h sent e =
      let same : message ≡ drive_bytes id state = ok-injective (
        sym sent
        ∙ (requests w c wire forward Speed.stop id switch_rails (SwitchRailsState.into state)).2) in
      handle_message-IsSwitched id state rest socket a h (e ∙ ap (λ l. l ++ rest) same)
