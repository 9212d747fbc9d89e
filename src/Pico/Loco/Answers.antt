-- ===== src/Pico/Loco/Answers.antt =====
-- The controller's question at a loco's board, and the board's answer at the controller
-- (loco_controller/src/backend.rs, loco_pico/src/bin/loco_pico.rs).
use locoloco.Common.{
  ℕ, ◌≡◌, refl, sym, ap, subst, ◌∙◌, true, List, [], ◌∷◌, ◌++◌, Result, ok, drop, arith,
  ok-injective,
}
use locoloco.Protocol.Types as ProtocolTypes
use locoloco.Protocol.Types.{
  Direction, forward, backward, Speed, Operation, LocoStatusResponse, ControlLocoPayload,
}
use locoloco.Protocol.Direction
use locoloco.Protocol.Speed
use locoloco.Protocol.Speed.{IsReadable}
use locoloco.Protocol.Operation
use locoloco.Wire.{Wire, Traffic, IsWire}
use locoloco.Backend.Types.{LocoInfo}
use locoloco.Backend.Frames.{loco_status_message}
use locoloco.Backend.Locos.{status_of}
use locoloco.Backend.Delivery.{requests, status_of-eq}
use locoloco.Pico.Socket.{Socket, IsSocket}
use locoloco.Pico.Receive.{receive}
use locoloco.Pico.Receive.Frames.{IsReceived, receive-IsReceived}
use locoloco.Pico.Loco.Types.{Error, PwmOutput, IsPwmOutput, Loco}
use locoloco.Pico.Loco.Messages.{reasons, respond, dispatch, handle, handle_message}
use locoloco.Pico.Loco.Safety.{IsSafe, handle_op_loco_status-eq}

-- The bytes of a loco's answer.
abbrev pub status_bytes : {P : Type 0} → Loco P → List ℕ
status_bytes loco = Direction.into loco.direction ∷ Speed.into loco.speed ∷ []

module _ {S P : Type 0} (k : Socket S) (t : Traffic S) (network : IsSocket k t) (o : PwmOutput P)
    (duty : P → ℕ) (lawful : IsPwmOutput o duty) where
  -- A loco wrote its state behind what it had written, and kept it.
  pub record IsTold (loco : Loco P) (rest : List ℕ) (socket : S)
      (out : Result Error (Unit {0}) × S × Loco P) : Type 0 where
    pub done : out.0 ≡ ok tt
    pub left : t.incoming out.1 ≡ rest
    pub answered : t.sent out.1 ≡ t.sent socket ++ status_bytes loco
    pub direction : out.2.direction ≡ loco.direction
    pub speed : out.2.speed ≡ loco.speed
    pub motor : out.2.pwm_ctrl ≡ loco.pwm_ctrl

  handle_message-loco_status :
      (rest : List ℕ) (socket : S) (loco : Loco P)
      → IsSafe duty loco
      → IsReceived reasons k t network ProtocolTypes.loco_status [] rest socket
          (receive reasons k socket)
      → let resp : List ℕ = Direction.into loco.direction ∷ Speed.into loco.speed ∷ [] in
        handle_message k o socket loco
        ≡ respond k o
            (ok 2)
            (receive reasons k socket).1
            (record loco { response = resp ++ drop 2 loco.response })
  unfolding handle_message handle dispatch
  handle_message-loco_status rest socket loco safe r =
      rw
        (
          r.message,
          handle_message,
          handle,
          dispatch,
          handle_op_loco_status-eq k t network o duty lawful loco safe,
        )
        refl

  -- a request for the status
  pub handle_message-IsTold :
      (rest : List ℕ) (socket : S) (loco : Loco P)
      → IsSafe duty loco
      → ((s : S) (m : List ℕ) → (k.write_all s m).0 ≡ true)
      → t.incoming socket ≡ 0xab ∷ 3 ∷ 0 ∷ rest
      → IsTold loco rest socket (handle_message k o socket loco)
  unfolding respond Operation.into
  handle_message-IsTold rest socket loco safe writing arrived =
      let r =
        receive-IsReceived reasons k t network ProtocolTypes.loco_status [] rest socket
          (omega arith) arrived in
      let answer = status_bytes loco in
      let behind = (receive reasons k socket).1 in
      let written = writing behind answer in
      let (more, untouched) = network.writes behind answer written in
      subst (IsTold loco rest socket) (sym (handle_message-loco_status rest socket loco safe r))
        (record {
          done = ground arith;
          left = untouched ∙ r.left;
          answered = more ∙ ap (λ l. l ++ answer) r.silent;
          direction = refl;
          speed = refl;
          motor = refl;
        })

  module _ {C : Type 0} (w : Wire C) (c : Traffic C) (wired : IsWire w c) where
    -- A loco answered with its state, and the controller reads it.
    pub record IsAnswered (loco : Loco P) (rest : List ℕ) (socket : S)
        (out : Result Error (Unit {0}) × S × Loco P) : Type 0 where
      pub answer : List ℕ
      pub done : out.0 ≡ ok tt
      pub left : t.incoming out.1 ≡ rest
      pub answered : t.sent out.1 ≡ t.sent socket ++ answer
      pub direction : out.2.direction ≡ loco.direction
      pub speed : out.2.speed ≡ loco.speed
      pub motor : out.2.pwm_ctrl ≡ loco.pwm_ctrl
      pub read :
          (info : LocoInfo C) (stream : C) (more : List ℕ)
          → c.incoming stream ≡ answer ++ more
          → status_of info (w.loco_status_response.decode_from_std_read stream).0
            ≡ ok (record {
              direction = loco.direction;
              speed = loco.speed;
              location = info.location;
              intent = info.intent;
            })

    -- Under the laws of `IsWire` and `IsSocket`, while writes succeed: when the bytes of the
    -- controller's `loco_status` arrive at a safe board of a loco, one message succeeds and takes
    -- exactly these bytes, leaves the direction, the speed and the motor, and writes an answer. A
    -- stream on which that answer arrives gives the controller exactly the board's direction and speed.
    pub loco_status-IsAnswered :
        (message rest : List ℕ) (socket : S) (loco : Loco P)
        → IsSafe duty loco
        → ((s : S) (m : List ℕ) → (k.write_all s m).0 ≡ true)
        → loco_status_message w ≡ ok message
        → t.incoming socket ≡ message ++ rest
        → IsAnswered loco rest socket (handle_message k o socket loco)
    loco_status-IsAnswered message rest socket loco safe writing sent e =
        let same : message ≡ 0xab ∷ 3 ∷ 0 ∷ [] = ok-injective (
          sym sent
          ∙ (requests w c wired forward Speed.stop ProtocolTypes.switch_rails1
              ProtocolTypes.switch_rails 0).1) in
        let told =
          handle_message-IsTold rest socket loco safe writing (e ∙ ap (λ l. l ++ rest) same) in
        record {
          answer = status_bytes loco;
          done = told.done;
          left = told.left;
          answered = told.answered;
          direction = told.direction;
          speed = told.speed;
          motor = told.motor;
          read = λ info stream more e'.
              status_of-eq w c wired loco.direction loco.speed info stream more safe.readable e';
        }
