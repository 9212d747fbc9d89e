-- ===== src/System/Locos.antt =====
-- A round of the oracle and the board of a loco behind it (loco_controller/src/oracle.rs,
-- loco_controller/src/backend.rs, loco_pico/src/bin/loco_pico.rs).
use locoloco.Common.{ℕ, ◌≡◌, ◌≢◌, Option, some, List, [], ◌∷◌, ◌++◌, In, Result, err}
use locoloco.Protocol.Types.{LocoId}
use locoloco.Protocol.Direction
use locoloco.Protocol.Speed
use locoloco.Wire.{Wire, Traffic}
use locoloco.Backend.Types.{Backend}
use locoloco.RailNetwork.Types.{SegmentId}
use locoloco.Oracle.Types.{Oracle, ActiveSegment, LocoControl}
use locoloco.System.Motions.{Motion}
use locoloco.Pico.Socket.{Socket}
use locoloco.Pico.Loco.Types.{Error, Loco}
use locoloco.Pico.Loco.Requests.{Request, Course, last_course, answers, course_of}
use locoloco.Pico.Loco.Replay.{IsOnCourse}

-- The answer of a board that is on a course.
abbrev pub status_of_course : Course → List ℕ
status_of_course c = Direction.into c.0 ∷ Speed.into c.1 ∷ []

-- The board of loco `j` did what these commands say behind earlier requests, and answered these and the
-- question of the round.
pub record IsObeying {S P : Type 0} (u : Traffic S) (duty : P → ℕ) (j : LocoId)
    (segments : List ActiveSegment) (taken : List SegmentId) (cs : List LocoControl)
    (earlier : List Request) (s : S) (loco : Loco P)
    (result : Option (Result Error (Unit {0}) × S × Loco P)) : Type 0 where
  pub error : Error
  pub before : S
  pub socket : S
  pub state : Loco P
  pub ended : result ≡ some (err error, socket, state)
  pub obeys : (k : LocoControl) → In k cs → k.0 ≡ j → course_of state ≡ (k.1, k.2)
  pub keeps :
      ((k : LocoControl) → In k cs → k.0 ≢ j)
      → course_of state ≡ last_course earlier (course_of loco)
  pub motor : IsOnCourse duty state
  pub moves : (k : LocoControl) → In k cs → k.0 ≡ j → Motion duty j segments taken state.pwm_ctrl
  pub answers :
      u.sent before
      ≡ u.sent s
        ++ (answers earlier (course_of loco)
            ++ status_of_course (last_course earlier (course_of loco)))
