-- ===== src/Pico/Loco/Requests.antt =====
-- What the controller asks of a loco's board, and what it should make of that
-- (loco_controller/src/backend.rs, loco_pico/src/bin/loco_pico.rs).
use locoloco.Common.{ap, ℕ, ◌≤◌, ◌≡◌, refl, List, [], ◌∷◌, ◌++◌, length, arith}
use locoloco.Protocol.Types.{Direction, Speed}
use locoloco.Protocol.Direction
use locoloco.Protocol.Speed
use locoloco.Protocol.Speed.{IsReadable}
use locoloco.Pico.Loco.Types.{Loco}
use locoloco.Pico.Loco.Delivery.{drive_bytes}

-- What the controller asks of a loco: its status, or a direction with a speed that can be read back.
pub data Request : Type 0 where
  tell : Request
  drive : (d : Direction) (s : Speed) → IsReadable s → Request

abbrev pub bytes_of : Request → List ℕ
bytes_of tell = 0xab ∷ 3 ∷ 0 ∷ []
bytes_of (drive d s readable) = drive_bytes d s

pub long_enough : (r : Request) → 1 ≤ length (bytes_of r)
long_enough tell = omega arith
long_enough (drive d s readable) = omega arith

-- The direction and the speed.
abbrev pub Course : Type 0
Course = Direction × Speed

-- The course of the last command, or the one before.
abbrev pub last_course : List Request → Course → Course
last_course [] course = course
last_course (tell ∷ rest) course = last_course rest course
last_course (drive d s readable ∷ rest) course = last_course rest (d, s)

-- Each request for the status is answered with the course at that time.
abbrev pub answers : List Request → Course → List ℕ
answers [] course = []
answers (tell ∷ rest) course =
    (Direction.into course.0 ∷ Speed.into course.1 ∷ []) ++ answers rest course
answers (drive d s readable ∷ rest) course = answers rest (d, s)

abbrev pub course_of : {P : Type 0} → Loco P → Course
course_of loco = (loco.direction, loco.speed)

pub last_course-cons :
    (r : Request) (rest : List Request) (c : Course)
    → last_course (r ∷ rest) c ≡ last_course rest (last_course (r ∷ []) c)
last_course-cons tell rest c = refl
last_course-cons (drive d s readable) rest c = refl

pub answers-cons :
    (r : Request) (rest : List Request) (c : Course)
    → answers (r ∷ rest) c ≡ answers (r ∷ []) c ++ answers rest (last_course (r ∷ []) c)
answers-cons tell rest c = refl
answers-cons (drive d s readable) rest c = refl

pub last_course-append :
    (xs ys : List Request) (c : Course)
    → last_course (xs ++ ys) c ≡ last_course ys (last_course xs c)
last_course-append [] ys c = refl
last_course-append (tell ∷ xs) ys c = last_course-append xs ys c
last_course-append (drive d s readable ∷ xs) ys c = last_course-append xs ys (d, s)

pub answers-append :
    (xs ys : List Request) (c : Course)
    → answers (xs ++ ys) c ≡ answers xs c ++ answers ys (last_course xs c)
answers-append [] ys c = refl
answers-append (tell ∷ xs) ys c =
    ap (λ l. Direction.into c.0 ∷ Speed.into c.1 ∷ l) (answers-append xs ys c)
answers-append (drive d s readable ∷ xs) ys c = answers-append xs ys (d, s)
