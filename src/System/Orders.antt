-- ===== src/System/Orders.antt =====
-- What a round writes to one loco, as requests (loco_controller/src/oracle.rs,
-- loco_pico/src/bin/loco_pico.rs).
use locoloco.Common.{
  ◌≡◌, ◌≢◌, refl, sym, ap, subst, ◌∙◌, false, none, some, List, [], ◌∷◌, ◌++◌, All, All-In, In, inl,
  inr, Bool-cases, ◌==◌, if◌then◌else◌, arith,
}
use locoloco.Protocol.Types.{LocoId, loco_id_eq}
use locoloco.Protocol.Direction
use locoloco.Protocol.Speed
use locoloco.Protocol.Speed.{IsReadable}
use locoloco.RailNetwork.Types.{SegmentId}
use locoloco.Oracle.Types.{ActiveSegment, LocoControl}
use locoloco.Oracle.Commands.{entered, added, speed_for, commands}
use locoloco.Pico.Replay.{all_bytes}
use locoloco.Pico.Loco.Requests.{Request, tell, drive, bytes_of, Course, last_course, answers}
use locoloco.System.Commands.{command_bytes}
use locoloco.System.Questions.{question, question_bytes, IsDistinct}

-- The questions to one loco.
abbrev pub tells : LocoId → List LocoId → List Request
tells j [] = []
tells j (id ∷ ids) = let later = tells j ids in if id == j then tell ∷ later else later

abbrev pub AllReadable : List LocoControl → Type 0
AllReadable cs = All (λ (c : LocoControl). IsReadable c.2) cs

-- The commands for one loco.
abbrev pub orders : LocoId → (cs : List LocoControl) → AllReadable cs → List Request
orders j [] rs = []
orders j ((id, d, s) ∷ cs) (r, rs) =
    let later = orders j cs rs in if id == j then drive d s r ∷ later else later

-- Locos are sent off at normal speed, or stopped.
pub commands-AllReadable :
    (busy : List SegmentId) (segments : List ActiveSegment) → AllReadable (commands busy segments)
unfolding commands
commands-AllReadable busy [] = tt
commands-AllReadable busy (s ∷ rest) = (
  elim (entered busy s) as (λ o. IsReadable (speed_for o)) [ none ↦ tt | some _ ↦ tt ],
  commands-AllReadable (busy ++ added (entered busy s)) rest,
)

module _ (j : LocoId) where
  pub question_bytes-tells :
      (ids : List LocoId) → question_bytes ids j ≡ all_bytes bytes_of (tells j ids)
  question_bytes-tells [] = refl
  question_bytes-tells (id ∷ ids) = elim (Bool-cases (loco_id_eq.beq id j)) [
    | inl e ↦ rw e (ap (λ l. question ++ l) (question_bytes-tells ids))
    | inr e ↦ rw e (question_bytes-tells ids)
  ]

  pub command_bytes-orders :
      (cs : List LocoControl) (rs : AllReadable cs)
      → command_bytes cs j ≡ all_bytes bytes_of (orders j cs rs)
  command_bytes-orders [] rs = refl
  command_bytes-orders ((id, d, s) ∷ cs) (r, rs) = elim (Bool-cases (loco_id_eq.beq id j)) [
    | inl e ↦ rw e (ap (λ l. bytes_of (drive d s r) ++ l) (command_bytes-orders cs rs))
    | inr e ↦ rw e (command_bytes-orders cs rs)
  ]

  -- questions leave the course as it is
  pub last_course-tells :
      (ids : List LocoId) (rs : List Request) (c : Course)
      → last_course (tells j ids ++ rs) c ≡ last_course rs c
  last_course-tells [] rs c = refl
  last_course-tells (id ∷ ids) rs c = elim (Bool-cases (loco_id_eq.beq id j)) [
    | inl e ↦ rw e (last_course-tells ids rs c)
    | inr e ↦ rw e (last_course-tells ids rs c)
  ]

  -- the commands want one course
  abbrev pub Agree : Course → List LocoControl → Type 0
  Agree c cs = (k : LocoControl) → In k cs → k.0 ≡ j → ◌≡◌ {A = Course} (k.1, k.2) c

  last_course-stays :
      (c : Course) (cs : List LocoControl) (rs : AllReadable cs)
      → Agree c cs
      → last_course (orders j cs rs) c ≡ c
  last_course-stays c [] rs agree = refl
  last_course-stays c ((id, d, s) ∷ cs) (r, rs) agree = elim (Bool-cases (loco_id_eq.beq id j)) [
    | inl e ↦
        let here : ◌≡◌ {A = Course} (d, s) c =
          agree (id, d, s) (inl refl) ((loco_id_eq.beq_iff id j).0 e) in
        rw e (
          ap (last_course (orders j cs rs)) here
          ∙ last_course-stays c cs rs (λ k m. agree k (inr m)))
    | inr e ↦ rw e (last_course-stays c cs rs (λ k m. agree k (inr m)))
  ]

  pub last_course-In :
      (c before : Course) (cs : List LocoControl) (rs : AllReadable cs)
      → Agree c cs
      → In (j, c.0, c.1) cs
      → last_course (orders j cs rs) before ≡ c
  last_course-In c before [] rs agree m = absurd m
  last_course-In c before ((id, d, s) ∷ cs) (r, rs) agree m =
      let later = λ (k : LocoControl) (n : In k cs). agree k (inr n) in
      elim (Bool-cases (loco_id_eq.beq id j)) [
        | inl e ↦
            let here : ◌≡◌ {A = Course} (d, s) c =
              agree (id, d, s) (inl refl) ((loco_id_eq.beq_iff id j).0 e) in
            rw e (ap (last_course (orders j cs rs)) here ∙ last_course-stays c cs rs later)
        | inr e ↦ elim m [
          | inl same ↦
              let here = (loco_id_eq.beq_iff id j).1 (ap (λ (k : LocoControl). k.0) same) in
              absurd (ground arith)
          | inr n ↦ rw e (last_course-In c before cs rs later n)
        ]
      ]

  pub last_course-absent :
      (c : Course) (cs : List LocoControl) (rs : AllReadable cs)
      → ((k : LocoControl) → In k cs → k.0 ≢ j)
      → last_course (orders j cs rs) c ≡ c
  last_course-absent c cs rs h = last_course-stays c cs rs (λ k m e. absurd (h k m e))

  -- no command is answered
  answers-orders :
      (c : Course) (cs : List LocoControl) (rs : AllReadable cs) → answers (orders j cs rs) c ≡ []
  answers-orders c [] rs = refl
  answers-orders c ((id, d, s) ∷ cs) (r, rs) = elim (Bool-cases (loco_id_eq.beq id j)) [
    | inl e ↦ rw e (answers-orders (d, s) cs rs)
    | inr e ↦ rw e (answers-orders c cs rs)
  ]

  tells-absent : (ids : List LocoId) → All (λ id. (j == id) ≡ false) ids → tells j ids ≡ []
  tells-absent [] h = refl
  tells-absent (id ∷ ids) h = elim (Bool-cases (loco_id_eq.beq id j)) [
    | inl e ↦
        let here = (loco_id_eq.beq_iff j id).1 (sym ((loco_id_eq.beq_iff id j).0 e)) in
        absurd (ground arith)
    | inr e ↦ rw e (tells-absent ids h.1)
  ]

  -- who is asked once answers once, with the course at that time
  tells-In : (ids : List LocoId) → IsDistinct ids → In j ids → tells j ids ≡ tell ∷ []
  tells-In [] h m = absurd m
  tells-In (id ∷ ids) h (inl same) =
      let here = (loco_id_eq.beq_iff id j).1 same in
      let rest = tells-absent ids (subst (λ i. All (λ k. (i == k) ≡ false) ids) same h.0) in
      rw here (ap (◌∷◌ tell) rest)
  tells-In (id ∷ ids) h (inr m) =
      let differ = All-In (λ k. (id == k) ≡ false) j ids h.0 m in rw differ (tells-In ids h.1 m)

  pub answers-tells :
      (ids : List LocoId) (c : Course) (cs : List LocoControl) (rs : AllReadable cs)
      → IsDistinct ids
      → In j ids
      → answers (tells j ids ++ orders j cs rs) c ≡ Direction.into c.0 ∷ Speed.into c.1 ∷ []
  answers-tells ids c cs rs h m =
      ap (λ l. answers (l ++ orders j cs rs) c) (tells-In ids h m)
      ∙ ap (λ l. Direction.into c.0 ∷ Speed.into c.1 ∷ l) (answers-orders c cs rs)
