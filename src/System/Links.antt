-- ===== src/System/Links.antt =====
-- The streams of a backend whose boards are all connected (loco_controller/src/backend.rs).
use locoloco.Common.{
  append-cancel, ℕ, ◌≡◌, refl, sym, ap, ◌∙◌, none, some, List, [], ◌++◌, append-nil, append_assoc,
  get, insert, get-insert, ◌==◌, if◌then◌else◌, Bool-cases, inl, inr, arith,
}
use locoloco.Protocol.Types.{LocoId, loco_id_eq}
use locoloco.Wire.{Traffic}
use locoloco.Backend.Types.{LocoInfo, Backend}
use locoloco.Backend.State.{IsFull}
use locoloco.Backend.Delivery.{sent_to}

-- What was written to the actuators' stream.
abbrev pub sent_to_actuators : {S : Type 0} → Traffic S → Backend S → List ℕ
sent_to_actuators t b = elim b.actuator_info.stream [ some stream ↦ t.sent stream | none ↦ [] ]

-- What a loco's stream still delivers.
abbrev pub incoming_from : {S : Type 0} → Traffic S → Backend S → LocoId → List ℕ
incoming_from t b id = elim (get b.loco_info id) [
  | some info ↦ elim info.stream [ some stream ↦ t.incoming stream | none ↦ [] ]
  | none ↦ []
]

-- The entry of a loco with its stream.
pub record Link {S : Type 0} (b : Backend S) (id : LocoId) : Type 0 where
  pub info : LocoInfo S
  pub stream : S
  pub entry : get b.loco_info id ≡ some info
  pub connected : info.stream ≡ some stream

-- Each loco is connected, and the actuators are.
pub record IsLinked {S : Type 0} (b : Backend S) : Type 0 where
  pub link : (id : LocoId) → Link b id
  pub actuators : S
  pub switched : b.actuator_info.stream ≡ some actuators

pub IsLinked-IsFull : {S : Type 0} {b : Backend S} → IsLinked b → IsFull b
IsLinked-IsFull h id = let l = h.link id in (l.info, l.entry)

-- The bytes, for one loco.
abbrev pub only : LocoId → List ℕ → LocoId → List ℕ
only id bytes j = if id == j then bytes else []

abbrev pub nothing : LocoId → List ℕ
nothing j = []

module _ {S : Type 0} (t : Traffic S) where
  -- Between the two backends, `locos` was written to the locos and `actuators` to the actuators, and all
  -- stay connected.
  pub record Writes (b : Backend S) (locos : LocoId → List ℕ) (actuators : List ℕ) (b' : Backend S)
      : Type 0 where
    pub linked : IsLinked b'
    pub to_locos : (j : LocoId) → sent_to t b' j ≡ sent_to t b j ++ locos j
    pub to_actuators : sent_to_actuators t b' ≡ sent_to_actuators t b ++ actuators

  pub Writes-none : {b : Backend S} → IsLinked b → Writes b nothing [] b
  Writes-none {b} h = record {
    linked = h;
    to_locos = λ j. sym (append-nil (sent_to t b j));
    to_actuators = sym (append-nil (sent_to_actuators t b));
  }

  pub Writes-append :
      {a b c : Backend S} (f g : LocoId → List ℕ) (xs ys : List ℕ)
      → Writes a f xs b
      → Writes b g ys c
      → Writes a (λ j. f j ++ g j) (xs ++ ys) c
  Writes-append {a} f g xs ys u v = record {
    linked = v.linked;
    to_locos = λ j.
        v.to_locos j ∙ ap (λ l. l ++ g j) (u.to_locos j) ∙ append_assoc (sent_to t a j) (f j) (g j);
    to_actuators =
        v.to_actuators
        ∙ ap (λ l. l ++ ys) u.to_actuators
        ∙ append_assoc (sent_to_actuators t a) xs ys;
  }

  module _ (id : LocoId) (info : LocoInfo S) (stream stream' : S) (b : Backend S)
      (linked : IsLinked b) (entry : get b.loco_info id ≡ some info)
      (connected : info.stream ≡ some stream) where
    abbrev replaced : Backend S
    replaced = record b {
      loco_info = insert id (record info { stream = some stream' }) b.loco_info;
    }

    Link-replaced : (j : LocoId) → Link replaced j
    Link-replaced j =
        let found = get-insert id j (record info { stream = some stream' }) b.loco_info in
        elim (Bool-cases (loco_id_eq.beq id j)) [
          | inl e ↦ record {
            info = record info { stream = some stream' };
            stream = stream';
            entry = found ∙ rw e refl;
            connected = refl;
          }
          | inr e ↦
              let l = linked.link j in
              record {
                info = l.info;
                stream = l.stream;
                entry = found ∙ rw e l.entry;
                connected = l.connected;
              }
        ]

    sent_to-replaced :
        (j : LocoId) → sent_to t replaced j ≡ (if id == j then t.sent stream' else sent_to t b j)
    sent_to-replaced j =
        ground (arith, get-insert id j (record info { stream = some stream' }) b.loco_info)

    -- an entry with its stream replaced by one on which `bytes` were written
    pub Writes-replaced :
        (bytes : List ℕ)
        → t.sent stream' ≡ t.sent stream ++ bytes
        → Writes b (only id bytes) [] replaced
    Writes-replaced bytes written =
        let before : sent_to t b id ≡ t.sent stream = ground arith in
        record {
          linked = record {
            link = Link-replaced;
            actuators = linked.actuators;
            switched = linked.switched;
          };
          to_locos = λ j. sent_to-replaced j ∙ elim (Bool-cases (loco_id_eq.beq id j)) [
            | inl e ↦
                let same : id ≡ j = (loco_id_eq.beq_iff id j).0 e in
                rw e (written ∙ ap (λ l. l ++ bytes) (sym before ∙ ap (sent_to t b) same))
            | inr e ↦ rw e (sym (append-nil (sent_to t b j)))
          ];
          to_actuators = sym (append-nil (sent_to_actuators t b));
        }

    pub incoming_from-replaced :
        (j : LocoId)
        → incoming_from t replaced j ≡ (if id == j then t.incoming stream' else incoming_from t b j)
    incoming_from-replaced j =
        ground (arith, get-insert id j (record info { stream = some stream' }) b.loco_info)

-- What a stream has delivered since `base`: what was written to it before, and what was added.
pub since :
    (base earlier added incoming : List ℕ) {before after : List ℕ}
    → before ≡ base ++ earlier
    → after ≡ before ++ added
    → after ≡ base ++ incoming
    → incoming ≡ earlier ++ added
since base earlier added incoming e f g =
    append-cancel base (sym g ∙ f ∙ ap (λ l. l ++ added) e ∙ append_assoc base earlier added)
