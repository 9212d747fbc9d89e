-- ===== src/Threads/Views.antt =====
-- What the threads see of the backend, less its connections, and the calls as changes of that
-- (loco_controller/src/main.rs, loco_controller/src/backend.rs).
use locoloco.Common.{
  ◌≡◌, refl, sym, ap, ◌∙◌, Bool, true, false, Option, none, some, List, [], ◌∷◌, get, get-insert,
  Result, ◌==◌, if◌then◌else◌, Bool-cases, inl, inr, arith,
}
use mathlib.Core.Path.{fun_ext}
use locoloco.Protocol.Types.{LocoId, loco_id_eq, SensorId}
use locoloco.Backend.Types.{Error, off, auto, LocoIntent, LocoInfo, Backend}
use locoloco.Backend.State.{IsFull, with_loco_info, set_loco_intent}
use locoloco.Backend.Sensors as Sensors
use locoloco.Backend.Totality.{with_loco_info_lem}
use locoloco.Threads.Calls.{Call, set_location, loco_intent, oracle_mode}

-- Where each loco is, where it is to go, and whether the oracle is on.
pub record View : Type 0 where
  pub location : LocoId → Option SensorId
  pub intent : LocoId → Option LocoIntent
  pub automatic : Bool

abbrev pub location_in : {S : Type 0} → Option (LocoInfo S) → Option SensorId
location_in none = none
location_in (some info) = info.location

abbrev pub intent_in : {S : Type 0} → Option (LocoInfo S) → Option LocoIntent
intent_in none = none
intent_in (some info) = info.intent

abbrev pub view : {S : Type 0} → Backend S → View
view b = record {
  location = λ id. location_in (get b.loco_info id);
  intent = λ id. intent_in (get b.loco_info id);
  automatic = b.oracle_enabled;
}

-- What a call does to the view: a report moves one loco, an intent is set for one loco, a mode turns
-- the oracle on or off, and the other calls do nothing.
abbrev pub change : {S : Type 0} → Call S → View → View
change (set_location id sensor) v = record v {
  location = λ j. if id == j then some sensor else v.location j;
}
change (loco_intent id intent) v = record v {
  intent = λ j. if id == j then some intent else v.intent j;
}
change (oracle_mode off) v = record v { automatic = false }
change (oracle_mode auto) v = record v { automatic = true }
change _ v = v

abbrev pub changes : {S : Type 0} → List (Call S) → View → View
changes [] v = v
changes (c ∷ calls) v = changes calls (change c v)

View-eq :
    {u v : View}
    → ((id : LocoId) → u.location id ≡ v.location id)
    → ((id : LocoId) → u.intent id ≡ v.intent id)
    → u.automatic ≡ v.automatic
    → u ≡ v
View-eq {u} {v} l i a =
    let p : u.location ≡ v.location = fun_ext l in let q : u.intent ≡ v.intent = fun_ext i in cc

module _ {S : Type 0} where
  -- the entries behind a method on one of them
  get-with_loco_info :
      {A : Type 0} (id j : LocoId) (action : LocoInfo S → Result Error A × LocoInfo S)
      (b : Backend S) (info : LocoInfo S)
      → get b.loco_info id ≡ some info
      → get (with_loco_info id action b).1.loco_info j
        ≡ (if id == j then some (action info).1 else get b.loco_info j)
  get-with_loco_info id j action b info e =
      rw (with_loco_info_lem id action b info e) (get-insert id j (action info).1 b.loco_info)

  mode-with_loco_info :
      {A : Type 0} (id : LocoId) (action : LocoInfo S → Result Error A × LocoInfo S) (b : Backend S)
      → (with_loco_info id action b).1.oracle_enabled ≡ b.oracle_enabled
  unfolding with_loco_info
  mode-with_loco_info id action b = ground arith

  module _ {X : Type 0} (f : Option (LocoInfo S) → X) (id j : LocoId) (x y : LocoInfo S)
      (m : List (LocoId × LocoInfo S)) where
    -- what is read of the changed entry
    apply-if :
        f (if id == j then some x else get m j) ≡ (if id == j then f (some x) else f (get m j))
    apply-if = elim (Bool-cases (loco_id_eq.beq id j)) [ inl e ↦ rw e refl | inr e ↦ rw e refl ]

    -- what is read, if the change does not touch it
    apply-kept :
        get m id ≡ some y
        → f (some x) ≡ f (some y)
        → f (if id == j then some x else get m j) ≡ f (get m j)
    apply-kept found untouched = elim (Bool-cases (loco_id_eq.beq id j)) [
      | inl e ↦
          let same : id ≡ j = (loco_id_eq.beq_iff id j).0 e in
          rw e (untouched ∙ ap f (sym found ∙ ap (get m) same))
      | inr e ↦ rw e refl
    ]

  module _ (id : LocoId) (b : Backend S) (full : IsFull b) where
    -- an action that changes neither the location nor the intent leaves the view
    pub view-with_loco_info :
        {A : Type 0} (action : LocoInfo S → Result Error A × LocoInfo S)
        → ((info : LocoInfo S) → (action info).1.location ≡ info.location)
        → ((info : LocoInfo S) → (action info).1.intent ≡ info.intent)
        → view (with_loco_info id action b).1 ≡ view b
    view-with_loco_info action l i =
        let (info, e) = full id in
        let entry = λ (j : LocoId). get-with_loco_info id j action b info e in
        let info' = (action info).1 in
        View-eq
          (λ j.
            ap location_in (entry j)
            ∙ apply-kept location_in id j info' info b.loco_info e (l info))
          (λ j.
            ap intent_in (entry j) ∙ apply-kept intent_in id j info' info b.loco_info e (i info))
          (mode-with_loco_info id action b)

    pub view-set_location :
        (sensor : SensorId)
        → view (Sensors.set_location id sensor b).1
          ≡ change {S = S} (set_location id sensor) (view b)
    unfolding Sensors.set_location
    view-set_location sensor =
        let (info, e) = full id in
        let info' : LocoInfo S = record info { location = some sensor } in
        View-eq
          (λ j.
            ap location_in (get-with_loco_info id j _ b info e)
            ∙ apply-if location_in id j info' info b.loco_info)
          (λ j.
            ap intent_in (get-with_loco_info id j _ b info e)
            ∙ apply-kept intent_in id j info' info b.loco_info e refl)
          (mode-with_loco_info id _ b)

    pub view-set_loco_intent :
        (intent : LocoIntent)
        → view (set_loco_intent id intent b).1 ≡ change {S = S} (loco_intent id intent) (view b)
    unfolding set_loco_intent
    view-set_loco_intent intent =
        let (info, e) = full id in
        let info' : LocoInfo S = record info { intent = some intent } in
        View-eq
          (λ j.
            ap location_in (get-with_loco_info id j _ b info e)
            ∙ apply-kept location_in id j info' info b.loco_info e refl)
          (λ j.
            ap intent_in (get-with_loco_info id j _ b info e)
            ∙ apply-if intent_in id j info' info b.loco_info)
          (mode-with_loco_info id _ b)
