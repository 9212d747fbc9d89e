-- ===== src/Backend/State.antt =====
-- The state of `Backend` and the operations that touch no stream (loco_controller/src/backend.rs).
-- A method takes the backend and returns the new one beside its result. A mutex guards each entry;
-- a method holds it for one step here.
use locoloco.Common.{
  true, false, none, some, List, [], ◌∷◌, map, Result, ok, panic, get, insert, ◌≡◌,
}
use locoloco.Protocol.Types.{LocoId, loco1, loco2, loco_id_eq}
use locoloco.Backend.Types.{Error, OracleMode, off, auto, LocoIntent, LocoInfo, Backend}

abbrev pub Method : Type 0 → Type 0 → Type 0
Method S A = Backend S → Result Error A × Backend S

module _ {S : Type 0} where
  abbrev pub default_info : LocoInfo S
  default_info = record { stream = none; location = none; intent = none }

  unfoldable pub new : Backend S
  new = record {
    loco_info = (loco1, default_info) ∷ (loco2, default_info) ∷ [];
    actuator_info = record { stream = none };
    oracle_enabled = false;
  }

  unfoldable pub loco_ids : Backend S → List LocoId
  loco_ids b = map (λ entry. entry.0) b.loco_info

  -- `self.loco_info(&loco_id).lock().unwrap()`, and what is done with the entry
  unfoldable pub with_loco_info :
      {A : Type 0} → LocoId → (LocoInfo S → Result Error A × LocoInfo S) → Method S A
  unfolding get insert
  with_loco_info loco_id action b = elim (get b.loco_info loco_id) [
    | none ↦ (panic, b)
    | some info ↦
        let (r, info') = action info in
        (r, record b { loco_info = insert loco_id info' b.loco_info })
  ]

  unfoldable pub set_loco_intent : LocoId → LocoIntent → Method S (Unit {0})
  unfolding with_loco_info
  set_loco_intent loco_id intent =
      with_loco_info loco_id (λ info. (ok tt, record info { intent = some intent }))

  unfoldable pub set_oracle_mode : OracleMode → Backend S → Backend S
  set_oracle_mode off b = record b { oracle_enabled = false }
  set_oracle_mode auto b = record b { oracle_enabled = true }

  abbrev pub IsFull : Backend S → Type 0
  IsFull b = (id : LocoId) → (info : LocoInfo S) × (get b.loco_info id ≡ some info)
