-- ===== src/Pico/Actuators/Switches.antt =====
-- The array of the switches (actuators_pico/src/bin/actuators_pico.rs).
use locoloco.Common.{
  ◌≡◌, refl, sym, subst, Option, none, some, List, [], ◌∷◌, map, ◌==◌, if◌then◌else◌, Bool-cases,
  inl, inr, arith, In,
}
use locoloco.Protocol.Types.{
  ActuatorId, switch_rails1, switch_rails2, switch_rails3, switch_rails4, switch_rails5,
  switch_rails6, switch_rails7, switch_rails8, SwitchRailsState, actuator_id_eq,
}
use locoloco.Pico.Actuators.Types.{Level, Output, IsOutput, SwitchRails, Actuators}
use locoloco.Pico.Actuators.Messages.{level_of, switch, update_first}

-- The array of `main`, on eight outputs that are low.
unfoldable pub wired : {G : Type 0} (pin2 pin3 pin4 pin5 pin6 pin7 pin8 pin9 : G) → Actuators G
wired pin2 pin3 pin4 pin5 pin6 pin7 pin8 pin9 = record {
  switch_rails =
      record { gpio = pin2; id = switch_rails1 }
      ∷ record { gpio = pin3; id = switch_rails2 }
      ∷ record { gpio = pin4; id = switch_rails3 }
      ∷ record { gpio = pin5; id = switch_rails4 }
      ∷ record { gpio = pin6; id = switch_rails5 }
      ∷ record { gpio = pin7; id = switch_rails6 }
      ∷ record { gpio = pin8; id = switch_rails7 }
      ∷ record { gpio = pin9; id = switch_rails8 }
      ∷ [];
}

-- The ids of the array.
abbrev pub ids : {G : Type 0} → List (SwitchRails G) → List ActuatorId
ids l = map (λ s. s.id) l

-- The array has a switch for every id, each id once: the ids are those of `main`.
pub record IsWired {G : Type 0} (a : Actuators G) : Type 0 where
  pub same :
      ids a.switch_rails
      ≡ switch_rails1 ∷ switch_rails2 ∷ switch_rails3 ∷ switch_rails4 ∷ switch_rails5
        ∷ switch_rails6 ∷ switch_rails7 ∷ switch_rails8 ∷ []

pub wired-IsWired :
    {G : Type 0} (pin2 pin3 pin4 pin5 pin6 pin7 pin8 pin9 : G)
    → IsWired (wired pin2 pin3 pin4 pin5 pin6 pin7 pin8 pin9)
unfolding wired
wired-IsWired pin2 pin3 pin4 pin5 pin6 pin7 pin8 pin9 = record { same = refl }

-- The level at the first switch with an id.
abbrev pub level_at : {G : Type 0} → (G → Level) → List (SwitchRails G) → ActuatorId → Option Level
level_at level [] id = none
level_at level (s ∷ rest) id =
    let later = level_at level rest id in if s.id == id then some (level s.gpio) else later

module _ {G : Type 0} (o : Output G) (level : G → Level) (lawful : IsOutput o level) where
  pub ids-update_first :
      (id : ActuatorId) (state : SwitchRailsState) (l : List (SwitchRails G))
      → ids (update_first o id state l) ≡ ids l
  unfolding update_first switch
  ids-update_first id state [] = refl
  ids-update_first id state (s ∷ rest) = ground (arith, ids-update_first id state rest)

  -- The switch with the id has the new level, if there is one, and all others keep theirs.
  pub level_at-update_first :
      (id j : ActuatorId) (state : SwitchRailsState) (l : List (SwitchRails G))
      → In id (ids l)
      → level_at level (update_first o id state l) j
        ≡ (if id == j then some (level_of state) else level_at level l j)
  unfolding update_first switch
  level_at-update_first id j state [] m = absurd m
  level_at-update_first id j state (s ∷ rest) m = elim (Bool-cases (s.id == id)) [
    | inl e ↦ ground (arith, actuator_id_eq.beq_iff s.id id, lawful.set s.gpio (level_of state))
    | inr e ↦ elim m [
      | inl same ↦ absurd (ground (arith, actuator_id_eq.beq_iff s.id id))
      | inr later ↦ ground (
        arith,
        actuator_id_eq.beq_iff s.id id,
        actuator_id_eq.beq_iff s.id j,
        actuator_id_eq.beq_iff id j,
        level_at-update_first id j state rest later,
      )
    ]
  ]

  -- every id is among those of `main`
  pub IsWired-In : (a : Actuators G) → IsWired a → (id : ActuatorId) → In id (ids a.switch_rails)
  IsWired-In a h id = subst (In id) (sym h.same) (every id)
    where
      every :
          (id : ActuatorId)
          → In id (
              switch_rails1 ∷ switch_rails2 ∷ switch_rails3 ∷ switch_rails4 ∷ switch_rails5
              ∷ switch_rails6 ∷ switch_rails7 ∷ switch_rails8 ∷ [])
      every switch_rails1 = inl refl
      every switch_rails2 = inr (inl refl)
      every switch_rails3 = inr (inr (inl refl))
      every switch_rails4 = inr (inr (inr (inl refl)))
      every switch_rails5 = inr (inr (inr (inr (inl refl))))
      every switch_rails6 = inr (inr (inr (inr (inr (inl refl)))))
      every switch_rails7 = inr (inr (inr (inr (inr (inr (inl refl))))))
      every switch_rails8 = inr (inr (inr (inr (inr (inr (inr (inl refl)))))))
