-- ===== src/System/Distinct.antt =====
-- The locos of a round, each once (loco_controller/src/oracle.rs).
use mathlib.Core.List.{
  Perm, Mem, mem-cons_self, mem-cons_of_mem, eq-or-mem_of_mem-cons, not-mem-nil, Nodup, Nodup-nil,
  Nodup-cons,
}
use mathlib.Core.List.Perm
use mathlib.Core.Logic.Or
use mathlib.Core.HLevel.{⊥_prop}
use locoloco.Common.{
  ◌≡◌, refl, sym, ap, subst, ◌∙◌, false, List, [], ◌∷◌, map, map-In, All-In, ◌⊎◌, In, inl, inr,
  Option-cases, ◌==◌, arith,
}
use locoloco.Protocol.Types.{LocoId, loco_id_eq}
use locoloco.Wire.{Traffic}
use locoloco.Backend.Types.{Backend}
use locoloco.Oracle.Types.{ActiveLoco, LocoControl}
use locoloco.Oracle.Round.{ready}
use locoloco.System.Questions.{IsDistinct, Talk, known}

In-Mem : {A : Type 0} {a : A} (l : List A) → In a l → Mem a l
In-Mem {a} [] m = absurd m
In-Mem {a} (x ∷ l) (inl e) = subst (λ y. Mem y (x ∷ l)) e mem-cons_self
In-Mem {a} (x ∷ l) (inr m) = mem-cons_of_mem x (In-Mem l m)

not-Mem : {A : Type 0} {a : A} (l : List A) → ¬ In a l → ¬ Mem a l
not-Mem [] h m = not-mem-nil m
not-Mem (x ∷ l) h m =
    Or.elim ⊥_prop (eq-or-mem_of_mem-cons m) (λ e. h (inl (sym e))) (not-Mem l (λ n. h (inr n)))

-- one element for each key
unique :
    {A B : Type 0} (key : A → B) (l : List A) (x y : A)
    → Nodup (map key l)
    → In x l
    → In y l
    → key x ≡ key y
    → x ≡ y
unique key [] x y d m n e = absurd m
unique key (z ∷ l) x y d (inl p) (inl q) e = sym p ∙ q
unique key (z ∷ l) x y d (inl p) (inr n) e = absurd (
    (Nodup-cons.0 d).0 (
      In-Mem (map key l)
        (subst (λ k. In k (map key l)) (sym e ∙ ap key (sym p)) (map-In key y l n))))
unique key (z ∷ l) x y d (inr m) (inl q) e = absurd (
    (Nodup-cons.0 d).0
      (In-Mem (map key l) (subst (λ k. In k (map key l)) (e ∙ ap key (sym q)) (map-In key x l m))))
unique key (z ∷ l) x y d (inr m) (inr n) e = unique key l x y (Nodup-cons.0 d).1 m n e

ready-cons :
    (l : ActiveLoco) (ls : List ActiveLoco)
    → (ready (l ∷ ls) ≡ ready ls) ⊎ (ready (l ∷ ls) ≡ l.id ∷ ready ls)
ready-cons l ls = elim (Option-cases l.location) [
  | inl e ↦ inl (ground arith)
  | inr (here, e) ↦ elim (Option-cases l.intent) [
    | inl f ↦ inl (ground arith)
    | inr (intent, f) ↦ inr (ground arith)
  ]
]

module _ {S : Type 0} {t : Traffic S} (b : Backend S) (talk : (id : LocoId) → Talk t b id) where
  ready-known : (j : LocoId) (ids : List LocoId) → In j (ready (map (known b talk) ids)) → In j ids
  ready-known j [] m = m
  ready-known j (id ∷ ids) m = let ih = ready-known j ids in ground arith

  distinct-Nodup : (ids : List LocoId) → IsDistinct ids → Nodup (ready (map (known b talk) ids))
  distinct-Nodup [] h = Nodup-nil
  distinct-Nodup (id ∷ ids) h =
      let later = distinct-Nodup ids h.1 in
      let l = known b talk id in
      let ls = map (known b talk) ids in
      elim (ready-cons l ls) [
        | inl e ↦ subst Nodup (sym e) later
        | inr e ↦ subst Nodup (sym e) (
            Nodup-cons.1 (
              not-Mem (ready ls) (λ m.
                  let here = (loco_id_eq.beq_iff id id).1 refl in
                  let other = All-In (λ k. (id == k) ≡ false) id ids h.0 (ready-known id ids m) in
                  cc (sym here ∙ other)),
              later,
            ))
      ]

-- In a round that asks each loco once, no loco has two commands.
pub commanded_once :
    {S : Type 0} {t : Traffic S} (b : Backend S) (talk : (id : LocoId) → Talk t b id)
    (ids : List LocoId) (cs : List LocoControl) (x y : LocoControl)
    → IsDistinct ids
    → Perm (map (λ (k : LocoControl). k.0) cs) (ready (map (known b talk) ids))
    → In x cs
    → In y cs
    → x.0 ≡ y.0
    → x ≡ y
commanded_once b talk ids cs x y h p m n e =
    let d = Perm.nodup (Perm.symm p) (distinct-Nodup b talk ids h) in
    unique (λ (k : LocoControl). k.0) cs x y d m n e
