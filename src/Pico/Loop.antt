-- ===== src/Pico/Loop.antt =====
-- The loops of `handle_messages`, which only an error ends (loco_pico/src/bin/loco_pico.rs,
-- actuators_pico/src/bin/actuators_pico.rs).
use locoloco.Common.{
  ℕ, zero, suc, ◌<◌, ◌≡◌, ◌≢◌, refl, Option, none, some, length, Result, ok, err, panic, All, arith,
}
use locoloco.Wire.{Traffic}
use locoloco.Pico.Receive.Limits.{IsByte, Takes, Takes-length, Takes-IsByte}

-- The board behind the loop: an error is logged, and a panic halts the board.
abbrev pub behind : {E S A : Type 0} → Option (Result E (Unit {0}) × S × A) → Option A
behind none = none
behind (some (panic, s, a)) = none
behind (some (other, s, a)) = some a

module _ {E S A : Type 0} (round : S → A → Result E (Unit {0}) × S × A) where
  -- `none` is the end of the fuel.
  unfoldable pub loop : ℕ → S → A → Option (Result E (Unit {0}) × S × A)
  loop zero s a = none
  loop (suc fuel) s a =
      let (r, s', a') = round s a in
      elim r [ ok _ ↦ loop fuel s' a' | other ↦ some (other, s', a') ]

  module _ (t : Traffic S) (Inv : A → Type 0) where
    -- One round keeps the invariant and does not panic, and a success takes a byte at least.
    pub record IsRound (s : S) (out : Result E (Unit {0}) × S × A) : Type 0 where
      pub kept : Inv out.2
      pub safe : out.0 ≢ panic
      pub taken : out.0 ≡ ok tt → Takes 1 (t.incoming s) (t.incoming out.1)

    -- The loop came to an end, with an error.
    pub record IsEnded (result : Option (Result E (Unit {0}) × S × A)) : Type 0 where
      pub error : E
      pub socket : S
      pub state : A
      pub ended : result ≡ some (err error, socket, state)
      pub kept : Inv state

    loop_step :
        (fuel : ℕ) (s : S) (out : Result E (Unit {0}) × S × A)
        → IsRound s out
        → (out.0 ≡ ok tt → IsEnded (loop fuel out.1 out.2))
        → IsEnded (elim out.0 [ ok _ ↦ loop fuel out.1 out.2 | other ↦ some (other, out.1, out.2) ])
    loop_step fuel s (ok u, s', a') h next = next refl
    loop_step fuel s (err e, s', a') h next = record {
      error = e;
      socket = s';
      state = a';
      ended = refl;
      kept = h.kept;
    }
    loop_step fuel s (panic, s', a') h next = absurd (h.safe refl)

    -- With more fuel than bytes to come, the loop ends with an error.
    pub loop-IsEnded :
        ((s : S) (a : A) → All IsByte (t.incoming s) → Inv a → IsRound s (round s a))
        → (fuel : ℕ) (s : S) (a : A) → length (t.incoming s) < fuel
        → All IsByte (t.incoming s)
        → Inv a
        → IsEnded (loop fuel s a)
    unfolding loop
    loop-IsEnded each zero s a h bytes inv = absurd (omega arith)
    loop-IsEnded each (suc fuel) s a h bytes inv =
        let one = each s a bytes inv in
        loop_step fuel s (round s a) one (λ e.
          let less = Takes-length (one.taken e) in
          loop-IsEnded each fuel (round s a).1 (round s a).2 (omega arith)
            (Takes-IsByte (one.taken e) bytes) one.kept)
