-- ===== src/Protocol/IsCode.antt =====
-- What the two conversions between an enum and its byte promise each other.
use locoloco.Common.{ℕ, ◌<◌, ◌≡◌, ◌≢◌, Result, ok, err}
use locoloco.Protocol.Types.{Error}

pub record IsCode {A : Type 0} (into : A → ℕ) (try_from : ℕ → Result Error A) (unknown : ℕ → Error)
    : Type 0 where
  -- a value that is sent is read back
  pub from_into : (a : A) → try_from (into a) ≡ ok a
  -- what is accepted is the code of the result
  pub into_from : (n : ℕ) (a : A) → try_from n ≡ ok a → into a ≡ n
  -- what is the code of no value is refused, with the byte in the error
  pub refused : (n : ℕ) → ((a : A) → into a ≢ n) → try_from n ≡ err (unknown n)
  -- a code is one byte
  pub fits : (a : A) → into a < 256
