-- ===== src/Protocol/LocoId.antt =====
-- The byte code of `LocoId` and its text, and the tags of the locos (loco_protocol/src/lib.rs).
use Prim.Native.String.{String}
use locoloco.Common.{
  ℕ, ◌<◌, ◌≡◌, ◌≢◌, refl, Result, ok, err, arith, nat_eq, if◌then◌else◌, Bool, true, false, List,
  [], ◌∷◌, length, not, ◌&&◌,
}
use locoloco.Protocol.Types.{
  LocoId, Error, unknown_loco_id, loco1, loco2, uid_too_long, unknown_uid,
}
use locoloco.Protocol.IsCode.{IsCode}

unfoldable pub try_from : ℕ → Result Error LocoId
try_from value =
    if nat_eq value 1
    then ok loco1
    else if nat_eq value 2
    then ok loco2
    else err (unknown_loco_id value)

-- One tag of the four bytes of `uid`.
unfoldable pub same_bytes : List ℕ → List ℕ → Bool
same_bytes [] [] = true
same_bytes (x ∷ xs) (y ∷ ys) = nat_eq x y && same_bytes xs ys
same_bytes _ _ = false

unfoldable pub try_from_uid : List ℕ → Result Error LocoId
unfolding same_bytes
try_from_uid uid =
    if not (nat_eq (length uid) 4)
    then err uid_too_long
    else if same_bytes uid (0xe3 ∷ 0xa6 ∷ 0xaf ∷ 0x05 ∷ [])
    then ok loco1
    else if same_bytes uid (0x69 ∷ 0xd0 ∷ 0x47 ∷ 0x06 ∷ [])
    then ok loco2
    else err unknown_uid

unfoldable pub into : LocoId → ℕ
into loco1 = 1
into loco2 = 2

unfoldable pub fmt : LocoId → String
fmt loco1 = "Loco1"
fmt loco2 = "Loco2"

try_from-into : (a : LocoId) → try_from (into a) ≡ ok a
unfolding try_from into
try_from-into loco1 = refl
try_from-into _ = refl

into-lt : (a : LocoId) → into a < 256
unfolding into
into-lt loco1 = omega arith
into-lt _ = omega arith

into-try_from : (n : ℕ) (a : LocoId) → try_from n ≡ ok a → into a ≡ n
unfolding try_from into
into-try_from n a h = ground arith

try_from_refused : (n : ℕ) → ((a : LocoId) → into a ≢ n) → try_from n ≡ err (unknown_loco_id n)
unfolding try_from into
try_from_refused n h = ground (arith, h loco1, h loco2)

pub into-IsCode : IsCode into try_from unknown_loco_id
into-IsCode = record {
  from_into = try_from-into;
  into_from = into-try_from;
  refused = try_from_refused;
  fits = into-lt;
}
