-- ===== src/Examples/Pipe.antt =====
-- A stream as two lists, what it still delivers and what was written to it, on which the documented
-- behaviour of the codecs and of the socket holds.
use locoloco.Common.{
  ℕ, ◌<◌, ◌≡◌, refl, true, Option, none, some, List, [], ◌∷◌, ◌++◌, length, arith, ap, ◌∙◌,
}
use locoloco.Wire.{
  Codec, Wire, Traffic, IsCodec, IsWire, header_bytes, connect_bytes, control_loco_bytes,
  array_bytes, sensor_status_bytes, loco_status_bytes, drive_actuator_bytes,
}

abbrev pub Pipe : Type 0
Pipe = List ℕ × List ℕ

abbrev pub traffic : Traffic Pipe
traffic = record { incoming = λ p. p.0; sent = λ p. p.1 }

abbrev pub one_of : {A : Type 0} → (ℕ → A) → List ℕ → Option (A × List ℕ)
one_of f (x ∷ rest) = some (f x, rest)
one_of f _ = none

abbrev pub two_of : {A : Type 0} → (ℕ → ℕ → A) → List ℕ → Option (A × List ℕ)
two_of f (x ∷ y ∷ rest) = some (f x y, rest)
two_of f _ = none

abbrev pub three_of : {A : Type 0} → (ℕ → ℕ → ℕ → A) → List ℕ → Option (A × List ℕ)
three_of f (x ∷ y ∷ z ∷ rest) = some (f x y z, rest)
three_of f _ = none

abbrev taken : {A : Type 0} → Option (A × List ℕ) → Pipe → Option A × Pipe
taken none p = (none, p)
taken (some (a, rest)) p = (some a, (rest, p.1))

abbrev codec : {A : Type 0} → (A → List ℕ) → (List ℕ → Option (A × List ℕ)) → Codec Pipe A
codec bytes parse = record {
  encode_to_vec = λ a. some (bytes a);
  decode_from_std_read = λ p. taken (parse p.0) p;
}

abbrev pub pipe : Wire Pipe
pipe = record {
  write_all = λ p message. (true, (p.0, p.1 ++ message));
  header =
      codec header_bytes (three_of (λ x y z. record { magic = x; operation = y; payload_len = z }));
  connect_payload = codec connect_bytes (one_of (λ x. record { loco_id = x }));
  control_loco_payload =
      codec control_loco_bytes (two_of (λ x y. record { direction = x; speed = y }));
  sensors_status_array = codec array_bytes (one_of (λ x. record { len = x }));
  sensor_status = codec sensor_status_bytes (two_of (λ x y. record { sensor_id = x; loco_id = y }));
  loco_status_response =
      codec loco_status_bytes (two_of (λ x y. record { direction = x; speed = y }));
  drive_actuator_payload =
      codec drive_actuator_bytes
        (three_of (λ x y z. record { actuator_id = x; actuator_type = y; actuator_state = z }));
}

codec-IsCodec :
    {A : Type 0} (size : ℕ) (bytes : A → List ℕ) (parse : List ℕ → Option (A × List ℕ))
    → ((a : A) (rest : List ℕ) → parse (bytes a ++ rest) ≡ some (a, rest))
    → ((l : List ℕ) → length l < size → parse l ≡ none)
    → IsCodec traffic (codec bytes parse) size bytes
codec-IsCodec size bytes parse full short = record {
  encodes = λ a. refl;
  reads = λ p a rest e.
      let found = ap parse e ∙ full a rest in
      (
        ap (λ o. (taken o p).0) found,
        ap (λ o. (taken o p).1.0) found,
        ap (λ o. (taken o p).1.1) found,
      );
  short = λ p h. ap (λ o. (taken o p).0) (short p.0 h);
}

pub one_of-short : {A : Type 0} (f : ℕ → A) (l : List ℕ) → length l < 1 → one_of f l ≡ none
one_of-short f [] h = refl
one_of-short f (x ∷ l) h = absurd (ground arith)

pub two_of-short : {A : Type 0} (f : ℕ → ℕ → A) (l : List ℕ) → length l < 2 → two_of f l ≡ none
two_of-short f [] h = refl
two_of-short f (x ∷ []) h = refl
two_of-short f (x ∷ y ∷ l) h = absurd (ground arith)

pub three_of-short :
    {A : Type 0} (f : ℕ → ℕ → ℕ → A) (l : List ℕ) → length l < 3 → three_of f l ≡ none
three_of-short f [] h = refl
three_of-short f (x ∷ []) h = refl
three_of-short f (x ∷ y ∷ []) h = refl
three_of-short f (x ∷ y ∷ z ∷ l) h = absurd (ground arith)

pub pipe-IsWire : IsWire pipe traffic
pipe-IsWire = record {
  writes = λ p message e. (refl, refl);
  header_codec = codec-IsCodec 3 header_bytes _ (λ a rest. refl) (three_of-short _);
  connect_codec = codec-IsCodec 1 connect_bytes _ (λ a rest. refl) (one_of-short _);
  control_loco_codec = codec-IsCodec 2 control_loco_bytes _ (λ a rest. refl) (two_of-short _);
  array_codec = codec-IsCodec 1 array_bytes _ (λ a rest. refl) (one_of-short _);
  sensor_status_codec = codec-IsCodec 2 sensor_status_bytes _ (λ a rest. refl) (two_of-short _);
  loco_status_codec = codec-IsCodec 2 loco_status_bytes _ (λ a rest. refl) (two_of-short _);
  drive_actuator_codec = codec-IsCodec 3 drive_actuator_bytes _ (λ a rest. refl) (three_of-short _);
}
