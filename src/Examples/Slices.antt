-- ===== src/Examples/Slices.antt =====
-- A socket as two lists, with codecs on slices, on which their documented behaviour holds.
use locoloco.Common.{
  ℕ, ◌<◌, ◌≤◌, ◌≡◌, refl, true, Option, none, some, List, ◌++◌, length, length-append, arith, ap,
  ◌∙◌, take, drop, take-append, drop-append, leb, if◌then◌else◌,
}
use mathlib.Core.Option
use locoloco.Wire.{
  header_bytes, connect_bytes, control_loco_bytes, array_bytes, sensor_status_bytes,
  loco_status_bytes, drive_actuator_bytes,
}
use locoloco.Pico.Socket.{SliceCodec, Socket, IsSliceCodec, IsSocket}
use locoloco.Examples.Pipe.{
  Pipe, traffic, one_of, two_of, three_of, one_of-short, two_of-short, three_of-short,
}

abbrev slices : {A : Type 0} → ℕ → (A → List ℕ) → (List ℕ → Option (A × List ℕ)) → SliceCodec A
slices size bytes parse = record {
  decode_from_slice = λ l. Option.map (λ r. r.0) (parse l);
  encode_into_slice = λ a room. if leb size room then some (bytes a) else none;
}

abbrev pub socket : Socket Pipe
socket = record {
  read_exact =
      λ p n. if leb n (length p.0) then (some (take n p.0), (drop n p.0, p.1)) else (none, p);
  write_all = λ p message. (true, (p.0, p.1 ++ message));
  header =
      slices 3 header_bytes
        (three_of (λ x y z. record { magic = x; operation = y; payload_len = z }));
  connect_payload = slices 1 connect_bytes (one_of (λ x. record { loco_id = x }));
  control_loco_payload =
      slices 2 control_loco_bytes (two_of (λ x y. record { direction = x; speed = y }));
  sensors_status_array = slices 1 array_bytes (one_of (λ x. record { len = x }));
  sensor_status =
      slices 2 sensor_status_bytes (two_of (λ x y. record { sensor_id = x; loco_id = y }));
  loco_status_response =
      slices 2 loco_status_bytes (two_of (λ x y. record { direction = x; speed = y }));
  drive_actuator_payload =
      slices 3 drive_actuator_bytes
        (three_of (λ x y z. record { actuator_id = x; actuator_type = y; actuator_state = z }));
}

slices-IsSliceCodec :
    {A : Type 0} (size : ℕ) (bytes : A → List ℕ) (parse : List ℕ → Option (A × List ℕ))
    → ((a : A) (rest : List ℕ) → parse (bytes a ++ rest) ≡ some (a, rest))
    → ((l : List ℕ) → length l < size → parse l ≡ none)
    → IsSliceCodec (slices size bytes parse) size bytes
slices-IsSliceCodec size bytes parse full short = record {
  encodes = λ a room h. ground arith;
  full = λ a room h. ground arith;
  decodes = λ a rest. ap (Option.map (λ r. r.0)) (full a rest);
  short = λ l h. ap (Option.map (λ r. r.0)) (short l h);
}

-- where the bytes arrive, they are read
arrived :
    (s : Pipe) (m rest : List ℕ)
    → s.0 ≡ m ++ rest
    → socket.read_exact s (length m) ≡ (some m, (rest, s.1))
arrived s m rest e =
    let enough : length m ≤ length s.0 = omega (arith, ap length e, length-append m rest) in
    let front : take (length m) s.0 ≡ m = ap (take (length m)) e ∙ take-append m rest in
    let back : drop (length m) s.0 ≡ rest = ap (drop (length m)) e ∙ drop-append m rest in
    ground (arith, front, back)

pub socket-IsSocket : IsSocket socket traffic
socket-IsSocket = record {
  reads = λ s m rest e.
      let read = arrived s m rest e in
      (ap (λ r. r.0) read, ap (λ r. r.1.0) read, ap (λ r. r.1.1) read);
  ends = λ s n h. ground arith;
  writes = λ s m e. (refl, refl);
  header_codec = slices-IsSliceCodec 3 header_bytes _ (λ a rest. refl) (three_of-short _);
  connect_codec = slices-IsSliceCodec 1 connect_bytes _ (λ a rest. refl) (one_of-short _);
  control_loco_codec = slices-IsSliceCodec 2 control_loco_bytes _ (λ a rest. refl) (two_of-short _);
  array_codec = slices-IsSliceCodec 1 array_bytes _ (λ a rest. refl) (one_of-short _);
  sensor_status_codec =
      slices-IsSliceCodec 2 sensor_status_bytes _ (λ a rest. refl) (two_of-short _);
  loco_status_codec = slices-IsSliceCodec 2 loco_status_bytes _ (λ a rest. refl) (two_of-short _);
  drive_actuator_codec =
      slices-IsSliceCodec 3 drive_actuator_bytes _ (λ a rest. refl) (three_of-short _);
}
