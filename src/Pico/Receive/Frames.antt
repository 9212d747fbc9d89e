-- ===== src/Pico/Receive/Frames.antt =====
-- What `receive` makes of a frame, and of what is no frame.
use locoloco.Common.{
  ℕ, ◌≤◌, ◌≡◌, refl, sym, subst, ◌∙◌, List, [], ◌∷◌, ◌++◌, length, Result, ok, arith,
}
use locoloco.Protocol.Types.{Header, Operation}
use locoloco.Protocol.Operation
use locoloco.Wire.{Traffic, header_bytes}
use locoloco.Pico.Socket.{Socket, IsSocket}
use locoloco.Pico.Receive.{
  Reasons, check_header, receive_payload, receive_behind, receive_header, receive,
}

module _ {E : Type 0} (reasons : Reasons E) where
  check_header-into :
      (op : Operation) (n : ℕ)
      → check_header reasons
          (record { magic = 0xab; operation = Operation.into op; payload_len = n })
        ≡ ok op
  unfolding check_header
  check_header-into op n = rw (Operation.into-IsCode.from_into op) refl

  module _ {S : Type 0} (k : Socket S) (t : Traffic S) (lawful : IsSocket k t) where
    -- A message was received, `rest` is left, and nothing was written.
    pub record IsReceived (op : Operation) (payload rest : List ℕ) (s : S)
        (out : Result E (Operation × List ℕ) × S) : Type 0 where
      pub message : out.0 ≡ ok (op, payload)
      pub left : t.incoming out.1 ≡ rest
      pub silent : t.sent out.1 ≡ t.sent s

    receive_payload-IsReceived :
        (op : Operation) (payload rest : List ℕ) (s : S)
        → length payload ≤ 256
        → t.incoming s ≡ payload ++ rest
        → IsReceived op payload rest s (receive_payload reasons k op (length payload) s)
    unfolding receive_payload
    receive_payload-IsReceived op [] rest s h e = record { message = refl; left = e; silent = refl }
    receive_payload-IsReceived op (x ∷ xs) rest s h e =
        let (r, l, q) = lawful.reads s (x ∷ xs) rest e in
        record { message = ground arith; left = ground arith; silent = ground arith }

    -- a frame with its checked header
    pub receive-IsReceived :
        (op : Operation) (payload rest : List ℕ) (s : S)
        → length payload ≤ 256
        → t.incoming s ≡ 0xab ∷ Operation.into op ∷ length payload ∷ payload ++ rest
        → IsReceived op payload rest s (receive reasons k s)
    unfolding receive receive_header receive_behind
    receive-IsReceived op payload rest s h e =
        let header : Header = record {
          magic = 0xab;
          operation = Operation.into op;
          payload_len = length payload;
        } in
        let (r, l, q) = lawful.reads s (header_bytes header) (payload ++ rest) e in
        let behind = (k.read_exact s 3).1 in
        let received = receive_payload-IsReceived op payload rest behind h l in
        let step : receive reasons k s ≡ receive_payload reasons k op (length payload) behind =
          rw
            (
              r,
              lawful.header_codec.decodes header [],
              check_header-into op (length payload),
              receive,
              receive_header,
              receive_behind,
            )
            refl in
        subst (IsReceived op payload rest s) (sym step) (record {
          message = received.message;
          left = received.left;
          silent = received.silent ∙ q;
        })
