-- ===== src/Backend/Connections.antt =====
-- New connections of locos, accepted and refused
-- (loco_controller/src/backend.rs).
use locoloco.Common.{
  ℕ, ◌≡◌, ◌≢◌, refl, ◌∙◌, some, List, ◌∷◌, Result, ok, err, panic, get, insert, Option-cases, inl,
  inr,
}
use locoloco.Protocol.Types.{LocoId, Operation, connect, Header, ConnectPayload, loco_id_eq}
use locoloco.Protocol.LocoId
use locoloco.Protocol.Operation
use locoloco.Wire.{Wire, Traffic, IsWire}
use locoloco.Backend.Types.{Error, Backend, LocoInfo}
use locoloco.Backend.State.{with_loco_info}
use locoloco.Backend.Frames.{check_header}
use locoloco.Backend.Locos.{loco_of, handle_op_connect, dispatch_loco, handle_loco_connection}
use locoloco.Backend.Totality.{with_loco_info_lem}

module _ {S : Type 0} where
  -- the entry is stored, or the operation panics
  stored_or_same :
      (id : LocoId) (stream : S) (b : Backend S)
      → let out = with_loco_info id (λ info. (ok tt, record info { stream = some stream })) b in
        out.0 ≢ ok tt → out.1 ≡ b
  unfolding with_loco_info
  stored_or_same id stream b h = elim (Option-cases (get b.loco_info id)) [
    | inl e ↦ rw (e, with_loco_info) refl
    | inr (info, e) ↦ absurd (h (rw (e, with_loco_info) refl))
  ]

module _ {S : Type 0} (w : Wire S) where
  connected_or_same :
      (r : Result Error LocoId) (stream : S) (b : Backend S)
      → let out : Result Error (Unit {0}) × Backend S = elim r [
        | ok loco_id ↦
            with_loco_info loco_id (λ info. (ok tt, record info { stream = some stream })) b
        | err e ↦ (err e, b)
        | panic ↦ (panic, b)
      ] in
        out.0 ≢ ok tt → out.1 ≡ b
  connected_or_same (ok id) stream b = stored_or_same id stream b
  connected_or_same (err e) stream b = λ h. refl
  connected_or_same panic stream b = λ h. refl

  dispatched_or_same :
      (op : Operation) (stream : S) (b : Backend S)
      → (dispatch_loco w op stream b).0 ≢ ok tt
      → (dispatch_loco w op stream b).1 ≡ b
  unfolding dispatch_loco handle_op_connect
  dispatched_or_same connect stream b =
      let (payload, stream') = w.connect_payload.decode_from_std_read stream in
      connected_or_same (loco_of payload) stream' b
  dispatched_or_same _ stream b = λ h. refl

  checked_or_same :
      (r : Result Error Operation) (stream : S) (b : Backend S)
      → let out : Result Error (Unit {0}) × Backend S = elim r [
        | ok op ↦ dispatch_loco w op stream b
        | err e ↦ (err e, b)
        | panic ↦ (panic, b)
      ] in
        out.0 ≢ ok tt → out.1 ≡ b
  checked_or_same (ok op) stream b = dispatched_or_same op stream b
  checked_or_same (err e) stream b = λ h. refl
  checked_or_same panic stream b = λ h. refl

  -- A connection that does not succeed changes nothing: the loco that was connected stays.
  pub handle_loco_connection_refused :
      (stream : S) (b : Backend S)
      → (handle_loco_connection w stream b).0 ≢ ok tt
      → (handle_loco_connection w stream b).1 ≡ b
  unfolding handle_loco_connection
  handle_loco_connection_refused stream b =
      let (header, stream') = w.header.decode_from_std_read stream in
      checked_or_same (check_header header) stream' b

  module _ (t : Traffic S) (lawful : IsWire w t) where
    connection-eq :
        (id : LocoId) (payload_len : ℕ) (stream : S) (b : Backend S)
        → let read = w.header.decode_from_std_read stream in
          let payload = w.connect_payload.decode_from_std_read read.1 in
          read.0
            ≡ some (record {
              magic = 0xab;
              operation = Operation.into connect;
              payload_len = payload_len;
            })
          → payload.0 ≡ some (record { loco_id = LocoId.into id })
          → handle_loco_connection w stream b
            ≡ with_loco_info id (λ info. (ok tt, record info { stream = some payload.1 })) b
    unfolding handle_loco_connection check_header Operation.try_from Operation.into
    connection-eq id payload_len stream b h p = rw (
      h,
      handle_loco_connection,
      dispatch_loco,
      handle_op_connect,
      p,
      LocoId.into-IsCode.from_into id,
    )

    -- Under the laws of `IsWire`: if a frame arrives with which a loco connects, and the backend has an entry for the loco, the
    -- connection succeeds: the entry takes the stream behind the frame, in place of any stream before,
    -- and keeps the location and the intent; the other entry and the rest of the backend stay.
    pub handle_loco_connection_connects :
        (id : LocoId) (payload_len : ℕ) (rest : List ℕ) (stream : S) (b : Backend S)
        (info : LocoInfo S)
        → t.incoming stream ≡ 0xab ∷ Operation.into connect ∷ payload_len ∷ LocoId.into id ∷ rest
        → get b.loco_info id ≡ some info
        → (stream' : S) × (t.incoming stream' ≡ rest)
          × (handle_loco_connection w stream b ≡ (
            ok tt,
            record b { loco_info = insert id (record info { stream = some stream' }) b.loco_info },
          ))
    handle_loco_connection_connects id payload_len rest stream b info e found =
        let header : Header = record {
          magic = 0xab;
          operation = Operation.into connect;
          payload_len = payload_len;
        } in
        let (h, hl, _) = lawful.header_codec.reads stream header (LocoId.into id ∷ rest) e in
        let behind = (w.header.decode_from_std_read stream).1 in
        let payload : ConnectPayload = record { loco_id = LocoId.into id } in
        let (p, pl, _) = lawful.connect_codec.reads behind payload rest hl in
        let stream' = (w.connect_payload.decode_from_std_read behind).1 in
        (
          stream',
          pl,
          connection-eq id payload_len stream b h p
              ∙ with_loco_info_lem id (λ i. (ok tt, record i { stream = some stream' })) b info
                  found,
        )
