-- ===== src/System/Questions.antt =====
-- The oracle's questions to the locos (loco_controller/src/oracle.rs,
-- loco_controller/src/backend.rs).
use locoloco.Common.{
  ℕ, ◌≡◌, refl, sym, ap, subst, ◌∙◌, true, false, Option, some, List, [], ◌∷◌, ◌++◌, map, All,
  All-In, In, inl, inr, Result, ok, insert, arith, ◌==◌,
}
use locoloco.Protocol.Types.{
  LocoId, loco_id_eq, Direction, forward, Speed, stop, switch_rails1, switch_rails,
  LocoStatusResponse,
}
use locoloco.Protocol.Direction
use locoloco.Protocol.Speed
use locoloco.Protocol.Speed.{IsReadable}
use locoloco.Wire.{Wire, Traffic, IsWire}
use locoloco.Backend.Types as BackendTypes
use locoloco.Backend.Types.{LocoInfo, LocoStatus, Backend}
use locoloco.Backend.Locos as Locos
use locoloco.Backend.Locos.{query, status_of}
use locoloco.Backend.Totality.{with_loco_info_lem}
use locoloco.Backend.Delivery.{requests, status_of-eq}
use locoloco.Oracle.Types.{ActiveLoco}
use locoloco.Oracle.Process.{active_loco, prepend, heard, ask}
use locoloco.Threads.Views.{View, view, location_in, intent_in}
use locoloco.Threads.Refinement.{loco_status-Keeps}
use locoloco.System.Links.{
  IsLinked, IsLinked-IsFull, only, incoming_from, Writes, Writes-none, Writes-append,
  Writes-replaced, incoming_from-replaced,
}

abbrev pub question : List ℕ
question = 0xab ∷ 3 ∷ 0 ∷ []

-- The questions to one loco.
abbrev pub question_bytes : List LocoId → LocoId → List ℕ
question_bytes [] j = []
question_bytes (id ∷ rest) j = only id question j ++ question_bytes rest j

-- No loco stands twice in the list.
abbrev pub IsDistinct : List LocoId → Type 0
IsDistinct [] = Unit
IsDistinct (id ∷ rest) = All (λ j. (id == j) ≡ false) rest × IsDistinct rest

-- The answer to a loco's next question is on its stream.
pub record Talk {S : Type 0} (t : Traffic S) (b : Backend S) (id : LocoId) : Type 0 where
  pub direction : Direction
  pub speed : Speed
  pub readable : IsReadable speed
  pub more : List ℕ
  pub arrives : incoming_from t b id ≡ Direction.into direction ∷ Speed.into speed ∷ more

-- What the oracle hears of a loco that answers so.
abbrev pub status_in : View → (id : LocoId) → Direction → Speed → LocoStatus
status_in v id direction speed = record {
  direction = direction;
  speed = speed;
  location = v.location id;
  intent = v.intent id;
}

-- What the oracle knows of a loco then.
abbrev pub known :
    {S : Type 0} {t : Traffic S} (b : Backend S)
    → ((id : LocoId) → Talk t b id)
    → LocoId
    → ActiveLoco
known b talk id = let a = talk id in active_loco id (status_in (view b) id a.direction a.speed)

module _ {S : Type 0} (w : Wire S) (t : Traffic S) (wired : IsWire w t)
    (writing : (s : S) (m : List ℕ) → (w.write_all s m).0 ≡ true) where
  -- A loco answered, and the rest stayed.
  record IsHeard (id : LocoId) (d : Direction) (s : Speed) (b : Backend S)
      (out : Result BackendTypes.Error LocoStatus × Backend S) : Type 0 where
    status : out.0 ≡ ok (status_in (view b) id d s)
    writes : Writes t b (only id question) [] out.1
    others : (j : LocoId) → (id == j) ≡ false → incoming_from t out.1 j ≡ incoming_from t b j
    same : view out.1 ≡ view b

  query-eq :
      (id : LocoId) (m : List ℕ) (info : LocoInfo S) (stream : S)
      → info.stream ≡ some stream
      → let written = (w.write_all stream m).1 in
        let (resp, stream') = w.loco_status_response.decode_from_std_read written in
        query w id m info ≡ (status_of info resp, record info { stream = some stream' })
  unfolding query
  query-eq id m info stream e = rw (e, query, writing stream m) refl

  status-IsHeard :
      (id : LocoId) (d : Direction) (s : Speed) (more : List ℕ) (b : Backend S)
      → IsLinked b
      → IsReadable s
      → incoming_from t b id ≡ Direction.into d ∷ Speed.into s ∷ more
      → IsHeard id d s b (Locos.loco_status w id b)
  unfolding Locos.loco_status
  status-IsHeard id d s more b h readable e =
      let l = h.link id in
      let resp : LocoStatusResponse = record {
        direction = Direction.into d;
        speed = Speed.into s;
      } in
      let (sent, quiet) = wired.writes l.stream question (writing l.stream question) in
      let written = (w.write_all l.stream question).1 in
      let here : incoming_from t b id ≡ t.incoming l.stream = ground arith in
      let arrived = quiet ∙ sym here ∙ e in
      let (_, _, silent) = wired.loco_status_codec.reads written resp more arrived in
      let stream' = (w.loco_status_response.decode_from_std_read written).1 in
      let message = (requests w t wired forward stop switch_rails1 switch_rails 0).1 in
      let step : Locos.loco_status w id b ≡ (
        status_of l.info (w.loco_status_response.decode_from_std_read written).0,
        record b { loco_info = insert id (record l.info { stream = some stream' }) b.loco_info },
      ) =
        rw (message, Locos.loco_status)
          (with_loco_info_lem id (query w id question) b l.info l.entry
            ∙ ap (λ o. (o.0, record b { loco_info = insert id o.1 b.loco_info }))
                (query-eq id question l.info l.stream l.connected)) in
      record {
        status =
            ap (λ o. o.0) step
            ∙ status_of-eq w t wired d s l.info written more readable arrived
            ∙ ap
                (λ (i : Option (LocoInfo S)). ok (record {
                  direction = d;
                  speed = s;
                  location = location_in i;
                  intent = intent_in i;
                }))
                (sym l.entry);
        writes = subst (Writes t b (only id question) []) (sym (ap (λ o. o.1) step)) (
            Writes-replaced t id l.info l.stream stream' b h l.entry l.connected question
              (silent ∙ sent));
        others = λ j differ.
            ap (λ o. incoming_from t o.1 j) step
            ∙ incoming_from-replaced t id l.info l.stream stream' b h l.entry l.connected j
            ∙ rw differ refl;
        same = loco_status-Keeps w id b (IsLinked-IsFull h);
      }

  module _ (b : Backend S) (talk : (id : LocoId) → Talk t b id) where
    ask-Writes :
        (ids : List LocoId) (b' : Backend S)
        → IsLinked b'
        → view b' ≡ view b
        → ((j : LocoId) → In j ids → incoming_from t b' j ≡ incoming_from t b j)
        → IsDistinct ids
        → let out = ask w ids b' in
          (out.0 ≡ ok (map (known b talk) ids)) × Writes t b' (question_bytes ids) [] out.1
    unfolding ask heard
    ask-Writes [] b' h v e distinct = (refl, Writes-none t h)
    ask-Writes (id ∷ ids) b' h v e distinct =
        let a = talk id in
        let one =
          status-IsHeard id a.direction a.speed a.more b' h a.readable
            (e id (inl refl) ∙ a.arrives) in
        let b'' = (Locos.loco_status w id b').1 in
        let (fine, more) =
          ask-Writes ids b'' one.writes.linked (one.same ∙ v)
            (λ j m. one.others j (All-In (λ j. (id == j) ≡ false) j ids distinct.0 m) ∙ e j (inr m))
            distinct.1 in
        let status = one.status ∙ ap (λ u. ok (status_in u id a.direction a.speed)) v in
        rw (status, ask, heard)
          (
            ap (prepend (known b talk id)) fine,
            Writes-append t (only id question) (question_bytes ids) [] [] one.writes more,
          )

    -- The questions of a round: each loco is asked once, and its answer is heard.
    pub ask-IsHeard :
        (ids : List LocoId)
        → IsLinked b
        → IsDistinct ids
        → let out = ask w ids b in
          (out.0 ≡ ok (map (known b talk) ids)) × Writes t b (question_bytes ids) [] out.1
    ask-IsHeard ids h distinct = ask-Writes ids b h refl (λ j m. refl) distinct
