-- ===== src/RailNetwork/Search.antt =====
-- The accessors of `RailNetwork`, and its two depth-first searches for the next checkpoint
-- (loco_controller/src/rail_network.rs). The source counts `iteration` up to `longest_path`; the
-- recursion here is on what is left of it.
use locoloco.Common.{
  ℕ, zero, suc, ◌-◌, Option, none, some, List, [], ◌∷◌, map, Result, ok, unwrap, ◌>>=◌, ◌==◌, get,
  sort_by_key, if◌then◌else◌,
}
use locoloco.Protocol.Types.{Direction}
use locoloco.RailNetwork.Types.{
  CheckpointId, TrackId, SegmentId, Segment, Checkpoint, RailNetwork, rank, track_id_eq,
  checkpoint_id_eq, segment_id_eq, direction_eq,
}

module _ {E : Type 0} where
  -- `RailNetwork::segment`
  unfoldable pub segment : RailNetwork → SegmentId → Result E Segment
  unfolding get
  segment net segment_id = unwrap (get net.segments segment_id)

  -- `RailNetwork::checkpoint`
  unfoldable pub checkpoint : RailNetwork → CheckpointId → Result E Checkpoint
  unfolding get
  checkpoint net checkpoint_id = unwrap (get net.checkpoints checkpoint_id)

  -- `Checkpoint::checkpoint_ids`
  unfoldable pub checkpoint_ids : Checkpoint → Direction → Result E (List CheckpointId)
  unfolding get
  checkpoint_ids cp direction = unwrap (get cp.checkpoint_ids direction)

  -- the first loop of the search for a track
  unfoldable pub on_track :
      RailNetwork → TrackId → List CheckpointId → Result E (Option CheckpointId)
  unfolding checkpoint
  on_track net target [] = ok none
  on_track net target (next ∷ rest) =
      let later = on_track net target rest in
      do cp ← checkpoint net next; if cp.track_id == target then ok (some next) else later

  -- the first loop of the search for a checkpoint
  unfoldable pub is_next : CheckpointId → List CheckpointId → Result E (Option CheckpointId)
  is_next target [] = ok none
  is_next target (next ∷ rest) =
      let later = is_next target rest in if next == target then ok (some next) else later

  -- each checkpoint with its sort key
  unfoldable pub with_priority :
      RailNetwork → List CheckpointId → Result E (List (ℕ × CheckpointId))
  unfolding checkpoint
  with_priority net [] = ok []
  with_priority net (c ∷ cs) = do
    cp ← checkpoint net c
    rest ← with_priority net cs
    ok ((rank cp.priority, c) ∷ rest)

  -- `sort_by_key` with the priority; a list of at most one element is not looked at
  unfoldable pub sort_by_priority : RailNetwork → List CheckpointId → Result E (List CheckpointId)
  unfolding with_priority sort_by_key
  sort_by_priority net [] = ok []
  sort_by_priority net (c ∷ []) = ok (c ∷ [])
  sort_by_priority net (c ∷ d ∷ cs) = do
    keyed ← with_priority net (c ∷ d ∷ cs)
    ok (map (λ p. p.1) (sort_by_key (λ p. p.0) keyed))

  -- the second loop: the first checkpoint from which the search succeeds
  unfoldable pub first_leading :
      (CheckpointId → Result E (Option CheckpointId))
      → List CheckpointId
      → Result E (Option CheckpointId)
  first_leading search [] = ok none
  first_leading search (next ∷ rest) =
      let later = first_leading search rest in
      do found ← search next; elim found [ some _ ↦ ok (some next) | none ↦ later ]

  -- the search goes on only if the first loop found nothing
  unfoldable pub or_search :
      Option CheckpointId → Result E (Option CheckpointId) → Result E (Option CheckpointId)
  or_search (some next) rest = ok (some next)
  or_search none rest = rest

  -- The body that both searches share: `direct` is the first loop, `second` the one over the sorted
  -- list.
  unfoldable pub search_body :
      RailNetwork
      → (direct second : List CheckpointId → Result E (Option CheckpointId)) → Direction
      → CheckpointId
      → Result E (Option CheckpointId)
  unfolding checkpoint checkpoint_ids sort_by_priority or_search
  search_body net direct second direction cp_id = do
    cp ← checkpoint net cp_id
    next_cp_ids ← checkpoint_ids cp direction
    found ← direct next_cp_ids
    or_search found (sort_by_priority net next_cp_ids >>= second)

  -- With no iteration left the second loop returns `None` at its first element.
  unfoldable pub search_from :
      RailNetwork
      → (List CheckpointId → Result E (Option CheckpointId))
      → Direction
      → ℕ
      → CheckpointId
      → Result E (Option CheckpointId)
  unfolding search_body first_leading
  search_from net direct direction zero cp_id =
      search_body net direct (λ _. ok none) direction cp_id
  search_from net direct direction (suc left) cp_id =
      search_body net direct (first_leading (search_from net direct direction left)) direction cp_id

  unfoldable pub next_checkpoint_id_for_track_id_target :
      RailNetwork → ℕ → CheckpointId → Direction → TrackId → Result E (Option CheckpointId)
  unfolding search_from on_track
  next_checkpoint_id_for_track_id_target net iteration cp_id direction target_track_id =
      search_from net (on_track net target_track_id) direction (net.longest_path - iteration) cp_id

  unfoldable pub next_checkpoint_id_for_checkpoint_id_target :
      RailNetwork → ℕ → CheckpointId → Direction → CheckpointId → Result E (Option CheckpointId)
  unfolding search_from is_next
  next_checkpoint_id_for_checkpoint_id_target net iteration cp_id direction target_cp_id =
      search_from net (is_next target_cp_id) direction (net.longest_path - iteration) cp_id
