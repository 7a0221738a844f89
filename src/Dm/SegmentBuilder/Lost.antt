-- ===== src/Dm/SegmentBuilder/Lost.antt =====
-- The last node of the segment builder.
use vn_sdm.Common.{ℕ, ◌+◌, ◌<◌, ◌≤◌, ◌≡◌, refl, arith, true, false, List, length, none, some, ◌∙◌}
use vn_sdm.ComponentId.{ComponentId}
use vn_sdm.Dm.SegmentBuilder.{
  Segment, Node, capacity, max_number_segments, find_node_entry, delete_node, has_free,
  add_segment_node, opened, extended, apply_first, apply_segment, check_is_finished,
}
use vn_sdm.Dm.SegmentBuilder.Nodes.{free_in, find_in-add_full, update_in-none}
use vn_sdm.Dm.SegmentBuilder.Branches.{apply_segment_first}
use vn_sdm.Dm.SegmentBuilder.Held.{part}

refused :
    (l : List Node) (m : Segment)
    → find_node_entry m.source l ≡ none
    → 0 < m.sequence_number
    → apply_segment l m ≡ some (l, false)
unfolding apply_segment apply_first
refused l m e p = ground arith

never_finished :
    (l : List Node) (a : ComponentId) → find_node_entry a l ≡ none → check_is_finished l a ≡ false
unfolding check_is_finished
never_finished l a e = ground arith

-- When the first four nodes are in use by other providers, and another node is free, the first segment
-- of a provider is accepted. But each later segment of it is refused, its xTEDS is not finished, and
-- `DeleteNode` does not free its node.
pub last_node_lost :
    (l : List Node) (a : ComponentId) (total k : ℕ) (t t' : List ℕ)
    → find_node_entry a l ≡ none
    → free_in max_number_segments l ≡ false
    → has_free l ≡ true
    → 0 < total
    → total ≤ max_number_segments
    → length t < capacity
    → let m = part a total 0 t in
      let l' = add_segment_node (extended m (opened m)) l in
      (apply_segment l m ≡ some (l', true))
      × (apply_segment l' (part a total (k + 1) t') ≡ some (l', false))
      × (check_is_finished l' a ≡ false)
      × (delete_node a l' ≡ l')
unfolding delete_node find_node_entry
last_node_lost l a total k t t' e f g p q h =
    let m = part a total 0 t in
    let new = extended m (opened m) in
    let l' = add_segment_node new l in
    let gone : find_node_entry a l' ≡ none = find_in-add_full max_number_segments a new l f ∙ e in
    (
      ground (arith, apply_segment_first l m e g p q refl),
      refused l' (part a total (k + 1) t') gone (omega arith),
      never_finished l' a gone,
      update_in-none max_number_segments a (λ n. record n { is_in_use = false }) l' gone,
    )
