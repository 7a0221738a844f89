-- ===== src/Tests/Segments.antt =====
-- Runs of dm/xTEDSSegmentBuilder.
use vn_sdm.Common.{
  ℕ, ◌+◌, ltb, leb, if◌then◌else◌, ◌≡◌, refl, arith, true, false, List, [], ◌∷◌, ◌++◌, length, none,
  some,
}
use vn_sdm.ComponentId
use vn_sdm.ComponentId.{ComponentId, component_id_invalid}
use vn_sdm.Dm.SegmentBuilder.{
  Node, capacity, max_number_segments, is_segmented_xteds, find_in, find_node_entry, update_in,
  delete_node, has_free, add_segment_node, in_order, sent_in_order, already_received, opened,
  extended, apply_first, apply_next, apply_segment, all_received, check_is_finished, get_full_xteds,
}
use vn_sdm.Dm.SegmentBuilder.Held.{part}
use vn_sdm.Dm.SegmentBuilder.View.{Received, began, went_on, received_lem}
use vn_sdm.Dm.SegmentBuilder.Lost.{last_node_lost}

abbrev sensor : ℕ → ComponentId
sensor n = record { sensor_id = n; address = 0x0a00_0001; port = 4001 }

abbrev first : List ℕ
first = b'a' ∷ []

abbrev second : List ℕ
second = b'b' ∷ []

abbrev both : List ℕ
both = b'a' ∷ b'b' ∷ []

abbrev idle : Node
idle = record {
  is_in_use = false;
  xteds_buffer = [];
  num_segments = 0;
  segments_received = λ i. false;
  xteds_id = component_id_invalid;
}

abbrev idle_nodes : List Node
idle_nodes = idle ∷ idle ∷ idle ∷ idle ∷ idle ∷ []

-- An xTEDS of two segments, between which another provider begins one.
abbrev after_first : List Node
after_first =
    add_segment_node (extended (part (sensor 1) 2 0 first) (opened (part (sensor 1) 2 0 first)))
      idle_nodes

abbrev after_second : List Node
after_second =
    update_in max_number_segments (sensor 1) (extended (part (sensor 1) 2 1 second)) after_first

first-Received : Received (sensor 1) 2 1 first after_first
unfolding find_in find_node_entry has_free apply_segment apply_first is_segmented_xteds
first-Received = began idle_nodes after_first first true refl refl (omega arith) (omega arith) refl

both-Received : Received (sensor 1) 2 2 both after_second
unfolding find_in find_node_entry has_free add_segment_node apply_segment apply_next
    is_segmented_xteds already_received sent_in_order in_order ComponentId.equal
both-Received = went_on first-Received after_second second true (omega arith) refl

received_lem_example :
    let m = part (sensor 1) 2 1 second in
    (check_is_finished after_second (sensor 1) ≡ leb 2 2)
    × (get_full_xteds after_second (sensor 1) 100 ≡ (
        if leb 2 2
        then if ltb 100 (length both)
          then some (delete_node (sensor 1) after_second, none)
          else if ltb (length both) 100
          then some (delete_node (sensor 1) after_second, some both)
          else none
        else some (after_second, none)))
    × (apply_segment after_second m ≡ (
        if ltb 1 2
        then some (after_second, true)
        else if ltb 2 1
        then some (after_second, false)
        else if ltb (length (both ++ second)) capacity
        then some (update_in max_number_segments (sensor 1) (extended m) after_second, true)
        else none))
received_lem_example = received_lem both-Received 100 1 second (omega arith)

both_given :
    get_full_xteds after_second (sensor 1) 100
    ≡ some (delete_node (sensor 1) after_second, some both)
unfolding get_full_xteds check_is_finished all_received find_node_entry find_in add_segment_node
    update_in ComponentId.equal
both_given = refl

-- The two letters fill an output of two bytes.
output_filled : get_full_xteds after_second (sensor 1) 2 ≡ none
unfolding get_full_xteds check_is_finished all_received find_node_entry find_in add_segment_node
    update_in ComponentId.equal
output_filled = refl

abbrev busy : ℕ → Node
busy n = record idle { is_in_use = true; num_segments = 2; xteds_id = sensor n }

abbrev busy_nodes : List Node
busy_nodes = busy 1 ∷ busy 2 ∷ busy 3 ∷ busy 4 ∷ idle ∷ []

last_node_lost_example :
    let m = part (sensor 5) 2 0 first in
    let l' = add_segment_node (extended m (opened m)) busy_nodes in
    (apply_segment busy_nodes m ≡ some (l', true))
    × (apply_segment l' (part (sensor 5) 2 (0 + 1) second) ≡ some (l', false))
    × (check_is_finished l' (sensor 5) ≡ false)
    × (delete_node (sensor 5) l' ≡ l')
unfolding find_node_entry find_in has_free ComponentId.equal
last_node_lost_example =
    last_node_lost busy_nodes (sensor 5) 2 0 first second refl refl refl (omega arith) (omega arith)
      (omega arith)
