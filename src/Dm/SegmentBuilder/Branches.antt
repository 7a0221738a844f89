-- ===== src/Dm/SegmentBuilder/Branches.antt =====
-- What `ApplySegment` does on the branches that accept a segment, and what it leaves alone.
use vn_sdm.Common.{
  ℕ, zero, suc, ◌<◌, ◌≤◌, leb, ltb, if◌then◌else◌, ◌≡◌, refl, arith, Bool, true, false, List, [],
  ◌∷◌, ◌++◌, length, none, some, Bool-cases, Option-cases, inl, inr,
}
use vn_sdm.ComponentId
use vn_sdm.ComponentId.{ComponentId}
use vn_sdm.Dm.SegmentBuilder.{
  Segment, Node, capacity, max_number_segments, segments_size, is_segmented_xteds, find_in,
  find_node_entry, update_in, delete_node, has_free, add_segment_node, in_order, sent_in_order,
  already_received, opened, extended, apply_first, apply_next, apply_segment, all_received,
}
use vn_sdm.Dm.SegmentBuilder.Nodes.{
  is_of_other, free_in, find_in-update_in-other, find_in-add_other,
}

in_order_lem :
    (c k : ℕ) (n : Node) → ((i : ℕ) → n.segments_received i ≡ ltb i k) → in_order c k n ≡ true
unfolding in_order
in_order_lem zero k n h = refl
in_order_lem (suc i) k n h = ground (arith, h i, in_order_lem i k n h)

pub all_received_lem :
    (c k : ℕ) (n : Node) → ((i : ℕ) → n.segments_received i ≡ ltb i k) → all_received c n ≡ leb c k
unfolding all_received
all_received_lem zero k n h = ground arith
all_received_lem (suc i) k n h = ground (arith, h i, all_received_lem i k n h)

pub apply_segment-other :
    (l l' : List Node) (m : Segment) (r : Bool) (a : ComponentId)
    → ComponentId.equal m.source a ≡ false
    → apply_segment l m ≡ some (l', r)
    → find_node_entry a l' ≡ find_node_entry a l
unfolding apply_segment apply_first apply_next find_node_entry delete_node
apply_segment-other l l' m r a d e =
    let c = max_number_segments in
    let off = λ (n : Node). is_of_other a m.source n d in
    let f : Node → Node = λ n. record n { is_in_use = false } in
    let new = find_in-add_other c a (opened m) l in
    let new' = find_in-add_other c a (extended m (opened m)) l in
    elim (Option-cases (find_in c m.source l)) [
      | inl x ↦ ground (
        arith,
        new d,
        new' d,
        find_in-update_in-other c a m.source f (add_segment_node (opened m) l) off (λ n h. refl),
      )
      | inr (n, x) ↦ ground (arith, find_in-update_in-other c a m.source (extended m) l off off)
    ]

-- A first segment, a next one, and one that came before.
pub free_in-has_free : (c : ℕ) (l : List Node) → free_in c l ≡ true → has_free l ≡ true
unfolding has_free
free_in-has_free zero l h = ground arith
free_in-has_free (suc c) [] h = ground arith
free_in-has_free (suc c) (n ∷ l) h = ground (arith, free_in-has_free c l)

pub apply_segment_first :
    (l : List Node) (m : Segment)
    → find_node_entry m.source l ≡ none
    → has_free l ≡ true
    → 0 < m.total_segments
    → m.total_segments ≤ max_number_segments
    → m.sequence_number ≡ 0
    → apply_segment l m ≡ (
        if ltb (length m.text) capacity
        then some (add_segment_node (extended m (opened m)) l, true)
        else none)
unfolding apply_segment apply_first find_node_entry is_segmented_xteds
apply_segment_first l m e f p q h = ground arith

next_in_order :
    (k : ℕ) (n : Node)
    → ((i : ℕ) → n.segments_received i ≡ ltb i k)
    → (already_received k n ≡ false) × (sent_in_order k n ≡ true)
unfolding sent_in_order already_received
next_in_order k n h = (ground (arith, h k), in_order_lem segments_size k n h)

apply_segment_in_order :
    (l : List Node) (m : Segment) (n : Node)
    → find_node_entry m.source l ≡ some n
    → m.sequence_number < m.total_segments
    → m.total_segments ≤ max_number_segments
    → already_received m.sequence_number n ≡ false
    → sent_in_order m.sequence_number n ≡ true
    → apply_segment l m ≡ (
        if ltb (length (n.xteds_buffer ++ m.text)) capacity
        then some (update_in max_number_segments m.source (extended m) l, true)
        else none)
unfolding apply_segment apply_next is_segmented_xteds
apply_segment_in_order l m n e p q x y = ground arith

pub apply_segment_next :
    (l : List Node) (m : Segment) (n : Node)
    → find_node_entry m.source l ≡ some n
    → m.sequence_number < m.total_segments
    → m.total_segments ≤ max_number_segments
    → ((i : ℕ) → n.segments_received i ≡ ltb i m.sequence_number)
    → apply_segment l m ≡ (
        if ltb (length (n.xteds_buffer ++ m.text)) capacity
        then some (update_in max_number_segments m.source (extended m) l, true)
        else none)
apply_segment_next l m n e p q h =
    let (x, y) = next_in_order m.sequence_number n h in apply_segment_in_order l m n e p q x y

pub apply_segment_again :
    (l : List Node) (m : Segment) (n : Node)
    → find_node_entry m.source l ≡ some n
    → m.sequence_number < m.total_segments
    → m.total_segments ≤ max_number_segments
    → n.segments_received m.sequence_number ≡ true
    → apply_segment l m ≡ some (l, true)
unfolding apply_segment apply_next find_node_entry is_segmented_xteds already_received
apply_segment_again l m n e p q h = ground arith

pub ltb_lt : (j k : ℕ) → ltb j k ≡ true → j < k
ltb_lt j k h = ground arith

in_order_gap :
    (c j k : ℕ) (n : Node)
    → ((i : ℕ) → n.segments_received i ≡ ltb i k)
    → k < j
    → k < c
    → in_order c j n ≡ false
unfolding in_order
in_order_gap zero j k n h p q = ground arith
in_order_gap (suc i) j k n h p q = elim (Bool-cases (ltb k i)) [
  | inl e ↦ ground (arith, in_order_gap i j k n h p (ltb_lt k i e))
  | inr e ↦ ground (arith, h i)
]

apply_segment_gap :
    (l : List Node) (m : Segment) (n : Node)
    → find_node_entry m.source l ≡ some n
    → m.sequence_number < m.total_segments
    → m.total_segments ≤ max_number_segments
    → already_received m.sequence_number n ≡ false
    → sent_in_order m.sequence_number n ≡ false
    → apply_segment l m ≡ some (l, false)
unfolding apply_segment apply_next is_segmented_xteds
apply_segment_gap l m n e p q x y = ground arith

pub apply_segment_early :
    (l : List Node) (m : Segment) (n : Node) (k : ℕ)
    → find_node_entry m.source l ≡ some n
    → m.sequence_number < m.total_segments
    → m.total_segments ≤ max_number_segments
    → ((i : ℕ) → n.segments_received i ≡ ltb i k)
    → k < m.sequence_number
    → apply_segment l m ≡ some (l, false)
unfolding sent_in_order already_received
apply_segment_early l m n k e p q h r =
    apply_segment_gap l m n e p q (ground (arith, h m.sequence_number))
      (in_order_gap segments_size m.sequence_number k n h r (omega arith))
