-- ===== src/Dm/SegmentBuilder.antt =====
-- dm/xTEDSSegmentBuilder.{h,cpp}: an xTEDS that a provider sends in several messages is put together. A
-- text is its bytes before the terminator; `none` is a write that leaves no room for the terminator in
-- the buffer of a node.
pub mod Nodes
pub mod Branches
pub mod Held
pub mod View
pub mod Lost
use vn_sdm.Common.{
  ℕ, zero, suc, ◌+◌, ◌*◌, leb, ltb, ◌==◌, if◌then◌else◌, Bool, true, false, not, ◌&&◌, ◌||◌, List,
  [], ◌∷◌, ◌++◌, length, Option, none, some,
}
use vn_sdm.ComponentId
use vn_sdm.ComponentId.{ComponentId, component_id_invalid}

-- MAX_NUMBER_SEGMENTS, SEGMENT_MAX_XTEDS_SIZE, MAX_SEGMENT_NODES and MAX_XTEDS_SEQUENCE_VALUE
abbrev pub max_number_segments : ℕ
max_number_segments = 4

abbrev pub segment_max_xteds_size : ℕ
segment_max_xteds_size = 8070

abbrev pub max_segment_nodes : ℕ
max_segment_nodes = 5

abbrev pub max_xteds_sequence_value : ℕ
max_xteds_sequence_value = 15

-- The size of `xTEDSBuffer` and that of `SegmentsReceived`.
abbrev pub capacity : ℕ
capacity = max_number_segments * segment_max_xteds_size

abbrev pub segments_size : ℕ
segments_size = 16

-- What is read of an SDMxTEDS message: its source, the two bytes that begin its xTEDS, and the text behind
-- them.
pub record Segment : Type 0 where
  pub source : ComponentId
  pub sequence_number : ℕ
  pub total_segments : ℕ
  pub text : List ℕ

-- struct xTEDSSegmentNode. `SegmentsReceived` is a function of the sequence number.
pub record Node : Type 0 where
  pub is_in_use : Bool
  pub xteds_buffer : List ℕ
  pub num_segments : ℕ
  pub segments_received : ℕ → Bool
  pub xteds_id : ComponentId

-- `IsSegmentedxTEDS`
unfoldable pub is_segmented_xteds : Segment → Bool
is_segmented_xteds m =
    leb m.sequence_number max_xteds_sequence_value
    && (leb m.total_segments max_xteds_sequence_value && ltb 0 m.total_segments)

-- The node of a provider that is in use.
abbrev pub is_of : ComponentId → Node → Bool
is_of a n = n.is_in_use && ComponentId.equal n.xteds_id a

-- The loop of `FindNodeEntry`, over `count` nodes.
unfoldable pub find_in : ℕ → ComponentId → List Node → Option Node
find_in zero a l = none
find_in (suc count) a [] = none
find_in (suc count) a (n ∷ l) = let rest = find_in count a l in if is_of a n then some n else rest

-- `FindNodeEntry` looks at MAX_NUMBER_SEGMENTS nodes.
unfoldable pub find_node_entry : ComponentId → List Node → Option Node
unfolding find_in
find_node_entry a l = find_in max_number_segments a l

-- A change of the node that the loop finds.
unfoldable pub update_in : ℕ → ComponentId → (Node → Node) → List Node → List Node
update_in zero a f l = l
update_in (suc count) a f [] = []
update_in (suc count) a f (n ∷ l) =
    let rest = update_in count a f l in if is_of a n then f n ∷ l else n ∷ rest

-- `DeleteNode`
unfoldable pub delete_node : ComponentId → List Node → List Node
unfolding update_in
delete_node a l = update_in max_number_segments a (λ n. record n { is_in_use = false }) l

-- `AddSegmentNode`: whether a node is free, and the first free node replaced.
unfoldable pub has_free : List Node → Bool
has_free [] = false
has_free (n ∷ l) = not n.is_in_use || has_free l

unfoldable pub add_segment_node : Node → List Node → List Node
add_segment_node new [] = []
add_segment_node new (n ∷ l) = if n.is_in_use then n ∷ add_segment_node new l else new ∷ l

-- `SentInOrder`, over `count` elements of `SegmentsReceived`
unfoldable pub in_order : ℕ → ℕ → Node → Bool
in_order zero seq n = true
in_order (suc i) seq n =
    not (ltb i seq && not (n.segments_received i))
    && (not (leb seq i && n.segments_received i) && in_order i seq n)

unfoldable pub sent_in_order : ℕ → Node → Bool
unfolding in_order
sent_in_order seq n = in_order segments_size seq n

-- `AlreadyReceived`
unfoldable pub already_received : ℕ → Node → Bool
already_received seq n = ltb seq segments_size && n.segments_received seq

-- A node that the message opens.
abbrev pub opened : Segment → Node
opened m = record {
  is_in_use = true;
  xteds_buffer = [];
  num_segments = m.total_segments;
  segments_received = λ i. false;
  xteds_id = m.source;
}

-- The segment behind the text that is there, and its mark.
abbrev pub extended : Segment → Node → Node
extended m n = record n {
  xteds_buffer = n.xteds_buffer ++ m.text;
  segments_received = λ i. i == m.sequence_number || n.segments_received i;
}

-- The result: the nodes, and what the method returns.
abbrev pub Applied : Type 0
Applied = Option (List Node × Bool)

-- `ApplySegment` of a provider without a node
unfoldable pub apply_first : List Node → Segment → Applied
unfolding add_segment_node delete_node
apply_first l m =
    if not (m.sequence_number == 0)
    then some (l, false)
    else if not (has_free l)
    then some (l, false)
    else if ltb capacity (m.total_segments * segment_max_xteds_size)
    then some (delete_node m.source (add_segment_node (opened m) l), false)
    else if ltb (length m.text) capacity
    then some (add_segment_node (extended m (opened m)) l, true)
    else none

-- `ApplySegment` of a provider with a node
unfoldable pub apply_next : List Node → Segment → Node → Applied
unfolding update_in
apply_next l m n =
    if already_received m.sequence_number n
    then some (l, true)
    else if not (sent_in_order m.sequence_number n)
    then some (l, false)
    else if ltb (length (n.xteds_buffer ++ m.text)) capacity
    then some (update_in max_number_segments m.source (extended m) l, true)
    else none

-- `ApplySegment`
unfoldable pub apply_segment : List Node → Segment → Applied
apply_segment l m =
    if not (is_segmented_xteds m)
    then some (l, false)
    else if ltb m.total_segments (m.sequence_number + 1)
    then some (l, false)
    else elim (find_node_entry m.source l) [ none ↦ apply_first l m | some n ↦ apply_next l m n ]

-- The loop of `CheckIsFinished`
unfoldable pub all_received : ℕ → Node → Bool
all_received zero n = true
all_received (suc i) n = n.segments_received i && all_received i n

-- `CheckIsFinished`
unfoldable pub check_is_finished : List Node → ComponentId → Bool
unfolding all_received
check_is_finished l a = elim (find_node_entry a l) [
  | none ↦ false
  | some n ↦ all_received n.num_segments n
]

-- `GetFullxTEDS`, with an output of `max_size` bytes that is not NULL: the nodes, and the text. `none` is
-- a copy whose terminator is written past the output.
unfoldable pub get_full_xteds : List Node → ComponentId → ℕ → Option (List Node × Option (List ℕ))
unfolding check_is_finished delete_node
get_full_xteds l a max_size =
    if check_is_finished l a
    then elim (find_node_entry a l) [
      | none ↦ some (l, none)
      | some n ↦
          if ltb max_size (length n.xteds_buffer)
          then some (delete_node a l, none)
          else if ltb (length n.xteds_buffer) max_size
          then some (delete_node a l, some n.xteds_buffer)
          else none
    ]
    else some (l, none)
