-- ===== src/Dm/SegmentBuilder/View.antt =====
-- What a provider sees of the segment builder, whatever other providers send.
use vn_sdm.Common.{
  ℕ, ◌+◌, ◌<◌, ◌≤◌, leb, ltb, if◌then◌else◌, ◌≡◌, refl, arith, Bool, true, false, List, ◌++◌,
  length, none, some,
}
use mathlib.Core.Path.{subst}
use vn_sdm.ComponentId
use vn_sdm.ComponentId.{ComponentId}
use vn_sdm.Dm.SegmentBuilder.{
  Segment, Node, Applied, capacity, max_number_segments, find_node_entry, update_in, extended,
  apply_segment, check_is_finished, delete_node, get_full_xteds,
}
use vn_sdm.Dm.SegmentBuilder.Nodes.{free_in}
use vn_sdm.Dm.SegmentBuilder.Branches.{
  apply_segment-other, free_in-has_free, apply_segment_first, apply_segment_next,
}
use vn_sdm.Dm.SegmentBuilder.Held.{
  part, Holds, Holds-other, first-Holds, next-Holds, again, Holds-finished, Holds-full, applied,
}

-- The nodes after the first `k` segments of a provider, whose texts make up `text`: its segments come in
-- order, and between them what other providers send, and segments that came before.
pub data Received (a : ComponentId) (total : ℕ) : ℕ → List ℕ → List Node → Type 0 where
  began :
      (l l' : List Node) (t : List ℕ) (r : Bool)
      → find_node_entry a l ≡ none
      → free_in max_number_segments l ≡ true
      → 0 < total
      → total ≤ max_number_segments
      → apply_segment l (part a total 0 t) ≡ some (l', r)
      → Received a total 1 t l'
  went_on :
      {k : ℕ} {text : List ℕ} {l : List Node}
      → Received a total k text l
      → (l' : List Node) (t : List ℕ) (r : Bool) → k < total
      → apply_segment l (part a total k t) ≡ some (l', r)
      → Received a total (k + 1) (text ++ t) l'
  repeated :
      {k : ℕ} {text : List ℕ} {l : List Node}
      → Received a total k text l
      → (l' : List Node) (j : ℕ) (t : List ℕ) (r : Bool) → j < k
      → apply_segment l (part a total j t) ≡ some (l', r)
      → Received a total k text l'
  other :
      {k : ℕ} {text : List ℕ} {l : List Node}
      → Received a total k text l
      → (l' : List Node) (m : Segment) (r : Bool) → ComponentId.equal m.source a ≡ false
      → apply_segment l m ≡ some (l', r)
      → Received a total k text l'

-- The nodes of an equation with a result.
kept_nodes :
    (c : Bool) (x l' : List Node) (r : Bool) (y : Applied)
    → y ≡ (if c then some (x, true) else none)
    → y ≡ some (l', r)
    → x ≡ l'
kept_nodes c x l' r y e e' = ground arith

Received-Holds :
    {a : ComponentId} {total k : ℕ} {text : List ℕ} {l : List Node}
    → Received a total k text l
    → Holds a total k text l
Received-Holds {a} {total} (began l l' t r e f p q g) =
    let m = part a total 0 t in
    subst (Holds a total 1 t)
      (kept_nodes _ _ l' r _
        (apply_segment_first l m e (free_in-has_free max_number_segments l f) p q refl) g)
      (first-Holds l m e f p q refl)
Received-Holds {a} {total} (went_on {k} {text} {l} h l' t r p g) =
    let m = part a total k t in
    let v = Received-Holds h in
    subst (Holds a total (k + 1) (text ++ t))
      (kept_nodes _ _ l' r _ (apply_segment_next l m v.node v.found p v.few v.marks) g)
      (next-Holds l m text v p)
Received-Holds {a} {total} (repeated {k} {text} {l} h l' j t r p g) =
    let v = Received-Holds h in
    subst (Holds a total k text) (kept_nodes true _ l' r _ (again v j t p) g) v
Received-Holds {a} {total} (other {k} {text} {l} h l' m r d g) =
    Holds-other a total k text l l' (apply_segment-other l l' m r a d g) (Received-Holds h)

-- At every such point: the xTEDS is finished exactly when all its segments came; then `GetFullxTEDS`
-- gives their texts in order and frees the node, if the output has room for the text and its
-- terminator; if the text alone is longer, it frees the node and gives nothing; and if the text fills
-- the output, the terminator is written behind it. Before that it gives and changes nothing. A segment
-- that came before is accepted, and one that comes too early is refused: both change nothing. The next
-- one is accepted as long as the text fits the buffer, and only the node of the provider changes. The
-- provider had no node before, one of the first four nodes was free, and it sends at most four segments.
-- A run ends where a message of any provider is written past the buffer of its node.
pub received_lem :
    {a : ComponentId} {total k : ℕ} {text : List ℕ} {l : List Node}
    → Received a total k text l
    → (max_size j : ℕ) (t : List ℕ) → j < total
    → let m = part a total j t in
      (check_is_finished l a ≡ leb total k)
      × (get_full_xteds l a max_size ≡ (
          if leb total k
          then if ltb max_size (length text)
            then some (delete_node a l, none)
            else if ltb (length text) max_size
            then some (delete_node a l, some text)
            else none
          else some (l, none)))
      × (apply_segment l m ≡ (
          if ltb j k
          then some (l, true)
          else if ltb k j
          then some (l, false)
          else if ltb (length (text ++ t)) capacity
          then some (update_in max_number_segments a (extended m) l, true)
          else none))
received_lem h max_size j t q =
    let v = Received-Holds h in
    let fin = Holds-finished v in (fin, Holds-full v max_size fin, applied v j t q)
