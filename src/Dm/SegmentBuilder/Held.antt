-- ===== src/Dm/SegmentBuilder/Held.antt =====
-- The node of a provider whose first segments came.
use vn_sdm.Common.{
  ℕ, ◌+◌, ◌<◌, ◌≤◌, leb, ltb, if◌then◌else◌, ◌≡◌, refl, ◌∙◌, ap, arith, true, false, List, ◌++◌,
  length, none, some, Bool-cases, inl, inr,
}
use vn_sdm.ComponentId.{ComponentId}
use vn_sdm.Dm.SegmentBuilder.{
  Segment, Node, capacity, max_number_segments, find_node_entry, update_in, add_segment_node,
  opened, extended, apply_segment, check_is_finished, delete_node, get_full_xteds,
}
use vn_sdm.Dm.SegmentBuilder.Nodes.{equal_refl, free_in, find_in-update_in, find_in-add}
use vn_sdm.Dm.SegmentBuilder.Branches.{
  apply_segment_next, apply_segment_again, apply_segment_early, ltb_lt, all_received_lem,
}

-- A segment of a provider.
abbrev pub part : ComponentId → ℕ → ℕ → List ℕ → Segment
part a total k t = record { source = a; sequence_number = k; total_segments = total; text = t }

-- The node of the provider.
pub record Holds (a : ComponentId) (total k : ℕ) (text : List ℕ) (l : List Node) : Type 0 where
  pub node : Node
  pub found : find_node_entry a l ≡ some node
  pub num_eq : node.num_segments ≡ total
  pub text_eq : node.xteds_buffer ≡ text
  pub marks : (i : ℕ) → node.segments_received i ≡ ltb i k
  pub first : 0 < k
  pub bound : k ≤ total
  pub few : total ≤ max_number_segments

pub Holds-other :
    (a : ComponentId) (total k : ℕ) (text : List ℕ) (l l' : List Node)
    → find_node_entry a l' ≡ find_node_entry a l
    → Holds a total k text l
    → Holds a total k text l'
Holds-other a total k text l l' e v = record {
  node = v.node;
  found = e ∙ v.found;
  num_eq = v.num_eq;
  text_eq = v.text_eq;
  marks = v.marks;
  first = v.first;
  bound = v.bound;
  few = v.few;
}

pub first-Holds :
    (l : List Node) (m : Segment)
    → find_node_entry m.source l ≡ none
    → free_in max_number_segments l ≡ true
    → 0 < m.total_segments
    → m.total_segments ≤ max_number_segments
    → m.sequence_number ≡ 0
    → Holds m.source m.total_segments 1 m.text (add_segment_node (extended m (opened m)) l)
unfolding find_node_entry
first-Holds l m e f p q z = record {
  node = extended m (opened m);
  found =
      find_in-add max_number_segments m.source (extended m (opened m)) l (equal_refl m.source) f e;
  num_eq = refl;
  text_eq = refl;
  marks = λ i. ground arith;
  first = omega arith;
  bound = omega arith;
  few = q;
}

pub next-Holds :
    (l : List Node) (m : Segment) (text : List ℕ)
    → Holds m.source m.total_segments m.sequence_number text l
    → m.sequence_number < m.total_segments
    → Holds m.source m.total_segments
        (m.sequence_number + 1)
        (text ++ m.text)
        (update_in max_number_segments m.source (extended m) l)
unfolding find_node_entry
next-Holds l m text v p = record {
  node = extended m v.node;
  found = find_in-update_in max_number_segments m.source (extended m) l v.node (λ x h. h) v.found;
  num_eq = v.num_eq;
  text_eq = ap (λ t. t ++ m.text) v.text_eq;
  marks = λ i. ground (arith, v.marks i);
  first = omega arith;
  bound = omega arith;
  few = v.few;
}

pub again :
    {a : ComponentId} {total k : ℕ} {text : List ℕ} {l : List Node}
    → Holds a total k text l
    → (j : ℕ) (t : List ℕ) → j < k
    → apply_segment l (part a total j t) ≡ some (l, true)
again v j t p =
    apply_segment_again _ (part _ _ j t) v.node v.found (omega (arith, v.bound)) v.few
      (ground (arith, v.marks j))

pub Holds-finished :
    {a : ComponentId} {total k : ℕ} {text : List ℕ} {l : List Node}
    → Holds a total k text l
    → check_is_finished l a ≡ leb total k
unfolding check_is_finished
Holds-finished {a} {total} {k} v =
    ground (arith, v.found, v.num_eq, all_received_lem total k v.node v.marks)

pub Holds-full :
    {a : ComponentId} {total k : ℕ} {text : List ℕ} {l : List Node}
    → Holds a total k text l
    → (max_size : ℕ) → check_is_finished l a ≡ leb total k
    → get_full_xteds l a max_size ≡ (
        if leb total k
        then if ltb max_size (length text)
          then some (delete_node a l, none)
          else if ltb (length text) max_size
          then some (delete_node a l, some text)
          else none
        else some (l, none))
unfolding get_full_xteds
Holds-full v max_size e = ground (arith, v.found, v.text_eq)

not_ltb_eq : (j k : ℕ) → ltb j k ≡ false → ltb k j ≡ false → k ≡ j
not_ltb_eq j k h h' = ground arith

pub applied :
    {a : ComponentId} {total k : ℕ} {text : List ℕ} {l : List Node}
    → Holds a total k text l
    → (j : ℕ) (t : List ℕ) → j < total
    → let m = part a total j t in
      apply_segment l m ≡ (
        if ltb j k
        then some (l, true)
        else if ltb k j
        then some (l, false)
        else if ltb (length (text ++ t)) capacity
        then some (update_in max_number_segments a (extended m) l, true)
        else none)
applied {a} {total} {k} {text} {l} v j t q = elim (Bool-cases (ltb j k)) [
  | inl h ↦ ground (arith, again v j t (ltb_lt j k h))
  | inr h ↦ elim (Bool-cases (ltb k j)) [
    | inl h' ↦
        let e =
          apply_segment_early l (part a total j t) v.node k v.found q v.few v.marks
            (ltb_lt k j h') in
        ground (arith, e)
    | inr h' ↦
        let e : (i : ℕ) → v.node.segments_received i ≡ ltb i j =
          λ i. v.marks i ∙ ap (ltb i) (not_ltb_eq j k h h') in
        let fits = apply_segment_next l (part a total j t) v.node v.found q v.few e in
        ground (arith, fits, ap (λ x. length (x ++ t)) v.text_eq)
  ]
]
