-- ===== src/Dm/SegmentBuilder/Nodes.antt =====
-- Which node the segment builder finds after a change of the nodes.
use vn_sdm.Common.{
  ℕ, zero, suc, ◌≡◌, refl, arith, Bool, true, false, not, ◌||◌, List, [], ◌∷◌, none, some,
  Bool-cases, inl, inr,
}
use vn_sdm.ComponentId
use vn_sdm.ComponentId.{ComponentId}
use vn_sdm.Dm.SegmentBuilder.{Node, is_of, find_in, update_in, add_segment_node}

pub equal_refl : (a : ComponentId) → ComponentId.equal a a ≡ true
unfolding ComponentId.equal
equal_refl a = ground arith

-- No node of a provider is one of another provider.
pub is_of_other :
    (a b : ComponentId) (n : Node)
    → ComponentId.equal b a ≡ false
    → is_of b n ≡ true
    → is_of a n ≡ false
unfolding ComponentId.equal
is_of_other a b n e h = ground arith

-- Whether one of the first nodes is free.
abbrev pub free_in : ℕ → List Node → Bool
free_in zero l = false
free_in (suc count) [] = false
free_in (suc count) (n ∷ l) = not n.is_in_use || free_in count l

pub find_in-update_in-other :
    (count : ℕ) (a b : ComponentId) (f : Node → Node) (l : List Node)
    → ((n : Node) → is_of b n ≡ true → is_of a n ≡ false)
    → ((n : Node) → is_of b n ≡ true → is_of a (f n) ≡ false)
    → find_in count a (update_in count b f l) ≡ find_in count a l
unfolding find_in update_in
find_in-update_in-other zero a b f l h h' = refl
find_in-update_in-other (suc count) a b f [] h h' = refl
find_in-update_in-other (suc count) a b f (n ∷ l) h h' = elim (Bool-cases (is_of b n)) [
  | inl e ↦ ground (arith, h n, h' n, find_in-update_in-other count a b f l h h')
  | inr e ↦ ground (arith, h n, h' n, find_in-update_in-other count a b f l h h')
]

pub find_in-update_in :
    (count : ℕ) (a : ComponentId) (f : Node → Node) (l : List Node) (n : Node)
    → ((x : Node) → is_of a x ≡ true → is_of a (f x) ≡ true)
    → find_in count a l ≡ some n
    → find_in count a (update_in count a f l) ≡ some (f n)
unfolding find_in update_in
find_in-update_in zero a f l n h e = ground arith
find_in-update_in (suc count) a f [] n h e = ground arith
find_in-update_in (suc count) a f (x ∷ l) n h e =
    ground (arith, h x, find_in-update_in count a f l n h)

pub update_in-none :
    (count : ℕ) (a : ComponentId) (f : Node → Node) (l : List Node)
    → find_in count a l ≡ none
    → update_in count a f l ≡ l
unfolding find_in update_in
update_in-none zero a f l e = refl
update_in-none (suc count) a f [] e = refl
update_in-none (suc count) a f (x ∷ l) e = ground (arith, update_in-none count a f l)

pub find_in-add_other :
    (count : ℕ) (a : ComponentId) (new : Node) (l : List Node)
    → is_of a new ≡ false
    → find_in count a (add_segment_node new l) ≡ find_in count a l
unfolding find_in add_segment_node
find_in-add_other zero a new l h = refl
find_in-add_other (suc count) a new [] h = refl
find_in-add_other (suc count) a new (x ∷ l) h = ground (arith, find_in-add_other count a new l h)

pub find_in-add :
    (count : ℕ) (a : ComponentId) (new : Node) (l : List Node)
    → is_of a new ≡ true
    → free_in count l ≡ true
    → find_in count a l ≡ none
    → find_in count a (add_segment_node new l) ≡ some new
unfolding find_in add_segment_node
find_in-add zero a new l h f e = ground arith
find_in-add (suc count) a new [] h f e = ground arith
find_in-add (suc count) a new (x ∷ l) h f e = ground (arith, find_in-add count a new l h)

pub find_in-add_full :
    (count : ℕ) (a : ComponentId) (new : Node) (l : List Node)
    → free_in count l ≡ false
    → find_in count a (add_segment_node new l) ≡ find_in count a l
unfolding find_in add_segment_node
find_in-add_full zero a new l f = refl
find_in-add_full (suc count) a new [] f = refl
find_in-add_full (suc count) a new (x ∷ l) f = ground (arith, find_in-add_full count a new l)
