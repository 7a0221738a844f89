-- ===== src/Dm/BackupDmList/Laws.antt =====
-- The search with a cached node is the linear search, and the list holds each manager once.
use vn_sdm.Common.{
  ℕ, zero, suc, ◌+◌, ◌≡◌, refl, arith, if◌then◌else◌, Bool, true, false, not, ◌||◌, List, [], ◌∷◌,
  Option, none, some, inl, inr, Option-cases, get_elem?,
}
use vn_sdm.ComponentId
use vn_sdm.ComponentId.{ComponentId}
use vn_sdm.Dm.BackupDmList.{
  DmBackupList, append_node, search_from, find, list_contains, add_if_new, Added, returned, ran_off,
  send_message_to_all, send_message_to,
}

abbrev pub member : ComponentId → List ComponentId → Bool
member id [] = false
member id (x ∷ l) = ComponentId.equal x id || member id l

-- No manager stands in the list twice.
abbrev pub Once : List ComponentId → Type 0
Once [] = Unit {0}
Once (x ∷ l) = (member x l ≡ false) × Once l

abbrev pub is_some {ℓ} : {A : Type ℓ} → Option A → Bool
is_some none = false
is_some (some a) = true

search-member :
    (i : ℕ) (l : List ComponentId) (id : ComponentId) → is_some (search_from i l id) ≡ member id l
unfolding search_from
search-member i [] id = refl
search-member i (x ∷ l) id = ground (arith, search-member (i + 1) l id)

get_elem?-member :
    (i : ℕ) (l : List ComponentId) (id x : ComponentId)
    → get_elem? l i ≡ some x
    → ComponentId.equal x id ≡ true
    → member id l ≡ true
get_elem?-member i [] id x h e = ground arith
get_elem?-member zero (y ∷ l) id x h e = ground arith
get_elem?-member (suc i) (y ∷ l) id x h e = ground (arith, get_elem?-member i l id x h e)

member-append_node :
    (id new : ComponentId) (l : List ComponentId)
    → member id (append_node l new) ≡ (member id l || ComponentId.equal new id)
unfolding append_node
member-append_node id new [] = ground arith
member-append_node id new (x ∷ l) = ground (arith, member-append_node id new l)

equal_comm : (a b : ComponentId) → ComponentId.equal a b ≡ ComponentId.equal b a
unfolding ComponentId.equal
equal_comm a b = ground arith

equal_refl : (a : ComponentId) → ComponentId.equal a a ≡ true
unfolding ComponentId.equal
equal_refl a = ground arith

member_congr :
    (new id : ComponentId) (l : List ComponentId)
    → member new l ≡ true
    → ComponentId.equal new id ≡ true
    → member id l ≡ true
unfolding ComponentId.equal
member_congr new id [] h e = ground arith
member_congr new id (x ∷ l) h e = ground (arith, member_congr new id l)

append_node-Once :
    (new : ComponentId) (l : List ComponentId)
    → member new l ≡ false
    → Once l
    → Once (append_node l new)
unfolding append_node
append_node-Once new [] h o = (refl, tt)
append_node-Once new (x ∷ l) h o =
    ground (arith, member-append_node x new l, equal_comm x new, append_node-Once new l)

found-member : (l : DmBackupList) (id : ComponentId) → is_some (find l id).1 ≡ member id l.nodes
unfolding find
found-member l id = elim (Option-cases l.last_access) [
  | inl e ↦ ground (arith, search-member 0 l.nodes id)
  | inr (i, e) ↦ elim (Option-cases (get_elem? l.nodes i)) [
    | inl e' ↦ ground (arith, search-member 0 l.nodes id)
    | inr (x, e') ↦ ground (arith, search-member 0 l.nodes id, get_elem?-member i l.nodes id x e')
  ]
]

nodes-find : (l : DmBackupList) (id : ComponentId) → (find l id).0.nodes ≡ l.nodes
unfolding find
nodes-find l id = ground arith

list_contains_lem :
    (l : DmBackupList) (id : ComponentId)
    → ((list_contains l id).1 ≡ member id l.nodes) × ((list_contains l id).0.nodes ≡ l.nodes)
unfolding list_contains
list_contains_lem l id = ground (arith, found-member l id, nodes-find l id)

find_lem :
    (l : DmBackupList) (id : ComponentId)
    → let (l', found) = find l id in
      (is_some found ≡ member id l.nodes)
      × (l'.nodes ≡ l.nodes)
      × ((send_message_to l id).1 ≡ (if member id l.nodes then some id else none))
unfolding send_message_to
find_lem l id = ground (arith, found-member l id, nodes-find l id)

-- The list when `AddIfNew` returns, or when `AddNode` runs off its end.
abbrev pub left_by : Added → DmBackupList
left_by (returned l b) = l
left_by (ran_off l) = l

abbrev pub runs_off : Added → Bool
runs_off (returned l b) = false
runs_off (ran_off l) = true

added_lem :
    (l : DmBackupList) (new id : ComponentId)
    → Once l.nodes
    → let l' = left_by (add_if_new l new) in
      (runs_off (add_if_new l new) ≡ not (member new l.nodes))
      × (send_message_to_all l' ≡ (if member new l.nodes then l.nodes else append_node l.nodes new))
      × (member id l'.nodes ≡ (member id l.nodes || ComponentId.equal new id))
      × Once l'.nodes
unfolding add_if_new send_message_to_all
added_lem l new id o = ground (
  arith,
  list_contains_lem l new,
  member-append_node id new l.nodes,
  append_node-Once new l.nodes,
  member_congr new id l.nodes,
)

-- A manager is put at the end exactly when it is not known, and exactly then the code runs off the end of
-- `AddNode`, behind which C++ defines nothing. In the list at that point, or when `AddIfNew` returns, it
-- is known, the others are known as before, and none stands twice, so that a message to all reaches each
-- once. And whatever node is cached, a search finds a node exactly for the members of the list, and does
-- not change the list; so a message to one manager is sent exactly if the manager is listed.
pub add_if_new_lem :
    (l : DmBackupList) (new id : ComponentId)
    → Once l.nodes
    → let l' = left_by (add_if_new l new) in
      let (l'', found) = find l id in
      ((runs_off (add_if_new l new) ≡ not (member new l.nodes))
        × (send_message_to_all l'
            ≡ (if member new l.nodes then l.nodes else append_node l.nodes new))
        × (member id l'.nodes ≡ (member id l.nodes || ComponentId.equal new id))
        × Once l'.nodes)
      × (is_some found ≡ member id l.nodes)
      × (l''.nodes ≡ l.nodes)
      × ((send_message_to l id).1 ≡ (if member id l.nodes then some id else none))
add_if_new_lem l new id o = let (a, b, c) = find_lem l id in (added_lem l new id o, a, b, c)
