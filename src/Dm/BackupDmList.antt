-- ===== src/Dm/BackupDmList.antt =====
-- dm/backupDMList.{h,cpp}: the known backup Data Managers. The linked list is a list, its head first;
-- the pointer `m_pLastAccess` is the index of the node that it points to.
pub mod Laws
use vn_sdm.Common.{
  ℕ, zero, suc, ◌+◌, if◌then◌else◌, Bool, true, false, List, [], ◌∷◌, ◌++◌, Option, none, some,
  get_elem?, length,
}
use vn_sdm.ComponentId
use vn_sdm.ComponentId.{ComponentId}

-- class DMBackupList
pub record DmBackupList : Type 0 where
  pub nodes : List ComponentId
  pub last_access : Option ℕ

-- The constructor.
abbrev pub create : DmBackupList
create = record { nodes = []; last_access = none }

-- The walk to the tail, and a link behind it.
unfoldable pub append_node : List ComponentId → ComponentId → List ComponentId
append_node [] id = id ∷ []
append_node (cur ∷ rest) id = cur ∷ append_node rest id

-- `AddNode`, where the memory suffices, up to its end: the new node is the last accessed one.
unfoldable pub add_node : DmBackupList → ComponentId → DmBackupList
unfolding append_node
add_node l id = record { nodes = append_node l.nodes id; last_access = some (length l.nodes) }

-- The linear search of `Find`, from the index `i` on.
unfoldable pub search_from : ℕ → List ComponentId → ComponentId → Option ℕ
search_from i [] id = none
search_from i (cur ∷ rest) id =
    let found = search_from (i + 1) rest id in if ComponentId.equal cur id then some i else found

-- `Find`: the last accessed node first, then all of them.
unfoldable pub find : DmBackupList → ComponentId → DmBackupList × Option ℕ
unfolding search_from
find l id =
    let linear : DmBackupList × Option ℕ = elim (search_from 0 l.nodes id) [
      | none ↦ (l, none)
      | some i ↦ (record l { last_access = some i }, some i)
    ] in
    elim l.last_access [
      | none ↦ linear
      | some i ↦ elim (get_elem? l.nodes i) [
        | none ↦ linear
        | some cur ↦ if ComponentId.equal cur id then (l, some i) else linear
      ]
    ]

-- `ListContains`
unfoldable pub list_contains : DmBackupList → ComponentId → DmBackupList × Bool
list_contains l id =
    let (l', cur) = find l id in elim cur [ none ↦ (l', false) | some i ↦ (l', true) ]

-- `AddNode` has no return statement where the memory suffices: C++ defines nothing from the end of its
-- body on. `ran_off` is the state at that point.
pub data Added : Type 0 where
  returned : DmBackupList → Bool → Added
  ran_off : DmBackupList → Added

-- `AddIfNew`
unfoldable pub add_if_new : DmBackupList → ComponentId → Added
unfolding add_node
add_if_new l id =
    let (l', known) = list_contains l id in
    if known then returned l' false else ran_off (add_node l' id)

-- `SendMessageToAll`: where the message is sent, in order.
unfoldable pub send_message_to_all : DmBackupList → List ComponentId
send_message_to_all l = l.nodes

-- `SendMessageTo`: where the message is sent, if the manager is known.
unfoldable pub send_message_to : DmBackupList → ComponentId → DmBackupList × Option ComponentId
send_message_to l id =
    let (l', cur) = find l id in elim cur [ none ↦ (l', none) | some i ↦ (l', some id) ]
