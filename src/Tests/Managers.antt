-- ===== src/Tests/Managers.antt =====
-- Runs of dm.
use vn_sdm.Common.{ℕ, ◌+◌, ◌≡◌, refl, not, if◌then◌else◌, ◌&&◌, ◌||◌, List, [], ◌∷◌, none, some}
use vn_sdm.ComponentId
use vn_sdm.ComponentId.{ComponentId}
use vn_sdm.MessageId
use vn_sdm.MessageId.{MessageId}
use vn_sdm.Dm.ProviderSubscriptionList.{
  ProviderSubscription, add, delete, same_host, subscriber_finish, provider_finish,
}
use vn_sdm.Dm.ProviderSubscriptionList.Laws.{
  occurs, cancelled, equal_entry, subscriber_finish_lem, add_delete_lem,
}
use vn_sdm.Dm.BackupDmList.{
  DmBackupList, find, add_if_new, ran_off, send_message_to, send_message_to_all, append_node,
  list_contains, search_from, add_node,
}
use vn_sdm.Dm.BackupDmList.Laws.{member, Once, is_some, left_by, runs_off, add_if_new_lem}

abbrev host : ℕ → ComponentId
host port = record { sensor_id = 0; address = 0x0a00_0001; port = port }

abbrev message : MessageId
message = record { interface = 1; message = 2 }

abbrev entry : ℕ → ℕ → ProviderSubscription
entry p s = record { provider = host p; subscriber = host s; message = message }

abbrev entries : List ProviderSubscription
entries = entry 1 2 ∷ entry 3 4 ∷ entry 1 4 ∷ []

subscriber_finish_lem_example :
    let (kept, sent) = subscriber_finish entries (host 4) in
    (occurs (entry 1 4) kept
      ≡ (if same_host (host 4) (host 4) then 0 else occurs (entry 1 4) entries))
    × (cancelled (entry 1 4) sent
        ≡ (if same_host (host 4) (host 4) then occurs (entry 1 4) entries else 0))
subscriber_finish_lem_example = subscriber_finish_lem entries (host 4) (entry 1 4)

add_delete_lem_example :
    (occurs (entry 1 4) (add entries (host 1) (host 4) message) ≡ (
      if equal_entry (entry 1 4) (entry 1 4)
      then occurs (entry 1 4) entries + 1
      else occurs (entry 1 4) entries))
    × (occurs (entry 1 4) (delete entries (host 4) message) ≡ (
        if ComponentId.equal (host 4) (host 4) && MessageId.equal message message
        then 0
        else occurs (entry 1 4) entries))
    × (occurs (entry 1 4) (provider_finish entries (host 1))
        ≡ (if ComponentId.equal (host 1) (host 1) then 0 else occurs (entry 1 4) entries))
add_delete_lem_example = add_delete_lem entries (host 1) (host 4) message (entry 1 4)

-- Two backups, of which the second was used last.
abbrev backups : DmBackupList
backups = record { nodes = host 1 ∷ host 2 ∷ []; last_access = some 1 }

backups-Once : Once backups.nodes
unfolding ComponentId.equal
backups-Once = (refl, (refl, tt))

add_if_new_lem_example :
    let l' = left_by (add_if_new backups (host 3)) in
    let (l'', found) = find backups (host 1) in
    ((runs_off (add_if_new backups (host 3)) ≡ not (member (host 3) backups.nodes))
      × (send_message_to_all l' ≡ (
          if member (host 3) backups.nodes
          then backups.nodes
          else append_node backups.nodes (host 3)))
      × (member (host 1) l'.nodes
          ≡ (member (host 1) backups.nodes || ComponentId.equal (host 3) (host 1)))
      × Once l'.nodes)
    × (is_some found ≡ member (host 1) backups.nodes)
    × (l''.nodes ≡ backups.nodes)
    × ((send_message_to backups (host 1)).1
        ≡ (if member (host 1) backups.nodes then some (host 1) else none))
add_if_new_lem_example = add_if_new_lem backups (host 3) (host 1) backups-Once

third_added :
    add_if_new backups (host 3)
    ≡ ran_off (record { nodes = host 1 ∷ host 2 ∷ host 3 ∷ []; last_access = some 2 })
unfolding add_if_new list_contains find search_from add_node append_node ComponentId.equal
third_added = refl
