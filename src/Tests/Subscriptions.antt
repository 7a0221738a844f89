-- ===== src/Tests/Subscriptions.antt =====
-- Runs of common/SubscriptionManager.
use vn_sdm.Common.{
  ℕ, ◌+◌, ◌≡◌, refl, not, ◌==◌, if◌then◌else◌, Bool, true, false, ◌&&◌, ◌||◌, [], ◌∷◌,
}
use vn_sdm.Wire.{Buffer}
use vn_sdm.ComponentId.{ComponentId}
use vn_sdm.MessageId
use vn_sdm.MessageId.{MessageId, message_id_zero}
use vn_sdm.Message.SdmSubreqst
use vn_sdm.Message.SdmSubreqst.{SdmSubreqst}
use vn_sdm.Message.SdmSerreqst
use vn_sdm.Message.SdmSerreqst.{SdmSerreqst}
use vn_sdm.Message.SdmDeletesub
use vn_sdm.Message.SdmDeletesub.{SdmDeletesub}
use vn_sdm.Message.SdmData
use vn_sdm.SubscriptionManager.{
  Subscription, SubscriptionManager, published, undefined, matches, contains, add_subreqst,
  add_serreqst, remove_subscription, subscription_count, publish, publish_loop, wants, unlink, copy,
  deep_subcopy,
}
use vn_sdm.SubscriptionManager.Unique.{
  Unique, same_key, requested_subreqst, requested_serreqst, add_subreqst_lem, add_serreqst_lem,
  remove_subscription_lem,
}
use vn_sdm.SubscriptionManager.Publish.{wanting, expected, publish_lem}
use vn_sdm.SubscriptionManager.Copy.{by_message, copy_lem}

abbrev host : ℕ → ComponentId
host port = record { sensor_id = 0; address = 0x0a00_0001; port = port }

abbrev message : ℕ → MessageId
message n = record { interface = 1; message = n }

abbrev by_data : Subscription
by_data = record {
  component_id = host 3504;
  msg_id = message 2;
  fault_id = message 9;
  is_serreqst = false;
}

abbrev by_service : Subscription
by_service = record {
  component_id = host 3505;
  msg_id = message 2;
  fault_id = message_id_zero;
  is_serreqst = true;
}

abbrev manager : SubscriptionManager
manager = record {
  my_component_id = host 3500;
  sub_list = by_data ∷ by_service ∷ [];
  dat = SdmData.create 7;
}

manager-Unique : Unique manager.sub_list
unfolding contains matches MessageId.equal
manager-Unique = (refl, (refl, tt))

abbrev request : SdmSubreqst
request = record SdmSubreqst.create {
  source = host 3501;
  destination = host 3504;
  msg_id = message 3;
  fault_id = message 9;
}

add_subreqst_lem_example :
    let (m', added) = add_subreqst manager request in
    (added ≡ not (contains (message 3) (host 3504) manager.sub_list))
    × (subscription_count m'
        ≡ (if added then subscription_count manager + 1 else subscription_count manager))
    × (m'.sub_list
        ≡ (if added then requested_subreqst request ∷ manager.sub_list else manager.sub_list))
    × (m'.my_component_id ≡ (if added then host 3501 else host 3500))
    × (contains (message 2) (host 3504) m'.sub_list ≡ (
        same_key (message 3) (host 3504) (message 2) (host 3504)
        || contains (message 2) (host 3504) manager.sub_list))
    × Unique m'.sub_list
    × (m'.dat ≡ manager.dat)
add_subreqst_lem_example = add_subreqst_lem manager request (message 2) (host 3504) manager-Unique

-- The request is new: three subscriptions are counted, and a second time it is refused.
request_added : (add_subreqst manager request).1 ≡ true
unfolding add_subreqst contains matches MessageId.equal
request_added = refl

request_refused : (add_subreqst (add_subreqst manager request).0 request).1 ≡ false
unfolding add_subreqst contains matches MessageId.equal
request_refused = refl

abbrev service_request : SdmSerreqst
service_request = record SdmSerreqst.create {
  source = host 3501;
  destination = host 3506;
  reply_id = message 4;
}

add_serreqst_lem_example :
    let (m', added) = add_serreqst manager service_request in
    (added ≡ not (contains (message 4) (host 3506) manager.sub_list))
    × (subscription_count m'
        ≡ (if added then subscription_count manager + 1 else subscription_count manager))
    × (m'.sub_list ≡ (
        if added then requested_serreqst service_request ∷ manager.sub_list else manager.sub_list))
    × (m'.my_component_id ≡ (if added then host 3501 else host 3500))
    × (contains (message 4) (host 3506) m'.sub_list ≡ (
        same_key (message 4) (host 3506) (message 4) (host 3506)
        || contains (message 4) (host 3506) manager.sub_list))
    × Unique m'.sub_list
    × (m'.dat ≡ manager.dat)
add_serreqst_lem_example =
    add_serreqst_lem manager service_request (message 4) (host 3506) manager-Unique

abbrev deletion : SdmDeletesub
deletion = record SdmDeletesub.create { destination = host 3504; msg_id = message 2 }

remove_subscription_lem_example :
    let (m', found) = remove_subscription manager deletion in
    (found ≡ contains (message 2) (host 3504) manager.sub_list)
    × (subscription_count manager
        ≡ (if found then subscription_count m' + 1 else subscription_count m'))
    × (contains (message 2) (host 3505) m'.sub_list ≡ (
        not (same_key (message 2) (host 3504) (message 2) (host 3505))
        && contains (message 2) (host 3505) manager.sub_list))
    × Unique m'.sub_list
remove_subscription_lem_example =
    remove_subscription_lem manager deletion (message 2) (host 3505) manager-Unique

deletion_done : (remove_subscription manager deletion).1 ≡ true
unfolding remove_subscription unlink matches MessageId.equal
deletion_done = refl

-- A network on which only the host with port 3504 is reached.
abbrev one_reached : ℕ → ComponentId → Bool
one_reached k dest = dest.port == 3504

abbrev payload : Buffer
payload _ = 5

publish_lem_example :
    let (m', out) = publish one_reached manager (message 2) payload 4 in
    (out ≡ expected one_reached 0 (wanting (message 2) manager.sub_list))
    × (m'.sub_list ≡ manager.sub_list)
    × (m'.my_component_id ≡ manager.my_component_id)
publish_lem_example = publish_lem one_reached manager (message 2) payload 4

-- Two sends, of which the first succeeds.
publication :
    (publish one_reached manager (message 2) payload 4).1
    ≡ published (host 3504 ∷ host 3505 ∷ []) true
unfolding publish publish_loop wants MessageId.equal
publication = refl

-- A network on which every send succeeds: the service request is reached.
abbrev all_reached : ℕ → ComponentId → Bool
all_reached k dest = true

service_reached : (publish all_reached manager (message 2) payload 4).1 ≡ undefined
unfolding publish publish_loop wants MessageId.equal
service_reached = refl

copy_lem_example :
    (contains (message 9) (host 3504) (copy 8 manager).sub_list
      ≡ contains (message 9) (host 3504) manager.sub_list)
    × (wanting (message 9) (copy 8 manager).sub_list
        ≡ deep_subcopy (by_message (message 9) manager.sub_list))
    × ((copy 8 manager).my_component_id ≡ manager.my_component_id)
unfolding MessageId.equal
copy_lem_example = copy_lem 8 manager (message 9) (host 3504) refl
