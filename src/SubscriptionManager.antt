-- ===== src/SubscriptionManager.antt =====
-- common/SubscriptionManager/SubscriptionManager.{h,cpp}: what a provider knows of its subscribers,
-- and the publication of a message to them. The linked list `sub_list` is a list, its head first.
--
-- A successful send to a service request deletes the list node that the loop of `Publish` then
-- reads (`prev=cur, cur=cur->next`). C++ gives that no meaning, and the model stops with `undefined`.
pub mod Unique
pub mod Publish
pub mod Copy
use vn_sdm.Common.{ℕ, suc, ◌+◌, ◌==◌, if◌then◌else◌, Bool, true, false, ◌&&◌, ◌||◌, List, [], ◌∷◌}
use vn_sdm.Wire.{Buffer, memcpy}
use vn_sdm.ComponentId.{ComponentId, component_id_invalid}
use vn_sdm.MessageId
use vn_sdm.MessageId.{MessageId, message_id_zero}
use vn_sdm.Message.SdmSubreqst.{SdmSubreqst}
use vn_sdm.Message.SdmSerreqst.{SdmSerreqst}
use vn_sdm.Message.SdmDeletesub.{SdmDeletesub}
use vn_sdm.Message.SdmData
use vn_sdm.Message.SdmData.{SdmData}

-- struct sub, without its link
pub record Subscription : Type 0 where
  pub component_id : ComponentId
  pub msg_id : MessageId
  pub fault_id : MessageId
  pub is_serreqst : Bool

-- class SubscriptionManager
pub record SubscriptionManager : Type 0 where
  pub my_component_id : ComponentId
  pub sub_list : List Subscription
  pub dat : SdmData

-- The constructor, in the process `pid` of the SDM.
unfoldable pub create : ℕ → SubscriptionManager
create pid = record {
  my_component_id = component_id_invalid;
  sub_list = [];
  dat = SdmData.create pid;
}

-- The three conditions by which every loop finds a subscription: message, address and port.
unfoldable pub matches : MessageId → ComponentId → Subscription → Bool
matches id dest cur =
    MessageId.equal cur.msg_id id
    && (cur.component_id.address == dest.address && cur.component_id.port == dest.port)

-- The search for a duplicate.
unfoldable pub contains : MessageId → ComponentId → List Subscription → Bool
contains id dest [] = false
contains id dest (cur ∷ rest) = matches id dest cur || contains id dest rest

-- `AddSubscription(SDMSubreqst&)`
unfoldable pub add_subreqst : SubscriptionManager → SdmSubreqst → SubscriptionManager × Bool
add_subreqst m r =
    if contains r.msg_id r.destination m.sub_list
    then (m, false)
    else (record m { my_component_id = r.source; sub_list = new_sub ∷ m.sub_list }, true)
  where
    new_sub : Subscription
    new_sub = record {
      component_id = r.destination;
      msg_id = r.msg_id;
      fault_id = r.fault_id;
      is_serreqst = false;
    }

-- `AddSubscription(SDMSerreqst&)`
unfoldable pub add_serreqst : SubscriptionManager → SdmSerreqst → SubscriptionManager × Bool
add_serreqst m r =
    if contains r.reply_id r.destination m.sub_list
    then (m, false)
    else (record m { my_component_id = r.source; sub_list = new_sub ∷ m.sub_list }, true)
  where
    new_sub : Subscription
    new_sub = record {
      component_id = r.destination;
      msg_id = r.reply_id;
      fault_id = r.fault_id;
      is_serreqst = true;
    }

-- The loop of `RemoveSubscription`: the first match is unlinked.
unfoldable pub unlink : MessageId → ComponentId → List Subscription → List Subscription × Bool
unlink id dest [] = ([], false)
unlink id dest (cur ∷ rest) =
    let (rest', found) = unlink id dest rest in
    if matches id dest cur then (rest, true) else (cur ∷ rest', found)

-- `RemoveSubscription`
unfoldable pub remove_subscription : SubscriptionManager → SdmDeletesub → SubscriptionManager × Bool
remove_subscription m d =
    let (l, found) = unlink d.msg_id d.destination m.sub_list in (record m { sub_list = l }, found)

-- `SubscriptionCount`, from the count so far
unfoldable pub count_from : ℕ → List Subscription → ℕ
count_from count [] = count
count_from count (cur ∷ rest) = count_from (count + 1) rest

unfoldable pub subscription_count : SubscriptionManager → ℕ
unfolding count_from
subscription_count m = count_from 0 m.sub_list

-- `ClearAllSubscriptions`
unfoldable pub clear_all : SubscriptionManager → SubscriptionManager × Bool
clear_all m = elim m.sub_list [ [] ↦ (m, false) | cur ∷ rest ↦ (record m { sub_list = [] }, true) ]

-- `deep_subcopy`: the new node's `fault_id` is assigned to itself.
unfoldable pub deep_subcopy : List Subscription → List Subscription
deep_subcopy [] = []
deep_subcopy (p ∷ rest) =
    record {
      component_id = p.component_id;
      msg_id = p.msg_id;
      fault_id = message_id_zero;
      is_serreqst = p.is_serreqst;
    }
    ∷ deep_subcopy rest

-- The copy constructor, in the process `pid`.
unfoldable pub copy : ℕ → SubscriptionManager → SubscriptionManager
unfolding deep_subcopy
copy pid a = record {
  my_component_id = a.my_component_id;
  sub_list = deep_subcopy a.sub_list;
  dat = SdmData.create pid;
}

-- `operator=`, on an object other than the right side.
unfoldable pub assign : SubscriptionManager → SubscriptionManager → SubscriptionManager
unfolding deep_subcopy
assign m a = record m { my_component_id = a.my_component_id; sub_list = deep_subcopy a.sub_list }

-- What a publication has done: the datagrams handed to the network, in order, with whether one of
-- them was sent; or nothing that C++ defines.
pub data Outcome : Type 0 where
  published : List ComponentId → Bool → Outcome
  undefined : Outcome

-- `(cur->msg_id == id) || (cur->fault_id == id)`
unfoldable pub wants : MessageId → Subscription → Bool
wants id cur = MessageId.equal cur.msg_id id || MessageId.equal cur.fault_id id

-- The step of the loop for a subscription, before what follows it.
abbrev pub sent_to : ComponentId → Bool → Outcome → Outcome
sent_to dest ok (published l b) = published (dest ∷ l) (ok || b)
sent_to dest ok undefined = undefined

-- Sending is not part of the code: `send k dest` says whether the k-th `dat.Send` of the publication
-- returns something else than -1.
module _ (send : ℕ → ComponentId → Bool) where
  -- The loop of `Publish`, `k` sends made so far.
  unfoldable pub publish_loop : MessageId → ℕ → List Subscription → Outcome
  publish_loop id k [] = published [] false
  publish_loop id k (cur ∷ rest) =
      let skipped = publish_loop id k rest in
      let next = publish_loop id (k + 1) rest in
      let ok = send k cur.component_id in
      if wants id cur
      then if ok && cur.is_serreqst then undefined else sent_to cur.component_id ok next
      else skipped

  -- `Publish(SDMMessage_ID, char*, long)`: the message is set up, whatever is sent. A publication that
  -- sends sets the length too (`SDMData::Send`).
  unfoldable pub publish :
      SubscriptionManager → MessageId → Buffer → ℕ → SubscriptionManager × Outcome
  unfolding publish_loop memcpy
  publish m id payload size =
      let out = publish_loop id 0 m.sub_list in (record m { dat = sized out }, out)
    where
      dat' : SdmData
      dat' = record (m.dat) {
        source = m.my_component_id;
        msg_id = id;
        msg = memcpy m.dat.msg 0 payload 0 size;
      }

      sized : Outcome → SdmData
      sized (published (d ∷ l) b) = record dat' { length = size }
      sized (published [] b) = dat'
      sized undefined = record dat' { length = size }

  -- `Publish(unsigned char, unsigned char, char*, long)`
  unfoldable pub publish_numbers :
      SubscriptionManager → ℕ → ℕ → Buffer → ℕ → SubscriptionManager × Outcome
  unfolding MessageId.create publish
  publish_numbers m interface_id message_id payload size =
      publish m (MessageId.create interface_id message_id) payload size
