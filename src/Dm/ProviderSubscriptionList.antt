-- ===== src/Dm/ProviderSubscriptionList.antt =====
-- dm/ProviderSubscriptionList.{h,cpp} and dm/ProviderSubscription.{h,cpp}: who is subscribed to what,
-- so that the Data Manager can cancel the subscriptions of a component that is gone. The linked list
-- is a list, its head first.
pub mod Laws
use vn_sdm.Common.{ℕ, ◌==◌, if◌then◌else◌, Bool, true, false, not, ◌&&◌, ◌||◌, List, [], ◌∷◌, ◌++◌}
use vn_sdm.ComponentId
use vn_sdm.ComponentId.{ComponentId}
use vn_sdm.MessageId
use vn_sdm.MessageId.{MessageId}
use vn_sdm.Message.SdmDeletesub
use vn_sdm.Message.SdmDeletesub.{SdmDeletesub}

-- class ProviderSubscription
pub record ProviderSubscription : Type 0 where
  pub provider : ComponentId
  pub subscriber : ComponentId
  pub message : MessageId

-- `Add(ProviderSubscriptionListNode*)`: the walk to the last node, and a link behind it.
unfoldable pub add_node :
    List ProviderSubscription → ProviderSubscription → List ProviderSubscription
add_node [] node = node ∷ []
add_node (cur ∷ rest) node = cur ∷ add_node rest node

-- `Add(ProviderId, SubscriberId, MessageId)`
unfoldable pub add :
    List ProviderSubscription → ComponentId → ComponentId → MessageId → List ProviderSubscription
unfolding add_node
add l provider subscriber message =
    add_node l (record { provider = provider; subscriber = subscriber; message = message })

-- The loops of `Delete` and `DeleteAll`: a node for which the test holds is unlinked.
unfoldable pub unlink :
    (ProviderSubscription → Bool) → List ProviderSubscription → List ProviderSubscription
unlink test [] = []
unlink test (cur ∷ rest) = let rest' = unlink test rest in if test cur then rest' else cur ∷ rest'

-- `Delete`
unfoldable pub delete :
    List ProviderSubscription → ComponentId → MessageId → List ProviderSubscription
unfolding unlink
delete l subscriber message =
    unlink
      (λ cur. ComponentId.equal cur.subscriber subscriber && MessageId.equal cur.message message) l

-- The same address and port.
unfoldable pub same_host : ComponentId → ComponentId → Bool
same_host a b = a.address == b.address && a.port == b.port

-- The condition of `DeleteAll`: a provider is compared whole, a subscriber by address and port.
unfoldable pub belongs_to : ComponentId → Bool → ProviderSubscription → Bool
belongs_to comp use_provider cur =
    (use_provider && ComponentId.equal cur.provider comp)
    || (not use_provider && same_host cur.subscriber comp)

-- `DeleteAll`
unfoldable pub delete_all :
    List ProviderSubscription → ComponentId → Bool → List ProviderSubscription
unfolding unlink
delete_all l comp use_provider = unlink (belongs_to comp use_provider) l

-- The loop of `SubscriberFinish`: the messages that it sends, in order.
unfoldable pub deletesubs : ComponentId → List ProviderSubscription → List SdmDeletesub
deletesubs subscriber [] = []
deletesubs subscriber (cur ∷ rest) =
    let rest' = deletesubs subscriber rest in
    if same_host subscriber cur.subscriber
    then record SdmDeletesub.create {
      source = cur.provider;
      destination = cur.subscriber;
      msg_id = cur.message;
    }
      ∷ rest'
    else rest'

-- `SubscriberFinish`: the list that is left, and the messages sent.
unfoldable pub subscriber_finish :
    List ProviderSubscription → ComponentId → List ProviderSubscription × List SdmDeletesub
unfolding delete_all deletesubs
subscriber_finish l subscriber = (delete_all l subscriber false, deletesubs subscriber l)

-- `ProviderFinish`
unfoldable pub provider_finish : List ProviderSubscription → ComponentId → List ProviderSubscription
unfolding delete_all
provider_finish l provider = delete_all l provider true
