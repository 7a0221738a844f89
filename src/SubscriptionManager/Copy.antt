-- ===== src/SubscriptionManager/Copy.antt =====
-- The copy of a subscription manager: the same keys, but no fault messages.
use vn_sdm.Common.{ℕ, ◌≡◌, refl, arith, if◌then◌else◌, false, List, [], ◌∷◌}
use vn_sdm.ComponentId.{ComponentId}
use vn_sdm.MessageId
use vn_sdm.MessageId.{MessageId, message_id_zero}
use vn_sdm.SubscriptionManager.{
  Subscription, SubscriptionManager, matches, contains, wants, deep_subcopy, copy,
}
use vn_sdm.SubscriptionManager.Publish.{wanting}

-- The entries whose message, not fault message, has the given number.
abbrev pub by_message : MessageId → List Subscription → List Subscription
by_message id [] = []
by_message id (s ∷ l) = if MessageId.equal s.msg_id id then s ∷ by_message id l else by_message id l

contains-copy :
    (id : MessageId) (dest : ComponentId) (l : List Subscription)
    → contains id dest (deep_subcopy l) ≡ contains id dest l
unfolding contains deep_subcopy matches
contains-copy id dest [] = refl
contains-copy id dest (s ∷ l) = ground (arith, contains-copy id dest l)

wanting-copy :
    (id : MessageId) (l : List Subscription)
    → MessageId.equal message_id_zero id ≡ false
    → wanting id (deep_subcopy l) ≡ deep_subcopy (by_message id l)
unfolding deep_subcopy wants
wanting-copy id [] h = refl
wanting-copy id (s ∷ l) h = ground (arith, wanting-copy id l h)

-- A copied manager lists the same keys, but a message other than (0, 0) is wanted only by those that
-- subscribed to it by its own number: who named it as a fault message no longer receives it.
pub copy_lem :
    (pid : ℕ) (m : SubscriptionManager) (id : MessageId) (dest : ComponentId)
    → MessageId.equal message_id_zero id ≡ false
    → (contains id dest (copy pid m).sub_list ≡ contains id dest m.sub_list)
      × (wanting id (copy pid m).sub_list ≡ deep_subcopy (by_message id m.sub_list))
      × ((copy pid m).my_component_id ≡ m.my_component_id)
unfolding copy
copy_lem pid m id dest h = (contains-copy id dest m.sub_list, wanting-copy id m.sub_list h, refl)
