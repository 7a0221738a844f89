-- ===== src/Dm/Subscription.antt =====
-- dm/Subscription.{h,cpp}: an entry of the Data Manager's subscription list. A text is its bytes before
-- the terminator, and `none` for NULL; who owns the texts is left out.
use vn_sdm.Common.{ℕ, Bool, false, List, Option, none}
use vn_sdm.ComponentId.{ComponentId, component_id_invalid}
use vn_sdm.MessageId.{MessageId, message_id_zero, assign, interface_message_pair}

-- class Subscription
pub record Subscription : Type 0 where
  pub sub_message_id : MessageId
  pub in_use : Bool
  pub id : ℕ
  pub item_name : Option (List ℕ)
  pub qual_list : Option (List ℕ)
  pub subscriber : ComponentId
  pub source : ComponentId
  pub device : Option (List ℕ)
  pub interface : Option (List ℕ)
  pub has_items : Bool

-- The constructor.
abbrev pub create : Subscription
create = record {
  sub_message_id = message_id_zero;
  in_use = false;
  id = 0;
  item_name = none;
  qual_list = none;
  subscriber = component_id_invalid;
  source = component_id_invalid;
  device = none;
  interface = none;
  has_items = false;
}

-- `setmID(int)`
unfoldable pub set_mid : Subscription → ℕ → Subscription
unfolding assign
set_mid s mid = record s { sub_message_id = assign mid }

-- `getmID`, as the bit pattern of the short
unfoldable pub get_mid : Subscription → ℕ
unfolding interface_message_pair
get_mid s = interface_message_pair s.sub_message_id

-- `setPort`
abbrev pub set_port : Subscription → ℕ → Subscription
set_port s port = record s { subscriber = record (s.subscriber) { port = port } }

-- `operator=`: the message number and the source are not assigned.
unfoldable pub assign_from : Subscription → Subscription → Subscription
assign_from s b = record b { sub_message_id = s.sub_message_id; source = s.source }
