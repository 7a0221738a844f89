-- ===== src/Dm/SubscriptionList/Requests.antt =====
-- dm/SubscriptionList.{h,cpp}: the subscriptions to replies to ReqReg, Search and VarReq.
use vn_sdm.Common.{
  ℕ, ◌+◌, ◌==◌, if◌then◌else◌, Bool, true, false, ◌&&◌, ◌||◌, List, [], Option, none, some,
  equal_text,
}
use vn_sdm.ComponentId
use vn_sdm.ComponentId.{ComponentId}
use vn_sdm.Dm.Subscription.{Subscription, set_mid, get_mid}
use vn_sdm.Dm.SubscriptionList.{
  req_reg_future, req_reg_cancellation, var_req_reply, search_reply, sub_current_and_future,
  sub_current_future_and_cancellations, sub_cancel, Request, same_text, and_then, finds, sees,
  enter, cancel_first, cancel_all,
}

-- An entry of the subscriber and the source, with items.
abbrev pub is_from : Request → Subscription → Bool
is_from r s =
    s.in_use
    && (ComponentId.equal s.subscriber r.subscriber
        && (ComponentId.equal s.source r.source && s.has_items))

abbrev pub has_mid : ℕ → Subscription → Bool
has_mid mid s = get_mid s == mid

-- The four texts, in the order in which ReqReg compares them.
abbrev pub same_texts : Request → Subscription → Option Bool
same_texts r s = and_then (same_text s.item_name r.item_name) (
    and_then (same_text s.qual_list r.qual_list)
      (and_then (same_text s.device r.device) (same_text s.interface r.interface)))

-- A duplicate of a ReqReg subscription that has the message number `mid`; the entries with `other` are
-- compared as well.
abbrev pub is_req_reg : Request → ℕ → ℕ → Subscription → Option Bool
is_req_reg r mid other s =
    and_then (some (is_from r s && (has_mid mid s || has_mid other s)))
      (and_then (same_texts r s) (some (has_mid mid s)))

-- The entry of a ReqReg subscription.
abbrev pub fill_req_reg : Request → ℕ → ℕ → Subscription → Subscription
fill_req_reg r id mid s = record (set_mid s mid) {
  item_name = some r.item_name;
  qual_list = some r.qual_list;
  subscriber = r.subscriber;
  source = r.source;
  device = some r.device;
  interface = some r.interface;
  in_use = true;
  has_items = true;
  id = id;
}

-- The result of an addition: the list, and the count of errors.
abbrev pub Added : Type 0
Added = Option (List Subscription × ℕ)

-- A duplicate is an error; else the entry is made.
unfoldable pub add_unless :
    Option Bool → (Subscription → Subscription) → ℕ → List Subscription → Added
add_unless found fill error l = elim found [
  | none ↦ none
  | some b ↦ some (if b then (l, error + 1) else (enter fill l, error))
]

-- The first round of `addReqRegSubscription` for cancellations as well: a duplicate is no error.
unfoldable pub add_future : Request → ℕ → List Subscription → Option (List Subscription)
add_future r id l = elim (sees (is_req_reg r req_reg_future req_reg_cancellation) l) [
  | none ↦ none
  | some b ↦ some (if b then l else enter (fill_req_reg r id req_reg_future) l)
]

-- `addReqRegSubscription`
unfoldable pub add_req_reg_subscription : ℕ → Request → ℕ → ℕ → List Subscription → Added
add_req_reg_subscription reply r id error l =
    if reply == sub_current_and_future
    then add_unless (finds (is_req_reg r req_reg_future 0) l) (fill_req_reg r id req_reg_future)
        error l
    else elim (add_future r id l) [
      | none ↦ none
      | some l' ↦
          add_unless (finds (is_req_reg r req_reg_cancellation req_reg_future) l')
            (fill_req_reg r id req_reg_cancellation) error l'
    ]

-- `removeReqRegSubscription(int, SDMComponent_ID, int)`: the two rounds of SUB_CANCEL. The subscriber's
-- sensor number is not compared.
abbrev pub is_at_host : ComponentId → ℕ → Subscription → Bool
is_at_host a mid s =
    s.in_use
    && ((s.subscriber.address == a.address && s.subscriber.port == a.port)
        && (has_mid mid s && s.has_items))

unfoldable pub remove_all_req_reg : ComponentId → List Subscription → Option (List Subscription)
remove_all_req_reg a l = elim (cancel_all (λ s. some (is_at_host a req_reg_future s)) l) [
  | none ↦ none
  | some l' ↦ cancel_all (λ s. some (is_at_host a req_reg_cancellation s)) l'
]

-- `removeReqRegSubscription`, of one request: the first round goes on to the end, the second stops.
abbrev pub is_req_reg_of : Request → ℕ → Subscription → Option Bool
is_req_reg_of r mid s = and_then (some (is_from r s && has_mid mid s)) (same_texts r s)

unfoldable pub remove_req_reg : Request → List Subscription → Option (List Subscription)
remove_req_reg r l = elim (cancel_all (is_req_reg_of r req_reg_future) l) [
  | none ↦ none
  | some l' ↦ cancel_first (is_req_reg_of r req_reg_cancellation) l'
]

-- `addSearchSubscription`
abbrev pub is_search : Request → Subscription → Option Bool
is_search r s =
    and_then (some (is_from r s))
      (and_then (same_text s.item_name r.item_name) (some (has_mid search_reply s)))

abbrev pub fill_search : Request → ℕ → Subscription → Subscription
fill_search r id s = record (set_mid s search_reply) {
  item_name = some r.item_name;
  subscriber = r.subscriber;
  source = r.source;
  in_use = true;
  has_items = true;
  id = id;
}

unfoldable pub add_search_subscription : Request → ℕ → ℕ → List Subscription → Added
add_search_subscription r id error l = add_unless (finds (is_search r) l) (fill_search r id) error l

-- `addVarReqSubscription`
abbrev pub is_var_req : Request → Subscription → Option Bool
is_var_req r s = and_then (some (is_from r s)) (
    and_then (same_text s.item_name r.item_name)
      (and_then (same_text s.interface r.interface) (some (has_mid var_req_reply s))))

abbrev pub fill_var_req : Request → ℕ → Subscription → Subscription
fill_var_req r id s = record (set_mid s var_req_reply) {
  item_name = some r.item_name;
  interface = some r.interface;
  subscriber = r.subscriber;
  source = r.source;
  in_use = true;
  has_items = true;
  id = id;
}

unfoldable pub add_var_req_subscription : Request → ℕ → ℕ → List Subscription → Added
add_var_req_subscription r id error l =
    add_unless (finds (is_var_req r) l) (fill_var_req r id) error l

-- `removeSearchSubscription` and `removeVarReqSubscription` of all requests of a subscriber: the two
-- differ in the message number.
unfoldable pub remove_all_of : ℕ → ComponentId → List Subscription → Option (List Subscription)
unfolding ComponentId.equal
remove_all_of mid a l =
    cancel_all
      (λ s. some (s.in_use && (ComponentId.equal s.subscriber a && (has_mid mid s && s.has_items))))
      l

-- Of one request: the items are not tested, nor is the interface.
abbrev pub is_named : Request → ℕ → Subscription → Option Bool
is_named r mid s =
    and_then
      (some (
        s.in_use
        && (ComponentId.equal s.subscriber r.subscriber
            && (has_mid mid s && ComponentId.equal s.source r.source))))
      (same_text s.item_name r.item_name)

unfoldable pub remove_of : ℕ → Request → List Subscription → Option (List Subscription)
remove_of mid r l = cancel_first (is_named r mid) l

-- A request that names nothing but its subscriber.
abbrev pub is_blank : Request → Bool
is_blank r =
    ComponentId.is_empty r.source
    && (equal_text r.item_name []
        && (equal_text r.qual_list [] && (equal_text r.device [] && equal_text r.interface [])))

-- The case SUB_CANCEL of `addOrRemoveSubscription`
unfoldable pub cancel : Request → ℕ → List Subscription → Option (List Subscription)
cancel r mid l =
    if is_blank r
    then (if mid == search_reply || mid == var_req_reply
        then remove_all_of mid r.subscriber l
        else remove_all_req_reg r.subscriber l)
    else (if mid == search_reply || mid == var_req_reply
        then remove_of mid r l
        else remove_req_reg r l)

-- The two cases that add.
unfoldable pub add : ℕ → Request → ℕ → ℕ → ℕ → List Subscription → Added
add reply r id mid error l =
    if mid == search_reply
    then add_search_subscription r id error l
    else if mid == var_req_reply
    then add_var_req_subscription r id error l
    else add_req_reg_subscription reply r id error l

-- `addOrRemoveSubscription`: the list, the count of errors and the result.
unfoldable pub add_or_remove_subscription :
    ℕ → Request → ℕ → ℕ → ℕ → List Subscription → Option (List Subscription × ℕ × Bool)
add_or_remove_subscription reply r id mid error l =
    if reply == sub_current_and_future || reply == sub_current_future_and_cancellations
    then elim (add reply r id mid error l) [
      | none ↦ none
      | some (l', error') ↦ some (l', error', true)
    ]
    else if reply == sub_cancel
    then elim (cancel r mid l) [ none ↦ none | some l' ↦ some (l', error, false) ]
    else some (l, error + 1, true)
