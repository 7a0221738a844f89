-- ===== src/Dm/SubscriptionList/Null.antt =====
-- Where the Data Manager compares a name that was never set.
use vn_sdm.Common.{ℕ, ◌≡◌, refl, arith, true, List, [], ◌∷◌, none, some, equal_text}
use vn_sdm.ComponentId
use vn_sdm.ComponentId.{ComponentId, component_id_invalid}
use vn_sdm.Dm.Subscription.{set_mid, get_mid}
use vn_sdm.Dm.SubscriptionList.{search_reply, Request, finds, enter, add_subscription, cancel_first}
use vn_sdm.Dm.SubscriptionList.Requests.{
  add_unless, fill_search, add_search_subscription, add_var_req_subscription, remove_of,
}

equal_refl : (a : ComponentId) → ComponentId.equal a a ≡ true
unfolding ComponentId.equal
equal_refl a = ground arith

equal_text_refl : (t : List ℕ) → equal_text t t ≡ true
equal_text_refl [] = refl
equal_text_refl (c ∷ t) = ground (arith, equal_text_refl t)

-- In an empty list: after a Search request, a VarReq request of the same subscriber, source and name
-- passes NULL to `strcmp`. And after a subscription to the notification that has the number of
-- SEARCH_REPLY, cancelling a Search request of that subscriber to no source does.
pub null_name :
    (r : Request) (id id' error : ℕ)
    → let searched = enter (fill_search r id) [] in
      let (notified, is_new) = add_subscription [] r.subscriber search_reply in
      (add_search_subscription r id error [] ≡ some (searched, error))
      × (add_var_req_subscription r id' error searched ≡ none)
      × (is_new ≡ true)
      × (remove_of search_reply (record r { source = component_id_invalid }) notified ≡ none)
unfolding add_search_subscription add_var_req_subscription add_unless finds enter add_subscription
    remove_of cancel_first set_mid get_mid
null_name r id id' error = ground (
  arith,
  equal_refl r.subscriber,
  equal_refl r.source,
  equal_text_refl r.item_name,
  equal_refl component_id_invalid,
)
