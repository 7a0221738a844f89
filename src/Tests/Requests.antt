-- ===== src/Tests/Requests.antt =====
-- Runs of dm/SubscriptionList.
use vn_sdm.Common.{
  ℕ, ◌+◌, ◌≡◌, arith, ltb, if◌then◌else◌, true, not, ◌&&◌, List, [], ◌∷◌, none, some, All,
}
use vn_sdm.ComponentId.{ComponentId, component_id_invalid}
use vn_sdm.Dm.Subscription.{Subscription, create, set_mid, get_mid}
use vn_sdm.Dm.SubscriptionList.{search_reply, Request, enter, add_subscription}
use vn_sdm.Dm.SubscriptionList.Requests.{
  fill_search, add_search_subscription, add_var_req_subscription, remove_of,
}
use vn_sdm.Dm.SubscriptionList.Count.{count}
use vn_sdm.Dm.SubscriptionList.Laws.{IsSound, has_search, same_search, search_subscription_lem}
use vn_sdm.Dm.SubscriptionList.Null.{null_name}

abbrev component : ℕ → ComponentId
component n = record { sensor_id = n; address = 0x0a00_0001; port = 4001 }

abbrev request : ℕ → List ℕ → Request
request n name = record {
  subscriber = component n;
  source = component 9;
  device = [];
  interface = [];
  item_name = name;
  qual_list = [];
}

-- Two Search requests, and an entry that is free.
abbrev subscriptions : List Subscription
subscriptions =
    fill_search (request 1 (b'a' ∷ [])) 7 create
    ∷ create
    ∷ fill_search (request 1 (b'b' ∷ [])) 8 create
    ∷ []

subscriptions-IsSound : All IsSound subscriptions
unfolding set_mid get_mid
subscriptions-IsSound = ground arith

search_subscription_lem_example :
    let r = request 2 (b'b' ∷ []) in
    let q = request 1 (b'b' ∷ []) in
    let known = ltb 0 (count (has_search r) subscriptions) in
    let others = count (has_search q) subscriptions in
    ((l' : List Subscription) × (add_search_subscription r 9 0 subscriptions
        ≡ some (l', 0 + (if known then 1 else 0)))
      × All IsSound l'
      × (count (has_search q) l' ≡ others + (if same_search r q && not known then 1 else 0)))
    × ((l' : List Subscription) × (remove_of search_reply r subscriptions ≡ some l')
        × All IsSound l'
        × (count (has_search q) l' + (if same_search r q && known then 1 else 0) ≡ others))
search_subscription_lem_example =
    search_subscription_lem (request 2 (b'b' ∷ [])) (request 1 (b'b' ∷ [])) 9 0 subscriptions
      subscriptions-IsSound

null_name_example :
    let r = request 1 (b'a' ∷ []) in
    let searched = enter (fill_search r 7) [] in
    let (notified, is_new) = add_subscription [] r.subscriber search_reply in
    (add_search_subscription r 7 0 [] ≡ some (searched, 0))
    × (add_var_req_subscription r 8 0 searched ≡ none)
    × (is_new ≡ true)
    × (remove_of search_reply (record r { source = component_id_invalid }) notified ≡ none)
null_name_example = null_name (request 1 (b'a' ∷ [])) 7 8 0
