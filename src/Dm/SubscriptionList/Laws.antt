-- ===== src/Dm/SubscriptionList/Laws.antt =====
-- The Search subscriptions of the Data Manager, as a set of requests.
use vn_sdm.Common.{
  ℕ, ◌+◌, ◌≡◌, refl, ap, arith, ltb, if◌then◌else◌, Bool, true, false, not, ◌&&◌, List, [], ◌∷◌,
  Option, none, some, All, Bool-cases, inl, inr, equal_text,
}
use vn_sdm.ComponentId
use vn_sdm.ComponentId.{ComponentId}
use vn_sdm.Dm.Subscription.{Subscription, set_mid, get_mid}
use vn_sdm.Dm.SubscriptionList.{var_req_reply, search_reply, Request, enter, cancelled}
use vn_sdm.Dm.SubscriptionList.Requests.{
  add_unless, is_from, has_mid, is_search, fill_search, add_search_subscription, is_named,
  remove_of,
}
use vn_sdm.Dm.SubscriptionList.Count.{
  count, Decides, finds-count, enter-count, enter-All, without_first, cancel_first-without_first,
  without_first-count, without_first-All,
}

-- An entry: one with items has a name, and one for Search or VarReq has items.
pub record IsSound (s : Subscription) : Type 0 where
  pub named : s.item_name ≡ none → s.in_use && s.has_items ≡ false
  pub search_items : s.in_use ≡ true → get_mid s ≡ search_reply → s.has_items ≡ true
  pub var_req_items : s.in_use ≡ true → get_mid s ≡ var_req_reply → s.has_items ≡ true

abbrev pub text_is : Option (List ℕ) → List ℕ → Bool
text_is none t = false
text_is (some s) t = equal_text s t

-- The entry of a Search request.
abbrev pub has_search : Request → Subscription → Bool
has_search q s = is_from q s && (text_is s.item_name q.item_name && has_mid search_reply s)

-- Two requests with the same subscriber, source and name.
abbrev pub same_search : Request → Request → Bool
same_search r q =
    ComponentId.equal r.subscriber q.subscriber
    && (ComponentId.equal r.source q.source && equal_text r.item_name q.item_name)

is_search-has_search :
    (q : Request) (s : Subscription) → IsSound s → is_search q s ≡ some (has_search q s)
is_search-has_search q s h = ground (arith, h.named)

is_named-has_search :
    (q : Request) (s : Subscription) → IsSound s → is_named q search_reply s ≡ some (has_search q s)
is_named-has_search q s h = ground (arith, h.named, h.search_items)

fill_search-mid :
    (r : Request) (id : ℕ) (s : Subscription) → get_mid (fill_search r id s) ≡ search_reply
unfolding get_mid set_mid
fill_search-mid r id s = refl

fill_search-has_search :
    (r q : Request) (id : ℕ) (s : Subscription)
    → has_search q (fill_search r id s) ≡ same_search r q
unfolding get_mid set_mid
fill_search-has_search r q id s = ground arith

fill_search-IsSound : (r : Request) (id : ℕ) (s : Subscription) → IsSound (fill_search r id s)
fill_search-IsSound r id s = ground arith

cancelled-IsSound : (s : Subscription) → IsSound (cancelled s)
unfolding cancelled
cancelled-IsSound s = ground arith

equal_text_eq : (a b : List ℕ) → equal_text a b ≡ true → a ≡ b
equal_text_eq [] [] h = refl
equal_text_eq [] (y ∷ b) h = ground arith
equal_text_eq (x ∷ a) [] h = ground arith
equal_text_eq (x ∷ a) (y ∷ b) h = ground (arith, equal_text_eq a b)

equal_eq : (a b : ComponentId) → ComponentId.equal a b ≡ true → a ≡ b
unfolding ComponentId.equal
equal_eq a b h = ground arith

text_is_eq : (o : Option (List ℕ)) (t : List ℕ) → text_is o t ≡ true → o ≡ some t
text_is_eq none t h = ground arith
text_is_eq (some s) t h = ap some (equal_text_eq s t h)

-- An entry of one request is one of another just when the requests are the same.
has_search-same_search :
    (r q : Request) (s : Subscription) → has_search r s ≡ true → has_search q s ≡ same_search r q
has_search-same_search r q s h =
    let at : s.subscriber ≡ r.subscriber = equal_eq s.subscriber r.subscriber (ground (arith, h)) in
    let from : s.source ≡ r.source = equal_eq s.source r.source (ground (arith, h)) in
    let named : s.item_name ≡ some r.item_name =
      text_is_eq s.item_name r.item_name (ground (arith, h)) in
    rw (at, from, named) (ground (arith, h))

All-Decides :
    (test : Subscription → Option Bool) (P : Subscription → Bool) (l : List Subscription)
    → ((s : Subscription) → IsSound s → test s ≡ some (P s))
    → All IsSound l
    → Decides test P l
All-Decides test P [] d h = tt
All-Decides test P (s ∷ l) d (h, hs) = (d s h, All-Decides test P l d hs)

-- What an addition of `r` leaves.
abbrev pub added : Request → ℕ → List Subscription → List Subscription
added r id l = if ltb 0 (count (has_search r) l) then l else enter (fill_search r id) l

added-IsSound :
    (r : Request) (id : ℕ) (l : List Subscription) → All IsSound l → All IsSound (added r id l)
added-IsSound r id l h = elim (Bool-cases (ltb 0 (count (has_search r) l))) [
  | inl e ↦ rw e h
  | inr e ↦ rw e (enter-All IsSound (fill_search r id) l (fill_search-IsSound r id) h)
]

added-count :
    (r q : Request) (id : ℕ) (l : List Subscription)
    → count (has_search q) (added r id l)
      ≡ count (has_search q) l
        + (if same_search r q && not (ltb 0 (count (has_search r) l)) then 1 else 0)
added-count r q id l = ground (
  arith,
  enter-count (has_search q) (fill_search r id) (same_search r q) l (fill_search-has_search r q id)
      (λ s e. ground arith),
)

cancelled-has_search : (q : Request) (s : Subscription) → has_search q (cancelled s) ≡ false
unfolding cancelled
cancelled-has_search q s = refl

-- Suppose that of every entry in use: one with items has a name, and one for Search or VarReq has items.
-- (Other operations can break this.) Then it stays so, and `addSearchSubscription` adds
-- an entry unless there is one of the same subscriber, source and name, which it counts as an error;
-- `removeSearchSubscription` of one request removes one such entry, if there is one. The entries of all
-- other Search requests stay.
pub search_subscription_lem :
    (r q : Request) (id error : ℕ) (l : List Subscription)
    → All IsSound l
    → let known = ltb 0 (count (has_search r) l) in
      let others = count (has_search q) l in
      ((l' : List Subscription) × (add_search_subscription r id error l
          ≡ some (l', error + (if known then 1 else 0)))
        × All IsSound l'
        × (count (has_search q) l' ≡ others + (if same_search r q && not known then 1 else 0)))
      × ((l' : List Subscription) × (remove_of search_reply r l ≡ some l')
          × All IsSound l'
          × (count (has_search q) l' + (if same_search r q && known then 1 else 0) ≡ others))
unfolding add_search_subscription add_unless remove_of
search_subscription_lem r q id error l h = (
  (
    added r id l,
    ground (
      arith,
      finds-count (is_search r) (has_search r) l (All-Decides _ _ l (is_search-has_search r) h),
    ),
    added-IsSound r id l h,
    added-count r q id l,
  ),
  (
    without_first (has_search r) l,
    cancel_first-without_first (is_named r search_reply) (has_search r) l
        (All-Decides _ _ l (is_named-has_search r) h),
    without_first-All IsSound (has_search r) l cancelled-IsSound h,
    without_first-count (has_search r) (has_search q) (same_search r q) l
        (has_search-same_search r q) (cancelled-has_search q),
  ),
)
