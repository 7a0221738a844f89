-- ===== src/Dm/SubscriptionList.antt =====
-- dm/SubscriptionList.{h,cpp}: who waits for the Data Manager's notifications (`add_subscription`) and for
-- replies to ReqReg, Search and VarReq. The linked list is a list with its head first; an entry that is
-- not in use stays in the list for the next subscription. `strcmp` of NULL has no result: `none`. A NULL
-- argument, which callers pass only where it is not read, is the empty text.
pub mod Requests
pub mod Count
pub mod Laws
pub mod Null
use vn_sdm.Common.{
  ℕ, ◌+◌, ◌==◌, if◌then◌else◌, Bool, true, false, not, ◌&&◌, ◌||◌, List, [], ◌∷◌, Option, none,
  some, equal_text,
}
use vn_sdm.ComponentId
use vn_sdm.ComponentId.{ComponentId}
use vn_sdm.Dm.Subscription.{Subscription, create, set_mid, get_mid, set_port}

-- REQ_REG_FUTURE, REQ_REG_CANCELLATION, VAR_REQ_REPLY and SEARCH_REPLY
abbrev pub req_reg_future : ℕ
req_reg_future = 0x401

abbrev pub req_reg_cancellation : ℕ
req_reg_cancellation = 0x402

abbrev pub var_req_reply : ℕ
var_req_reply = 0x403

abbrev pub search_reply : ℕ
search_reply = 0x404

-- SUB_CURRENT_AND_FUTURE, SUB_CURRENT_FUTURE_AND_CANCELLATIONS and SUB_CANCEL
abbrev pub sub_current_and_future : ℕ
sub_current_and_future = 5

abbrev pub sub_current_future_and_cancellations : ℕ
sub_current_future_and_cancellations = 7

abbrev pub sub_cancel : ℕ
sub_cancel = 11

-- The arguments that say what is subscribed to, and by whom.
pub record Request : Type 0 where
  pub subscriber : ComponentId
  pub source : ComponentId
  pub device : List ℕ
  pub interface : List ℕ
  pub item_name : List ℕ
  pub qual_list : List ℕ

-- `strcmp(…) == 0`, of a text of the list
abbrev pub same_text : Option (List ℕ) → List ℕ → Option Bool
same_text none t = none
same_text (some s) t = some (equal_text s t)

-- Nested tests: the second is made if the first holds.
abbrev pub and_then : Option Bool → Option Bool → Option Bool
and_then none b = none
and_then (some false) b = some false
and_then (some true) b = b

-- A loop that stops where the test holds: whether it does somewhere.
unfoldable pub finds : (Subscription → Option Bool) → List Subscription → Option Bool
finds test [] = some false
finds test (s ∷ l) =
    let rest = finds test l in
    elim (test s) [ none ↦ none | some b ↦ if b then some true else rest ]

-- A loop that goes on to the end.
unfoldable pub sees : (Subscription → Option Bool) → List Subscription → Option Bool
sees test [] = some false
sees test (s ∷ l) =
    let rest = sees test l in
    elim (test s) [ none ↦ none | some b ↦ elim rest [ none ↦ none | some c ↦ some (b || c) ] ]

-- The first entry that is not in use, or a new one at the end, is filled.
unfoldable pub enter : (Subscription → Subscription) → List Subscription → List Subscription
enter fill [] = fill create ∷ []
enter fill (s ∷ l) = if s.in_use then s ∷ enter fill l else fill s ∷ l

-- What a cancellation leaves of an entry.
unfoldable pub cancelled : Subscription → Subscription
unfolding set_mid
cancelled s = record (set_mid (set_port s 0) 0) { in_use = false; has_items = false; id = 0 }

-- A loop that cancels the first entry for which the test holds.
unfoldable pub cancel_first :
    (Subscription → Option Bool) → List Subscription → Option (List Subscription)
unfolding cancelled
cancel_first test [] = some []
cancel_first test (s ∷ l) =
    let rest = cancel_first test l in
    elim (test s) [
      | none ↦ none
      | some b ↦
          if b then some (cancelled s ∷ l) else elim rest [ none ↦ none | some l' ↦ some (s ∷ l') ]
    ]

-- A loop that cancels all of them.
unfoldable pub cancel_all :
    (Subscription → Option Bool) → List Subscription → Option (List Subscription)
unfolding cancelled
cancel_all test [] = some []
cancel_all test (s ∷ l) =
    let rest = cancel_all test l in
    elim (test s) [
      | none ↦ none
      | some b ↦ elim rest [ none ↦ none | some l' ↦ some ((if b then cancelled s else s) ∷ l') ]
    ]

-- `addSubscription(SDMComponent_ID, int, int)`: whether there is a new entry.
unfoldable pub add_subscription : List Subscription → ComponentId → ℕ → List Subscription × Bool
unfolding finds enter set_mid get_mid ComponentId.equal
add_subscription l subscriber mid =
    let fill : Subscription → Subscription =
      λ s. record (set_mid s mid) { subscriber = subscriber; in_use = true; has_items = false } in
    elim (finds duplicate l) [
      | none ↦ (l, false)
      | some found ↦ if found then (l, false) else (enter fill l, true)
    ]
  where
    duplicate : Subscription → Option Bool
    duplicate s = some (
        s.in_use
        && (ComponentId.equal s.subscriber subscriber && (get_mid s == mid && not s.has_items)))
