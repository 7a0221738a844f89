-- ===== src/SubscriptionManager/Publish.antt =====
-- Who receives a publication, and when `Publish` runs into the node that it has deleted.
use vn_sdm.Common.{
  ℕ, ◌+◌, ◌≡◌, refl, arith, inl, inr, Bool-cases, if◌then◌else◌, Bool, false, ◌&&◌, ◌||◌, List, [],
  ◌∷◌, map,
}
use vn_sdm.Wire.{Buffer}
use vn_sdm.ComponentId.{ComponentId}
use vn_sdm.MessageId.{MessageId}
use vn_sdm.SubscriptionManager.{
  Subscription, SubscriptionManager, Outcome, published, undefined, wants, sent_to, publish_loop,
  publish,
}

-- The entries that want a message, by its number or as a fault message, in the order of the list.
abbrev pub wanting : MessageId → List Subscription → List Subscription
wanting id [] = []
wanting id (s ∷ l) = if wants id s then s ∷ wanting id l else wanting id l

abbrev pub subscriber : Subscription → ComponentId
subscriber s = s.component_id

module _ (send : ℕ → ComponentId → Bool) where
  -- One of the sends, the first of them the k-th, succeeds.
  abbrev pub any_sent : ℕ → List ComponentId → Bool
  any_sent k [] = false
  any_sent k (d ∷ ds) = send k d || any_sent (k + 1) ds

  -- One of the sends that succeed is to a service request.
  abbrev pub any_answered : ℕ → List Subscription → Bool
  any_answered k [] = false
  any_answered k (s ∷ l) = (send k s.component_id && s.is_serreqst) || any_answered (k + 1) l

  -- What a publication to the given entries does.
  abbrev pub expected : ℕ → List Subscription → Outcome
  expected k l =
      if any_answered k l
      then undefined
      else published (map subscriber l) (any_sent k (map subscriber l))

  expected-sent_to :
      (k : ℕ) (s : Subscription) (l : List Subscription)
      → expected k (s ∷ l) ≡ (
          if send k s.component_id && s.is_serreqst
          then undefined
          else sent_to s.component_id (send k s.component_id) (expected (k + 1) l))
  expected-sent_to k s l = ground arith

  loop-expected :
      (id : MessageId) (k : ℕ) (l : List Subscription)
      → publish_loop send id k l ≡ expected k (wanting id l)
  unfolding publish_loop
  loop-expected id k [] = refl
  loop-expected id k (s ∷ l) = elim (Bool-cases (wants id s)) [
    | inl e ↦ rw (e, loop-expected id (k + 1) l, expected-sent_to k s (wanting id l)) refl
    | inr e ↦ rw e (loop-expected id k l)
  ]

  -- `Publish` sends to every entry that wants the message and to no other, once each, in the order of
  -- the list, and reports whether one send succeeded; unless a send to a service request succeeds,
  -- where the behaviour is undefined. The list of subscriptions is as before.
  pub publish_lem :
      (m : SubscriptionManager) (id : MessageId) (payload : Buffer) (size : ℕ)
      → let (m', out) = publish send m id payload size in
        (out ≡ expected 0 (wanting id m.sub_list))
        × (m'.sub_list ≡ m.sub_list)
        × (m'.my_component_id ≡ m.my_component_id)
  unfolding publish
  publish_lem m id payload size = (loop-expected id 0 m.sub_list, refl, refl)
