-- ===== src/SubscriptionManager/Unique.antt =====
-- The subscription list has one entry for a message and a subscriber: it is kept as a set of keys by
-- `AddSubscription` and `RemoveSubscription`.
use vn_sdm.Common.{
  ℕ, ◌+◌, ◌≡◌, refl, arith, not, sym, ◌∙◌, inl, inr, Bool-cases, if◌then◌else◌, Bool, true, false,
  ◌&&◌, ◌||◌, List, [], ◌∷◌, length,
}
use vn_sdm.ComponentId.{ComponentId}
use vn_sdm.MessageId
use vn_sdm.MessageId.{MessageId}
use vn_sdm.Message.SdmSubreqst.{SdmSubreqst}
use vn_sdm.Message.SdmSerreqst.{SdmSerreqst}
use vn_sdm.Message.SdmDeletesub.{SdmDeletesub}
use vn_sdm.SubscriptionManager.{
  Subscription, SubscriptionManager, matches, contains, add_subreqst, add_serreqst, unlink,
  remove_subscription, count_from, subscription_count,
}

-- No entry matches the key of an earlier one.
abbrev pub Unique : List Subscription → Type 0
Unique [] = Unit {0}
Unique (s ∷ rest) = (contains s.msg_id s.component_id rest ≡ false) × Unique rest

-- The two keys are the same: message, address and port.
abbrev pub same_key : MessageId → ComponentId → MessageId → ComponentId → Bool
same_key id dest id' dest' =
    matches id dest
      (record { component_id = dest'; msg_id = id'; fault_id = id'; is_serreqst = false })

-- Entries that match a key match the same keys.
matches_congr :
    (id : MessageId) (dest : ComponentId) (s x : Subscription)
    → matches id dest s ≡ true
    → matches id dest x ≡ matches s.msg_id s.component_id x
unfolding matches MessageId.equal
matches_congr id dest s x h = ground arith

contains_congr :
    (id : MessageId) (dest : ComponentId) (s : Subscription) (l : List Subscription)
    → matches id dest s ≡ true
    → contains id dest l ≡ contains s.msg_id s.component_id l
unfolding contains
contains_congr id dest s [] h = refl
contains_congr id dest s (x ∷ l) h =
    ground (arith, matches_congr id dest s x h, contains_congr id dest s l h)

-- An entry that matches one key does not match another.
matches_other :
    (id id' : MessageId) (dest dest' : ComponentId) (s : Subscription)
    → same_key id dest id' dest' ≡ false
    → matches id dest s ≡ true
    → matches id' dest' s ≡ false
unfolding matches MessageId.equal
matches_other id id' dest dest' s h e = ground arith

unlink-contains_other :
    (id id' : MessageId) (dest dest' : ComponentId) (l : List Subscription)
    → same_key id dest id' dest' ≡ false
    → contains id' dest' (unlink id dest l).0 ≡ contains id' dest' l
unfolding contains unlink
unlink-contains_other id id' dest dest' [] h = refl
unlink-contains_other id id' dest dest' (s ∷ l) h =
    ground (arith, matches_other id id' dest dest' s h, unlink-contains_other id id' dest dest' l h)

-- Unlinking adds no key.
unlink-contains-false :
    (id id' : MessageId) (dest dest' : ComponentId) (l : List Subscription)
    → contains id' dest' l ≡ false
    → contains id' dest' (unlink id dest l).0 ≡ false
unfolding contains unlink
unlink-contains-false id id' dest dest' [] h = refl
unlink-contains-false id id' dest dest' (s ∷ l) h =
    ground (arith, unlink-contains-false id id' dest dest' l)

unlink-Unique :
    (id : MessageId) (dest : ComponentId) (l : List Subscription)
    → Unique l
    → Unique (unlink id dest l).0
unfolding unlink
unlink-Unique id dest [] u = tt
unlink-Unique id dest (s ∷ l) u = ground (
  arith,
  unlink-Unique id dest l u.1,
  unlink-contains-false id s.msg_id dest s.component_id l u.0,
)

unlink-contains_self :
    (id : MessageId) (dest : ComponentId) (l : List Subscription)
    → Unique l
    → contains id dest (unlink id dest l).0 ≡ false
unfolding contains unlink
unlink-contains_self id dest [] u = refl
unlink-contains_self id dest (s ∷ l) u =
    ground (arith, contains_congr id dest s l, unlink-contains_self id dest l u.1, u.0)

unlink_found :
    (id : MessageId) (dest : ComponentId) (l : List Subscription)
    → (unlink id dest l).1 ≡ contains id dest l
unfolding contains unlink
unlink_found id dest [] = refl
unlink_found id dest (s ∷ l) = ground (arith, unlink_found id dest l)

count_from-length : (n : ℕ) (l : List Subscription) → count_from n l ≡ n + length l
unfolding count_from
count_from-length n [] = omega arith
count_from-length n (s ∷ l) = omega (arith, count_from-length (n + 1) l)

unlink-length :
    (id : MessageId) (dest : ComponentId) (l : List Subscription)
    → contains id dest l ≡ true
    → length (unlink id dest l).0 + 1 ≡ length l
unfolding contains unlink
unlink-length id dest [] h = ground arith
unlink-length id dest (s ∷ l) h = ground (arith, unlink-length id dest l)

unlink-length_none :
    (id : MessageId) (dest : ComponentId) (l : List Subscription)
    → contains id dest l ≡ false
    → length (unlink id dest l).0 ≡ length l
unfolding contains unlink
unlink-length_none id dest [] h = refl
unlink-length_none id dest (s ∷ l) h = ground (arith, unlink-length_none id dest l)

unlink-contains :
    (id id' : MessageId) (dest dest' : ComponentId) (l : List Subscription)
    → Unique l
    → contains id' dest' (unlink id dest l).0
      ≡ (not (same_key id dest id' dest') && contains id' dest' l)
unlink-contains id id' dest dest' l u = elim (Bool-cases (same_key id dest id' dest')) [
  | inl same ↦
      rw same (
        sym (contains_congr id dest _ (unlink id dest l).0 same) ∙ unlink-contains_self id dest l u)
  | inr other ↦ rw other (unlink-contains_other id id' dest dest' l other)
]

-- What adding an entry does to the list, if its key is not listed.
abbrev insert : Subscription → List Subscription → List Subscription
insert s l = if contains s.msg_id s.component_id l then l else s ∷ l

insert-contains :
    (s : Subscription) (l : List Subscription) (id : MessageId) (dest : ComponentId)
    → contains id dest (insert s l)
      ≡ (same_key s.msg_id s.component_id id dest || contains id dest l)
unfolding contains matches MessageId.equal
insert-contains s l id dest = ground (arith, contains_congr id dest s l)

insert-Unique : (s : Subscription) (l : List Subscription) → Unique l → Unique (insert s l)
insert-Unique s l u = ground arith

-- The entry that each kind of request asks for: a service request waits for its reply.
abbrev pub requested_subreqst : SdmSubreqst → Subscription
requested_subreqst r = record {
  component_id = r.destination;
  msg_id = r.msg_id;
  fault_id = r.fault_id;
  is_serreqst = false;
}

abbrev pub requested_serreqst : SdmSerreqst → Subscription
requested_serreqst r = record {
  component_id = r.destination;
  msg_id = r.reply_id;
  fault_id = r.fault_id;
  is_serreqst = true;
}

-- A subscription request is refused exactly when its key is listed. Otherwise it is counted, the
-- requested provider is remembered, and the entry is put at the head: the subscriber, the message and the
-- fault message of the request, and no service request. Either way its key is listed afterwards, every
-- other key is listed as before, no key is listed twice, and the last message is kept.
pub add_subreqst_lem :
    (m : SubscriptionManager) (r : SdmSubreqst) (id : MessageId) (dest : ComponentId)
    → Unique m.sub_list
    → let (m', added) = add_subreqst m r in
      (added ≡ not (contains r.msg_id r.destination m.sub_list))
      × (subscription_count m' ≡ (if added then subscription_count m + 1 else subscription_count m))
      × (m'.sub_list ≡ (if added then requested_subreqst r ∷ m.sub_list else m.sub_list))
      × (m'.my_component_id ≡ (if added then r.source else m.my_component_id))
      × (contains id dest m'.sub_list
          ≡ (same_key r.msg_id r.destination id dest || contains id dest m.sub_list))
      × Unique m'.sub_list
      × (m'.dat ≡ m.dat)
unfolding add_subreqst subscription_count
add_subreqst_lem m r id dest u = ground (
  arith,
  count_from-length 0 (add_subreqst m r).0.sub_list,
  count_from-length 0 m.sub_list,
  insert-contains (requested_subreqst r) m.sub_list id dest,
)

-- A service request is refused exactly when the key of its reply is listed. Otherwise it is counted, the
-- requested provider is remembered, and the entry is put at the head: the subscriber, the reply and the
-- fault message of the request, marked as a service request. Either way its key is listed afterwards,
-- every other key is listed as before, no key is listed twice, and the last message is kept.
pub add_serreqst_lem :
    (m : SubscriptionManager) (r : SdmSerreqst) (id : MessageId) (dest : ComponentId)
    → Unique m.sub_list
    → let (m', added) = add_serreqst m r in
      (added ≡ not (contains r.reply_id r.destination m.sub_list))
      × (subscription_count m' ≡ (if added then subscription_count m + 1 else subscription_count m))
      × (m'.sub_list ≡ (if added then requested_serreqst r ∷ m.sub_list else m.sub_list))
      × (m'.my_component_id ≡ (if added then r.source else m.my_component_id))
      × (contains id dest m'.sub_list
          ≡ (same_key r.reply_id r.destination id dest || contains id dest m.sub_list))
      × Unique m'.sub_list
      × (m'.dat ≡ m.dat)
unfolding add_serreqst subscription_count
add_serreqst_lem m r id dest u = ground (
  arith,
  count_from-length 0 (add_serreqst m r).0.sub_list,
  count_from-length 0 m.sub_list,
  insert-contains (requested_serreqst r) m.sub_list id dest,
)

-- Removing a subscription succeeds exactly when its key is listed, and then one entry less is
-- counted. Afterwards the key is not listed, every other key is listed as before, and no key twice.
pub remove_subscription_lem :
    (m : SubscriptionManager) (d : SdmDeletesub) (id : MessageId) (dest : ComponentId)
    → Unique m.sub_list
    → let (m', found) = remove_subscription m d in
      (found ≡ contains d.msg_id d.destination m.sub_list)
      × (subscription_count m
          ≡ (if found then subscription_count m' + 1 else subscription_count m'))
      × (contains id dest m'.sub_list
          ≡ (not (same_key d.msg_id d.destination id dest) && contains id dest m.sub_list))
      × Unique m'.sub_list
unfolding remove_subscription subscription_count
remove_subscription_lem m d id dest u = ground (
  arith,
  unlink_found d.msg_id d.destination m.sub_list,
  unlink-length d.msg_id d.destination m.sub_list,
  unlink-length_none d.msg_id d.destination m.sub_list,
  count_from-length 0 (unlink d.msg_id d.destination m.sub_list).0,
  count_from-length 0 m.sub_list,
  unlink-contains d.msg_id id d.destination dest m.sub_list u,
  unlink-Unique d.msg_id d.destination m.sub_list u,
)
