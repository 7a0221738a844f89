-- ===== src/Dm/ProviderSubscriptionList/Laws.antt =====
-- What is cancelled when a component is gone, and what stays.
use vn_sdm.Common.{ℕ, ◌+◌, ◌≡◌, arith, if◌then◌else◌, Bool, true, false, ◌&&◌, List, [], ◌∷◌}
use vn_sdm.ComponentId
use vn_sdm.ComponentId.{ComponentId}
use vn_sdm.MessageId
use vn_sdm.MessageId.{MessageId}
use vn_sdm.Message.SdmDeletesub.{SdmDeletesub}
use vn_sdm.Dm.ProviderSubscriptionList.{
  ProviderSubscription, add_node, add, unlink, delete, same_host, deletesubs, belongs_to,
  subscriber_finish, provider_finish,
}

-- How often a triple stands in the list.
abbrev pub equal_entry : ProviderSubscription → ProviderSubscription → Bool
equal_entry a b =
    ComponentId.equal a.provider b.provider
    && (ComponentId.equal a.subscriber b.subscriber && MessageId.equal a.message b.message)

abbrev pub occurs : ProviderSubscription → List ProviderSubscription → ℕ
occurs e [] = 0
occurs e (x ∷ l) = if equal_entry e x then occurs e l + 1 else occurs e l

-- How often the message that cancels a triple is sent.
abbrev pub cancelled : ProviderSubscription → List SdmDeletesub → ℕ
cancelled e [] = 0
cancelled e (d ∷ l) =
    if equal_entry e
      (record { provider = d.source; subscriber = d.destination; message = d.msg_id })
    then cancelled e l + 1
    else cancelled e l

occurs-add_node :
    (e n : ProviderSubscription) (l : List ProviderSubscription)
    → occurs e (add_node l n) ≡ (if equal_entry e n then occurs e l + 1 else occurs e l)
unfolding add_node
occurs-add_node e n [] = ground arith
occurs-add_node e n (x ∷ l) = ground (arith, occurs-add_node e n l)

-- A test that does not tell equal entries apart.
occurs-unlink :
    (test : ProviderSubscription → Bool) (e : ProviderSubscription) (l : List ProviderSubscription)
    → ((x : ProviderSubscription) → equal_entry e x ≡ true → test x ≡ test e)
    → occurs e (unlink test l) ≡ (if test e then 0 else occurs e l)
unfolding unlink
occurs-unlink test e [] same = ground arith
occurs-unlink test e (x ∷ l) same = ground (arith, same x, occurs-unlink test e l same)

belongs_to-congr :
    (comp : ComponentId) (use_provider : Bool) (e x : ProviderSubscription)
    → equal_entry e x ≡ true
    → belongs_to comp use_provider x ≡ belongs_to comp use_provider e
unfolding belongs_to same_host ComponentId.equal
belongs_to-congr comp use_provider e x h = ground arith

key-congr :
    (subscriber : ComponentId) (message : MessageId) (e x : ProviderSubscription)
    → equal_entry e x ≡ true
    → (ComponentId.equal x.subscriber subscriber && MessageId.equal x.message message)
      ≡ (ComponentId.equal e.subscriber subscriber && MessageId.equal e.message message)
unfolding ComponentId.equal MessageId.equal
key-congr subscriber message e x h = ground arith

same_host-congr :
    (subscriber : ComponentId) (e x : ProviderSubscription)
    → equal_entry e x ≡ true
    → same_host subscriber x.subscriber ≡ same_host subscriber e.subscriber
unfolding same_host ComponentId.equal
same_host-congr subscriber e x h = ground arith

cancelled-deletesubs :
    (subscriber : ComponentId) (e : ProviderSubscription) (l : List ProviderSubscription)
    → cancelled e (deletesubs subscriber l)
      ≡ (if same_host subscriber e.subscriber then occurs e l else 0)
unfolding deletesubs
cancelled-deletesubs subscriber e [] = ground arith
cancelled-deletesubs subscriber e (x ∷ l) =
    ground (arith, same_host-congr subscriber e x, cancelled-deletesubs subscriber e l)

same_host_comm : (a b : ComponentId) → same_host a b ≡ same_host b a
unfolding same_host
same_host_comm a b = ground arith

belongs_to_subscriber :
    (comp : ComponentId) (e : ProviderSubscription)
    → belongs_to comp false e ≡ same_host e.subscriber comp
unfolding belongs_to
belongs_to_subscriber comp e = ground arith

belongs_to_provider :
    (comp : ComponentId) (e : ProviderSubscription)
    → belongs_to comp true e ≡ ComponentId.equal e.provider comp
unfolding belongs_to
belongs_to_provider comp e = ground arith

-- When a subscriber is gone, every entry is either kept as often as it stood in the list, with no
-- message, or removed with one message to its provider for each time that it stood there: removed are
-- those whose subscriber has the address and port of the one that is gone.
pub subscriber_finish_lem :
    (l : List ProviderSubscription) (comp : ComponentId) (e : ProviderSubscription)
    → let (kept, sent) = subscriber_finish l comp in
      (occurs e kept ≡ (if same_host e.subscriber comp then 0 else occurs e l))
      × (cancelled e sent ≡ (if same_host e.subscriber comp then occurs e l else 0))
unfolding subscriber_finish
subscriber_finish_lem l comp e = ground (
  arith,
  occurs-unlink (belongs_to comp false) e l (belongs_to-congr comp false e),
  belongs_to_subscriber comp e,
  same_host_comm e.subscriber comp,
  cancelled-deletesubs comp e l,
)

-- The list as a bag: adding puts one entry more, Delete removes those of the subscriber and the
-- message, ProviderFinish those of the provider, and each leaves the others as they were.
pub add_delete_lem :
    (l : List ProviderSubscription) (p s : ComponentId) (m : MessageId) (e : ProviderSubscription)
    → (occurs e (add l p s m) ≡ (
        if equal_entry e (record { provider = p; subscriber = s; message = m })
        then occurs e l + 1
        else occurs e l))
      × (occurs e (delete l s m) ≡ (
          if ComponentId.equal e.subscriber s && MessageId.equal e.message m
          then 0
          else occurs e l))
      × (occurs e (provider_finish l p)
          ≡ (if ComponentId.equal e.provider p then 0 else occurs e l))
unfolding add delete provider_finish
add_delete_lem l p s m e = (
  occurs-add_node e (record { provider = p; subscriber = s; message = m }) l,
  occurs-unlink _ e l (key-congr s m e),
  ground (
    arith,
    occurs-unlink (belongs_to p true) e l (belongs_to-congr p true e),
    belongs_to_provider p e,
  ),
)
