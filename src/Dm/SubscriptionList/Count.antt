-- ===== src/Dm/SubscriptionList/Count.antt =====
-- What the loops over the subscription list do, entry by entry.
use vn_sdm.Common.{
  ℕ, ◌+◌, ◌≡◌, refl, arith, ltb, if◌then◌else◌, Bool, true, false, ◌&&◌, List, [], ◌∷◌, Option,
  some, All, Bool-cases, inl, inr,
}
use vn_sdm.Dm.Subscription.{Subscription, create}
use vn_sdm.Dm.SubscriptionList.{finds, enter, cancelled, cancel_first}

-- How many entries satisfy a test.
unfoldable pub count : (Subscription → Bool) → List Subscription → ℕ
count P [] = 0
count P (s ∷ l) = if P s then count P l + 1 else count P l

-- A test that is made of every entry without an error.
abbrev pub Decides :
    (Subscription → Option Bool) → (Subscription → Bool) → List Subscription → Type 0
Decides test P l = All (λ s. test s ≡ some (P s)) l

pub finds-count :
    (test : Subscription → Option Bool) (P : Subscription → Bool) (l : List Subscription)
    → Decides test P l
    → finds test l ≡ some (ltb 0 (count P l))
unfolding finds count
finds-count test P [] d = refl
finds-count test P (s ∷ l) (e, d) = ground (arith, e, finds-count test P l d)

pub enter-count :
    (P : Subscription → Bool) (fill : Subscription → Subscription) (b : Bool)
    (l : List Subscription)
    → ((s : Subscription) → P (fill s) ≡ b)
    → ((s : Subscription) → s.in_use ≡ false → P s ≡ false)
    → count P (enter fill l) ≡ count P l + (if b then 1 else 0)
unfolding enter count
enter-count P fill b [] filled free = ground (arith, filled create)
enter-count P fill b (s ∷ l) filled free =
    ground (arith, filled s, free s, enter-count P fill b l filled free)

pub enter-All {ℓ} :
    (Q : Subscription → Type ℓ) (fill : Subscription → Subscription) (l : List Subscription)
    → ((s : Subscription) → Q (fill s))
    → All Q l
    → All Q (enter fill l)
unfolding enter
enter-All Q fill [] filled h = (filled create, tt)
enter-All Q fill (s ∷ l) filled (q, qs) = elim (Bool-cases s.in_use) [
  | inl e ↦ simp e (q, enter-All Q fill l filled qs)
  | inr e ↦ simp e (filled s, qs)
]

-- The first entry for which `T` holds, cancelled.
unfoldable pub without_first : (Subscription → Bool) → List Subscription → List Subscription
without_first T [] = []
without_first T (s ∷ l) = if T s then cancelled s ∷ l else s ∷ without_first T l

pub cancel_first-without_first :
    (test : Subscription → Option Bool) (T : Subscription → Bool) (l : List Subscription)
    → Decides test T l
    → cancel_first test l ≡ some (without_first T l)
unfolding cancel_first without_first
cancel_first-without_first test T [] d = refl
cancel_first-without_first test T (s ∷ l) (e, d) =
    ground (arith, e, cancel_first-without_first test T l d)

-- An entry for which `T` holds counts for `P` as `b` says.
pub without_first-count :
    (T P : Subscription → Bool) (b : Bool) (l : List Subscription)
    → ((s : Subscription) → T s ≡ true → P s ≡ b)
    → ((s : Subscription) → P (cancelled s) ≡ false)
    → count P (without_first T l) + (if b && ltb 0 (count T l) then 1 else 0) ≡ count P l
unfolding without_first count
without_first-count T P b [] same gone = ground arith
without_first-count T P b (s ∷ l) same gone =
    ground (arith, same s, gone s, without_first-count T P b l same gone)

pub without_first-All {ℓ} :
    (Q : Subscription → Type ℓ) (T : Subscription → Bool) (l : List Subscription)
    → ((s : Subscription) → Q (cancelled s))
    → All Q l
    → All Q (without_first T l)
unfolding without_first
without_first-All Q T [] gone h = tt
without_first-All Q T (s ∷ l) gone (q, qs) = elim (Bool-cases (T s)) [
  | inl e ↦ simp e (gone s, qs)
  | inr e ↦ simp e (q, without_first-All Q T l gone qs)
]
