-- ===== src/Server/Transactions/Closing.antt =====
-- What `respond` and `cancel` of src/pkg/server/server.go do to the table of transactions.
use doozer.Common.{
  ◌/◌, ◌%◌, ◌==◌, ==_iff, Bool-cases, true, ◌⊎◌, inl, inr, arith, ℕ, ℤ, eqb_ℤ, eqb_ℤ_iff, Bool,
  false, List, [], none, some, In, here, lookup, lookup-inserted, lookup-erase, int_key, if_cases,
  if◌then◌else◌, ◌≡◌, ◌≢◌, refl, ap, ◌∙◌,
}
use doozer.Server.Request.{cancel, T, R, Reply, done_flag}
use doozer.Server.Transactions
use doozer.Server.Transactions.{
  Txn, Serving, tag_of, closing, close_txn, respond, serve, start_cancel, finish_cancel,
}

-- What `respond` leaves in the table and in the closed channels is what `close_txn` leaves, for a last
-- response, whether it is written or not.
Closes : Serving → T → Serving × List Reply → Type 0
Closes s t q = (q.0.tx ≡ (close_txn (tag_of t) s).tx) × (q.0.done ≡ (close_txn (tag_of t) s).done)

respond-Closes :
    (s : Serving) (t : T) (flag : ℕ) (r : R) (written : Bool)
    → (flag / done_flag % 2 == 1) ≡ true
    → Closes s t (respond s t flag r written)
unfolding respond Closes
respond-Closes s t flag r written last = rw last (
    if_cases (Closes s t) s.poisoned (λ _. (refl, refl))
      (λ _. if_cases (Closes s t) written (λ _. (refl, refl)) (λ _. (refl, refl))))

respond-more :
    (s : Serving) (t : T) (flag : ℕ) (r : R) (written : Bool)
    → (flag / done_flag % 2 == 1) ≡ false
    → ((respond s t flag r written).0.tx ≡ s.tx) × ((respond s t flag r written).0.done ≡ s.done)
unfolding respond
respond-more s t flag r written more = rw more (
    if_cases Keeps s.poisoned (λ _. (refl, refl))
      (λ _. if_cases Keeps written (λ _. (refl, refl)) (λ _. (refl, refl))))
  where
    Keeps : Serving × List Reply → Type 0
    Keeps q = (q.0.tx ≡ s.tx) × (q.0.done ≡ s.done)

closed-by :
    (s : Serving) (t : T) (x : Txn) (other : ℤ) (q : Serving × List Reply)
    → lookup (tag_of t) s.tx ≡ some x
    → tag_of t ≢ other
    → Closes s t q
    → In x.id q.0.done
      × ((lookup (tag_of t) q.0.tx ≡ none) × (lookup other q.0.tx ≡ lookup other s.tx))
unfolding close_txn Closes
closed-by s t x other q e n (p, d) = (
  rw (d, e) here,
  (
    ap (λ m. lookup (tag_of t) m) p ∙ (lookup-erase (tag_of t) (tag_of t) s.tx ∙ same),
    ap (λ m. lookup other m) p ∙ (lookup-erase (tag_of t) other s.tx ∙ apart),
  ),
)
  where
    same : (if eqb_ℤ (tag_of t) (tag_of t) then none else lookup (tag_of t) s.tx) ≡ none
    same = rw ((eqb_ℤ_iff (tag_of t) (tag_of t)).1 refl) refl

    apart : (if eqb_ℤ (tag_of t) other then none else lookup other s.tx) ≡ lookup other s.tx
    apart =
        if_cases (λ o. o ≡ lookup other s.tx) (eqb_ℤ (tag_of t) other)
          (λ f. absurd (n ((eqb_ℤ_iff (tag_of t) other).0 f))) (λ f. refl)

-- A response whose flags have the bit Done, with Valid or without, takes the transaction of its request
-- out of the table and closes its channel, on a connection that is poisoned too and when the
-- response is not written; the transaction of every other tag stays. A response whose flags do not
-- have that bit leaves the table and the channels as they are.
pub respond-closes :
    (s : Serving) (t : T) (flag : ℕ) (r : R) (written : Bool) (x : Txn) (other : ℤ)
    → lookup (tag_of t) s.tx ≡ some x
    → tag_of t ≢ other
    → ((flag / done_flag % 2 ≡ 1)
        × (In x.id (respond s t flag r written).0.done
            × ((lookup (tag_of t) (respond s t flag r written).0.tx ≡ none)
                × (lookup other (respond s t flag r written).0.tx ≡ lookup other s.tx))))
      ⊎ ((flag / done_flag % 2 ≡ 0)
          × (((respond s t flag r written).0.tx ≡ s.tx)
              × ((respond s t flag r written).0.done ≡ s.done)))
respond-closes s t flag r written x other e n = elim (Bool-cases (flag / done_flag % 2 == 1)) [
  | inl k ↦ inl (
    (==_iff (flag / done_flag % 2) 1).0 k,
    closed-by s t x other (respond s t flag r written) e n (respond-Closes s t flag r written k),
  )
  | inr k ↦ inr (ground (arith, k), respond-more s t flag r written k)
]

-- A request to cancel that names its own tag gets no reply and waits for the transaction that was made
-- for it, which is the one that is in the table under its tag.
pub serve-cancel_own :
    (s : Serving) (t : T) (id : ℕ) (written : Bool)
    → ((Transactions.cancel (serve s cancel t id written).0 t t.tag written).1 ≡ ([], some id))
      × (lookup (tag_of t) (serve s cancel t id written).0.tx
          ≡ some (record { id = id; cancelled = false }))
unfolding Transactions.cancel serve start_cancel
serve-cancel_own s t id written =
    let e = lookup-inserted (tag_of t) (record { id = id; cancelled = false }) s.tx in
    (rw e refl, e)
