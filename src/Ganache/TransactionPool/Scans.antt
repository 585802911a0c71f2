-- ===== src/Ganache/TransactionPool/Scans.antt =====
-- A replacement in place keeps the nonces of a heap: transaction-pool.ts of ganache-7.4.4.
use moola_fix.Common.{
  ℕ, zero, suc, ◌+◌, ◌≡◌, refl, sym, ap, ◌∙◌, inl, inr, Bool, true, false, Option, none, some, List,
  ok, >>=-eq-ok, ok-injective, max, ◌==◌, Bool-cases, ==_iff,
}
use moola_fix.Ganache.Heap.{Heap, at, assign}
use moola_fix.Ganache.Heap.Arrays.{at-assign}
use moola_fix.Ganache.Heap.Order.{parent}
use moola_fix.Ganache.TransactionPool.Types.{
  TypedTransaction, number_of, nonce_of, same_nonce, should_replace,
}
use moola_fix.Ganache.TransactionPool.{Scan, scan_loop}
use moola_fix.Ganache.TransactionPool.Drain.{Ordered}

module _ (undefined : TypedTransaction) where
  abbrev pub SameNonces : List TypedTransaction → List TypedTransaction → Type 0
  SameNonces array array' =
      (j : ℕ) → nonce_of (at undefined array' j) ≡ nonce_of (at undefined array j)

  same_nonce-eq :
      (nonce old : Option ℕ) → same_nonce nonce old ≡ true → number_of nonce ≡ number_of old
  same_nonce-eq none old h = cc
  same_nonce-eq (some m) none h = cc
  same_nonce-eq (some m) (some n) h = sym ((==_iff n m).0 h)

  -- What replaces a transaction has its nonce.
  replaces-nonce :
      (old tx : TypedTransaction) (price_bump : ℕ)
      → should_replace old tx.nonce tx price_bump ≡ ok true
      → nonce_of tx ≡ nonce_of old
  unfolding should_replace
  replaces-nonce old tx price_bump h = elim (Bool-cases (same_nonce tx.nonce old.nonce)) [
    | inr other ↦ cc (rw (other, should_replace) at h)
    | inl same ↦ same_nonce-eq tx.nonce old.nonce same
  ]

  module _ (i highest : ℕ) (tx : TypedTransaction) (price_bump : ℕ) (array : List TypedTransaction)
      (s : Scan undefined) where
    -- What follows the test of one transaction.
    scan_rest :
        (rounds : ℕ) (replaces : Bool)
        → should_replace (at undefined array i) tx.nonce tx price_bump ≡ ok replaces
        → (scan_loop undefined rounds
                (i + 1)
                (max highest (nonce_of (at undefined array i)))
                tx
                price_bump
                array
              ≡ ok s
            → SameNonces array s.scanned)
        → (elim replaces [
          | true ↦ ok (record {
            scanned = assign undefined array i tx;
            highest_nonce = highest;
            replaced = some (at undefined array i);
          })
          | false ↦
              scan_loop undefined rounds
                (i + 1)
                (max highest (nonce_of (at undefined array i)))
                tx
                price_bump
                array
        ])
          ≡ ok s
        → SameNonces array s.scanned
    scan_rest rounds false tested rest h j = rest h j
    scan_rest rounds true tested rest h j =
        let same = replaces-nonce (at undefined array i) tx price_bump tested in
        let assigned : assign undefined array i tx ≡ s.scanned =
          ap (λ r. r.scanned) (ok-injective _ s h) in
        rw (← assigned, at-assign undefined array i j tx)
          (elim (Bool-cases (i == j)) [
            | inl here ↦
                rw here (same ∙ ap (λ k. nonce_of (at undefined array k)) ((==_iff i j).0 here))
            | inr elsewhere ↦ rw elsewhere refl
          ])

  pub scan_loop-SameNonces :
      (rounds i highest : ℕ) (tx : TypedTransaction) (price_bump : ℕ)
      (array : List TypedTransaction) (s : Scan undefined)
      → scan_loop undefined rounds i highest tx price_bump array ≡ ok s
      → SameNonces array s.scanned
  unfolding scan_loop
  scan_loop-SameNonces zero i highest tx price_bump array s h j =
      ap (λ r. nonce_of (at undefined r.scanned j)) (sym (ok-injective _ s h))
  scan_loop-SameNonces (suc rounds) i highest tx price_bump array s h j =
      let (replaces, tested, rest) =
        >>=-eq-ok (should_replace (at undefined array i) tx.nonce tx price_bump) _ h in
      scan_rest i highest tx price_bump array s rounds replaces tested
        (scan_loop-SameNonces rounds (i + 1) (max highest (nonce_of (at undefined array i))) tx
          price_bump array s)
        rest j

  pub Ordered-SameNonces :
      (heap : Heap TypedTransaction) (array : List TypedTransaction)
      → SameNonces heap.array array
      → Ordered undefined heap
      → Ordered undefined (record heap { array = array })
  Ordered-SameNonces heap array same h c pos inside = rw (same c, same (parent c)) (h c pos inside)
