-- ===== src/Transaction/Votes.antt =====
-- How verification results add up on one transaction (`verifyHash`, `isVerified`).
use decentralized_cloud.Base.{
  ℕ, ◌+◌, ◌≡◌, refl, true, false, List, [], ◌∷◌, Text, text_eq, ◌==◌, ==_iff, leb, is_empty,
  if◌then◌else◌, arith,
}
use decentralized_cloud.Base.Outcome.{object_of}
use decentralized_cloud.Transaction.{
  Transaction, majority_threshold, set_output, verify_hash, is_verified, originate, early,
}
use decentralized_cloud.Transaction.Codec.{from_json, to_json, merged, from_json-to_json}

-- The results of a list of messages, in the order of arrival.
unfoldable pub verify_all : List Text → Transaction → Transaction
verify_all [] tx = tx
verify_all (h ∷ hs) tx = verify_all hs (verify_hash h tx).0

-- How often a hash was reported.
abbrev pub count : Text → List Text → ℕ
count h [] = 0
count h (g ∷ gs) = if g == h then count h gs + 1 else count h gs

-- Once a hash stands, exactly the reports of that hash are counted, and nothing else changes.
verify_all_standing :
    (hs : List Text) (tx : Transaction)
    → is_empty tx.last_valid_hash ≡ false
    → verify_all hs tx
      ≡ record tx { total_verified = tx.total_verified + count tx.last_valid_hash hs }
unfolding verify_all verify_hash
verify_all_standing [] tx e = ground arith
verify_all_standing (h ∷ hs) tx e = ground (
  arith,
  ==_iff h tx.last_valid_hash,
  verify_all_standing hs tx,
  verify_all_standing hs (record tx { total_verified = tx.total_verified + 1 }),
)

-- Where no hash stands yet, the first report sets it and the reports equal to it are counted.
verify_all_first :
    (h : Text) (hs : List Text) (tx : Transaction)
    → is_empty h ≡ false
    → is_empty tx.last_valid_hash ≡ true
    → (verify_all (h ∷ hs) tx).total_verified ≡ tx.total_verified + count h (h ∷ hs)
unfolding verify_all verify_hash
verify_all_first h hs tx ne e = ground (
  arith,
  ==_iff h h,
  verify_all_standing hs (record tx { last_valid_hash = h; total_verified = tx.total_verified + 1 })
      ne,
)

verify_all_flags :
    (hs : List Text) (tx : Transaction)
    → let tx' = verify_all hs tx in
      (tx'.received_full_transaction ≡ tx.received_full_transaction)
      × (tx'.received_output ≡ tx.received_output)
unfolding verify_all verify_hash
verify_all_flags [] tx = (refl, refl)
verify_all_flags (h ∷ hs) tx = ground (arith, verify_all_flags hs (verify_hash h tx).0)

-- On the Master Node that took a request: when reports have come in, the first of them a hash `h`
-- that is not empty, and the output is known, the transaction is verified exactly when `h` was
-- reported at least 14 times, two thirds of 21.
pub is_verified-majority :
    (id h out : Text) (now : ℕ) (hs : List Text)
    → is_empty h ≡ false
    → is_verified (set_output out (verify_all (h ∷ hs) (originate id now)))
      ≡ leb majority_threshold (count h (h ∷ hs))
unfolding is_verified set_output originate
is_verified-majority id h out now hs ne = ground (
  arith,
  verify_all_first h hs (originate id now) ne,
  verify_all_flags (h ∷ hs) (originate id now),
)

-- Reports `gs` of an unknown transaction, the notification `sent`, and then reports `hs`.
abbrev pub notified_between : Text → Text → ℕ → List Text → Transaction → List Text → Transaction
notified_between id g now gs sent hs =
    verify_all hs (object_of (from_json (to_json sent) (verify_all gs (early id g now))))

-- A notification that arrives late overwrites the hash that stands by the sender's, which is empty on
-- a new transaction, and keeps the count: reports of `g` before it and of any other `h` after it are
-- added up, whether or not the two hashes are equal.
pub from_json-mixes_hashes :
    (id g h : Text) (now : ℕ) (gs hs : List Text) (sent : Transaction)
    → is_empty g ≡ false
    → is_empty h ≡ false
    → is_empty sent.last_valid_hash ≡ true
    → (notified_between id g now (g ∷ gs) sent (h ∷ hs)).total_verified
      ≡ count g (g ∷ gs) + count h (h ∷ hs)
unfolding early
from_json-mixes_hashes id g h now gs hs sent ng nh e =
    let before = verify_all (g ∷ gs) (early id g now) in
    rw (from_json-to_json sent before) (
      ground (
        arith,
        verify_all_standing (g ∷ gs) (early id g now) ng,
        verify_all_first h hs (merged sent before) nh e,
      ))
