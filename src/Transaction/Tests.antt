-- ===== src/Transaction/Tests.antt =====
-- Transactions on concrete values.
use decentralized_cloud.Base.{◌≡◌, refl, true, List, [], ◌∷◌, Text, text_eq, codes}
use decentralized_cloud.Base.Class.{text_beq}
use decentralized_cloud.Base.Outcome.{ok}
use decentralized_cloud.Transaction.{Transaction, originate, early, set_output, is_verified}
use decentralized_cloud.Transaction.Codec.{to_json, from_json, merged, from_json-to_json}
use decentralized_cloud.Transaction.Votes.{
  verify_all, notified_between, is_verified-majority, from_json-mixes_hashes,
}

abbrev a_hash : Text
a_hash = codes "7f3a"

abbrev b_hash : Text
b_hash = codes "19c4"

abbrev requested : Transaction
requested = record (originate (codes "T1") 1700) { code = codes "fn"; input = codes "{}" }

abbrev reported : Transaction
reported = early (codes "T1") a_hash 1702

abbrev reports : List Text
reports =
    a_hash ∷ b_hash ∷ a_hash ∷ a_hash ∷ a_hash ∷ a_hash ∷ a_hash ∷ a_hash ∷ a_hash ∷ a_hash ∷ a_hash
    ∷ a_hash ∷ a_hash ∷ a_hash ∷ []

from_json-to_json_example : from_json (to_json requested) reported ≡ ok (merged requested reported)
from_json-to_json_example = from_json-to_json requested reported

is_verified-majority_example :
    is_verified
      (set_output (codes "42") (verify_all (a_hash ∷ reports) (originate (codes "T1") 1700)))
    ≡ true
unfolding text_beq
is_verified-majority_example =
    is_verified-majority (codes "T1") a_hash (codes "42") 1700 reports refl

from_json-mixes_hashes_example :
    let tx =
      notified_between
        (codes "T1")
        a_hash
        1702
        (a_hash ∷ a_hash ∷ [])
        requested
        (b_hash ∷ b_hash ∷ []) in
    tx.total_verified ≡ 4
unfolding originate text_beq
from_json-mixes_hashes_example =
    from_json-mixes_hashes (codes "T1") a_hash b_hash 1702 (a_hash ∷ []) (b_hash ∷ []) requested
      refl refl refl
