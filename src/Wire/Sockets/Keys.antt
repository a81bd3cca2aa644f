-- ===== src/Wire/Sockets/Keys.antt =====
-- The keys of the connections of BlockChainCommon/webSocketServer.cpp, of which none is there twice.
use decentralized_cloud.Base.{
  ◌≡◌, refl, Bool, true, false, none, some, [], ◌∷◌, Text, text_eq, ◌==◌, is_empty, if◌then◌else◌,
  arith,
}
use decentralized_cloud.Base.Class.{==_iff}
use decentralized_cloud.Base.Dict.{Dict, find, insert, erase, find-insert}
use decentralized_cloud.Wire.Sockets.{get_key_from_hdl}

-- No key stands there twice.
unfoldable pub Distinct {κ} : {H : Type κ} → Dict Text H → Type κ
unfolding find
Distinct [] = Unit
Distinct ((key, h) ∷ m) = (find key m ≡ none) × Distinct m

get_key_from_hdl-absent {κ} :
    {H : Type κ} (same : H → H → Bool) (k : Text) (b : H) (m : Dict Text H)
    → is_empty k ≡ false
    → find k m ≡ none
    → (get_key_from_hdl same b m == k) ≡ false
unfolding find get_key_from_hdl
get_key_from_hdl-absent same [] b m filled absent = absurd (cc)
get_key_from_hdl-absent same (c ∷ k) b [] filled absent = ground (arith, ==_iff [] (c ∷ k))
get_key_from_hdl-absent same (c ∷ k) b ((j, h) ∷ m) filled absent =
    ground (arith, ==_iff j (c ∷ k), get_key_from_hdl-absent same (c ∷ k) b m filled)

-- The key of `a` is not that of a connection that is none with `a`.
pub get_key_from_hdl-other {κ} :
    {H : Type κ} (same : H → H → Bool) (k : Text) (a b : H) (m : Dict Text H)
    → is_empty k ≡ false
    → same a b ≡ false
    → Distinct m
    → find k m ≡ some a
    → (get_key_from_hdl same b m == k) ≡ false
unfolding find get_key_from_hdl Distinct
get_key_from_hdl-other same k a b [] filled apart distinct known = ground arith
get_key_from_hdl-other same k a b ((j, h) ∷ m) filled apart (fresh, distinct) known = ground (
  arith,
  ==_iff j k,
  get_key_from_hdl-other same k a b m filled apart distinct,
  get_key_from_hdl-absent same k b m filled,
)

if-Distinct {κ} :
    {H : Type κ} (b : Bool) (x y : Dict Text H)
    → (b ≡ true → Distinct x)
    → (b ≡ false → Distinct y)
    → Distinct (if b then x else y)
if-Distinct true x y first second = first refl
if-Distinct false x y first second = second refl

pub insert-Distinct {κ} :
    {H : Type κ} (k : Text) (h : H) (m : Dict Text H) → Distinct m → Distinct (insert k h m)
unfolding insert Distinct find
insert-Distinct k h [] distinct = (refl, tt)
insert-Distinct k h ((j, g) ∷ m) (fresh, distinct) =
    if-Distinct (j == k) ((j, g) ∷ m) ((j, g) ∷ insert k h m) (λ _. (fresh, distinct))
      (λ apart. (
        ground (arith, find-insert k j h m, ==_iff k j, ==_iff j k),
        insert-Distinct k h m distinct,
      ))

erase_missing {κ} :
    {H : Type κ} (k j : Text) (m : Dict Text H) → find j m ≡ none → find j (erase k m) ≡ none
unfolding find erase
erase_missing k j [] absent = refl
erase_missing k j ((i, h) ∷ m) absent = ground (arith, ==_iff i j, erase_missing k j m)

pub erase-Distinct {κ} :
    {H : Type κ} (k : Text) (m : Dict Text H) → Distinct m → Distinct (erase k m)
unfolding erase Distinct
erase-Distinct k [] distinct = tt
erase-Distinct k ((j, g) ∷ m) (fresh, distinct) =
    if-Distinct (j == k) m ((j, g) ∷ erase k m) (λ _. distinct)
      (λ _. (erase_missing k j m fresh, erase-Distinct k m distinct))
