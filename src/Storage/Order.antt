-- ===== src/Storage/Order.antt =====
-- `operator<` on the values that documents are sorted by, as an interface.
use decentralized_cloud.Base.Class.{text_beq, text_beq_iff}
use decentralized_cloud.Json.{JsonValue, num, str}
use decentralized_cloud.Base.{
  Comparable, Option, none, some, nat_beq, ◌↔◌, ◌≡◌, refl, Bool, true, false, [], ◌∷◌, Text, ltb,
  text_eq, if◌then◌else◌, arith,
}

pub record Ordered {κ} (K : Type κ) : Type κ where
  pub less : K → K → Bool
  pub less_irreflexive : (x : K) → less x x ≡ false
  pub less_trans : (x y z : K) → less x y ≡ true → less y z ≡ true → less x z ≡ true
  pub less_connected : (x y : K) → less x y ≡ false → less y x ≡ false → x ≡ y

-- `std::string::compare`: byte by byte, a prefix first.
unfoldable pub text_less : Text → Text → Bool
text_less [] [] = false
text_less [] (y ∷ ys) = true
text_less (x ∷ xs) [] = false
text_less (x ∷ xs) (y ∷ ys) =
    let rest = text_less xs ys in if ltb x y then true else if ltb y x then false else rest

pub text_less_irreflexive : (s : Text) → text_less s s ≡ false
unfolding text_less
text_less_irreflexive [] = refl
text_less_irreflexive (x ∷ xs) = ground (arith, text_less_irreflexive xs)

pub text_less_trans :
    (r s t : Text) → text_less r s ≡ true → text_less s t ≡ true → text_less r t ≡ true
unfolding text_less
text_less_trans [] [] t h k = k
text_less_trans [] (y ∷ ys) [] h k = k
text_less_trans [] (y ∷ ys) (z ∷ zs) h k = refl
text_less_trans (x ∷ xs) [] t h k = ground arith
text_less_trans (x ∷ xs) (y ∷ ys) [] h k = k
text_less_trans (x ∷ xs) (y ∷ ys) (z ∷ zs) h k = ground (arith, text_less_trans xs ys zs)

pub text_less_connected : (s t : Text) → text_less s t ≡ false → text_less t s ≡ false → s ≡ t
unfolding text_less
text_less_connected [] [] h k = refl
text_less_connected [] (y ∷ ys) h k = ground arith
text_less_connected (x ∷ xs) [] h k = ground arith
text_less_connected (x ∷ xs) (y ∷ ys) h k = ground (arith, text_less_connected xs ys)

instance abbrev pub text_ordered : Ordered Text
text_ordered = record {
  less = text_less;
  less_irreflexive = text_less_irreflexive;
  less_trans = text_less_trans;
  less_connected = text_less_connected;
}

-- `operator==` and `operator<` on JSON values: null, then numbers, then texts.
unfoldable pub json_beq : Option JsonValue → Option JsonValue → Bool
unfolding text_beq
json_beq none none = true
json_beq (some (num m)) (some (num n)) = nat_beq m n
json_beq (some (str s)) (some (str t)) = text_beq s t
json_beq x y = false

unfoldable pub json_less : Option JsonValue → Option JsonValue → Bool
unfolding text_less
json_less none none = false
json_less none (some y) = true
json_less (some x) none = false
json_less (some (num m)) (some (num n)) = ltb m n
json_less (some (num m)) (some (str t)) = true
json_less (some (str s)) (some (num n)) = false
json_less (some (str s)) (some (str t)) = text_less s t

pub json_beq_iff : (x y : Option JsonValue) → (json_beq x y ≡ true) ↔ (x ≡ y)
unfolding json_beq
json_beq_iff none none = ground arith
json_beq_iff none (some (num n)) = ground arith
json_beq_iff none (some (str t)) = ground arith
json_beq_iff (some (num m)) none = ground arith
json_beq_iff (some (str s)) none = ground arith
json_beq_iff (some (num m)) (some (num n)) = ground arith
json_beq_iff (some (num m)) (some (str t)) = ground arith
json_beq_iff (some (str s)) (some (num n)) = ground arith
json_beq_iff (some (str s)) (some (str t)) = ground (arith, text_beq_iff s t)

pub json_less_irreflexive : (x : Option JsonValue) → json_less x x ≡ false
unfolding json_less
json_less_irreflexive none = refl
json_less_irreflexive (some (num n)) = ground arith
json_less_irreflexive (some (str s)) = text_less_irreflexive s

pub json_less_trans :
    (x y z : Option JsonValue) → json_less x y ≡ true → json_less y z ≡ true → json_less x z ≡ true
unfolding json_less
json_less_trans none none none h k = h
json_less_trans none (some y) none h k = k
json_less_trans none none (some z) h k = refl
json_less_trans none (some y) (some z) h k = refl
json_less_trans (some x) none z h k = ground arith
json_less_trans (some x) (some y) none h k = ground arith
json_less_trans (some (num l)) (some (num m)) (some (num n)) h k = ground arith
json_less_trans (some (num l)) (some y) (some (str t)) h k = refl
json_less_trans (some (num l)) (some (str s)) (some (num n)) h k = ground arith
json_less_trans (some (str r)) (some (num m)) (some z) h k = ground arith
json_less_trans (some (str r)) (some (str s)) (some (num n)) h k = ground arith
json_less_trans (some (str r)) (some (str s)) (some (str t)) h k = text_less_trans r s t h k

pub json_less_connected :
    (x y : Option JsonValue) → json_less x y ≡ false → json_less y x ≡ false → x ≡ y
unfolding json_less
json_less_connected none none h k = refl
json_less_connected none (some y) h k = ground arith
json_less_connected (some x) none h k = ground arith
json_less_connected (some (num m)) (some (num n)) h k = ground arith
json_less_connected (some (num m)) (some (str t)) h k = ground arith
json_less_connected (some (str s)) (some (num n)) h k = ground arith
json_less_connected (some (str s)) (some (str t)) h k = ground (arith, text_less_connected s t)

instance abbrev pub json_eq : Comparable (Option JsonValue)
json_eq = record { equals = json_beq; equals_iff = json_beq_iff }

instance abbrev pub json_ordered : Ordered (Option JsonValue)
json_ordered = record {
  less = json_less;
  less_irreflexive = json_less_irreflexive;
  less_trans = json_less_trans;
  less_connected = json_less_connected;
}
