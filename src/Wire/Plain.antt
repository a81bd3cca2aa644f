-- ===== src/Wire/Plain.antt =====
-- Texts that are sent as they are.
use decentralized_cloud.Base.{
  ℕ, zero, suc, ◌+◌, ◌/◌, ◌%◌, ◌≡◌, refl, true, false, ◌||◌, [], ◌∷◌, ◌++◌, Text, text_eq, ltb,
  arith,
}
use decentralized_cloud.Base.Decimal.{to_string, put_digits}
use decentralized_cloud.Wire.{remove_null_terminators}
use decentralized_cloud.Wire.Escapes.{has_char, escaped}

-- No delimiter, no percent sign and no zero.
pub record Plain (t : Text) : Type 0 where
  pub colon : has_char b':' t ≡ false
  pub bar : has_char b'|' t ≡ false
  pub percent : has_char b'%' t ≡ false
  pub null : has_char 0 t ≡ false

-- A field that comes through: a plain key, and a value without a percent sign and a zero.
abbrev pub Sendable : Text × Text → Type 0
Sendable (key, value) = Plain key × (has_char b'%' value ≡ false) × (has_char 0 value ≡ false)

pub has_char-append : (c : ℕ) (s t : Text) → has_char c (s ++ t) ≡ has_char c s || has_char c t
has_char-append c [] t = refl
has_char-append c (d ∷ s) t = ground (arith, has_char-append c s t)

pub put_digits-has_char :
    (c fuel n : ℕ) (rest : Text)
    → ltb c 48 || ltb 57 c ≡ true
    → has_char c rest ≡ false
    → has_char c (put_digits fuel n rest) ≡ false
unfolding put_digits
put_digits-has_char c zero n rest other h = h
put_digits-has_char c (suc fuel) n rest other h =
    ground (arith, put_digits-has_char c fuel (n / 10) ((48 + n % 10) ∷ rest) other)

pub to_string-Plain : (n : ℕ) → Plain (to_string n)
unfolding to_string
to_string-Plain n = record {
  colon = put_digits-has_char b':' (suc n) n [] refl refl;
  bar = put_digits-has_char b'|' (suc n) n [] refl refl;
  percent = put_digits-has_char b'%' (suc n) n [] refl refl;
  null = put_digits-has_char 0 (suc n) n [] refl refl;
}

pub literal :
    {t : Text}
    → has_char b':' t ≡ false
    → has_char b'|' t ≡ false
    → has_char b'%' t ≡ false
    → has_char 0 t ≡ false
    → Plain t
literal c b p n = record { colon = c; bar = b; percent = p; null = n }

pub Plain-Sendable : (key value : Text) → Plain key → Plain value → Sendable (key, value)
Plain-Sendable key value k v = (k, v.percent, v.null)

pub escaped-plain : (v : Text) → has_char b':' v ≡ false → has_char b'|' v ≡ false → escaped v ≡ v
escaped-plain [] c b = refl
escaped-plain (d ∷ v) c b = ground (arith, escaped-plain v)

pub escaped-null : (v : Text) → has_char 0 v ≡ false → has_char 0 (escaped v) ≡ false
escaped-null [] h = refl
escaped-null (c ∷ v) h = ground (arith, escaped-null v)

pub remove_null_terminators-same : (t : Text) → has_char 0 t ≡ false → remove_null_terminators t ≡ t
unfolding remove_null_terminators
remove_null_terminators-same [] h = refl
remove_null_terminators-same (c ∷ t) h = ground (arith, remove_null_terminators-same t)
