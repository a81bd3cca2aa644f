-- ===== src/Wire/Numbers.antt =====
-- Numbers that are written by `std::to_string` and read back by `atoi`, `std::stoi` and `std::stoll`.
use decentralized_cloud.Base.{ℕ, suc, ◌^◌, ◌<◌, ◌≡◌, some, true, false, [], ◌∷◌, Text, arith}
use decentralized_cloud.Base.Decimal.{
  is_digit, skip_spaces, to_string, put_digits, put_digits_head, read_digits,
  read_digits-put_digits,
}
use decentralized_cloud.Wire.Inbox.{leading, read_sign, atoi_char, stoll}
use decentralized_cloud.Wire.Packing.{stoi}

-- A text that begins with the digits of a number.
pub record Reads (t : Text) (n : ℕ) : Type 0 where
  pub no_space : skip_spaces t ≡ t
  pub no_sign : read_sign t ≡ (false, t)
  pub number : leading t ≡ some n

digits-Reads :
    (c : ℕ) (s : Text) (n : ℕ) → is_digit c ≡ true → read_digits 0 (c ∷ s) ≡ n → Reads (c ∷ s) n
unfolding skip_spaces read_sign leading
digits-Reads c s n d e = record {
  no_space = ground arith;
  no_sign = ground arith;
  number = ground arith;
}

printed-Reads :
    (t : Text) (c : ℕ) (s : Text) (n : ℕ)
    → t ≡ c ∷ s
    → is_digit c ≡ true
    → read_digits 0 t ≡ n
    → Reads t n
printed-Reads t c s n e d r = rw e (digits-Reads c s n d (rw e at r))

to_string-Reads : (n : ℕ) → Reads (to_string n) n
unfolding to_string read_digits
to_string-Reads n =
    let (c, s, e, d) = put_digits_head (suc n) n [] (omega arith) in
    printed-Reads (put_digits (suc n) n []) c s n e d
      (read_digits-put_digits (suc n) n [] (omega arith))

pub stoi-to_string : (n : ℕ) → n < 2 ^ 31 → stoi (to_string n) ≡ some (false, n)
unfolding stoi
stoi-to_string n small =
    let r = to_string-Reads n in ground (arith, r.no_space, r.no_sign, r.number)

pub stoll-to_string : (n : ℕ) → n < 2 ^ 63 → stoll (to_string n) ≡ some (false, n)
unfolding stoll
stoll-to_string n small =
    let r = to_string-Reads n in ground (arith, r.no_space, r.no_sign, r.number)

pub atoi_char-to_string : (n : ℕ) → n < 256 → atoi_char (to_string n) ≡ n
unfolding atoi_char
atoi_char-to_string n small =
    let r = to_string-Reads n in ground (arith, r.no_space, r.no_sign, r.number)
