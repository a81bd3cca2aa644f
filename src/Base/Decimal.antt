-- ===== src/Base/Decimal.antt =====
-- `std::to_string` on unsigned numbers and `std::stoull`.
use decentralized_cloud.Base.Tests.{ltb, leb, nat_beq, if◌then◌else◌, Bool-cases}
use decentralized_cloud.Base.Class.{Text}
use Prim.Native.Nat.{ℕ, zero, suc, ◌+◌, ◌-◌, ◌*◌, ◌/◌, ◌%◌, ◌^◌, ◌<◌}
use mathlib.Core.Path.{◌≡◌}
use mathlib.Core.Logic.{inl, inr}
use mathlib.Core.Bool.{Bool, true, ◌&&◌, ◌||◌}
use mathlib.Core.Option.{Option, none, some}
use mathlib.Core.Option
use mathlib.Core.List.{[], ◌∷◌}
use native.Mathlib.Omega.{arith}

abbrev pub is_digit : ℕ → Bool
is_digit c = leb b'0' c && leb c b'9'

-- `isspace` in the C locale.
abbrev pub is_space : ℕ → Bool
is_space c = nat_beq c 32 || (leb 9 c && leb c 13)

-- Puts the digits of `n` in front of `rest`; more fuel than `n` is enough.
unfoldable pub put_digits : ℕ → ℕ → Text → Text
put_digits zero n rest = rest
put_digits (suc fuel) n rest =
    let more = put_digits fuel (n / 10) ((48 + n % 10) ∷ rest) in
    if ltb n 10 then (48 + n) ∷ rest else more

unfoldable pub to_string : ℕ → Text
unfolding put_digits
to_string n = put_digits (suc n) n []

-- The number that the leading digits continue.
unfoldable pub read_digits : ℕ → Text → ℕ
read_digits acc [] = acc
read_digits acc (c ∷ s) =
    let more = read_digits (acc * 10 + (c - 48)) s in if is_digit c then more else acc

unfoldable pub skip_spaces : Text → Text
skip_spaces [] = []
skip_spaces (c ∷ s) = let more = skip_spaces s in if is_space c then more else c ∷ s

-- Digits at the front, or the exception `invalid_argument`; `out_of_range` past 64 bits.
unfoldable read_number : Text → Option ℕ
read_number [] = none
read_number (c ∷ s) =
    if is_digit c
    then (if ltb (read_digits 0 (c ∷ s)) (2 ^ 64) then some (read_digits 0 (c ∷ s)) else none)
    else none

read_signed : Text → Option ℕ
unfolding read_number
read_signed [] = none
read_signed (c ∷ s) =
    if nat_beq c b'+'
    then read_number s
    else if nat_beq c b'-'
    then Option.map (λ n. (2 ^ 64 - n) % 2 ^ 64) (read_number s)
    else read_number (c ∷ s)

unfoldable pub stoull : Text → Option ℕ
unfolding skip_spaces read_signed
stoull s = read_signed (skip_spaces s)

-- Digits at the front up to a bound.
read_up_to : ℕ → Text → Option ℕ
read_up_to bound [] = none
read_up_to bound (c ∷ s) =
    let n = read_digits 0 (c ∷ s) in
    if is_digit c then (if leb n bound then some n else none) else none

read_long : ℕ → Text → Option ℕ
unfolding read_up_to
read_long long_max [] = none
read_long long_max (c ∷ s) =
    if nat_beq c b'+'
    then read_up_to long_max s
    else if nat_beq c b'-'
    then Option.map (λ n. (2 ^ 64 - n) % 2 ^ 64) (read_up_to (long_max + 1) s)
    else read_up_to long_max (c ∷ s)

-- `std::stol`, where the result is converted to a `size_t`.
unfoldable pub stol : ℕ → Text → Option ℕ
unfolding skip_spaces read_long
stol long_max s = read_long long_max (skip_spaces s)

pub read_digits-put_digits :
    (fuel n : ℕ) (rest : Text)
    → n < fuel
    → read_digits 0 (put_digits fuel n rest) ≡ read_digits n rest
unfolding read_digits put_digits
read_digits-put_digits zero n rest h = elim h [ ]
read_digits-put_digits (suc fuel) n rest h = elim (Bool-cases (ltb n 10)) [
  | inl one ↦ rw one (ground arith)
  | inr more ↦ rw more (ground (arith, read_digits-put_digits fuel (n / 10) ((48 + n % 10) ∷ rest)))
]

pub put_digits_head :
    (fuel n : ℕ) (rest : Text)
    → n < fuel
    → (c : ℕ) × (s : Text) × (put_digits fuel n rest ≡ c ∷ s) × (is_digit c ≡ true)
unfolding put_digits
put_digits_head zero n rest h = elim h [ ]
put_digits_head (suc fuel) n rest h = elim (Bool-cases (ltb n 10)) [
  | inl one ↦ (48 + n, rest, rw one, ground arith)
  | inr more ↦ rw more (put_digits_head fuel (n / 10) ((48 + n % 10) ∷ rest) (ground arith))
]

stoull_digits :
    (c : ℕ) (s : Text) (v : ℕ)
    → is_digit c ≡ true
    → read_digits 0 (c ∷ s) ≡ v
    → v < 2 ^ 64
    → stoull (c ∷ s) ≡ some v
unfolding stoull read_number
stoull_digits c s v d e h = ground arith

stoull_printed :
    (t : Text) (c : ℕ) (s : Text) (v : ℕ)
    → t ≡ c ∷ s
    → is_digit c ≡ true
    → read_digits 0 t ≡ v
    → v < 2 ^ 64
    → stoull t ≡ some v
stoull_printed t c s v e d r h = rw e (stoull_digits c s v d (rw e at r) h)

-- Printing and reading back gives the number, below 2^64.
pub stoull-to_string : (n : ℕ) → n < 2 ^ 64 → stoull (to_string n) ≡ some n
unfolding to_string read_digits
stoull-to_string n h =
    let p = put_digits_head (suc n) n [] (omega arith) in
    stoull_printed (put_digits (suc n) n []) p.0 p.1 n p.2 p.3
      (read_digits-put_digits (suc n) n [] (omega arith)) h
