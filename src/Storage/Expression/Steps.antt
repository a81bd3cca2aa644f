-- ===== src/Storage/Expression/Steps.antt =====
-- The loop of `getPostfixedExpressionOf` (StorageNode/StorageNode.cpp) ends: each turn reads a
-- character, or more.
use decentralized_cloud.Base.Decimal.{is_digit, is_space}
use decentralized_cloud.Base.{
  ℕ, zero, suc, ◌≤◌, ◌≢◌, Bool, true, false, Option, none, some, List, [], ◌∷◌, ◌||◌, is_empty,
  length, Text, if◌then◌else◌, nat_beq, arith,
}
use decentralized_cloud.Storage.Expression.{
  read_then, resume, Scan, unfinished, take_quoted, take_digits, pop_to_paren, take_operator,
  scan_step, scan, get_postfixed_expression_of,
}

-- What a read leaves is no longer than `n`, if it does not fail.
LeavesSecond : ℕ → Option (Text × Text) → Type 0
LeavesSecond n none = Unit {0}
LeavesSecond n (some (text, rest)) = length rest ≤ n

Leaves : ℕ → Option (Text × List Text × List Text) → Type 0
Leaves n none = Unit {0}
Leaves n (some (rest, left, output)) = length rest ≤ n

if-LeavesSecond :
    (n : ℕ) (b : Bool) (x y : Option (Text × Text))
    → LeavesSecond n x
    → LeavesSecond n y
    → LeavesSecond n (if b then x else y)
unfolding LeavesSecond
if-LeavesSecond n true x y h k = h
if-LeavesSecond n false x y h k = k

if-Leaves :
    (n : ℕ) (b : Bool) (x y : Option (Text × List Text × List Text))
    → Leaves n x
    → Leaves n y
    → Leaves n (if b then x else y)
unfolding Leaves
if-Leaves n true x y h k = h
if-Leaves n false x y h k = k

read_then-Leaves :
    (n : ℕ) (o : Option (Text × Text)) (f : Text → Text → Option (Text × List Text × List Text))
    → LeavesSecond n o
    → ((text rest : Text) → length rest ≤ n → Leaves n (f text rest))
    → Leaves n (read_then o f)
unfolding Leaves LeavesSecond
read_then-Leaves n none f h k = tt
read_then-Leaves n (some (text, rest)) f h k = k text rest h

quoted_leaves :
    (n c : ℕ) (b : Bool) (s : Text) (o : Option (Text × Text))
    → length s ≤ n
    → LeavesSecond n o
    → LeavesSecond n (elim b [
      | true ↦ some (c ∷ [], s)
      | false ↦ elim o [ none ↦ none | some (text, rest) ↦ some (c ∷ text, rest) ]
    ])
unfolding LeavesSecond
quoted_leaves n c true s o h k = h
quoted_leaves n c false s none h k = tt
quoted_leaves n c false s (some (text, rest)) h k = k

longer : (n : ℕ) (o : Option (Text × Text)) → LeavesSecond n o → LeavesSecond (suc n) o
unfolding LeavesSecond
longer n none h = tt
longer n (some (text, rest)) h = omega arith

take_quoted-LeavesSecond : (s : Text) → LeavesSecond (length s) (take_quoted s)
unfolding take_quoted LeavesSecond
take_quoted-LeavesSecond [] = tt
take_quoted-LeavesSecond (c ∷ s) =
    quoted_leaves (suc (length s)) c (nat_beq c b'"') s (take_quoted s) (omega arith)
      (longer (length s) (take_quoted s) (take_quoted-LeavesSecond s))

length-take_digits : (s : Text) → length (take_digits s).1 ≤ length s
unfolding take_digits
length-take_digits [] = omega arith
length-take_digits (c ∷ s) = ground (arith, length-take_digits s)

take_operator-LeavesSecond : (c : ℕ) (s : Text) → LeavesSecond (length s) (take_operator c s)
unfolding take_operator LeavesSecond
take_operator-LeavesSecond c [] = if-LeavesSecond 0 (nat_beq c b'<') _ _ tt (
    if-LeavesSecond 0 (nat_beq c b'>') _ _ tt (
      if-LeavesSecond 0 (nat_beq c b'=' || (nat_beq c b'&' || nat_beq c b'|')) _ _ (omega arith)
        (omega arith)))
take_operator-LeavesSecond c (d ∷ s) =
    if-LeavesSecond n (nat_beq c b'<') _ _
      (if-LeavesSecond n (nat_beq d b'=' || nat_beq d b'>') _ _ (omega arith) (omega arith))
      (if-LeavesSecond n (nat_beq c b'>') _ _
        (if-LeavesSecond n (nat_beq d b'=') _ _ (omega arith) (omega arith))
        (if-LeavesSecond n (nat_beq c b'=' || (nat_beq c b'&' || nat_beq c b'|')) _ _ (omega arith)
          (omega arith)))
  where
    n : ℕ
    n = suc (length s)

scan_step-Leaves :
    (c : ℕ) (s : Text) (operators postfix : List Text)
    → Leaves (length s) (scan_step c s operators postfix)
unfolding scan_step Leaves LeavesSecond
scan_step-Leaves c s operators postfix = if-Leaves n (is_space c) _ _ (omega arith) (
    if-Leaves n (nat_beq c b'"') _ _
      (read_then-Leaves n (take_quoted s) _ (take_quoted-LeavesSecond s) (λ text rest h. h))
      (if-Leaves n (is_digit c) _ _ (length-take_digits s) (
        if-Leaves n (nat_beq c b'(') _ _ (omega arith) (
          if-Leaves n (nat_beq c b')') _ _ (popped (pop_to_paren operators postfix)) (
            read_then-Leaves n (take_operator c s) _ (take_operator-LeavesSecond c s)
              (λ op rest h. if-Leaves n (is_empty op) _ _ h h))))))
  where
    n : ℕ
    n = length s

    popped :
        (o : Option (List Text × List Text))
        → Leaves n (read_then o (λ left output. some (s, left, output)))
    popped none = tt
    popped (some (left, output)) = omega arith

resume-finishes :
    (n : ℕ) (o : Option (Text × List Text × List Text))
    (next : Text → List Text → List Text → Scan (List Text))
    → Leaves n o
    → ((rest : Text) (left output : List Text)
        → length rest ≤ n
        → next rest left output ≢ unfinished)
    → resume o next ≢ unfinished
unfolding Leaves
resume-finishes n none next h k = λ e. cc
resume-finishes n (some (rest, left, output)) next h k = k rest left output h

scan-finishes :
    (fuel : ℕ) (s : Text) (operators postfix : List Text)
    → length s ≤ fuel
    → scan fuel s operators postfix ≢ unfinished
unfolding scan
scan-finishes fuel [] operators postfix h = λ e. cc
scan-finishes zero (c ∷ s) operators postfix h = absurd (omega arith)
scan-finishes (suc fuel) (c ∷ s) operators postfix h =
    resume-finishes (length s) (scan_step c s operators postfix) (scan fuel)
      (scan_step-Leaves c s operators postfix)
      (λ rest left output shorter. scan-finishes fuel rest left output (omega arith))

-- The loop on any text ends, with a result or a failure: it needs no more turns than the text has
-- characters.
get_postfixed_expression_of-finishes : (expr : Text) → get_postfixed_expression_of expr ≢ unfinished
unfolding get_postfixed_expression_of
get_postfixed_expression_of-finishes expr = scan-finishes (length expr) expr [] [] (omega arith)
