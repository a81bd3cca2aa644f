-- ===== src/Storage/Expression.antt =====
-- Filter expressions in StorageNode/StorageNode.cpp: `getPostfixedExpressionOf` turns the text into
-- postfix order with a stack of operators, `getExpressionTreeFrom` makes the tree.
pub mod Steps
pub mod Printed
use decentralized_cloud.Base.Decimal.{is_digit, is_space}
use decentralized_cloud.Base.{
  ℕ, zero, suc, ◌-◌, Bool, true, false, Option, none, some, List, [], ◌∷◌, ◌++◌, length, take, drop,
  nat_beq, ◌&&◌, ◌||◌, if◌then◌else◌, is_empty, Text, codes, text_eq, ◌==◌,
}

-- The end of the scan: a result, a failure (`expr.at` past the end throws, `top` of an empty stack is
-- undefined), or too little fuel.
pub data Scan {ℓ} (A : Type ℓ) : Type ℓ where
  scanned : A → Scan A
  failed unfinished : Scan A

-- `precedence[op][top]`
unfoldable pub has_precedence : Text → Text → Bool
has_precedence op top =
    if op == codes "&"
    then top == codes "|"
    else if op == codes "|"
    then false
    else (top == codes "&") || (top == codes "|")

-- Up to and including the quote that ends a string; the rest.
unfoldable pub take_quoted : Text → Option (Text × Text)
take_quoted [] = none
take_quoted (c ∷ s) = elim (nat_beq c b'"') [
  | true ↦ some (c ∷ [], s)
  | false ↦ elim (take_quoted s) [ none ↦ none | some (text, rest) ↦ some (c ∷ text, rest) ]
]

unfoldable pub take_digits : Text → Text × Text
take_digits [] = ([], [])
take_digits (c ∷ s) =
    let (digits, rest) = take_digits s in if is_digit c then (c ∷ digits, rest) else ([], c ∷ s)

-- A right parenthesis: the operators up to the left one go to the output.
unfoldable pub pop_to_paren : List Text → List Text → Option (List Text × List Text)
pop_to_paren [] postfix = none
pop_to_paren (top ∷ operators) postfix = elim (top == codes "(") [
  | true ↦ some (operators, postfix)
  | false ↦ pop_to_paren operators (postfix ++ top ∷ [])
]

-- The operators on the stack that are not below `op` in precedence go to the output.
unfoldable pub pop_higher : Text → List Text → List Text → List Text × List Text
unfolding has_precedence
pop_higher op [] postfix = ([], postfix)
pop_higher op (top ∷ operators) postfix = elim (has_precedence op top || (top == codes "(")) [
  | true ↦ (top ∷ operators, postfix)
  | false ↦ pop_higher op operators (postfix ++ top ∷ [])
]

-- The operator that a character starts, with the text after it; `none` is `expr.at` past the end.
-- Any other character gives no operator.
unfoldable pub take_operator : ℕ → Text → Option (Text × Text)
take_operator c s =
    if nat_beq c b'<'
    then elim s [
      | [] ↦ none
      | d ∷ rest ↦
          if nat_beq d b'=' || nat_beq d b'>'
          then some (c ∷ d ∷ [], rest)
          else some (c ∷ [], d ∷ rest)
    ]
    else if nat_beq c b'>'
    then elim s [
      | [] ↦ none
      | d ∷ rest ↦ if nat_beq d b'=' then some (c ∷ d ∷ [], rest) else some (c ∷ [], d ∷ rest)
    ]
    else if nat_beq c b'=' || (nat_beq c b'&' || nat_beq c b'|')
    then some (c ∷ [], s)
    else some ([], s)

-- Goes on after a read that did not fail.
abbrev pub read_then {ℓ κ μ} :
    {A : Type ℓ} {B : Type κ} {C : Type μ} → Option (A × B) → (A → B → Option C) → Option C
read_then none f = none
read_then (some (a, b)) f = f a b

-- One character of the loop: the text that is left, the stack and the output.
unfoldable pub scan_step : ℕ → Text → List Text → List Text → Option (Text × List Text × List Text)
unfolding take_quoted take_digits pop_to_paren pop_higher take_operator
scan_step c s operators postfix =
    if is_space c
    then some (s, operators, postfix)
    else if nat_beq c b'"'
    then read_then (take_quoted s) (λ text rest. some (rest, operators, postfix ++ (c ∷ text) ∷ []))
    else if is_digit c
    then (let (digits, rest) = take_digits s in
        some (rest, operators, postfix ++ (c ∷ digits) ∷ []))
    else if nat_beq c b'('
    then some (s, (c ∷ []) ∷ operators, postfix)
    else if nat_beq c b')'
    then read_then (pop_to_paren operators postfix) (λ left output. some (s, left, output))
    else read_then (take_operator c s) (λ op rest.
      if is_empty op
      then some (rest, operators, postfix)
      else some
          (rest, op ∷ (pop_higher op operators postfix).0, (pop_higher op operators postfix).1))

abbrev pub resume {ℓ} :
    {A : Type ℓ}
    → Option (Text × List Text × List Text)
    → (Text → List Text → List Text → Scan A)
    → Scan A
resume none next = failed
resume (some (rest, left, output)) next = next rest left output

unfoldable pub scan : ℕ → Text → List Text → List Text → Scan (List Text)
unfolding scan_step
scan fuel [] operators postfix = scanned (postfix ++ operators)
scan zero (c ∷ s) operators postfix = unfinished
scan (suc fuel) (c ∷ s) operators postfix = resume (scan_step c s operators postfix) (scan fuel)

unfoldable pub get_postfixed_expression_of : Text → Scan (List Text)
unfolding scan
get_postfixed_expression_of expr = scan (length expr) expr [] []

-- `TreeNode`: both children are missing, or neither is.
pub data TreeNode : Type 0 where
  operand : Text → TreeNode
  node : Text → TreeNode → TreeNode → TreeNode

-- `substr(1, n - 2)`: without the quotes, and without the outer digits of a number.
unfoldable pub strip : Text → Text
strip element = take (length element - 2) (drop 1 element)

abbrev is_operand : Text → Bool
is_operand [] = false
is_operand (c ∷ s) = nat_beq c b'"' || is_digit c

-- The tree on top of the stack; `none` is `top` of an empty stack.
unfoldable pub tree_from : List Text → List TreeNode → Option TreeNode
unfolding strip
tree_from [] [] = none
tree_from [] (tree ∷ trees) = some tree
tree_from (element ∷ postfix) trees = elim (is_operand element) [
  | true ↦ tree_from postfix (operand (strip element) ∷ trees)
  | false ↦ elim trees [
    | [] ↦ none
    | right ∷ [] ↦ none
    | right ∷ left ∷ below ↦ tree_from postfix (node element left right ∷ below)
  ]
]

unfoldable pub get_expression_tree_from : List Text → Option TreeNode
unfolding tree_from
get_expression_tree_from postfix = tree_from postfix []
