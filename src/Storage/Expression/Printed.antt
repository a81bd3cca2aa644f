-- ===== src/Storage/Expression/Printed.antt =====
-- `getPostfixedExpressionOf` and `getExpressionTreeFrom` (StorageNode/StorageNode.cpp) read back the
-- tree of a filter that is written out with parentheses.
use decentralized_cloud.Base.Class.{text_beq}
use decentralized_cloud.Base.{
  ℕ, suc, ◌+◌, ◌-◌, ◌≤◌, ◌≡◌, refl, sym, ap, ◌∙◌, false, some, List, [], ◌∷◌, ◌++◌, length,
  length-append, take, take-append, All, Text, codes, text_eq, nat_beq, arith,
}
use mathlib.Core.List.{append_assoc, append-nil}
use decentralized_cloud.Storage.Expression.{
  scanned, take_quoted, pop_to_paren, has_precedence, pop_higher, take_operator, scan_step, scan,
  get_postfixed_expression_of, TreeNode, operand, node, strip, tree_from, get_expression_tree_from,
}

pub data Operator : Type 0 where
  equal different less greater less_equal greater_equal and_also or_else : Operator

abbrev pub sign : Operator → Text
sign equal = codes "="
sign different = codes "<>"
sign less = codes "<"
sign greater = codes ">"
sign less_equal = codes "<="
sign greater_equal = codes ">="
sign and_also = codes "&"
sign or_else = codes "|"

-- A filter: the name of a field or a value, or two filters under an operator.
pub data Condition : Type 0 where
  word : Text → Condition
  combine : Operator → Condition → Condition → Condition

-- No word has a quotation mark.
abbrev pub Plain : Condition → Type 0
Plain (word text) = All (λ c. nat_beq c b'"' ≡ false) text
Plain (combine op l r) = Plain l × Plain r

abbrev quoted : Text → Text
quoted text = b'"' ∷ (text ++ b'"' ∷ [])

unfoldable pub written : Condition → Text
written (word text) = quoted text
written (combine op l r) =
    b'(' ∷ (written l ++ (b' ' ∷ (sign op ++ (b' ' ∷ (written r ++ b')' ∷ [])))))

abbrev pub tree_of : Condition → TreeNode
tree_of (word text) = operand text
tree_of (combine op l r) = node (sign op) (tree_of l) (tree_of r)

-- The postfix order.
postorder : Condition → List Text
postorder (word text) = quoted text ∷ []
postorder (combine op l r) = postorder l ++ (postorder r ++ sign op ∷ [])

-- The turns of the loop.
turns : Condition → ℕ
turns (word text) = 1
turns (combine op l r) = turns l + turns r + 5

take_quoted-append :
    (text rest : Text)
    → All (λ c. nat_beq c b'"' ≡ false) text
    → take_quoted (text ++ (b'"' ∷ rest)) ≡ some (text ++ b'"' ∷ [], rest)
unfolding take_quoted
take_quoted-append [] rest h = refl
take_quoted-append (c ∷ text) rest h = ground (arith, take_quoted-append text rest h.1, h.0)

scan-quoted :
    (fuel : ℕ) (text rest : Text) (operators postfix : List Text)
    → All (λ c. nat_beq c b'"' ≡ false) text
    → scan (suc fuel) (quoted text ++ rest) operators postfix
      ≡ scan fuel rest operators (postfix ++ quoted text ∷ [])
unfolding scan scan_step
scan-quoted fuel text rest operators postfix h =
    rw (append_assoc text (b'"' ∷ []) rest, take_quoted-append text rest h) refl

scan-open :
    (fuel : ℕ) (rest : Text) (operators postfix : List Text)
    → scan (suc fuel) (b'(' ∷ rest) operators postfix
      ≡ scan fuel rest (codes "(" ∷ operators) postfix
unfolding scan scan_step
scan-open fuel rest operators postfix = refl

scan-space :
    (fuel : ℕ) (rest : Text) (operators postfix : List Text)
    → scan (suc fuel) (b' ' ∷ rest) operators postfix ≡ scan fuel rest operators postfix
unfolding scan scan_step
scan-space fuel rest operators postfix = refl

scan-sign :
    (fuel : ℕ) (op : Operator) (rest : Text) (operators postfix : List Text)
    → scan (suc fuel) (sign op ++ (b' ' ∷ rest)) (codes "(" ∷ operators) postfix
      ≡ scan fuel (b' ' ∷ rest) (sign op ∷ codes "(" ∷ operators) postfix
unfolding scan scan_step take_operator pop_higher has_precedence text_beq
scan-sign fuel equal rest operators postfix = refl
scan-sign fuel different rest operators postfix = refl
scan-sign fuel less rest operators postfix = refl
scan-sign fuel greater rest operators postfix = refl
scan-sign fuel less_equal rest operators postfix = refl
scan-sign fuel greater_equal rest operators postfix = refl
scan-sign fuel and_also rest operators postfix = refl
scan-sign fuel or_else rest operators postfix = refl

scan-close :
    (fuel : ℕ) (op : Operator) (rest : Text) (operators postfix : List Text)
    → scan (suc fuel) (b')' ∷ rest) (sign op ∷ codes "(" ∷ operators) postfix
      ≡ scan fuel rest operators (postfix ++ sign op ∷ [])
unfolding scan scan_step pop_to_paren text_beq
scan-close fuel equal rest operators postfix = refl
scan-close fuel different rest operators postfix = refl
scan-close fuel less rest operators postfix = refl
scan-close fuel greater rest operators postfix = refl
scan-close fuel less_equal rest operators postfix = refl
scan-close fuel greater_equal rest operators postfix = refl
scan-close fuel and_also rest operators postfix = refl
scan-close fuel or_else rest operators postfix = refl

written-append :
    (op : Operator) (l r : Condition) (rest : Text)
    → written (combine op l r) ++ rest
      ≡ b'(' ∷ (written l ++ (b' ' ∷ (sign op ++ (b' ' ∷ (written r ++ (b')' ∷ rest))))))
unfolding written
written-append op l r rest =
    ap (λ s. b'(' ∷ s)
      (append_assoc (written l) _ rest
        ∙ ap (λ s. written l ++ (b' ' ∷ s))
            (append_assoc (sign op) _ rest
              ∙ ap (λ s. sign op ++ (b' ' ∷ s)) (append_assoc (written r) _ rest)))

scan-written :
    (t : Condition) (fuel : ℕ) (rest : Text) (operators postfix : List Text)
    → Plain t
    → scan (turns t + fuel) (written t ++ rest) operators postfix
      ≡ scan fuel rest operators (postfix ++ postorder t)
unfolding written turns postorder
scan-written (word text) fuel rest operators postfix h =
    ap (λ f. scan f (quoted text ++ rest) operators postfix) {y = suc fuel} (omega arith)
    ∙ scan-quoted fuel text rest operators postfix h
scan-written (combine op l r) fuel rest operators postfix h =
    ap (λ f. scan f (written (combine op l r) ++ rest) operators postfix)
      {y = suc (turns l + suc (suc (suc (turns r + suc fuel))))} (omega arith)
    ∙ ap (λ s. scan (suc (turns l + suc (suc (suc (turns r + suc fuel))))) s operators postfix)
        (written-append op l r rest)
    ∙ scan-open (turns l + suc (suc (suc (turns r + suc fuel)))) _ operators postfix
    ∙ scan-written l (suc (suc (suc (turns r + suc fuel)))) _ (codes "(" ∷ operators) postfix h.0
    ∙ scan-space (suc (suc (turns r + suc fuel))) _ _ _
    ∙ scan-sign (suc (turns r + suc fuel)) op _ operators _
    ∙ scan-space (turns r + suc fuel) _ _ _
    ∙ scan-written r (suc fuel) (b')' ∷ rest) (sign op ∷ codes "(" ∷ operators) _ h.1
    ∙ scan-close fuel op rest operators _
    ∙ ap (scan fuel rest operators) (
        append_assoc (postfix ++ postorder l) (postorder r) (sign op ∷ [])
        ∙ append_assoc postfix (postorder l) (postorder r ++ sign op ∷ []))

strip-quoted : (text : Text) → strip (quoted text) ≡ text
unfolding strip
strip-quoted text =
    ap (λ n. take n (text ++ b'"' ∷ [])) {y = length text}
      (omega (arith, length-append text (b'"' ∷ [])))
    ∙ take-append text (b'"' ∷ [])

tree_from-sign :
    (op : Operator) (rest : List Text) (l r : TreeNode) (trees : List TreeNode)
    → tree_from (sign op ∷ rest) (r ∷ l ∷ trees) ≡ tree_from rest (node (sign op) l r ∷ trees)
unfolding tree_from
tree_from-sign equal rest l r trees = refl
tree_from-sign different rest l r trees = refl
tree_from-sign less rest l r trees = refl
tree_from-sign greater rest l r trees = refl
tree_from-sign less_equal rest l r trees = refl
tree_from-sign greater_equal rest l r trees = refl
tree_from-sign and_also rest l r trees = refl
tree_from-sign or_else rest l r trees = refl

-- The trees on the stack.
tree_from-postorder :
    (t : Condition) (rest : List Text) (trees : List TreeNode)
    → tree_from (postorder t ++ rest) trees ≡ tree_from rest (tree_of t ∷ trees)
unfolding tree_from postorder
tree_from-postorder (word text) rest trees =
    ap (λ s. tree_from rest (operand s ∷ trees)) (strip-quoted text)
tree_from-postorder (combine op l r) rest trees =
    ap (λ xs. tree_from xs trees)
      (append_assoc (postorder l) (postorder r ++ sign op ∷ []) rest
        ∙ ap (λ xs. postorder l ++ xs) (append_assoc (postorder r) (sign op ∷ []) rest))
    ∙ tree_from-postorder l _ trees
    ∙ tree_from-postorder r (sign op ∷ rest) (tree_of l ∷ trees)
    ∙ tree_from-sign op rest (tree_of l) (tree_of r) trees

scan-end : (fuel : ℕ) (postfix : List Text) → scan fuel [] [] postfix ≡ scanned postfix
unfolding scan
scan-end fuel postfix = ap scanned (append-nil postfix)

tree_end : (t : TreeNode) → tree_from [] (t ∷ []) ≡ some t
unfolding tree_from
tree_end t = refl

sign_pos : (op : Operator) → 1 ≤ length (sign op)
sign_pos equal = omega arith
sign_pos different = omega arith
sign_pos less = omega arith
sign_pos greater = omega arith
sign_pos less_equal = omega arith
sign_pos greater_equal = omega arith
sign_pos and_also = omega arith
sign_pos or_else = omega arith

turns-length : (t : Condition) → turns t ≤ length (written t)
unfolding turns written
turns-length (word text) = omega arith
turns-length (combine op l r) = omega (
  arith,
  turns-length l,
  turns-length r,
  sign_pos op,
  length-append (written l) (b' ' ∷ (sign op ++ (b' ' ∷ (written r ++ b')' ∷ [])))),
  length-append (sign op) (b' ' ∷ (written r ++ b')' ∷ [])),
  length-append (written r) (b')' ∷ []),
)

-- A filter that is written with quotation marks around each word and parentheses around each
-- operation is scanned to the end, and the tree that is made of the result is the filter's, if no word
-- has a quotation mark.
pub get_expression_tree_from-written :
    (t : Condition)
    → Plain t
    → (postfix : List Text) × (get_postfixed_expression_of (written t) ≡ scanned postfix)
      × (get_expression_tree_from postfix ≡ some (tree_of t))
unfolding get_postfixed_expression_of get_expression_tree_from
get_expression_tree_from-written t h = (
  postorder t,
  ap (λ f. scan f (written t) [] []) {y = turns t + (length (written t) - turns t)}
        (omega (arith, turns-length t))
      ∙ ap (λ s. scan (turns t + (length (written t) - turns t)) s [] [])
          (sym (append-nil (written t)))
      ∙ scan-written t (length (written t) - turns t) [] [] [] h
      ∙ scan-end (length (written t) - turns t) _,
  ap (λ xs. tree_from xs []) (sym (append-nil (postorder t)))
      ∙ tree_from-postorder t [] []
      ∙ tree_end _,
)
