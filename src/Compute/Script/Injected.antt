-- ===== src/Compute/Script/Injected.antt =====
-- Where the parameters go in a function (ComputeNodeLib/JsProcessor.cpp).
use mathlib.Core.List.{append_assoc}
use decentralized_cloud.Base.{
  ℕ, ◌+◌, ◌≡◌, refl, ap, ◌∙◌, true, false, some, List, [], ◌∷◌, ◌++◌, Text, is_empty, codes, length,
  length-append, take-append, drop-append, arith,
}
use decentralized_cloud.Wire.Escapes.{has_char}
use decentralized_cloud.Compute.Script.{
  Engine, Called, brace_from, function_logic_start_index, statements, code, parse_script,
  before_paren, trim_right, get_process_fun_name, answer_of, run_code, run_parsed, execute_script,
}

-- Up to the first parenthesis that closes, and from there to the next brace.
brace_from-head :
    (i : ℕ) (head rest : Text)
    → has_char b')' head ≡ false
    → brace_from false i (head ++ b')' ∷ rest) ≡ brace_from true (i + length head + 1) rest
unfolding brace_from
brace_from-head i [] rest open_yet = ground arith
brace_from-head i (c ∷ head) rest open_yet = ground (arith, brace_from-head (i + 1) head rest)

brace_from-mid :
    (i : ℕ) (mid body : Text)
    → has_char b'{' mid ≡ false
    → brace_from true i (mid ++ b'{' ∷ body) ≡ some (i + length mid)
unfolding brace_from
brace_from-mid i [] body none_yet = ground arith
brace_from-mid i (c ∷ mid) body none_yet = ground (arith, brace_from-mid (i + 1) mid body)

-- The name of a function, and what follows.
before_paren-append :
    (name rest : Text) → has_char b'(' name ≡ false → before_paren (name ++ b'(' ∷ rest) ≡ name
unfolding before_paren
before_paren-append [] rest clean = refl
before_paren-append (c ∷ name) rest clean = ground (arith, before_paren-append name rest)

named :
    (name rest : Text)
    → has_char b'(' name ≡ false
    → trim_right name ≡ name
    → get_process_fun_name (codes "function " ++ (name ++ b'(' ∷ rest)) ≡ some name
unfolding get_process_fun_name
named name rest clean trimmed = ground (arith, before_paren-append name rest clean, trimmed)

module _ (name params mid body : Text) where
  -- A function as it is written: `function name(params) {body`, with anything between the parenthesis
  -- and the brace.
  abbrev head : Text
  head = codes "function " ++ (name ++ b'(' ∷ params)

  abbrev opening : Text
  opening = head ++ (b')' ∷ (mid ++ b'{' ∷ []))

  -- A function whose body begins with a text.
  abbrev pub function_of : Text → Text
  function_of text = opening ++ text

  function_of-brace : (text : Text) → function_of text ≡ head ++ b')' ∷ (mid ++ b'{' ∷ text)
  function_of-brace text =
      append_assoc head (b')' ∷ (mid ++ b'{' ∷ [])) text
      ∙ ap (λ t. head ++ b')' ∷ t) (append_assoc mid (b'{' ∷ []) text)

  function_of-paren :
      (text : Text)
      → function_of text
        ≡ codes "function " ++ (name ++ b'(' ∷ (params ++ b')' ∷ (mid ++ b'{' ∷ text)))
  function_of-paren text =
      function_of-brace text
      ∙ ap (λ t. codes "function " ++ t)
          (append_assoc name (b'(' ∷ params) (b')' ∷ (mid ++ b'{' ∷ text)))

  length-opening : length opening ≡ length head + 1 + length mid + 1
  length-opening =
      omega (
        arith,
        length-append {0} head (b')' ∷ (mid ++ b'{' ∷ [])),
        length-append {0} mid (b'{' ∷ []),
      )

  module _ (no_close : has_char b')' (name ++ b'(' ∷ params) ≡ false)
      (no_brace : has_char b'{' mid ≡ false) where
    index :
        (text : Text)
        → (i : ℕ) × (function_logic_start_index (function_of text) ≡ some i)
          × (i + 1 ≡ length opening)
    unfolding function_logic_start_index
    index text = (
      length head + 1 + length mid,
      ap (brace_from false 0) (function_of-brace text)
          ∙ brace_from-head 0 head (mid ++ b'{' ∷ text) no_close
          ∙ brace_from-mid (0 + length head + 1) mid text no_brace
          ∙ ap some (omega arith),
      omega (arith, length-opening),
    )

    -- The parameters are declared before all else in the body.
    parse_script-function_of :
        (engine : Engine) (input : Text) (js : List (Text × Text))
        → engine.members input ≡ some js
        → parse_script engine (function_of body) input ≡ code (function_of (statements js ++ body))
    unfolding parse_script
    parse_script-function_of engine input js read =
        let (i, found, e) = index body in
        rw (read, found, e)
          ((λ n. code (take-append opening body n ++ statements js ++ drop-append opening body n))
            ∙ ap code (append_assoc opening (statements js) body))

    get_process_fun_name-function_of :
        (text : Text)
        → has_char b'(' name ≡ false
        → trim_right name ≡ name
        → get_process_fun_name (function_of text) ≡ some name
    get_process_fun_name-function_of text clean trimmed =
        ap get_process_fun_name (function_of-paren text)
        ∙ named name (params ++ b')' ∷ (mid ++ b'{' ∷ text)) clean trimmed

    -- Where neither the name nor the parameters of a function close a parenthesis, and no brace stands
    -- between them and its body, a request with an input that has keys runs the function with these
    -- declared before all else in the body; if that runs, it is called by its name.
    pub execute_script-function_of :
        (engine : Engine) (input tenant_id : Text) (js : List (Text × Text)) (call : Text → Called)
        → is_empty input ≡ false
        → engine.members (engine.decode input) ≡ some js
        → has_char b'(' name ≡ false
        → trim_right name ≡ name
        → engine.run (function_of (statements js ++ body) ++ engine.cmd_builder_script) tenant_id
          ≡ some call
        → execute_script engine (function_of body) input tenant_id ≡ answer_of (call name)
    unfolding execute_script run_parsed run_code
    execute_script-function_of engine input tenant_id js call full read clean trimmed ran =
        let whole = append_assoc opening (statements js ++ body) engine.cmd_builder_script in
        let script = function_of (statements js ++ body) in
        let called : get_process_fun_name (script ++ engine.cmd_builder_script) ≡ some name =
          ap get_process_fun_name whole
          ∙ get_process_fun_name-function_of ((statements js ++ body) ++ engine.cmd_builder_script)
              clean trimmed in
        rw
          (
            full,
            parse_script-function_of engine (engine.decode input) js read,
            run_parsed,
            run_code,
            ran,
            called,
          )
          refl
