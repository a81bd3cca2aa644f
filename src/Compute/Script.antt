-- ===== src/Compute/Script.antt =====
-- ComputeNodeLib/JsProcessor.cpp: the parameters of a request are put into the text of a function, which
-- V8 then runs. V8, JSON texts and base 64 are parameters.
pub mod Injected
use decentralized_cloud.Base.{
  ℕ, zero, suc, ◌+◌, Bool, true, false, not, ◌&&◌, ◌||◌, Option, none, some, List, [], ◌∷◌, ◌++◌,
  Text, text_eq, ◌==◌, nat_beq, ltb, is_empty, codes, if◌then◌else◌, maybe, length, take, drop,
}
use decentralized_cloud.Base.Decimal.{is_space}
use decentralized_cloud.Json.{JsonObject, str}

-- What becomes of a script: a JSON object, the JSON value `false`, an exception, or no defined result.
pub data Ran : Type 0 where
  answer : JsonObject → Ran
  no_function : Ran
  thrown : Ran
  undefined : Ran

-- What V8 makes of a script: an error when it is compiled or run, or what the call of a name gives: no
-- function, an error, or the result as a text with the text of `stateChangeCmds`.
pub data Called : Type 0 where
  missing : Called
  failed : Called
  returned : Text → Text → Called

-- `members` gives the keys of a JSON text with the texts of their values, in the order of the keys;
-- `none` is an exception of the parser, or of a value that has no keys.
pub record Engine : Type 0 where
  pub members : Text → Option (List (Text × Text))
  pub decode : Text → Text
  pub cmd_builder_script : Text
  pub run : Text → Text → Option (Text → Called)

-- The index of the first brace behind a parenthesis that closes. Without one the loop ends, and the
-- function has no return: that is `none`.
unfoldable pub brace_from : Bool → ℕ → Text → Option ℕ
brace_from closed i [] = none
brace_from closed i (c ∷ s) =
    let go_on = brace_from (closed || nat_beq c b')') (i + 1) s in
    if nat_beq c b'{' && closed then some i else go_on

unfoldable pub function_logic_start_index : Text → Option ℕ
unfolding brace_from
function_logic_start_index script = brace_from false 0 script

-- The statements that declare the parameters.
unfoldable pub statements : List (Text × Text) → Text
statements [] = []
statements ((key, value) ∷ js) =
    codes " var " ++ key ++ codes " = " ++ value ++ b';' ∷ statements js

-- A text, an exception, or no defined result.
pub data Parsed : Type 0 where
  code : Text → Parsed
  invalid : Parsed
  no_brace : Parsed

unfoldable pub parse_script : Engine → Text → Text → Parsed
unfolding function_logic_start_index statements
parse_script engine script input = maybe (engine.members input) invalid λ js.
    maybe (function_logic_start_index script) no_brace
      λ i. code (take (i + 1) script ++ statements js ++ drop (i + 1) script)

-- `name.find('(')` and the part before it.
unfoldable pub before_paren : Text → Text
before_paren [] = []
before_paren (c ∷ s) = let rest = before_paren s in if nat_beq c b'(' then [] else c ∷ rest

-- `boost::trim_right`
unfoldable pub trim_right : Text → Text
trim_right [] = []
trim_right (c ∷ s) = let rest = trim_right s in if is_empty rest && is_space c then [] else c ∷ rest

-- `substr` throws past the end.
unfoldable pub get_process_fun_name : Text → Option Text
unfolding before_paren trim_right
get_process_fun_name script =
    let keyword = length (codes "function ") in
    if ltb (length script) keyword
    then none
    else some (trim_right (before_paren (drop keyword script)))

-- The object that is answered with.
unfoldable pub answer_of : Called → Ran
answer_of missing = no_function
answer_of failed = thrown
answer_of (returned result cmds) = answer (
    (
      codes "result",
      str (if is_empty result || result == codes "undefined" then codes "N/A" else result),
    )
    ∷ (codes "statechangecmds", str cmds)
    ∷ [])

unfoldable pub run_code : Engine → Text → Text → Ran
unfolding get_process_fun_name answer_of
run_code engine script tenant_id =
    let whole = script ++ engine.cmd_builder_script in
    maybe (engine.run whole tenant_id) thrown
      λ call. maybe (get_process_fun_name whole) thrown λ name. answer_of (call name)

unfoldable pub run_parsed : Engine → Text → Parsed → Ran
unfolding run_code
run_parsed engine tenant_id (code script) = run_code engine script tenant_id
run_parsed engine tenant_id invalid = thrown
run_parsed engine tenant_id no_brace = undefined

unfoldable pub execute_script : Engine → Text → Text → Text → Ran
unfolding run_parsed parse_script
execute_script engine fundef input tenant_id =
    if is_empty input
    then run_code engine fundef tenant_id
    else run_parsed engine tenant_id (parse_script engine fundef (engine.decode input))
