-- ===== src/Json.antt =====
-- The JSON objects that the nodes build and read through shared/nlohmann/json.hpp: members by name,
-- each a text or an unsigned number. The text form (`dump`, `parse`) is a parameter where it is used.
use decentralized_cloud.Base.{ℕ, Option, none, some, Text, text_eq}
use decentralized_cloud.Base.Dict.{Dict, find}

pub data JsonValue : Type 0 where
  str : Text → JsonValue
  num : ℕ → JsonValue

abbrev pub JsonObject : Type 0
JsonObject = Dict Text JsonValue

abbrev pub as_text : Option JsonValue → Option Text
as_text (some (str s)) = some s
as_text (some (num n)) = none
as_text none = none

abbrev as_number : Option JsonValue → Option ℕ
as_number (some (num n)) = some n
as_number (some (str s)) = none
as_number none = none

-- `j[key].get<std::string>()`; `none` is the exception for a member of another type or none at all.
unfoldable pub get_text : Text → JsonObject → Option Text
unfolding find
get_text key j = as_text (find key j)

-- `j[key].get<time_t>()`
unfoldable pub get_number : Text → JsonObject → Option ℕ
unfolding find
get_number key j = as_number (find key j)
