-- ===== src/Server/Json.antt =====
-- JSON values as json.loads returns them: an object has one entry for each key.
use sport_crawl.Prelude.{ℕ, String, Bool, Option, none, some, str_eq, if◌then◌else◌}

mutual
  pub data Json : Type 0 where
    null : Json
    boolean : Bool → Json
    number : ℕ → Json
    text : String → Json
    array : JsonList → Json
    object : JsonObject → Json

  pub data JsonList : Type 0 where
    nil : JsonList
    cons : Json → JsonList → JsonList

  pub data JsonObject : Type 0 where
    empty : JsonObject
    entry : String → Json → JsonObject → JsonObject

abbrev pub lookup : String → JsonObject → Option Json
lookup key empty = none
lookup key (entry k value rest) =
    let later = lookup key rest in if str_eq k key then some value else later

-- `isinstance(value, str)`, with the text.
abbrev pub as_text : Option Json → Option String
as_text (some (text s)) = some s
as_text _ = none
