-- ===== src/Ai/Json.antt =====
-- The JSON values that the `value` column of `SystemSetting` holds, as the Python values that the
-- driver reads them as.
use gasu_schedule_bot.Base.{String, Bool, Option, none, some, str_eq, if◌then◌else◌}
use gasu_schedule_bot.Base.Int.{ℤ}

mutual
  pub data Json : Type 0 where
    null : Json
    boolean : Bool → Json
    integer : ℤ → Json
    decimal : String → Json
    text : String → Json
    array : Elements → Json
    object : Members → Json

  pub data Elements : Type 0 where
    end : Elements
    element : Json → Elements → Elements

  pub data Members : Type 0 where
    empty : Members
    member : String → Json → Members → Members

-- `dict.get`
abbrev pub get : String → Members → Option Json
get key empty = none
get key (member k value rest) = if str_eq k key then some value else get key rest
