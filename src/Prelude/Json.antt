-- ===== src/Prelude/Json.antt =====
-- Values of dynamic type, as json.loads and dict literals give them: a dict is its keys, each once,
-- with their values. Of a number only matters whether it is zero, so a natural number stands for it.
use Prim.Native.Nat.{ℕ}
use Prim.Native.String.{String}
use mathlib.Core.Bool.{Bool, true, false, not}
use mathlib.Core.Option.{Option, none, some}
use text.Mathlib.Text.{◌==◌ as str_eq}
use deal_screening_agent.Prelude.Tests.{◌==◌, if◌then◌else◌, is_some}

mutual
  pub data Value : Type 0 where
    null : Value
    boolean : Bool → Value
    number : ℕ → Value
    string : String → Value
    array : Items → Value
    object : Fields → Value

  pub data Items : Type 0 where
    nil : Items
    cons : Value → Items → Items

  pub data Fields : Type 0 where
    end : Fields
    field : String → Value → Fields → Fields

unfoldable pub find_key : String → Fields → Option Value
find_key key end = none
find_key key (field k v fs) = if str_eq k key then some v else find_key key fs

abbrev pub or_null : Option Value → Value
or_null none = null
or_null (some v) = v

-- `d.get(key)`
unfoldable pub get_key : String → Fields → Value
unfolding find_key
get_key key fs = or_null (find_key key fs)

-- `key in d`
abbrev pub has_field : String → Fields → Bool
has_field key fs = is_some (find_key key fs)

-- `bool(value)`
abbrev pub is_truthy : Value → Bool
is_truthy null = false
is_truthy (boolean b) = b
is_truthy (number n) = not (n == 0)
is_truthy (string s) = not (str_eq s "")
is_truthy (array nil) = false
is_truthy (array (cons _ _)) = true
is_truthy (object end) = false
is_truthy (object (field _ _ _)) = true
