-- ===== src/Models/Enum.antt =====
-- Enumerations of texts: the member that a value of JSON names.
use tamga_python.Prelude.{Option, none, some, List, [], ◌∷◌, if◌then◌else◌}
use tamga_python.Python.Str.{Str, str_eq}
use tamga_python.Python.Json.{Json, null, str}
use tamga_python.Python.Exc.{Result, ok, or_value_error}

-- The members of an enumeration, each with its value.
abbrev pub Members : Type 0 → Type 0
Members A = List (Str × A)

module _ {A : Type 0} where
  unfoldable pub member_named : Members A → Str → Option A
  unfolding str_eq
  member_named [] s = none
  member_named ((value, member) ∷ members) s =
      let rest = member_named members s in if str_eq value s then some member else rest

  -- the member of a value; a value that is no text names none
  unfoldable pub member_of : Members A → Json → Option A
  unfolding member_named
  member_of members (str s) = member_named members s
  member_of members v = none

  -- Enum(v) if v is not None else default
  unfoldable pub strict : Members A → A → Json → Result A
  unfolding or_value_error member_of
  strict members default null = ok default
  strict members default v = or_value_error (member_of members v)

  -- the same, and the default where `Enum(v)` raises ValueError
  unfoldable pub or_default : A → Option A → A
  or_default default none = default
  or_default default (some member) = member

  unfoldable pub lenient : Members A → A → Json → A
  unfolding or_default member_of
  lenient members default v = or_default default (member_of members v)
