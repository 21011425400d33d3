-- ===== src/Config.antt =====
-- The values of configurations, which are objects by name.
pub mod Server
pub mod Client
pub mod Files
pub mod Start
pub mod Tests
use rif_relay.Base.{Bool, List, Option, Text, none, some, ℕ}
use rif_relay.Base.Dict.{Dict, get}

-- A number below zero has its absolute value, and one that is not whole is a fraction of two numbers;
-- a list is one of a JSON file.
pub data Setting : Type 0 where
  a_text : Text → Setting
  a_bool : Bool → Setting
  a_number : ℕ → Setting
  a_negative : ℕ → Setting
  a_fraction : (numerator denominator : ℕ) → Setting
  a_list : List Text → Setting
  a_null : Setting

abbrev pub Settings : Type 0
Settings = Dict Setting

-- `config.k`, where null counts as undefined.
unfoldable pub setting_at : Text → Settings → Option Setting
setting_at k c = elim (get k c) [ none ↦ none | some a_null ↦ none | some v ↦ some v ]

-- A setting that is a name.
unfoldable pub text_at : Text → Settings → Option Text
text_at k c = elim (get k c) [ some (a_text t) ↦ some t | _ ↦ none ]
