-- ===== src/Yaml.antt =====
-- What src/PPUC.cpp uses of yaml-cpp (third-party) to read the configuration file, as a record of
-- its operations, and C++ exceptions as values.
pub mod Outcome
pub use Outcome.*
use Prim.Native.String.{String}
use libppuc.Common.{ℕ, ◌^◌, ◌<◌, ◌≡◌, Bool, Option, some, List}
use libppuc.Common.Text.{Text}
use libppuc.Common.Ints.{ℤ}

-- The types T of the calls `as<T>()`.
pub data Kind : Type 0 where
  bool text u8 u16 u32 i16 : Kind

abbrev pub Value : Kind → Type 0
Value bool = Bool
Value text = Text
Value u8 = ℕ
Value u16 = ℕ
Value u32 = ℕ
Value i16 = ℤ

-- YAML::Node. `is_defined` is the conversion to bool, `field` is `operator[]` with a name, `items`
-- are the values that iterating yields, and `entries` the pairs of a map; a sequence has as many
-- items, and a map as many entries, as `size` counts. `read` is `as<T>()`, none where it throws
-- YAML::TypedBadConversion, with `what` as its text. `position` is Mark, none where it is null.
pub record Yaml : Type 1 where
  pub Node : Type 0
  pub is_defined : Node → Bool
  pub is_map : Node → Bool
  pub is_sequence : Node → Bool
  pub field : Node → String → Node
  pub items : Node → List Node
  pub entries : Node → List (Node × Node)
  pub read : (k : Kind) → Node → Option (Value k)
  pub what : Node → Text
  pub position : Node → Position
