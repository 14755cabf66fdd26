-- ===== src/Settings/Shapes.antt =====
-- What a configuration file must have, field by field, for `ValidatePpucConfiguration` of src/PPUC.cpp
-- to accept it, said on its own: without the checks of that function or their order.
use Prim.Native.String.{String}
use Prim.{Unit}
use libppuc.Common.{ℕ, ◌≡◌, ◌≢◌, ◌⊎◌, true, false, some, List, [], ◌∷◌}
use libppuc.Common.Text.{Text, codes}
use libppuc.Yaml.{Yaml, Kind, bool, text, u8, u32, i16, Value}
use libppuc.Settings.Led.{
  LedOrder, rgb, rbg, grb, gbr, brg, bgr, wrgb, wrbg, wgrb, wgbr, wbrg, wbgr, rwgb, rwbg, rgwb,
  rgbw, rbwg, rbgw, gwrb, gwbr, grwb, grbw, gbwr, gbrw, bwrg, bwgr, brwg, brgw, bgwr, bgrw,
}

-- All of several demands.
abbrev pub AllOf : List {1} (Type 0) → Type 0
AllOf [] = Unit
AllOf (P ∷ Ps) = P × AllOf Ps

-- The name of an order of colours, as the field `ledType` spells it.
abbrev pub name_of : LedOrder → Text
name_of rgb = codes "RGB"
name_of rbg = codes "RBG"
name_of grb = codes "GRB"
name_of gbr = codes "GBR"
name_of brg = codes "BRG"
name_of bgr = codes "BGR"
name_of wrgb = codes "WRGB"
name_of wrbg = codes "WRBG"
name_of wgrb = codes "WGRB"
name_of wgbr = codes "WGBR"
name_of wbrg = codes "WBRG"
name_of wbgr = codes "WBGR"
name_of rwgb = codes "RWGB"
name_of rwbg = codes "RWBG"
name_of rgwb = codes "RGWB"
name_of rgbw = codes "RGBW"
name_of rbwg = codes "RBWG"
name_of rbgw = codes "RBGW"
name_of gwrb = codes "GWRB"
name_of gwbr = codes "GWBR"
name_of grwb = codes "GRWB"
name_of grbw = codes "GRBW"
name_of gbwr = codes "GBWR"
name_of gbrw = codes "GBRW"
name_of bwrg = codes "BWRG"
name_of bwgr = codes "BWGR"
name_of brwg = codes "BRWG"
name_of brgw = codes "BRGW"
name_of bgwr = codes "BGWR"
name_of bgrw = codes "BGRW"

-- A kind of stripe: an order of colours for which the LED library has a value.
abbrev pub IsLedKind : (LedOrder → ℕ) → Text → Type 0
IsLedKind neo s = (o : LedOrder) × (s ≡ name_of o) × (neo o ≢ 0)

-- What may set an effect off.
abbrev pub IsSource : Text → Type 0
IsSource s = (s ≡ codes "switch") ⊎ (s ≡ codes "lamp") ⊎ (s ≡ codes "light")

-- A name that a group may have.
abbrev pub IsGroupName : Text → Type 0
IsGroupName s = (s ≢ []) × (s ≢ codes "buttons")

module _ (y : Yaml) where
  open y use {Node, is_defined, is_map, is_sequence, field, read}

  abbrev pub Reads : Kind → Node → Type 0
  Reads k n = (v : Value k) × (read k n ≡ some v)

  -- A field that has to be there, and one that may be missing; of a type that the program reads.
  abbrev pub Needs : Kind → String → Node → Type 0
  Needs k f n = (is_defined (field n f) ≡ true) × Reads k (field n f)

  abbrev pub Allows : Kind → String → Node → Type 0
  Allows k f n = (is_defined (field n f) ≡ false) ⊎ Reads k (field n f)

  abbrev pub IsMap : Node → Type 0
  IsMap n = (is_defined n ≡ true) × (is_map n ≡ true)

  abbrev pub IsList : Node → Type 0
  IsList n = (is_defined n ≡ true) × (is_sequence n ≡ true)

  abbrev pub RootFields : Node → Type 0
  RootFields n = AllOf (
      Needs bool "debug" n
      ∷ Needs text "rom" n
      ∷ Needs text "serialPort" n
      ∷ Needs text "platform" n
      ∷ Needs u8 "coinDoorClosedSwitch" n
      ∷ Needs u8 "gameOnSolenoid" n
      ∷ [])

  abbrev pub BoardFields : Node → Type 0
  BoardFields n = AllOf (Needs u8 "number" n ∷ Needs bool "pollEvents" n ∷ [])

  abbrev pub MatrixFields : Node → Type 0
  MatrixFields n = AllOf (Needs u8 "board" n ∷ Needs bool "activeLow" n ∷ Needs u8 "rows" n ∷ [])

  abbrev pub MatrixSwitchFields : Node → Type 0
  MatrixSwitchFields n = AllOf (
      Needs text "description" n
      ∷ Needs u8 "board" n
      ∷ Needs u32 "port" n
      ∷ Needs u32 "number" n
      ∷ Allows bool "button" n
      ∷ [])

  abbrev pub SwitchFields : Node → Type 0
  SwitchFields n = AllOf (
      Needs text "description" n
      ∷ Needs u8 "board" n
      ∷ Needs u32 "port" n
      ∷ Needs u32 "number" n
      ∷ Needs u32 "debounce" n
      ∷ Allows text "debounceMode" n
      ∷ Allows text "debounce_mode" n
      ∷ Allows bool "button" n
      ∷ [])

  abbrev pub MappingFields : Node → Type 0
  MappingFields n = AllOf (
      Needs u32 "coil" n
      ∷ Needs u32 "gi" n
      ∷ Allows u32 "onBrightness" n
      ∷ Allows u32 "offBrightness" n
      ∷ [])

  abbrev pub PwmFields : Node → Type 0
  PwmFields n = AllOf (
      Needs text "description" n
      ∷ Needs u8 "board" n
      ∷ Needs u32 "port" n
      ∷ Needs u32 "number" n
      ∷ Needs u32 "power" n
      ∷ Needs u32 "minPulseTime" n
      ∷ Needs u32 "maxPulseTime" n
      ∷ Needs u32 "holdPower" n
      ∷ Needs u32 "holdPowerActivationTime" n
      ∷ Needs u32 "fastFlipSwitch" n
      ∷ Needs text "type" n
      ∷ Allows bool "ballSearch" n
      ∷ Allows bool "dualWinding" n
      ∷ Allows u32 "eosSwitch" n
      ∷ [])

  abbrev pub PwmEffectFields : Node → Type 0
  PwmEffectFields n = AllOf (
      Needs u32 "duration" n
      ∷ Needs text "effect" n
      ∷ Needs u32 "frequency" n
      ∷ Needs u32 "maxIntensity" n
      ∷ Needs u32 "minIntensity" n
      ∷ Needs u32 "mode" n
      ∷ Needs u32 "priority" n
      ∷ Needs i16 "repeat" n
      ∷ [])

  abbrev pub StripeFields : Node → Type 0
  StripeFields n = AllOf (Needs u8 "board" n ∷ Needs u32 "port" n ∷ Needs text "ledType" n ∷ [])

  abbrev pub StripeSizeFields : Node → Type 0
  StripeSizeFields n = AllOf (
      Needs u32 "brightness" n
      ∷ Needs u32 "amount" n
      ∷ Needs u32 "afterGlow" n
      ∷ Needs u32 "lightUp" n
      ∷ [])

  abbrev pub SegmentFields : Node → Type 0
  SegmentFields n = AllOf (Needs u32 "number" n ∷ Needs u32 "from" n ∷ Needs u32 "to" n ∷ [])

  abbrev pub LedEffectFields : Node → Type 0
  LedEffectFields n = AllOf (
      Needs u32 "duration" n
      ∷ Needs text "effect" n
      ∷ Needs u32 "reverse" n
      ∷ Allows u32 "fadeRate" n
      ∷ Allows bool "gamma" n
      ∷ Allows u32 "size" n
      ∷ Allows u32 "options" n
      ∷ Needs u32 "speed" n
      ∷ Needs u32 "mode" n
      ∷ Needs u32 "priority" n
      ∷ Needs i16 "repeat" n
      ∷ [])

  abbrev pub LedFields : Node → Type 0
  LedFields n =
      AllOf (Needs text "description" n ∷ Needs u32 "number" n ∷ Needs u32 "ledNumber" n ∷ [])

  abbrev pub TriggerFields : Node → Type 0
  TriggerFields n = AllOf (Needs text "source" n ∷ Needs u32 "number" n ∷ Needs u32 "value" n ∷ [])

  abbrev pub TriggerNameFields : Node → Type 0
  TriggerNameFields n = AllOf (Allows text "name" n ∷ Allows u32 "value" n ∷ [])
