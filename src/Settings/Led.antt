-- ===== src/Settings/Led.antt =====
-- The kinds of LED stripes: `ResolveLedTypeValue` of src/PPUC.cpp. The NEO_ constants are those of the
-- copied Adafruit_NeoPixel.h.
use libppuc.Common.{ℕ, Option, none, some, List, [], ◌∷◌, if◌then◌else◌}
use libppuc.Common.Text.{Text, codes, text_eq}

-- The orders of colours that a constant NEO_… names.
pub data LedOrder : Type 0 where
  rgb rbg grb gbr brg bgr : LedOrder
  wrgb wrbg wgrb wgbr wbrg wbgr : LedOrder
  rwgb rwbg rgwb rgbw rbwg rbgw : LedOrder
  gwrb gwbr grwb grbw gbwr gbrw : LedOrder
  bwrg bwgr brwg brgw bgwr bgrw : LedOrder

abbrev pub led_names : List (Text × LedOrder)
led_names =
    (codes "RGB", rgb)
    ∷ (codes "RBG", rbg)
    ∷ (codes "GRB", grb)
    ∷ (codes "GBR", gbr)
    ∷ (codes "BRG", brg)
    ∷ (codes "BGR", bgr)
    ∷ (codes "WRGB", wrgb)
    ∷ (codes "WRBG", wrbg)
    ∷ (codes "WGRB", wgrb)
    ∷ (codes "WGBR", wgbr)
    ∷ (codes "WBRG", wbrg)
    ∷ (codes "WBGR", wbgr)
    ∷ (codes "RWGB", rwgb)
    ∷ (codes "RWBG", rwbg)
    ∷ (codes "RGWB", rgwb)
    ∷ (codes "RGBW", rgbw)
    ∷ (codes "RBWG", rbwg)
    ∷ (codes "RBGW", rbgw)
    ∷ (codes "GWRB", gwrb)
    ∷ (codes "GWBR", gwbr)
    ∷ (codes "GRWB", grwb)
    ∷ (codes "GRBW", grbw)
    ∷ (codes "GBWR", gbwr)
    ∷ (codes "GBRW", gbrw)
    ∷ (codes "BWRG", bwrg)
    ∷ (codes "BWGR", bwgr)
    ∷ (codes "BRWG", brwg)
    ∷ (codes "BRGW", brgw)
    ∷ (codes "BGWR", bgwr)
    ∷ (codes "BGRW", bgrw)
    ∷ []

-- The first entry of a table with a given name: a chain of comparisons, or a search in a map whose
-- keys are distinct.
unfoldable pub find {ℓ} : {A : Type ℓ} → Text → List (Text × A) → Option A
find name [] = none
find name ((key, a) ∷ rest) = if text_eq name key then some a else find name rest

module _ (neo : LedOrder → ℕ) where
  -- ResolveLedTypeValue, and PPUC::ResolveLedType
  unfoldable pub resolve_led_type_value : Text → ℕ
  resolve_led_type_value name = elim (find name led_names) [ none ↦ 0 | some o ↦ neo o ]
