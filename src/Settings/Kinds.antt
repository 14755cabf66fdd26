-- ===== src/Settings/Kinds.antt =====
-- The names of the kinds of LED stripes that `ResolveLedTypeValue` of src/PPUC.cpp finds.
use libppuc.Common.{
  ℕ, ◌≡◌, refl, sym, ap, ◌∙◌, inl, inr, Bool, ◌&&◌, true, false, some, List, [], ◌∷◌, ◌==◌, arith,
  Bool-cases, Option-cases,
}
use libppuc.Common.Text.{Text, text_eq, text_eq→eq}
use libppuc.Settings.Led.{
  LedOrder, rgb, rbg, grb, gbr, brg, bgr, wrgb, wrbg, wgrb, wgbr, wbrg, wbgr, rwgb, rwbg, rgwb,
  rgbw, rbwg, rbgw, gwrb, gwbr, grwb, grbw, gbwr, gbrw, bwrg, bwgr, brwg, brgw, bgwr, bgrw,
  led_names, find, resolve_led_type_value,
}
use libppuc.Settings.Shapes.{name_of, IsLedKind}

-- Whether each entry of a table has the name of its order.
abbrev are_named : List (Text × LedOrder) → Bool
are_named [] = true
are_named ((key, o) ∷ rest) = text_eq key (name_of o) && are_named rest

led_names-are_named : are_named led_names ≡ true
led_names-are_named = refl

find_lem :
    (s : Text) (o : LedOrder) (l : List (Text × LedOrder))
    → are_named l ≡ true
    → find s l ≡ some o
    → s ≡ name_of o
unfolding find
find_lem s o [] h e = cc
find_lem s o ((key, u) ∷ rest) h e = elim (Bool-cases (text_eq s key)) [
  | inl q ↦
      let r : u ≡ o = (let f : find s ((key, u) ∷ rest) ≡ some u = rw (q, find) refl in cc) in
      text_eq→eq s key q ∙ (text_eq→eq key (name_of u) (ground arith) ∙ ap name_of r)
  | inr q ↦
      let f : find s ((key, u) ∷ rest) ≡ find s rest = rw (q, find) refl in
      find_lem s o rest (ground arith) (sym f ∙ e)
]

find-name_of : (o : LedOrder) → find (name_of o) led_names ≡ some o
unfolding find
find-name_of rgb = refl
find-name_of rbg = refl
find-name_of grb = refl
find-name_of gbr = refl
find-name_of brg = refl
find-name_of bgr = refl
find-name_of wrgb = refl
find-name_of wrbg = refl
find-name_of wgrb = refl
find-name_of wgbr = refl
find-name_of wbrg = refl
find-name_of wbgr = refl
find-name_of rwgb = refl
find-name_of rwbg = refl
find-name_of rgwb = refl
find-name_of rgbw = refl
find-name_of rbwg = refl
find-name_of rbgw = refl
find-name_of gwrb = refl
find-name_of gwbr = refl
find-name_of grwb = refl
find-name_of grbw = refl
find-name_of gbwr = refl
find-name_of gbrw = refl
find-name_of bwrg = refl
find-name_of bwgr = refl
find-name_of brwg = refl
find-name_of brgw = refl
find-name_of bgwr = refl
find-name_of bgrw = refl

module _ (neo : LedOrder → ℕ) where
  pub kind_of : (s : Text) → (resolve_led_type_value neo s == 0) ≡ false → IsLedKind neo s
  unfolding resolve_led_type_value
  kind_of s h = elim (Option-cases (find s led_names)) [
    | inl e ↦
        let q : resolve_led_type_value neo s ≡ 0 = rw (e, resolve_led_type_value) refl in
        ground arith
    | inr (o, e) ↦
        let q : resolve_led_type_value neo s ≡ neo o = rw (e, resolve_led_type_value) refl in
        (o, find_lem s o led_names led_names-are_named e, λ z. ground arith)
  ]

  pub kind-IsLedKind : (s : Text) → IsLedKind neo s → (resolve_led_type_value neo s == 0) ≡ false
  unfolding resolve_led_type_value
  kind-IsLedKind s (o, e, z) =
      let q : resolve_led_type_value neo s ≡ neo o =
        ap (resolve_led_type_value neo) e ∙ rw (find-name_of o, resolve_led_type_value) refl in
      ground arith
