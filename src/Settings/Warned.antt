-- ===== src/Settings/Warned.antt =====
-- Which coils `WarnAboutUnprotectedSolenoids` of src/PPUC.cpp reports, on a valid configuration.

use Prim.{tt}
use libppuc.Common.{
  ℕ, zero, suc, ◌+◌, ◌<◌, ◌≡◌, ◌≢◌, ◌⊎◌, refl, inl, inr, subst, Bool, true, false, List, [], ◌∷◌,
  ◌++◌, arith, Bool-cases, if◌then◌else◌,
}
use libppuc.Common.Text.{codes, decimal, text_eq, text_eq→eq}
use libppuc.Yaml.{Yaml, text, u32, Result, ok}
use libppuc.Settings.Fields.{format_location, has_sequence_items}
use libppuc.Settings.Led.{LedOrder}
use libppuc.Settings.Rules.{pwm_rules}
use libppuc.Settings.Holds.{read_node-eq_ok, Holding, RulesHold, ItemsHold}
use libppuc.Settings.Validate.{validate_ppuc_configuration}
use libppuc.Settings.Valid.{IsPwmOutput, validate_ppuc_configuration_lem}
use libppuc.Settings.Thermal.{
  PwmTypes, Warning, is_protected, warning_for, check_output, warn_from,
  warn_about_unprotected_solenoids,
}
use libppuc.Settings.Judged.{
  LampIsUnique, needs_thermal_protection_lem, Flagged, Unflagged, is_set-cases, Names, Warned,
}

module _ (y : Yaml) (t : PwmTypes) where
  open y use {Node, is_defined, field, items, read, position}

  warning_for_lem :
      (n : Node) (i : ℕ)
      → RulesHold y pwm_rules n
      → (w : Warning) × (warning_for y t n i ≡ ok w) × Names y n i w
  unfolding warning_for
  warning_for_lem n i ((dd, (s, d)), (_, (_, ((_, (v, e)), _)))) = (
    record {
      path = codes "pwmOutput[" ++ (decimal i ++ codes "]");
      description = s;
      number = v;
      location = format_location (position n);
    },
    rw
        (
          dd,
          warning_for,
          read_node-eq_ok y text (field n "description") s d,
          read_node-eq_ok y u32 (field n "number") v e,
        )
        refl,
    (refl, (d, (e, refl))),
  )

  protected-cases :
      (p h a : ℕ) (d : Bool)
      → ((is_protected y t p h a d ≡ true) × ((0 < p) ⊎ (0 < h) × (0 < a) ⊎ (d ≡ true)))
        ⊎ (is_protected y t p h a d ≡ false) × ((p ≡ 0) × (((h ≡ 0) ⊎ (a ≡ 0)) × (d ≡ false)))
  protected-cases p h a true = inl (ground arith, inr (inr refl))
  protected-cases (suc p) h a false = inl (ground arith, inl (omega arith))
  protected-cases zero zero a false = inr (ground arith, (refl, (inl refl, refl)))
  protected-cases zero (suc h) zero false = inr (ground arith, (refl, (inr refl, refl)))
  protected-cases zero (suc h) (suc a) false =
      inl (ground arith, inr (inl (omega arith, omega arith)))

  -- What a round says of a coil that is no lamp.
  Judged : Node → ℕ → Result (List Warning) → Type 0
  Judged n i r =
      ((r ≡ ok [])
        × (Holding y u32 (λ v. 0 < v) (field n "maxPulseTime")
            ⊎ Holding y u32 (λ v. 0 < v) (field n "holdPower")
              × Holding y u32 (λ v. 0 < v) (field n "holdPowerActivationTime")
            ⊎ Flagged y n "dualWinding"))
      ⊎ ((w : Warning) × (r ≡ ok (w ∷ []))
          × (Names y n i w
              × (Holding y u32 (λ v. v ≡ 0) (field n "maxPulseTime")
                  × ((Holding y u32 (λ v. v ≡ 0) (field n "holdPower")
                        ⊎ Holding y u32 (λ v. v ≡ 0) (field n "holdPowerActivationTime"))
                      × Unflagged y n "dualWinding"))))

  check_output-Judged :
      (n : Node) (i : ℕ) → RulesHold y pwm_rules n → Judged n i (check_output y t n i)
  unfolding check_output Judged
  check_output-Judged n i r =
      let (
        _,
        (
          _,
          (
            _,
            (_, (_, (_, ((_, (p, ep)), ((_, (h, eh)), ((_, (a, ea)), (_, (_, (_, (dual, _)))))))))),
          ),
        ),
      ) =
        r in
      let (w, ew, names) = warning_for_lem n i r in
      let rp = read_node-eq_ok y u32 (field n "maxPulseTime") p ep in
      let rh = read_node-eq_ok y u32 (field n "holdPower") h eh in
      let ra = read_node-eq_ok y u32 (field n "holdPowerActivationTime") a ea in
      elim (is_set-cases y n "dualWinding" dual) [
        | inl (set, es) ↦
            (let q : is_protected y t p h a true ≡ true = ground arith in
              rw (rp, check_output, rh, ra, es, q) (inl (refl, inr (inr set))))
        | inr (unset, es) ↦ elim (protected-cases p h a false) [
          | inl (e, why) ↦
              rw (rp, check_output, rh, ra, es, e)
                (inl (
                  refl,
                  elim why [
                    | inl x ↦ inl (p, ep, x)
                    | inr x ↦ elim x [ inl z ↦ inr (inl ((h, eh, z.0), (a, ea, z.1))) | inr z ↦ cc ]
                  ],
                ))
          | inr (e, (zp, (zha, _))) ↦
              rw (rp, check_output, rh, ra, es, e, ew)
                (inr (
                  w,
                  refl,
                  (
                    names,
                    (
                      (p, ep, zp),
                      (elim zha [ inl z ↦ inl (h, eh, z) | inr z ↦ inr (a, ea, z) ], unset),
                    ),
                  ),
                ))
        ]
      ]

  module _ (l : LampIsUnique t) where
    warn_from-Warned :
        (i : ℕ) (ns : List Node)
        → ItemsHold y (RulesHold y pwm_rules) ns
        → (ws : List Warning) × (warn_from y t i ns ≡ ok ws) × Warned y i ns ws
    unfolding warn_from Judged
    warn_from-Warned i [] h = ([], refl, refl)
    warn_from-Warned i (n ∷ ns) (_, (r, rs)) =
        let (_, (_, (_, (_, (_, (_, (_, (_, (_, (_, ((_, (s, es)), _))))))))))) = r in
        let rk = read_node-eq_ok y text (field n "type") s es in
        let (ws, e, h) = warn_from-Warned (i + 1) ns rs in
        let judged = check_output-Judged n i r in
        let needs = needs_thermal_protection_lem t l s in
        elim (Bool-cases (text_eq s (codes "lamp"))) [
          | inl k ↦ (
            ws,
            rw (rk, warn_from, needs, k, e) refl,
            inl (inl (s, es, text_eq→eq s (codes "lamp") k), h),
          )
          | inr k ↦ elim judged [
            | inl (e0, why) ↦ (ws, rw (rk, warn_from, needs, k, e0, e) refl, inl (inr why, h))
            | inr (w, e1, (names, (zp, z))) ↦
                let other : s ≢ codes "lamp" = λ q.
                  let f : true ≡ false = subst (λ x. text_eq x (codes "lamp") ≡ false) q k in cc in
                (
                  w ∷ ws,
                  rw (rk, warn_from, needs, k, e1, e) refl,
                  inr (w, ws, refl, (((s, es, other), (zp, z)), (names, h))),
                )
          ]
        ]

    outputs_hold :
        (neo : LedOrder → ℕ) (ns : List Node)
        → ItemsHold y (IsPwmOutput y neo) ns
        → ItemsHold y (RulesHold y pwm_rules) ns
    outputs_hold neo [] h = tt
    outputs_hold neo (n ∷ ns) (m, ((r, _), rest)) = (m, (r, outputs_hold neo ns rest))

    -- The outputs of a configuration.
    abbrev pub outputs_of : Node → List Node
    outputs_of config =
        if has_sequence_items y (field config "pwmOutput")
        then items (field config "pwmOutput")
        else []

    -- On a configuration that the validation accepts, every value that the check of the coils reads
    -- is there, and it prints one warning for each output that nothing bounds, in the order of the
    -- file, and no other: one that is no lamp, has no longest pulse, has no hold power or no time
    -- after which it falls back to it, and is not declared to have two windings. The warning gives
    -- the output's place in the list, its description and its number.
    pub warn_about_unprotected_solenoids_lem :
        (neo : LedOrder → ℕ) (config : Node)
        → validate_ppuc_configuration y neo config ≡ ok tt
        → (ws : List Warning) × (warn_about_unprotected_solenoids y t config ≡ ok ws)
          × Warned y 0 (outputs_of config) ws
    unfolding warn_about_unprotected_solenoids
    warn_about_unprotected_solenoids_lem neo config h =
        let v = (validate_ppuc_configuration_lem y neo config).0 h in
        let n = field config "pwmOutput" in
        elim v.pwm_outputs [
          | inr ((d, s), rest) ↦
              let (ws, e, w) = warn_from-Warned 0 (items n) (outputs_hold neo (items n) rest) in
              (ws, rw (d, s, warn_about_unprotected_solenoids, e) refl, rw (d, s) w)
          | inl (inl u) ↦ ([], rw (u, warn_about_unprotected_solenoids) refl, rw u refl)
          | inl (inr (_, u)) ↦ elim (Bool-cases (is_defined n)) [
            | inl d ↦ ([], rw (d, u, warn_about_unprotected_solenoids) refl, rw (d, u) refl)
            | inr d ↦ ([], rw (d, warn_about_unprotected_solenoids) refl, rw d refl)
          ]
        ]
