-- ===== src/Startup/Unskipped.antt =====
-- The loops of the startup in src/PPUC.cpp keep each invariant that holds through the calls of
-- SendConfigEvent for boards that are not skipped, and through the other calls of the bus host.

use Prim.{Unit, tt}
use libppuc.Common.{ℕ, ◌+◌, ◌≡◌, subst, inl, inr, false, List, [], ◌∷◌, mem, Bool-cases}
use libppuc.Common.Text.{Text}
use libppuc.Protocol.{Protocol}
use libppuc.State.{Comm}
use libppuc.Config.{ConfigEvent, send_config_event}
use libppuc.Yaml.{Yaml}
use libppuc.Machine.{Ppuc, Platform}
use libppuc.Machine.Rules.{Keeps, bind-Keeps, get-Keeps, pure-Keeps, if-Keeps, keep}
use libppuc.Settings.Led.{LedOrder}
use libppuc.Startup.Codes.{BoardCodes}
use libppuc.Startup.Send.{Act}
use libppuc.Startup.Devices.{
  print_description, add_switch, unless_skipped, configure_matrix_switch, configure_matrix,
  configure_switch, configure_pwm_effect, add_coil, configure_output, configure_pwm_output,
}
use libppuc.Startup.Stripes.{
  send_led, send_leds, send_led_config_block, configure_segments, configure_led_effect,
  configure_stripe_on, configure_led_stripe,
}
use libppuc.Startup.Kept.{
  Holds, abort_early-Keeps, send_config-Keeps, send_series-Keeps, send_named_trigger-Keeps,
  send_simple_trigger-Keeps,
}

module _ (y : Yaml) (p : Protocol) (k : BoardCodes) (platform_code : Platform → ℕ)
    (neo : LedOrder → ℕ) (P : Comm → Type 0) (skipped : List ℕ)
    (send : (e : ConfigEvent) (c : Comm)
      → mem e.board_id skipped ≡ false
      → P c
      → P (send_config_event p e c).1) where
  open y use {Node, is_defined, field, items}

  abbrev Safe : {A : Type 0} → Act y A → Type 0
  Safe m = Keeps (Holds y p k P skipped) m

  ruleset sends = (
    keep, abort_early-Keeps, send_config-Keeps, send_series-Keeps, send_named_trigger-Keeps,
    send_simple_trigger-Keeps,
  )

  print_description-Safe : (n : Node) → Safe (print_description y p k platform_code n)
  unfolding print_description
  print_description-Safe n = search keep

  add_switch-Safe : (n : Node) → Safe (add_switch y p k platform_code n)
  unfolding add_switch
  add_switch-Safe n = search (keep, λ (s : Ppuc y) (q : Holds y p k P skipped s). q) depth 20

  unless_skipped-Safe :
      (b : ℕ) (act : Act y (Unit {0}))
      → (mem b skipped ≡ false → Safe act)
      → Safe (unless_skipped y p k platform_code b act)
  unfolding unless_skipped
  unless_skipped-Safe b act h = get-Keeps (Holds y p k P skipped) _ (λ t q.
      elim (Bool-cases (mem b t.skipped_boards)) [
        | inl e ↦ rw e (pure-Keeps (Holds y p k P skipped) tt)
        | inr e ↦ rw e (h (subst (λ xs. mem b xs ≡ false) q.1 e))
      ])

  configure_matrix_switch-Safe : (n : Node) → Safe (configure_matrix_switch y p k platform_code n)
  unfolding configure_matrix_switch
  configure_matrix_switch-Safe n =
      search (sends, print_description-Safe, add_switch-Safe, unless_skipped-Safe) depth 20

  pub configure_matrix-Safe : (n : Node) → Safe (configure_matrix y p k platform_code n)
  unfolding configure_matrix
  configure_matrix-Safe n =
      search (sends, configure_matrix_switch-Safe, unless_skipped-Safe) depth 20

  pub configure_switch-Safe : (n : Node) → Safe (configure_switch y p k platform_code n)
  unfolding configure_switch
  configure_switch-Safe n =
      search (sends, print_description-Safe, add_switch-Safe, unless_skipped-Safe) depth 20

  configure_pwm_effect-Safe :
      (b port : ℕ) (n : Node)
      → mem b skipped ≡ false
      → Safe (configure_pwm_effect y p k platform_code b port n)
  unfolding configure_pwm_effect
  configure_pwm_effect-Safe b port n u = search sends depth 20

  add_coil-Safe : (n : Node) (kind : ℕ) → Safe (add_coil y p k platform_code n kind)
  unfolding add_coil
  add_coil-Safe n kind = search (keep, λ (s : Ppuc y) (q : Holds y p k P skipped s). q) depth 20

  configure_output-Safe :
      (b : ℕ) (n : Node) → mem b skipped ≡ false → Safe (configure_output y p k platform_code b n)
  unfolding configure_output
  configure_output-Safe b n u =
      search (sends, print_description-Safe, configure_pwm_effect-Safe, add_coil-Safe) depth 30

  pub configure_pwm_output-Safe : (n : Node) → Safe (configure_pwm_output y p k platform_code n)
  unfolding configure_pwm_output
  configure_pwm_output-Safe n = search (sends, configure_output-Safe, unless_skipped-Safe) depth 20

  send_led-Safe :
      (kind b port : ℕ) (context : Text) (n : Node)
      → mem b skipped ≡ false
      → Safe (send_led y p k platform_code neo kind b port context n)
  unfolding send_led
  send_led-Safe kind b port context n u =
      search (sends, λ (s : Ppuc y) (q : Holds y p k P skipped s). q) depth 20

  send_leds-Safe :
      (kind b port i : ℕ) (ns : List Node)
      → mem b skipped ≡ false
      → Safe (send_leds y p k platform_code neo kind b port i ns)
  unfolding send_leds
  send_leds-Safe kind b port i [] u = search keep
  send_leds-Safe kind b port i (n ∷ ns) u = get-Keeps (Holds y p k P skipped) _ (λ t q.
      if-Keeps (Holds y p k P skipped) _ _ _ (pure-Keeps (Holds y p k P skipped) tt) (
        bind-Keeps (Holds y p k P skipped) _ _ (send_led-Safe kind b port _ n u)
          (λ _. send_leds-Safe kind b port (i + 1) ns u)))

  configure_segments-Safe :
      (b port i : ℕ) (ns : List Node)
      → mem b skipped ≡ false
      → Safe (configure_segments y p k platform_code neo b port i ns)
  unfolding configure_segments
  configure_segments-Safe b port i [] u = search keep
  configure_segments-Safe b port i (n ∷ ns) u =
      bind-Keeps (Holds y p k P skipped) _ _ (send_series-Keeps y p k P skipped send b _ i _ u)
        (λ j.
          bind-Keeps (Holds y p k P skipped) _ _ (abort_early-Keeps y p k P skipped send)
            (λ _. configure_segments-Safe b port j ns u))

  configure_led_effect-Safe :
      (b port : ℕ) (n : Node)
      → mem b skipped ≡ false
      → Safe (configure_led_effect y p k platform_code neo b port n)
  unfolding configure_led_effect
  configure_led_effect-Safe b port n u = search sends depth 20

  configure_stripe_on-Safe :
      (b : ℕ) (n : Node)
      → mem b skipped ≡ false
      → Safe (configure_stripe_on y p k platform_code neo b n)
  unfolding configure_stripe_on send_led_config_block
  configure_stripe_on-Safe b n u =
      search (sends, configure_segments-Safe, configure_led_effect-Safe, send_leds-Safe) depth 30

  pub configure_led_stripe-Safe : (n : Node) → Safe (configure_led_stripe y p k platform_code neo n)
  unfolding configure_led_stripe
  configure_led_stripe-Safe n =
      search (sends, configure_stripe_on-Safe, unless_skipped-Safe) depth 20
