-- ===== src/Startup/Send.antt =====
-- How the startup in src/PPUC.cpp sends configuration events: single events, series of them, and the
-- triggers of effects.

use Prim.{Unit, tt}
use libppuc.Common.{
  ℕ, Bool, true, not, ◌&&◌, ◌||◌, ◌==◌, List, [], ◌∷◌, ◌++◌, if◌then◌else◌, inc_u8, ltb,
}
use libppuc.Common.Text.{Text, codes}
use libppuc.Protocol.{Protocol}
use libppuc.State.{Comm}
use libppuc.Config.{send_config_event, should_abort}
use libppuc.Yaml.{Yaml, text, u32, Result, ok, err}
use libppuc.Settings.Fields.{invalid, read_node}
use libppuc.Machine.{Ppuc}
use libppuc.Machine.Step.{value, M, ◌>>=◌, ◌>>◌, pure, lift, modify, get, abort_if}
use libppuc.Startup.Codes.{Topic, BoardCodes, port, kind, source, number, trigger}
use libppuc.Startup.Modes.{resolve_simple_trigger_source}

abbrev pub Act : Yaml → Type 0 → Type 0
Act y A = M (Ppuc y) A

module _ (y : Yaml) where
  -- A call of the bus host that returns nothing, and one that returns a truth value.
  unfoldable pub on_comm : (Comm → Comm) → Act y (Unit {0})
  on_comm f = modify (λ s. record s { comm = f s.comm })

  unfoldable pub ask : (Comm → Bool × Comm) → Act y Bool
  ask f s = let (b, c) = f s.comm in (value b, record s { comm = c })

module _ (y : Yaml) (p : Protocol) (k : BoardCodes) where
  open y use {Node, is_defined, field}

  -- AbortConfigurationEarly, with `return false`.
  unfoldable pub abort_early : Act y (Unit {0})
  abort_early = do s ← get; abort_if (should_abort p s.comm)

  -- SendConfigEvent, whose result the startup leaves aside.
  unfoldable pub send_config : ℕ → Topic → ℕ → Topic → ℕ → Act y (Unit {0})
  send_config board topic index key v = on_comm y λ c.
      (send_config_event p
        (record {
          board_id = board;
          topic = k.topic topic;
          index = index;
          key = k.topic key;
          value = v;
        })
        c).1

  -- Events of one topic in a row, with `index++` in each; the result is the index after them. A
  -- value is read when its event is made.
  unfoldable pub send_series : ℕ → Topic → ℕ → List (Topic × Result ℕ) → Act y ℕ
  unfolding send_config
  send_series board topic index [] = pure index
  send_series board topic index ((key, read) ∷ rest) = do
    v ← lift read
    send_config board topic index key v
    send_series board topic (inc_u8 index) rest

  abbrev pub is_blank : Text → Bool
  is_blank [] = true
  is_blank (c ∷ s) = (c == 32 || (c == 9 || (c == 13 || c == 10))) && is_blank s

  unfoldable pub send_trigger : ℕ → ℕ → Topic → ℕ → ℕ → ℕ → Act y (Unit {0})
  unfolding send_series
  send_trigger board port_ topic src num v = do
    _ ← send_series board trigger 0 (
        (port, ok port_)
        ∷ (kind, ok (k.topic topic))
        ∷ (source, ok src)
        ∷ (number, ok num)
        ∷ (Topic.value, ok v)
        ∷ [])
    pure tt

  -- SendNamedEffectTriggerConfig
  unfoldable pub send_named_trigger : Node → Topic → ℕ → ℕ → Act y (Unit {0})
  unfolding send_trigger
  send_named_trigger n topic board port_ =
      if not (is_defined n) || not (is_defined (field n "name"))
      then pure tt
      else (lift (read_node y text (field n "name")) >>= λ name.
          if is_blank name
          then pure tt
          else (lift
                (if is_defined (field n "value") then read_node y u32 (field n "value") else ok 1)
              >>= λ v.
                  send_trigger board port_ topic p.event_source_effect
                    (k.hash_named_trigger_id name) v))

  -- SendSimpleEffectTriggerConfig
  unfoldable pub send_simple_trigger : Node → Topic → ℕ → ℕ → Text → Act y (Unit {0})
  unfolding send_trigger
  send_simple_trigger n topic board port_ context =
      let t = field n "simpleTrigger" in
      if not (is_defined n) || not (is_defined t)
      then pure tt
      else (lift (read_node y text (field t "source")) >>= λ name.
          lift (resolve_simple_trigger_source p k name) >>= λ src.
          lift (read_node y u32 (field t "number")) >>= λ num.
          lift (read_node y u32 (field t "value")) >>= λ v.
          if ltb 1 v
          then lift (err (invalid (context ++ codes ".simpleTrigger.value must be 0 or 1")))
          else send_trigger board port_ topic src num v)
