-- ===== src/Startup/Kept.antt =====
-- What the startup in src/PPUC.cpp keeps: the invariants of the bus host that hold through every
-- call that it makes, and the rules that carry them through the sending of events.

use libppuc.Common.{ℕ, ◌≡◌, Bool, false, List, [], ◌∷◌, mem, inc_u8}
use libppuc.Common.Text.{Text}
use libppuc.Protocol.{Protocol}
use libppuc.State.{Comm}
use libppuc.Config.{ConfigEvent, send_config_event}
use libppuc.Yaml.{Yaml, Result}
use libppuc.Machine.{Ppuc}
use libppuc.Machine.Rules.{Keeps, pure-Keeps, modify-Keeps, keep}
use libppuc.Startup.Codes.{Topic, BoardCodes}
use libppuc.Startup.Send.{
  on_comm, ask, abort_early, send_config, send_series, send_trigger, send_named_trigger,
  send_simple_trigger,
}

module _ (y : Yaml) (p : Protocol) (k : BoardCodes) (P : Comm → Type 0) (skipped : List ℕ) where
  open y use {Node, is_defined, field, items}

  -- The members while the startup runs.
  abbrev pub Holds : Ppuc y → Type 0
  Holds s = P s.comm × (s.skipped_boards ≡ skipped)

  -- Sending an event to a board that is not skipped keeps `P`.
  module _
      (send : (e : ConfigEvent) (c : Comm)
        → mem e.board_id skipped ≡ false
        → P c
        → P (send_config_event p e c).1) where
    pub on_comm-Keeps : (f : Comm → Comm) → ((c : Comm) → P c → P (f c)) → Keeps Holds (on_comm y f)
    unfolding on_comm
    on_comm-Keeps f h = modify-Keeps Holds _ (λ s q. (h s.comm q.0, q.1))

    pub ask-Keeps :
        (f : Comm → Bool × Comm) → ((c : Comm) → P c → P (f c).1) → Keeps Holds (ask y f)
    unfolding ask
    ask-Keeps f h = record { run = λ s q. (h s.comm q.0, q.1) }

    pub abort_early-Keeps : Keeps Holds (abort_early y p k)
    unfolding abort_early
    abort_early-Keeps = search keep

    pub send_config-Keeps :
        (b : ℕ) (topic : Topic) (i : ℕ) (key : Topic) (v : ℕ)
        → mem b skipped ≡ false
        → Keeps Holds (send_config y p k b topic i key v)
    unfolding send_config
    send_config-Keeps b topic i key v u = on_comm-Keeps _ (λ c h. send _ c u h)

    pub send_series-Keeps :
        (b : ℕ) (topic : Topic) (i : ℕ) (fields : List (Topic × Result ℕ))
        → mem b skipped ≡ false
        → Keeps Holds (send_series y p k b topic i fields)
    unfolding send_series
    send_series-Keeps b topic i [] u = pure-Keeps Holds i
    send_series-Keeps b topic i ((key, read) ∷ rest) u =
        search (keep, send_config-Keeps, send_series-Keeps b topic (inc_u8 i) rest)

    send_trigger-Keeps :
        (b port : ℕ) (topic : Topic) (src num v : ℕ)
        → mem b skipped ≡ false
        → Keeps Holds (send_trigger y p k b port topic src num v)
    unfolding send_trigger
    send_trigger-Keeps b port topic src num v u = search (keep, send_series-Keeps)

    pub send_named_trigger-Keeps :
        (n : Node) (topic : Topic) (b port : ℕ)
        → mem b skipped ≡ false
        → Keeps Holds (send_named_trigger y p k n topic b port)
    unfolding send_named_trigger
    send_named_trigger-Keeps n topic b port u = search (keep, send_trigger-Keeps)

    pub send_simple_trigger-Keeps :
        (n : Node) (topic : Topic) (b port : ℕ) (context : Text)
        → mem b skipped ≡ false
        → Keeps Holds (send_simple_trigger y p k n topic b port context)
    unfolding send_simple_trigger
    send_simple_trigger-Keeps n topic b port context u = search (keep, send_trigger-Keeps) depth 20
