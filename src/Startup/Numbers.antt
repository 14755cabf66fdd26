-- ===== src/Startup/Numbers.antt =====
-- The numbers of coils, lamps and switches that the startup in src/PPUC.cpp collects before it
-- configures the boards, and the mappings that it makes of them.

use libppuc.Common.{
  ℕ, ◌^◌, ◌%◌, ◌-◌, List, [], ◌∷◌, ◌++◌, length, push, take, replicate, mem, min, max,
  if◌then◌else◌,
}
use libppuc.Common.Text.{codes, text_eq}
use libppuc.Common.Sorted.{insert_unique}
use libppuc.Common.Maps.{assign}
use libppuc.Protocol.{Protocol, RuntimeConfig}
use libppuc.Yaml.{Yaml, text, u8, u16, Result, ok, ◌>>=◌}
use libppuc.Boards.{numbers_of}
use libppuc.Settings.Fields.{read_node, list_of}
use libppuc.Settings.Groups.{is_set}

-- The sets and the map that the loops fill; a set is the list of its elements in their order.
pub record Numbers : Type 0 where
  pub coils : List ℕ
  pub lamps : List ℕ
  pub switches : List ℕ
  pub buttons : List ℕ
  pub by_board : List (ℕ × List ℕ)

module _ (y : Yaml) where
  open y use {Node, is_defined, field, items}

  -- A loop over switches.
  unfoldable pub collect_switches : List Node → Numbers → Result Numbers
  unfolding is_set
  collect_switches [] ns = ok ns
  collect_switches (n ∷ rest) ns = do
    number ← read_node y u16 (field n "number")
    button ← is_set y n "button"
    board ← read_node y u8 (field n "board")
    collect_switches rest (record ns {
      switches = insert_unique number ns.switches;
      buttons = if button then insert_unique number ns.buttons else ns.buttons;
      by_board = assign board (push (numbers_of board ns.by_board) number) ns.by_board;
    })

  -- The loop over pwmOutput.
  unfoldable pub collect_outputs : List ℕ → List Node → Numbers → Result Numbers
  collect_outputs skipped [] ns = ok ns
  collect_outputs skipped (n ∷ rest) ns = do
    board ← read_node y u8 (field n "board")
    ns' ←
        if mem board skipped
        then ok ns
        else (read_node y text (field n "type") >>= λ kind.
            read_node y u16 (field n "number") >>= λ number. ok (
              if text_eq kind (codes "lamp")
              then record ns { lamps = insert_unique number ns.lamps }
              else record ns { coils = insert_unique number ns.coils }))
    collect_outputs skipped rest ns'

  -- A loop over the LEDs of one kind, into a set.
  unfoldable pub collect_leds : List Node → List ℕ → Result (List ℕ)
  collect_leds [] set = ok set
  collect_leds (n ∷ rest) set = do
    number ← read_node y u16 (field n "number")
    collect_leds rest (insert_unique number set)

  -- The loop over ledStripes.
  unfoldable pub collect_stripes : List ℕ → List Node → Numbers → Result Numbers
  unfolding collect_leds
  collect_stripes skipped [] ns = ok ns
  collect_stripes skipped (n ∷ rest) ns = do
    board ← read_node y u8 (field n "board")
    ns' ←
        if mem board skipped
        then ok ns
        else (collect_leds (list_of y (field n "lamps")) ns.lamps >>= λ lamps.
            collect_leds (list_of y (field n "flashers")) ns.coils >>= λ coils.
            ok (record ns { lamps = lamps; coils = coils }))
    collect_stripes skipped rest ns'

  -- All of the loops, after the number of the game-on solenoid is in.
  unfoldable pub collect_numbers : List ℕ → ℕ → Node → Result Numbers
  unfolding collect_switches collect_outputs collect_stripes
  collect_numbers skipped game_on config =
      let matrix = field config "switchMatrix" in
      let start : Numbers = record {
        coils = insert_unique game_on [];
        lamps = [];
        switches = [];
        buttons = [];
        by_board = [];
      } in
      collect_switches (if is_defined matrix then list_of y (field matrix "switches") else []) start
      >>= collect_switches (list_of y (field config "switches"))
      >>= collect_outputs skipped (list_of y (field config "pwmOutput"))
      >>= collect_stripes skipped (list_of y (field config "ledStripes"))

-- The number of bits of a domain: at least one, and no more than the protocol has.
unfoldable pub bits_of : ℕ → List ℕ → ℕ
bits_of limit ns = min (max 1 (length ns % 2 ^ 16)) limit

-- `resize`
unfoldable pub resize : ℕ → List ℕ → List ℕ
resize n xs = take n xs ++ replicate (n - length xs) 0

-- The list that SetMappings gets for a set of numbers.
unfoldable pub mapping_of : ℕ → List ℕ → List ℕ
unfolding bits_of resize
mapping_of limit ns = resize (bits_of limit ns) ns

unfoldable pub runtime_config_of : Protocol → Numbers → RuntimeConfig
unfolding bits_of
runtime_config_of p ns = record {
  coil_bits = bits_of p.max_coil_bits ns.coils;
  lamp_bits = bits_of p.max_lamp_bits ns.lamps;
  switch_bits = bits_of p.max_switch_bits ns.switches;
}
