-- ===== src/Examples/Document.antt =====
-- Small documents in the place of yaml-cpp, and a configuration of one board, two switches and one
-- coil.
use Prim.Native.String.{String}
use libppuc.Common.{
  arith, ℕ, ◌^◌, Bool, true, false, Option, none, some, List, [], ◌∷◌, ltb, if◌then◌else◌,
}
use libppuc.Common.Text.{codes, text_eq}
use libppuc.Common.Ints.{pos}
use libppuc.Yaml.{Yaml, Kind, bool, text, u8, u16, u32, i16, Value}
use libppuc.Settings.Led.{LedOrder}
use libppuc.Settings.Thermal.{PwmTypes}
use libppuc.Machine.{Ppuc, sys11}
use libppuc.Examples.Table.{table}
use libppuc.Settings.Judged.{LampIsUnique}

mutual
  pub data Document : Type 0 where
    absent : Document
    flag : Bool → Document
    word : String → Document
    count : ℕ → Document
    sequence : Documents → Document
    mapping : Fields → Document

  pub data Documents : Type 0 where
    nil : Documents
    cons : Document → Documents → Documents

  pub data Fields : Type 0 where
    end : Fields
    entry : String → Document → Fields → Fields

abbrev find : String → Fields → Document
find f end = absent
find f (entry g d rest) = let more = find f rest in if text_eq (codes f) (codes g) then d else more

abbrev field_of : Document → String → Document
field_of (mapping fs) f = find f fs
field_of absent f = absent
field_of (flag b) f = absent
field_of (word s) f = absent
field_of (count n) f = absent
field_of (sequence ds) f = absent

abbrev list : Documents → List Document
list nil = []
list (cons d ds) = d ∷ list ds

abbrev items_of : Document → List Document
items_of (sequence ds) = list ds
items_of absent = []
items_of (flag b) = []
items_of (word s) = []
items_of (count n) = []
items_of (mapping fs) = []

abbrev pairs : Fields → List (Document × Document)
pairs end = []
pairs (entry f d rest) = (word f, d) ∷ pairs rest

abbrev entries_of : Document → List (Document × Document)
entries_of (mapping fs) = pairs fs
entries_of absent = []
entries_of (flag b) = []
entries_of (word s) = []
entries_of (count n) = []
entries_of (sequence ds) = []

abbrev is_there : Document → Bool
is_there absent = false
is_there (flag b) = true
is_there (word s) = true
is_there (count n) = true
is_there (sequence ds) = true
is_there (mapping fs) = true

abbrev is_mapping : Document → Bool
is_mapping (mapping fs) = true
is_mapping absent = false
is_mapping (flag b) = false
is_mapping (word s) = false
is_mapping (count n) = false
is_mapping (sequence ds) = false

abbrev is_list : Document → Bool
is_list (sequence ds) = true
is_list absent = false
is_list (flag b) = false
is_list (word s) = false
is_list (count n) = false
is_list (mapping fs) = false

abbrev below : ℕ → ℕ → Option ℕ
below limit n = if ltb n limit then some n else none

abbrev read_as : (k : Kind) → Document → Option (Value k)
read_as bool (flag b) = some b
read_as text (word s) = some (codes s)
read_as u8 (count n) = below (2 ^ 8) n
read_as u16 (count n) = below (2 ^ 16) n
read_as u32 (count n) = below (2 ^ 32) n
read_as i16 (count n) = if ltb n (2 ^ 15) then some (pos n) else none
read_as k d = none

abbrev pub documents : Yaml
documents = record {
  Node = Document;
  is_defined = is_there;
  is_map = is_mapping;
  is_sequence = is_list;
  field = field_of;
  items = items_of;
  entries = entries_of;
  read = read_as;
  what = λ d. codes "bad conversion";
  position = λ d. none;
}

abbrev coil : Document
coil = mapping (
    entry "description" (word "Kicker") (
      entry "board" (count 2) (
        entry "port" (count 7) (
          entry "number" (count 9) (
            entry "power" (count 255) (
              entry "minPulseTime" (count 30) (
                entry "maxPulseTime" (count 0) (
                  entry "holdPower" (count 0) (
                    entry "holdPowerActivationTime" (count 0) (
                      entry "fastFlipSwitch" (count 0)
                        (entry "type" (word "solenoid") end)))))))))))

-- A switch, with `button` as it is given.
abbrev a_switch : ℕ → Bool → Document
a_switch n button = mapping (
    entry "description" (word "Switch") (
      entry "board" (count 2) (
        entry "port" (count 5) (
          entry "number" (count n)
            (entry "debounce" (count 10) (entry "button" (flag button) end))))))

abbrev board : Document
board = mapping (entry "number" (count 2) (entry "pollEvents" (flag true) end))

-- A machine whose only coil nothing bounds.
abbrev pub machine : Document
machine = mapping (
    entry "debug" (flag false) (
      entry "rom" (word "tz_94h") (
        entry "serialPort" (word "/dev/ttyUSB0") (
          entry "platform" (word "WPC") (
            entry "coinDoorClosedSwitch" (count 22) (
              entry "gameOnSolenoid" (count 31) (
                entry "boards" (sequence (cons board nil)) (
                  entry "switches"
                    (sequence (cons (a_switch 24 true) (cons (a_switch 20 false) nil)))
                    (entry "pwmOutput" (sequence (cons coil nil)) end)))))))))

abbrev pub orders : LedOrder → ℕ
orders o = 1

abbrev pub types : PwmTypes
types = record { solenoid = 1; flasher = 2; lamp = 3; motor = 4; shaker = 5 }

pub types-LampIsUnique : LampIsUnique types
types-LampIsUnique = record {
  solenoid_ne = λ e. ground arith;
  flasher_ne = λ e. ground arith;
  motor_ne = λ e. ground arith;
  shaker_ne = λ e. ground arith;
}

-- The object before its file is loaded.
abbrev pub fresh : Ppuc documents
fresh = record {
  config = machine;
  comm = table;
  coils = [];
  lamps = [];
  switches = [];
  coil_gi_mappings = [];
  switch_groups = [];
  debug = false;
  rom = [];
  serial = [];
  platform = sys11;
  coin_door_closed_switch = 0;
  game_on_solenoid = 0;
  switch_reply_delay_us = 0;
  disable_fast_flip_for_tests = false;
  force_hard_reset = false;
  skipped_boards = [];
}
