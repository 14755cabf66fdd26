-- ===== src/Machine.antt =====
-- The state of `class PPUC` (src/PPUC.h, src/PPUC_structs.h) and LoadConfiguration of src/PPUC.cpp.
pub mod Step
pub mod Rules
pub mod Copies
pub mod Versions
pub mod Success
pub mod Load
use Prim.Native.String.{String}
use Prim.{Unit, tt}
use libppuc.Common.{
  ℕ, ◌^◌, ◌%◌, Bool, true, false, Option, none, some, List, [], ◌∷◌, ◌++◌, length, if◌then◌else◌,
  ltb, ◌==◌,
}
use libppuc.Common.Text.{Text, codes, text_eq}
use libppuc.Yaml.{Yaml, bool, text, Failure, yaml_error, runtime_error, Result}
use libppuc.State.{Comm}
use libppuc.Settings.Fields.{format_location, config_item_context, read_required_field}
use libppuc.Settings.Led.{LedOrder}
use libppuc.Settings.Validate.{validate_ppuc_configuration}
use libppuc.Settings.Thermal.{PwmTypes, Warning, warn_about_unprotected_solenoids}
use libppuc.Settings.Groups.{Groups, CoilGiMapping, parse_switch_groups, parse_coil_gi_mappings}
use libppuc.Machine.Step.{Outcome, value, thrown, overflow, M, ◌>>=◌, ◌>>◌, pure, lift, modify, get}

-- PPUCSwitch
pub record Switch : Type 0 where
  pub board : ℕ
  pub port : ℕ
  pub number : ℕ
  pub button : Bool
  pub description : Text

-- PPUCCoil
pub record Coil : Type 0 where
  pub board : ℕ
  pub port : ℕ
  pub kind : ℕ
  pub number : ℕ
  pub ball_search : Bool
  pub description : Text

-- PPUCLamp
pub record Lamp : Type 0 where
  pub board : ℕ
  pub port : ℕ
  pub kind : ℕ
  pub number : ℕ
  pub description : Text
  pub color : ℕ

-- The PLATFORM_ constants of io-boards/PPUCPlatforms.h.
pub data Platform : Type 0 where
  wpc data_east sys3 sys4 sys6 sys7 sys11 bally35 whitestar sam capcom : Platform

-- The members of `class PPUC`; `rom` and `serial` are what the two buffers hold before their zero.
pub record Ppuc (y : Yaml) : Type 0 where
  pub config : y.Node
  pub comm : Comm
  pub coils : List Coil
  pub lamps : List Lamp
  pub switches : List Switch
  pub coil_gi_mappings : List CoilGiMapping
  pub switch_groups : Groups
  pub debug : Bool
  pub rom : Text
  pub serial : Text
  pub platform : Platform
  pub coin_door_closed_switch : ℕ
  pub game_on_solenoid : ℕ
  pub switch_reply_delay_us : ℕ
  pub disable_fast_flip_for_tests : Bool
  pub force_hard_reset : Bool
  pub skipped_boards : List ℕ

-- The sizes of the buffers that PPUC::PPUC allocates.
abbrev pub rom_bytes : ℕ
rom_bytes = 16

abbrev pub serial_bytes : ℕ
serial_bytes = 128

-- `c_str()` as strcpy and strcmp read it.
unfoldable pub until_nul : Text → Text
until_nul [] = []
until_nul (c ∷ s) = let rest = until_nul s in if c == 0 then [] else c ∷ rest

unfoldable pub platform_of : Text → Platform
platform_of s =
    if text_eq s (codes "WPC")
    then wpc
    else if text_eq s (codes "DE")
    then data_east
    else if text_eq s (codes "SYS3")
    then sys3
    else if text_eq s (codes "SYS4")
    then sys4
    else if text_eq s (codes "SYS6")
    then sys6
    else if text_eq s (codes "SYS7")
    then sys7
    else if text_eq s (codes "SYS11")
    then sys11
    else if text_eq s (codes "BALLY35")
    then bally35
    else if text_eq s (codes "WHITESTAR")
    then whitestar
    else if text_eq s (codes "SAM")
    then sam
    else if text_eq s (codes "CAPCOM")
    then capcom
    else sys11

-- strcpy into a buffer: undefined where the text and its zero do not fit.
unfoldable pub strcpy : {S : Type 0} → ℕ → Text → M S Text
unfolding until_nul
strcpy size s = if ltb (length (until_nul s)) size then pure (until_nul s) else λ c. (overflow, c)

-- The handler of LoadConfiguration: YAML::Exception becomes std::runtime_error.
unfoldable pub name_file : Text → Failure → Failure
name_file file (yaml_error position what) = runtime_error (
    codes "invalid YAML configuration in '"
    ++ (file ++ (codes "' at " ++ (format_location position ++ (codes ": " ++ what)))))
name_file file (runtime_error what) = runtime_error what

module _ {S A : Type 0} where
  abbrev handled : (Failure → Failure) → Outcome A × S → Outcome A × S
  handled f (thrown e, s) = (thrown (f e), s)
  handled f (r, s) = (r, s)

  unfoldable pub catch : (Failure → Failure) → M S A → M S A
  catch f m s = handled f (m s)

module _ (y : Yaml) (neo : LedOrder → ℕ) (t : PwmTypes) where
  -- The try block of LoadConfiguration; `loaded` is what YAML::LoadFile returns.
  unfoldable pub load_file : Result y.Node → M (Ppuc y) (List Warning)
  load_file loaded = do
    config ← lift loaded
    modify (λ s. record s { config = config })
    lift (validate_ppuc_configuration y neo config)
    warnings ← lift (warn_about_unprotected_solenoids y t config)
    groups ← lift (parse_switch_groups y config)
    modify (λ s. record s { switch_groups = groups })
    mappings ← lift (parse_coil_gi_mappings y config)
    modify (λ s. record s { coil_gi_mappings = mappings })
    pure warnings

  -- What LoadConfiguration reads after that.
  unfoldable pub load_fields : M (Ppuc y) (Unit {0})
  unfolding strcpy platform_of until_nul
  load_fields = do
    s ← get
    let config = s.config
    let context = config_item_context y config (codes "root")
    debug ← lift (read_required_field y bool config "debug" context)
    modify (λ s. record s { debug = debug })
    rom ← lift (read_required_field y text config "rom" context)
    rom' ← strcpy rom_bytes rom
    modify (λ s. record s { rom = rom' })
    serial ← lift (read_required_field y text config "serialPort" context)
    serial' ← strcpy serial_bytes serial
    modify (λ s. record s { serial = serial' })
    platform ← lift (read_required_field y text config "platform" context)
    modify (λ s. record s { platform = platform_of (until_nul platform) })

  -- LoadConfiguration, with the warnings that it prints.
  unfoldable pub load_configuration : Text → Result y.Node → M (Ppuc y) (List Warning)
  unfolding load_file load_fields catch name_file
  load_configuration file loaded = do
    warnings ← catch (name_file file) (load_file loaded)
    load_fields
    pure warnings
