-- ===== src/Lib.antt =====
-- Verification of libppuc, the host side of the PPUC pinball bus.
--
-- The program. A game drives the boards of a pinball machine over RS-485. `class PPUC`
-- (src/PPUC.cpp) reads the configuration and offers the operations of the game; `class RS485Comm`
-- (src/RS485Comm.cpp, src/RS485Comm.h) owns the serial port. Its worker thread sends queued events
-- and output frames, and after each frame lets the switch boards reply in a chain, one after the
-- other. A board that does not answer at startup is virtual: the host replies in its place. Lost
-- chains and disagreeing replies lead to a new session, under a new epoch. Configuration events and
-- firmware images are sent frame by frame, each to be acknowledged. The frames themselves are built
-- and read by io-boards/PPUCProtocolV2.h, which is not part of the repository.
--
-- The parts.
--   Common      shared names: tests and wrap-around on numbers, lists, maps, bytes, texts, ints
--   Protocol    the protocol header as a record of its constants and functions, with the laws that
--               are relied on: BitmapLaws, ConfigFrameLaws, EventLaws. Protocol/Sample has one that
--               satisfies them
--   State       the members of RS485Comm as the record Comm, and the World that it runs in
--   Anomaly     ReportAnomaly and GetRecentAnomalies; Ring is its list of entries, Limit its rate
--   Port        WriteBytes (Writing) and the readExact loops (Reading, Input) over libserialport
--   Outputs     QueueEvent, the hold-over of coils, and the queued snapshots
--   Boards      chain, presence, virtual boards, ownership masks and mappings
--   Session     the Send functions, ResyncSession, RestartBoards, ResetBoards, Connect, Disconnect
--   Switches    ApplySwitchBitmapDiff (Bitmap), ReceiveSwitchStateFrame (Receive), and
--               ReceiveSwitchStateChain with SendVirtualSwitchReply (Chain)
--   Config      SendConfigEvent (Retry) and ReceiveConfigAck (Wait); Acked, Found and Heard say
--               what it takes for an acknowledgement
--   Firmware    QueryBoardVersion, AwaitAdminReply and UpdateBoardFirmware (Transfer); Frames says
--               which frames and replies an update consists of
--   Runtime     the worker thread: run_round is a round of the loop in RS485Comm::Run
--   Skipped     SetSkippedBoardsCsv, with the strtol that it uses
--   Api         setters, and the operations at run time at the end of src/PPUC.cpp
--   Yaml        what is used of yaml-cpp as a record of operations; Outcome has exceptions as values,
--               and what decides whether a check passes
--   Settings    the configuration file: field checks (Fields, Color, Led, Rules), the validation
--               (Validate; Shapes, Grammar and Valid say what it accepts), ParseSwitchGroups and
--               ParseCoilGiMappings (Groups; Grouped and Buttons), and
--               WarnAboutUnprotectedSolenoids (Thermal; Judged and Warned)
--   Machine     the members of class PPUC as the record Ppuc, LoadConfiguration, and (Versions)
--               QueryBoardVersions; Step has the steps on Ppuc, which can throw, give up or
--               overflow a buffer
--   Startup     PPUC::Connect: modes (Modes), collected numbers (Numbers), configuration events
--               (Send, Devices, Stripes), and the attempt (Attempt). Invariant, with Kept and
--               Unskipped, has what an attempt keeps, Connect the outcomes; Codes has the constants
--               of io-boards/Event.h
--   Examples    a table of two boards on the sample protocol, a small configuration, and each
--               theorem applied to them
-- A definition has the name of the function that it models, in lower case with underscores, and
-- helpers that stand for a loop or a branch say so in their comment. A function that changes the
-- members takes a Comm and returns the new one, with its result in front.
--
-- The world. Clocks, reads and writes are answered by the World, whose functions give the answer of
-- the n-th call: how many bytes a read delivers, how many a write takes, what the clocks show. A
-- theorem that does not restrict the World holds for every behaviour of the port. A loop that waits
-- until a deadline runs for as many rounds as the World grants it before the deadline, so that any
-- length of wait is covered. Loops over data have a bound from the data: readExact gets as many
-- rounds as it wants bytes, the chunks of an update as many as the image has bytes, and the list of
-- skipped boards as many as its text has; each round that goes on uses up at least one of them.
--
-- Numbers. Values of uint8_t, uint16_t and uint32_t are natural numbers, with `% 2 ^ w` where the
-- code can pass the end of the type; clocks count microseconds. The indices of the loops over
-- mappings (send_mappings_from, index_from), of type uint16_t in the code, have no bound in the
-- model: PPUC::Connect announces no more entries than the protocol has bits.
--
-- Not modelled. Threads and mutexes: an operation is one critical section, and what several threads
-- do is a sequence of such steps. Sleeps, drains, line settings and debug output, which leave the
-- state alone. The old event frames (receiveEvent, PollEvents), which nothing calls. How
-- YAML::LoadFile parses a file, and the setters and getters of PPUC.h. The hash of named triggers
-- and the codes of topics, types and effects are parameters, since they come from io-boards.
pub mod Common
pub mod Protocol
pub mod State
pub mod Anomaly
pub mod Port
pub mod Outputs
pub mod Boards
pub mod Session
pub mod Switches
pub mod Config
pub mod Firmware
pub mod Runtime
pub mod Yaml
pub mod Settings
pub mod Machine
pub mod Startup
pub mod Skipped
pub mod Api
pub mod Examples
