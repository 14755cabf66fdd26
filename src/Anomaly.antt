-- ===== src/Anomaly.antt =====
-- `RS485Comm::ReportAnomaly` and `GetRecentAnomalies` (src/RS485Comm.cpp): counters, the rate limit
-- per kind, and the ring of the last 32 entries. The print under m_debug is left out.
pub mod Ring
pub mod Limit
use Prim.Native.String.{String}
use libppuc.Common.{
  ℕ, zero, suc, ◌+◌, ◌-◌, ◌%◌, ◌^◌, Bool, true, false, Option, none, some, List, [], ◌∷◌, ◌++◌,
  length, get_or, set, take, if◌then◌else◌, ◌==◌, ltb, inc_u32,
}
use libppuc.Common.Text.{codes, decimal}
use libppuc.State.{
  Anomaly, serial_write, frame_crc, config_ack, switch_chain_miss, epoch_mismatch, board_status,
  queue_overflow, session_resync, AnomalyState, LogEntry, Anomalies, Message, World, Comm,
}

-- The place of a kind in the enumeration.
abbrev pub index : Anomaly → ℕ
index serial_write = 0
index frame_crc = 1
index config_ack = 2
index switch_chain_miss = 3
index epoch_mismatch = 4
index board_status = 5
index queue_overflow = 6
index session_resync = 7

abbrev pub update : (Anomaly → AnomalyState) → Anomaly → AnomalyState → Anomaly → AnomalyState
update f k s j = if index k == index j then s else f j

abbrev pub log_size : ℕ
log_size = 32

-- kRepeatInterval, in microseconds
abbrev pub repeat_interval : ℕ
repeat_interval = 5_000_000

abbrev pub empty_entry : LogEntry
empty_entry = record { text = []; wall_ms = 0 }

-- Whether a report at `now` falls within the interval after the last recorded one.
unfoldable pub is_limited : AnomalyState → ℕ → Bool
is_limited s now = elim s.last_record [ none ↦ false | some t ↦ ltb (now - t) repeat_interval ]

-- The write into the ring.
unfoldable pub append : LogEntry → Anomalies → Anomalies
append e a = record a {
  log = set a.log a.log_head e;
  log_head = (a.log_head + 1) % log_size;
  log_count = if ltb a.log_count log_size then a.log_count + 1 else a.log_count;
}

repeats_text : ℕ → List ℕ
repeats_text n = if ltb 0 n then codes " (+" ++ (decimal n ++ codes " more in the last 5s)") else []

-- The two buffers hold 1023 and 175 characters.
unfoldable pub entry_text : List ℕ → ℕ → List ℕ
unfolding repeats_text
entry_text text suppressed = take 175 (take 1023 text ++ repeats_text suppressed)

-- One report of a formatted text, at the times that the two clocks show.
unfoldable pub report_at : Anomaly → List ℕ → ℕ → ℕ → Anomalies → Anomalies
report_at k text now wall a =
    let s : AnomalyState = record (a.of_kind k) { total = inc_u32 (a.of_kind k).total } in
    if is_limited s now
    then record a { of_kind = update a.of_kind k (record s { suppressed = inc_u32 s.suppressed }) }
    else append (record { text = entry_text text s.suppressed; wall_ms = wall })
        (record a {
          of_kind = update a.of_kind k (record s { suppressed = 0; last_record = some now });
        })

unfoldable pub report : Anomaly → Message → Comm → Comm
report k m c = record c {
  anomalies = report_at k (w.format m) (w.steady w.calls) (w.wall w.calls) c.anomalies;
  world = record w { calls = w.calls + 1 };
}
  where
    w : World
    w = c.world

-- The loop over the ring, `n` entries from place `i` after `start`.
unfoldable pub collect : List LogEntry → ℕ → ℕ → ℕ → List LogEntry
collect log start i zero = []
collect log start i (suc n) =
    get_or log ((start + i) % log_size) empty_entry ∷ collect log start (i + 1) n

-- The entries, oldest first.
unfoldable pub recent : Anomalies → List LogEntry
recent a = collect a.log (if a.log_count == log_size then a.log_head else 0) 0 a.log_count

anomaly_name : Anomaly → String
anomaly_name serial_write = "serial write"
anomaly_name frame_crc = "frame CRC"
anomaly_name config_ack = "config ack"
anomaly_name switch_chain_miss = "switch chain miss"
anomaly_name epoch_mismatch = "epoch mismatch"
anomaly_name board_status = "board status"
anomaly_name queue_overflow = "output queue overflow"
anomaly_name session_resync = "session resync"

entry_lines : List LogEntry → List (List ℕ)
entry_lines [] = []
entry_lines (e ∷ es) = (decimal e.wall_ms ++ (codes " " ++ e.text)) ∷ entry_lines es

pending_lines : (Anomaly → AnomalyState) → List Anomaly → List (List ℕ)
pending_lines f [] = []
pending_lines f (k ∷ ks) =
    let n = (f k).suppressed in
    let rest = pending_lines f ks in
    if n == 0
    then rest
    else (codes "("
        ++ (decimal n
            ++ (codes " further "
                ++ (codes (anomaly_name k) ++ codes " occurrence(s) not recorded individually)"))))
      ∷ rest

abbrev pub kinds : List Anomaly
kinds =
    serial_write ∷ frame_crc ∷ config_ack ∷ switch_chain_miss ∷ epoch_mismatch ∷ board_status
    ∷ queue_overflow ∷ session_resync ∷ []

unfoldable pub get_recent_anomalies : Anomalies → List (List ℕ)
unfolding entry_lines pending_lines anomaly_name recent
get_recent_anomalies a = entry_lines (recent a) ++ pending_lines a.of_kind kinds
