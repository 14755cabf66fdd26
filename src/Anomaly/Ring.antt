-- ===== src/Anomaly/Ring.antt =====
-- The ring of `ReportAnomaly` holds the last 32 recorded entries, oldest first.
use libppuc.Common.{
  ℕ, zero, suc, ◌+◌, ◌%◌, ◌≤◌, ◌<◌, ◌≡◌, ◌≢◌, refl, ◌∙◌, ap, List, ◌∷◌, length, get_or, set, push,
  pop, if◌then◌else◌, ltb, arith, length-set, get_or-set_self, get_or-set_ne,
}
use native.Mathlib.Decide.{dec_lt}
use libppuc.State.{LogEntry, Anomalies}
use libppuc.Anomaly.{log_size, empty_entry, append, collect, recent}

-- The ring is as the constructor makes it and as `append` keeps it.
pub record IsRing (a : Anomalies) : Type 0 where
  pub size : length a.log ≡ log_size
  pub head_in : a.log_head < log_size
  pub count_in : a.log_count ≤ log_size
  pub filling : a.log_count < log_size → a.log_head ≡ a.log_count

-- What the log is for: a list of the latest entries that drops the oldest beyond 32.
abbrev pub remember : List LogEntry → LogEntry → List LogEntry
remember q e = if ltb (length q) log_size then push q e else push (pop q) e

length-collect : (log : List LogEntry) (s i n : ℕ) → length (collect log s i n) ≡ n
unfolding collect
length-collect log s i zero = refl
length-collect log s i (suc n) = ap suc (length-collect log s (i + 1) n)

-- A write to a slot outside the range read changes nothing.
collect-set :
    (log : List LogEntry) (s i n p : ℕ) (e : LogEntry)
    → ((j : ℕ) → i ≤ j → j < i + n → p ≢ (s + j) % 32)
    → collect (set log p e) s i n ≡ collect log s i n
unfolding collect
collect-set log s i zero p e h = refl
collect-set log s i (suc n) p e h =
    rw (get_or-set_ne log p ((s + i) % 32) e empty_entry (h i (omega arith) (omega arith))) (
      ap (λ t. get_or log ((s + i) % 32) empty_entry ∷ t)
        (collect-set log s (i + 1) n p e (λ j a b. h j (omega arith) (omega arith))))

-- Only the sum of start and place counts.
collect_shift :
    (log : List LogEntry) (s i s' i' n : ℕ)
    → (s + i) % 32 ≡ (s' + i') % 32
    → collect log s i n ≡ collect log s' i' n
unfolding collect
collect_shift log s i s' i' zero h = refl
collect_shift log s i s' i' (suc n) h =
    rw (h, collect_shift log s (i + 1) s' (i' + 1) n (omega arith))

collect_last :
    (log : List LogEntry) (s i n : ℕ)
    → collect log s i (suc n)
      ≡ push (collect log s i n) (get_or log ((s + (i + n)) % 32) empty_entry)
unfolding collect
collect_last log s i zero = let e : i + 0 ≡ i = omega arith in rw e
collect_last log s i (suc n) =
    let e : i + 1 + n ≡ i + suc n = omega arith in
    ap (λ t. get_or log ((s + i) % 32) empty_entry ∷ t) (rw (← e) (collect_last log s (i + 1) n))

-- One entry more while there is room.
collect_grow :
    (log : List LogEntry) (n : ℕ) (e : LogEntry)
    → length log ≡ 32
    → n < 32
    → collect (set log n e) 0 0 (suc n) ≡ push (collect log 0 0 n) e
collect_grow log n e size h =
    let place : (0 + (0 + n)) % 32 ≡ n = omega arith in
    collect_last (set log n e) 0 0 n
    ∙ rw
        (
          place,
          get_or-set_self log n e empty_entry (omega arith),
          collect-set log 0 0 n n e (λ j a b. omega arith),
        )
        refl

pop-collect :
    (log : List LogEntry) (s i n : ℕ) → pop (collect log s i (suc n)) ≡ collect log s (i + 1) n
unfolding collect
pop-collect log s i n = refl

-- A full ring loses the entry under its head.
collect_turn :
    (log : List LogEntry) (s : ℕ) (e : LogEntry)
    → length log ≡ 32
    → s < 32
    → collect (set log s e) ((s + 1) % 32) 0 32 ≡ push (pop (collect log s 0 32)) e
collect_turn log s e size h =
    let place : ((s + 1) % 32 + (0 + 31)) % 32 ≡ s = omega arith in
    collect_last (set log s e) ((s + 1) % 32) 0 31
    ∙ rw
        (
          place,
          get_or-set_self log s e empty_entry (omega arith),
          collect-set log ((s + 1) % 32) 0 31 s e (λ j a b. omega arith),
          pop-collect log s 0 31,
        )
        (ap (λ q. push q e) (collect_shift log ((s + 1) % 32) 0 s (0 + 1) 31 (omega arith)))

-- `append` keeps the ring in order.
pub append-IsRing : (e : LogEntry) (a : Anomalies) → IsRing a → IsRing (append e a)
unfolding append
append-IsRing e a r = record {
  size = omega (arith, length-set a.log a.log_head e, r.size);
  head_in = omega arith;
  count_in = ground arith;
  filling = λ h. ground (arith, r.filling);
}

recent_filling : (a : Anomalies) → a.log_count < 32 → recent a ≡ collect a.log 0 0 a.log_count
unfolding recent
recent_filling a h = ground arith

recent_full : (a : Anomalies) → a.log_count ≡ 32 → recent a ≡ collect a.log a.log_head 0 32
unfolding recent
recent_full a h = rw h

append_filling :
    (e : LogEntry) (a : Anomalies)
    → IsRing a
    → a.log_count < 32
    → recent (append e a) ≡ collect (set a.log a.log_count e) 0 0 (suc a.log_count)
unfolding recent append
append_filling e a r h = ground arith

append_full :
    (e : LogEntry) (a : Anomalies)
    → a.log_count ≡ 32
    → recent (append e a) ≡ collect (set a.log a.log_head e) ((a.log_head + 1) % 32) 0 32
unfolding recent append
append_full e a h = ground arith

length-recent : (a : Anomalies) → length (recent a) ≡ a.log_count
unfolding recent
length-recent a = length-collect a.log _ 0 a.log_count

-- Recording an entry in a ring that is in order adds it behind the others, and drops the oldest one
-- from a full log.
pub recent-append :
    (e : LogEntry) (a : Anomalies) → IsRing a → recent (append e a) ≡ remember (recent a) e
recent-append e a r = elim (dec_lt a.log_count 32) [
  | yes h ↦ ground (
    arith,
    append_filling e a r h,
    recent_filling a h,
    length-recent a,
    collect_grow a.log a.log_count e r.size h,
  )
  | no h ↦
      let full : a.log_count ≡ 32 = omega (arith, r.count_in) in
      ground (
        arith,
        append_full e a full,
        recent_full a full,
        length-recent a,
        collect_turn a.log a.log_head e r.size r.head_in,
      )
]
