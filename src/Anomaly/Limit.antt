-- ===== src/Anomaly/Limit.antt =====
-- The rate limit of `ReportAnomaly`: what one report does, recorded or counted.
use native.Mathlib.Decide.{dec_lt}
use libppuc.Common.{
  ap, ◌∙◌, true, false, Option-cases, ==_refl, ℕ, ap, ◌+◌, ◌-◌, ◌%◌, ◌^◌, ◌≤◌, ◌<◌, ◌≡◌, refl, ◌⊎◌,
  inl, inr, some, List, inc_u32, arith,
}
use libppuc.State.{Anomaly, AnomalyState, LogEntry, Anomalies}
use libppuc.Anomaly.{index, update, is_limited, append, entry_text, report_at, recent}
use libppuc.Anomaly.Ring.{IsRing, remember, append-IsRing, recent-append}

abbrev pub Recent : AnomalyState → ℕ → Type 0
Recent s now = (t : ℕ) × (s.last_record ≡ some t) × (now - t < 5_000_000)

abbrev pub Idle : AnomalyState → ℕ → Type 0
Idle s now = (t : ℕ) → s.last_record ≡ some t → 5_000_000 ≤ now - t

is_limited_iff :
    (s : AnomalyState) (now : ℕ)
    → ((is_limited s now ≡ true) × Recent s now) ⊎ ((is_limited s now ≡ false) × Idle s now)
unfolding is_limited
is_limited_iff s now = elim (Option-cases s.last_record) [
  | inl e ↦ inr (rw (e, is_limited), λ t h. cc)
  | inr (t, e) ↦ elim (dec_lt (now - t) 5_000_000) [
    | yes h ↦ inl (ground arith, (t, e, h))
    | no h ↦ inr (ground arith, λ u k. ground arith)
  ]
]

-- `report_at` on each side of the test.
suppressed_lem :
    (k : Anomaly) (text : List ℕ) (now wall : ℕ) (a : Anomalies)
    → is_limited (a.of_kind k) now ≡ true
    → report_at k text now wall a ≡ record a {
      of_kind = update a.of_kind k (record (a.of_kind k) {
        total = inc_u32 (a.of_kind k).total;
        suppressed = inc_u32 (a.of_kind k).suppressed;
      });
    }
unfolding report_at is_limited
suppressed_lem k text now wall a h = rw h

recorded_lem :
    (k : Anomaly) (text : List ℕ) (now wall : ℕ) (a : Anomalies)
    → is_limited (a.of_kind k) now ≡ false
    → report_at k text now wall a
      ≡ append
          (record { text = entry_text text (a.of_kind k).suppressed; wall_ms = wall })
          (record a {
            of_kind = update a.of_kind k (record (a.of_kind k) {
              total = inc_u32 (a.of_kind k).total;
              suppressed = 0;
              last_record = some now;
            });
          })
unfolding report_at is_limited
recorded_lem k text now wall a h = rw h

recent-of_kind :
    (a : Anomalies) (f : Anomaly → AnomalyState) → recent (record a { of_kind = f }) ≡ recent a
unfolding recent
recent-of_kind a f = refl

of_kind-append : (e : LogEntry) (a : Anomalies) → (append e a).of_kind ≡ a.of_kind
unfolding append
of_kind-append e a = refl

IsRing-of_kind :
    (a : Anomalies) (f : Anomaly → AnomalyState) → IsRing a → IsRing (record a { of_kind = f })
IsRing-of_kind a f r = record {
  size = r.size;
  head_in = r.head_in;
  count_in = r.count_in;
  filling = r.filling;
}

update_self : (f : Anomaly → AnomalyState) (k : Anomaly) (s : AnomalyState) → update f k s k ≡ s
update_self f k s = rw (==_refl (index k))

-- A report keeps the ring in order: its size, the place of the next entry within it, and the count
-- of entries, which is that place until the ring is full.
pub report_at-IsRing :
    (k : Anomaly) (text : List ℕ) (now wall : ℕ) (a : Anomalies)
    → IsRing a
    → IsRing (report_at k text now wall a)
report_at-IsRing k text now wall a r = elim (is_limited_iff (a.of_kind k) now) [
  | inl (h, _) ↦ rw (suppressed_lem k text now wall a h) (IsRing-of_kind a _ r)
  | inr (h, _) ↦ rw (recorded_lem k text now wall a h) (append-IsRing _ _ (IsRing-of_kind a _ r))
]

state_suppressed :
    (k : Anomaly) (text : List ℕ) (now wall : ℕ) (a : Anomalies)
    → is_limited (a.of_kind k) now ≡ true
    → (report_at k text now wall a).of_kind k ≡ record (a.of_kind k) {
      total = inc_u32 (a.of_kind k).total;
      suppressed = inc_u32 (a.of_kind k).suppressed;
    }
state_suppressed k text now wall a h =
    ap (λ b. b.of_kind k) (suppressed_lem k text now wall a h) ∙ update_self a.of_kind k _

state_recorded :
    (k : Anomaly) (text : List ℕ) (now wall : ℕ) (a : Anomalies)
    → is_limited (a.of_kind k) now ≡ false
    → (report_at k text now wall a).of_kind k ≡ record (a.of_kind k) {
      total = inc_u32 (a.of_kind k).total;
      suppressed = 0;
      last_record = some now;
    }
state_recorded k text now wall a h =
    ap (λ b. b.of_kind k) (recorded_lem k text now wall a h)
    ∙ (ap (λ f. f k) (of_kind-append _ _) ∙ update_self a.of_kind k _)

recent_recorded :
    (k : Anomaly) (text : List ℕ) (now wall : ℕ) (a : Anomalies)
    → IsRing a
    → is_limited (a.of_kind k) now ≡ false
    → recent (report_at k text now wall a)
      ≡ remember
          (recent a)
          (record { text = entry_text text (a.of_kind k).suppressed; wall_ms = wall })
recent_recorded k text now wall a r h =
    ap recent (recorded_lem k text now wall a h)
    ∙ (recent-append _ _ (IsRing-of_kind a _ r)
        ∙ ap
            (λ q.
              remember q
                (record { text = entry_text text (a.of_kind k).suppressed; wall_ms = wall }))
            (recent-of_kind a _))

-- Every report counts in the total of its kind. One within five seconds of the last recorded
-- report of its kind is only counted as suppressed; any other enters the log with the number
-- suppressed since then, and starts the interval anew. The ring is in order before.
pub report_at_cases :
    (k : Anomaly) (text : List ℕ) (now wall : ℕ) (a : Anomalies)
    → IsRing a
    → let s = a.of_kind k in
      let b = report_at k text now wall a in
      ((b.of_kind k).total ≡ (s.total + 1) % 2 ^ 32)
      × ((Recent s now
            × (recent b ≡ recent a)
            × ((b.of_kind k).suppressed ≡ (s.suppressed + 1) % 2 ^ 32)
            × ((b.of_kind k).last_record ≡ s.last_record))
          ⊎ (Idle s now
              × (recent b
                  ≡ remember
                      (recent a)
                      (record { text = entry_text text s.suppressed; wall_ms = wall }))
              × ((b.of_kind k).suppressed ≡ 0)
              × ((b.of_kind k).last_record ≡ some now)))
report_at_cases k text now wall a r = elim (is_limited_iff (a.of_kind k) now) [
  | inl (h, t) ↦
      let e = state_suppressed k text now wall a h in
      (
        ap (λ s. s.total) e,
        inl (
          t,
          ap recent (suppressed_lem k text now wall a h) ∙ recent-of_kind a _,
          ap (λ s. s.suppressed) e,
          ap (λ s. s.last_record) e,
        ),
      )
  | inr (h, t) ↦
      let e = state_recorded k text now wall a h in
      (
        ap (λ s. s.total) e,
        inr (
          t,
          recent_recorded k text now wall a r h,
          ap (λ s. s.suppressed) e,
          ap (λ s. s.last_record) e,
        ),
      )
]
