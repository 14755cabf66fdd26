-- ===== src/Startup/Invariant.antt =====
-- An invariant of the bus host through a whole startup attempt of src/PPUC.cpp.
use Prim.{Unit, tt}
use libppuc.Common.{
  ℕ, ◌≡◌, refl, sym, subst, Bool, true, false, List, [], ◌∷◌, push, mem, if◌then◌else◌, Bool-cases,
  inl, inr,
}
use libppuc.Common.Ints.{pos}
use libppuc.Protocol.{Protocol}
use libppuc.State.{Comm}
use libppuc.Config.{ConfigEvent, send_config_event}
use libppuc.Boards.{
  register_switch_board, finalize_configured_board_presence, set_active_switch_boards,
}
use libppuc.Session.{send_setup_frame, send_mapping_frames}
use libppuc.Runtime.{start}
use libppuc.Api.{set_gi_state}
use libppuc.Yaml.{Yaml}
use libppuc.Machine.{Ppuc, Platform}
use libppuc.Machine.Step.{modify}
use libppuc.Machine.Rules.{
  Yields, Keeps, bind-Yields, keep-Yields, pure-Yields, get-Yields, yield-Keeps, bind-Keeps,
  get-Keeps, pure-Keeps, lift-Keeps, modify-Keeps, demand-Keeps, if-Keeps, then-Keeps, keep,
}
use libppuc.Settings.Led.{LedOrder}
use libppuc.Startup.Codes.{Topic, BoardCodes}
use libppuc.Startup.Send.{on_comm, ask, abort_early, send_config}
use libppuc.Startup.Numbers.{Numbers}
use libppuc.Startup.Devices.{
  BoardLists, configure_board, configure_boards, configure_matrix, configure_switch,
  configure_pwm_output,
}
use libppuc.Startup.Stripes.{configure_led_stripe}
use libppuc.Startup.Attempt.{
  announce, announced, configure_devices, configure_chain, abort_after_failure, begin_session,
  startup_attempt,
}
use libppuc.Startup.Kept.{Holds, on_comm-Keeps, ask-Keeps, abort_early-Keeps, send_config-Keeps}
use libppuc.Startup.Unskipped.{
  configure_matrix-Safe, configure_switch-Safe, configure_pwm_output-Safe,
  configure_led_stripe-Safe,
}

-- What the startup calls keeps `P`; events are sent to boards that are not skipped.
pub record IsKept (p : Protocol) (skipped : List ℕ) (P : Comm → Type 0) : Type 0 where
  pub send :
      (e : ConfigEvent) (c : Comm)
      → mem e.board_id skipped ≡ false
      → P c
      → P (send_config_event p e c).1
  pub registers : (b : ℕ) (c : Comm) → P c → P (register_switch_board b c)
  pub announces :
      (lists : BoardLists) (ns : Numbers) (c : Comm) → P c → P (announced p lists ns skipped c)
  pub finalizes : (c : Comm) → P c → P (finalize_configured_board_presence c)
  pub activates : (bs : List ℕ) (c : Comm) → P c → P (set_active_switch_boards bs c)
  pub sets_up : (c : Comm) → P c → P (send_setup_frame p c).1
  pub maps : (c : Comm) → P c → P (send_mapping_frames p c).1
  pub sets_gi : (c : Comm) → P c → P (set_gi_state p (pos 1) (pos 8) c)
  pub starts : (c : Comm) → P c → P (start c)

abbrev AllUnskipped : List ℕ → List ℕ → Type 0
AllUnskipped skipped [] = Unit
AllUnskipped skipped (b ∷ bs) = (mem b skipped ≡ false) × AllUnskipped skipped bs

push-AllUnskipped :
    (skipped bs : List ℕ) (b : ℕ)
    → AllUnskipped skipped bs
    → mem b skipped ≡ false
    → AllUnskipped skipped (push bs b)
push-AllUnskipped skipped [] b h u = (u, tt)
push-AllUnskipped skipped (a ∷ bs) b (v, h) u = (v, push-AllUnskipped skipped bs b h u)

module _ (y : Yaml) (p : Protocol) (k : BoardCodes) (platform_code : Platform → ℕ)
    (neo : LedOrder → ℕ) (P : Comm → Type 0) (skipped : List ℕ) (kept : IsKept p skipped P) where
  open y use {Node, is_defined, field, items}

  abbrev Q : Ppuc y → Type 0
  Q = Holds y p k P skipped

  same_comm : (s : Ppuc y) → Q s → Q s
  same_comm s q = q

  polls-kept :
      (polls : Bool) (b : ℕ) (c : Comm)
      → P c
      → P ((if polls then register_switch_board b else λ d. d) c)
  polls-kept true b c h = kept.registers b c h
  polls-kept false b c h = h

  comm-Keeps : (f : Comm → Comm) → ((c : Comm) → P c → P (f c)) → Keeps Q (on_comm y f)
  comm-Keeps f h = on_comm-Keeps y p k P skipped kept.send f h

  early-Keeps : Keeps Q (abort_early y p k)
  early-Keeps = abort_early-Keeps y p k P skipped kept.send

  event-Keeps :
      (b : ℕ) (topic : Topic) (i : ℕ) (key : Topic) (v : ℕ)
      → mem b skipped ≡ false
      → Keeps Q (send_config y p k b topic i key v)
  event-Keeps b topic i key v u = send_config-Keeps y p k P skipped kept.send b topic i key v u

  polls-Keeps :
      (polls : Bool) (b : ℕ)
      → Keeps Q (on_comm y (if polls then register_switch_board b else λ d. d))
  polls-Keeps polls b = comm-Keeps _ (polls-kept polls b)

  configure_board-Keeps :
      (n : Node) (b : ℕ) → mem b skipped ≡ false → Keeps Q (configure_board y p k platform_code n b)
  unfolding configure_board
  configure_board-Keeps n b u =
      search (keep, event-Keeps, polls-Keeps, early-Keeps, same_comm) depth 30

  abbrev Polled : BoardLists → Type 0
  Polled lists = AllUnskipped skipped lists.polled

  polled_if :
      (polls : Bool) (b : ℕ) (lists : BoardLists)
      → Polled lists
      → (polls ≡ true → mem b skipped ≡ false)
      → Polled (
          let lists' : BoardLists = record lists { configured = push lists.configured b } in
          if polls then record lists' { polled = push lists'.polled b } else lists')
  polled_if true b lists h u = push-AllUnskipped skipped lists.polled b h (u refl)
  polled_if false b lists h u = h

  configure_boards-Yields :
      (ns : List Node) (lists : BoardLists)
      → Polled lists
      → Yields Q Polled (configure_boards y p k platform_code ns lists)
  unfolding configure_boards
  configure_boards-Yields [] lists h = pure-Yields Q Polled lists h
  configure_boards-Yields (n ∷ rest) lists h =
      bind-Yields Q (λ b. Unit) Polled _ _ (keep-Yields Q _ (lift-Keeps Q _))
        (λ b _. get-Yields Q Polled _ (λ t q. elim (Bool-cases (mem b t.skipped_boards)) [
          | inl e ↦ rw e (
              bind-Yields Q (λ polls. polls ≡ false) Polled _ _
                (pure-Yields Q (λ polls. polls ≡ false) false refl)
                (λ polls f. configure_boards-Yields rest _ (polled_if polls b lists h (λ t. cc))))
          | inr e ↦ rw e (
              bind-Yields Q (λ polls. Unit) Polled _ _
                (keep-Yields Q _ (configure_board-Keeps n b (subst (λ xs. mem b xs ≡ false) q.1 e)))
                (λ polls _.
                  configure_boards-Yields rest _
                    (polled_if polls b lists h (λ _. subst (λ xs. mem b xs ≡ false) q.1 e))))
        ]))

  matrix-Keeps : (n : Node) → Keeps Q (configure_matrix y p k platform_code n)
  matrix-Keeps n = configure_matrix-Safe y p k platform_code neo P skipped kept.send n

  switch-Keeps : (n : Node) → Keeps Q (configure_switch y p k platform_code n)
  switch-Keeps n = configure_switch-Safe y p k platform_code neo P skipped kept.send n

  output-Keeps : (n : Node) → Keeps Q (configure_pwm_output y p k platform_code n)
  output-Keeps n = configure_pwm_output-Safe y p k platform_code neo P skipped kept.send n

  stripe-Keeps : (n : Node) → Keeps Q (configure_led_stripe y p k platform_code neo n)
  stripe-Keeps n = configure_led_stripe-Safe y p k platform_code neo P skipped kept.send n

  configure_devices-Keeps :
      (config : Node) → Keeps Q (configure_devices y p k platform_code neo config)
  unfolding configure_devices
  configure_devices-Keeps config =
      search (keep, early-Keeps, matrix-Keeps, switch-Keeps, output-Keeps, stripe-Keeps) depth 30

  configure_chain-Keeps :
      (bs : List ℕ) → AllUnskipped skipped bs → Keeps Q (configure_chain y p k platform_code neo bs)
  unfolding configure_chain
  configure_chain-Keeps [] h = pure-Keeps Q tt
  configure_chain-Keeps (b ∷ bs) (u, h) = get-Keeps Q _ (λ s q.
      then-Keeps Q _ _
        (if-Keeps Q _ _ _ (then-Keeps Q _ _ (event-Keeps b _ 0 _ _ u) (event-Keeps b _ 1 _ _ u))
          (pure-Keeps Q tt))
        (configure_chain-Keeps bs h))

  finalize-Keeps : Keeps Q (on_comm y finalize_configured_board_presence)
  finalize-Keeps = comm-Keeps _ kept.finalizes

  activate-Keeps : (bs : List ℕ) → Keeps Q (on_comm y (set_active_switch_boards bs))
  activate-Keeps bs = comm-Keeps _ (kept.activates bs)

  start-Keeps : Keeps Q (on_comm y start)
  start-Keeps = comm-Keeps _ kept.starts

  gi-kept :
      (b : Bool) (c : Comm)
      → P c
      → P ((let f : Comm → Comm = if b then (λ d. d) else set_gi_state p (pos 1) (pos 8) in f) c)
  gi-kept true c h = h
  gi-kept false c h = kept.sets_gi c h

  gi-Keeps :
      (b : Bool) → Keeps Q (on_comm y (if b then (λ d. d) else set_gi_state p (pos 1) (pos 8)))
  gi-Keeps b = comm-Keeps _ (gi-kept b)

  setup-Keeps : Keeps Q (ask y (send_setup_frame p))
  setup-Keeps = ask-Keeps y p k P skipped kept.send _ kept.sets_up

  mapping-Keeps : Keeps Q (ask y (send_mapping_frames p))
  mapping-Keeps = ask-Keeps y p k P skipped kept.send _ kept.maps

  failure-Keeps : Keeps Q (abort_after_failure y p k platform_code neo)
  unfolding abort_after_failure
  failure-Keeps = search keep

  begin_session-Keeps :
      (bs : List ℕ) → AllUnskipped skipped bs → Keeps Q (begin_session y p k platform_code neo bs)
  unfolding begin_session
  begin_session-Keeps bs h = then-Keeps Q _ _ failure-Keeps (
      then-Keeps Q _ _ finalize-Keeps (
        then-Keeps Q _ _ (activate-Keeps bs) (
          then-Keeps Q _ _ (configure_chain-Keeps bs h) (
            then-Keeps Q _ _ early-Keeps (
              then-Keeps Q _ _ failure-Keeps (
                bind-Keeps Q _ _ setup-Keeps (λ set_up. then-Keeps Q _ _ (demand-Keeps Q set_up) (
                  bind-Keeps Q _ _ mapping-Keeps (λ mapped.
                    then-Keeps Q _ _ (demand-Keeps Q mapped)
                      (get-Keeps Q _ (λ s q. then-Keeps Q _ _ (gi-Keeps _) start-Keeps)))))))))))

  -- The lists that a startup begins with.
  clear-Keeps : Keeps Q (modify (λ s. record s { coils = []; lamps = []; switches = [] }))
  clear-Keeps = modify-Keeps Q _ same_comm

  pub startup_attempt-Keeps : Keeps Q (startup_attempt y p k platform_code neo)
  unfolding startup_attempt announce
  startup_attempt-Keeps = then-Keeps Q _ _ clear-Keeps (
      get-Keeps Q _ (λ s _.
        yield-Keeps Q Polled _ _ (configure_boards-Yields _ _ tt) (λ lists polled.
          then-Keeps Q _ _ early-Keeps (
            get-Keeps Q _ (λ t q. bind-Keeps Q _ _ (lift-Keeps Q _) (λ ns.
              then-Keeps Q _ _
                (comm-Keeps _ (λ c h.
                  subst (λ xs. P (announced p lists ns xs c)) (sym q.1)
                    (kept.announces lists ns c h)))
                (then-Keeps Q _ _ (configure_devices-Keeps _) (begin_session-Keeps _ polled))))))))
