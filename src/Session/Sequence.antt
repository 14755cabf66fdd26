-- ===== src/Session/Sequence.antt =====
-- The frames of a session on a port that takes every byte: their order and their numbers, for
-- `SendMappingFrames` and `ResyncSession` of src/RS485Comm.cpp.
use Prim.Native.String.{String}
use libppuc.Port.Writing.{take_all}
use libppuc.Common.{
  ℕ, zero, suc, ◌+◌, ◌≡◌, refl, sym, ap, subst, ◌∙◌, Bool, true, false, Option, some, List, [], ◌∷◌,
  ◌++◌, length, push, if◌then◌else◌, ==_refl, inc_u8, arith, length-append,
}
use mathlib.Core.List.{append_assoc, append-nil}
use libppuc.Protocol.{Protocol}
use libppuc.State.{Mappings, World, Comm}
use libppuc.Port.{blocking_write, write_result, write_bytes}
use libppuc.Session.{next_sequence, send_mapping_frame, send_mappings_from, send_mapping_frames}

-- A port that takes every byte of every write.
abbrev pub Accepts : World → Type 0
Accepts w = (n k : ℕ) → w.accepts n k ≡ some k

-- The sequence number after `n` more frames.
abbrev pub advance : ℕ → ℕ → ℕ
advance zero s = s
advance (suc n) s = advance n (inc_u8 s)

advance_add : (n m s : ℕ) → advance (n + m) s ≡ advance m (advance n s)
advance_add zero m s = let e : 0 + m ≡ m = omega arith in ap (λ k. advance k s) e
advance_add (suc n) m s =
    let e : suc n + m ≡ suc (n + m) = omega arith in
    ap (λ k. advance k s) e ∙ advance_add n m (inc_u8 s)

-- From one state to the other exactly these frames were written, each with a number of its own.
pub record Wrote (fs : List (List ℕ)) (c d : Comm) : Type 0 where
  pub sent : d.world.sent ≡ c.world.sent ++ fs
  pub accepts : d.world.accepts ≡ c.world.accepts
  pub connected : d.port_open ≡ c.port_open
  pub epoch : d.epoch ≡ c.epoch
  pub mappings : d.mappings ≡ c.mappings
  pub config : d.runtime_config ≡ c.runtime_config
  pub outputs : d.outputs ≡ c.outputs
  pub enabled : d.runtime_enabled ≡ c.runtime_enabled
  pub sequence : d.sequence ≡ advance (length fs) c.sequence

pub Wrote-nil : (c : Comm) → Wrote [] c c
Wrote-nil c = record {
  sent = sym (append-nil c.world.sent);
  accepts = refl;
  connected = refl;
  epoch = refl;
  mappings = refl;
  config = refl;
  outputs = refl;
  enabled = refl;
  sequence = refl;
}

pub Wrote-trans :
    {fs gs : List (List ℕ)} {c d e : Comm} → Wrote fs c d → Wrote gs d e → Wrote (fs ++ gs) c e
Wrote-trans {fs} {gs} {c} {d} {e} s t = record {
  sent = t.sent ∙ (ap (λ x. x ++ gs) s.sent ∙ append_assoc c.world.sent fs gs);
  accepts = t.accepts ∙ s.accepts;
  connected = t.connected ∙ s.connected;
  epoch = t.epoch ∙ s.epoch;
  mappings = t.mappings ∙ s.mappings;
  config = t.config ∙ s.config;
  outputs = t.outputs ∙ s.outputs;
  enabled = t.enabled ∙ s.enabled;
  sequence =
      t.sequence
      ∙ (ap (advance (length gs)) s.sequence
          ∙ (sym (advance_add (length fs) (length gs) c.sequence)
              ∙ ap (λ n. advance n c.sequence) (sym (length-append fs gs))));
}

-- The world after a write that was taken whole.
abbrev after : List ℕ → World → World
after b w = record w { calls = w.calls + 1; sent = push w.sent b }

accepted : (b : List ℕ) (w : World) → Accepts w → blocking_write b w ≡ (some (length b), after b w)
unfolding blocking_write
accepted b w a = rw (a w.calls (length b), blocking_write, take_all b) refl

pub if_true {ℓ} : {A : Type ℓ} (b : Bool) (x y : A) → b ≡ true → (if b then x else y) ≡ x
if_true true x y h = refl
if_true false x y h = ground arith

write_after :
    (s : String) (b : List ℕ) (c : Comm)
    → c.port_open ≡ true
    → Accepts c.world
    → write_bytes s b c ≡ (true, record c { world = after b c.world })
unfolding write_bytes
write_after s b c o a =
    if_true c.port_open _ _ o
    ∙ (ap {B = Bool × Comm}
          (λ (r : Option ℕ × World). write_result s b (record c { world = r.1 }) r.0)
          (accepted b c.world a)
        ∙ rw (write_result, ==_refl (length b)) refl)

-- One frame that takes the next sequence number.
pub write_accepted :
    (s : String) (b : List ℕ) (c : Comm)
    → c.port_open ≡ true
    → Accepts c.world
    → let (ok, d) = write_bytes s b (next_sequence c) in (ok ≡ true) × Wrote (b ∷ []) c d
write_accepted s b c o a = rw (write_after s b (next_sequence c) o a) (
  refl,
  record {
    sent = refl;
    accepts = refl;
    connected = refl;
    epoch = refl;
    mappings = refl;
    config = refl;
    outputs = refl;
    enabled = refl;
    sequence = refl;
  },
)

module _ (p : Protocol) where
  -- The frames that tell the boards the numbers behind the indices of one domain.
  pub mapping_frames : ℕ → ℕ → ℕ → ℕ → List ℕ → List (List ℕ)
  mapping_frames domain i s e [] = []
  mapping_frames domain i s e (n ∷ ns) =
      p.build_mapping_frame p.no_board s e domain i n
      ∷ mapping_frames domain (i + 1) (inc_u8 s) e ns

  length-mapping_frames :
      (domain i s e : ℕ) (ns : List ℕ) → length (mapping_frames domain i s e ns) ≡ length ns
  unfolding mapping_frames
  length-mapping_frames domain i s e [] = refl
  length-mapping_frames domain i s e (n ∷ ns) =
      ap suc (length-mapping_frames domain (i + 1) (inc_u8 s) e ns)

  send_mapping_frame_lem :
      (domain i n : ℕ) (c : Comm)
      → c.port_open ≡ true
      → Accepts c.world
      → let (ok, d) = send_mapping_frame p domain i n c in
        (ok ≡ true)
        × Wrote (p.build_mapping_frame p.no_board c.sequence c.epoch domain i n ∷ []) c d
  unfolding send_mapping_frame
  send_mapping_frame_lem domain i n c o a =
      let b = p.build_mapping_frame p.no_board c.sequence c.epoch domain i n in
      subst (λ (r : Bool × Comm). (r.0 ≡ true) × Wrote (b ∷ []) c r.1)
        (sym (if_true c.port_open (write_bytes "MappingFrame" b (next_sequence c)) (false, c) o))
        (write_accepted "MappingFrame" b c o a)

  send_mappings_from_lem :
      (domain i : ℕ) (ns : List ℕ) (c : Comm)
      → c.port_open ≡ true
      → Accepts c.world
      → let (ok, d) = send_mappings_from p domain i ns c in
        (ok ≡ true) × Wrote (mapping_frames domain i c.sequence c.epoch ns) c d
  unfolding send_mappings_from mapping_frames
  send_mappings_from_lem domain i [] c o a = (refl, Wrote-nil c)
  send_mappings_from_lem domain i (n ∷ ns) c o a =
      let (h, w) = send_mapping_frame_lem domain i n c o a in
      let d = (send_mapping_frame p domain i n c).1 in
      let (k, v) =
        send_mappings_from_lem domain (i + 1) ns d (w.connected ∙ o)
          (λ x y. rw w.accepts (a x y)) in
      let v' =
        subst
          (λ s.
            Wrote (mapping_frames domain (i + 1) s c.epoch ns) d
              (send_mappings_from p domain (i + 1) ns d).1)
          w.sequence
          (subst
            (λ e.
              Wrote (mapping_frames domain (i + 1) d.sequence e ns) d
                (send_mappings_from p domain (i + 1) ns d).1)
            w.epoch v) in
      rw (h, send_mappings_from) (k, Wrote-trans w v')

  -- The three loops of SendMappingFrames in their order.
  abbrev pub all_mapping_frames : Comm → List (List ℕ)
  all_mapping_frames c =
      let m = c.mappings in
      let s1 = advance (length m.coil_index_to_number) c.sequence in
      let s2 = advance (length m.lamp_index_to_number) s1 in
      mapping_frames p.domain_coil 0 c.sequence c.epoch m.coil_index_to_number
      ++ (mapping_frames p.domain_lamp 0 s1 c.epoch m.lamp_index_to_number
          ++ mapping_frames p.domain_switch 0 s2 c.epoch m.switch_index_to_number)

  -- A loop that starts in a state after other frames.
  next_loop :
      (domain : ℕ) (f : Mappings → List ℕ) (s : ℕ) (fs : List (List ℕ)) (c d : Comm)
      → c.port_open ≡ true
      → Accepts c.world
      → Wrote fs c d
      → advance (length fs) c.sequence ≡ s
      → let (ok, e) = send_mappings_from p domain 0 (f d.mappings) d in
        (ok ≡ true) × Wrote (mapping_frames domain 0 s c.epoch (f c.mappings)) d e
  next_loop domain f s fs c d o a w q =
      let (k, v) =
        send_mappings_from_lem domain 0 (f d.mappings) d (w.connected ∙ o)
          (λ x y. rw w.accepts (a x y)) in
      let e = (send_mappings_from p domain 0 (f d.mappings) d).1 in
      (
        k,
        subst (λ t. Wrote (mapping_frames domain 0 t c.epoch (f c.mappings)) d e) (w.sequence ∙ q)
            (subst (λ t. Wrote (mapping_frames domain 0 d.sequence t (f c.mappings)) d e) w.epoch
              (subst (λ t. Wrote (mapping_frames domain 0 d.sequence d.epoch (f t)) d e) w.mappings
                v)),
      )

  -- On a port that takes every byte SendMappingFrames succeeds, and it has written the mapping
  -- frames of the coils, of the lamps and of the switches, in this order and numbered on.
  pub send_mapping_frames_lem :
      (c : Comm)
      → c.port_open ≡ true
      → Accepts c.world
      → let (ok, d) = send_mapping_frames p c in (ok ≡ true) × Wrote (all_mapping_frames c) c d
  unfolding send_mapping_frames
  send_mapping_frames_lem c o a =
      let m = c.mappings in
      let n1 = length-mapping_frames p.domain_coil 0 c.sequence c.epoch m.coil_index_to_number in
      let (h1, w1) = send_mappings_from_lem p.domain_coil 0 m.coil_index_to_number c o a in
      let c1 = (send_mappings_from p p.domain_coil 0 m.coil_index_to_number c).1 in
      let s1 = advance (length m.coil_index_to_number) c.sequence in
      let (h2, w2) =
        next_loop p.domain_lamp (λ m. m.lamp_index_to_number) s1 _ c c1 o a w1
          (ap (λ k. advance k c.sequence) n1) in
      let n2 = length-mapping_frames p.domain_lamp 0 s1 c.epoch m.lamp_index_to_number in
      let c2 = (send_mappings_from p p.domain_lamp 0 c1.mappings.lamp_index_to_number c1).1 in
      let w12 = Wrote-trans w1 w2 in
      let s2 = advance (length m.lamp_index_to_number) s1 in
      let f1 = mapping_frames p.domain_coil 0 c.sequence c.epoch m.coil_index_to_number in
      let f2 = mapping_frames p.domain_lamp 0 s1 c.epoch m.lamp_index_to_number in
      let q : advance (length (f1 ++ f2)) c.sequence ≡ s2 =
        ap (λ n. advance n c.sequence) (length-append f1 f2)
        ∙ (advance_add (length f1) (length f2) c.sequence
            ∙ (ap (λ n. advance (length f2) (advance n c.sequence)) n1
                ∙ ap (λ n. advance n s1) n2)) in
      let (h3, w3) =
        next_loop p.domain_switch (λ m. m.switch_index_to_number) s2 _ c c2 o a w12 q in
      rw (h1, h2, send_mapping_frames) (h3, Wrote-trans w1 (Wrote-trans w2 w3))
