-- ===== src/Machine/Versions.antt =====
-- PPUC::QueryBoardVersions of src/PPUC.cpp.
use libppuc.Common.{
  ℕ, zero, suc, ◌≡◌, refl, sym, subst, ap, ◌∙◌, inl, inr, Bool, true, false, not, ◌&&◌, ◌||◌, ◌==◌,
  Option, none, some, List, [], ◌∷◌, mem, map, arith, Bool-cases, Option-cases, if◌then◌else◌,
  if_elim,
}
use libppuc.Common.Sorted.{
  IsIncreasing, insert_unique, insert_unique-IsIncreasing, mem-insert_unique,
}
use Prim.{tt}
use libppuc.Protocol.{Protocol}
use libppuc.State.{admin_query_crc, Comm}
use libppuc.Port.{write_bytes}
use libppuc.Session.{flush, next_sequence}
use libppuc.Firmware.{
  BoardVersion, unanswered, version_in, version_loop, admin_frame, query_board_version,
}
use libppuc.Api.{query_board_versions}
use libppuc.Yaml.{Yaml, u8, Result, ok, err, yaml_error, ◌>>=◌, >>=-returns}
use libppuc.Settings.Fields.{read_node, list_of}
use libppuc.Settings.Grouped.{or_false}
use libppuc.Machine.{Ppuc}

module _ (y : Yaml) where
  open y use {Node, field, read, what, position}

  -- The loop over the boards of the configuration, into a std::set.
  unfoldable pub collect_boards : List ℕ → List Node → List ℕ → Result (List ℕ)
  collect_boards skipped [] set = ok set
  collect_boards skipped (n ∷ rest) set = do
    number ← read_node y u8 (field n "number")
    collect_boards skipped rest (if mem number skipped then set else insert_unique number set)

  -- PPUC::QueryBoardVersions
  unfoldable pub query_versions : Protocol → Ppuc y → Result (List BoardVersion × Comm)
  unfolding collect_boards
  query_versions p s = do
    boards ← collect_boards s.skipped_boards (list_of y (field s.config "boards")) []
    ok (query_board_versions p boards s.comm)

  -- The board is one of the list.
  abbrev has_board : ℕ → Node → Bool
  has_board b n = elim (read u8 (field n "number")) [ none ↦ false | some m ↦ b == m ]

  abbrev pub lists_board : ℕ → List Node → Bool
  lists_board b [] = false
  lists_board b (n ∷ ns) = has_board b n || lists_board b ns

  add_board :
      (skipped : List ℕ) (b m : ℕ) (set : List ℕ)
      → mem b (if mem m skipped then set else insert_unique m set)
        ≡ (mem b set || (b == m && not (mem b skipped)))
  add_board skipped b m set = elim (Bool-cases (mem m skipped)) [
    | inl e ↦ elim (Bool-cases (b == m)) [
      | inl q ↦ rw (e, q) (ground (arith, e, q))
      | inr q ↦ rw (e, q) (ground arith)
    ]
    | inr e ↦ elim (Bool-cases (b == m)) [
      | inl q ↦ rw (e, q) (ground (arith, e, q, mem-insert_unique b m set))
      | inr q ↦ rw (e, q) (ground (arith, mem-insert_unique b m set))
    ]
  ]

  set_or : (s x k r : Bool) → ((s || (x && k)) || (r && k)) ≡ (s || ((x || r) && k))
  set_or true x k r = refl
  set_or false true true r = refl
  set_or false true false true = refl
  set_or false true false false = refl
  set_or false false k r = refl

  collect_boards_lem :
      (skipped : List ℕ) (nodes : List Node) (set bs : List ℕ)
      → collect_boards skipped nodes set ≡ ok bs
      → IsIncreasing set
      → IsIncreasing bs
        × ((b : ℕ) → mem b bs ≡ (mem b set || (lists_board b nodes && not (mem b skipped))))
  unfolding collect_boards read_node
  collect_boards_lem skipped [] set bs h s =
      let q : set ≡ bs = cc in
      (subst IsIncreasing q s, λ b. ap (mem b) (sym q) ∙ or_false (mem b set))
  collect_boards_lem skipped (n ∷ rest) set bs h s =
      elim (Option-cases (read u8 (field n "number"))) [
        | inl r ↦
            let f = field n "number" in
            let e : collect_boards skipped (n ∷ rest) set ≡ err (yaml_error (position f) (what f)) =
              rw (collect_boards, read_node, r) refl in
            cc
        | inr (m, r) ↦
            let next = if mem m skipped then set else insert_unique m set in
            let e : collect_boards skipped (n ∷ rest) set ≡ collect_boards skipped rest next =
              rw (collect_boards, read_node, r) refl in
            let (i, h') = collect_boards_lem skipped rest next bs (sym e ∙ h) (
              if_elim IsIncreasing (mem m skipped) set (insert_unique m set) (λ _. s)
                (λ _. insert_unique-IsIncreasing m set s)) in
            let has : (b : ℕ) → has_board b n ≡ (b == m) =
              λ b. ap (λ o. let t : Bool = elim o [ none ↦ false | some i ↦ b == i ] in t) r in
            (
              i,
              λ b.
                  h' b
                  ∙ ap (λ t. t || (lists_board b rest && not (mem b skipped)))
                      (add_board skipped b m set)
                  ∙ set_or (mem b set) (b == m) (not (mem b skipped)) (lists_board b rest)
                  ∙ ap (λ t. mem b set || ((t || lists_board b rest) && not (mem b skipped)))
                      (sym (has b)),
            )
      ]

module _ (p : Protocol) where
  board-version_in :
      (b : ℕ) (frame : List ℕ) (v : BoardVersion) → version_in p b frame ≡ some v → v.board ≡ b
  unfolding version_in
  board-version_in b frame v h = ground (arith, h)

  -- A report that is taken, or what the rounds after it yield.
  taken :
      (b : ℕ) (o : Option BoardVersion) (c : Comm) (again : BoardVersion × Comm)
      → ((v : BoardVersion) → o ≡ some v → v.board ≡ b)
      → again.0.board ≡ b
      → (let r : BoardVersion × Comm = elim o [ none ↦ again | some v ↦ (v, c) ] in r).0.board ≡ b
  taken b none c again h k = k
  taken b (some v) c again h k = h v refl

  read_lem :
      (b : ℕ) (o : Option (List ℕ)) (c : Comm) (again : BoardVersion × Comm)
      → again.0.board ≡ b
      → (let r : BoardVersion × Comm = elim o [
        | none ↦ again
        | some f ↦ elim (version_in p b f) [ none ↦ again | some v ↦ (v, c) ]
      ] in
          r).0.board
        ≡ b
  read_lem b none c again k = k
  read_lem b (some f) c again k = taken b (version_in p b f) c again (board-version_in b f) k

  board-version_loop : (rounds b : ℕ) (c : Comm) → (version_loop p rounds b c).0.board ≡ b
  unfolding version_loop
  board-version_loop zero b c = refl
  board-version_loop (suc rounds) b c =
      let (frame, d) = admin_frame p p.admin_frame_bytes (admin_query_crc b) c in
      read_lem b frame d (version_loop p rounds b d) (board-version_loop rounds b d)

  board-query_board_version : (b : ℕ) (c : Comm) → (query_board_version p b c).0.board ≡ b
  unfolding query_board_version
  board-query_board_version b c =
      let c1 = flush c in
      let (sent, d) =
        write_bytes "AdminVersionQuery" (p.build_version_query_frame b c1.sequence c1.epoch)
          (next_sequence c1) in
      if_elim (λ (r : BoardVersion × Comm). r.0.board ≡ b)
        (not c.port_open || not (p.is_valid_board b)) (unanswered p b, c) _ (λ _. refl)
        (λ _.
          if_elim (λ (r : BoardVersion × Comm). r.0.board ≡ b) sent _ (unanswered p b, d)
            (λ _. board-version_loop (d.world.rounds d.world.calls) b _) (λ _. refl))

  boards-query_board_versions :
      (bs : List ℕ) (c : Comm) → map (λ v. v.board) (query_board_versions p bs c).0 ≡ bs
  unfolding query_board_versions
  boards-query_board_versions [] c = refl
  boards-query_board_versions (b ∷ bs) c =
      let (v, d) = query_board_version p b c in
      ap (λ x. x ∷ map (λ v. v.board) (query_board_versions p bs d).0)
        (board-query_board_version b c)
      ∙ ap (λ xs. b ∷ xs) (boards-query_board_versions bs d)

  -- When the numbers of the boards can be read, QueryBoardVersions has one entry for each configured
  -- board that is not skipped, and no other, in the order of their numbers, whether they answer or
  -- not.
  pub query_versions_lem :
      (y : Yaml) (s : Ppuc y) (vs : List BoardVersion) (c : Comm)
      → query_versions y p s ≡ ok (vs, c)
      → let asked = map (λ v. v.board) vs in
        IsIncreasing asked
        × ((b : ℕ)
            → mem b asked ≡ (
                lists_board y b (list_of y (y.field s.config "boards"))
                && not (mem b s.skipped_boards)))
  unfolding query_versions
  query_versions_lem y s vs c h =
      let nodes = list_of y (y.field s.config "boards") in
      let (bs, e, q) = >>=-returns (collect_boards y s.skipped_boards nodes []) _ (vs, c) h in
      let (i, has) = collect_boards_lem y s.skipped_boards nodes [] bs e tt in
      let r : query_board_versions p bs s.comm ≡ (vs, c) = cc in
      let asked : map (λ v. v.board) vs ≡ bs =
        ap (λ (x : List BoardVersion × Comm). map (λ v. v.board) x.0) (sym r)
        ∙ boards-query_board_versions bs s.comm in
      (subst IsIncreasing (sym asked) i, λ b. ap (mem b) asked ∙ has b)
