-- ===== src/Settlement/Commit.antt =====
-- What the chunks of pnl-settlement.service.ts do to the table of shipments.
use shipment_tracking_system.Prelude.{
  ℕ, ◌+◌, String, Bool, true, false, ◌&&◌, Option, none, some, List, [], ◌∷◌, ◌++◌, map, ◌≡◌, ◌≢◌,
  inl, inr, refl, sym, ◌∙◌, ap, arith, Bool-cases, All, In, is_some, eq_iff, IsUnique,
  if◌then◌else◌,
}
use mathlib.Core.Path.{ap₂}
use shipment_tracking_system.Settlement.Columns.{Numbers}
use shipment_tracking_system.Settlement.Parser.{
  ParsedSettlementRow, Sheets, key_of, parse_settlement_workbook,
}
use shipment_tracking_system.Settlement.Service.{
  all_chunks, InvoicePeriodInput, Shipment, matches, find_value, settle, settle_with, updated_by,
  run_chunks, commit, row_key, same_text,
}
use shipment_tracking_system.Settlement.Keys.{parsed-IsUnique}
use shipment_tracking_system.Settlement.Chunks.{concat, chunks_cover}

module _ (n : Numbers) where
  same_text-eq :
      (o : Option String) (s t : String) → same_text n o s ≡ true → same_text n o t ≡ true → t ≡ s
  same_text-eq none s t p q = absurd (cc)
  same_text-eq (some x) s t p q = sym ((eq_iff x t).0 q) ∙ (eq_iff x s).0 p

  -- What one match excludes: a row with another key.
  matches-key :
      (c : Shipment n) (v w : ParsedSettlementRow n)
      → matches n c v ≡ true
      → matches n c w ≡ true
      → row_key n w ≡ row_key n v
  matches-key c v w p q =
      let lt = same_text-eq c.lt_number v.lt_number w.lt_number (left _ _ p) (left _ _ q) in
      let to = same_text-eq c.to_number v.to_number w.to_number (right _ _ p) (right _ _ q) in
      ap₂ key_of lt to
    where
      left : (a b : Bool) → a && b ≡ true → a ≡ true
      left a b h = ground (arith, h)

      right : (a b : Bool) → a && b ≡ true → b ≡ true
      right a b h = ground (arith, h)

  find_value-In :
      (c : Shipment n) (vs : List (ParsedSettlementRow n)) (v : ParsedSettlementRow n)
      → find_value n c vs ≡ some v
      → In v vs × (matches n c v ≡ true)
  find_value-In c [] v e = absurd (cc)
  find_value-In c (x ∷ vs) v e = elim (Bool-cases (matches n c x)) [
    | inl y ↦
        let e' : some x ≡ some v = rw y at e in
        let same : v ≡ x = ground (arith, e') in (inl same, rw same y)
    | inr f ↦
        let e' : find_value n c vs ≡ some v = rw f at e in
        let (i, m) = find_value-In c vs v e' in (inr i, m)
  ]

  find_value-none :
      (c : Shipment n) (vs : List (ParsedSettlementRow n))
      → All (λ w. matches n c w ≡ false) vs
      → find_value n c vs ≡ none
  find_value-none c [] h = refl
  find_value-none c (w ∷ vs) h = rw h.0 (find_value-none c vs h.1)

  find_value-append :
      (c : Shipment n) (vs ws : List (ParsedSettlementRow n))
      → find_value n c (vs ++ ws)
        ≡ (if is_some (find_value n c vs) then find_value n c vs else find_value n c ws)
  find_value-append c [] ws = refl
  find_value-append c (v ∷ vs) ws = elim (Bool-cases (matches n c v)) [
    | inl y ↦ rw y refl
    | inr f ↦ rw f (find_value-append c vs ws)
  ]

  -- A settled shipment keeps its numbers, so that the same rows match it.
  find_value-settled :
      (period : InvoicePeriodInput) (now : ℕ) (c : Shipment n) (o : Option (ParsedSettlementRow n))
      (ws : List (ParsedSettlementRow n))
      → find_value n (settle_with n period now c o) ws ≡ find_value n c ws
  find_value-settled period now c none ws = refl
  find_value-settled period now c (some v) [] = refl
  find_value-settled period now c (some v) (w ∷ ws) = elim (Bool-cases (matches n c w)) [
    | inl y ↦ rw y refl
    | inr f ↦ rw f (find_value-settled period now c (some v) ws)
  ]

  -- A shipment that one of the first rows matches, no other row does.
  others_none :
      (c : Shipment n) (vs ws : List (ParsedSettlementRow n)) (v : ParsedSettlementRow n)
      → IsUnique (row_key n) (vs ++ ws)
      → find_value n c vs ≡ some v
      → find_value n c ws ≡ none
  others_none c [] ws v u e = absurd (cc)
  others_none c (x ∷ vs) ws v u e = elim (Bool-cases (matches n c x)) [
    | inl y ↦ find_value-none c ws (apart vs u.0 y)
    | inr f ↦ let e' : find_value n c vs ≡ some v = rw f at e in others_none c vs ws v u.1 e'
  ]
    where
      unmatched :
          (l : List (ParsedSettlementRow n))
          → All (λ w. row_key n w ≢ row_key n x) l
          → matches n c x ≡ true
          → All (λ w. matches n c w ≡ false) l
      unmatched [] h y = tt
      unmatched (w ∷ l) h y = (
        elim (Bool-cases (matches n c w)) [
          | inl z ↦ absurd (h.0 (matches-key c x w y z))
          | inr f ↦ f
        ],
        unmatched l h.1 y,
      )

      apart :
          (l : List (ParsedSettlementRow n))
          → All (λ w. row_key n w ≢ row_key n x) (l ++ ws)
          → matches n c x ≡ true
          → All (λ w. matches n c w ≡ false) ws
      apart [] h y = unmatched ws h y
      apart (w ∷ l) h y = apart l h.1 y

  module _ (period : InvoicePeriodInput) (now : ℕ) where
    -- Two chunks, one after the other, are one statement.
    settle-append :
        (vs ws : List (ParsedSettlementRow n)) (c : Shipment n)
        → IsUnique (row_key n) (vs ++ ws)
        → (settle n period now ws (settle n period now vs c) ≡ settle n period now (vs ++ ws) c)
          × ((if is_some (find_value n c vs) then 1 else 0)
                + (if is_some (find_value n (settle n period now vs c) ws) then 1 else 0)
              ≡ (if is_some (find_value n c (vs ++ ws)) then 1 else 0))
    settle-append vs ws c u =
        rw (find_value-settled period now c (find_value n c vs) ws, find_value-append c vs ws)
          (go (find_value n c vs) refl)
      where
        go :
            (o : Option (ParsedSettlementRow n))
            → find_value n c vs ≡ o
            → (settle_with n period now (settle_with n period now c o) (find_value n c ws)
                ≡ settle_with n period now c (if is_some o then o else find_value n c ws))
              × ((if is_some o then 1 else 0) + (if is_some (find_value n c ws) then 1 else 0)
                  ≡ (if is_some (if is_some o then o else find_value n c ws) then 1 else 0))
        go none e = (refl, omega arith)
        go (some v) e = rw (others_none c vs ws v u e) (refl, omega arith)

    map-settle :
        (vs ws : List (ParsedSettlementRow n)) (table : List (Shipment n))
        → IsUnique (row_key n) (vs ++ ws)
        → map (settle n period now ws) (map (settle n period now vs) table)
          ≡ map (settle n period now (vs ++ ws)) table
    map-settle vs ws [] u = refl
    map-settle vs ws (c ∷ table) u =
        ap₂ (λ x y. x ∷ y) (settle-append vs ws c u).0 (map-settle vs ws table u)

    -- The counts of a statement, one shipment at a time.
    updated_by-cons :
        (vs : List (ParsedSettlementRow n)) (c : Shipment n) (table : List (Shipment n))
        → updated_by n vs (c ∷ table)
          ≡ (if is_some (find_value n c vs) then 1 else 0) + updated_by n vs table
    updated_by-cons vs c table = elim (Bool-cases (is_some (find_value n c vs))) [
      | inl y ↦ rw y (omega arith)
      | inr f ↦ rw f (omega arith)
    ]

    updated_by-append :
        (vs ws : List (ParsedSettlementRow n)) (table : List (Shipment n))
        → IsUnique (row_key n) (vs ++ ws)
        → updated_by n vs table + updated_by n ws (map (settle n period now vs) table)
          ≡ updated_by n (vs ++ ws) table
    updated_by-append vs ws [] u = omega arith
    updated_by-append vs ws (c ∷ table) u = omega (
      arith,
      updated_by-cons vs c table,
      updated_by-cons ws (settle n period now vs c) (map (settle n period now vs) table),
      updated_by-cons (vs ++ ws) c table,
      (settle-append vs ws c u).1,
      updated_by-append vs ws table u,
    )

    settle-nothing : (table : List (Shipment n)) → map (settle n period now []) table ≡ table
    settle-nothing [] = refl
    settle-nothing (c ∷ table) = ap (λ t. c ∷ t) (settle-nothing table)

    updated_by-nothing : (table : List (Shipment n)) → updated_by n [] table ≡ 0
    updated_by-nothing [] = refl
    updated_by-nothing (c ∷ table) = updated_by-nothing table

    IsUnique-rest :
        (vs ws : List (ParsedSettlementRow n))
        → IsUnique (row_key n) (vs ++ ws)
        → IsUnique (row_key n) ws
    IsUnique-rest [] ws u = u
    IsUnique-rest (v ∷ vs) ws u = IsUnique-rest vs ws u.1

    run_chunks-settle :
        (css : List (List (ParsedSettlementRow n))) (table : List (Shipment n))
        → IsUnique (row_key n) (concat css)
        → ((run_chunks n period now css table).0 ≡ updated_by n (concat css) table)
          × ((run_chunks n period now css table).1 ≡ map (settle n period now (concat css)) table)
    unfolding run_chunks
    run_chunks-settle [] table u = (sym (updated_by-nothing table), sym (settle-nothing table))
    run_chunks-settle (vs ∷ css) table u =
        let (count, done) =
          run_chunks-settle css (map (settle n period now vs) table)
            (IsUnique-rest vs (concat css) u) in
        (
          ap (λ x. updated_by n vs table + x) count ∙ updated_by-append vs (concat css) table u,
          done ∙ map-settle vs (concat css) table u,
        )

    -- The statements of `commit`, one for each chunk of 500 rows, do what one statement over all the
    -- rows of the workbook would do: a shipment whose numbers a row has gets its revenue and the
    -- period, every other stays, and the count reported is the number of shipments that got one.
    pub commit-settles :
        (sheets : Sheets n) (table : List (Shipment n))
        → let rows = (parse_settlement_workbook n sheets).rows in
          commit n sheets period now table ≡ (
            parse_settlement_workbook n sheets,
            updated_by n rows table,
            map (settle n period now rows) table,
          )
    unfolding commit
    commit-settles sheets table =
        let parsed = parse_settlement_workbook n sheets in
        let whole = (chunks_cover parsed.rows).0 in
        let unique : IsUnique (row_key n) (concat (all_chunks parsed.rows)) =
          rw whole (parsed-IsUnique n sheets) in
        let (count, done) = run_chunks-settle (all_chunks parsed.rows) table unique in
        ap₂ (λ x y. (parsed, x, y)) (count ∙ ap (λ l. updated_by n l table) whole)
          (done ∙ ap (λ l. map (settle n period now l) table) whole)
