-- ===== src/Settlement/Chunks.antt =====
-- The chunks in which pnl-settlement.service.ts writes and reads rows.
use shipment_tracking_system.Prelude.{
  ℕ, zero, suc, ◌≤◌, List, [], ◌∷◌, ◌++◌, ◌≡◌, refl, ◌∙◌, ap, arith, All, length,
}
use shipment_tracking_system.Settlement.Service.{chunk_size, take, drop, chunks, all_chunks}

abbrev pub concat : {A : Type 0} → List (List A) → List A
concat [] = []
concat (l ∷ ls) = l ++ concat ls

module _ {A : Type 0} where
  take-drop : (n : ℕ) (l : List A) → take n l ++ drop n l ≡ l
  take-drop zero l = refl
  take-drop (suc n) [] = refl
  take-drop (suc n) (a ∷ l) = ap (λ x. a ∷ x) (take-drop n l)

  length-drop : (n : ℕ) (l : List A) → length (drop n l) ≤ length l
  length-drop zero l = omega arith
  length-drop (suc n) [] = omega arith
  length-drop (suc n) (a ∷ l) = omega (arith, length-drop n l)

  length-take : (n : ℕ) (l : List A) → length (take n l) ≤ n
  length-take zero l = omega arith
  length-take (suc n) [] = omega arith
  length-take (suc n) (a ∷ l) = omega (arith, length-take n l)

  concat-chunks : (fuel : ℕ) (l : List A) → length l ≤ fuel → concat (chunks fuel l) ≡ l
  unfolding chunks
  concat-chunks zero [] h = refl
  concat-chunks zero (a ∷ l) h = absurd (omega (arith, h))
  concat-chunks (suc fuel) [] h = refl
  concat-chunks (suc fuel) (a ∷ l) h =
      ap (λ x. take chunk_size (a ∷ l) ++ x)
        (concat-chunks fuel (drop chunk_size (a ∷ l)) (omega (arith, h, length-drop 499 l)))
      ∙ take-drop chunk_size (a ∷ l)

  chunks-length : (fuel : ℕ) (l : List A) → All (λ c. length c ≤ chunk_size) (chunks fuel l)
  unfolding chunks
  chunks-length zero l = tt
  chunks-length (suc fuel) [] = tt
  chunks-length (suc fuel) (a ∷ l) =
      (length-take chunk_size (a ∷ l), chunks-length fuel (drop chunk_size (a ∷ l)))

  -- The loop over the rows ends after as many rounds as there are rows, and leaves none of them: its
  -- chunks, of at most 500 rows each, put together are the rows in their order.
  pub chunks_cover :
      (l : List A) → (concat (all_chunks l) ≡ l) × All (λ c. length c ≤ 500) (all_chunks l)
  chunks_cover l = (concat-chunks (length l) l (omega arith), chunks-length (length l) l)
