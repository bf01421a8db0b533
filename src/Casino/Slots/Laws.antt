-- ===== src/Casino/Slots/Laws.antt =====
-- What the gate on slots promises.
use sportystake.Casino.Draws.{
  Platform, weighted_cell_index, cell_seed, first_below, bias_bound, windows, derive_result, pick,
}
use sportystake.Casino.Draws.Laws.{retries, uniform_index_total}
use sportystake.Base.{
  Text, some, Option-cases, subst, ap, ◌/◌, min, ℕ, zero, suc, ◌+◌, ◌*◌, ◌≤◌, ◌≡◌, refl, inl, inr,
  List, [], ◌∷◌, arith, ltb, leb, ◌==◌, Bool-cases, length, All, ◌<◌, ◌⊎◌, sum_by,
}
use sportystake.Casino.Slots.Rows.{
  shown, shown-append, length_snoc, evaluate_slot_row-break_row, LosesAt, slot_rows-LosesAt,
  slot_rows-natural,
}
use sportystake.Casino.Slots.{
  slot_weights, SlotResult, draw_cells, draw_rows, resolve_slots, evaluate_slot_row, break_row,
  Spin, slot_step, slot_rows, no_spin, settle_slots, line_count, excess,
}

module _ (amount per_line k capacity : ℕ) where
  -- The multiplier is that of the rows that are shown, and the house can pay it.
  record IsSound (r : ℕ) (s : Spin) : Type 0 where
    pub measured : length s.reels ≡ r
    pub justified : s.confirmed_multiplier ≡ shown k s.reels
    pub affordable : per_line * s.confirmed_multiplier ≤ amount + capacity

  slot_step-IsSound :
      (s : Spin) (r : ℕ) (row : List ℕ)
      → 3 ≤ length row
      → IsSound r s
      → IsSound (suc r) (slot_step amount per_line k capacity s r row)
  unfolding slot_step
  slot_step-IsSound s r row h sound =
      let natural = evaluate_slot_row row in
      let broken = break_row row in
      let measured = sound.measured in
      let justified = sound.justified in
      let affordable = sound.affordable in
      let zero_row = evaluate_slot_row-break_row row h in
      let at_end = shown-append k s.reels row in
      let at_end' = shown-append k s.reels broken in
      let longer = length_snoc s.reels row in
      let longer' = length_snoc s.reels broken in
      elim (Bool-cases (leb k r)) [
        | inl e ↦
            rw e
              (record { measured = omega arith; justified = ground arith; affordable = affordable })
        | inr e ↦ elim (Bool-cases (natural == 0)) [
          | inl z ↦
              rw (e, z)
                (record {
                  measured = omega arith;
                  justified = ground arith;
                  affordable = affordable;
                })
          | inr z ↦
              elim (Bool-cases
                (ltb capacity (excess amount per_line (s.confirmed_multiplier + natural)))) [
                  | inl g ↦
                      rw (e, z, g)
                        (record {
                          measured = omega arith;
                          justified = ground arith;
                          affordable = affordable;
                        })
                  | inr g ↦
                      rw (e, z, g)
                        (record {
                          measured = omega arith;
                          justified = ground arith;
                          affordable = ground arith;
                        })
                ]
        ]
      ]

  slot_rows-IsSound :
      (rows : List (List ℕ)) (s : Spin) (r : ℕ)
      → All (λ row. 3 ≤ length row) rows
      → IsSound r s
      → IsSound (r + length rows) (slot_rows amount per_line k capacity s r rows)
  unfolding slot_rows
  slot_rows-IsSound [] s r h sound = record {
    measured = ground (arith, sound.measured);
    justified = sound.justified;
    affordable = sound.affordable;
  }
  slot_rows-IsSound (row ∷ rows) s r (h, hs) sound =
      let after = slot_step-IsSound s r row h sound in
      subst
        (λ n. IsSound n (
          slot_rows amount per_line k capacity (slot_step amount per_line k capacity s r row)
            (suc r) rows))
        (omega arith) (slot_rows-IsSound rows _ (suc r) hs after)

-- The result of a spin: what it pays is bounded, is that of the rows shown, and the rows that are
-- remapped lose; none is where the natural rows can be paid.
abbrev pub IsSettled : ℕ → ℕ → ℕ → List (List ℕ) → SlotResult → Type 0
IsSettled amount lines capacity natural r =
    let per_line = amount / line_count lines in
    let k = min 3 (line_count lines) in
    (r.payout ≤ amount + capacity)
    × (r.payout ≡ per_line * shown k r.spin.reels)
    × (length r.spin.reels ≡ length natural)
    × All (LosesAt r.spin.reels) r.spin.remapped_rows
    × ((amount + capacity < per_line * shown k natural)
        ⊎ ((r.spin.reels ≡ natural) × (r.spin.remapped_rows ≡ [])))

settle_slots-IsSettled :
    (amount lines capacity : ℕ) (rows : List (List ℕ))
    → All (λ row. 3 ≤ length row) rows
    → IsSettled amount lines capacity rows (settle_slots amount lines capacity rows)
unfolding settle_slots
settle_slots-IsSettled amount lines capacity rows h =
    let per_line = amount / line_count lines in
    let k = min 3 (line_count lines) in
    let sound =
      slot_rows-IsSound amount per_line k capacity rows no_spin 0 h
        (record { measured = refl; justified = refl; affordable = omega arith }) in
    (
      sound.affordable,
      ap (λ m. per_line * m) sound.justified,
      omega (arith, sound.measured),
      slot_rows-LosesAt amount per_line k capacity rows no_spin 0 h refl tt,
      elim (Bool-cases (ltb (amount + capacity) (per_line * shown k rows))) [
        | inl e ↦ inl (ground (arith, e))
        | inr e ↦
            inr (slot_rows-natural amount per_line k capacity rows no_spin 0 (ground (arith, e)))
      ],
    )

module _ (platform : Platform) (fuel : ℕ) (seed client : Text) (nonce : ℕ) where
  draw_cells-length :
      (cell n : ℕ) (row : List ℕ)
      → draw_cells platform fuel seed client nonce cell n ≡ some row
      → length row ≡ n
  unfolding draw_cells
  draw_cells-length cell zero row e = ground arith
  draw_cells-length cell (suc n) row e =
      elim (Option-cases (weighted_cell_index platform fuel seed client nonce cell slot_weights)) [
        | inl u ↦ ground (arith, e, u)
        | inr (i, u) ↦
            elim (Option-cases (draw_cells platform fuel seed client nonce (suc cell) n)) [
              | inl v ↦ ground (arith, e, u, v)
              | inr (is, v) ↦
                  let rest = draw_cells-length (suc cell) n is v in
                  let same : i ∷ is ≡ row = ground (arith, e, u, v) in ground arith
            ]
      ]

  draw_rows-All :
      (r n : ℕ) (rows : List (List ℕ))
      → draw_rows platform fuel seed client nonce r n ≡ some rows
      → All (λ row. 3 ≤ length row) rows × (length rows ≡ n)
  unfolding draw_rows
  draw_rows-All r zero rows e =
      let empty : [] ≡ rows = cc in
      subst (λ rs. All (λ row. 3 ≤ length row) rs × (length rs ≡ 0)) empty (tt, refl)
  draw_rows-All r (suc n) rows e =
      elim (Option-cases (draw_cells platform fuel seed client nonce (r * 5) 5)) [
        | inl u ↦ ground (arith, e, u)
        | inr (row, u) ↦ elim (Option-cases (draw_rows platform fuel seed client nonce (suc r) n)) [
          | inl v ↦ ground (arith, e, u, v)
          | inr (rest, v) ↦
              let five = draw_cells-length (r * 5) 5 row u in
              let (wide, many) = draw_rows-All (suc r) n rest v in
              let same : row ∷ rest ≡ rows = ground (arith, e, u, v) in
              subst (λ rs. All (λ row. 3 ≤ length row) rs × (length rs ≡ suc n)) same
                ((omega arith, wide), omega arith)
        ]
      ]

  -- The fuel is more than the retries that the draw of each of the fifteen cells needs.
  abbrev pub IsEnough : Type 0
  IsEnough =
      (cell : ℕ)
      → cell < 15
      → (tries : ℕ) × (v : ℕ) × (tries < fuel)
        × (first_below (bias_bound (sum_by (λ w. w) slot_weights)) (
              windows (
                derive_result platform (retries tries seed) (cell_seed platform client cell) nonce))
            ≡ some v)

  draw_cells_total :
      IsEnough
      → (cell n : ℕ) → cell + n ≤ 15
      → (row : List ℕ) × (draw_cells platform fuel seed client nonce cell n ≡ some row)
  unfolding draw_cells weighted_cell_index
  draw_cells_total enough cell zero fits = ([], refl)
  draw_cells_total enough cell (suc n) fits =
      let (tries, v, less, found) = enough cell (omega (arith, fits)) in
      let (i, drawn, small) =
        uniform_index_total platform (cell_seed platform client cell) nonce
          (sum_by (λ w. w) slot_weights) (omega arith) fuel tries seed v less found in
      let (row, rest) = draw_cells_total enough (suc cell) n (omega (arith, fits)) in
      (pick i 0 0 slot_weights ∷ row, ground (arith, drawn, rest))

  draw_rows_total :
      IsEnough
      → (r n : ℕ) → r + n ≤ 3
      → (rows : List (List ℕ)) × (draw_rows platform fuel seed client nonce r n ≡ some rows)
  unfolding draw_rows
  draw_rows_total enough r zero fits = ([], refl)
  draw_rows_total enough r (suc n) fits =
      let (row, e) = draw_cells_total enough (r * 5) 5 (omega (arith, fits)) in
      let (rows, f) = draw_rows_total enough (suc r) n (omega (arith, fits)) in
      (row ∷ rows, ground (arith, e, f))

-- With more fuel than the retries that the draw of each of the fifteen cells needs, a spin draws three
-- natural rows and settles them. It pays at most the stake and the capacity; it pays the stake of a
-- line by the multipliers that the evaluated rows show; it shows three rows; each row that was remapped
-- is shown as a row that loses; and if the stake and the capacity cover what the natural rows pay, then
-- these are shown and none is remapped.
pub resolve_slots_lem :
    (platform : Platform) (fuel : ℕ) (seed client : Text) (nonce amount lines capacity : ℕ)
    → IsEnough platform fuel seed client nonce
    → (natural : List (List ℕ)) × (r : SlotResult) × (draw_rows platform fuel seed client nonce 0 3
        ≡ some natural)
      × (resolve_slots platform fuel seed client nonce amount lines capacity ≡ some r)
      × (length natural ≡ 3)
      × IsSettled amount lines capacity natural r
unfolding resolve_slots
resolve_slots_lem platform fuel seed client nonce amount lines capacity enough =
    let (natural, e) = draw_rows_total platform fuel seed client nonce enough 0 3 (omega arith) in
    let (wide, many) = draw_rows-All platform fuel seed client nonce 0 3 natural e in
    (
      natural,
      settle_slots amount lines capacity natural,
      e,
      ground (arith, e),
      many,
      settle_slots-IsSettled amount lines capacity natural wide,
    )
