-- ===== src/Crash/Point/Laws.antt =====
-- The range of the crash point, and what a cash-out at a target returns.
use native.Mathlib.Nat.{le-div_iff_mul-le, mul-le-mul_left, mul-le-mul_right, le_of_mul-le-mul_left}
use sportystake.Base.{
  ℕ, zero, suc, ◌+◌, ◌-◌, ◌*◌, ◌%◌, ◌≤◌, ◌<◌, ◌≡◌, refl, sym, ap, ◌∙◌, ◌⊎◌, inl, inr, ◌↔◌, Bool,
  true, false, ltb, leb, ◌&&◌, if◌then◌else◌, arith, Bool-cases,
}
use sportystake.Crash.Point.{no_risk_x100, curve_x100, onchain_crash_multiplier_x100}

-- A round that nobody joined crashes between 1.40 and 50.00; any other round busts at 1.00, which the
-- last four digits of the hash decide alone, or crashes between 1.01 and 1000.00.
pub onchain_crash_multiplier_x100_lem :
    (keccak : ℕ → ℕ → ℕ) (seed round_id rtp_bps : ℕ)
    → let empty = onchain_crash_multiplier_x100 keccak seed round_id rtp_bps true in
      let staked = onchain_crash_multiplier_x100 keccak seed round_id rtp_bps false in
      (140 ≤ empty)
      × (empty ≤ 5_000)
      × (((keccak seed round_id % 10_000 < 10_000 - rtp_bps) × (staked ≡ 100))
          ⊎ ((10_000 - rtp_bps ≤ keccak seed round_id % 10_000)
              × (101 ≤ staked)
              × (staked ≤ 100_000)))
unfolding onchain_crash_multiplier_x100 no_risk_x100 curve_x100
onchain_crash_multiplier_x100_lem keccak seed round_id rtp_bps =
    (ground arith, ground arith, ground arith)

module _ (rtp_bps target : ℕ) where
  -- A cash-out at the target pays in a round with this hash.
  abbrev pub pays : ℕ → Bool
  pays r = leb target (onchain_crash_multiplier_x100 (λ seed round_id. r) 0 0 rtp_bps false)

  pub pays_iff :
      (r : ℕ)
      → 102 ≤ target
      → target ≤ 100_000
      → (pays r ≡ true) ↔ (
          (10_000 - rtp_bps ≤ r % 10_000)
          × (target * (100 * (1_000_000 - r % 1_000_000)) ≤ rtp_bps * 1_000_000))
  unfolding onchain_crash_multiplier_x100 curve_x100
  pays_iff r low high =
      let below : r % 1_000_000 < 1_000_000 = omega arith in
      let pos : 0 < 100 * (1_000_000 - r % 1_000_000) = omega arith in
      let exact =
        le-div_iff_mul-le {k = 100 * (1_000_000 - r % 1_000_000)} {x = target}
          {y = rtp_bps * 1_000_000} pos in
      elim (Bool-cases (ltb (r % 10_000) (10_000 - rtp_bps))) [
        | inl e ↦ rw e (ground (arith, e))
        | inr e ↦ rw e (ground (arith, e, exact))
      ]

-- How many of the `n` numbers from `start` on pass a test.
unfoldable pub hits : (ℕ → Bool) → ℕ → ℕ → ℕ
hits p start zero = 0
hits p start (suc n) = hits p start n + (if p (start + n) then 1 else 0)

hits-append :
    (p : ℕ → Bool) (start m n : ℕ) → hits p start (m + n) ≡ hits p start m + hits p (start + m) n
unfolding hits
hits-append p start m zero = ground arith
hits-append p start m (suc n) =
    let later : m + suc n ≡ suc (m + n) = omega arith in
    let at : start + m + n ≡ start + (m + n) = omega arith in
    rw (later, hits, at) (omega (arith, hits-append p start m n))

hits-from :
    (p : ℕ → Bool) (start floor n : ℕ)
    → ((i : ℕ) → i < n → p (start + i) ≡ leb floor i)
    → hits p start n ≡ n - floor
unfolding hits
hits-from p start floor zero h = omega arith
hits-from p start floor (suc n) h =
    let rest = hits-from p start floor n (λ i less. h i (omega arith)) in
    ground (arith, rest, h n (omega arith))

hits-none :
    (p : ℕ → Bool) (start n : ℕ) → ((i : ℕ) → i < n → p (start + i) ≡ false) → hits p start n ≡ 0
unfolding hits
hits-none p start zero h = refl
hits-none p start (suc n) h =
    let rest = hits-none p start n (λ i less. h i (omega arith)) in
    ground (arith, rest, h n (omega arith))

module _ (rtp_bps target share : ℕ) (low : 102 ≤ target) (high : target ≤ 100_000)
    (split : target * share ≡ rtp_bps) (most : rtp_bps ≤ 10_000) where
  share_iff : (left : ℕ) → (target * (100 * left) ≤ rtp_bps * 1_000_000) ↔ (left ≤ 10_000 * share)
  share_iff left =
      let same : rtp_bps * 1_000_000 ≡ target * (share * 1_000_000) = grind (arith, split) in
      (
        λ h.
            let h' : target * (100 * left) ≤ target * (share * 1_000_000) = omega (arith, same) in
            let smaller =
              le_of_mul-le-mul_left {m = 100 * left} {n = share * 1_000_000} {k = target} h'
                (omega arith) in
            omega (arith, smaller),
        λ h.
            let smaller : 100 * left ≤ share * 1_000_000 = omega arith in
            let larger = mul-le-mul_left {m = 100 * left} {n = share * 1_000_000} target smaller in
            omega (arith, larger, same),
      )

  pays-block :
      (b i : ℕ)
      → b < 100
      → i < 10_000
      → pays rtp_bps target (10_000 * b + i) ≡ (leb (10_000 - rtp_bps) i && leb (100 - share) b)
  pays-block b i hb hi =
      let r = 10_000 * b + i in
      let digits : r % 10_000 ≡ i = omega arith in
      let whole : r % 1_000_000 ≡ r = omega arith in
      let (there, back) = pays_iff rtp_bps target r low high in
      let (to_share, from_share) = share_iff (1_000_000 - r % 1_000_000) in
      elim (Bool-cases (leb (10_000 - rtp_bps) i && leb (100 - share) b)) [
        | inl e ↦
            let small : 1_000_000 - r % 1_000_000 ≤ 10_000 * share = ground (arith, e, whole) in
            let solvent : 10_000 - rtp_bps ≤ r % 10_000 = ground (arith, e, digits) in
            back (solvent, from_share small) ∙ sym e
        | inr e ↦ elim (Bool-cases (pays rtp_bps target r)) [
          | inr p ↦ p ∙ sym e
          | inl p ↦
              let (solvent, returned) = there p in
              let small = to_share returned in
              absurd (ground (arith, e, small, solvent, digits, whole))
        ]
      ]

  block-hits :
      (b : ℕ)
      → b < 100
      → hits (pays rtp_bps target) (10_000 * b) 10_000
        ≡ (if leb (100 - share) b then rtp_bps else 0)
  block-hits b hb = elim (Bool-cases (leb (100 - share) b)) [
    | inl e ↦
        let count =
          hits-from (pays rtp_bps target) (10_000 * b) (10_000 - rtp_bps) 10_000
            (λ i hi. ground (arith, pays-block b i hb hi, e)) in
        rw e (omega (arith, count))
    | inr e ↦ rw e (
        hits-none (pays rtp_bps target) (10_000 * b) 10_000
          (λ i hi. ground (arith, pays-block b i hb hi, e)))
  ]

  blocks-hits :
      (n : ℕ) → n ≤ 100 → hits (pays rtp_bps target) 0 (10_000 * n) ≡ rtp_bps * (n - (100 - share))
  blocks-hits zero h =
      let base : hits (pays rtp_bps target) 0 (10_000 * 0) ≡ 0 = unfold hits in refl in
      ground (arith, base)
  blocks-hits (suc n) h =
      let rest = blocks-hits n (omega arith) in
      let next = block-hits n (omega arith) in
      let longer : 10_000 * suc n ≡ 10_000 * n + 10_000 = omega arith in
      let sum = hits-append (pays rtp_bps target) 0 (10_000 * n) 10_000 in
      rw longer (elim (Bool-cases (leb (100 - share) n)) [
        | inl e ↦
            let more : suc n - (100 - share) ≡ suc (n - (100 - share)) = ground (arith, e) in
            rw more (ground (arith, sum, rest, next, e))
        | inr e ↦
            let none_now : suc n - (100 - share) ≡ 0 = ground (arith, e) in
            let none_yet : n - (100 - share) ≡ 0 = ground (arith, e) in
            let rest_zero : hits (pays rtp_bps target) 0 (10_000 * n) ≡ rtp_bps * 0 =
              rest ∙ ap (λ x. rtp_bps * x) none_yet in
            rw none_now (ground (arith, sum, rest_zero, next, e))
      ])

  -- Of a million hashes in a row, a cash-out at a target that divides the return rate pays on exactly
  -- the rate times the quotient, so that a stake on each returns the square of the rate: at a rate of
  -- 9,000 basis points 81 percent, not 90.
  pub pays_lem :
      (hits (pays rtp_bps target) 0 1_000_000 ≡ rtp_bps * share)
      × (target * hits (pays rtp_bps target) 0 1_000_000 ≡ rtp_bps * rtp_bps)
  pays_lem =
      let fewer : 102 * share ≤ target * share = mul-le-mul_right share low in
      let all = blocks-hits 100 (omega arith) in
      let back : 100 - (100 - share) ≡ share = omega (arith, fewer, split) in
      let count : hits (pays rtp_bps target) 0 1_000_000 ≡ rtp_bps * share =
        all ∙ ap (λ x. rtp_bps * x) back in
      (count, rw (count, sym split) (grind arith))
