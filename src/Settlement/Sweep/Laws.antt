-- ===== src/Settlement/Sweep/Laws.antt =====
-- What a sweep leaves alone.
use sportystake.Base.{
  ℕ, ◌≡◌, ◌≢◌, refl, sym, ◌∙◌, ap, subst, ◌⊎◌, inl, inr, Bool, true, false, Option, none, some,
  List, [], ◌∷◌, map, arith, ◌==◌, select, All, IsUnique, Bool-cases,
}
use sportystake.Settlement.Tables.{Bet}
use sportystake.Settlement.Plan.{is_planned, plan_score_based_settlement}
use sportystake.Settlement.Execute.{
  Chain, Market, Db, Executed, settled, threw, execute_market_settlement,
}
use sportystake.Settlement.Execute.Final.{bet_key, settle_bet}
use sportystake.Settlement.Execute.Laws.{Final, execute_market_settlement-Final}
use sportystake.Settlement.Worker.{tables_of}
use sportystake.Settlement.Sweep.{
  is_live, settle_market_with, sweep_market, sweep_markets, is_swept, kickoff_cutoff,
  settle_finished_markets,
}

abbrev pub on : ℕ → List Bet → List Bet
on k = select λ b. b.market_id == k

-- The bets of one market are the same, and so are all the keys.
record IsKept (k : ℕ) (bs bs' : List Bet) : Type 0 where
  kept : on k bs' ≡ on k bs
  keys : map bet_key bs' ≡ map bet_key bs

module _ (market home away : ℕ) where
  settle_bet-keys :
      (bs : List Bet) → map bet_key (map (settle_bet market home away) bs) ≡ map bet_key bs
  settle_bet-keys [] = refl
  settle_bet-keys (b ∷ bs) =
      let rest = settle_bet-keys bs in
      elim (Bool-cases (is_planned market b)) [
        | inl e ↦ rw e (ap (λ t. b.id ∷ t) rest)
        | inr e ↦ rw e (ap (λ t. b.id ∷ t) rest)
      ]

  settle_bet-on :
      (k : ℕ) → k ≢ market → (bs : List Bet) → on k (map (settle_bet market home away) bs) ≡ on k bs
  settle_bet-on k ne [] = refl
  settle_bet-on k ne (b ∷ bs) =
      let rest = settle_bet-on k ne bs in
      elim (Bool-cases (is_planned market b)) [
        | inr e ↦ elim (Bool-cases (b.market_id == k)) [
          | inl f ↦ rw (e, f) (ap (λ t. b ∷ t) rest)
          | inr f ↦ rw (e, f) rest
        ]
        | inl e ↦
            let there : b.market_id ≡ market = ground (arith, e) in
            let other : (b.market_id == k) ≡ false = ground (arith, there) in rw (e, other) rest
      ]

All-keys :
    (i : ℕ) (bs bs' : List Bet)
    → map bet_key bs' ≡ map bet_key bs
    → All (λ b. bet_key b ≢ i) bs
    → All (λ b. bet_key b ≢ i) bs'
All-keys i [] [] e h = tt
All-keys i (b ∷ bs) [] e h = tt
All-keys i [] (b' ∷ bs') e h = cc
All-keys i (b ∷ bs) (b' ∷ bs') e (h, hs) =
    let same : bet_key b' ≡ bet_key b = cc in
    let rest : map bet_key bs' ≡ map bet_key bs = cc in
    (λ q. h (sym same ∙ q), All-keys i bs bs' rest hs)

IsUnique-keys :
    (bs bs' : List Bet)
    → map bet_key bs' ≡ map bet_key bs
    → IsUnique bet_key bs
    → IsUnique bet_key bs'
IsUnique-keys [] [] e h = tt
IsUnique-keys (b ∷ bs) [] e h = tt
IsUnique-keys [] (b' ∷ bs') e h = cc
IsUnique-keys (b ∷ bs) (b' ∷ bs') e (h, hs) =
    let same : bet_key b' ≡ bet_key b = cc in
    let rest : map bet_key bs' ≡ map bet_key bs = cc in
    (
      subst (λ i. All (λ y. bet_key y ≢ i) bs') (sym same) (All-keys (bet_key b) bs bs' rest h),
      IsUnique-keys bs bs' rest hs,
    )

IsKept-trans : (k : ℕ) (xs ys zs : List Bet) → IsKept k xs ys → IsKept k ys zs → IsKept k xs zs
IsKept-trans k xs ys zs f g = record { kept = g.kept ∙ f.kept; keys = g.keys ∙ f.keys }

-- A settlement of one market keeps the bets of the others, however it ends.
execute-IsKept :
    (chain : Chain) (market home away outcome k : ℕ) (db : Db)
    → k ≢ market
    → IsUnique bet_key db.bets
    → IsKept k db.bets
        (tables_of (
          execute_market_settlement chain market outcome
            (plan_score_based_settlement market home away db.bets)
            db)).bets
execute-IsKept chain market home away outcome k db ne unique =
    by_end
      (execute_market_settlement chain market outcome
        (plan_score_based_settlement market home away db.bets) db)
      (execute_market_settlement-Final market home away outcome db unique chain)
  where
    keep : (bs : List Bet) → IsKept k bs (map (settle_bet market home away) bs)
    keep bs = record {
      kept = settle_bet-on market home away k ne bs;
      keys = settle_bet-keys market home away bs;
    }

    by_end :
        (x : Executed)
        → Final market home away outcome db unique x
        → IsKept k db.bets (tables_of x).bets
    by_end (settled db' hash hashes) f = subst (IsKept k db.bets) (sym f) (keep db.bets)
    by_end (threw db') f =
        let after = keep db'.bets in
        let before = keep db.bets in
        record {
          kept = sym after.kept ∙ ap (on k) f ∙ before.kept;
          keys = sym after.keys ∙ ap (map bet_key) f ∙ before.keys;
        }

-- A market that is not settled by a sweep: another one, or one whose game is live.
abbrev pub Spared : ℕ → List ℕ → Market → Type 0
Spared k live m = (k ≢ m.id) ⊎ (is_live live m.fixture_id ≡ true)

sweep_market-IsKept :
    (chains : ℕ → Chain) (live : List ℕ) (k : ℕ) (m : Market) (db : Db)
    → Spared k live m
    → IsUnique bet_key db.bets
    → IsKept k db.bets (tables_of (sweep_market chains live m db)).bets
unfolding sweep_market
sweep_market-IsKept chains live k m db spared unique =
    elim (Bool-cases (is_live live m.fixture_id)) [
      | inl e ↦ rw e (record { kept = refl; keys = refl })
      | inr e ↦ elim spared [
        | inr f ↦ ground (arith, e, f)
        | inl ne ↦ rw e (by_score m.home_score m.away_score ne)
      ]
    ]
  where
    by_score :
        (home away : Option ℕ)
        → k ≢ m.id
        → IsKept k db.bets (tables_of (settle_market_with (chains m.id) m.id home away db)).bets
    by_score (some home) (some away) ne =
        execute-IsKept (chains m.id) m.id home away _ k db ne unique
    by_score none away ne = record { kept = refl; keys = refl }
    by_score (some home) none ne = record { kept = refl; keys = refl }

All-select {κ} :
    (P : Market → Type κ) (p : Market → Bool) (ms : List Market) → All P ms → All P (select p ms)
All-select P p [] h = tt
All-select P p (m ∷ ms) (h, hs) = elim (Bool-cases (p m)) [
  | inl e ↦ rw e (h, All-select P p ms hs)
  | inr e ↦ rw e (All-select P p ms hs)
]

sweep_markets-IsKept :
    (chains : ℕ → Chain) (live : List ℕ) (k : ℕ) (ms : List Market) (db : Db)
    → All (Spared k live) ms
    → IsUnique bet_key db.bets
    → IsKept k db.bets (tables_of (sweep_markets chains live ms db)).bets
unfolding sweep_markets
sweep_markets-IsKept chains live k [] db spared unique = record { kept = refl; keys = refl }
sweep_markets-IsKept chains live k (m ∷ ms) db (h, hs) unique =
    by_end (λ db' u. sweep_markets-IsKept chains live k ms db' hs u) (sweep_market chains live m db)
      (sweep_market-IsKept chains live k m db h unique)
  where
    by_end :
        ((db' : Db)
          → IsUnique bet_key db'.bets
          → IsKept k db'.bets (tables_of (sweep_markets chains live ms db')).bets)
        → (x : Executed) → IsKept k db.bets (tables_of x).bets
        → IsKept k db.bets
            (tables_of (elim x [
              | threw db' ↦ threw db'
              | settled db' hash hashes ↦ sweep_markets chains live ms db'
            ])).bets
    by_end go (threw db') f = f
    by_end go (settled db' hash hashes) f =
        let unique' = IsUnique-keys db.bets db'.bets f.keys unique in
        IsKept-trans k _ _ _ f (go db' unique')

-- If bet ids are unique: a sweep, however it ends, leaves the bets of a market as they are when the
-- game of every market with that id is in the live feed.
pub settle_finished_markets-spares :
    (chains : ℕ → Chain) (live : List ℕ) (now k : ℕ) (db : Db)
    → IsUnique bet_key db.bets
    → All (Spared k live) db.markets
    → on k (tables_of (settle_finished_markets chains live now db)).bets ≡ on k db.bets
unfolding settle_finished_markets
settle_finished_markets-spares chains live now k db unique spared =
    (sweep_markets-IsKept chains live k (select (is_swept (kickoff_cutoff now) db) db.markets) db
      (All-select (Spared k live) _ db.markets spared) unique).kept
