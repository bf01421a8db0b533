-- ===== src/Casino/BetRoute/Nonces.antt =====
-- No two bets of a user in a game share a nonce.
use sportystake.Base.{
  ℕ, ◌+◌, ◌<◌, ◌≡◌, ◌≢◌, ◌⊎◌, refl, subst, inl, inr, ◌&&◌, Option, none, some, List, [], ◌∷◌, ◌++◌,
  All, All-imp, All-append, arith, ◌==◌, if◌then◌else◌, Text, Bool-cases, Option-cases,
}
use sportystake.Verification.{Checked-cases, Receipt, Decoded, same_address}
use sportystake.Verification.CasinoHouse.{BetReceivedArgs, verify_casino_bet_placed}
use sportystake.Casino.Onchain.{
  GameSettled, Sent, SettleResult, no_settlement, settled, settlement_error, is_already_settled,
}
use sportystake.Casino.BetRoute.{
  onchain_type, Request, CasinoRow, find_request, count_bets, House, draw_payout, persist,
  after_settle, play, answer, post,
}

-- The nonce of each bet is below the number of bets of its user in its game.
abbrev pub IsBelow : List CasinoRow → CasinoRow → Type 0
IsBelow rows row = row.nonce < count_bets row.user_id row.game rows

-- The nonces of the earlier bets of a user in a game differ from that of a later one.
abbrev pub IsNumbered : List CasinoRow → Type 0
IsNumbered rows = All (IsBelow rows) rows

count_bets-append :
    (user game : ℕ) (rows : List CasinoRow) (row : CasinoRow)
    → count_bets user game (rows ++ row ∷ [])
      ≡ count_bets user game rows + (if row.user_id == user && row.game == game then 1 else 0)
unfolding count_bets
count_bets-append user game [] row = ground arith
count_bets-append user game (x ∷ rows) row = ground (arith, count_bets-append user game rows row)

append-IsNumbered :
    (rows : List CasinoRow) (row : CasinoRow)
    → row.nonce ≡ count_bets row.user_id row.game rows
    → IsNumbered rows
    → IsNumbered (rows ++ row ∷ [])
append-IsNumbered rows row fresh h =
    All-append (IsBelow (rows ++ row ∷ [])) rows (row ∷ [])
      (All-imp
        (λ (x : CasinoRow) (below : IsBelow rows x).
          omega (arith, count_bets-append x.user_id x.game rows row, below))
        rows h)
      (ground (arith, count_bets-append row.user_id row.game rows row, fresh), tt)

-- The rows are as before, or a row with the next nonce was added.
abbrev IsNext : List CasinoRow → List CasinoRow → Type 0
IsNext rows rows' =
    (rows' ≡ rows)
    ⊎ ((row : CasinoRow) × (rows' ≡ rows ++ row ∷ [])
        × (row.nonce ≡ count_bets row.user_id row.game rows))

module _ (q : Request) (v : BetReceivedArgs) (server_seed : Text) (rows : List CasinoRow) where
  abbrev next_nonce : ℕ
  next_nonce = count_bets q.user_id (onchain_type q.wager) rows

  persist-IsNext :
      (tx : Option Text) (final : ℕ)
      → IsNext rows (persist q v server_seed next_nonce tx final rows).1
  unfolding persist
  persist-IsNext tx final = inr (_, refl, refl)

  after_settle-IsNext :
      (payout : ℕ) (result : SettleResult)
      → IsNext rows (after_settle q v server_seed next_nonce payout rows result).1
  after_settle-IsNext payout no_settlement = persist-IsNext none payout
  after_settle-IsNext payout (settled tx actual) = persist-IsNext (some tx) actual
  after_settle-IsNext payout (settlement_error cause) =
      elim (Bool-cases (is_already_settled cause)) [
        | inl e ↦ rw e (inl refl)
        | inr e ↦ rw e (persist-IsNext (some q.tx_hash) payout)
      ]

  answer-IsNext :
      {Log : Type 0} (decode : Log → Option GameSettled) (seed_hash : Text → Text) (h : House)
      (send : Text → ℕ → Sent Log)
      → IsNext rows (answer decode h send server_seed seed_hash q v rows).1
  unfolding answer play
  answer-IsNext decode seed_hash h send = elim (Bool-cases (v.game == onchain_type q.wager)) [
    | inr g ↦ rw g (inl refl)
    | inl g ↦ elim (Bool-cases (same_address v.client_seed (seed_hash q.client_seed))) [
      | inr s ↦ rw (g, s) (inl refl)
      | inl s ↦ elim (Option-cases (find_request v.request_id rows)) [
        | inr (row, e) ↦ rw (g, s, e) (inl refl)
        | inl n ↦
            elim (Option-cases
              (draw_payout h v.request_id server_seed q.client_seed next_nonce v.amount q.wager)) [
                | inl d ↦ rw (g, s, n, d) (inl refl)
                | inr (payout, d) ↦ rw (g, s, n, d) (after_settle-IsNext payout _)
              ]
      ]
    ]
  ]

-- The earlier bets of the user in the game have another nonce.
abbrev pub IsFresh : List CasinoRow → CasinoRow → Type 0
IsFresh rows row =
    All (λ old. (old.user_id ≡ row.user_id) → (old.game ≡ row.game) → old.nonce ≢ row.nonce) rows

IsNext-IsNumbered :
    (rows rows' : List CasinoRow)
    → IsNumbered rows
    → IsNext rows rows'
    → IsNumbered rows'
      × ((rows' ≡ rows) ⊎ ((row : CasinoRow) × (rows' ≡ rows ++ row ∷ []) × IsFresh rows row))
IsNext-IsNumbered rows rows' h (inl same) = (rw same h, inl same)
IsNext-IsNumbered rows rows' h (inr (row, longer, fresh)) = (
  rw longer (append-IsNumbered rows row fresh h),
  inr (
    row,
    longer,
    All-imp {Q = λ old. (old.user_id ≡ row.user_id) → (old.game ≡ row.game) → old.nonce ≢ row.nonce}
        (λ (old : CasinoRow) (below : IsBelow rows old) user game equal.
          let less : old.nonce < count_bets row.user_id row.game rows =
            subst (λ n. old.nonce < count_bets n row.game rows) user
              (subst (λ n. old.nonce < count_bets old.user_id n rows) game below) in
          omega (arith, less, fresh, equal))
        rows h,
  ),
)

-- Every report of a bet keeps the nonces of each user in each game below the number of bets there; a
-- bet that it adds shares its nonce with no earlier bet of the user in the game.
pub post-IsNumbered :
    {EventLog Log : Type 0} (decode_bet : EventLog → Option (Decoded BetReceivedArgs))
    (contract : Text) (seed_hash : Text → Text) (decode : Log → Option GameSettled)
    (at_once awaited : Option (Receipt EventLog)) (h : House) (send : Text → ℕ → Sent Log)
    (server_seed : Text) (q : Request) (rows : List CasinoRow)
    → IsNumbered rows
    → let rows' =
        (post decode_bet contract at_once awaited seed_hash decode h send server_seed q rows).1 in
      IsNumbered rows'
      × ((rows' ≡ rows) ⊎ ((row : CasinoRow) × (rows' ≡ rows ++ row ∷ []) × IsFresh rows row))
unfolding post
post-IsNumbered decode_bet contract seed_hash decode at_once awaited h send server_seed q rows
      numbered =
    IsNext-IsNumbered rows _ numbered
      (elim (Checked-cases
        (verify_casino_bet_placed decode_bet contract at_once awaited q.wallet)) [
          | inl (e, r) ↦ rw r (inl refl)
          | inr (v, r) ↦ rw r (answer-IsNext q v server_seed rows decode seed_hash h send)
        ])
