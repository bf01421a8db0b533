-- ===== src/Casino/BetRoute/Laws.antt =====
-- A reported bet is drawn once, and no two bets of a user in a game share a nonce.
use sportystake.Base.{
  ℕ, ◌≡◌, refl, inl, inr, true, not, Option, none, some, List, [], ◌∷◌, ◌++◌, arith, ◌==◌, Text,
  text_eq, text_eq_refl, Bool-cases, Option-cases,
}
use sportystake.Verification.{Checked, Receipt, Decoded, same_address}
use sportystake.Verification.CasinoHouse.{BetReceivedArgs, verify_casino_bet_placed}
use sportystake.Casino.Onchain.{
  GameSettled, Sent, SettleResult, no_settlement, settled, settlement_error, is_already_settled,
}
use sportystake.Casino.BetRoute.{
  onchain_type, Request, CasinoRow, error, Reply, Answer, reply, has_request, find_request,
  count_bets, House, draw_payout, persist, after_settle, play, answer, post,
}

-- The row has what the reply says.
abbrev pub IsReplyOf : Reply → CasinoRow → Type 0
IsReplyOf r row =
    (row.is_won ≡ r.win)
    × (row.payout ≡ r.payout)
    × (row.seed_server ≡ r.server_seed)
    × (row.nonce ≡ r.nonce)

-- The reply comes with a row under the request, or the answer is an error and no row is added.
abbrev IsKept : Text → List CasinoRow → Answer × List CasinoRow → Type 0
IsKept request_id rows (error e, rows') = rows' ≡ rows
IsKept request_id rows (reply r, rows') =
    (row : CasinoRow) × (find_request request_id rows' ≡ some row) × IsReplyOf r row

-- The second answer repeats the first, which is a reply, and leaves the rows as they are; or the first
-- is an error and added no row.
abbrev pub IsOnce : List CasinoRow → Answer × List CasinoRow → Answer × List CasinoRow → Type 0
IsOnce rows (error e, rows') again = rows' ≡ rows
IsOnce rows (reply r, rows') again =
    (r' : Reply) × (again ≡ (reply r', rows'))
    × (r'.win ≡ r.win)
    × (r'.payout ≡ r.payout)
    × (r'.server_seed ≡ r.server_seed)
    × (r'.nonce ≡ r.nonce)
    × (r'.idempotent ≡ true)

find_request-append :
    (request_id : Text) (rows : List CasinoRow) (row : CasinoRow)
    → find_request request_id rows ≡ none
    → has_request request_id row ≡ true
    → find_request request_id (rows ++ row ∷ []) ≡ some row
unfolding find_request
find_request-append request_id [] row h e = ground (arith, e)
find_request-append request_id (x ∷ rows) row h e =
    ground (arith, find_request-append request_id rows row, h, e)

module _ (q : Request) (v : BetReceivedArgs) (server_seed : Text) (nonce : ℕ)
    (rows : List CasinoRow) where
  persist-IsKept :
      (tx : Option Text) (final : ℕ)
      → find_request v.request_id rows ≡ none
      → IsKept v.request_id rows (persist q v server_seed nonce tx final rows)
  unfolding persist
  persist-IsKept tx final absent = (
    _,
    find_request-append v.request_id rows _ absent (text_eq_refl v.request_id),
    (refl, refl, refl, refl),
  )

  after_settle-IsKept :
      (payout : ℕ) (result : SettleResult)
      → find_request v.request_id rows ≡ none
      → IsKept v.request_id rows (after_settle q v server_seed nonce payout rows result)
  after_settle-IsKept payout no_settlement absent = persist-IsKept none payout absent
  after_settle-IsKept payout (settled tx actual) absent = persist-IsKept (some tx) actual absent
  after_settle-IsKept payout (settlement_error cause) absent =
      elim (Bool-cases (is_already_settled cause)) [
        | inl e ↦ rw e refl
        | inr e ↦ rw e (persist-IsKept (some q.tx_hash) payout absent)
      ]

module _ {Log : Type 0} (decode : Log → Option GameSettled) (seed_hash : Text → Text)
    (v : BetReceivedArgs) where
  play-IsKept :
      (h : House) (send : Text → ℕ → Sent Log) (server_seed : Text) (q : Request)
      (rows : List CasinoRow)
      → find_request v.request_id rows ≡ none
      → IsKept v.request_id rows (play decode h send server_seed q v rows)
  unfolding play
  play-IsKept h send server_seed q rows absent =
      let nonce = count_bets q.user_id (onchain_type q.wager) rows in
      elim (Option-cases
        (draw_payout h v.request_id server_seed q.client_seed nonce v.amount q.wager)) [
          | inl n ↦ rw n refl
          | inr (payout, e) ↦ rw e (after_settle-IsKept q v server_seed nonce rows payout _ absent)
        ]

  answer-IsKept :
      (h : House) (send : Text → ℕ → Sent Log) (server_seed : Text) (q : Request)
      (rows : List CasinoRow)
      → IsKept v.request_id rows (answer decode h send server_seed seed_hash q v rows)
  unfolding answer
  answer-IsKept h send server_seed q rows = elim (Bool-cases (v.game == onchain_type q.wager)) [
    | inr g ↦ rw g refl
    | inl g ↦ elim (Bool-cases (same_address v.client_seed (seed_hash q.client_seed))) [
      | inr s ↦ rw (g, s) refl
      | inl s ↦ elim (Option-cases (find_request v.request_id rows)) [
        | inl n ↦ rw (g, s, n) (play-IsKept h send server_seed q rows n)
        | inr (row, e) ↦ rw (g, s, e) (row, e, (refl, refl, refl, refl))
      ]
    ]
  ]

  answer-again :
      (h : House) (send : Text → ℕ → Sent Log) (server_seed : Text) (q : Request)
      (rows : List CasinoRow) (row : CasinoRow)
      → v.game ≡ onchain_type q.wager
      → same_address v.client_seed (seed_hash q.client_seed) ≡ true
      → find_request v.request_id rows ≡ some row
      → answer decode h send server_seed seed_hash q v rows ≡ (
        reply (record {
          win = row.is_won;
          payout = row.payout;
          server_seed = row.seed_server;
          nonce = row.nonce;
          is_settled = not (text_eq row.tx_hash q.tx_hash);
          idempotent = true;
        }),
        rows,
      )
  unfolding answer
  answer-again h send server_seed q rows row g s e =
      let game : (v.game == onchain_type q.wager) ≡ true = ground (arith, g) in rw (game, s, e) refl

  kept-IsOnce :
      (h : House) (send : Text → ℕ → Sent Log) (server_seed : Text) (q : Request)
      (rows : List CasinoRow) (first : Answer × List CasinoRow)
      → v.game ≡ onchain_type q.wager
      → same_address v.client_seed (seed_hash q.client_seed) ≡ true
      → IsKept v.request_id rows first
      → IsOnce rows first (answer decode h send server_seed seed_hash q v first.1)
  kept-IsOnce h send server_seed q rows (error e, rows') g s kept = kept
  kept-IsOnce h send server_seed q rows (reply r, rows') g s (row, found, fields) =
      let again = answer-again h send server_seed q rows' row g s found in
      let (win, payout, seed, nonce) = fields in
      (
        record {
          win = row.is_won;
          payout = row.payout;
          server_seed = row.seed_server;
          nonce = row.nonce;
          is_settled = not (text_eq row.tx_hash q.tx_hash);
          idempotent = true;
        },
        again,
        win,
        payout,
        seed,
        nonce,
        refl,
      )

-- Once a bet was answered, every later report of it that is verified as the same bet, for the same
-- game and with the seed committed to, gets the same result, seed and nonce again and adds no row,
-- whatever the house, the chain and the secret seed are then. A report that is refused adds none.
pub post-IsOnce :
    {EventLog Log : Type 0} (decode_bet : EventLog → Option (Decoded BetReceivedArgs))
    (contract : Text) (seed_hash : Text → Text) (decode : Log → Option GameSettled)
    (at_once awaited at_once' awaited' : Option (Receipt EventLog)) (h h' : House)
    (send send' : Text → ℕ → Sent Log) (server_seed server_seed' : Text) (q q' : Request)
    (v : BetReceivedArgs) (rows : List CasinoRow)
    → verify_casino_bet_placed decode_bet contract at_once awaited q.wallet ≡ Checked.ok v
    → verify_casino_bet_placed decode_bet contract at_once' awaited' q'.wallet ≡ Checked.ok v
    → v.game ≡ onchain_type q'.wager
    → same_address v.client_seed (seed_hash q'.client_seed) ≡ true
    → let first =
        post decode_bet contract at_once awaited seed_hash decode h send server_seed q rows in
      let again =
        post decode_bet contract at_once' awaited' seed_hash decode h' send' server_seed' q'
          first.1 in
      IsOnce rows first again
unfolding post
post-IsOnce decode_bet contract seed_hash decode at_once awaited at_once' awaited' h h' send send'
      server_seed server_seed' q q' v rows first second g s =
    rw (first, second)
      (kept-IsOnce decode seed_hash v h' send' server_seed' q' rows
        (answer decode h send server_seed seed_hash q v rows) g s
        (answer-IsKept decode seed_hash v h send server_seed q rows))
