-- ===== src/Verification/Laws.antt =====
-- When a reported transaction is accepted, and with which error it is refused otherwise.
use sportystake.Base.{
  ◌≡◌, refl, sym, ap, subst, ◌↔◌, inl, inr, true, false, not, Option, none, some, List, [], ◌∷◌,
  ◌++◌, All, arith, if◌then◌else◌, Text, text_eq, Bool-cases, Option-cases,
}
use sportystake.Verification.{
  no_receipt, transaction_failed, wrong_contract, event_not_found, sender_mismatch, Checked, ok,
  refused, ◌>>=◌, Receipt, Decoded, same_address, is_sent_to, or_refused, get_confirmed_receipt,
  confirm, decode_log,
}

module _ {Log Args : Type 0} (decode : Log → Option (Decoded Args)) (event_name : Text) where
  -- A log that is no event of the name.
  abbrev pub IsOther : Log → Type 0
  IsOther log = (d : Decoded Args) → decode log ≡ some d → text_eq d.event_name event_name ≡ false

  -- The first log that is an event of the name has these arguments.
  abbrev pub IsFirst : List Log → Args → Type 0
  IsFirst logs args =
      (before : List Log) × (log : Log) × (after : List Log) × (d : Decoded Args) × (logs
        ≡ before ++ (log ∷ after))
      × All IsOther before
      × (decode log ≡ some d)
      × (text_eq d.event_name event_name ≡ true)
      × (d.args ≡ args)

  decode_log-IsFirst :
      (logs : List Log) (args : Args)
      → decode_log decode logs event_name ≡ some args
      → IsFirst logs args
  unfolding decode_log
  decode_log-IsFirst [] args e = cc
  decode_log-IsFirst (log ∷ logs) args e = elim (Option-cases (decode log)) [
    | inl n ↦
        let (before, l, after, d, split, others, found, named, same) =
          decode_log-IsFirst logs args (ground (arith, e, n)) in
        (log ∷ before, l, after, d, ap (◌∷◌ log) split, ((λ x q. cc), others), found, named, same)
    | inr (d, s) ↦ elim (Bool-cases (text_eq d.event_name event_name)) [
      | inl q ↦ ([], log, logs, d, refl, tt, s, q, ground (arith, e, s, q))
      | inr q ↦
          let (before, l, after, d', split, others, found, named, equal) =
            decode_log-IsFirst logs args (ground (arith, e, s, q)) in
          let other : IsOther log = λ x r.
            let same : d ≡ x = cc in
            subst (λ (y : Decoded Args). text_eq y.event_name event_name ≡ false) same q in
          (log ∷ before, l, after, d', ap (◌∷◌ log) split, (other, others), found, named, equal)
    ]
  ]

  IsFirst-decode_log :
      (before : List Log) (log : Log) (after : List Log) (d : Decoded Args)
      → All IsOther before
      → decode log ≡ some d
      → text_eq d.event_name event_name ≡ true
      → decode_log decode (before ++ (log ∷ after)) event_name ≡ some d.args
  unfolding decode_log
  IsFirst-decode_log [] log after d others e q = rw (e, q) refl
  IsFirst-decode_log (b ∷ before) log after d (other, others) e q =
      let rest = IsFirst-decode_log before log after d others e q in
      elim (Option-cases (decode b)) [
        | inl n ↦ rw n rest
        | inr (x, s) ↦ let miss = other x s in rw (s, miss) rest
      ]

  pub decode_log_iff :
      (logs : List Log) (args : Args)
      → (decode_log decode logs event_name ≡ some args) ↔ IsFirst logs args
  decode_log_iff logs args = (
    decode_log-IsFirst logs args,
    λ h.
        let (before, log, after, d, split, others, e, q, same) = h in
        rw (split, sym same) (IsFirst-decode_log before log after d others e q),
  )

  decode_log-none : (logs : List Log) → decode_log decode logs event_name ≡ none → All IsOther logs
  unfolding decode_log
  decode_log-none [] e = tt
  decode_log-none (log ∷ logs) e = elim (Option-cases (decode log)) [
    | inl n ↦ ((λ x q. cc), decode_log-none logs (ground (arith, e, n)))
    | inr (d, s) ↦ elim (Bool-cases (text_eq d.event_name event_name)) [
      | inl q ↦
          let found : decode_log decode (log ∷ logs) event_name ≡ some d.args = rw (s, q) refl in cc
      | inr q ↦ (
        λ x r.
            let same : d ≡ x = cc in
            subst (λ (y : Decoded Args). text_eq y.event_name event_name ≡ false) same q,
        decode_log-none logs (ground (arith, e, s, q)),
      )
    ]
  ]

module _ {Log Args : Type 0} (decode : Log → Option (Decoded Args)) (sender : Args → Text)
    (contract : Text) (found : Option (Receipt Log)) (event_name expected : Text) where
  -- The transaction succeeded and was sent to the contract.
  abbrev pub IsConfirmed : Receipt Log → Type 0
  IsConfirmed r = (found ≡ some r) × (r.success ≡ true) × (is_sent_to contract r.sent_to ≡ true)

  -- What a check can come to: the receipt cannot be read; the transaction failed; it was sent
  -- elsewhere; it has no event of the name; the first event of the name is another sender's; or it is
  -- the expected sender's, and then its arguments make the result.
  pub data Verdict (B : Type 0) (result : Args → B) (c : Checked B) : Type 0 where
    unread : found ≡ none → c ≡ refused no_receipt → Verdict B result c
    failed :
        (r : Receipt Log)
        → found ≡ some r
        → r.success ≡ false
        → c ≡ refused transaction_failed
        → Verdict B result c
    elsewhere :
        (r : Receipt Log)
        → found ≡ some r
        → r.success ≡ true
        → is_sent_to contract r.sent_to ≡ false
        → c ≡ refused wrong_contract
        → Verdict B result c
    silent :
        (r : Receipt Log)
        → IsConfirmed r
        → All (IsOther decode event_name) r.logs
        → c ≡ refused event_not_found
        → Verdict B result c
    foreign :
        (r : Receipt Log) (args : Args)
        → IsConfirmed r
        → IsFirst decode event_name r.logs args
        → same_address (sender args) expected ≡ false
        → c ≡ refused sender_mismatch
        → Verdict B result c
    accepted :
        (r : Receipt Log) (args : Args)
        → IsConfirmed r
        → IsFirst decode event_name r.logs args
        → same_address (sender args) expected ≡ true
        → c ≡ ok (result args)
        → Verdict B result c

  abbrev pub IsVerdict : {B : Type 0} → (Args → B) → Checked B → Type 0
  IsVerdict {B} result c = Verdict B result c

  -- The steps that the checks share.
  unfoldable pub verified : Checked Args
  verified = do
    receipt ← get_confirmed_receipt contract found
    args ← or_refused (decode_log decode receipt.logs event_name) event_not_found
    if not (same_address (sender args) expected) then refused sender_mismatch else ok args

  verified-Verdict :
      {B : Type 0} (result : Args → B) → IsVerdict result (verified >>= (λ args. ok (result args)))
  unfolding verified get_confirmed_receipt confirm
  verified-Verdict result = elim (Option-cases found) [
    | inl n ↦ unread n (rw n refl)
    | inr (r, f) ↦ elim (Bool-cases r.success) [
      | inr u ↦ failed r f u (rw (f, u) refl)
      | inl s ↦ elim (Bool-cases (is_sent_to contract r.sent_to)) [
        | inr u ↦ elsewhere r f s u (rw (f, s, u) refl)
        | inl t ↦ elim (Option-cases (decode_log decode r.logs event_name)) [
          | inl n ↦
              silent r (f, s, t) (decode_log-none decode event_name r.logs n) (rw (f, s, t, n) refl)
          | inr (args, e) ↦
              let first = (decode_log_iff decode event_name r.logs args).0 e in
              elim (Bool-cases (same_address (sender args) expected)) [
                | inr u ↦ foreign r args (f, s, t) first u (rw (f, s, t, e, u) refl)
                | inl q ↦ accepted r args (f, s, t) first q (rw (f, s, t, e, q) refl)
              ]
        ]
      ]
    ]
  ]

  pub by_steps :
      {B : Type 0} (result : Args → B) (c : Checked B)
      → (verified >>= (λ args. ok (result args))) ≡ c
      → IsVerdict result c
  by_steps result c e = subst (IsVerdict result) e (verified-Verdict result)
