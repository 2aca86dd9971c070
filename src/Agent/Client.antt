-- ===== src/Agent/Client.antt =====
-- Send of internal/agent/client.go: a report that json.Marshal encodes is sent up to three times.
use server_status.Base.{
  ℕ, zero, suc, ◌+◌, ◌≤◌, ◌<◌, Bool, true, false, not, ◌||◌, List, Option, none, some, ◌⊎◌, inl,
  inr, leb, ◌==◌, if◌then◌else◌, ◌≡◌, refl, arith, ==_iff, Bool-cases,
}
use server_status.Base.Text.{codes, text_eq}
use server_status.Report.Types.{ReportReceipt}

pub data SendError : Type 0 where
  not_created not_sent not_decoded unexpected_status : SendError
  server_returned : ℕ → SendError

-- What one request meets: whether it can be made, the status and the body of the answer (`none` where
-- Do fails), and whether the context is done by then.
pub record Exchange : Type 0 where
  pub creates : Bool
  pub response : Option (ℕ × List ℕ)
  pub cancelled : Bool

-- The statuses worth another attempt.
unfoldable pub is_retryable : ℕ → Bool
is_retryable status = status == 408 || status == 425 || status == 429 || leb 500 status

-- `decode` is json.Unmarshal into a receipt, with `none` for its error.
module _ (decode : List ℕ → Option ReportReceipt) where
  unfoldable pub read_receipt : List ℕ → (SendError × Bool) ⊎ ReportReceipt
  read_receipt body = elim (decode body) [
    | none ↦ inl (not_decoded, false)
    | some receipt ↦
        if text_eq receipt.status (codes "accepted")
        then inr receipt
        else inl (unexpected_status, false)
  ]

  -- An error with whether it is retryable, or the receipt.
  unfoldable pub send_once : Exchange → (SendError × Bool) ⊎ ReportReceipt
  unfolding read_receipt is_retryable
  send_once exchange =
      if exchange.creates
      then elim exchange.response [
        | none ↦ inl (not_sent, not exchange.cancelled)
        | some (status, body) ↦
            if status == 202
            then read_receipt body
            else inl (server_returned status, is_retryable status)
      ]
      else inl (not_created, false)

  pub data SendResult : Type 0 where
    received : ReportReceipt → SendResult
    given_up : SendError → SendResult
    exhausted : Option SendError → SendResult
    context_done : SendResult

  -- What the attempts meet: each request, and whether the timer before it fires, of 2^(attempt - 1)
  -- seconds.
  pub record Attempts : Type 0 where
    pub fires : ℕ → Bool
    pub exchange : ℕ → Exchange

  abbrev pub is_due : Attempts → ℕ → Bool
  is_due w zero = true
  is_due w (suc attempt) = w.fires (suc attempt)

  -- The loop: how many attempts are left, the number of the next one, and the last error.
  unfoldable pub send_from : Attempts → ℕ → ℕ → Option SendError → SendResult
  unfolding send_once
  send_from w zero attempt last_error = exhausted last_error
  send_from w (suc left) attempt last_error =
      if is_due w attempt
      then elim (send_once (w.exchange attempt)) [
        | inr receipt ↦ received receipt
        | inl (e, true) ↦ send_from w left (suc attempt) (some e)
        | inl (e, false) ↦ given_up e
      ]
      else context_done

  unfoldable pub send : Attempts → SendResult
  unfolding send_from
  send w = send_from w 3 0 none

  module _ (w : Attempts) (receipt : ReportReceipt) (errors : ℕ → SendError) (last : ℕ)
      (taken : send_once (w.exchange last) ≡ inr receipt) where
    taken_at : {attempt : ℕ} → attempt ≡ last → send_once (w.exchange attempt) ≡ inr receipt
    taken_at e = rw e taken

    send_from-delivers :
        (left attempt : ℕ) (last_error : Option SendError)
        → attempt ≤ last
        → last < attempt + left
        → ((j : ℕ) → attempt ≤ j → j ≤ last → is_due w j ≡ true)
        → ((j : ℕ) → attempt ≤ j → j < last → send_once (w.exchange j) ≡ inl (errors j, true))
        → send_from w left attempt last_error ≡ received receipt
    unfolding send_from
    send_from-delivers zero attempt last_error a b d f = absurd (omega (arith, a, b))
    send_from-delivers (suc left) attempt last_error a b d f =
        let due = d attempt (omega arith) a in
        elim (Bool-cases (attempt == last)) [
          | inl h ↦ rw (due, taken_at ((==_iff attempt last).0 h), send_from) refl
          | inr h ↦
              let before : attempt < last = ground (arith, ==_iff attempt last, h, a) in
              rw (due, f attempt (omega arith) before, send_from)
                (send_from-delivers left (suc attempt) (some (errors attempt))
                  (omega (arith, before)) (omega (arith, b)) (λ j l. d j (omega (arith, l)))
                  (λ j l. f j (omega (arith, l))))
        ]

    -- Where the timers fire, a report is delivered if one of its first three requests gets a receipt
    -- and those before it fail in ways that are worth another attempt.
    pub send-delivers :
        last < 3
        → ((j : ℕ) → j ≤ last → is_due w j ≡ true)
        → ((j : ℕ) → j < last → send_once (w.exchange j) ≡ inl (errors j, true))
        → send w ≡ received receipt
    unfolding send
    send-delivers b d f =
        send_from-delivers 3 0 none (omega arith) (omega (arith, b)) (λ j l. d j) (λ j l. f j)
