-- ===== src/Output/Writer/Webhook.antt =====
-- sendWebhook of output/writer.go: at most three posts of a result, with a wait after each but the
-- last. What the HTTP client makes of the n-th request, and whether the context ends during the n-th
-- wait, are parameters.
use fruitfly.Base.{
  ltb, leb, ◌==◌, if◌then◌else◌, Str, ℕ, zero, suc, ◌+◌, ◌≤◌, ◌<◌, ◌≡◌, Bool, false, ◌&&◌, not,
  Option, none, some, [], ◌∷◌, ◌⊎◌,
}
use fruitfly.Types.{Result}

abbrev pub max_attempts : ℕ
max_attempts = 3

pub data Response : Type 0 where
  not_built no_response : Response
  status : ℕ → Response

pub data Delivery : Type 0 where
  not_configured not_marshalled build_failed client_error cancelled gave_up delivered : Delivery

-- How an answer is taken: the post is done, it failed for good, or it is tried again.
pub data Judgement : Type 0 where
  done : Delivery → Judgement
  retry : Judgement

unfoldable pub judge : Response → Judgement
judge not_built = done build_failed
judge no_response = retry
judge (status code) =
    if ltb code 300
    then done delivered
    else if leb 400 code && ltb code 500 && not (code == 429)
    then done client_error
    else retry

module _ (http : ℕ → Response) (ends : ℕ → Bool) where
  -- The attempts from the n-th on, `left` of them.
  unfoldable pub attempts : ℕ → ℕ → Delivery
  attempts n zero = gave_up
  attempts n (suc left) =
      let rest = attempts (suc n) left in
      elim (judge (http n)) [
        | done d ↦ d
        | retry ↦ if left == 0 then gave_up else if ends n then cancelled else rest
      ]

  post : Option Str → Delivery
  unfolding attempts
  post none = not_marshalled
  post (some body) = attempts 0 max_attempts

  unfoldable pub send_webhook : (Result → Option Str) → Str → Result → Delivery
  unfolding post
  send_webhook marshal [] r = not_configured
  send_webhook marshal (c ∷ url) r = post (marshal r)

  -- The n-th answer is a success.
  abbrev pub IsSuccess : ℕ → Type 0
  IsSuccess n = (code : ℕ) × (http n ≡ status code) × (code < 300)

  -- The n-th post is not answered, or with a status that is neither a success nor the client's fault.
  abbrev pub IsTransient : ℕ → Type 0
  IsTransient n =
      (http n ≡ no_response)
      ⊎ ((code : ℕ) × (http n ≡ status code)
          × (300 ≤ code)
          × ((code < 400) ⊎ ((500 ≤ code) ⊎ (code ≡ 429))))

  -- After the n-th answer the post is tried again, the context alive through the wait.
  abbrev pub IsRetried : ℕ → Type 0
  IsRetried n = IsTransient n × (ends n ≡ false)

  -- One of the attempts from the n-th on succeeds, after others that are tried again.
  abbrev Succeeds : ℕ → ℕ → Type 0
  Succeeds n left =
      (k : ℕ) × (n ≤ k) × (k < n + left) × IsSuccess k × ((i : ℕ) → n ≤ i → i < k → IsRetried i)
