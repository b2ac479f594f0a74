-- ===== src/Hub/Health/Laws.antt =====
-- What the health endpoint answers.
use hi_im_core.Hub.Health
use hi_im_core.Prelude.{
  Bool, Bool-cases, List, [], ap, arith, c_string, codes, contains_iff, false, inl, inr, length,
  not, refl, true, ℕ, ◌++◌, ◌<◌, ◌∙◌, ◌∷◌, ◌≡◌, ◌⊎◌,
}
use hi_im_core.Hub.Bridge.{Hub}
use hi_im_core.Hub.Health.{
  Client, HealthCall, HealthRun, after_calls, client, has_returned, hung_up, is_ok_answer,
  no_client, on_request, ready_path, replied, response, returned, silent, stuck_in_recv,
}
use hi_im_core.Hub.Server.{is_ready}

-- The request asks for readiness: /readyz stands somewhere before its first zero byte.
abbrev pub AsksReady : List ℕ → Type 0
AsksReady req =
    (before : List ℕ) × (rest : List ℕ) × (c_string req ≡ before ++ (codes "/readyz" ++ rest))

-- An answer of HTTP with a status and a body.
abbrev pub http_answer : (ℕ → List ℕ) → List ℕ → List ℕ → List ℕ
http_answer to_decimal status shown =
    codes "HTTP/1.1 "
    ++ (status
        ++ (13 ∷ 10 ∷ codes "Content-Type: text/plain"
            ++ (13 ∷ 10 ∷ codes "Content-Length: "
                ++ (to_decimal (length shown)
                    ++ (13 ∷ 10 ∷ codes "Connection: close" ++ (13 ∷ 10 ∷ 13 ∷ 10 ∷ shown))))))

abbrev pub unavailable : (ℕ → List ℕ) → List ℕ
unavailable to_decimal =
    http_answer to_decimal (codes "503 Service Unavailable") (codes "not ready" ++ (10 ∷ []))

abbrev pub all_well : (ℕ → List ℕ) → List ℕ
all_well to_decimal = http_answer to_decimal (codes "200 OK") (codes "ok" ++ (10 ∷ []))

module _ (to_decimal : ℕ → List ℕ) (hub : Hub) where
  answer_lem :
      (req : List ℕ)
      → 0 < length req
      → Health.on_request to_decimal hub req ≡ response to_decimal (is_ok_answer (is_ready hub) req)
  unfolding on_request
  answer_lem [] some_bytes = absurd (omega arith)
  answer_lem (b ∷ req) some_bytes = refl

  -- A request that is not empty is answered with the status "503 Service Unavailable" and the body
  -- "not ready" if it asks for /readyz while a plane is not listening, and with "200 OK" and "ok"
  -- otherwise.
  pub on_request_decides :
      (req : List ℕ)
      → 0 < length req
      → ((Health.on_request to_decimal hub req ≡ unavailable to_decimal)
          × (is_ready hub ≡ false)
          × AsksReady req)
        ⊎ ((Health.on_request to_decimal hub req ≡ all_well to_decimal)
            × ((is_ready hub ≡ true) ⊎ (¬ AsksReady req)))
  unfolding is_ok_answer response
  on_request_decides req some_bytes = elim (Bool-cases (ready_path req)) [
    | inl asks ↦ elim (Bool-cases (is_ready hub)) [
      | inl ready ↦ inr (answer_lem req some_bytes ∙ rw (asks, ready), inl ready)
      | inr not_yet ↦ inl (
        answer_lem req some_bytes ∙ rw (asks, not_yet),
        not_yet,
        (contains_iff (codes "/readyz") (c_string req)).0 asks,
      )
    ]
    | inr other ↦ inr (
      answer_lem req some_bytes ∙ rw other,
      inr (λ h. cc (other, (contains_iff (codes "/readyz") (c_string req)).1 h)),
    )
  ]

-- A client that stays silent is among those of the rounds.
abbrev pub any_silent : List (Hub × Client) → Bool
any_silent [] = false
any_silent ((hub, no_client) ∷ rounds) = any_silent rounds
any_silent ((hub, client fd req) ∷ rounds) = any_silent rounds
any_silent ((hub, silent fd) ∷ rounds) = true

-- Run returns just when no client stays silent.
pub run-any_silent :
    (to_decimal : ℕ → List ℕ) (rounds : List (Hub × Client))
    → has_returned (Health.run to_decimal rounds) ≡ not (any_silent rounds)
unfolding Health.run
run-any_silent to_decimal [] = refl
run-any_silent to_decimal ((hub, no_client) ∷ rounds) = run-any_silent to_decimal rounds
run-any_silent to_decimal ((hub, client fd req) ∷ rounds) =
    behind (Health.serve to_decimal hub fd req) (Health.run to_decimal rounds)
    ∙ run-any_silent to_decimal rounds
  where
    behind :
        (calls : List HealthCall) (r : HealthRun)
        → has_returned (after_calls calls r) ≡ has_returned r
    behind calls (returned later) = refl
    behind calls (stuck_in_recv fd' later) = refl
run-any_silent to_decimal ((hub, silent fd) ∷ rounds) = refl

-- The connections that a sequence of calls closes, and those that accept has returned.
unfoldable pub closed_by : List HealthCall → List ℕ
closed_by [] = []
closed_by (replied fd bytes ∷ calls) = closed_by calls
closed_by (hung_up fd ∷ calls) = fd ∷ closed_by calls

unfoldable pub accepted_in : List (Hub × Client) → List ℕ
accepted_in [] = []
accepted_in ((hub, no_client) ∷ rounds) = accepted_in rounds
accepted_in ((hub, client fd req) ∷ rounds) = fd ∷ accepted_in rounds
accepted_in ((hub, silent fd) ∷ rounds) = fd ∷ accepted_in rounds

-- What is closed when Run returns: every connection, once, in the order of their arrival.
abbrev ClosesAll : List ℕ → HealthRun → Type 0
ClosesAll fds (returned calls) = closed_by calls ≡ fds
ClosesAll fds (stuck_in_recv fd calls) = Unit {0}

pub run-closes :
    (to_decimal : ℕ → List ℕ) (rounds : List (Hub × Client))
    → ClosesAll (accepted_in rounds) (Health.run to_decimal rounds)
unfolding Health.run Health.serve closed_by accepted_in
run-closes to_decimal [] = refl
run-closes to_decimal ((hub, no_client) ∷ rounds) = run-closes to_decimal rounds
run-closes to_decimal ((hub, client fd req) ∷ rounds) =
    behind req (accepted_in rounds) (Health.run to_decimal rounds) (run-closes to_decimal rounds)
  where
    behind :
        (asked : List ℕ) (fds : List ℕ) (r : HealthRun)
        → ClosesAll fds r
        → ClosesAll (fd ∷ fds) (after_calls (Health.serve to_decimal hub fd asked) r)
    behind [] fds (returned calls) all = ap (◌∷◌ fd) all
    behind (b ∷ asked) fds (returned calls) all = ap (◌∷◌ fd) all
    behind asked fds (stuck_in_recv fd' calls) all = tt
run-closes to_decimal ((hub, silent fd) ∷ rounds) = tt
