-- ===== src/Http/Client/Retries.antt =====
-- How the loop of `get_with_retries` ends.
use quant_forge_quant_resear.Common.{
  ℕ, zero, suc, Bool, true, false, not, ◌≡◌, ◌⊎◌, inl, inr, refl, ap, ◌∙◌, arith, ltb,
  if◌then◌else◌, if_both, if_split,
}
use quant_forge_quant_resear.Common.Int.{ℤ, eqb_ℤ}
use quant_forge_quant_resear.Http.Action.{Outcome, done, thrown, Action}
use quant_forge_quant_resear.Http.Model.{Request, Response, empty_response}
use quant_forge_quant_resear.Http.World.{World, Libraries}
use quant_forge_quant_resear.Http.CacheMeta.{NetworkCachePolicy}
use quant_forge_quant_resear.Http.Client.{
  RetryPolicy, too_many_requests, is_retryable_http, asks_pause, get_retry_delay, get,
  after_attempt, retry_loop, get_with_retries,
}

not_retryable : (code : ℤ) → is_retryable_http code ≡ false → eqb_ℤ code too_many_requests ≡ false
unfolding is_retryable_http
not_retryable code h = ground arith

not-true : (b : Bool) → not b ≡ true → b ≡ false
not-true true h = cc
not-true false h = refl

-- A response that no attempt is made again for ends the loop, and is what the call gives.
get_with_retries-first :
    (libs : Libraries) (policy : NetworkCachePolicy) (indeterminate : ℤ) (req : Request)
    (p : RetryPolicy) (tries : ℕ) (w after : World) (resp : Response)
    → p.max_tries ≡ suc tries
    → get libs policy indeterminate req w ≡ (after, done resp)
    → is_retryable_http resp.status ≡ false
    → get_with_retries libs policy indeterminate req p w ≡ (after, done resp)
unfolding get_with_retries retry_loop
get_with_retries-first libs policy indeterminate req p tries w after resp more got settled =
    ap (λ n. retry_loop libs policy indeterminate req p n p.base_delay w) more
    ∙ ap
        (λ r.
          after_attempt libs p tries p.base_delay (retry_loop libs policy indeterminate req p tries)
            r.0 r.1)
        got
    ∙ no_attempt
  where
    not_too_many : eqb_ℤ resp.status too_many_requests ≡ false
    not_too_many = not_retryable resp.status settled

    no_attempt :
        after_attempt libs p tries p.base_delay
          (retry_loop libs policy indeterminate req p tries)
          after
          (done resp)
        ≡ (after, done resp)
    no_attempt = unfold after_attempt in rw (settled, not_too_many, if◌then◌else◌) refl

-- A response that the loop may give: the empty one, or one of an attempt, and then with a status
-- other than 429 or without a pause that the server asks for.
abbrev pub IsGiven : Libraries → NetworkCachePolicy → ℤ → Request → Outcome Response → Type 0
IsGiven libs policy indeterminate req (thrown e) =
    (v : World) × ((get libs policy indeterminate req v).1 ≡ thrown e)
IsGiven libs policy indeterminate req (done r) =
    (r ≡ empty_response)
    ⊎ ((v : World) × ((get libs policy indeterminate req v).1 ≡ done r)
        × ((eqb_ℤ r.status too_many_requests ≡ false) ⊎ (asks_pause r ≡ false)))

module _ (libs : Libraries) (policy : NetworkCachePolicy) (indeterminate : ℤ) (req : Request)
    (p : RetryPolicy) where
  abbrev Ends : World × Outcome Response → Type 0
  Ends (after, end) = IsGiven libs policy indeterminate req end

  attempt-Ends :
      (left delay : ℕ) (again : ℕ → Action World Response) (before after : World)
      (end : Outcome Response)
      → (get libs policy indeterminate req before).1 ≡ end
      → ((d : ℕ) (v : World) → Ends (again d v))
      → Ends (after_attempt libs p left delay again after end)
  unfolding after_attempt get_retry_delay
  attempt-Ends left delay again before after (thrown e) got h =
      if_both Ends (ltb 0 left) (h _ _) (before, got)
  attempt-Ends left delay again before after (done resp) got h = if_both Ends _ (h _ _) (
      if_split Ends (not (eqb_ℤ resp.status too_many_requests))
        (λ other. inr (before, got, inl (not-true _ other)))
        (λ same.
          if_split Ends (asks_pause resp) (λ asked. h _ _)
            (λ no_pause. if_both Ends (ltb 0 left) (h _ _) (inr (before, got, inr no_pause)))))

  retry_loop-Ends :
      (left delay : ℕ) (w : World) → Ends (retry_loop libs policy indeterminate req p left delay w)
  unfolding retry_loop
  retry_loop-Ends zero delay w = inl refl
  retry_loop-Ends (suc left) delay w =
      attempt-Ends left delay (retry_loop libs policy indeterminate req p left) w
        (get libs policy indeterminate req w).0 (get libs policy indeterminate req w).1 refl
        (λ d v. retry_loop-Ends left d v)

-- An exception of the call is one of an attempt. A response of it is the empty one or one of an
-- attempt, but never a 429 whose server asks for a pause.
get_with_retries-IsGiven :
    (libs : Libraries) (policy : NetworkCachePolicy) (indeterminate : ℤ) (req : Request)
    (p : RetryPolicy) (w : World)
    → IsGiven libs policy indeterminate req (get_with_retries libs policy indeterminate req p w).1
unfolding get_with_retries
get_with_retries-IsGiven libs policy indeterminate req p w =
    retry_loop-Ends libs policy indeterminate req p p.max_tries p.base_delay w
