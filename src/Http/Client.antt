-- ===== src/Http/Client.antt =====
-- `CurlEasy` (http/client/curl_easy.cpp): a request through the cache, and the loop that tries again.
-- The client has a cache; `get` calls it without a test.
pub mod Attempts
pub mod Revalidated
pub mod Retries
use quant_forge_quant_resear.Common.{
  ℕ, zero, suc, ◌+◌, ◌*◌, List, [], ◌∷◌, ◌++◌, Bool, true, false, not, ◌&&◌, ◌||◌, Option, none,
  some, ltb, leb, if◌then◌else◌,
}
use quant_forge_quant_resear.Common.Int.{ℤ, pos, negsuc, ◌-ℤ◌, ltb_ℤ, eqb_ℤ, pos_part}
use quant_forge_quant_resear.StringUtils.{Bytes, codes}
use quant_forge_quant_resear.StringUtils.Decimal.{strtol}
use quant_forge_quant_resear.Http.Action.{
  Failure, runtime_error, Outcome, done, thrown, Action, pure, raise, ◌>>=◌, ◌>>◌,
}
use quant_forge_quant_resear.Http.Model.{Request, Response, empty_response}
use quant_forge_quant_resear.Http.World.{World, Scratch, Answer, Libraries, now}
use quant_forge_quant_resear.Http.Headers.{received}
use quant_forge_quant_resear.Http.CacheMeta.{NetworkCachePolicy, fresh_enough}
use quant_forge_quant_resear.Http.Cache.{
  Hit, probe, get_cached_response, cache_response, refresh_meta_timestamp,
}

pub record RetryPolicy : Type 0 where
  pub max_tries : ℕ
  pub base_delay : ℕ  -- in ms
  pub max_delay : ℕ

abbrev pub too_many_requests : ℤ
too_many_requests = pos 429

abbrev pub not_modified : ℤ
not_modified = pos 304

unfoldable pub is_retryable_http : ℤ → Bool
is_retryable_http code =
    eqb_ℤ code too_many_requests
    || eqb_ℤ code (pos 502)
    || eqb_ℤ code (pos 503)
    || eqb_ℤ code (pos 504)

abbrev pub is_empty : Bytes → Bool
is_empty [] = true
is_empty (c ∷ s) = false

-- the headers of a request that asks whether a stored response still holds
unfoldable pub conditional_headers : Option Hit → List Bytes → List Bytes
conditional_headers none headers = headers
conditional_headers (some hit) headers =
    let with_etag =
      if is_empty hit.meta.etag
      then headers
      else headers ++ (codes "If-None-Match: " ++ hit.meta.etag) ∷ [] in
    if is_empty hit.meta.last_modified
    then with_etag
    else with_etag ++ (codes "If-Modified-Since: " ++ hit.meta.last_modified) ∷ []

abbrev pub fail_with : Option Bytes → Action World Unit
fail_with none = pure tt
fail_with (some message) = raise (runtime_error message)

-- `set_url` and `set_headers`
abbrev pub set_request : Libraries → Request → Action World Unit
set_request libs req = fail_with (libs.request_error req)

unfoldable pub prepare_for_new_request : Libraries → Action World Unit
prepare_for_new_request libs w =
    let cleared = record w.scratch { response_headers = []; content_length = negsuc 0 } in
    fail_with libs.prepare_error (record w { scratch = cleared })

unfoldable pub perform_throw : Libraries → Request → Action World Answer
unfolding received
perform_throw libs req w =
    let answer = libs.perform w.performed req in
    let after = record w {
      clock_ms = w.clock_ms + answer.took_ms;
      scratch = received w.scratch answer.lines;
      performed = req ∷ w.performed;
    } in
    elim answer.error [
      | none ↦ (after, done answer)
      | some message ↦
          (after, thrown (runtime_error (codes "curl_easy_perform failed: " ++ message)))
    ]

-- The strings are moved out of the client, the numbers are copied.
unfoldable pub make_response : Libraries → Answer → Action World Response
make_response libs answer w =
    let last = w.scratch in
    let left = record last {
      etag = libs.moved_from last.etag;
      last_modified = libs.moved_from last.last_modified;
      retry_after = libs.moved_from last.retry_after;
      content_type = libs.moved_from last.content_type;
      cache_control = libs.moved_from last.cache_control;
    } in
    (
      record w { scratch = left },
      done (record {
        rate_limit_remaining = last.rl_remaining;
        rate_limit_reset = last.rl_reset;
        status = answer.code;
        body = answer.body;
        effective_url = elim answer.effective [ none ↦ [] | some url ↦ url ];
        etag = last.etag;
        last_modified = last.last_modified;
        retry_after = last.retry_after;
        cache_control = last.cache_control;
        content_type = last.content_type;
      }),
    )

-- what `get` does with an answer: a stored response that still holds is served again
unfoldable pub settle :
    Libraries → NetworkCachePolicy → Request → Option Hit → Response → Action World Response
unfolding cache_response refresh_meta_timestamp get_cached_response
settle libs policy req none r = do cache_response libs policy req r; pure r
settle libs policy req (some hit) r =
    if eqb_ℤ r.status not_modified
    then (do
      refreshed ← refresh_meta_timestamp libs hit.base_path hit.meta
      pure (get_cached_response (record hit { meta = refreshed })))
    else (do cache_response libs policy req r; pure r)

unfoldable pub fetch : Libraries → NetworkCachePolicy → Request → Option Hit → Action World Response
unfolding conditional_headers prepare_for_new_request perform_throw make_response settle
fetch libs policy req hit =
    let sent = record req { headers = conditional_headers hit req.headers } in
    do
      set_request libs sent
      prepare_for_new_request libs
      answer ← perform_throw libs sent
      r ← make_response libs answer
      settle libs policy req hit r

-- the stored response that needs no request
unfoldable pub fresh_hit : NetworkCachePolicy → ℤ → Option Hit → Option Hit
unfolding fresh_enough
fresh_hit policy now none = none
fresh_hit policy now (some hit) = if fresh_enough policy now hit.meta then some hit else none

unfoldable pub get : Libraries → NetworkCachePolicy → ℤ → Request → Action World Response
unfolding probe fetch fresh_hit
get libs policy indeterminate req w =
    let hit = probe libs policy indeterminate req w.files in
    elim (fresh_hit policy (now w) hit) [
      | none ↦ fetch libs policy req hit w
      | some fresh ↦ (w, done (get_cached_response fresh))
    ]

abbrev pub sleep_for : ℕ → World → World
sleep_for ms w = record w { clock_ms = w.clock_ms + ms; slept_ms = ms ∷ w.slept_ms }

abbrev min_ℕ : ℕ → ℕ → ℕ
min_ℕ a b = if ltb b a then b else a

-- the sleep, and the delay before the next one
unfoldable pub get_retry_delay : Libraries → RetryPolicy → ℕ → World → World × ℕ
get_retry_delay libs p delay w =
    (sleep_for (delay + libs.random p.base_delay w.slept_ms) w, min_ℕ (delay * 2) p.max_delay)

-- What a server that asks for a pause gets, in seconds: none where `Retry-After` has no number above 0.
unfoldable pub asked_pause : ℤ → Response → Option ℤ
asked_pause now resp =
    if not (is_empty resp.retry_after)
    then (if ltb_ℤ (pos 0) (strtol resp.retry_after).0
        then some (strtol resp.retry_after).0
        else none)
    else if ltb_ℤ now resp.rate_limit_reset
    then some (resp.rate_limit_reset -ℤ now)
    else some (pos 1)

abbrev pub pause : Option ℤ → World → World
pause none w = w
pause (some seconds) w = sleep_for (pos_part seconds * 1000) w

-- whether the server asks for one
unfoldable pub asks_pause : Response → Bool
asks_pause resp =
    not (is_empty resp.retry_after)
    || eqb_ℤ resp.rate_limit_remaining (pos 0) && ltb_ℤ (pos 0) resp.rate_limit_reset

-- What follows an attempt: `again` is the rest of the loop for a delay, and `left` the attempts in it,
-- so that `attempt < max_tries` where it is not 0.
unfoldable pub after_attempt :
    Libraries
    → RetryPolicy
    → ℕ
    → ℕ
    → (ℕ → Action World Response)
    → World
    → Outcome Response
    → World × Outcome Response
unfolding get_retry_delay asked_pause asks_pause is_retryable_http
after_attempt libs p left delay again after (thrown e) =
    let (slept, doubled) = get_retry_delay libs p delay after in
    if ltb 0 left then again doubled slept else (after, thrown e)
after_attempt libs p left delay again after (done resp) =
    let (slept, doubled) = get_retry_delay libs p delay after in
    if is_retryable_http resp.status && ltb 0 left
    then again doubled slept
    else if not (eqb_ℤ resp.status too_many_requests)
    then (after, done resp)
    else if asks_pause resp
    then again delay (pause (asked_pause (now after) resp) after)
    else if ltb 0 left
    then again doubled slept
    else (after, done resp)

-- The loop, by the attempts that are left; behind it stands `return {}`.
unfoldable pub retry_loop :
    Libraries → NetworkCachePolicy → ℤ → Request → RetryPolicy → ℕ → ℕ → Action World Response
unfolding get after_attempt
retry_loop libs policy indeterminate req p zero delay w = (w, done empty_response)
retry_loop libs policy indeterminate req p (suc left) delay w =
    let (after, end) = get libs policy indeterminate req w in
    after_attempt libs p left delay (retry_loop libs policy indeterminate req p left) after end

unfoldable pub get_with_retries :
    Libraries → NetworkCachePolicy → ℤ → Request → RetryPolicy → Action World Response
unfolding retry_loop
get_with_retries libs policy indeterminate req p =
    retry_loop libs policy indeterminate req p p.max_tries p.base_delay
