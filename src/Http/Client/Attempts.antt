-- ===== src/Http/Client/Attempts.antt =====
-- How many requests the client sends.
use quant_forge_quant_resear.Common.{
  ℕ, zero, suc, ◌+◌, ◌≤◌, Option, none, some, ◌≡◌, refl, ap, ◌∙◌, arith, if_both, option_both,
  length, ltb,
}
use quant_forge_quant_resear.Common.Int.{ℤ, eqb_ℤ}
use quant_forge_quant_resear.StringUtils.{Bytes}
use quant_forge_quant_resear.Http.Action.{
  Outcome, done, thrown, Action, pure, ◌>>◌, ◌>>=◌, continue_both,
}
use quant_forge_quant_resear.Http.Model.{Request, Response}
use quant_forge_quant_resear.Http.World.{World, Answer, Libraries, now}
use quant_forge_quant_resear.Http.CacheMeta.{NetworkCachePolicy, Meta}
use quant_forge_quant_resear.Http.Cache.{
  Hit, write_atomic, save_meta_atomic, cache_response, refresh_meta_timestamp,
}
use quant_forge_quant_resear.Http.Client.{
  RetryPolicy, not_modified, after_attempt, asks_pause, asked_pause, pause, fail_with, set_request,
  conditional_headers, prepare_for_new_request, perform_throw, make_response, settle, fetch,
  fresh_hit, get, retry_loop, get_with_retries, get_retry_delay,
}

-- The call sends no request.
abbrev Silent : {A : Type 0} → World → World × Outcome A → Type 0
Silent w (after, end) = after.performed ≡ w.performed

write_atomic-Silent :
    (libs : Libraries) (p bytes : Bytes) (w : World) → Silent w (write_atomic libs p bytes w)
unfolding write_atomic
write_atomic-Silent libs p bytes w =
    if_both (Silent w) (libs.opens _)
      (if_both (Silent w) (libs.writes _ bytes)
        (option_both (Silent w) (libs.rename_error _ p) refl (λ message. refl)) refl)
      refl

cache_response-Silent :
    (libs : Libraries) (policy : NetworkCachePolicy) (req : Request) (resp : Response) (w : World)
    → Silent w (cache_response libs policy req resp w)
unfolding cache_response save_meta_atomic
cache_response-Silent libs policy req resp w =
    if_both (Silent w) policy.enable_caching
      (continue_both (Silent w) _ (write_atomic libs _ resp.body w).1 _
        (λ u. write_atomic-Silent libs _ _ _ ∙ write_atomic-Silent libs _ resp.body w)
        (λ e. write_atomic-Silent libs _ resp.body w))
      refl

refresh-Silent :
    (libs : Libraries) (base_path : Bytes) (meta : Meta) (w : World)
    → Silent w (refresh_meta_timestamp libs base_path meta w)
unfolding refresh_meta_timestamp save_meta_atomic
refresh-Silent libs base_path meta w =
    continue_both (Silent w) _ (write_atomic libs _ _ w).1 _ (λ u. write_atomic-Silent libs _ _ w)
      (λ e. write_atomic-Silent libs _ _ w)

store_and_give :
    (libs : Libraries) (policy : NetworkCachePolicy) (req : Request) (r : Response) (w : World)
    → Silent w ((cache_response libs policy req r >> pure r) w)
store_and_give libs policy req r w =
    continue_both (Silent w) _ (cache_response libs policy req r w).1 _
      (λ u. cache_response-Silent libs policy req r w)
      (λ e. cache_response-Silent libs policy req r w)

settle-Silent :
    (libs : Libraries) (policy : NetworkCachePolicy) (req : Request) (hit : Option Hit)
    (r : Response) (w : World)
    → Silent w (settle libs policy req hit r w)
unfolding settle
settle-Silent libs policy req none r w = store_and_give libs policy req r w
settle-Silent libs policy req (some hit) r w =
    if_both {A = Action World Response} (λ call. Silent w (call w)) (eqb_ℤ r.status not_modified)
      (continue_both (Silent w) _ (refresh_meta_timestamp libs hit.base_path hit.meta w).1 _
        (λ refreshed. refresh-Silent libs hit.base_path hit.meta w)
        (λ e. refresh-Silent libs hit.base_path hit.meta w))
      (store_and_give libs policy req r w)

-- The call sends one request at most.
abbrev Once : {A : Type 0} → World → World × Outcome A → Type 0
Once w (after, end) = length after.performed ≤ suc (length w.performed)

perform_throw-Once :
    (libs : Libraries) (req : Request) (w : World) → Once w (perform_throw libs req w)
unfolding perform_throw
perform_throw-Once libs req w =
    option_both (Once w) (libs.perform w.performed req).error (omega arith) (λ message. omega arith)

make_response-Silent :
    (libs : Libraries) (answer : Answer) (w : World) → Silent w (make_response libs answer w)
unfolding make_response
make_response-Silent libs answer w = refl

-- what follows the answer
respond : Libraries → NetworkCachePolicy → Request → Option Hit → Answer → Action World Response
respond libs policy req hit answer = do r ← make_response libs answer; settle libs policy req hit r

respond-Silent :
    (libs : Libraries) (policy : NetworkCachePolicy) (req : Request) (hit : Option Hit)
    (answer : Answer) (w : World)
    → Silent w (respond libs policy req hit answer w)
unfolding respond
respond-Silent libs policy req hit answer w =
    let between = (make_response libs answer w).0 in
    continue_both (Silent w) between (make_response libs answer w).1 (settle libs policy req hit)
      (λ r. settle-Silent libs policy req hit r between ∙ make_response-Silent libs answer w)
      (λ e. make_response-Silent libs answer w)

answered-Once :
    (libs : Libraries) (policy : NetworkCachePolicy) (req sent : Request) (hit : Option Hit)
    (w : World)
    → Once w ((perform_throw libs sent >>= respond libs policy req hit) w)
answered-Once libs policy req sent hit w =
    let between = (perform_throw libs sent w).0 in
    continue_both (Once w) between (perform_throw libs sent w).1 (respond libs policy req hit)
      (λ answer. omega (
        arith,
        perform_throw-Once libs sent w,
        ap length (respond-Silent libs policy req hit answer between),
      ))
      (λ e. perform_throw-Once libs sent w)

fail_with-Silent : (error : Option Bytes) (w : World) → Silent w (fail_with error w)
fail_with-Silent none w = refl
fail_with-Silent (some message) w = refl

prepare-Silent : (libs : Libraries) (w : World) → Silent w (prepare_for_new_request libs w)
unfolding prepare_for_new_request
prepare-Silent libs w = fail_with-Silent libs.prepare_error _

Silent-Once :
    {B : Type 0} (call : Action World Unit) (next : Action World B) (w : World)
    → Silent w (call w)
    → ((v : World) → Once v (next v))
    → Once w ((call >> next) w)
Silent-Once call next w h k =
    continue_both (Once w) (call w).0 (call w).1 (λ u. next)
      (λ u. omega (arith, ap length h, k (call w).0)) (λ e. omega (arith, ap length h))

fetch-Once :
    (libs : Libraries) (policy : NetworkCachePolicy) (req : Request) (hit : Option Hit) (w : World)
    → Once w (fetch libs policy req hit w)
unfolding fetch respond
fetch-Once libs policy req hit w =
    let sent = record req { headers = conditional_headers hit req.headers } in
    let answered = perform_throw libs sent >>= respond libs policy req hit in
    Silent-Once (set_request libs sent) (prepare_for_new_request libs >> answered) w
      (fail_with-Silent (libs.request_error sent) w)
      (λ v.
        Silent-Once (prepare_for_new_request libs) answered v (prepare-Silent libs v)
          (answered-Once libs policy req sent hit))

get-Once :
    (libs : Libraries) (policy : NetworkCachePolicy) (indeterminate : ℤ) (req : Request) (w : World)
    → Once w (get libs policy indeterminate req w)
unfolding get
get-Once libs policy indeterminate req w =
    option_both (Once w) (fresh_hit policy (now w) _) (fetch-Once libs policy req _ w)
      (λ fresh. omega arith)

-- The loop sends a request at most for each attempt that is left.
abbrev Within : ℕ → World → World × Outcome Response → Type 0
Within n w (after, end) = length after.performed ≤ length w.performed + n

pause-performed : (asked : Option ℤ) (w : World) → (pause asked w).performed ≡ w.performed
pause-performed none w = refl
pause-performed (some seconds) w = refl

-- What holds of the rest of the loop, whenever it starts, and of an end here holds of what follows an attempt.
pub after_attempt_both :
    (P : World × Outcome Response → Type 0) (libs : Libraries) (p : RetryPolicy) (left delay : ℕ)
    (again : ℕ → Action World Response) (after : World) (end : Outcome Response)
    → ((d : ℕ) (w : World) → w.performed ≡ after.performed → P (again d w))
    → P (after, end)
    → P (after_attempt libs p left delay again after end)
unfolding after_attempt get_retry_delay
after_attempt_both P libs p left delay again after (thrown e) h k =
    if_both P (ltb 0 left) (h _ _ refl) k
after_attempt_both P libs p left delay again after (done resp) h k = if_both P _ (h _ _ refl) (
    if_both P _ k (
      if_both P (asks_pause resp) (h _ _ (pause-performed (asked_pause (now after) resp) after))
        (if_both P (ltb 0 left) (h _ _ refl) k)))

retry_loop-Within :
    (libs : Libraries) (policy : NetworkCachePolicy) (indeterminate : ℤ) (req : Request)
    (p : RetryPolicy) (left delay : ℕ) (w : World)
    → Within left w (retry_loop libs policy indeterminate req p left delay w)
unfolding retry_loop
retry_loop-Within libs policy indeterminate req p zero delay w = omega arith
retry_loop-Within libs policy indeterminate req p (suc left) delay w =
    let once = get-Once libs policy indeterminate req w in
    let (after, end) = get libs policy indeterminate req w in
    after_attempt_both (Within (suc left) w) libs p left delay
      (retry_loop libs policy indeterminate req p left) after end
      (λ d v e.
        omega
          (arith, once, ap length e, retry_loop-Within libs policy indeterminate req p left d v))
      (omega (arith, once))

-- A call makes at most `max_tries` calls of `curl_easy_perform`, whatever the server answers and whatever
-- fails. The redirects that libcurl follows within one of them are not counted.
pub get_with_retries-Within :
    (libs : Libraries) (policy : NetworkCachePolicy) (indeterminate : ℤ) (req : Request)
    (p : RetryPolicy) (w : World)
    → length (get_with_retries libs policy indeterminate req p w).0.performed
      ≤ length w.performed + p.max_tries
unfolding get_with_retries
get_with_retries-Within libs policy indeterminate req p w =
    retry_loop-Within libs policy indeterminate req p p.max_tries p.base_delay w
