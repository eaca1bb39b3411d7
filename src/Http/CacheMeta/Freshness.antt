-- ===== src/Http/CacheMeta/Freshness.antt =====
-- When a stored response counts as fresh.
use quant_forge_quant_resear.Common.{
  ℕ, List, [], ◌∷◌, ◌++◌, true, false, ◌&&◌, none, some, ◌≡◌, refl, ap, ◌∙◌, arith, if◌then◌else◌,
  ◌<◌,
}
use quant_forge_quant_resear.Common.Int.{ℤ, pos, leb_ℤ, ◌≤ℤ◌}
use quant_forge_quant_resear.StringUtils.{
  Bytes, All, trim, is_space, ieq_prefix, split_comma_delimited_string,
}
use quant_forge_quant_resear.StringUtils.Split.{
  IsToken, All-append, comma_separated, split-comma_separated,
}
use quant_forge_quant_resear.StringUtils.Decimal.{print_long, long_end, strtol, at_end}
use quant_forge_quant_resear.StringUtils.Decimal.RoundTrip.{
  no_spaces, trim_of_no_spaces, trim-print_long, strtol-print_long,
}
use quant_forge_quant_resear.Http.CacheMeta.{
  Meta, NetworkCachePolicy, max_age_of, min_ℤ, no_store_key, no_cache_key, max_age_key, fresh_loop,
  age_of, fresh_enough,
}

fresh_loop-ttl :
    (ttl_s age : ℤ) (pairs : List Bytes)
    → pos 0 ≤ℤ ttl_s
    → fresh_loop ttl_s age pairs ≡ true
    → age ≤ℤ ttl_s
unfolding fresh_loop
fresh_loop-ttl ttl_s age [] h e = ground arith
fresh_loop-ttl ttl_s age (pair ∷ pairs) h e = ground (arith, fresh_loop-ttl ttl_s age pairs h)

-- Nothing older than the time to live of the policy is fresh, whatever its header says.
fresh_enough-ttl :
    (policy : NetworkCachePolicy) (now : ℤ) (m : Meta)
    → pos 0 ≤ℤ policy.ttl_s
    → fresh_enough policy now m ≡ true
    → age_of now m ≤ℤ policy.ttl_s
unfolding fresh_enough
fresh_enough-ttl policy now m h e = fresh_loop-ttl policy.ttl_s (age_of now m) _ h e

-- A directive that the loop passes over.
pub record IsPassedOver (pair : Bytes) : Type 0 where
  pub not_no_store : ieq_prefix (trim pair) no_store_key ≡ false
  pub not_no_cache : ieq_prefix (trim pair) no_cache_key ≡ false
  pub not_max_age : ieq_prefix (trim pair) max_age_key ≡ false

fresh_loop-append :
    (ttl_s age : ℤ) (pairs rest : List Bytes)
    → All IsPassedOver pairs
    → fresh_loop ttl_s age (pairs ++ rest) ≡ fresh_loop ttl_s age rest
unfolding fresh_loop
fresh_loop-append ttl_s age [] rest h = refl
fresh_loop-append ttl_s age (pair ∷ pairs) rest (p, h) =
    rw (p.not_no_store, p.not_no_cache, p.not_max_age, if◌then◌else◌)
      (fresh_loop-append ttl_s age pairs rest h)

-- The header has these directives, a comma and a blank between each two.
abbrev pub Directives : Meta → List Bytes → Type 0
Directives m pairs = All IsToken pairs × (m.cache_control ≡ comma_separated pairs)

fresh_enough-at :
    (policy : NetworkCachePolicy) (now : ℤ) (m : Meta) (pairs : List Bytes) (pair : Bytes)
    (more : List Bytes)
    → Directives m (pairs ++ pair ∷ more)
    → All IsPassedOver pairs
    → fresh_enough policy now m ≡ fresh_loop policy.ttl_s (age_of now m) (pair ∷ more)
unfolding fresh_enough
fresh_enough-at policy now m pairs pair more (tokens, e) over =
    ap (λ s. fresh_loop policy.ttl_s (age_of now m) (split_comma_delimited_string s)) e
    ∙ ap (fresh_loop policy.ttl_s (age_of now m))
        (split-comma_separated (pairs ++ pair ∷ more) tokens)
    ∙ fresh_loop-append policy.ttl_s (age_of now m) pairs (pair ∷ more) over

-- A response whose directives have `no-store` behind passed-over ones is not fresh, whatever follows.
fresh_enough-no_store :
    (policy : NetworkCachePolicy) (now : ℤ) (m : Meta) (pairs more : List Bytes)
    → Directives m (pairs ++ no_store_key ∷ more)
    → All IsPassedOver pairs
    → fresh_enough policy now m ≡ false
unfolding fresh_loop
fresh_enough-no_store policy now m pairs more d over =
    fresh_enough-at policy now m pairs no_store_key more d over ∙ (unfold trim ieq_prefix in refl)

abbrev pub max_age_directive : ℕ → Bytes
max_age_directive n = max_age_key ++ (b'=' ∷ print_long (pos n))

max_age_directive-trim : (n : ℕ) → n < long_end → trim (max_age_directive n) ≡ max_age_directive n
max_age_directive-trim n h = trim_of_no_spaces (max_age_directive n) (
    All-append _ max_age_key (b'=' ∷ print_long (pos n)) (unfold is_space in ground arith)
      (unfold is_space in refl, no_spaces (pos n) h))

max_age_of-max_age_directive :
    (n : ℕ) → n < long_end → max_age_of (max_age_directive n) ≡ some (pos n)
unfolding max_age_of
max_age_of-max_age_directive n h =
    ap (λ t. if at_end (strtol t).1 && leb_ℤ (pos 0) (strtol t).0 then some (strtol t).0 else none)
      (trim-print_long (pos n) h)
    ∙ ap (λ r. if at_end r.1 && leb_ℤ (pos 0) r.0 then some r.0 else none)
        (strtol-print_long (pos n) h)
    ∙ ground arith

fresh_loop-max_age :
    (ttl_s age max_age : ℤ) (pair : Bytes) (more : List Bytes)
    → ieq_prefix (trim pair) no_store_key ≡ false
    → ieq_prefix (trim pair) no_cache_key ≡ false
    → ieq_prefix (trim pair) max_age_key ≡ true
    → max_age_of (trim pair) ≡ some max_age
    → fresh_loop ttl_s age (pair ∷ more) ≡ leb_ℤ age (min_ℤ ttl_s max_age)
unfolding fresh_loop
fresh_loop-max_age ttl_s age max_age pair more not_store not_cache is_max_age value =
    rw (not_store, not_cache, is_max_age, if◌then◌else◌)
      (ap
        (λ o. elim o [
          | none ↦ fresh_loop ttl_s age more
          | some limit ↦ leb_ℤ age (min_ℤ ttl_s limit)
        ])
        value)

-- Where `max-age` with a number stands behind passed-over directives, the response is fresh exactly
-- when its age is within both that number and the time to live of the policy, whatever follows.
pub fresh_enough-max_age :
    (policy : NetworkCachePolicy) (now : ℤ) (m : Meta) (pairs more : List Bytes) (n : ℕ)
    → n < long_end
    → Directives m (pairs ++ max_age_directive n ∷ more)
    → All IsPassedOver pairs
    → fresh_enough policy now m ≡ leb_ℤ (age_of now m) (min_ℤ policy.ttl_s (pos n))
fresh_enough-max_age policy now m pairs more n h d over =
    fresh_enough-at policy now m pairs (max_age_directive n) more d over
    ∙ fresh_loop-max_age policy.ttl_s (age_of now m) (pos n) (max_age_directive n) more
        (prefixed no_store_key ∙ (unfold ieq_prefix in refl))
        (prefixed no_cache_key ∙ (unfold ieq_prefix in refl))
        (prefixed max_age_key ∙ (unfold ieq_prefix in refl))
        (ap max_age_of (max_age_directive-trim n h) ∙ max_age_of-max_age_directive n h)
  where
    prefixed :
        (key : Bytes)
        → ieq_prefix (trim (max_age_directive n)) key ≡ ieq_prefix (max_age_directive n) key
    prefixed key = ap (λ t. ieq_prefix t key) (max_age_directive-trim n h)
