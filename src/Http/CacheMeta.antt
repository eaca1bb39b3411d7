-- ===== src/Http/CacheMeta.antt =====
-- What `NetworkCache` keeps about a response: the text of its file, and whether it is fresh.
pub mod Freshness
pub mod RoundTrip
use quant_forge_quant_resear.Common.{
  ℕ, ◌+◌, List, [], ◌∷◌, ◌++◌, Bool, true, false, ◌&&◌, ◌||◌, Option, none, some, ◌==◌,
  if◌then◌else◌,
}
use quant_forge_quant_resear.Common.Int.{ℤ, pos, negsuc, ◌-ℤ◌, ltb_ℤ, leb_ℤ}
use quant_forge_quant_resear.StringUtils.{
  Bytes, codes, trim, ieq_prefix, split_comma_delimited_string, behind, before,
}
use quant_forge_quant_resear.StringUtils.Decimal.{strtol, at_end, print_long}
use quant_forge_quant_resear.Http.World.{equal}

pub record NetworkCachePolicy : Type 0 where
  pub enable_caching : Bool
  pub ttl_s : ℤ

pub record Meta : Type 0 where
  pub unix_ts_s : ℤ
  pub status : ℤ
  pub etag : Bytes
  pub last_modified : Bytes
  pub content_type : Bytes
  pub cache_control : Bytes
  pub retry_after : Bytes
  pub rate_limit_remaining : ℤ
  pub rate_limit_reset : ℤ

-- `Meta meta;` leaves `unix_ts_s_` without a value of its own, which is the argument.
abbrev pub fresh_meta : ℤ → Meta
fresh_meta indeterminate = record {
  unix_ts_s = indeterminate;
  status = pos 0;
  etag = [];
  last_modified = [];
  content_type = [];
  cache_control = [];
  retry_after = [];
  rate_limit_remaining = negsuc 0;
  rate_limit_reset = negsuc 0;
}

abbrev pub min_ℤ : ℤ → ℤ → ℤ
min_ℤ a b = if ltb_ℤ b a then b else a

abbrev pub max_ℤ : ℤ → ℤ → ℤ
max_ℤ a b = if ltb_ℤ a b then b else a

-- the value of a `max-age=` that is a number from 0 on
unfoldable pub max_age_of : Bytes → Option ℤ
unfolding behind
max_age_of pair = elim (behind b'=' pair) [
  | none ↦ none
  | some text ↦
      let (max_age, rest) = strtol (trim text) in
      if at_end rest && leb_ℤ (pos 0) max_age then some max_age else none
]

abbrev pub no_store_key : Bytes
no_store_key = codes "no-store"

abbrev pub no_cache_key : Bytes
no_cache_key = codes "no-cache"

abbrev pub max_age_key : Bytes
max_age_key = codes "max-age"

-- The loop over the directives; the first that decides ends it.
unfoldable pub fresh_loop : ℤ → ℤ → List Bytes → Bool
unfolding max_age_of
fresh_loop ttl_s age [] = leb_ℤ age ttl_s
fresh_loop ttl_s age (pair ∷ pairs) =
    let rest = fresh_loop ttl_s age pairs in
    let trimmed_pair = trim pair in
    if ieq_prefix trimmed_pair no_store_key
    then false
    else if ieq_prefix trimmed_pair no_cache_key
    then leb_ℤ age (pos 0)
    else if ieq_prefix trimmed_pair max_age_key
    then elim (max_age_of trimmed_pair) [
      | none ↦ rest
      | some max_age ↦ leb_ℤ age (min_ℤ ttl_s max_age)
    ]
    else rest

-- The seconds since the response was stored; a clock that went back counts as none.
abbrev pub age_of : ℤ → Meta → ℤ
age_of now m = max_ℤ (now -ℤ m.unix_ts_s) (pos 0)

unfoldable pub fresh_enough : NetworkCachePolicy → ℤ → Meta → Bool
unfolding fresh_loop
fresh_enough policy now m =
    fresh_loop policy.ttl_s (age_of now m) (split_comma_delimited_string m.cache_control)

abbrev pub newline : ℕ
newline = 10

-- one line of the file, with what follows it
abbrev pub meta_line : Bytes → Bytes → Bytes → Bytes
meta_line key value rest = key ++ (b':' ∷ b' ' ∷ (value ++ (newline ∷ rest)))

-- the text that `save_meta_atomic` writes
unfoldable pub meta_text : Meta → Bytes
meta_text m = meta_line (codes "status") (print_long m.status) (
    meta_line (codes "etag") m.etag (
      meta_line (codes "last_modified") m.last_modified (
        meta_line (codes "content_type") m.content_type (
          meta_line (codes "cache_control") m.cache_control (
            meta_line (codes "retry_after") m.retry_after (
              meta_line (codes "rate_limit_remaining") (print_long m.rate_limit_remaining) (
                meta_line (codes "rate_limit_reset") (print_long m.rate_limit_reset)
                  (meta_line (codes "unix_ts_s") (print_long m.unix_ts_s) []))))))))

-- `as_long` and `as_i64`; a `long` and a `long long` have 64 bits both
abbrev pub as_long : Bytes → ℤ → ℤ
as_long s def = let (v, rest) = strtol s in if at_end rest then v else def

-- what a key and its value change; a key that is not known changes nothing
unfoldable pub store_value : Meta → Bytes → Bytes → Meta
unfolding equal
store_value out key val =
    if equal key (codes "status")
    then record out { status = as_long val (pos 0) }
    else if equal key (codes "etag")
    then record out { etag = val }
    else if equal key (codes "last_modified")
    then record out { last_modified = val }
    else if equal key (codes "content_type")
    then record out { content_type = val }
    else if equal key (codes "cache_control")
    then record out { cache_control = val }
    else if equal key (codes "retry_after")
    then record out { retry_after = val }
    else if equal key (codes "rate_limit_remaining")
    then record out { rate_limit_remaining = as_long val (negsuc 0) }
    else if equal key (codes "rate_limit_reset")
    then record out { rate_limit_reset = as_long val (negsuc 0) }
    else if equal key (codes "unix_ts_s")
    then record out { unix_ts_s = as_long val (pos 0) }
    else out

-- One line; without a colon it is passed over.
unfoldable pub load_line : Meta → Bytes → Meta
load_line out line = elim (behind b':' line) [
  | none ↦ out
  | some text ↦ store_value out (trim (before b':' line)) (trim text)
]

-- At the end of the file a line that has no byte is not one.
unfoldable pub load_last : Meta → Bytes → Meta
load_last out [] = out
load_last out (c ∷ line) = load_line out (c ∷ line)

-- The loop over `std::getline`, with the bytes of the line that it reads.
unfoldable pub load_from : Meta → Bytes → Bytes → Meta
load_from out line [] = load_last out line
load_from out line (c ∷ s) =
    let further = load_from out (line ++ c ∷ []) s in
    let next = load_from (load_line out line) [] s in if c == newline then next else further

unfoldable pub load_meta : Meta → Bytes → Meta
load_meta out text = load_from out [] text
