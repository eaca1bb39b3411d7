-- ===== src/Tests/Network.antt =====
-- A network and a file system on which the theorems of http are tried.
use quant_forge_quant_resear.Common.{
  ℕ, List, [], ◌∷◌, true, false, none, some, ◌≡◌, refl, arith, length, ◌≤◌, ◌+◌,
}
use quant_forge_quant_resear.Common.Int.{ℤ, pos, negsuc, leb_ℤ, ◌≤ℤ◌}
use quant_forge_quant_resear.Common.Int
use quant_forge_quant_resear.StringUtils
use quant_forge_quant_resear.StringUtils.Decimal
use quant_forge_quant_resear.Http.World
use quant_forge_quant_resear.Http.Headers
use quant_forge_quant_resear.Http.Cache
use quant_forge_quant_resear.Http.CacheMeta
use quant_forge_quant_resear.StringUtils.{Bytes, All, codes, trim, split_comma_delimited_string}
use quant_forge_quant_resear.StringUtils.Split.{IsToken, comma_separated, split-comma_separated}
use quant_forge_quant_resear.Http.Action.{Outcome, done}
use quant_forge_quant_resear.Http.Model.{Request, Response, empty_response}
use quant_forge_quant_resear.Http.World.{Files, World, Scratch, Answer, Libraries, now}
use quant_forge_quant_resear.Http.CacheMeta.{NetworkCachePolicy, Meta, age_of, min_ℤ, fresh_enough}
use quant_forge_quant_resear.Http.CacheMeta.RoundTrip.{IsStorable}
use quant_forge_quant_resear.Http.CacheMeta.Freshness.{
  IsPassedOver, max_age_directive, fresh_enough-max_age,
}
use quant_forge_quant_resear.Http.Cache.{write_atomic, probe, meta_of, cache_response}
use quant_forge_quant_resear.Http.Cache.Atomic.{IsAtomic, write_atomic-IsAtomic}
use quant_forge_quant_resear.Http.Cache.Served.{IsWorking, hit_of, probe-cache_response}
use quant_forge_quant_resear.Http.Client.{RetryPolicy, get, get_with_retries}
use quant_forge_quant_resear.Http.Client.Attempts.{get_with_retries-Within}
use quant_forge_quant_resear.Http.Client.Revalidated.{get-cache_response}
use quant_forge_quant_resear.Http.Provider.{
  AggregateBarsArgs, StockDataProvider, build_custom_aggregate_bars, custom_aggregate_bars,
  IsServed, custom_aggregate_bars-IsServed,
}

-- Every request is answered after 200 ms with this status and these header lines.
abbrev answering : ℕ → List Bytes → Libraries
answering status lines = record {
  hash = length;
  opens = λ p. true;
  writes = λ p bytes. true;
  torn = λ p bytes. [];
  rename_error = λ from to. none;
  request_error = λ req. none;
  prepare_error = none;
  perform = λ before req. record {
    lines = lines;
    body = codes "[]";
    error = none;
    code = pos status;
    effective = some req.url;
    took_ms = 200;
  };
  moved_from = λ s. [];
  random = λ bound before. bound;
}

abbrev blank_scratch : Scratch
blank_scratch = record {
  content_length = negsuc 0;
  rl_remaining = negsuc 0;
  rl_reset = negsuc 0;
  etag = [];
  last_modified = [];
  retry_after = [];
  content_type = [];
  cache_control = [];
  response_headers = [];
}

abbrev at_noon : World
at_noon = record {
  files = λ path. none;
  clock_ms = 1700000000500;
  scratch = blank_scratch;
  performed = [];
  slept_ms = [];
}

abbrev cached : NetworkCachePolicy
cached = record { enable_caching = true; ttl_s = pos 86400 }

abbrev uncached : NetworkCachePolicy
uncached = record { enable_caching = false; ttl_s = pos 86400 }

abbrev defaults : RetryPolicy
defaults = record { max_tries = 3; base_delay = 300; max_delay = 1500 }

abbrev quotes : Request
quotes = record {
  url = codes "https://api/quotes";
  headers = codes "Accept: application/json" ∷ [];
}

abbrev unavailable : Response
unavailable = record empty_response {
  status = pos 503;
  body = codes "try later";
  effective_url = codes "https://eu.api/quotes";
  content_type = codes "text/plain";
}

-- what the tests compute, with all that it unfolds
unfoldable texts : Bytes → List Bytes × Bytes × Bytes
unfolding split_comma_delimited_string trim Decimal.strtol Decimal.print_long Decimal.print_nat
    Decimal.digits Decimal.scan StringUtils.erase_front StringUtils.erase_back StringUtils.is_space
    StringUtils.is_blank StringUtils.ieq_prefix StringUtils.append_to_path
texts s = (split_comma_delimited_string s, trim s, Decimal.print_long (pos (length s)))

unfoldable answered : Libraries → NetworkCachePolicy → World × Outcome Response
unfolding texts get_with_retries StringUtils.behind StringUtils.before CacheMeta.meta_text
    CacheMeta.load_meta CacheMeta.store_value CacheMeta.load_line CacheMeta.load_last
    CacheMeta.load_from Cache.create_base_path Cache.meta_of Int.◌-ℤ◌ World.equal World.written
    Headers.is_line_blank
answered libs policy = get_with_retries libs policy (pos 0) quotes defaults at_noon

-- A 503 is stored like any other response, so the second and third attempts are answered from the file.
one_request :
    (length (answered (answering 503 []) cached).0.performed ≡ 1)
    × (length (answered (answering 503 []) uncached).0.performed ≡ 3)
unfolding answered
one_request = (refl, refl)

kept_IsToken : IsToken (codes "no-transform")
unfolding texts
kept_IsToken = record { not_empty = λ e. cc; no_comma = omega arith; starts = refl; ends = refl }

minute_IsToken : IsToken (max_age_directive 60)
unfolding texts
minute_IsToken = record { not_empty = λ e. cc; no_comma = omega arith; starts = refl; ends = refl }

split-comma_separated_example :
    split_comma_delimited_string
      (comma_separated (codes "no-transform" ∷ max_age_directive 60 ∷ []))
    ≡ codes "no-transform" ∷ max_age_directive 60 ∷ []
split-comma_separated_example =
    split-comma_separated (codes "no-transform" ∷ max_age_directive 60 ∷ [])
      (kept_IsToken, (minute_IsToken, tt))

unavailable-IsStorable : IsStorable (meta_of unavailable (now at_noon))
unfolding meta_of trim
unavailable-IsStorable = record {
  longs = (omega arith, omega arith, omega arith, omega arith);
  etag = record { one_line = tt; trimmed = refl };
  last_modified = record { one_line = tt; trimmed = refl };
  content_type = record { one_line = omega arith; trimmed = refl };
  cache_control = record { one_line = tt; trimmed = refl };
  retry_after = record { one_line = tt; trimmed = refl };
}

abbrev minute : Meta
minute = record (meta_of unavailable (now at_noon)) {
  cache_control = comma_separated (codes "no-transform" ∷ max_age_directive 60 ∷ []);
}

no_transform_IsPassedOver : IsPassedOver (codes "no-transform")
unfolding texts
no_transform_IsPassedOver = record { not_no_store = refl; not_no_cache = refl; not_max_age = refl }

fresh_enough-max_age_example :
    fresh_enough cached (pos 1700000030) minute
    ≡ leb_ℤ (age_of (pos 1700000030) minute) (min_ℤ (pos 86400) (pos 60))
fresh_enough-max_age_example =
    fresh_enough-max_age cached (pos 1700000030) minute (codes "no-transform" ∷ []) [] 60
      (omega arith) ((kept_IsToken, (minute_IsToken, tt)), refl) (no_transform_IsPassedOver, tt)

-- a disk on which the temporary file cannot be moved
abbrev stuck : Libraries
stuck = record (answering 200 []) { rename_error = λ from to. some (codes "rename") }

write_atomic-IsAtomic_example :
    IsAtomic at_noon.files
      (codes "f")
      (codes "new")
      (write_atomic stuck (codes "f") (codes "new") at_noon)
write_atomic-IsAtomic_example = write_atomic-IsAtomic stuck (codes "f") (codes "new") at_noon

answering-IsWorking : IsWorking (answering 503 [])
answering-IsWorking = record {
  can_open = λ p. refl;
  can_write = λ p bytes. refl;
  can_rename = λ from to. refl;
}

abbrev stored_at_noon : World
stored_at_noon = (cache_response (answering 503 []) cached quotes unavailable at_noon).0

probe-cache_response_example :
    ((cache_response (answering 503 []) cached quotes unavailable at_noon).1 ≡ done tt)
    × (probe (answering 503 []) cached (pos 0) quotes stored_at_noon.files
        ≡ some (hit_of (answering 503 []) quotes unavailable (now at_noon)))
probe-cache_response_example =
    probe-cache_response (answering 503 []) cached (pos 0) quotes unavailable at_noon
      answering-IsWorking refl unavailable-IsStorable

abbrev an_hour_later : World
an_hour_later = record stored_at_noon { clock_ms = 1700003600500 }

still_fresh : fresh_enough cached (now an_hour_later) (meta_of unavailable (now at_noon)) ≡ true
unfolding answered
still_fresh = refl

get-cache_response_example :
    get (answering 503 []) cached (pos 0) quotes an_hour_later
    ≡ (an_hour_later, done (record unavailable { effective_url = quotes.url }))
get-cache_response_example =
    get-cache_response (answering 503 []) cached (pos 0) quotes unavailable at_noon an_hour_later
      answering-IsWorking refl unavailable-IsStorable refl still_fresh

get_with_retries-Within_example :
    length
      (get_with_retries (answering 503 []) uncached (pos 0) quotes defaults at_noon).0.performed
    ≤ 0 + 3
get_with_retries-Within_example =
    get_with_retries-Within (answering 503 []) uncached (pos 0) quotes defaults at_noon

abbrev args : AggregateBarsArgs
args = record {
  symbol = codes "AAPL";
  timespan_unit = codes "day";
  timespan = pos 1;
  from = codes "2024-01-01";
  to = codes "2024-02-01";
}

-- a provider whose bars are the body as it came
abbrev polygon : StockDataProvider Bytes
polygon = record {
  build_custom_aggregate_bars = build_custom_aggregate_bars (codes "key");
  parse_custom_aggregate_bars = λ resp. done resp.body;
}

custom_aggregate_bars-IsServed_example :
    IsServed polygon
      (get_with_retries
        (answering 503 [])
        uncached
        (pos 0)
        (build_custom_aggregate_bars (codes "key") args)
        defaults
        at_noon).1
      (custom_aggregate_bars polygon (answering 503 []) uncached (pos 0) defaults args at_noon).1
custom_aggregate_bars-IsServed_example =
    custom_aggregate_bars-IsServed polygon (answering 503 []) uncached (pos 0) defaults args at_noon
