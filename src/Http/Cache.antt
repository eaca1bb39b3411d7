-- ===== src/Http/Cache.antt =====
-- `NetworkCache` (http/cache/network_cache.cpp) on the files: one for the body of a response and one for
-- what is known about it, under a name made from the hash of the url. The directory is there.
pub mod Atomic
pub mod Served
use quant_forge_quant_resear.Common.{
  ℕ, List, [], ◌∷◌, ◌++◌, Bool, true, false, Option, none, some, if◌then◌else◌,
}
use quant_forge_quant_resear.Common.Int.{ℤ}
use quant_forge_quant_resear.StringUtils.{Bytes, codes, append_to_path}
use quant_forge_quant_resear.StringUtils.Decimal.{print_nat}
use quant_forge_quant_resear.Http.Action.{
  Failure, runtime_error, Outcome, done, thrown, Action, pure, ◌>>◌,
}
use quant_forge_quant_resear.Http.Model.{Request, Response}
use quant_forge_quant_resear.Http.World.{Files, written, World, Libraries, now}
use quant_forge_quant_resear.Http.CacheMeta.{
  NetworkCachePolicy, Meta, fresh_meta, meta_text, load_meta,
}

pub record Hit : Type 0 where
  pub content : Bytes  -- what `in_` reads
  pub url : Bytes
  pub base_path : Bytes
  pub meta : Meta

abbrev pub with_files : World → Files → World
with_files w files = record w { files = files }

-- The hash has at most twenty digits.
unfoldable pub create_base_path : Libraries → Request → Bytes
create_base_path libs req = codes "cache/http/" ++ print_nat (libs.hash req.url)

abbrev pub body_path : Libraries → Request → Bytes
body_path libs req = append_to_path (create_base_path libs req) (codes ".body")

abbrev pub meta_path : Bytes → Bytes
meta_path base_path = append_to_path base_path (codes ".meta")

abbrev pub temporary : Bytes → Bytes
temporary p = append_to_path p (codes ".tmp")

unfoldable pub write_atomic : Libraries → Bytes → Bytes → Action World Unit
write_atomic libs p bytes w =
    let tmp = temporary p in
    let complete = written tmp (some bytes) w.files in
    if libs.opens tmp
    then (if libs.writes tmp bytes
        then elim (libs.rename_error tmp p) [
          | none ↦ (with_files w (written tmp none (written p (some bytes) complete)), done tt)
          | some message ↦ (with_files w complete, thrown (runtime_error message))
        ]
        else (
          with_files w (written tmp (some (libs.torn tmp bytes)) w.files),
          thrown (runtime_error (codes "write failed: " ++ tmp)),
        ))
    else (w, thrown (runtime_error (codes "open failed: " ++ tmp)))

unfoldable pub save_meta_atomic : Libraries → Bytes → Meta → Action World Unit
unfolding write_atomic
save_meta_atomic libs p m = write_atomic libs p (meta_text m)

-- `indeterminate` is what the new `Meta` has in the member that nothing sets.
unfoldable pub probe : Libraries → NetworkCachePolicy → ℤ → Request → Files → Option Hit
probe libs policy indeterminate req files =
    if policy.enable_caching
    then elim (files (meta_path (create_base_path libs req))) [
      | none ↦ none
      | some text ↦ elim (files (body_path libs req)) [
        | none ↦ none
        | some content ↦ some (record {
          content = content;
          url = req.url;
          base_path = create_base_path libs req;
          meta = load_meta (fresh_meta indeterminate) text;
        })
      ]
    ]
    else none

unfoldable pub get_cached_response : Hit → Response
get_cached_response hit = record {
  rate_limit_remaining = hit.meta.rate_limit_remaining;
  rate_limit_reset = hit.meta.rate_limit_reset;
  status = hit.meta.status;
  body = hit.content;
  effective_url = hit.url;
  etag = hit.meta.etag;
  last_modified = hit.meta.last_modified;
  retry_after = hit.meta.retry_after;
  cache_control = hit.meta.cache_control;
  content_type = hit.meta.content_type;
}

unfoldable pub meta_of : Response → ℤ → Meta
meta_of resp unix_ts_s = record {
  unix_ts_s = unix_ts_s;
  status = resp.status;
  etag = resp.etag;
  last_modified = resp.last_modified;
  content_type = resp.content_type;
  cache_control = resp.cache_control;
  retry_after = resp.retry_after;
  rate_limit_remaining = resp.rate_limit_remaining;
  rate_limit_reset = resp.rate_limit_reset;
}

-- The body goes first, then the rest with the time.
unfoldable pub cache_response :
    Libraries → NetworkCachePolicy → Request → Response → Action World Unit
unfolding write_atomic save_meta_atomic
cache_response libs policy req resp w =
    if policy.enable_caching
    then (do
      write_atomic libs (body_path libs req) resp.body
      λ after.
          save_meta_atomic libs (meta_path (create_base_path libs req)) (meta_of resp (now after))
            after)
        w
    else (w, done tt)

-- The meta is the caller's, so the call leaves it with the new time.
unfoldable pub refresh_meta_timestamp : Libraries → Bytes → Meta → Action World Meta
unfolding save_meta_atomic
refresh_meta_timestamp libs base_path meta w =
    let refreshed = record meta { unix_ts_s = now w } in
    (do save_meta_atomic libs (meta_path base_path) refreshed; pure refreshed) w
