-- ===== src/Http/Client/Revalidated.antt =====
-- When a stored response is served in place of a request, and how a 304 renews it.
use quant_forge_quant_resear.Common.{true, none, some, ◌≡◌, ap, ◌∙◌, if◌then◌else◌}
use quant_forge_quant_resear.Common.Int.{ℤ}
use quant_forge_quant_resear.Http.Action.{done}
use quant_forge_quant_resear.Http.Model.{Request, Response}
use quant_forge_quant_resear.Http.World.{World, Libraries, now}
use quant_forge_quant_resear.Http.CacheMeta.{NetworkCachePolicy, fresh_enough}
use quant_forge_quant_resear.Http.CacheMeta.RoundTrip.{IsStorable}
use quant_forge_quant_resear.Http.Cache.{Hit, probe, get_cached_response, meta_of, cache_response}
use quant_forge_quant_resear.Http.Cache.Served.{
  IsWorking, hit_of, probe-cache_response, get_cached_response-hit_of,
}
use quant_forge_quant_resear.Http.Client.{fetch, fresh_hit, get}

-- A fresh hit is served with no request and nothing changes.
pub get-fresh :
    (libs : Libraries) (policy : NetworkCachePolicy) (indeterminate : ℤ) (req : Request) (w : World)
    (hit : Hit)
    → probe libs policy indeterminate req w.files ≡ some hit
    → fresh_enough policy (now w) hit.meta ≡ true
    → get libs policy indeterminate req w ≡ (w, done (get_cached_response hit))
unfolding get fresh_hit
get-fresh libs policy indeterminate req w hit found fresh =
    ap
      (λ o. elim (fresh_hit policy (now w) o) [
        | none ↦ fetch libs policy req o w
        | some h ↦ (w, done (get_cached_response h))
      ])
      found
    ∙ ap
        (λ b. elim (if b then some hit else none) [
          | none ↦ fetch libs policy req (some hit) w
          | some h ↦ (w, done (get_cached_response h))
        ])
        fresh

-- With caching on, once a response is stored on a working file system, whatever its status, and its header
-- values and numbers are such that the meta file gives them back, the same request is answered with it and
-- nothing is sent, at every later time at which what was stored is fresh and the files are the same.
pub get-cache_response :
    (libs : Libraries) (policy : NetworkCachePolicy) (indeterminate : ℤ) (req : Request)
    (resp : Response) (w later : World)
    → IsWorking libs
    → policy.enable_caching ≡ true
    → IsStorable (meta_of resp (now w))
    → later.files ≡ (cache_response libs policy req resp w).0.files
    → fresh_enough policy (now later) (meta_of resp (now w)) ≡ true
    → get libs policy indeterminate req later
      ≡ (later, done (record resp { effective_url = req.url }))
get-cache_response libs policy indeterminate req resp w later works on storable same fresh =
    get-fresh libs policy indeterminate req later (hit_of libs req resp (now w))
      (ap (probe libs policy indeterminate req) same
        ∙ (probe-cache_response libs policy indeterminate req resp w works on storable).1)
      fresh
    ∙ ap (λ r. (later, done r)) (get_cached_response-hit_of libs req resp (now w))
