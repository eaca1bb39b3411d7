-- ===== src/Http/Cache/Served.antt =====
-- A response that was stored is served again.
use mathlib.Core.List.{append_assoc}
use quant_forge_quant_resear.Common.{
  ◌++◌, true, false, none, some, ◌≡◌, ◌≢◌, refl, ap, sym, ◌∙◌, if◌then◌else◌,
}
use quant_forge_quant_resear.Common.Int.{ℤ}
use quant_forge_quant_resear.StringUtils.{Bytes, codes, append_to_path}
use quant_forge_quant_resear.Http.Action.{done, thrown, continue, runtime_error}
use quant_forge_quant_resear.Http.Model.{Request, Response}
use quant_forge_quant_resear.Http.World.{equal, Files, written, World, Libraries, now}
use quant_forge_quant_resear.Http.CacheMeta.{NetworkCachePolicy, fresh_meta, meta_text, load_meta}
use quant_forge_quant_resear.Http.CacheMeta.RoundTrip.{IsStorable, load_meta-meta_text}
use quant_forge_quant_resear.Http.Cache.{
  Hit, with_files, create_base_path, body_path, meta_path, temporary, write_atomic,
  save_meta_atomic, probe, get_cached_response, meta_of, cache_response,
}
use quant_forge_quant_resear.Http.Cache.Atomic.{
  append_cancel, equal-false, written-same, written-other, temporary-ne,
}

-- A file system on which nothing fails.
pub record IsWorking (libs : Libraries) : Type 0 where
  pub can_open : (p : Bytes) → libs.opens p ≡ true
  pub can_write : (p bytes : Bytes) → libs.writes p bytes ≡ true
  pub can_rename : (from to : Bytes) → libs.rename_error from to ≡ none

abbrev pub replaced : Bytes → Bytes → Files → Files
replaced p bytes files =
    written (temporary p) none (written p (some bytes) (written (temporary p) (some bytes) files))

pub write_atomic-IsWorking :
    (libs : Libraries) (p bytes : Bytes) (w : World)
    → IsWorking libs
    → write_atomic libs p bytes w ≡ (with_files w (replaced p bytes w.files), done tt)
unfolding write_atomic
write_atomic-IsWorking libs p bytes w h =
    rw (h.can_open (temporary p), h.can_write (temporary p) bytes, if◌then◌else◌)
      (ap
        (λ o. elim o [
          | none ↦ (with_files w (replaced p bytes w.files), done tt)
          | some message ↦ (
            with_files w (written (temporary p) (some bytes) w.files),
            thrown (runtime_error message),
          )
        ])
        (h.can_rename (temporary p) p))

replaced-same : (p bytes : Bytes) (files : Files) → replaced p bytes files p ≡ some bytes
replaced-same p bytes files =
    written-other (temporary p) p none _ (temporary-ne p) ∙ written-same p (some bytes) _

replaced-other :
    (p q bytes : Bytes) (files : Files)
    → p ≢ q
    → temporary p ≢ q
    → replaced p bytes files q ≡ files q
replaced-other p q bytes files ne ne_tmp =
    written-other (temporary p) q none _ ne_tmp
    ∙ written-other p q (some bytes) _ ne
    ∙ written-other (temporary p) q (some bytes) files ne_tmp

suffixes_apart : (base s t : Bytes) → equal s t ≡ false → base ++ s ≢ base ++ t
suffixes_apart base s t h e = equal-false s t h (append_cancel base s t e)

meta-ne-body :
    (libs : Libraries) (req : Request) → meta_path (create_base_path libs req) ≢ body_path libs req
unfolding append_to_path
meta-ne-body libs req =
    suffixes_apart (create_base_path libs req) (codes ".meta") (codes ".body")
      (unfold equal in refl)

meta_tmp-ne-body :
    (libs : Libraries) (req : Request)
    → temporary (meta_path (create_base_path libs req)) ≢ body_path libs req
unfolding append_to_path
meta_tmp-ne-body libs req e =
    let base = create_base_path libs req in
    suffixes_apart base (codes ".meta.tmp") (codes ".body") (unfold equal in refl)
      (sym (append_assoc base (codes ".meta") (codes ".tmp")) ∙ e)

-- what the two writes make of the files
abbrev pub stored : Libraries → Request → Response → ℤ → Files → Files
stored libs req resp ts files =
    replaced (meta_path (create_base_path libs req)) (meta_text (meta_of resp ts))
      (replaced (body_path libs req) resp.body files)

pub cache_response-IsWorking :
    (libs : Libraries) (policy : NetworkCachePolicy) (req : Request) (resp : Response) (w : World)
    → IsWorking libs
    → policy.enable_caching ≡ true
    → cache_response libs policy req resp w
      ≡ (with_files w (stored libs req resp (now w) w.files), done tt)
unfolding cache_response save_meta_atomic
cache_response-IsWorking libs policy req resp w h on =
    rw (on, if◌then◌else◌)
      (ap
          (λ r. continue r.0 r.1 (λ u after.
            write_atomic libs (meta_path (create_base_path libs req))
              (meta_text (meta_of resp (now after))) after))
          (write_atomic-IsWorking libs (body_path libs req) resp.body w h)
        ∙ write_atomic-IsWorking libs _ _
            (with_files w (replaced (body_path libs req) resp.body w.files)) h)

abbrev pub hit_of : Libraries → Request → Response → ℤ → Hit
hit_of libs req resp ts = record {
  content = resp.body;
  url = req.url;
  base_path = create_base_path libs req;
  meta = meta_of resp ts;
}

probe-files :
    (libs : Libraries) (policy : NetworkCachePolicy) (indeterminate : ℤ) (req : Request)
    (files : Files) (text content : Bytes)
    → policy.enable_caching ≡ true
    → files (meta_path (create_base_path libs req)) ≡ some text
    → files (body_path libs req) ≡ some content
    → probe libs policy indeterminate req files
      ≡ some (record {
        content = content;
        url = req.url;
        base_path = create_base_path libs req;
        meta = load_meta (fresh_meta indeterminate) text;
      })
unfolding probe
probe-files libs policy indeterminate req files text content on in_meta in_body =
    rw (on, if◌then◌else◌)
      (ap
          (λ o. elim o [
            | none ↦ none
            | some t ↦ elim (files (body_path libs req)) [ none ↦ none | some s ↦ some (found t s) ]
          ])
          in_meta
        ∙ ap (λ o. elim o [ none ↦ none | some s ↦ some (found text s) ]) in_body)
  where
    found : Bytes → Bytes → Hit
    found t s = record {
      content = s;
      url = req.url;
      base_path = create_base_path libs req;
      meta = load_meta (fresh_meta indeterminate) t;
    }

-- On a working file system `cache_response` returns, and `probe` finds for the same request the body
-- and everything else that was stored, with the time of storing, whatever the file held before.
pub probe-cache_response :
    (libs : Libraries) (policy : NetworkCachePolicy) (indeterminate : ℤ) (req : Request)
    (resp : Response) (w : World)
    → IsWorking libs
    → policy.enable_caching ≡ true
    → IsStorable (meta_of resp (now w))
    → ((cache_response libs policy req resp w).1 ≡ done tt)
      × (probe libs policy indeterminate req (cache_response libs policy req resp w).0.files
          ≡ some (hit_of libs req resp (now w)))
probe-cache_response libs policy indeterminate req resp w h on storable =
    let ran = cache_response-IsWorking libs policy req resp w h on in
    let body = body_path libs req in
    let meta = meta_path (create_base_path libs req) in
    let with_body = replaced body resp.body w.files in
    (
      ap (λ r. r.1) ran,
      ap (λ r. probe libs policy indeterminate req r.0.files) ran
          ∙ probe-files libs policy indeterminate req (stored libs req resp (now w) w.files) _
              resp.body on (replaced-same meta _ with_body)
              (replaced-other meta body _ with_body (meta-ne-body libs req)
                  (meta_tmp-ne-body libs req)
                ∙ replaced-same body resp.body w.files)
          ∙ ap
              (λ m. some (record {
                content = resp.body;
                url = req.url;
                base_path = create_base_path libs req;
                meta = m;
              }))
              (load_meta-meta_text (fresh_meta indeterminate) (meta_of resp (now w)) storable),
    )

-- The response that such a hit is turned into is the stored one, under the url of the request.
pub get_cached_response-hit_of :
    (libs : Libraries) (req : Request) (resp : Response) (ts : ℤ)
    → get_cached_response (hit_of libs req resp ts) ≡ record resp { effective_url = req.url }
unfolding get_cached_response meta_of
get_cached_response-hit_of libs req resp ts = refl
