-- ===== src/Http/Model.antt =====
-- `Request` and `Response` (http/model/model.hpp). The method and the body of a request are not read.
use quant_forge_quant_resear.Common.{List, []}
use quant_forge_quant_resear.Common.Int.{ℤ, negsuc, pos}
use quant_forge_quant_resear.StringUtils.{Bytes}

pub record Request : Type 0 where
  pub url : Bytes
  pub headers : List Bytes

pub record Response : Type 0 where
  pub rate_limit_remaining : ℤ
  pub rate_limit_reset : ℤ
  pub status : ℤ
  pub body : Bytes
  pub effective_url : Bytes
  pub etag : Bytes
  pub last_modified : Bytes
  pub retry_after : Bytes
  pub cache_control : Bytes
  pub content_type : Bytes

-- `Response{}`
abbrev pub empty_response : Response
empty_response = record {
  rate_limit_remaining = negsuc 0;
  rate_limit_reset = negsuc 0;
  status = pos 0;
  body = [];
  effective_url = [];
  etag = [];
  last_modified = [];
  retry_after = [];
  cache_control = [];
  content_type = [];
}
