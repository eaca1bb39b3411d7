-- ===== src/Http/World.antt =====
-- What the code of http works on: the files, the clock, the client's members and what went over the
-- network; and the libraries it calls, as parameters.
use quant_forge_quant_resear.Common.{
  ℕ, ◌/◌, List, [], ◌∷◌, Bool, true, false, ◌&&◌, Option, ◌==◌, if◌then◌else◌,
}
use quant_forge_quant_resear.Common.Int.{ℤ, pos}
use quant_forge_quant_resear.StringUtils.{Bytes}
use quant_forge_quant_resear.Http.Model.{Request}

-- `==` on `std::string`
unfoldable pub equal : Bytes → Bytes → Bool
equal [] [] = true
equal (x ∷ xs) (y ∷ ys) = x == y && equal xs ys
equal _ _ = false

-- A path and its content. A path that is not there cannot be opened for reading.
abbrev pub Files : Type 0
Files = Bytes → Option Bytes

unfoldable pub written : Bytes → Option Bytes → Files → Files
unfolding equal
written path content files other = if equal path other then content else files other

-- The members `last_…` of `CurlEasy` that `header_cb` fills.
pub record Scratch : Type 0 where
  pub content_length : ℤ
  pub rl_remaining : ℤ
  pub rl_reset : ℤ
  pub etag : Bytes
  pub last_modified : Bytes
  pub retry_after : Bytes
  pub content_type : Bytes
  pub cache_control : Bytes
  pub response_headers : List Bytes

pub record World : Type 0 where
  pub files : Files
  pub clock_ms : ℕ
  pub scratch : Scratch
  pub performed : List Request  -- the newest first
  pub slept_ms : List ℕ  -- the newest first

-- What libcurl delivers for one request: the header lines, each with its end of line, the body, and
-- an error or the status and the effective url.
pub record Answer : Type 0 where
  pub lines : List Bytes
  pub body : Bytes
  pub error : Option Bytes
  pub code : ℤ
  pub effective : Option Bytes
  pub took_ms : ℕ

-- The libraries: `std::hash`, the file system, libcurl and the random numbers.
pub record Libraries : Type 0 where
  pub hash : Bytes → ℕ
  pub opens : Bytes → Bool
  pub writes : Bytes → Bytes → Bool
  pub torn : Bytes → Bytes → Bytes  -- what a write that fails has put into the file
  pub rename_error : Bytes → Bytes → Option Bytes
  pub request_error : Request → Option Bytes  -- from `setopt` for the url or the headers
  pub prepare_error : Option Bytes  -- from `setopt` for the rest
  pub perform : List Request → Request → Answer  -- given the requests before
  pub moved_from : Bytes → Bytes  -- what `std::move` leaves in a string
  pub random : ℕ → List ℕ → ℕ  -- from 0 to the bound, given the sleeps before

-- `system_clock::now()` in seconds
abbrev pub now : World → ℤ
now w = pos (w.clock_ms / 1000)
