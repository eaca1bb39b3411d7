-- ===== src/Http/Headers.antt =====
-- `NetworkCache::extract_header_value` and `CurlEasy::header_cb`, which takes what the client keeps of
-- the header lines of an answer.
use quant_forge_quant_resear.Common.{
  ℕ, ◌+◌, ◌/◌, ◌%◌, List, [], ◌∷◌, ◌++◌, map, Bool, ◌||◌, Option, none, some, ◌≡◌, refl, ap, ◌∙◌,
  ◌==◌, arith, if◌then◌else◌,
}
use quant_forge_quant_resear.Common.Int.{ℤ}
use quant_forge_quant_resear.StringUtils.{Bytes, codes, is_blank, erase_front, erase_back}
use quant_forge_quant_resear.StringUtils.Trim.{
  StartsKept, EndsKept, erase_front-kept, erase_front-cons, erase_back-append,
}
use quant_forge_quant_resear.StringUtils.Decimal.{strtol}
use quant_forge_quant_resear.Http.World.{equal, Scratch}

-- `c | ASCII_LOWERCASE_BIT` on a byte
abbrev pub fold : ℕ → ℕ
fold c = if c / 32 % 2 == 1 then c else c + 32

-- the bytes behind the key
unfoldable pub behind_key : Bytes → Bytes → Option Bytes
behind_key buffer [] = some buffer
behind_key [] (k ∷ key) = none
behind_key (c ∷ buffer) (k ∷ key) =
    let rest = behind_key buffer key in if fold c == fold k then rest else none

-- the bytes that go at the end of a header line
unfoldable pub is_line_blank : ℕ → Bool
is_line_blank c = c == 13 || c == 10 || c == b' ' || c == 9

unfoldable pub extract_header_value : Bytes → Bytes → Option Bytes
unfolding behind_key
extract_header_value buffer key = elim (behind_key buffer key) [
  | none ↦ none
  | some value ↦ some (erase_back is_line_blank (erase_front is_blank value))
]

-- `end_ptr == tmp.c_str()` where no number stands at the start
unfoldable pub extract_header_long : Bytes → Bytes → Option ℤ
unfolding extract_header_value equal
extract_header_long buffer key = elim (extract_header_value buffer key) [
  | none ↦ none
  | some tmp ↦ if equal (strtol tmp).1 tmp then none else some (strtol tmp).0
]

abbrev pub or_kept {ℓ} : {A : Type ℓ} → Option A → A → A
or_kept none kept = kept
or_kept (some found) kept = found

unfoldable pub header_cb : Scratch → Bytes → Scratch
unfolding extract_header_value extract_header_long
header_cb self buffer = record {
  content_length =
      or_kept (extract_header_long buffer (codes "content-length:")) self.content_length;
  rl_remaining =
      or_kept (extract_header_long buffer (codes "x-ratelimit-remaining:")) self.rl_remaining;
  rl_reset = or_kept (extract_header_long buffer (codes "x-ratelimit-reset:")) self.rl_reset;
  etag = or_kept (extract_header_value buffer (codes "etag:")) self.etag;
  last_modified = or_kept (extract_header_value buffer (codes "last-modified:")) self.last_modified;
  retry_after = or_kept (extract_header_value buffer (codes "retry-after:")) self.retry_after;
  content_type = or_kept (extract_header_value buffer (codes "content-type:")) self.content_type;
  cache_control = or_kept (extract_header_value buffer (codes "cache-control:")) self.cache_control;
  response_headers = self.response_headers ++ buffer ∷ [];
}

-- libcurl calls `header_cb` for one line after another.
unfoldable pub received : Scratch → List Bytes → Scratch
unfolding header_cb
received self [] = self
received self (line ∷ lines) = received (header_cb self line) lines

cons_head : {c d : ℕ} {s t : Bytes} → c ∷ s ≡ d ∷ t → c ≡ d
cons_head e = cc

cons_tail : {c d : ℕ} {s t : Bytes} → c ∷ s ≡ d ∷ t → s ≡ t
cons_tail e = cc

behind_key-append :
    (name key rest : Bytes)
    → map fold name ≡ map fold key
    → behind_key (name ++ rest) key ≡ some rest
unfolding behind_key
behind_key-append [] [] rest e = refl
behind_key-append [] (k ∷ key) rest e = cc
behind_key-append (c ∷ name) [] rest e = cc
behind_key-append (c ∷ name) (k ∷ key) rest e =
    ground (arith, behind_key-append name key rest (cons_tail e), cons_head e)

extract_at :
    (buffer key value : Bytes)
    → behind_key buffer key ≡ some value
    → extract_header_value buffer key ≡ some (erase_back is_line_blank (erase_front is_blank value))
unfolding extract_header_value
extract_at buffer key value e =
    ap
      (λ o. elim o [
        | none ↦ none
        | some v ↦ some (erase_back is_line_blank (erase_front is_blank v))
      ])
      e

starts_before_end_of_line :
    (value : Bytes) → StartsKept is_blank value → StartsKept is_blank (value ++ 13 ∷ 10 ∷ [])
unfolding is_blank
starts_before_end_of_line [] h = ground arith
starts_before_end_of_line (c ∷ value) h = h

-- From a line that has the key in any case, a colon, a blank, the value and the end of the line, the
-- value is taken as it is, if it has no blank at its start and neither a blank nor an end of line at its end.
pub extract_header_value-line :
    (name key value : Bytes)
    → map fold name ≡ map fold key
    → StartsKept is_blank value
    → EndsKept is_line_blank value
    → extract_header_value (name ++ (b' ' ∷ (value ++ 13 ∷ 10 ∷ []))) key ≡ some value
extract_header_value-line name key value e starts ends =
    extract_at _ key _ (behind_key-append name key _ e)
    ∙ ap (λ s. some (erase_back is_line_blank s))
        (erase_front-cons is_blank b' ' _ (unfold is_blank in refl)
          ∙ erase_front-kept is_blank (value ++ 13 ∷ 10 ∷ [])
              (starts_before_end_of_line value starts))
    ∙ ap some (
        erase_back-append is_line_blank value (13 ∷ 10 ∷ []) ends
          (unfold is_line_blank in refl, (unfold is_line_blank in refl, tt)))
