-- ===== src/StringUtils.antt =====
-- `string_utils` (utils/string_utils.cpp). A `std::string` is the list of its bytes.
pub mod Trim
pub mod Split
pub mod Decimal
use Prim.Native.Char.{code}
use Prim.Native.String
use quant_forge_quant_resear.Common.{
  ℕ, ◌+◌, List, [], ◌∷◌, ◌++◌, Bool, true, false, ◌&&◌, ◌||◌, String, Option, none, some, leb, ◌==◌,
  if◌then◌else◌,
}

abbrev pub Bytes : Type 0
Bytes = List ℕ

-- the bytes of a literal
abbrev pub codes : String → Bytes
codes String.[] = []
codes (String.◌∷◌ c s) = code c ∷ codes s

module _ {ℓ} {A : Type ℓ} (P : A → Type 0) where
  abbrev pub All : List A → Type 0
  All [] = Unit
  All (x ∷ xs) = P x × All xs

-- `std::isspace` of the C locale
unfoldable pub is_space : ℕ → Bool
is_space c = c == b' ' || leb 9 c && leb c 13

-- the blanks of `find_first_not_of(" \t")`
unfoldable pub is_blank : ℕ → Bool
is_blank c = c == b' ' || c == 9

unfoldable pub tolower : ℕ → ℕ
tolower c = if leb b'A' c && leb c b'Z' then c + 32 else c

-- The text without the first bytes for which the test holds, and without the last ones.
unfoldable pub erase_front : (ℕ → Bool) → Bytes → Bytes
erase_front drops [] = []
erase_front drops (c ∷ s) = let rest = erase_front drops s in if drops c then rest else c ∷ s

unfoldable pub erase_back : (ℕ → Bool) → Bytes → Bytes
erase_back drops [] = []
erase_back drops (c ∷ s) = elim (erase_back drops s) [
  | [] ↦ if drops c then [] else c ∷ []
  | d ∷ t ↦ c ∷ d ∷ t
]

abbrev pub strip : (ℕ → Bool) → Bytes → Bytes
strip drops s = erase_back drops (erase_front drops s)

unfoldable pub trim : Bytes → Bytes
unfolding erase_front erase_back is_space
trim s = erase_back is_space (erase_front is_space s)

-- The loop ends at the end of the key, or at that of the buffer.
unfoldable pub ieq_prefix : Bytes → Bytes → Bool
unfolding tolower
ieq_prefix buf [] = false
ieq_prefix [] (k ∷ key) = false
ieq_prefix (c ∷ buf) (k ∷ key) =
    let rest = ieq_prefix buf key in
    if tolower c == tolower k then elim key [ [] ↦ true | _ ∷ _ ↦ rest ] else false

-- one round of the loop of `split_comma_delimited_string`: a blank token is left out
emplace_token : Bytes → List Bytes → List Bytes
unfolding erase_front erase_back is_blank
emplace_token token out = elim (strip is_blank token) [ [] ↦ out | c ∷ s ↦ (c ∷ s) ∷ out ]

-- `find` goes over the bytes of the token up to the next comma, which are the first argument.
split_from : Bytes → Bytes → List Bytes
unfolding emplace_token
split_from token [] = emplace_token token []
split_from token (c ∷ s) =
    let next = split_from [] s in
    let further = split_from (token ++ c ∷ []) s in
    if c == b',' then emplace_token token next else further

unfoldable pub split_comma_delimited_string : Bytes → List Bytes
unfolding split_from
split_comma_delimited_string sv = split_from [] sv

unfoldable pub append_to_path : Bytes → Bytes → Bytes
append_to_path path str = path ++ str

-- the text behind the first byte `b`
unfoldable pub behind : ℕ → Bytes → Option Bytes
behind b [] = none
behind b (c ∷ s) = let rest = behind b s in if c == b then some s else rest

-- the text before the first byte `b`
unfoldable pub before : ℕ → Bytes → Bytes
before b [] = []
before b (c ∷ s) = let rest = before b s in if c == b then [] else c ∷ rest
