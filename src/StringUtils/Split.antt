-- ===== src/StringUtils/Split.antt =====
-- What `split_comma_delimited_string` finds, and the test `ieq_prefix`.
use mathlib.Core.List.{append_assoc, append-nil}
use quant_forge_quant_resear.Common.{
  ℕ, List, [], ◌∷◌, ◌++◌, map, Bool, true, ◌≡◌, ◌≢◌, ◌↔◌, refl, ap, sym, subst, ◌∙◌, inl, inr,
  arith, Bool-cases, ◌==◌, some,
}
use quant_forge_quant_resear.StringUtils.{
  Bytes, All, is_blank, strip, tolower, ieq_prefix, emplace_token, split_from,
  split_comma_delimited_string, behind, before,
}
use quant_forge_quant_resear.StringUtils.Trim.{
  IsStripped, StartsKept, EndsKept, strip-IsStripped, strip-kept, strip-cons,
}

module _ (P : ℕ → Type 0) where
  pub All-append : (xs ys : Bytes) → All P xs → All P ys → All P (xs ++ ys)
  All-append [] ys h k = k
  All-append (x ∷ xs) ys (px, h) k = (px, All-append xs ys h k)

  pub All-parts : (xs ys : Bytes) → All P (xs ++ ys) → All P xs × All P ys
  All-parts [] ys h = (tt, h)
  All-parts (x ∷ xs) ys (px, h) = let (l, r) = All-parts xs ys h in ((px, l), r)

  pub strip-All : (drops : ℕ → Bool) (s : Bytes) → All P s → All P (strip drops s)
  strip-All drops s h =
      let w = strip-IsStripped drops s in
      let (in_front, others) =
        All-parts w.front (strip drops s ++ w.back) (subst (All P) w.splits h) in
      (All-parts (strip drops s) w.back others).0

abbrev pub Lacks : ℕ → Bytes → Type 0
Lacks b = All (λ c. c ≢ b)

pub behind-append : (b : ℕ) (s rest : Bytes) → Lacks b s → behind b (s ++ (b ∷ rest)) ≡ some rest
unfolding behind
behind-append b [] rest h = ground arith
behind-append b (c ∷ s) rest (hc, h) = ground (arith, behind-append b s rest h)

pub before-append : (b : ℕ) (s rest : Bytes) → Lacks b s → before b (s ++ (b ∷ rest)) ≡ s
unfolding before
before-append b [] rest h = ground arith
before-append b (c ∷ s) rest (hc, h) = ground (arith, before-append b s rest h)

-- A text that can stand between two commas and is found as it is.
pub record IsToken (p : Bytes) : Type 0 where
  pub not_empty : p ≢ []
  pub no_comma : Lacks b',' p
  pub starts : StartsKept is_blank p
  pub ends : EndsKept is_blank p

emplace_token-All :
    (token : Bytes) (out : List Bytes)
    → Lacks b',' token
    → All IsToken out
    → All IsToken (emplace_token token out)
unfolding emplace_token
emplace_token-All token out h k =
    go (strip is_blank token) w.starts w.ends (strip-All _ is_blank token h)
  where
    w : IsStripped is_blank token (strip is_blank token)
    w = strip-IsStripped is_blank token

    go :
        (t : Bytes)
        → StartsKept is_blank t
        → EndsKept is_blank t
        → Lacks b',' t
        → All IsToken (elim t [ [] ↦ out | c ∷ s ↦ (c ∷ s) ∷ out ])
    go [] a b l = k
    go (c ∷ s) a b l = (record { not_empty = λ e. cc; no_comma = l; starts = a; ends = b }, k)

split_from-All : (token s : Bytes) → Lacks b',' token → All IsToken (split_from token s)
unfolding split_from
split_from-All token [] h = emplace_token-All token [] h tt
split_from-All token (c ∷ s) h = elim (Bool-cases (c == b',')) [
  | inl e ↦ rw e (emplace_token-All token (split_from [] s) h (split_from-All [] s tt))
  | inr e ↦
      rw e (split_from-All (token ++ c ∷ []) s (All-append _ token (c ∷ []) h (ground arith, tt)))
]

-- Every part has no comma, is not empty, and has no blank at either end.
split-IsToken : (sv : Bytes) → All IsToken (split_comma_delimited_string sv)
unfolding split_comma_delimited_string
split-IsToken sv = split_from-All [] sv tt

-- The parts with a comma and a blank between them, as a server writes a header.
abbrev pub comma_separated : List Bytes → Bytes
comma_separated [] = []
comma_separated (p ∷ []) = p
comma_separated (p ∷ q ∷ ps) = p ++ (b',' ∷ b' ' ∷ comma_separated (q ∷ ps))

emplace_token-IsToken : (p : Bytes) (out : List Bytes) → IsToken p → emplace_token p out ≡ p ∷ out
unfolding emplace_token
emplace_token-IsToken p out h =
    subst (λ t. elim t [ [] ↦ out | c ∷ s ↦ (c ∷ s) ∷ out ] ≡ p ∷ out)
      (sym (strip-kept is_blank p h.starts h.ends)) (go p h.not_empty)
  where
    go : (t : Bytes) → t ≢ [] → elim t [ [] ↦ out | c ∷ s ↦ (c ∷ s) ∷ out ] ≡ t ∷ out
    go [] ne = absurd (ne refl)
    go (c ∷ s) ne = refl

emplace_token_behind_blank :
    (p : Bytes) (out : List Bytes) → emplace_token (b' ' ∷ p) out ≡ emplace_token p out
unfolding emplace_token
emplace_token_behind_blank p out = rw (strip-cons is_blank b' ' p (unfold is_blank in refl)) refl

split_from-append :
    (p rest token : Bytes)
    → Lacks b',' p
    → split_from token (p ++ rest) ≡ split_from (token ++ p) rest
unfolding split_from
split_from-append [] rest token h = rw append-nil refl
split_from-append (c ∷ p) rest token (hc, h) =
    ground (arith, split_from-append p rest (token ++ c ∷ []) h, append_assoc token (c ∷ []) p)

split_from_at_end : (token : Bytes) → split_from token [] ≡ emplace_token token []
unfolding split_from
split_from_at_end token = refl

split_from_at_comma :
    (token s : Bytes) → split_from token (b',' ∷ s) ≡ emplace_token token (split_from [] s)
unfolding split_from
split_from_at_comma token s = refl

split_from_after_comma : (s : Bytes) → split_from [] (b' ' ∷ s) ≡ split_from (b' ' ∷ []) s
unfolding split_from
split_from_after_comma s = refl

tokens_found :
    (ps : List Bytes) (lead : Bytes)
    → ((q : Bytes) (out : List Bytes) → emplace_token (lead ++ q) out ≡ emplace_token q out)
    → All IsToken ps
    → split_from lead (comma_separated ps) ≡ ps
tokens_found [] lead skips h =
    split_from_at_end lead
    ∙ ap (λ t. emplace_token t []) (sym (append-nil lead))
    ∙ skips [] []
    ∙ none_left
  where
    none_left : emplace_token [] [] ≡ []
    none_left = unfold emplace_token in refl
tokens_found (p ∷ []) lead skips (hp, h) =
    ap (split_from lead) (sym (append-nil p))
    ∙ split_from-append p [] lead hp.no_comma
    ∙ split_from_at_end (lead ++ p)
    ∙ skips p []
    ∙ emplace_token-IsToken p [] hp
tokens_found (p ∷ q ∷ ps) lead skips (hp, h) =
    split_from-append p _ lead hp.no_comma
    ∙ split_from_at_comma (lead ++ p) _
    ∙ skips p _
    ∙ emplace_token-IsToken p _ hp
    ∙ ap (◌∷◌ p) (
        split_from_after_comma (comma_separated (q ∷ ps))
        ∙ tokens_found (q ∷ ps) (b' ' ∷ []) emplace_token_behind_blank h)

-- Parts that hold no comma, are not empty and have no blank at either end are found again, in
-- their order, in the text that has them with a comma and a blank between each two.
pub split-comma_separated :
    (ps : List Bytes) → All IsToken ps → split_comma_delimited_string (comma_separated ps) ≡ ps
unfolding split_comma_delimited_string
split-comma_separated ps h = tokens_found ps [] (λ q out. refl) h

-- `key` stands at the start of `buf`, up to the case of letters.
abbrev pub IsFoldedPrefix : Bytes → Bytes → Type 0
IsFoldedPrefix buf key = (rest : Bytes) × (map tolower buf ≡ map tolower key ++ rest)

-- The test says whether a key that is not empty starts the buffer, up to the case of letters.
ieq_prefix_iff : (buf key : Bytes) → key ≢ [] → (ieq_prefix buf key ≡ true) ↔ IsFoldedPrefix buf key
unfolding ieq_prefix
ieq_prefix_iff buf [] ne = absurd (ne refl)
ieq_prefix_iff [] (k ∷ key) ne = (λ h. cc, λ (rest, e). cc)
ieq_prefix_iff (c ∷ buf) (k ∷ []) ne = (
  λ h. (map tolower buf, ap (λ d. d ∷ map tolower buf) (ground arith)),
  λ (rest, e). ground arith,
)
ieq_prefix_iff (c ∷ buf) (k ∷ j ∷ key) ne =
    let further = ieq_prefix_iff buf (j ∷ key) (λ e. cc) in
    (
      λ h. let (rest, e) = further.0 (ground arith) in (rest, ground arith),
      λ (rest, e). ground (arith, further.1 (rest, cc)),
    )
