-- ===== src/StringUtils/Trim.antt =====
-- The lemmas on `trim` and on the search for the first and last bytes that are kept.
use quant_forge_quant_resear.Common.{
  ℕ, [], ◌∷◌, ◌++◌, Bool, true, false, ◌≡◌, refl, ap, ◌∙◌, inl, inr, if◌then◌else◌, Bool-cases,
}
use quant_forge_quant_resear.StringUtils.{
  Bytes, All, is_space, erase_front, erase_back, strip, trim,
}

module _ (drops : ℕ → Bool) where
  abbrev pub Drops : Bytes → Type 0
  Drops = All (λ c. drops c ≡ true)

  abbrev pub StartsKept : Bytes → Type 0
  StartsKept [] = Unit
  StartsKept (c ∷ s) = drops c ≡ false

  abbrev pub EndsKept : Bytes → Type 0
  EndsKept [] = Unit
  EndsKept (c ∷ []) = drops c ≡ false
  EndsKept (c ∷ d ∷ t) = EndsKept (d ∷ t)

  -- `t` is `s` without the dropped bytes around it, and no more can go.
  pub record IsStripped (s t : Bytes) : Type 0 where
    pub front : Bytes
    pub back : Bytes
    pub splits : s ≡ front ++ (t ++ back)
    pub front_dropped : Drops front
    pub back_dropped : Drops back
    pub starts : StartsKept t
    pub ends : EndsKept t

  record FrontErased (s : Bytes) : Type 0 where
    before : Bytes
    splits : s ≡ before ++ erase_front drops s
    dropped : Drops before
    starts : StartsKept (erase_front drops s)

  erase_front-FrontErased : (s : Bytes) → FrontErased s
  unfolding erase_front
  erase_front-FrontErased [] = record { before = []; splits = refl; dropped = tt; starts = tt }
  erase_front-FrontErased (c ∷ s) = elim (Bool-cases (drops c)) [
    | inl e ↦
        let f = erase_front-FrontErased s in
        record {
          before = c ∷ f.before;
          splits = rw (e, if◌then◌else◌) (ap (◌∷◌ c) f.splits);
          dropped = (e, f.dropped);
          starts = rw (e, if◌then◌else◌) f.starts;
        }
    | inr e ↦ record {
      before = [];
      splits = rw (e, if◌then◌else◌) refl;
      dropped = tt;
      starts = rw (e, if◌then◌else◌) e;
    }
  ]

  record BackErased (s t : Bytes) : Type 0 where
    after : Bytes
    splits : s ≡ t ++ after
    dropped : Drops after
    starts : StartsKept s → StartsKept t
    ends : EndsKept t

  longer-BackErased :
      (c : ℕ) (s t : Bytes)
      → BackErased s t
      → erase_back drops s ≡ t
      → BackErased (c ∷ s) (erase_back drops (c ∷ s))
  unfolding erase_back
  longer-BackErased c s [] b e = elim (Bool-cases (drops c)) [
    | inl d ↦
        rw (e, d)
          (record {
            after = c ∷ b.after;
            splits = ap (◌∷◌ c) b.splits;
            dropped = (d, b.dropped);
            starts = λ h. tt;
            ends = tt;
          })
    | inr d ↦
        rw (e, d)
          (record {
            after = b.after;
            splits = ap (◌∷◌ c) b.splits;
            dropped = b.dropped;
            starts = λ h. d;
            ends = d;
          })
  ]
  longer-BackErased c s (x ∷ t) b e = rw e (record {
    after = b.after;
    splits = ap (◌∷◌ c) b.splits;
    dropped = b.dropped;
    starts = λ h. h;
    ends = b.ends;
  })

  erase_back-BackErased : (s : Bytes) → BackErased s (erase_back drops s)
  unfolding erase_back
  erase_back-BackErased [] = record {
    after = [];
    splits = refl;
    dropped = tt;
    starts = λ h. h;
    ends = tt;
  }
  erase_back-BackErased (c ∷ s) =
      longer-BackErased c s (erase_back drops s) (erase_back-BackErased s) refl

  pub strip-IsStripped : (s : Bytes) → IsStripped s (strip drops s)
  strip-IsStripped s =
      let f = erase_front-FrontErased s in
      let b = erase_back-BackErased (erase_front drops s) in
      record {
        front = f.before;
        back = b.after;
        splits = f.splits ∙ ap (◌++◌ f.before) b.splits;
        front_dropped = f.dropped;
        back_dropped = b.dropped;
        starts = b.starts f.starts;
        ends = b.ends;
      }

  pub erase_front-kept : (s : Bytes) → StartsKept s → erase_front drops s ≡ s
  unfolding erase_front
  erase_front-kept [] h = refl
  erase_front-kept (c ∷ s) h = rw h refl

  pub erase_back-kept : (s : Bytes) → EndsKept s → erase_back drops s ≡ s
  unfolding erase_back
  erase_back-kept [] h = refl
  erase_back-kept (c ∷ []) h = rw h refl
  erase_back-kept (c ∷ d ∷ t) h = rw (erase_back-kept (d ∷ t) h) refl

  erase_back-Drops : (back : Bytes) → Drops back → erase_back drops back ≡ []
  unfolding erase_back
  erase_back-Drops [] h = refl
  erase_back-Drops (c ∷ back) (hc, h) = rw (erase_back-Drops back h, hc) refl

  erase_back-cons :
      (c : ℕ) (s : Bytes) (d : ℕ) (t : Bytes)
      → erase_back drops s ≡ d ∷ t
      → erase_back drops (c ∷ s) ≡ c ∷ d ∷ t
  unfolding erase_back
  erase_back-cons c s d t e = rw e refl

  -- Dropped bytes behind a text with a kept end go, and no other byte.
  pub erase_back-append :
      (s back : Bytes) → EndsKept s → Drops back → erase_back drops (s ++ back) ≡ s
  erase_back-append [] back h k = erase_back-Drops back k
  erase_back-append (c ∷ []) back h k = unfold erase_back in rw (erase_back-Drops back k, h) refl
  erase_back-append (c ∷ d ∷ t) back h k =
      erase_back-cons c (d ∷ (t ++ back)) d t (erase_back-append (d ∷ t) back h k)

  -- A text with kept bytes at both ends stays.
  pub strip-kept : (s : Bytes) → StartsKept s → EndsKept s → strip drops s ≡ s
  strip-kept s h k = rw (erase_front-kept s h) (erase_back-kept s k)

  -- Stripping twice is stripping once.
  pub strip-strip : (s : Bytes) → strip drops (strip drops s) ≡ strip drops s
  strip-strip s = let w = strip-IsStripped s in strip-kept (strip drops s) w.starts w.ends

  pub erase_front-cons :
      (c : ℕ) (s : Bytes) → drops c ≡ true → erase_front drops (c ∷ s) ≡ erase_front drops s
  unfolding erase_front
  erase_front-cons c s h = rw h refl

  pub strip-cons : (c : ℕ) (s : Bytes) → drops c ≡ true → strip drops (c ∷ s) ≡ strip drops s
  unfolding erase_front
  strip-cons c s h = rw h refl

-- Trimming takes away white space at the two ends, all of it, and nothing else.
pub trim-IsStripped : (s : Bytes) → IsStripped is_space s (trim s)
unfolding trim
trim-IsStripped s = strip-IsStripped is_space s

pub trim-trim : (s : Bytes) → trim (trim s) ≡ trim s
unfolding trim
trim-trim s = strip-strip is_space s

pub trim_after_space : (c : ℕ) (s : Bytes) → is_space c ≡ true → trim (c ∷ s) ≡ trim s
unfolding trim
trim_after_space c s h = strip-cons is_space c s h
