-- ===== src/Http/Cache/Atomic.antt =====
-- What `write_atomic` leaves in the files, whichever of its steps fails.
use quant_forge_quant_resear.Common.{
  ℕ, [], ◌∷◌, ◌++◌, true, false, Option, none, some, ◌≡◌, ◌≢◌, ◌↔◌, refl, sym, ◌∙◌, arith, if_both,
  option_both,
}
use quant_forge_quant_resear.StringUtils.{Bytes, codes, append_to_path}
use quant_forge_quant_resear.Http.Action.{Outcome, done, thrown}
use quant_forge_quant_resear.Http.World.{equal, Files, written, World, Libraries}
use quant_forge_quant_resear.Http.Cache.{temporary, write_atomic}

pub equal_iff : (a b : Bytes) → (equal a b ≡ true) ↔ (a ≡ b)
unfolding equal
equal_iff [] [] = ground arith
equal_iff [] (y ∷ b) = ground arith
equal_iff (x ∷ a) [] = ground arith
equal_iff (x ∷ a) (y ∷ b) = ground (arith, equal_iff a b)

pub equal-false : (a b : Bytes) → equal a b ≡ false → a ≢ b
equal-false a b h e = ground (arith, (equal_iff a b).1 e)

pub written-same :
    (p : Bytes) (content : Option Bytes) (files : Files) → written p content files p ≡ content
unfolding written
written-same p content files = ground (arith, (equal_iff p p).1 refl)

pub written-other :
    (p q : Bytes) (content : Option Bytes) (files : Files)
    → p ≢ q
    → written p content files q ≡ files q
unfolding written
written-other p q content files ne = ground (arith, (equal_iff p q).0)

tail : {c d : ℕ} {s t : Bytes} → c ∷ s ≡ d ∷ t → s ≡ t
tail e = cc

pub append_cancel : (p s t : Bytes) → p ++ s ≡ p ++ t → s ≡ t
append_cancel [] s t e = e
append_cancel (c ∷ p) s t e = append_cancel p s t (tail e)

pub extended : (p s : Bytes) → s ≢ [] → p ≢ p ++ s
extended [] s ne e = ne (sym e)
extended (c ∷ p) s ne e = extended p s ne (tail e)

pub temporary-ne : (p : Bytes) → temporary p ≢ p
unfolding append_to_path
temporary-ne p e = extended p (codes ".tmp") (λ q. cc) (sym e)

-- What a file holds after the call: the new bytes where the call returns, else what it held.
abbrev pub Whole : Option Bytes → Option Bytes → Bytes → Outcome Unit → Type 0
Whole before after bytes (done u) = after ≡ some bytes
Whole before after bytes (thrown e) = after ≡ before

-- No other file has changed but the temporary one.
abbrev pub Others : Bytes → Files → Files → Type 0
Others p before after = (q : Bytes) → q ≢ p → q ≢ temporary p → after q ≡ before q

abbrev pub IsAtomic : Files → Bytes → Bytes → World × Outcome Unit → Type 0
IsAtomic before p bytes (after, end) =
    Whole (before p) (after.files p) bytes end × Others p before after.files

Others-temporary :
    (p : Bytes) (content : Option Bytes) (files : Files)
    → Others p files (written (temporary p) content files)
Others-temporary p content files q ne ne_tmp =
    written-other (temporary p) q content files (λ e. ne_tmp (sym e))

-- Whatever fails, the file holds the new bytes in full if the call returns and what it held before
-- if it throws, and no other file has changed but the temporary one.
pub write_atomic-IsAtomic :
    (libs : Libraries) (p bytes : Bytes) (w : World)
    → IsAtomic w.files p bytes (write_atomic libs p bytes w)
unfolding write_atomic
write_atomic-IsAtomic libs p bytes w =
    if_both (IsAtomic w.files p bytes) (libs.opens tmp)
      (if_both (IsAtomic w.files p bytes) (libs.writes tmp bytes)
        (option_both (IsAtomic w.files p bytes) (libs.rename_error tmp p) moved
          (λ message. left (some bytes)))
        (left (some (libs.torn tmp bytes))))
      (refl, λ q ne ne_tmp. refl)
  where
    tmp : Bytes
    tmp = temporary p

    left :
        (content : Option Bytes)
        → (written tmp content w.files p ≡ w.files p)
          × Others p w.files (written tmp content w.files)
    left content =
        (written-other tmp p content w.files (temporary-ne p), Others-temporary p content w.files)

    complete : Files
    complete = written tmp (some bytes) w.files

    moved :
        (written tmp none (written p (some bytes) complete) p ≡ some bytes)
        × Others p w.files (written tmp none (written p (some bytes) complete))
    moved = (
      written-other tmp p none (written p (some bytes) complete) (temporary-ne p)
          ∙ written-same p (some bytes) complete,
      λ q ne ne_tmp.
          Others-temporary p none (written p (some bytes) complete) q ne ne_tmp
          ∙ written-other p q (some bytes) complete (λ e. ne (sym e))
          ∙ Others-temporary p (some bytes) w.files q ne ne_tmp,
    )
