-- ===== src/Http/CacheMeta/RoundTrip.antt =====
-- The file that `save_meta_atomic` writes is read back by `load_meta`.
use mathlib.Core.List.{append_assoc, append-nil}
use quant_forge_quant_resear.Common.{[], ◌∷◌, ◌++◌, none, some, ◌≡◌, refl, ap, ◌∙◌, arith}
use quant_forge_quant_resear.Common.Int.{ℤ, pos, negsuc}
use quant_forge_quant_resear.StringUtils.{Bytes, codes, trim, is_space, behind, before}
use quant_forge_quant_resear.StringUtils.Trim.{trim_after_space}
use quant_forge_quant_resear.StringUtils.Split.{Lacks, behind-append, before-append}
use quant_forge_quant_resear.StringUtils.Decimal.{print_long}
use quant_forge_quant_resear.StringUtils.Decimal.RoundTrip.{
  IsLong, print_long-Lacks, trim-print_long, strtol-print_long,
}
use quant_forge_quant_resear.Http.CacheMeta.{
  Meta, newline, meta_line, meta_text, as_long, store_value, load_line, load_from, load_last,
  load_meta,
}

-- A text that a header line can give: no end of line in it, and nothing to trim.
pub record IsHeaderText (s : Bytes) : Type 0 where
  pub one_line : Lacks newline s
  pub trimmed : trim s ≡ s

print_long-IsHeaderText : (v : ℤ) → IsLong v → IsHeaderText (print_long v)
print_long-IsHeaderText v h = record {
  one_line = print_long-Lacks v h;
  trimmed = trim-print_long v h;
}

as_long-print_long : (v def : ℤ) → IsLong v → as_long (print_long v) def ≡ v
as_long-print_long v def h = rw (strtol-print_long v h) refl

load_from-append :
    (out : Meta) (line p rest : Bytes)
    → Lacks newline p
    → load_from out line (p ++ rest) ≡ load_from out (line ++ p) rest
unfolding load_from
load_from-append out line [] rest h = rw append-nil refl
load_from-append out line (c ∷ p) rest (hc, h) =
    ground (arith, load_from-append out (line ++ c ∷ []) p rest h, append_assoc line (c ∷ []) p)

load_from-newline :
    (out : Meta) (line rest : Bytes)
    → load_from out line (newline ∷ rest) ≡ load_from (load_line out line) [] rest
unfolding load_from
load_from-newline out line rest = refl

-- a line whose key the loop knows
record IsKey (key : Bytes) : Type 0 where
  text : IsHeaderText key
  no_colon : Lacks b':' key

load_line_at_colon :
    (out : Meta) (line key text value : Bytes)
    → behind b':' line ≡ some text
    → trim (before b':' line) ≡ key
    → trim text ≡ value
    → load_line out line ≡ store_value out key value
unfolding load_line
load_line_at_colon out line key text value found is_key is_value =
    ap (λ o. elim o [ none ↦ out | some t ↦ store_value out (trim (before b':' line)) (trim t) ])
      found
    ∙ ap (λ k. store_value out k (trim text)) is_key
    ∙ ap (store_value out key) is_value

load_line-IsKey :
    (out : Meta) (key value : Bytes)
    → IsKey key
    → IsHeaderText value
    → load_line out (key ++ (b':' ∷ b' ' ∷ value)) ≡ store_value out key value
load_line-IsKey out key value k v =
    load_line_at_colon out _ key (b' ' ∷ value) value
      (behind-append b':' key (b' ' ∷ value) k.no_colon)
      (ap trim (before-append b':' key (b' ' ∷ value) k.no_colon) ∙ k.text.trimmed)
      (trim_after_space b' ' value (unfold is_space in refl) ∙ v.trimmed)

load_from-line :
    (out : Meta) (key value rest : Bytes)
    → IsKey key
    → IsHeaderText value
    → load_from out [] (meta_line key value rest) ≡ load_from (store_value out key value) [] rest
load_from-line out key value rest k v =
    load_from-append out [] key (b':' ∷ b' ' ∷ (value ++ (newline ∷ rest))) k.text.one_line
    ∙ load_from-append out key (b':' ∷ b' ' ∷ []) (value ++ (newline ∷ rest))
        (omega arith, (omega arith, tt))
    ∙ load_from-append out (key ++ b':' ∷ b' ' ∷ []) value (newline ∷ rest) v.one_line
    ∙ load_from-newline out ((key ++ b':' ∷ b' ' ∷ []) ++ value) rest
    ∙ ap (λ line. load_from (load_line out line) [] rest)
        (append_assoc key (b':' ∷ b' ' ∷ []) value)
    ∙ ap (λ m. load_from m [] rest) (load_line-IsKey out key value k v)

-- What `load_meta` needs of a response for its file to give it back.
pub record IsStorable (m : Meta) : Type 0 where
  pub longs :
      IsLong m.status
      × IsLong m.rate_limit_remaining
      × IsLong m.rate_limit_reset
      × IsLong m.unix_ts_s
  pub etag : IsHeaderText m.etag
  pub last_modified : IsHeaderText m.last_modified
  pub content_type : IsHeaderText m.content_type
  pub cache_control : IsHeaderText m.cache_control
  pub retry_after : IsHeaderText m.retry_after

-- A key of the loop, with the member that its line sets.
record Known (key : Bytes) (A : Type 0) (field : Meta → A → Meta) (read : Bytes → A) : Type 0 where
  is_key : IsKey key
  stores : (out : Meta) (val : Bytes) → store_value out key val ≡ field out (read val)

known :
    (key : Bytes) {A : Type 0} (field : Meta → A → Meta) (read : Bytes → A)
    → Lacks newline key
    → Lacks b':' key
    → trim key ≡ key
    → ((out : Meta) (val : Bytes) → store_value out key val ≡ field out (read val))
    → Known key A field read
known key field read l n t stores = record {
  is_key = record { text = record { one_line = l; trimmed = t }; no_colon = n };
  stores = stores;
}

put :
    {key : Bytes} {A : Type 0} {field : Meta → A → Meta} {read : Bytes → A}
    → Known key A field read
    → (out : Meta) (value : Bytes) (a : A) (rest : Bytes) → IsHeaderText value
    → read value ≡ a
    → load_from out [] (meta_line key value rest) ≡ load_from (field out a) [] rest
put {key} {field} k out value a rest v e =
    load_from-line out key value rest k.is_key v
    ∙ ap (λ m. load_from m [] rest) (k.stores out value ∙ ap (field out) e)

put_long :
    {key : Bytes} {field : Meta → ℤ → Meta} (def : ℤ)
    → Known key ℤ field (λ val. as_long val def)
    → (out : Meta) (v : ℤ) (rest : Bytes) → IsLong v
    → load_from out [] (meta_line key (print_long v) rest) ≡ load_from (field out v) [] rest
put_long def k out v rest h =
    put k out (print_long v) v rest (print_long-IsHeaderText v h) (as_long-print_long v def h)

status_line : Known (codes "status") ℤ (λ m a. record m { status = a }) (λ val. as_long val (pos 0))
unfolding store_value
status_line =
    known (codes "status") _ _ (omega arith) (omega arith) (unfold trim in refl) (λ out val. refl)

etag_line : Known (codes "etag") Bytes (λ m a. record m { etag = a }) (λ val. val)
unfolding store_value
etag_line =
    known (codes "etag") _ _ (omega arith) (omega arith) (unfold trim in refl) (λ out val. refl)

last_modified_line :
    Known (codes "last_modified") Bytes (λ m a. record m { last_modified = a }) (λ val. val)
unfolding store_value
last_modified_line =
    known (codes "last_modified") _ _ (omega arith) (omega arith) (unfold trim in refl)
      (λ out val. refl)

content_type_line :
    Known (codes "content_type") Bytes (λ m a. record m { content_type = a }) (λ val. val)
unfolding store_value
content_type_line =
    known (codes "content_type") _ _ (omega arith) (omega arith) (unfold trim in refl)
      (λ out val. refl)

cache_control_line :
    Known (codes "cache_control") Bytes (λ m a. record m { cache_control = a }) (λ val. val)
unfolding store_value
cache_control_line =
    known (codes "cache_control") _ _ (omega arith) (omega arith) (unfold trim in refl)
      (λ out val. refl)

retry_after_line :
    Known (codes "retry_after") Bytes (λ m a. record m { retry_after = a }) (λ val. val)
unfolding store_value
retry_after_line =
    known (codes "retry_after") _ _ (omega arith) (omega arith) (unfold trim in refl)
      (λ out val. refl)

rate_limit_remaining_line :
    Known
      (codes "rate_limit_remaining")
      ℤ
      (λ m a. record m { rate_limit_remaining = a })
      (λ val. as_long val (negsuc 0))
unfolding store_value
rate_limit_remaining_line =
    known (codes "rate_limit_remaining") _ _ (omega arith) (omega arith) (unfold trim in refl)
      (λ out val. refl)

rate_limit_reset_line :
    Known
      (codes "rate_limit_reset")
      ℤ
      (λ m a. record m { rate_limit_reset = a })
      (λ val. as_long val (negsuc 0))
unfolding store_value
rate_limit_reset_line =
    known (codes "rate_limit_reset") _ _ (omega arith) (omega arith) (unfold trim in refl)
      (λ out val. refl)

unix_ts_s_line :
    Known (codes "unix_ts_s") ℤ (λ m a. record m { unix_ts_s = a }) (λ val. as_long val (pos 0))
unfolding store_value
unix_ts_s_line =
    known (codes "unix_ts_s") _ _ (omega arith) (omega arith) (unfold trim in refl)
      (λ out val. refl)

-- Reading the file of a storable meta gives that meta, whatever was in the one it is read into.
pub load_meta-meta_text : (out m : Meta) → IsStorable m → load_meta out (meta_text m) ≡ m
unfolding load_meta meta_text
load_meta-meta_text out m h =
    let (status_long, remaining_long, reset_long, ts_long) = h.longs in
    put_long _ status_line _ m.status _ status_long
    ∙ put etag_line _ m.etag m.etag _ h.etag refl
    ∙ put last_modified_line _ m.last_modified m.last_modified _ h.last_modified refl
    ∙ put content_type_line _ m.content_type m.content_type _ h.content_type refl
    ∙ put cache_control_line _ m.cache_control m.cache_control _ h.cache_control refl
    ∙ put retry_after_line _ m.retry_after m.retry_after _ h.retry_after refl
    ∙ put_long _ rate_limit_remaining_line _ m.rate_limit_remaining _ remaining_long
    ∙ put_long _ rate_limit_reset_line _ m.rate_limit_reset _ reset_long
    ∙ put_long _ unix_ts_s_line _ m.unix_ts_s _ ts_long
    ∙ (unfold load_from load_last in refl)
