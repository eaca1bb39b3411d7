-- ===== src/Http/Provider.antt =====
-- `StockAPI` (http/api/stock_api.cpp) over a data provider, and the requests of `PolygonProvider`
-- (http/provider/polygon.cpp). The parse of an answer is that of a JSON library, so it is a parameter.
use quant_forge_quant_resear.Common.{
  ℕ, zero, suc, [], ◌∷◌, ◌++◌, Bool, true, false, ◌||◌, not, ◌≡◌, refl, ap, if◌then◌else◌, ◌⊎◌, inl,
  inr, if_split, arith, length, ◌≤◌,
}
use quant_forge_quant_resear.Common.Int.{ℤ, pos, ltb_ℤ, leb_ℤ, ◌≤ℤ◌}
use quant_forge_quant_resear.StringUtils.{Bytes, codes}
use quant_forge_quant_resear.StringUtils.Decimal.{print_long}
use quant_forge_quant_resear.Http.Action.{
  Failure, http_error, Outcome, done, thrown, Action, continue, ◌>>=◌,
}
use quant_forge_quant_resear.Http.Model.{Request, Response}
use quant_forge_quant_resear.Http.World.{World, Libraries}
use quant_forge_quant_resear.Http.CacheMeta.{NetworkCachePolicy}
use quant_forge_quant_resear.Http.Client.{RetryPolicy, get_with_retries}

pub record AggregateBarsArgs : Type 0 where
  pub symbol : Bytes
  pub timespan_unit : Bytes
  pub timespan : ℤ
  pub from : Bytes
  pub to : Bytes

-- `IStockDataProvider`
pub record StockDataProvider (Bars : Type 0) : Type 0 where
  pub build_custom_aggregate_bars : AggregateBarsArgs → Request
  pub parse_custom_aggregate_bars : Response → Outcome Bars

-- `PolygonProvider::build_custom_aggregate_bars`
unfoldable pub build_custom_aggregate_bars : Bytes → AggregateBarsArgs → Request
build_custom_aggregate_bars api_key a = record {
  url =
      codes "https://api.polygon.io"
      ++ (codes "/v2/aggs/ticker/"
          ++ (a.symbol
              ++ (codes "/range/"
                  ++ (print_long a.timespan
                      ++ (codes "/"
                          ++ (a.timespan_unit
                              ++ (codes "/" ++ (a.from ++ (codes "/" ++ a.to)))))))));
  headers = (codes "Authorization: Bearer " ++ api_key) ∷ codes "Accept: application/json" ∷ [];
}

unfoldable pub take : ℕ → Bytes → Bytes
take zero s = []
take (suc n) [] = []
take (suc n) (c ∷ s) = c ∷ take n s

abbrev pub is_success : ℤ → Bool
is_success status = not (ltb_ℤ status (pos 200) || leb_ℤ (pos 300) status)

unfoldable pub status_error : Response → Failure
unfolding take
status_error resp =
    http_error resp.status resp.effective_url (take 512 resp.body)
      (codes "HTTP request failed with status " ++ print_long resp.status)

-- what is made of the response
unfoldable pub bars_of : {Bars : Type 0} → StockDataProvider Bars → Response → Action World Bars
unfolding status_error
bars_of provider resp w =
    if is_success resp.status
    then (w, provider.parse_custom_aggregate_bars resp)
    else (w, thrown (status_error resp))

-- The retries have the default policy, which is an argument.
unfoldable pub custom_aggregate_bars :
    {Bars : Type 0}
    → StockDataProvider Bars
    → Libraries
    → NetworkCachePolicy
    → ℤ
    → RetryPolicy
    → AggregateBarsArgs
    → Action World Bars
unfolding get_with_retries bars_of
custom_aggregate_bars provider libs policy indeterminate defaults args =
    get_with_retries libs policy indeterminate (provider.build_custom_aggregate_bars args) defaults
    >>= bars_of provider

-- a status from 200 to 299
abbrev pub IsSuccess : ℤ → Type 0
IsSuccess status = (pos 200 ≤ℤ status) × (status ≤ℤ pos 299)

is_success-IsSuccess : (status : ℤ) → is_success status ≡ true → IsSuccess status
is_success-IsSuccess status h = ground arith

is_success-failed : (status : ℤ) → is_success status ≡ false → ¬ IsSuccess status
is_success-failed status h good = ground (arith, good.0, good.1)

-- the first bytes of a body, up to 512
pub record IsPreview (preview body : Bytes) : Type 0 where
  pub rest : Bytes
  pub starts : body ≡ preview ++ rest
  pub at_most : length preview ≤ 512
  pub whole_or_full : (rest ≡ []) ⊎ (length preview ≡ 512)

record Cut (n : ℕ) (preview body : Bytes) : Type 0 where
  rest : Bytes
  starts : body ≡ preview ++ rest
  at_most : length preview ≤ n
  whole_or_full : (rest ≡ []) ⊎ (length preview ≡ n)

take-Cut : (n : ℕ) (body : Bytes) → Cut n (take n body) body
unfolding take
take-Cut zero body = record {
  rest = body;
  starts = refl;
  at_most = omega arith;
  whole_or_full = inr refl;
}
take-Cut (suc n) [] = record {
  rest = [];
  starts = refl;
  at_most = omega arith;
  whole_or_full = inl refl;
}
take-Cut (suc n) (c ∷ body) =
    let h = take-Cut n body in
    record {
      rest = h.rest;
      starts = ap (◌∷◌ c) h.starts;
      at_most = omega (arith, h.at_most);
      whole_or_full = elim h.whole_or_full [ inl e ↦ inl e | inr e ↦ inr (omega (arith, e)) ];
    }

take-IsPreview : (body : Bytes) → IsPreview (take 512 body) body
take-IsPreview body =
    let h = take-Cut 512 body in
    record {
      rest = h.rest;
      starts = h.starts;
      at_most = h.at_most;
      whole_or_full = h.whole_or_full;
    }

-- the error for a response that is no success
pub record IsStatusError (resp : Response) (e : Failure) : Type 0 where
  pub failed : ¬ IsSuccess resp.status
  pub preview : Bytes
  pub is_preview : IsPreview preview resp.body
  pub is_error :
      e
      ≡ http_error resp.status resp.effective_url preview
          (codes "HTTP request failed with status " ++ print_long resp.status)

status_error-IsStatusError :
    (resp : Response) → is_success resp.status ≡ false → IsStatusError resp (status_error resp)
unfolding status_error
status_error-IsStatusError resp bad = record {
  failed = is_success-failed resp.status bad;
  preview = take 512 resp.body;
  is_preview = take-IsPreview resp.body;
  is_error = refl;
}

module _ {Bars : Type 0} (provider : StockDataProvider Bars) where
  -- How a call ends, by how the retries ended.
  abbrev pub IsServed : Outcome Response → Outcome Bars → Type 0
  IsServed (thrown e) end = end ≡ thrown e
  IsServed (done resp) (done bars) =
      IsSuccess resp.status × (provider.parse_custom_aggregate_bars resp ≡ done bars)
  IsServed (done resp) (thrown e) =
      IsSuccess resp.status × (provider.parse_custom_aggregate_bars resp ≡ thrown e)
      ⊎ IsStatusError resp e

  parsed-IsServed :
      (resp : Response) (end : Outcome Bars)
      → IsSuccess resp.status
      → provider.parse_custom_aggregate_bars resp ≡ end
      → IsServed (done resp) end
  parsed-IsServed resp (done bars) good e = (good, e)
  parsed-IsServed resp (thrown f) good e = inl (good, e)

  bars_of-IsServed :
      (got : Outcome Response) (w : World) → IsServed got (continue w got (bars_of provider)).1
  unfolding bars_of
  bars_of-IsServed (thrown e) w = refl
  bars_of-IsServed (done resp) w =
      if_split {A = World × Outcome Bars} (λ r. IsServed (done resp) r.1) (is_success resp.status)
        (λ good. parsed-IsServed resp _ (is_success-IsSuccess resp.status good) refl)
        (λ bad. inr (status_error-IsStatusError resp bad))

  module _ (libs : Libraries) (policy : NetworkCachePolicy) (indeterminate : ℤ)
      (defaults : RetryPolicy) (args : AggregateBarsArgs) (w : World) where
    abbrev retried : World × Outcome Response
    retried =
        get_with_retries libs policy indeterminate (provider.build_custom_aggregate_bars args)
          defaults w

    -- Bars come only from a response with a status from 200 to 299 that the provider could parse; any
    -- other status is an `HttpError` with the status, the url and the first 512 bytes of the body, or all
    -- of it where it is shorter, and an exception of the client or of the parse goes through.
    pub custom_aggregate_bars-IsServed :
        IsServed
          (get_with_retries libs policy indeterminate
            (provider.build_custom_aggregate_bars args)
            defaults
            w).1
          (custom_aggregate_bars provider libs policy indeterminate defaults args w).1
    custom_aggregate_bars-IsServed =
        unfold custom_aggregate_bars in bars_of-IsServed retried.1 retried.0
