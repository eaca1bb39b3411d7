-- ===== src/Manifest/Accepted.antt =====
-- Which manifests parse_json lets through.
use quant_forge_quant_resear.Common.{
  ℕ, String, Bool, true, Option, none, some, List, [], ◌∷◌, ◌≡◌, arith, str_eq, if◌then◌else◌,
}
use quant_forge_quant_resear.Common.Int.{ℤ, eqb_ℤ}
use quant_forge_quant_resear.StringUtils.{All}
use quant_forge_quant_resear.Result.{Result, ok, throw, runtime_error, ◌>>=◌}
use quant_forge_quant_resear.Result.Leaves.{Leaves, Leaves-bind, Leaves-after, Leaves-if, Leaves-ok}
use quant_forge_quant_resear.Double.{Double}
use quant_forge_quant_resear.Params.{Symbol, HostParams}
use quant_forge_quant_resear.Manifest.Options.{
  ParserOptions, plugin_api_version, api_version_parser_options, commission_type_parser_options,
  default_currency_parser_options, kind_parser_options, optimization_mode_parser_options,
  position_sizing_method_parser_options, slippage_model_parser_options,
  timespan_unit_parser_options, timezone_parser_options,
}
use quant_forge_quant_resear.Manifest.{
  Object, Document, PluginManifest, any_of, parse_value, to_int, parse_symbol, parse_symbols,
  raw_symbols, parse_host_params, strategy_text, parse_json,
}

-- `value` is one of the allowed values, where there are any.
abbrev pub IsAllowed : {A : Type 0} → (A → A → Bool) → ParserOptions A → A → Type 0
IsAllowed eq options value = elim options.allowed_values [
  | [] ↦ Unit
  | allowed_value ∷ rest ↦ any_of eq value (allowed_value ∷ rest) ≡ true
]

-- A text that is there and allowed.
abbrev pub HasAllowed : ParserOptions String → Option String → Type 0
HasAllowed options none = ⊥
HasAllowed options (some value) = IsAllowed str_eq options value

pub parse_value-IsAllowed :
    {A : Type 0} (eq : A → A → Bool) (found : Option A) (options : ParserOptions A)
    → Leaves (IsAllowed eq options) (parse_value eq found options)
unfolding parse_value
parse_value-IsAllowed eq none options = tt
parse_value-IsAllowed eq (some value) options = checked options.allowed_values
  where
    checked :
        (allowed : List _)
        → Leaves
            (λ v. elim allowed [ [] ↦ Unit | a ∷ rest ↦ any_of eq v (a ∷ rest) ≡ true ])
            (elim allowed [
              | [] ↦ ok value
              | a ∷ rest ↦
                  if any_of eq value (a ∷ rest)
                  then ok value
                  else throw (runtime_error options.error_message)
            ])
    checked [] = tt
    checked (a ∷ rest) =
        Leaves-if (λ v. any_of eq v (a ∷ rest) ≡ true) (any_of eq value (a ∷ rest)) (ok value) _
          (λ e. e) (λ e. tt)

-- What follows a value that is read.
after_value :
    {A B : Type 0} (P : B → Type 0) (eq : A → A → Bool) (found : Option A)
    (options : ParserOptions A) (next : A → Result B)
    → ((value : A) → IsAllowed eq options value → Leaves P (next value))
    → Leaves P (parse_value eq found options >>= next)
after_value P eq found options next h =
    Leaves-bind (IsAllowed eq options) P (parse_value eq found options) next
      (parse_value-IsAllowed eq found options) h

abbrev pub IsSome : {A : Type 0} → Option A → Type 0
IsSome none = ⊥
IsSome (some a) = Unit

abbrev pub HasUnit : Symbol → Type 0
HasUnit s = IsAllowed str_eq timespan_unit_parser_options s.timespan_unit

same_version :
    (v : ℤ) → IsAllowed eqb_ℤ api_version_parser_options v → to_int v ≡ plugin_api_version
unfolding any_of to_int
same_version v h = ground arith

module _ {D : Type 0} where
  -- The parameters for which the source lists values have one of them, and no parameter is missing.
  pub record AreAccepted (host_params : HostParams D) : Type 0 where
    pub units : All HasUnit host_params.symbols
    pub commission_type : HasAllowed commission_type_parser_options host_params.commission_type
    pub slippage_model : HasAllowed slippage_model_parser_options host_params.slippage_model
    pub default_currency : HasAllowed default_currency_parser_options host_params.default_currency
    pub timezone : HasAllowed timezone_parser_options host_params.timezone
    pub optimization_mode :
        HasAllowed optimization_mode_parser_options host_params.optimization_mode
    pub position_sizing_method :
        HasAllowed position_sizing_method_parser_options host_params.position_sizing_method
    pub switches :
        IsSome host_params.market_hours_only
        × IsSome host_params.allow_fractional_shares
        × IsSome host_params.use_stop_loss
        × IsSome host_params.use_take_profit
        × IsSome host_params.allow_short_selling
    pub amounts :
        IsSome host_params.commission
        × IsSome host_params.slippage
        × IsSome host_params.position_size_value
        × IsSome host_params.max_position_size
        × IsSome host_params.stop_loss_pct
        × IsSome host_params.take_profit_pct
        × IsSome host_params.fill_max_pct_of_volume
        × IsSome host_params.risk_free_rate
        × IsSome host_params.initial_margin_pct
        × IsSome host_params.max_leverage

  pub record IsAccepted (m : PluginManifest D) : Type 0 where
    pub kind : IsAllowed str_eq kind_parser_options m.kind
    pub api_version : m.api_version ≡ plugin_api_version
    pub host_params : AreAccepted m.host_params

module _ {D : Type 0} ⦃d : Double D⦄ where
  open d use {eq}

  parse_symbol-HasUnit : (raw : Option (Object D)) → Leaves HasUnit (parse_symbol raw)
  unfolding parse_symbol
  parse_symbol-HasUnit none = tt
  parse_symbol-HasUnit (some obj) = after_value HasUnit _ _ _ _ (λ primary _.
      after_value HasUnit _ _ _ _ (λ timespan _.
        after_value HasUnit _ _ _ _ (λ symbol _. after_value HasUnit _ _ _ _ (λ unit h. h))))

  parse_symbols-HasUnit :
      (raw : List (Option (Object D))) → Leaves (All HasUnit) (parse_symbols raw)
  unfolding parse_symbols
  parse_symbols-HasUnit [] = tt
  parse_symbols-HasUnit (raw_symbol ∷ rest) =
      Leaves-bind HasUnit (All HasUnit) (parse_symbol raw_symbol) _
        (parse_symbol-HasUnit raw_symbol)
        (λ symbol h.
          Leaves-bind (All HasUnit) (All HasUnit) (parse_symbols rest) _
            (parse_symbols-HasUnit rest) (λ symbols k. (h, k)))

  parse_host_params-AreAccepted :
      (max_size : ℕ) (host : Object D) (symbols : List Symbol)
      → All HasUnit symbols
      → Leaves AreAccepted (parse_host_params max_size host symbols)
  unfolding parse_host_params
  parse_host_params-AreAccepted max_size host symbols h = after_value AreAccepted _ _ _ _ (λ _ _.
      after_value AreAccepted _ _ _ _ (λ _ _. after_value AreAccepted _ _ _ _ (λ _ _.
        after_value AreAccepted _ _ _ _ (λ _ _. after_value AreAccepted _ _ _ _ (λ _ _.
          Leaves-after AreAccepted _ _ (λ _. after_value AreAccepted _ _ _ _ (λ _ _.
            after_value AreAccepted _ _ _ _ (λ _ _. after_value AreAccepted _ _ _ _ (λ _ _.
              after_value AreAccepted _ _ _ _ (λ _ is_commission_type.
                after_value AreAccepted _ _ _ _ (λ _ _.
                  after_value AreAccepted _ _ _ _ (λ _ is_slippage_model.
                    after_value AreAccepted _ _ _ _ (λ _ is_default_currency.
                      after_value AreAccepted _ _ _ _ (λ _ is_timezone.
                        after_value AreAccepted _ _ _ _ (λ _ is_optimization_mode.
                          after_value AreAccepted _ _ _ _ (λ _ is_position_sizing_method.
                            after_value AreAccepted _ _ _ _ (λ _ _.
                              after_value AreAccepted _ _ _ _ (λ _ _.
                                after_value AreAccepted _ _ _ _ (λ _ _.
                                  after_value AreAccepted _ _ _ _ (λ _ _.
                                    after_value AreAccepted _ _ _ _ (λ _ _.
                                      after_value AreAccepted _ _ _ _ (λ _ _.
                                        after_value AreAccepted _ _ _ _ (λ _ _.
                                          after_value AreAccepted _ _ _ _ (λ _ _.
                                            after_value AreAccepted _ _ _ _ (λ _ _.
                                              after_value AreAccepted _ _ _ _ (λ _ _.
                                                after_value AreAccepted _ _ _ _ (λ _ _. record {
                                                  units = h;
                                                  commission_type = is_commission_type;
                                                  slippage_model = is_slippage_model;
                                                  default_currency = is_default_currency;
                                                  timezone = is_timezone;
                                                  optimization_mode = is_optimization_mode;
                                                  position_sizing_method =
                                                      is_position_sizing_method;
                                                  switches = (tt, tt, tt, tt, tt);
                                                  amounts =
                                                      (tt, tt, tt, tt, tt, tt, tt, tt, tt, tt);
                                                })))))))))))))))))))))))))))

  parse_json-Leaves :
      (max_size : ℕ) (document : Document D) → Leaves IsAccepted (parse_json max_size document)
  unfolding parse_json
  parse_json-Leaves max_size document = after_value IsAccepted _ _ _ _ (λ _ _.
      after_value IsAccepted _ _ _ _ (λ _ is_kind. after_value IsAccepted _ _ _ _ (λ _ _.
        after_value IsAccepted _ _ _ _ (λ _ _. after_value IsAccepted _ _ _ _ (λ _ _.
          after_value IsAccepted _ _ _ _ (λ _ _.
            after_value IsAccepted _ _ _ _ (λ api_version is_version.
              Leaves-after IsAccepted (raw_symbols document) _ (λ raw.
                Leaves-bind (All HasUnit) IsAccepted (parse_symbols raw) _
                  (parse_symbols-HasUnit raw)
                  (λ symbols units.
                    Leaves-bind AreAccepted IsAccepted
                      (parse_host_params max_size document.host symbols) _
                      (parse_host_params-AreAccepted max_size document.host symbols units)
                      (λ _ are. Leaves-after IsAccepted (strategy_text document) _ (λ _. record {
                        kind = is_kind;
                        api_version = same_version api_version is_version;
                        host_params = are;
                      })))))))))))

  -- A manifest that parse_json returns has the kind "python" or "native" and the version of this interface;
  -- every value for which the source lists the values allowed is one of them, those of its symbols included;
  -- and no parameter is missing, not even one that the source does not call required.
  pub parse_json-IsAccepted :
      (max_size : ℕ) (document : Document D) (m : PluginManifest D)
      → parse_json max_size document ≡ ok m
      → IsAccepted m
  parse_json-IsAccepted max_size document m parsed =
      Leaves-ok IsAccepted (parse_json max_size document) (parse_json-Leaves max_size document)
        parsed
