-- ===== src/Manifest.antt =====
-- `PluginManifest` (src/plugins/manifest/manifest.cpp): the values of a manifest.json, checked one after another.
-- The JSON library is a parameter: what a document has under a key, where it has it with the type asked for.
pub mod Options
pub mod Accepted
use Prim.Native.Nat.{◌^◌}
use quant_forge_quant_resear.Common.{
  ℕ, ◌+◌, ◌-◌, ◌%◌, String, Bool, true, false, ◌||◌, Option, none, some, List, [], ◌∷◌, str_eq, ltb,
  if◌then◌else◌,
}
use quant_forge_quant_resear.Common.Int.{ℤ, pos, negsuc, eqb_ℤ}
use quant_forge_quant_resear.StringUtils.{codes}
use quant_forge_quant_resear.Result.{Result, ok, throw, runtime_error, ◌>>=◌}
use quant_forge_quant_resear.Double.{Double}
use quant_forge_quant_resear.Money.Parse.{parse_microdollars}
use quant_forge_quant_resear.Params.{Symbol, HostParams}
use Options.{
  ParserOptions, allow_fractional_shares_parser_options, allow_short_selling_parser_options,
  api_version_parser_options, author_parser_options, backtest_end_datetime_parser_options,
  backtest_start_datetime_parser_options, commission_parser_options, commission_type_parser_options,
  default_currency_parser_options, description_parser_options, entry_parser_options,
  fill_max_pct_of_volume_parser_options, initial_capital_parser_options,
  initial_margin_pct_parser_options, kind_parser_options, market_hours_only_parser_options,
  max_leverage_parser_options, max_position_size_parser_options, monte_carlo_runs_parser_options,
  monte_carlo_seed_parser_options, name_parser_options, optimization_mode_parser_options,
  position_size_value_parser_options, position_sizing_method_parser_options, primary_parser_options,
  risk_free_rate_parser_options, slippage_model_parser_options, slippage_parser_options,
  stop_loss_pct_parser_options, symbol_parser_options, take_profit_pct_parser_options,
  timespan_parser_options, timespan_unit_parser_options, timezone_parser_options,
  use_stop_loss_parser_options, use_take_profit_parser_options, version_parser_options,
}

-- A JSON object: the value under a key, if it is there with that type.
pub record Object (D : Type 0) : Type 0 where
  pub get_string : String → Option String
  pub get_bool : String → Option Bool
  pub get_int64 : String → Option ℤ
  pub get_double : String → Option D

-- A manifest: the document, its `host_params`, and the array of symbols, whose entries may not be objects.
pub record Document (D : Type 0) : Type 0 where
  pub doc : Object D
  pub host : Object D
  pub symbols : Option (List (Option (Object D)))
  pub strategy_params : Option String

pub record PluginManifest (D : Type 0) : Type 0 where
  pub api_version : ℤ
  pub name : String
  pub kind : String
  pub entry : String
  pub description : String
  pub author : String
  pub version : String
  pub host_params : HostParams D
  pub strategy_params : String

unfoldable pub any_of : {A : Type 0} → (A → A → Bool) → A → List A → Bool
any_of eq value [] = false
any_of eq value (allowed_value ∷ rest) = eq allowed_value value || any_of eq value rest

unfoldable pub parse_value : {A : Type 0} → (A → A → Bool) → Option A → ParserOptions A → Result A
unfolding any_of
parse_value eq none options = throw (runtime_error options.error_message)
parse_value eq (some value) options = elim options.allowed_values [
  | [] ↦ ok value
  | allowed_value ∷ rest ↦
      if any_of eq value (allowed_value ∷ rest)
      then ok value
      else throw (runtime_error options.error_message)
]

-- `int(…)` of a `long long`
unfoldable pub to_int : ℤ → ℤ
to_int (pos n) = let r = n % 2 ^ 32 in if ltb r (2 ^ 31) then pos r else negsuc (2 ^ 32 - 1 - r)
to_int (negsuc n) = let r = n % 2 ^ 32 in if ltb r (2 ^ 31) then negsuc r else pos (2 ^ 32 - 1 - r)

abbrev pub eqb : Bool → Bool → Bool
eqb true b = b
eqb false true = false
eqb false false = true

unfoldable pub is_python : {D : Type 0} → PluginManifest D → Bool
is_python m = str_eq m.kind "python"

unfoldable pub is_native : {D : Type 0} → PluginManifest D → Bool
is_native m = str_eq m.kind "native"

unfoldable pub is_one_of : {D : Type 0} → PluginManifest D → List String → Bool
is_one_of m [] = false
is_one_of m (plugin_name ∷ plugin_names) = str_eq plugin_name m.name || is_one_of m plugin_names

module _ {D : Type 0} ⦃d : Double D⦄ where
  open d use {eq}

  unfoldable pub parse_symbol : Option (Object D) → Result Symbol
  parse_symbol none = throw (runtime_error "Invalid symbol object")
  parse_symbol (some obj) = do
    primary ← parse_value eqb (obj.get_bool "primary") primary_parser_options
    timespan ← parse_value eqb_ℤ (obj.get_int64 "timespan") timespan_parser_options
    symbol ← parse_value str_eq (obj.get_string "symbol") symbol_parser_options
    timespan_unit ← parse_value str_eq (obj.get_string "timespan_unit") timespan_unit_parser_options
    ok (record {
      primary = primary;
      timespan = to_int timespan;
      symbol = symbol;
      timespan_unit = timespan_unit;
    })

  unfoldable pub parse_symbols : List (Option (Object D)) → Result (List Symbol)
  parse_symbols [] = ok []
  parse_symbols (raw_symbol ∷ rest) = do
    symbol ← parse_symbol raw_symbol
    symbols ← parse_symbols rest
    ok (symbol ∷ symbols)

  unfoldable pub raw_symbols : Document D → Result (List (Option (Object D)))
  raw_symbols document = elim document.symbols [
    | none ↦ throw (runtime_error "Invalid symbols")
    | some raw ↦ ok raw
  ]

  -- `max_size` is the length of the longest std::string.
  unfoldable pub parse_host_params : ℕ → Object D → List Symbol → Result (HostParams D)
  parse_host_params max_size host symbols = do
    market_hours_only ←
        parse_value eqb (host.get_bool "market_hours_only") market_hours_only_parser_options
    allow_fractional_shares ←
        parse_value eqb (host.get_bool "allow_fractional_shares")
          allow_fractional_shares_parser_options
    monte_carlo_runs ←
        parse_value eqb_ℤ (host.get_int64 "monte_carlo_runs") monte_carlo_runs_parser_options
    monte_carlo_seed ←
        parse_value eqb_ℤ (host.get_int64 "monte_carlo_seed") monte_carlo_seed_parser_options
    capital ← parse_value str_eq (host.get_string "initial_capital") initial_capital_parser_options
    initial_capital ← parse_microdollars max_size (codes capital)
    backtest_start_datetime ←
        parse_value str_eq (host.get_string "backtest_start_datetime")
          backtest_start_datetime_parser_options
    backtest_end_datetime ←
        parse_value str_eq (host.get_string "backtest_end_datetime")
          backtest_end_datetime_parser_options
    commission ← parse_value eq (host.get_double "commission") commission_parser_options
    commission_type ←
        parse_value str_eq (host.get_string "commission_type") commission_type_parser_options
    slippage ← parse_value eq (host.get_double "slippage") slippage_parser_options
    slippage_model ←
        parse_value str_eq (host.get_string "slippage_model") slippage_model_parser_options
    default_currency ←
        parse_value str_eq (host.get_string "default_currency") default_currency_parser_options
    timezone ← parse_value str_eq (host.get_string "timezone") timezone_parser_options
    optimization_mode ←
        parse_value str_eq (host.get_string "optimization_mode") optimization_mode_parser_options
    position_sizing_method ←
        parse_value str_eq (host.get_string "position_sizing_method")
          position_sizing_method_parser_options
    position_size_value ←
        parse_value eq (host.get_double "position_size_value") position_size_value_parser_options
    max_position_size ←
        parse_value eq (host.get_double "max_position_size") max_position_size_parser_options
    use_stop_loss ← parse_value eqb (host.get_bool "use_stop_loss") use_stop_loss_parser_options
    stop_loss_pct ← parse_value eq (host.get_double "stop_loss_pct") stop_loss_pct_parser_options
    use_take_profit ←
        parse_value eqb (host.get_bool "use_take_profit") use_take_profit_parser_options
    take_profit_pct ←
        parse_value eq (host.get_double "take_profit_pct") take_profit_pct_parser_options
    fill_max_pct_of_volume ←
        parse_value eq (host.get_double "fill_max_pct_of_volume")
          fill_max_pct_of_volume_parser_options
    risk_free_rate ← parse_value eq (host.get_double "risk_free_rate") risk_free_rate_parser_options
    allow_short_selling ←
        parse_value eqb (host.get_bool "allow_short_selling") allow_short_selling_parser_options
    initial_margin_pct ←
        parse_value eq (host.get_double "initial_margin_pct") initial_margin_pct_parser_options
    max_leverage ← parse_value eq (host.get_double "max_leverage") max_leverage_parser_options
    ok (record {
      market_hours_only = some market_hours_only;
      allow_fractional_shares = some allow_fractional_shares;
      monte_carlo_runs = to_int monte_carlo_runs;
      monte_carlo_seed = to_int monte_carlo_seed;
      initial_capital = initial_capital;
      backtest_start_datetime = backtest_start_datetime;
      backtest_end_datetime = backtest_end_datetime;
      commission = some commission;
      commission_type = some commission_type;
      slippage = some slippage;
      slippage_model = some slippage_model;
      default_currency = some default_currency;
      timezone = some timezone;
      optimization_mode = some optimization_mode;
      position_sizing_method = some position_sizing_method;
      position_size_value = some position_size_value;
      max_position_size = some max_position_size;
      use_stop_loss = some use_stop_loss;
      stop_loss_pct = some stop_loss_pct;
      use_take_profit = some use_take_profit;
      take_profit_pct = some take_profit_pct;
      fill_max_pct_of_volume = some fill_max_pct_of_volume;
      risk_free_rate = some risk_free_rate;
      allow_short_selling = some allow_short_selling;
      initial_margin_pct = some initial_margin_pct;
      max_leverage = some max_leverage;
      symbols = symbols;
    })

  unfoldable pub strategy_text : Document D → Result String
  strategy_text document = elim document.strategy_params [
    | none ↦ throw (runtime_error "Error converting strategy params to JSON string")
    | some text ↦ ok text
  ]

  -- An exception leaves the manifest half filled; the caller drops it then.
  unfoldable pub parse_json : ℕ → Document D → Result (PluginManifest D)
  parse_json max_size document = do
    name ← parse_value str_eq (document.doc.get_string "name") name_parser_options
    kind ← parse_value str_eq (document.doc.get_string "kind") kind_parser_options
    entry ← parse_value str_eq (document.doc.get_string "entry") entry_parser_options
    description ←
        parse_value str_eq (document.doc.get_string "description") description_parser_options
    author ← parse_value str_eq (document.doc.get_string "author") author_parser_options
    version ← parse_value str_eq (document.doc.get_string "version") version_parser_options
    api_version ←
        parse_value eqb_ℤ (document.doc.get_int64 "api_version") api_version_parser_options
    raw ← raw_symbols document
    symbols ← parse_symbols raw
    host_params ← parse_host_params max_size document.host symbols
    strategy_params ← strategy_text document
    ok (record {
      api_version = to_int api_version;
      name = name;
      kind = kind;
      entry = entry;
      description = description;
      author = author;
      version = version;
      host_params = host_params;
      strategy_params = strategy_params;
    })
