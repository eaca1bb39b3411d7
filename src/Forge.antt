-- ===== src/Forge.antt =====
-- `ForgeEngineBuilder` (src/forge/forge_engine/forge.cpp): how the engine is put together. A pointer that is set
-- counts, not what it points to. The parts that run the plugins are not modelled.
pub mod Built
use quant_forge_quant_resear.Common.{
  ℕ, String, Bool, true, false, Option, none, some, List, [], ◌∷◌, ◌==◌, str_eq, if◌then◌else◌,
}
use quant_forge_quant_resear.Result.{Result, ok, throw, runtime_error, ◌>>=◌}

pub record ThreadPoolOptions : Type 0 where
  pub io_threads : ℕ
  pub compute_threads : ℕ

-- The members that `build` and the builder's calls set; a null pointer is `none`.
pub record ForgeEngine (Provider Client Renderer Manager : Type 0) : Type 0 where
  pub thread_pool_options : ThreadPoolOptions
  pub plugin_manager : Option Manager
  pub has_data_store : Bool
  pub has_report_store : Bool
  pub renderer : Option Renderer
  pub data_provider : Option Provider
  pub http_client_factory : Option Client

pub record ForgeEngineBuilder (Provider Client Renderer Manager : Type 0) : Type 0 where
  pub forge_engine : ForgeEngine Provider Client Renderer Manager
  pub data_provider : Option Provider
  pub plugin_names : List String

abbrev is_null : {A : Type 0} → Option A → Bool
is_null none = true
is_null (some a) = false

abbrev is_empty_list : List String → Bool
is_empty_list [] = true
is_empty_list (name ∷ names) = false

module _ {Provider Client Renderer Manager : Type 0} where
  abbrev pub new_builder : ForgeEngineBuilder Provider Client Renderer Manager
  new_builder = record {
    forge_engine = record {
      thread_pool_options = record { io_threads = 2; compute_threads = 2 };
      plugin_manager = none;
      has_data_store = false;
      has_report_store = false;
      renderer = none;
      data_provider = none;
      http_client_factory = none;
    };
    data_provider = none;
    plugin_names = [];
  }

  unfoldable pub with_data_provider :
      Provider
      → ForgeEngineBuilder Provider Client Renderer Manager
      → ForgeEngineBuilder Provider Client Renderer Manager
  with_data_provider provider b = record b {
    forge_engine = record b.forge_engine { data_provider = some provider };
  }

  unfoldable pub with_http_client_factory :
      Client
      → ForgeEngineBuilder Provider Client Renderer Manager
      → ForgeEngineBuilder Provider Client Renderer Manager
  with_http_client_factory http_client_factory b = record b {
    forge_engine = record b.forge_engine { http_client_factory = some http_client_factory };
  }

  unfoldable pub with_plugin_names :
      List String
      → ForgeEngineBuilder Provider Client Renderer Manager
      → ForgeEngineBuilder Provider Client Renderer Manager
  with_plugin_names plugin_names b = record b { plugin_names = plugin_names }

  unfoldable pub with_thread_pools :
      ThreadPoolOptions
      → ForgeEngineBuilder Provider Client Renderer Manager
      → ForgeEngineBuilder Provider Client Renderer Manager
  with_thread_pools thread_pool_options b = record b {
    forge_engine = record b.forge_engine { thread_pool_options = thread_pool_options };
  }

  unfoldable pub with_renderer :
      Renderer
      → ForgeEngineBuilder Provider Client Renderer Manager
      → ForgeEngineBuilder Provider Client Renderer Manager
  with_renderer renderer b = record b {
    forge_engine = record b.forge_engine { renderer = some renderer };
  }

  unfoldable pub validate :
      ForgeEngineBuilder Provider Client Renderer Manager
      → Result (ForgeEngineBuilder Provider Client Renderer Manager)
  validate b =
      if is_null b.data_provider
      then throw (runtime_error "Data provider is required")
      else if is_null b.forge_engine.http_client_factory
      then throw (runtime_error "HTTP client is required")
      else if is_empty_list b.plugin_names
      then throw (runtime_error "Plugin names are required")
      else if b.forge_engine.thread_pool_options.io_threads == 0
      then throw (runtime_error "IO threads are required")
      else if b.forge_engine.thread_pool_options.compute_threads == 0
      then throw (runtime_error "Compute threads are required")
      else ok b

  -- `manager` makes a PluginManager of the names.
  unfoldable pub build :
      (List String → Manager)
      → ForgeEngineBuilder Provider Client Renderer Manager
      → ForgeEngine Provider Client Renderer Manager
  build manager b = record b.forge_engine {
    plugin_manager = some (manager b.plugin_names);
    has_data_store = true;
    has_report_store = true;
  }

-- `load` is load_plugins_from_dir.
unfoldable pub initialize : {A : Type 0} → (String → Result A) → String → String → Result A
initialize load loader root_path =
    if str_eq loader "directory"
    then load root_path
    else throw (runtime_error "Invalid loader type")
