-- ===== src/Forge/Built.antt =====
-- What the builder's calls leave.
use quant_forge_quant_resear.Common.{String, List, [], ◌∷◌, ◌≡◌, refl, ◌∙◌}
use quant_forge_quant_resear.Result.{throw, runtime_error}
use quant_forge_quant_resear.Forge.{
  ThreadPoolOptions, ForgeEngineBuilder, new_builder, with_data_provider, with_http_client_factory,
  with_plugin_names, with_thread_pools, with_renderer, validate,
}

-- A call of the builder but `validate` and `build`.
pub data With (Provider Client Renderer : Type 0) : Type 0 where
  data_provider : Provider → With Provider Client Renderer
  http_client_factory : Client → With Provider Client Renderer
  plugin_names : List String → With Provider Client Renderer
  thread_pools : ThreadPoolOptions → With Provider Client Renderer
  renderer : Renderer → With Provider Client Renderer

module _ {Provider Client Renderer Manager : Type 0} where
  unfoldable pub apply :
      With Provider Client Renderer
      → ForgeEngineBuilder Provider Client Renderer Manager
      → ForgeEngineBuilder Provider Client Renderer Manager
  unfolding with_data_provider with_http_client_factory with_plugin_names with_thread_pools
      with_renderer
  apply (data_provider provider) b = with_data_provider provider b
  apply (http_client_factory client) b = with_http_client_factory client b
  apply (plugin_names names) b = with_plugin_names names b
  apply (thread_pools options) b = with_thread_pools options b
  apply (renderer r) b = with_renderer r b

  unfoldable pub chained :
      List (With Provider Client Renderer)
      → ForgeEngineBuilder Provider Client Renderer Manager
      → ForgeEngineBuilder Provider Client Renderer Manager
  unfolding apply
  chained [] b = b
  chained (call ∷ calls) b = chained calls (apply call b)

  apply-data_provider :
      (call : With Provider Client Renderer)
      (b : ForgeEngineBuilder Provider Client Renderer Manager)
      → (apply call b).data_provider ≡ b.data_provider
  unfolding apply
  apply-data_provider (data_provider provider) b = refl
  apply-data_provider (http_client_factory client) b = refl
  apply-data_provider (plugin_names names) b = refl
  apply-data_provider (thread_pools options) b = refl
  apply-data_provider (renderer r) b = refl

  chained-data_provider :
      (calls : List (With Provider Client Renderer))
      (b : ForgeEngineBuilder Provider Client Renderer Manager)
      → (chained calls b).data_provider ≡ b.data_provider
  unfolding chained
  chained-data_provider [] b = refl
  chained-data_provider (call ∷ calls) b =
      chained-data_provider calls (apply call b) ∙ apply-data_provider call b

  -- Whatever is set on a new builder, a data provider included, `validate` says that there is none.
  pub validate-chained :
      (calls : List (With Provider Client Renderer))
      → validate (chained calls (new_builder {Manager = Manager}))
        ≡ throw (runtime_error "Data provider is required")
  unfolding validate
  validate-chained calls = rw (chained-data_provider calls (new_builder {Manager = Manager})) refl
