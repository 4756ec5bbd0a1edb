-- ===== src/Registry/Lifecycle.antt =====
-- internal/registry/lifecycle.go: the hooks that run when a table is enabled or disabled.
-- A hook is code of the user: it reads and changes an environment `E`, and may fail.
use mathlib.Core.Path.{fun_ext}
use shock_absorber.Prelude.{
  Result, ok, err, ℕ, String, ◌≡◌, refl, sym, ap, ◌∙◌, List, [], ◌∷◌, ◌++◌, Option, none, some,
  done, Exec, pure, ◌>>◌, continue, continue_assoc, length, num_eq, if◌then◌else◌,
}
use shock_absorber.Core.{Schema}

-- `handle` is the hook's identity, by which `UnregisterHook` compares.
pub record LifecycleHook (E : Type 0) : Type 0 where
  pub handle : ℕ
  pub on_enable : String → Schema → Exec E (Unit {0})
  pub on_disable : String → Schema → Exec E (Unit {0})

-- LifecycleHookFunc: a nil function is a hook that does nothing.
pub record LifecycleHookFunc (E : Type 0) : Type 0 where
  pub on_enable_func : Option (String → Schema → Exec E (Unit {0}))
  pub on_disable_func : Option (String → Schema → Exec E (Unit {0}))

pub record LifecycleManager (E : Type 0) : Type 0 where
  pub hooks : List (LifecycleHook E)

module _ {E : Type 0} where
  call_or_skip : Option (String → Schema → Exec E (Unit {0})) → String → Schema → Exec E (Unit {0})
  call_or_skip none name schema env = (done, env)
  call_or_skip (some f) name schema env = f name schema env

  pub hook_of_func : ℕ → LifecycleHookFunc E → LifecycleHook E
  hook_of_func handle f = record {
    handle = handle;
    on_enable = call_or_skip f.on_enable_func;
    on_disable = call_or_skip f.on_disable_func;
  }

  unfoldable pub new_lifecycle_manager : LifecycleManager E
  new_lifecycle_manager = record { hooks = [] }

  pub register_hook : LifecycleManager E → LifecycleHook E → LifecycleManager E
  register_hook lm hook = record lm { hooks = lm.hooks ++ hook ∷ [] }

  -- The loop of `UnregisterHook`: the first hook that is the given one goes.
  remove_hook : List (LifecycleHook E) → ℕ → List (LifecycleHook E)
  remove_hook [] handle = []
  remove_hook (h ∷ hs) handle = if num_eq h.handle handle then hs else h ∷ remove_hook hs handle

  pub unregister_hook : LifecycleManager E → LifecycleHook E → LifecycleManager E
  unregister_hook lm hook = record lm { hooks = remove_hook lm.hooks hook.handle }

  unfoldable pub run_enable : List (LifecycleHook E) → String → Schema → Exec E (Unit {0})
  run_enable [] name schema = pure tt
  run_enable (h ∷ hs) name schema = do h.on_enable name schema; run_enable hs name schema

  unfoldable pub run_disable : List (LifecycleHook E) → String → Schema → Exec E (Unit {0})
  run_disable [] name schema = pure tt
  run_disable (h ∷ hs) name schema = do h.on_disable name schema; run_disable hs name schema

  unfoldable pub execute_enable_hooks : LifecycleManager E → String → Schema → Exec E (Unit {0})
  execute_enable_hooks lm = run_enable lm.hooks

  unfoldable pub execute_disable_hooks : LifecycleManager E → String → Schema → Exec E (Unit {0})
  execute_disable_hooks lm = run_disable lm.hooks

  pub clear_hooks : LifecycleManager E → LifecycleManager E
  clear_hooks lm = record lm { hooks = [] }

  pub hook_count : LifecycleManager E → ℕ
  hook_count lm = length lm.hooks

  -- Running the hooks of two lists is running the one, then, if none failed, the other.
  run_enable-append :
      (hs ks : List (LifecycleHook E)) (name : String) (schema : Schema) (env : E)
      → run_enable (hs ++ ks) name schema env
        ≡ (run_enable hs name schema >> run_enable ks name schema) env
  unfolding run_enable
  run_enable-append [] ks name schema env = refl
  run_enable-append (h ∷ hs) ks name schema env =
      ap (continue (h.on_enable name schema env))
        (fun_ext λ _. fun_ext λ env'. run_enable-append hs ks name schema env')
      ∙ sym (
          continue_assoc (h.on_enable name schema env) (λ _. run_enable hs name schema)
            (λ _. run_enable ks name schema))

  run_enable-one :
      (h : LifecycleHook E) (name : String) (schema : Schema) (r : Result (Unit {0}) × E)
      → continue r (λ _. run_enable (h ∷ []) name schema)
        ≡ continue r (λ _. h.on_enable name schema)
  unfolding run_enable
  run_enable-one h name schema (err e, env) = refl
  run_enable-one h name schema (ok _, env) = continue_pure (h.on_enable name schema env)
    where
      continue_pure : (r : Result (Unit {0}) × E) → continue r (λ _. pure tt) ≡ r
      continue_pure (ok tt, env) = refl
      continue_pure (err e, env) = refl

  -- A hook that is registered runs after all that were there, and only if none of them failed.
  pub execute_enable_hooks-register_hook :
      (lm : LifecycleManager E) (h : LifecycleHook E) (name : String) (schema : Schema) (env : E)
      → execute_enable_hooks (register_hook lm h) name schema env
        ≡ (execute_enable_hooks lm name schema >> h.on_enable name schema) env
  unfolding execute_enable_hooks register_hook
  execute_enable_hooks-register_hook lm h name schema env =
      run_enable-append lm.hooks (h ∷ []) name schema env
      ∙ run_enable-one h name schema (run_enable lm.hooks name schema env)
