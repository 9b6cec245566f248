-- ===== src/EnvSync/Skips.antt =====
-- env-sync.ts: a variable that does not decrypt is never written.
use uscs.Common.{
  String, Bool, Option, none, some, List, [], ◌∷◌, filter, is_some, if◌then◌else◌, ◌≡◌, refl, sym,
  ap, ◌∙◌,
}
use uscs.Contracts.{ProviderRef}
use uscs.Io.{Io, Ending, returns, raises, ◌>>◌, then_do}
use uscs.Deployment.Engine.{AdapterContext}
use uscs.EnvSync.{StoredVariable, EnvVarState, EnvSyncDeps, push_variable, push_all}

module _ {W : Type 0} (deps : EnvSyncDeps W) (ctx : AdapterContext) (application : ProviderRef)
    (project_id environment_id : String) where
  -- Does the variable decrypt?
  abbrev pub is_readable : StoredVariable → Bool
  is_readable variable = is_some (deps.decrypt variable.value_encrypted)

  same_rest :
      (a b : Io W (Unit {0})) (r : Ending (Unit {0})) (w : W)
      → ((v : W) → a v ≡ b v)
      → then_do (λ _. a) r w ≡ then_do (λ _. b) r w
  same_rest a b (returns tt) w same = same w
  same_rest a b (raises e) w same = refl

  push_one :
      (existing : List EnvVarState) (variable : StoredVariable) (rest : List StoredVariable)
      (o : Option String) (w : W)
      → deps.decrypt variable.value_encrypted ≡ o
      → ((v : W)
          → push_all deps ctx application project_id environment_id existing rest v
            ≡ push_all deps ctx application project_id environment_id existing
                (filter is_readable rest)
                v)
      → (push_variable deps ctx application project_id environment_id existing variable o
            >> push_all deps ctx application project_id environment_id existing rest)
          w
        ≡ push_all deps ctx application project_id environment_id existing
            (if is_some o then variable ∷ filter is_readable rest else filter is_readable rest)
            w
  unfolding push_all
  push_one existing variable rest none w e same = same w
  push_one existing variable rest (some value) w e same =
      same_rest (push_all deps ctx application project_id environment_id existing rest)
        (push_all deps ctx application project_id environment_id existing (filter is_readable rest))
        _ _ same
      ∙ ap
          (λ o.
            (push_variable deps ctx application project_id environment_id existing variable o
                >> push_all deps ctx application project_id environment_id existing
                    (filter is_readable rest))
              w)
          (sym e)

  -- Pushing the stored variables does exactly what pushing only those that decrypt does: one that
  -- does not is never written, and does not stop the others.
  pub push_all-filter :
      (existing : List EnvVarState) (stored : List StoredVariable) (w : W)
      → push_all deps ctx application project_id environment_id existing stored w
        ≡ push_all deps ctx application project_id environment_id existing
            (filter is_readable stored)
            w
  unfolding push_all
  push_all-filter existing [] w = refl
  push_all-filter existing (variable ∷ rest) w =
      push_one existing variable rest (deps.decrypt variable.value_encrypted) w refl
        (λ v. push_all-filter existing rest v)
