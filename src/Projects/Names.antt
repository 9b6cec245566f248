-- ===== src/Projects/Names.antt =====
-- What names a deployed project's application, which a change of the project in
-- apps/api/src/procedures/organizations.ts leaves alone.
use uscs.Common.{
  String, true, false, Option, none, some, ◌≡◌, sym, ap, subst, ◌∙◌, arith, ◌===◌, Bool-cases, inl,
  inr, eq_of_===,
}
use uscs.Api.Action.{Result, value, throws, raise_if, lift}
use uscs.Api.Guard.{RequestContext, require_capability}
use uscs.Api.Audit.{found_or, require}
use uscs.Api.Returning.{
  Returning, >>=-Returning, holds-Returning, found_or-value, raise_if-value, require-value,
}
use uscs.Requests.{project_not_found}
use uscs.Projects.{
  Project, UpdateInput, ProjectDeps, is_slug, checked_name, checked_slug, parse_execution_model,
  is_empty_update, nothing_given, fixed_root, fixed_slug, is_deployed, slug_moves, root_moves,
  root_given, update_of, write_update, apply_update, update_project,
}

checked_slug-value :
    (given slug : Option String) (s : String)
    → checked_slug given ≡ value slug
    → given ≡ some s
    → (slug ≡ some s) × (is_slug s ≡ true)
unfolding checked_slug
checked_slug-value none slug s h e = cc
checked_slug-value (some t) slug s h e = elim (Bool-cases (is_slug t)) [
  | inl k ↦
      let kept : value (some t) ≡ value slug = simp k at h in
      (
        sym (ap (λ (r : Result (Option String)). elim r [ value x ↦ x | throws _ ↦ slug ]) kept)
            ∙ e,
        subst (λ (o : Option String). elim o [ some x ↦ is_slug x ≡ true | none ↦ Unit {0} ]) e k,
      )
  | inr k ↦ cc (simp k at h)
]

slug_moves-kept :
    (existing : Project) (slug : Option String) (s : String)
    → slug ≡ some s
    → slug_moves existing slug ≡ false
    → is_deployed existing ≡ true
    → s ≡ existing.slug
slug_moves-kept existing none s e h d = cc
slug_moves-kept existing (some t) s e h d = elim (Bool-cases (t === existing.slug)) [
  | inl k ↦
      sym (ap (λ (o : Option String). elim o [ some x ↦ x | none ↦ s ]) e)
      ∙ eq_of_=== t existing.slug k
  | inr k ↦ ground (arith, h, d, k)
]

module _ {W : Type 0} (deps : ProjectDeps W) where
  -- A change of a project that was made: the slug is well formed, and that of a deployed project is
  -- the one that it had.
  pub record Renamed (ctx : RequestContext) (input : UpdateInput) : Type 0 where
    pub existing : Project
    pub before : W
    pub afterwards : W
    pub found :
        deps.get_project ctx.principal.user_id input.project_id before
        ≡ (value (some existing), afterwards)
    pub permitted : require_capability ctx existing.organization_id "project:update" ≡ value tt
    pub well_formed : (s : String) → input.slug ≡ some s → is_slug s ≡ true
    pub slug_kept :
        (s : String) → input.slug ≡ some s → is_deployed existing ≡ true → s ≡ existing.slug

  abbrev Kept : Project → UpdateInput → Type 0
  Kept existing input =
      (s : String)
      → input.slug ≡ some s
      → (is_slug s ≡ true) × (is_deployed existing ≡ true → s ≡ existing.slug)

  first : {A : Type 0} (r : Result A) (a : A) (w w' : W) → lift r w ≡ (value a, w') → r ≡ value a
  first {A} r a w w' e = ap (λ (q : Result A × W). q.0) e

  apply-Returning :
      (ctx : RequestContext) (existing : Project) (input : UpdateInput)
      → Returning (λ _. Kept existing input) (apply_update deps ctx existing input)
  unfolding apply_update
  apply-Returning ctx existing input =
      >>=-Returning _ (raise_if (is_empty_update input) nothing_given) _ (λ a v v' e.
        >>=-Returning _ (lift (checked_name input.name)) _ (λ name u u' f.
          >>=-Returning _ (lift (checked_slug input.slug)) _ (λ slug t t' g.
            >>=-Returning _ (lift (parse_execution_model input.execution_model)) _ (λ model p p' j.
              >>=-Returning _ (lift (root_given input.root_directory)) _ (λ root s s' h.
                >>=-Returning _ (raise_if (root_moves existing root) fixed_root) _ (λ b r r' k.
                  >>=-Returning _ (raise_if (slug_moves existing slug) fixed_slug) _ (λ c q q' l.
                    holds-Returning
                      (write_update deps ctx (update_of deps existing input name slug model root))
                      (λ given m.
                        let (here, formed) =
                          checked_slug-value input.slug slug given
                            (first (checked_slug input.slug) slug t t' g) m in
                        (
                          formed,
                          λ d.
                              slug_moves-kept existing slug given here
                                (raise_if-value _ fixed_slug c q q' l) d,
                        )))))))))

  renamed :
      (ctx : RequestContext) (input : UpdateInput) (existing : Project)
      → (Kept existing input → Renamed ctx input)
      → Returning (λ _. Renamed ctx input) (apply_update deps ctx existing input)
  renamed ctx input existing h = record {
    gives = λ w w' a e. h ((apply-Returning ctx existing input).gives w w' a e);
  }

  update-Returning :
      (ctx : RequestContext) (input : UpdateInput)
      → Returning (λ _. Renamed ctx input) (update_project deps ctx input)
  unfolding update_project
  update-Returning ctx input =
      >>=-Returning _ (deps.get_project ctx.principal.user_id input.project_id) _ (λ o v v' e.
        >>=-Returning _ (found_or o project_not_found) _ (λ existing u u' f.
          >>=-Returning _ (require ctx existing.organization_id "project:update") _ (λ a t t' g.
            renamed ctx input existing (λ k. record {
              existing = existing;
              before = v;
              afterwards = v';
              found =
                  e ∙ ap (λ x. (value x, v')) (found_or-value o project_not_found existing u u' f);
              permitted = require-value ctx existing.organization_id "project:update" a t t' g;
              well_formed = λ s m. (k s m).0;
              slug_kept = λ s m. (k s m).1;
            }))))

  -- If a change of a project returns, then the caller has the capability `project:update` in the
  -- organization of the project that the store gave, a new slug is well formed, and the slug of a
  -- project whose application exists on the engine is the one that it had.
  pub update_project-Renamed :
      (ctx : RequestContext) (input : UpdateInput) (updated : Project) (w w' : W)
      → update_project deps ctx input w ≡ (value updated, w')
      → Renamed ctx input
  update_project-Renamed ctx input updated w w' h =
      (update-Returning ctx input).gives w w' updated h
