-- ===== src/Security/Incidents/Lifecycle.antt =====
-- apps/security-control/src/index.ts: no incident is closed silently, and a closed one stays closed.
use uscs.Common.{
  ℕ, String, true, false, Option, none, some, List, [], ◌∷◌, ◌++◌, ◌≡◌, ◌≢◌, refl, subst, ap, sym,
  ◌∙◌, ◌⊎◌, inl, inr, arith, All, Bool-cases, ◌==◌, is_blank, false≢true, get_or_else,
}
use uscs.Security.Incidents.{
  Incident, IncidentTracker, OpenInput, Closing, as_resolved, as_false_positive, is_untriaged,
  is_incident_open, lookup, put, open_incident, triaged, closed, triage, close, triage_found,
  close_found,
}

-- An open incident has no resolution; a closed one has a resolution that says something, and the
-- time of its closing.
abbrev pub IsSound : Incident → Type 0
IsSound incident =
    ((is_incident_open incident ≡ true)
      × (incident.resolution ≡ none)
      × (incident.closed_at ≡ none))
    ⊎ ((is_incident_open incident ≡ false)
        × ((text : String) × (incident.resolution ≡ some text) × (is_blank text ≡ false))
        × ((at : ℕ) × (incident.closed_at ≡ some at)))

some-inj : {A : Type 0} {a b : A} → some a ≡ some b → a ≡ b
some-inj {a = a} e = ap (λ o. get_or_else o a) e

-- A call of the tracker that changes it, or may.
pub data Step : IncidentTracker → IncidentTracker → Type 0 where
  opens : (now : ℕ) (input : OpenInput) (t : IncidentTracker) → Step t (open_incident now input t).1
  triages : (i : ℕ) (t : IncidentTracker) → Step t (triage i t).1
  closes :
      (now i : ℕ) (resolution : String) (outcome : Closing) (t : IncidentTracker)
      → Step t (close now i resolution outcome t).1

pub data Reaches : IncidentTracker → IncidentTracker → Type 0 where
  stays : {t : IncidentTracker} → Reaches t t
  steps : {t u v : IncidentTracker} → Step t u → Reaches u v → Reaches t v

lookup-append :
    (i : ℕ) (xs ys : List Incident) (c : Incident)
    → lookup i xs ≡ some c
    → lookup i (xs ++ ys) ≡ some c
unfolding lookup
lookup-append i [] ys c e = cc
lookup-append i (x ∷ xs) ys c e = ground (arith, lookup-append i xs ys c)

lookup-id : (i : ℕ) (xs : List Incident) (c : Incident) → lookup i xs ≡ some c → c.id ≡ i
unfolding lookup
lookup-id i [] c e = cc
lookup-id i (x ∷ xs) c e = ground (arith, lookup-id i xs c, ap (λ (d : Incident). d.id))

lookup-put_ne :
    (i : ℕ) (xs : List Incident) (new : Incident) → i ≢ new.id → lookup i (put new xs) ≡ lookup i xs
unfolding lookup put
lookup-put_ne i [] new ne = refl
lookup-put_ne i (x ∷ xs) new ne = ground (arith, lookup-put_ne i xs new)

All-lookup :
    (i : ℕ) (xs : List Incident) (c : Incident) → All IsSound xs → lookup i xs ≡ some c → IsSound c
unfolding lookup
All-lookup i [] c h e = cc
All-lookup i (x ∷ xs) c h e = elim (Bool-cases (x.id == i)) [
  | inl same ↦ subst IsSound (some-inj (rw same at e)) h.0
  | inr other ↦ All-lookup i xs c h.1 (rw other at e)
]

All-put :
    (new : Incident) (xs : List Incident) → All IsSound xs → IsSound new → All IsSound (put new xs)
unfolding put
All-put new [] h p = tt
All-put new (x ∷ xs) h p = elim (Bool-cases (x.id == new.id)) [
  | inl same ↦ rw same (p, h.1)
  | inr other ↦ rw other (h.0, All-put new xs h.1 p)
]

All-append_one :
    (xs : List Incident) (c : Incident) → All IsSound xs → IsSound c → All IsSound (xs ++ (c ∷ []))
All-append_one [] c h p = (p, tt)
All-append_one (x ∷ xs) c h p = (h.0, All-append_one xs c h.1 p)

-- An incident that is found is kept unless it is open, and only a sound one replaces it.
open-IsSound :
    (c : Incident)
    → IsSound c
    → is_incident_open c ≡ true
    → (c.resolution ≡ none) × (c.closed_at ≡ none)
open-IsSound c (inl (_, bare, unclosed)) e = (bare, unclosed)
open-IsSound c (inr (shut, _, _)) e = absurd (false≢true (sym shut ∙ e))

untriaged-open : (c : Incident) → is_untriaged c.state ≡ true → is_incident_open c ≡ true
untriaged-open c e = ground arith

closed-IsSound :
    (now : ℕ) (text : String) (outcome : Closing) (c : Incident)
    → is_blank text ≡ false
    → IsSound (closed now text outcome c)
closed-IsSound now text as_resolved c says = inr (refl, (text, refl, says), (now, refl))
closed-IsSound now text as_false_positive c says = inr (refl, (text, refl, says), (now, refl))

triage_found-IsSound :
    (i : ℕ) (t : IncidentTracker) (o : Option Incident)
    → All IsSound t.by_id
    → lookup i t.by_id ≡ o
    → All IsSound (triage_found o t).1.by_id
triage_found-IsSound i t none h e = h
triage_found-IsSound i t (some c) h e = elim (Bool-cases (is_untriaged c.state)) [
  | inl new ↦ rw new (
      let (bare, unclosed) = open-IsSound c (All-lookup i t.by_id c h e) (untriaged-open c new) in
      All-put (triaged c) t.by_id h (inl (refl, bare, unclosed)))
  | inr old ↦ rw old h
]

close_found-IsSound :
    (now : ℕ) (text : String) (outcome : Closing) (t : IncidentTracker) (o : Option Incident)
    → All IsSound t.by_id
    → All IsSound (close_found now text outcome o t).1.by_id
close_found-IsSound now text outcome t none h = h
close_found-IsSound now text outcome t (some c) h = elim (Bool-cases (is_incident_open c)) [
  | inl going ↦ elim (Bool-cases (is_blank text)) [
    | inl blank ↦ rw (going, blank) h
    | inr says ↦ rw (going, says) (All-put _ t.by_id h (closed-IsSound now text outcome c says))
  ]
  | inr shut ↦ rw shut h
]

Step-IsSound : {t u : IncidentTracker} → Step t u → All IsSound t.by_id → All IsSound u.by_id
unfolding open_incident triage close
Step-IsSound (opens now input t) h = All-append_one t.by_id _ h (inl (refl, refl, refl))
Step-IsSound (triages i t) h = triage_found-IsSound i t _ h refl
Step-IsSound (closes now i text outcome t) h = close_found-IsSound now text outcome t _ h

-- Opening, triaging and closing keep every incident sound: an open one has no resolution and no
-- closing time, a closed one has both, and its resolution is not blank.
pub incidents-IsSound :
    (t u : IncidentTracker) → Reaches t u → All IsSound t.by_id → All IsSound u.by_id
incidents-IsSound t _ stays h = h
incidents-IsSound t v (steps {u = u} s r) h = incidents-IsSound u v r (Step-IsSound s h)

put-keeps :
    (i j : ℕ) (xs : List Incident) (c d new : Incident)
    → lookup i xs ≡ some c
    → lookup j xs ≡ some d
    → new.id ≡ d.id
    → is_incident_open c ≡ false
    → is_incident_open d ≡ true
    → lookup i (put new xs) ≡ some c
put-keeps i j xs c d new found found' same shut going =
    lookup-put_ne i xs new (λ e. absurd (
      false≢true (
        sym shut
        ∙ ap is_incident_open (
            some-inj
              (sym found ∙ ap (λ k. lookup k xs) (e ∙ same ∙ lookup-id j xs d found') ∙ found'))
        ∙ going)))
    ∙ found

triage_found-keeps :
    (i j : ℕ) (t : IncidentTracker) (c : Incident) (o : Option Incident)
    → lookup i t.by_id ≡ some c
    → is_incident_open c ≡ false
    → lookup j t.by_id ≡ o
    → lookup i (triage_found o t).1.by_id ≡ some c
triage_found-keeps i j t c none found shut e = found
triage_found-keeps i j t c (some d) found shut e = elim (Bool-cases (is_untriaged d.state)) [
  | inl new ↦
      rw new (put-keeps i j t.by_id c d (triaged d) found e refl shut (untriaged-open d new))
  | inr old ↦ rw old found
]

close_found-keeps :
    (now : ℕ) (text : String) (outcome : Closing) (i j : ℕ) (t : IncidentTracker) (c : Incident)
    (o : Option Incident)
    → lookup i t.by_id ≡ some c
    → is_incident_open c ≡ false
    → lookup j t.by_id ≡ o
    → lookup i (close_found now text outcome o t).1.by_id ≡ some c
close_found-keeps now text outcome i j t c none found shut e = found
close_found-keeps now text outcome i j t c (some d) found shut e =
    elim (Bool-cases (is_incident_open d)) [
      | inl going ↦ elim (Bool-cases (is_blank text)) [
        | inl blank ↦ rw (going, blank) found
        | inr says ↦
            rw (going, says)
              (put-keeps i j t.by_id c d (closed now text outcome d) found e refl shut going)
      ]
      | inr over ↦ rw over found
    ]

Step-keeps :
    {t u : IncidentTracker} (i : ℕ) (c : Incident)
    → Step t u
    → lookup i t.by_id ≡ some c
    → is_incident_open c ≡ false
    → lookup i u.by_id ≡ some c
unfolding open_incident triage close
Step-keeps i c (opens now input t) found shut = lookup-append i t.by_id _ c found
Step-keeps i c (triages j t) found shut = triage_found-keeps i j t c _ found shut refl
Step-keeps i c (closes now j text outcome t) found shut =
    close_found-keeps now text outcome i j t c _ found shut refl

-- An incident that is closed is never changed again, whatever incidents are opened, triaged or
-- closed afterwards.
pub closed_stays :
    (t u : IncidentTracker) (i : ℕ) (c : Incident)
    → Reaches t u
    → lookup i t.by_id ≡ some c
    → is_incident_open c ≡ false
    → lookup i u.by_id ≡ some c
closed_stays t _ i c stays found shut = found
closed_stays t v i c (steps {u = u} s r) found shut =
    closed_stays u v i c r (Step-keeps i c s found shut) shut
