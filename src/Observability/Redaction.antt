-- ===== src/Observability/Redaction.antt =====
-- What the redaction of packages/observability/src/index.ts hides.
use uscs.Common.{
  ℕ, zero, suc, ◌+◌, String, ◌≡◌, refl, sym, ◌∙◌, ap, ap₂, true, inl, inr, arith, ltb,
  if◌then◌else◌, ◌⊎◌,
}
use uscs.Observability.Redact.{
  Value, atom, array, object, Items, no_items, item, Fields, no_fields, field, redacted, redact,
  redact_items, redact_fields, is_sensitive_key,
}

-- Two values that are the same but for what stands under sensitive keys, and but for what is
-- nested deeper than a number of levels.
unfoldable mutual
  pub Alike : ℕ → Value → Value → Type 0
  Alike zero v w = Unit
  Alike (suc n) (atom s) (atom t) = s ≡ t
  Alike (suc n) (array vs) (array ws) = AlikeItems n vs ws
  Alike (suc n) (object fs) (object gs) = AlikeFields n fs gs
  Alike (suc n) _ _ = ⊥

  pub AlikeItems : ℕ → Items → Items → Type 0
  AlikeItems n no_items no_items = Unit
  AlikeItems n (item v vs) (item w ws) = Alike n v w × AlikeItems n vs ws
  AlikeItems n _ _ = ⊥

  pub AlikeFields : ℕ → Fields → Fields → Type 0
  AlikeFields n no_fields no_fields = Unit
  AlikeFields n (field k v fs) (field l w gs) =
      (k ≡ l) × ((is_sensitive_key k ≡ true) ⊎ Alike n v w) × AlikeFields n fs gs
  AlikeFields n _ _ = ⊥

too_deep : (v : Value) (d : ℕ) → ltb 8 d ≡ true → redact v d ≡ redacted
unfolding redact
too_deep (atom s) d h = rw h refl
too_deep (array vs) d h = rw h refl
too_deep (object fs) d h = rw h refl

hidden_or_same :
    (k : String) (v w : Value)
    → (is_sensitive_key k ≡ true) ⊎ (v ≡ w)
    → (if is_sensitive_key k then redacted else v) ≡ (if is_sensitive_key k then redacted else w)
hidden_or_same k v w (inl h) = rw h refl
hidden_or_same k v w (inr e) = rw e refl

mutual
  unfolding Alike redact

  pub redact_conceals : (v w : Value) (n d : ℕ) → n + d ≡ 9 → Alike n v w → redact v d ≡ redact w d
  redact_conceals (atom s) w zero d e a =
      too_deep (atom s) d (ground arith) ∙ sym (too_deep w d (ground arith))
  redact_conceals (array s) w zero d e a =
      too_deep (array s) d (ground arith) ∙ sym (too_deep w d (ground arith))
  redact_conceals (object s) w zero d e a =
      too_deep (object s) d (ground arith) ∙ sym (too_deep w d (ground arith))
  redact_conceals (atom s) (atom t) (suc n) d e a = rw a refl
  redact_conceals (array vs) (array ws) (suc n) d e a =
      ap (λ x. if ltb 8 d then redacted else array x)
        (redact_items_conceals vs ws n (suc d) (omega (arith, e)) a)
  redact_conceals (object fs) (object gs) (suc n) d e a =
      ap (λ x. if ltb 8 d then redacted else object x)
        (redact_fields_conceals fs gs n (suc d) (omega (arith, e)) a)
  redact_conceals (atom s) (array t) (suc n) d e a = absurd a
  redact_conceals (atom s) (object t) (suc n) d e a = absurd a
  redact_conceals (array s) (atom t) (suc n) d e a = absurd a
  redact_conceals (array s) (object t) (suc n) d e a = absurd a
  redact_conceals (object s) (atom t) (suc n) d e a = absurd a
  redact_conceals (object s) (array t) (suc n) d e a = absurd a

  redact_items_conceals :
      (v w : Items) (n d : ℕ) → n + d ≡ 9 → AlikeItems n v w → redact_items v d ≡ redact_items w d
  redact_items_conceals no_items no_items n d e a = refl
  redact_items_conceals no_items (item w ws) n d e a = absurd a
  redact_items_conceals (item v vs) no_items n d e a = absurd a
  redact_items_conceals (item v vs) (item w ws) n d e (a, b) =
      ap₂ item (redact_conceals v w n d e a) (redact_items_conceals vs ws n d e b)

  redact_fields_conceals :
      (v w : Fields) (n d : ℕ)
      → n + d ≡ 9
      → AlikeFields n v w
      → redact_fields v d ≡ redact_fields w d
  redact_fields_conceals no_fields no_fields n d e a = refl
  redact_fields_conceals no_fields (field k w ws) n d e a = absurd a
  redact_fields_conceals (field k v vs) no_fields n d e a = absurd a
  redact_fields_conceals (field k v vs) (field l w ws) n d e (p, inl h, b) = rw (← p) (
      ap₂ (field k) (hidden_or_same k (redact v d) (redact w d) (inl h))
        (redact_fields_conceals vs ws n d e b))
  redact_fields_conceals (field k v vs) (field l w ws) n d e (p, inr a, b) = rw (← p) (
      ap₂ (field k) (hidden_or_same k (redact v d) (redact w d) (inr (redact_conceals v w n d e a)))
        (redact_fields_conceals vs ws n d e b))
