-- ===== src/Observability/Logger.antt =====
-- The logger of packages/observability/src/index.ts: the records that its sink has been given
-- are a list, and the time of a record is the clock's.
use uscs.Common.{
  ℕ, zero, subst, sym, eq_of_===, suc, ◌⊎◌, String, true, List, [], ◌∷◌, ◌++◌, ltb, ◌===◌,
  if◌then◌else◌, ◌≡◌, refl, arith, Bool-cases, inl, inr,
}
use uscs.Observability.Redact.{
  Value, atom, array, object, Items, no_items, item, is_sensitive_key, Fields, no_fields, field,
  redact,
}
use uscs.Observability.Redaction.{Alike, AlikeItems, AlikeFields, redact_conceals}

pub data Level : Type 0 where
  debug info warn error : Level

abbrev pub level_order : Level → ℕ
level_order debug = 0
level_order info = 1
level_order warn = 2
level_order error = 3

pub record LogRecord : Type 0 where
  pub level : Level
  pub event : String
  pub fields : Value
  pub service : String
  pub time : String

pub record LoggerOptions : Type 0 where
  pub service : String
  pub min_level : Level
  pub base : Fields

-- Assigning a key of an object: an old key keeps its place.
unfoldable pub assign : String → Value → Fields → Fields
assign key v no_fields = field key v no_fields
assign key v (field k w fs) =
    let rest = assign key v fs in if k === key then field k v fs else field k w rest

-- `{ ...base, ...fields }`
unfoldable pub spread : Fields → Fields → Fields
unfolding assign
spread base no_fields = base
spread base (field k v fs) = spread (assign k v base) fs

-- `logRecord` and what `emit` adds to it.
unfoldable pub log_record : LoggerOptions → Level → String → Fields → String → LogRecord
unfolding redact
log_record options level event fields time = record {
  level = level;
  event = event;
  fields = redact (object fields) 0;
  service = options.service;
  time = time;
}

-- The method of a logger that `createLogger` makes.
unfoldable pub emit :
    LoggerOptions → Level → String → Fields → String → List LogRecord → List LogRecord
unfolding log_record spread
emit options level event fields time sunk =
    if ltb (level_order level) (level_order options.min_level)
    then sunk
    else sunk ++ log_record options level event (spread options.base fields) time ∷ []

-- Objects that are alike stay alike under an assignment of values that are alike or secret.
assign-Alike :
    (n : ℕ) (k : String) (v w : Value) (fs gs : Fields)
    → (is_sensitive_key k ≡ true) ⊎ Alike n v w
    → AlikeFields n fs gs
    → AlikeFields n (assign k v fs) (assign k w gs)
unfolding assign Alike
assign-Alike n k v w no_fields no_fields h a = (refl, h, tt)
assign-Alike n k v w no_fields (field l x gs) h a = absurd a
assign-Alike n k v w (field l x fs) no_fields h a = absurd a
assign-Alike n k v w (field l x fs) (field m y gs) h (p, q, a) =
    rw (← p) (elim (Bool-cases (l === k)) [
      | inl e ↦ rw e (
        refl,
        subst (λ t. (is_sensitive_key t ≡ true) ⊎ Alike n v w) (sym (eq_of_=== l k e)) h,
        a,
      )
      | inr e ↦ rw e (refl, q, assign-Alike n k v w fs gs h a)
    ])

spread-Alike :
    (n : ℕ) (fs gs bs cs : Fields)
    → AlikeFields n fs gs
    → AlikeFields n bs cs
    → AlikeFields n (spread bs fs) (spread cs gs)
unfolding spread Alike
spread-Alike n no_fields no_fields bs cs a b = b
spread-Alike n no_fields (field l x gs) bs cs a b = absurd a
spread-Alike n (field l x fs) no_fields bs cs a b = absurd a
spread-Alike n (field l x fs) (field m y gs) bs cs (p, q, a) b =
    rw (← p)
      (spread-Alike n fs gs (assign l x bs) (assign l y cs) a (assign-Alike n l x y bs cs q b))

mutual
  unfolding Alike

  Alike-refl : (n : ℕ) (v : Value) → Alike n v v
  Alike-refl zero v = tt
  Alike-refl (suc n) (atom s) = refl
  Alike-refl (suc n) (array vs) = AlikeItems-refl n vs
  Alike-refl (suc n) (object fs) = AlikeFields-refl n fs

  AlikeItems-refl : (n : ℕ) (vs : Items) → AlikeItems n vs vs
  AlikeItems-refl n no_items = tt
  AlikeItems-refl n (item v vs) = (Alike-refl n v, AlikeItems-refl n vs)

  AlikeFields-refl : (n : ℕ) (fs : Fields) → AlikeFields n fs fs
  AlikeFields-refl n no_fields = tt
  AlikeFields-refl n (field k v fs) = (refl, inr (Alike-refl n v), AlikeFields-refl n fs)

-- Two sets of fields that differ only under sensitive keys, or deeper than eight levels, lead a
-- logger to the same record: what it hands its sink does not depend on a secret value.
pub emit_conceals :
    (options : LoggerOptions) (level : Level) (event time : String) (fs gs : Fields)
    (sunk : List LogRecord)
    → AlikeFields 8 fs gs
    → emit options level event fs time sunk ≡ emit options level event gs time sunk
unfolding emit log_record
emit_conceals options level event time fs gs sunk a =
    let whole =
      spread-Alike 8 fs gs options.base options.base a (AlikeFields-refl 8 options.base) in
    let alike : Alike 9 (object (spread options.base fs)) (object (spread options.base gs)) =
      unfold Alike in whole in
    rw
      (redact_conceals (object (spread options.base fs)) (object (spread options.base gs)) 9 0
        (omega arith) alike)
      refl
