-- ===== src/Patterns/Registry/Registration.antt =====
-- When a registration succeeds, and what one that raises leaves behind.
use mathlib.Core.List.{append_assoc, append-nil}
use enterprise_databrick_fra.Prelude.{
  String, ◌<>◌, true, false, Option, none, some, List, [], ◌∷◌, ◌++◌, map, ok, err, value_error,
  ◌≡◌, ◌≢◌, ◌↔◌, inl, inr, refl, sym, ap, ◌∙◌, arith, string_eq, Bool-cases, Each,
}
use enterprise_databrick_fra.Prelude.Dict.{Dict, get, has, put, get-put, put_new}
use enterprise_databrick_fra.Metadata.Validators.{no_items, is_none}
use enterprise_databrick_fra.Patterns.Contracts.{PatternDefinition, PatternProvider}
use enterprise_databrick_fra.Patterns.Registry.{
  Registry, register_definitions, register_provider, add_definition,
}

abbrev pub Distinct : List PatternDefinition → Type 0
Distinct [] = Unit
Distinct (d ∷ ds) = Each (λ e. e.id ≢ d.id) ds × Distinct ds

-- No definition is registered under the id of any of these, and their ids differ.
abbrev pub IsFresh : Dict PatternDefinition → List PatternDefinition → Type 0
IsFresh registered ds = Each (λ e. get e.id registered ≡ none) ds × Distinct ds

-- Definitions as entries of the registry.
abbrev pub entries : List PatternDefinition → Dict PatternDefinition
entries = map (λ d. (d.id, d))

module _ (d : PatternDefinition) (registered : Dict PatternDefinition) where
  Each-put :
      (ds : List PatternDefinition)
      → Each (λ e. get e.id (put d.id d registered) ≡ none) ds
      → Each (λ e. get e.id registered ≡ none) ds × Each (λ e. e.id ≢ d.id) ds
  Each-put [] h = (tt, tt)
  Each-put (e ∷ ds) (h, rest) = (
    (ground (arith, get-put e.id d.id d registered), (Each-put ds rest).0),
    (ground (arith, get-put e.id d.id d registered), (Each-put ds rest).1),
  )

  put-Each :
      (ds : List PatternDefinition)
      → Each (λ e. get e.id registered ≡ none) ds
      → Each (λ e. e.id ≢ d.id) ds
      → Each (λ e. get e.id (put d.id d registered) ≡ none) ds
  put-Each [] h k = tt
  put-Each (e ∷ ds) h k =
      (ground (arith, get-put e.id d.id d registered, h.0, k.0), put-Each ds h.1 k.1)

has-false : (k : String) (d : Dict PatternDefinition) → (has k d ≡ false) ↔ (get k d ≡ none)
has-false k d = ground arith

register_definitions_iff :
    (p : PatternProvider) (ds : List PatternDefinition) (r : Registry)
    → ((register_definitions p ds r).0 ≡ ok tt) ↔ IsFresh r.definitions ds
unfolding register_definitions
register_definitions_iff p [] r = (λ _. (tt, tt), λ _. refl)
register_definitions_iff p (d ∷ ds) r = elim (Bool-cases (has d.id r.definitions)) [
  | inl taken ↦ rw taken (λ h. cc, λ f. cc (sym taken ∙ (has-false _ _).1 f.0.0))
  | inr new ↦
      let rest = register_definitions_iff p ds (add_definition p d r) in
      rw new (
        λ h.
            let (fresh, distinct) = rest.0 h in
            let (old, others) = Each-put d r.definitions ds fresh in
            (((has-false _ _).0 new, old), (others, distinct)),
        λ f. rest.1 (put-Each d r.definitions ds f.0.1 f.1.0, f.1.1),
      )
]

no_items_iff {ℓ} : {A : Type ℓ} (xs : List A) → (no_items xs ≡ false) ↔ (xs ≢ [])
no_items_iff [] = ground arith
no_items_iff (x ∷ xs) = ground arith

is_none_iff {ℓ} : {A : Type ℓ} (o : Option A) → (is_none o ≡ false) ↔ (o ≢ none)
is_none_iff none = ground arith
is_none_iff (some a) = ground arith

register_provider_steps :
    (p : PatternProvider) (r : Registry)
    → ((register_provider p r).0 ≡ ok tt) ↔ (
        (no_items p.definitions ≡ false)
        × (is_none p.build_runtime ≡ false)
        × ((register_definitions p p.definitions r).0 ≡ ok tt))
unfolding register_provider
register_provider_steps p r = ground arith

-- A registration succeeds exactly when the provider has definitions and a runtime, all its ids are
-- new to the registry, and they differ from one another.
pub register_provider_iff :
    (p : PatternProvider) (r : Registry)
    → ((register_provider p r).0 ≡ ok tt)
      ↔ ((p.definitions ≢ []) × (p.build_runtime ≢ none) × IsFresh r.definitions p.definitions)
register_provider_iff p r = (
  λ h.
      let (given, runs, rest) = (register_provider_steps p r).0 h in
      (
        (no_items_iff _).0 given,
        (is_none_iff _).0 runs,
        (register_definitions_iff p p.definitions r).0 rest,
      ),
  λ (given, runs, fresh). (register_provider_steps p r).1 (
    (no_items_iff _).1 given,
    (is_none_iff _).1 runs,
    (register_definitions_iff p p.definitions r).1 fresh,
  ),
)

register_definitions_appends :
    (p : PatternProvider) (ds : List PatternDefinition) (r : Registry)
    → (register_definitions p ds r).0 ≡ ok tt
    → ((register_definitions p ds r).1.definitions ≡ r.definitions ++ entries ds)
      × ((register_definitions p ds r).1.providers ≡ r.providers ++ p ∷ [])
unfolding register_definitions
register_definitions_appends p [] r h = (sym (append-nil r.definitions), refl)
register_definitions_appends p (d ∷ ds) r h = elim (Bool-cases (has d.id r.definitions)) [
  | inl taken ↦ cc (rw taken at h)
  | inr new ↦
      let (defs, provs) = register_definitions_appends p ds (add_definition p d r) (rw new at h) in
      let appended =
        ap (λ l. l ++ entries ds) (put_new d.id d r.definitions ((has-false _ _).0 new)) in
      rw new (defs ∙ appended ∙ append_assoc r.definitions ((d.id, d) ∷ []) (entries ds), provs)
]

-- A successful registration appends the definitions of the provider, in their order, and the
-- provider itself.
pub register_provider_appends :
    (p : PatternProvider) (r : Registry)
    → (register_provider p r).0 ≡ ok tt
    → ((register_provider p r).1.definitions ≡ r.definitions ++ entries p.definitions)
      × ((register_provider p r).1.providers ≡ r.providers ++ p ∷ [])
unfolding register_provider
register_provider_appends p r h =
    let (given, runs, rest) = (register_provider_steps p r).0 h in
    rw (given, runs) (register_definitions_appends p p.definitions r rest)

has-put :
    (k j : String) (d : PatternDefinition) (registered : Dict PatternDefinition)
    → get k registered ≢ none
    → has k (put j d registered) ≡ true
has-put k j d registered h = ground (arith, get-put k j d registered)

register_definitions_two :
    (p : PatternProvider) (d e : PatternDefinition) (ds : List PatternDefinition) (r : Registry)
    → has d.id r.definitions ≡ false
    → has e.id (put d.id d r.definitions) ≡ true
    → register_definitions p (d ∷ e ∷ ds) r
      ≡ (err (value_error ("pattern already registered: " <> e.id)), add_definition p d r)
unfolding register_definitions
register_definitions_two p d e ds r new taken = rw (new, taken)

register_provider_two :
    (p : PatternProvider) (d e : PatternDefinition) (ds : List PatternDefinition) (r : Registry)
    → p.definitions ≡ d ∷ e ∷ ds
    → is_none p.build_runtime ≡ false
    → register_provider p r ≡ register_definitions p (d ∷ e ∷ ds) r
unfolding register_provider
register_provider_two p d e ds r defs runs = rw (defs, runs)

-- A registration with a runtime whose first id is new and whose second id is taken raises, and it
-- leaves the first definition registered with the provider, which is not among the registered
-- providers.
pub register_provider_partial :
    (p : PatternProvider) (d e : PatternDefinition) (ds : List PatternDefinition) (r : Registry)
    → p.definitions ≡ d ∷ e ∷ ds
    → p.build_runtime ≢ none
    → get d.id r.definitions ≡ none
    → get e.id r.definitions ≢ none
    → let after = register_provider p r in
      (after.0 ≡ err (value_error ("pattern already registered: " <> e.id)))
      × (get d.id after.1.definitions ≡ some d)
      × (get d.id after.1.provider_by_pattern ≡ some p)
      × (after.1.providers ≡ r.providers)
register_provider_partial p d e ds r defs runs new taken =
    rw
      (
        register_provider_two p d e ds r defs ((is_none_iff _).1 runs),
        register_definitions_two p d e ds r ((has-false _ _).1 new)
            (has-put e.id d.id d r.definitions taken),
      )
      (
        refl,
        ground (arith, get-put d.id d.id d r.definitions),
        ground (arith, get-put d.id d.id p r.provider_by_pattern),
        refl,
      )
