-- ===== src/Patterns/Registry/Invariant.antt =====
-- What every sequence of registrations keeps.
use enterprise_databrick_fra.Prelude.{
  String, false, Option, none, some, List, [], ◌∷◌, ◌≡◌, ◌⊎◌, inl, inr, arith, string_eq,
  Bool-cases,
}
use enterprise_databrick_fra.Prelude.Dict.{Dict, get, has, put, get-put, get-nil}
use enterprise_databrick_fra.Metadata.Validators.{no_items, is_none}
use enterprise_databrick_fra.Patterns.Contracts.{PatternDefinition, PatternProvider}
use enterprise_databrick_fra.Patterns.Builtins.{builtin_patterns}
use enterprise_databrick_fra.Patterns.Registry.{
  Registry, builtin_registry, by_id, register_definitions, register_provider, add_definition,
}

abbrev pub builtin : String → Option PatternDefinition
builtin id = get id builtin_registry.definitions

-- The definitions stand under their own ids; the built-in ones are unchanged and have no provider,
-- and every other one has a provider with a runtime.
pub record IsConsistent (r : Registry) : Type 0 where
  pub ids : (k : String) (d : PatternDefinition) → get k r.definitions ≡ some d → d.id ≡ k
  pub kept :
      (k : String) (d : PatternDefinition) → builtin k ≡ some d → get k r.definitions ≡ some d
  pub builtin_only :
      (k : String) (d : PatternDefinition) → builtin k ≡ some d → get k r.provider_by_pattern ≡ none
  pub provided :
      (k : String) (d : PatternDefinition)
      → get k r.definitions ≡ some d
      → (builtin k ≡ some d)
        ⊎ ((p : PatternProvider) × (get k r.provider_by_pattern ≡ some p)
            × (is_none p.build_runtime ≡ false))

module _ (p : PatternProvider) (d : PatternDefinition) (r : Registry)
    (runs : is_none p.build_runtime ≡ false) (new : has d.id r.definitions ≡ false)
    (c : IsConsistent r) where
  add_definition-IsConsistent : IsConsistent (add_definition p d r)
  add_definition-IsConsistent = record {
    ids = λ k e h. ground (arith, get-put k d.id d r.definitions, c.ids k e);
    kept = λ k e h. ground (arith, get-put k d.id d r.definitions, c.kept k e);
    builtin_only = λ k e h.
        ground (arith, get-put k d.id p r.provider_by_pattern, c.kept k e, c.builtin_only k e);
    provided = λ k e h. elim (string_eq.dec k d.id) [
      | yes here ↦ inr (p, ground (arith, get-put k d.id p r.provider_by_pattern), runs)
      | no other ↦ elim (c.provided k e (ground (arith, get-put k d.id d r.definitions))) [
        | inl old ↦ inl old
        | inr (q, found, calls) ↦
            inr (q, ground (arith, get-put k d.id p r.provider_by_pattern), calls)
      ]
    ];
  }

register_definitions-IsConsistent :
    (p : PatternProvider) (ds : List PatternDefinition) (r : Registry)
    → is_none p.build_runtime ≡ false
    → IsConsistent r
    → IsConsistent (register_definitions p ds r).1
unfolding register_definitions
register_definitions-IsConsistent p [] r runs c = record {
  ids = c.ids;
  kept = c.kept;
  builtin_only = c.builtin_only;
  provided = c.provided;
}
register_definitions-IsConsistent p (d ∷ ds) r runs c = elim (Bool-cases (has d.id r.definitions)) [
  | inl taken ↦ rw taken c
  | inr new ↦
      rw new (
        register_definitions-IsConsistent p ds _ runs
          (add_definition-IsConsistent p d r runs new c))
]

register_provider-IsConsistent :
    (p : PatternProvider) (r : Registry) → IsConsistent r → IsConsistent (register_provider p r).1
unfolding register_provider
register_provider-IsConsistent p r c = elim (Bool-cases (no_items p.definitions)) [
  | inl empty ↦ rw empty c
  | inr given ↦ elim (Bool-cases (is_none p.build_runtime)) [
    | inl lacking ↦ rw (given, lacking) c
    | inr runs ↦ rw (given, runs) (register_definitions-IsConsistent p p.definitions r runs c)
  ]
]

by_id-ids :
    (d : Dict PatternDefinition) (ps : List PatternDefinition)
    → ((k : String) (e : PatternDefinition) → get k d ≡ some e → e.id ≡ k)
    → (k : String) (e : PatternDefinition) → get k (by_id d ps) ≡ some e
    → e.id ≡ k
by_id-ids d [] h = h
by_id-ids d (p ∷ ps) h =
    by_id-ids (put p.id p d) ps (λ k e found. ground (arith, get-put k p.id p d, h k e))

builtin_registry-IsConsistent : IsConsistent builtin_registry
unfolding builtin_registry
builtin_registry-IsConsistent = record {
  ids = by_id-ids [] builtin_patterns (λ k e found. cc (get-nil {V = PatternDefinition} k));
  kept = λ k d h. h;
  builtin_only = λ k d h. get-nil k;
  provided = λ k d h. inl h;
}

-- The registries that a program can reach: each registration may return or raise.
pub data Reach : Registry → Type 0 where
  start : Reach builtin_registry
  register : {r : Registry} (p : PatternProvider) → Reach r → Reach (register_provider p r).1

-- After any registrations, successful or not, the definitions stand under their own ids, the built-
-- in ones are unchanged and have no provider, and every other one has a provider with a runtime.
pub Reach-IsConsistent : {r : Registry} → Reach r → IsConsistent r
Reach-IsConsistent start = builtin_registry-IsConsistent
Reach-IsConsistent (register p reached) =
    register_provider-IsConsistent p _ (Reach-IsConsistent reached)
