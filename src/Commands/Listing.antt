-- ===== src/Commands/Listing.antt =====
-- What `edp patterns` lists.
use mathlib.Core.List.{Perm, Mem, mem-cons}
use mathlib.Core.List.Perm
use mathlib.Core.Path.{subst}
use mathlib.Core.Logic.Or
use enterprise_databrick_fra.Prelude.{
  String, true, some, List, [], ◌∷◌, map, Result, ok, ◌≡◌, refl, arith, Each, >>=-eq-ok, >>-eq-ok,
  string_eq,
}
use enterprise_databrick_fra.Prelude.Dict.{Dict, get, put, values}
use enterprise_databrick_fra.Prelude.Sorting.{sort_by-perm, sort_by-IsSorted, IsSorted}
use enterprise_databrick_fra.Prelude.Text.Order.{le_text_total, le_text_trans}
use enterprise_databrick_fra.Patterns.Contracts.{PatternDefinition, PatternProvider}
use enterprise_databrick_fra.Patterns.Builtins.{builtin_patterns}
use enterprise_databrick_fra.Patterns.Registry.{
  Registry, builtin_registry, register_provider, load_entry_points, pattern_registry, definitions,
}
use enterprise_databrick_fra.Patterns.Registry.Invariant.{
  Reach, start, register, Reach-IsConsistent, builtin,
}
use enterprise_databrick_fra.Commands.{Files, patterns, le_id, listed, pattern_line, main}

-- The registry that the entry points make is one of those that registrations reach.
load_entry_points-Reach :
    (entry_points : List (Result PatternProvider)) (r registry : Registry)
    → Reach r
    → load_entry_points entry_points r ≡ ok registry
    → Reach registry
unfolding load_entry_points
load_entry_points-Reach [] r registry reached h =
    let same : r ≡ registry = ground arith in subst Reach same reached
load_entry_points-Reach (loaded ∷ entry_points) r registry reached h =
    let (provider, e, h1) = >>=-eq-ok loaded _ h in
    let (u, h2) = >>-eq-ok (register_provider provider r).0 _ h1 in
    load_entry_points-Reach entry_points (register_provider provider r).1 registry
      (register provider reached) h2

Mem-values {ℓ} :
    {V : Type ℓ} (k : String) (v : V) (d : Dict V) → get k d ≡ some v → Mem v (values d)
unfolding get
Mem-values k v [] h = absurd (cc)
Mem-values k v ((j, w) ∷ d) h = elim (string_eq.dec k j) [
  | yes same ↦ mem-cons.1 (Or.inl (let e : v ≡ w = ground arith in e))
  | no other ↦ mem-cons.1 (Or.inr (Mem-values k v d (ground arith)))
]

builtin_patterns_kept : Each (λ p. builtin p.id ≡ some p) builtin_patterns
unfolding builtin_registry builtin_patterns get put string_eq
builtin_patterns_kept = search (refl, tt)

-- Every built-in pattern is among the definitions of a registry that registrations reach.
Mem-listed :
    (registry : Registry) (ps : List PatternDefinition)
    → Reach registry
    → Each (λ p. builtin p.id ≡ some p) ps
    → Each (λ p. Mem p (listed registry)) ps
unfolding listed definitions
Mem-listed registry [] reached each = tt
Mem-listed registry (p ∷ ps) reached each = (
  Perm.subset (Perm.symm (sort_by-perm le_id (values registry.definitions))) p
      (Mem-values p.id p registry.definitions ((Reach-IsConsistent reached).kept p.id p each.0)),
  Mem-listed registry ps reached each.1,
)

module _ (files : Files) (entry_points : List (Result PatternProvider)) (registry : Registry) where
  -- If the entry points make a registry, the command patterns prints a line for each definition of
  -- the registry; the definitions are sorted by their ids and rearranged only, and every built-in
  -- pattern is among them.
  pub main_patterns :
      pattern_registry true entry_points ≡ ok registry
      → (main files entry_points patterns ≡ ok (map pattern_line (listed registry)))
        × Perm (listed registry) (definitions registry)
        × IsSorted le_id (listed registry)
        × Each (λ p. Mem p (listed registry)) builtin_patterns
  unfolding main pattern_registry listed definitions
  main_patterns h = (
    rw h refl,
    sort_by-perm le_id (values registry.definitions),
    sort_by-IsSorted le_id (λ a b. le_text_total a.id b.id) (λ a b c. le_text_trans a.id b.id c.id)
        (values registry.definitions),
    Mem-listed registry builtin_patterns
        (load_entry_points-Reach entry_points builtin_registry registry start h)
        builtin_patterns_kept,
  )
