-- ===== src/Updates/References/Collected.antt =====
-- What the walk over a schema collects: exactly the ids of the references that stand in it.
use mathlib.Core.Bool.{or_assoc}
use api_truth.Prelude.{◌≡◌, refl, Bool, false, ◌||◌, Option, none, some, List, arith}
use api_truth.Prelude.Text.{Str, str_eq}
use api_truth.Prelude.Sets.{has, add, has-add}
use api_truth.Updates.Snapshot.{
  ApiSchema, schema, Properties, end, property, Maybe, absent, present, Schemas, nil, cons,
}
use api_truth.Updates.References.{
  local_component_id, add_reference, collect, collect_properties, collect_maybe, collect_schemas,
}

abbrev names : Option Str → Str → Bool
names none x = false
names (some reference) x = elim (local_component_id reference) [
  | none ↦ false
  | some id ↦ str_eq x id
]

-- `x` is the id of a reference somewhere in the schema.
unfoldable mutual
  pub refers : ApiSchema → Str → Bool
  refers (schema reference properties items prefix additional one any all negated) x =
      refers_maybe negated x
      || (refers_schemas all x
          || (refers_schemas any x
              || (refers_schemas one x
                  || (refers_maybe additional x
                      || (refers_schemas prefix x
                          || (refers_maybe items x
                              || (refers_properties properties x || names reference x)))))))

  pub refers_properties : Properties → Str → Bool
  refers_properties end x = false
  refers_properties (property name value rest) x = refers value x || refers_properties rest x

  pub refers_maybe : Maybe → Str → Bool
  refers_maybe absent x = false
  refers_maybe (present value) x = refers value x

  pub refers_schemas : Schemas → Str → Bool
  refers_schemas nil x = false
  refers_schemas (cons value rest) x = refers value x || refers_schemas rest x

has-add_reference :
    (r : Option Str) (x : Str) (output : List Str)
    → has x (add_reference r output) ≡ (names r x || has x output)
unfolding add_reference
has-add_reference none x output = refl
has-add_reference (some r) x output =
    elim (local_component_id r)
      as (λ o.
        has x (elim o [ none ↦ output | some id ↦ add id output ])
        ≡ ((elim o [ none ↦ false | some id ↦ str_eq x id ]) || has x output)) [
          | none ↦ refl
          | some id ↦ has-add x id output
        ]

mutual
  unfolding collect refers

  has-collect :
      (s : ApiSchema) (x : Str) (output : List Str)
      → has x (collect s output) ≡ (refers s x || has x output)
  has-collect (schema reference properties items prefix additional one any all negated) x output =
      simp (
        has-add_reference,
        has-collect_properties properties,
        has-collect_maybe items,
        has-collect_schemas prefix,
        has-collect_maybe additional,
        has-collect_schemas one,
        has-collect_schemas any,
        has-collect_schemas all,
        has-collect_maybe negated,
        or_assoc,
      )

  has-collect_properties :
      (p : Properties) (x : Str) (output : List Str)
      → has x (collect_properties p output) ≡ (refers_properties p x || has x output)
  has-collect_properties end x output = refl
  has-collect_properties (property name value rest) x output =
      ground
        (arith, has-collect value x output, has-collect_properties rest x (collect value output))

  has-collect_maybe :
      (m : Maybe) (x : Str) (output : List Str)
      → has x (collect_maybe m output) ≡ (refers_maybe m x || has x output)
  has-collect_maybe absent x output = refl
  has-collect_maybe (present value) x output = has-collect value x output

  has-collect_schemas :
      (l : Schemas) (x : Str) (output : List Str)
      → has x (collect_schemas l output) ≡ (refers_schemas l x || has x output)
  has-collect_schemas nil x output = refl
  has-collect_schemas (cons value rest) x output =
      ground (arith, has-collect value x output, has-collect_schemas rest x (collect value output))

-- An id is collected exactly if it was there or a reference in the schema names it.
pub has-collect_lem :
    (s : ApiSchema) (x : Str) (output : List Str)
    → has x (collect s output) ≡ (refers s x || has x output)
has-collect_lem s x output = has-collect s x output
