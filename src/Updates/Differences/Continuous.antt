-- ===== src/Updates/Differences/Continuous.antt =====
-- packages/updates/src/differences.ts: an endpoint's route does not differ from itself.
use api_truth.Prelude.{
  false, ◌≡◌, refl, ◌∙◌, none, some, List, [], ◌∷◌, arith, inl, inr, Bool-cases,
}
use api_truth.Prelude.Text.{Str, str_eq, str_eq_refl, str_eq_iff, str_eq_sym}
use api_truth.Prelude.Sets.{lookup, alter}
use api_truth.Updates.Differences.Facts.{Endpoint}
use api_truth.Updates.Differences.Canonical.{put_all}
use api_truth.Updates.Differences.Endpoints.{endpoints_by_id, route_identity_key}
use api_truth.Updates.Differences.ClaimDrafts.{discontinuous_endpoint_ids}

-- Every entry of the first map is found in the second.
abbrev Found : List (Str × Endpoint) → List (Str × Endpoint) → Type 0
Found [] m = Unit
Found ((k, v) ∷ l) m = (lookup k m ≡ some v) × Found l m

abbrev Distinct : {V : Type 0} → List (Str × V) → Type 0
Distinct [] = Unit
Distinct ((k, v) ∷ m) = (lookup k m ≡ none) × Distinct m

lookup-alter_other :
    {V : Type 0} (j k : Str) (initial : V) (change : V → V) (m : List (Str × V))
    → str_eq j k ≡ false
    → lookup j (alter k initial change m) ≡ lookup j m
unfolding lookup alter
lookup-alter_other j k initial change [] h = rw h refl
lookup-alter_other j k initial change ((i, v) ∷ m) h = elim (Bool-cases (str_eq k i)) [
  | inl same ↦ ground (arith, h, same, str_eq_iff k i)
  | inr new ↦ ground (arith, new, lookup-alter_other j k initial change m h)
]

alter-Distinct :
    {V : Type 0} (k : Str) (initial : V) (change : V → V) (m : List (Str × V))
    → Distinct m
    → Distinct (alter k initial change m)
unfolding alter
alter-Distinct k initial change [] d = unfold lookup in (refl, tt)
alter-Distinct k initial change ((i, v) ∷ m) d = elim (Bool-cases (str_eq k i)) [
  | inl same ↦ rw same d
  | inr new ↦ rw new (
    lookup-alter_other i k initial change m (str_eq_sym i k ∙ new) ∙ d.0,
    alter-Distinct k initial change m d.1,
  )
]

put_all-Distinct :
    {V : Type 0} (key : V → Str) (l : List V) (m : List (Str × V))
    → Distinct m
    → Distinct (put_all key l m)
unfolding put_all
put_all-Distinct key [] m d = d
put_all-Distinct key (x ∷ l) m d =
    put_all-Distinct key l (alter (key x) x (λ old. x) m) (alter-Distinct (key x) x (λ old. x) m d)

Found-weaken :
    (k : Str) (v : Endpoint) (l m : List (Str × Endpoint))
    → lookup k m ≡ none
    → Found l m
    → Found l ((k, v) ∷ m)
unfolding lookup
Found-weaken k v [] m h f = tt
Found-weaken k v ((j, w) ∷ l) m h f = elim (Bool-cases (str_eq j k)) [
  | inl same ↦ ground (arith, same, str_eq_iff j k)
  | inr new ↦ (rw new f.0, Found-weaken k v l m h f.1)
]

Distinct-Found : (m : List (Str × Endpoint)) → Distinct m → Found m m
Distinct-Found [] d = tt
Distinct-Found ((k, v) ∷ m) d =
    (unfold lookup in rw (str_eq_refl k) refl, Found-weaken k v m m d.0 (Distinct-Found m d.1))

discontinuous_endpoint_ids-Found :
    (l m : List (Str × Endpoint)) → Found l m → discontinuous_endpoint_ids l m ≡ []
unfolding discontinuous_endpoint_ids
discontinuous_endpoint_ids-Found [] m f = refl
discontinuous_endpoint_ids-Found ((k, v) ∷ l) m f =
    ground
      (arith, f.0, str_eq_refl (route_identity_key v), discontinuous_endpoint_ids-Found l m f.1)

pub discontinuous_endpoint_ids_same :
    (l : List Endpoint) → discontinuous_endpoint_ids (endpoints_by_id l) (endpoints_by_id l) ≡ []
unfolding endpoints_by_id
discontinuous_endpoint_ids_same l =
    let id : Endpoint → Str = λ e. e.endpoint_id in
    let ids = put_all id l [] in
    discontinuous_endpoint_ids-Found ids ids (Distinct-Found ids (put_all-Distinct id l [] tt))
