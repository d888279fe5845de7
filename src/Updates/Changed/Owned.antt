-- ===== src/Updates/Changed/Owned.antt =====
-- Which endpoints the records on a changed path are owned by.
use api_truth.Prelude.{
  ◌≡◌, refl, ap, Bool, ◌&&◌, ◌||◌, List, [], ◌∷◌, map, any, any_ext, filter, arith, if◌then◌else◌,
}
use api_truth.Prelude.Text.{Str, lit, str_eq}
use api_truth.Prelude.Sets.{has, add_all, has-add_all}
use api_truth.Updates.Snapshot.{ContractSnapshot, Evidence, SchemaComponent}
use api_truth.Updates.Ownership.{OwnershipIndex}
use api_truth.Updates.Changed.{
  Records, evidence_owners, schema_owners, on_path, schema_on_path, evidence_affected,
  schemas_affected, whole_service, one_file, changed_records, service_relative_path, gather,
}

or_move : (a b c : Bool) → (a || (b || c)) ≡ (b || a || c)
or_move a b c = ground arith

has-map-filter {ℓ} :
    {A : Type ℓ} (id : Str) (f : A → Str) (p : A → Bool) (l : List A)
    → has id (map f (filter p l)) ≡ any (λ a. p a && str_eq id (f a)) l
unfolding has
has-map-filter id f p [] = refl
has-map-filter id f p (a ∷ l) = ground (arith, has-map-filter id f p l)

module _ (snapshot : ContractSnapshot) (index : OwnershipIndex) where
  -- Records of evidence on `path` that `x` owns.
  abbrev owns_evidence : Str → Str → Evidence → Bool
  owns_evidence path x e =
      on_path snapshot index path e && has x (evidence_owners snapshot index e.evidence_id)

  abbrev cites : Str → SchemaComponent → Bool
  cites path c =
      any
        (λ id.
          any (λ (e : Evidence). on_path snapshot index path e && str_eq id e.evidence_id)
            snapshot.evidence)
        c.evidence_ids

  -- Components that `x` owns, with evidence on `path`.
  abbrev owns_schema : Str → Str → Str × SchemaComponent → Bool
  owns_schema path x (key, c) = cites path c && has x (schema_owners snapshot index c.schema_id)

  -- `x` may be affected by a change of `path`, relative to the service.
  abbrev pub owns : Str → Str → Bool
  owns x path =
      if str_eq path (lit ".")
      then has x index.endpoint_ids
      else any (owns_evidence path x) snapshot.evidence || any (owns_schema path x) snapshot.schemas

  has-evidence_affected :
      (x : Str) (p : Evidence → Bool) (es : List Evidence) (out : List Str)
      → has x (evidence_affected snapshot index (filter p es) out)
        ≡ (any (λ e. p e && has x (evidence_owners snapshot index e.evidence_id)) es || has x out)
  unfolding evidence_affected
  has-evidence_affected x p [] out = refl
  has-evidence_affected x p (e ∷ es) out = ground (
    arith,
    has-evidence_affected x p es out,
    has-evidence_affected x p es (add_all (evidence_owners snapshot index e.evidence_id) out),
    has-add_all x (evidence_owners snapshot index e.evidence_id) out,
  )

  has-schemas_affected :
      (x : Str) (p : Str × SchemaComponent → Bool) (ss : List (Str × SchemaComponent))
      (out : List Str)
      → has x (schemas_affected snapshot index (filter p ss) out)
        ≡ (any (λ s. p s && has x (schema_owners snapshot index (s.1).schema_id)) ss || has x out)
  unfolding schemas_affected
  has-schemas_affected x p [] out = refl
  has-schemas_affected x p ((key, c) ∷ ss) out = ground (
    arith,
    has-schemas_affected x p ss out,
    has-schemas_affected x p ss (add_all (schema_owners snapshot index c.schema_id) out),
    has-add_all x (schema_owners snapshot index c.schema_id) out,
  )

  cites-eq :
      (path : Str) (c : SchemaComponent)
      → any
          (λ id. has id (
            map
              (λ (e : Evidence). e.evidence_id)
              (filter (on_path snapshot index path) snapshot.evidence)))
          c.evidence_ids
        ≡ cites path c
  cites-eq path c =
      any_ext
        (λ id. has id (
          map (λ (e : Evidence). e.evidence_id)
            (filter (on_path snapshot index path) snapshot.evidence)))
        (λ id.
          any (λ (e : Evidence). on_path snapshot index path e && str_eq id e.evidence_id)
            snapshot.evidence)
        (λ id.
          has-map-filter id (λ (e : Evidence). e.evidence_id) (on_path snapshot index path)
            snapshot.evidence)
        c.evidence_ids

  one_file_owns :
      (x path : Str)
      → has x (one_file snapshot index path).affected_endpoint_ids ≡ (
          any (owns_evidence path x) snapshot.evidence || any (owns_schema path x) snapshot.schemas)
  unfolding one_file
  one_file_owns x path =
      let ids =
        map (λ (e : Evidence). e.evidence_id)
          (filter (on_path snapshot index path) snapshot.evidence) in
      rw
        (has-schemas_affected x (schema_on_path snapshot index ids) snapshot.schemas (
          evidence_affected snapshot index (filter (on_path snapshot index path) snapshot.evidence)
            []))
        (rw (has-evidence_affected x (on_path snapshot index path) snapshot.evidence []) (
          rw
            (any_ext
              (λ s.
                schema_on_path snapshot index ids s
                && has x (schema_owners snapshot index (s.1).schema_id))
              (owns_schema path x)
              (λ (s : Str × SchemaComponent).
                ap (λ b. b && has x (schema_owners snapshot index (s.1).schema_id))
                  (cites-eq path s.1))
              snapshot.schemas)
            (unfold has in ground arith)))

  changed_records-owns :
      (x path : Str)
      → has x (changed_records snapshot index path).affected_endpoint_ids ≡ owns x path
  unfolding changed_records whole_service
  changed_records-owns x path = ground (arith, one_file_owns x path)

  pub gather-owns :
      (x root : Str) (paths : List Str) (acc : Records)
      → has x (gather snapshot index root paths acc).affected_endpoint_ids ≡ (
          any (λ p. owns x (service_relative_path p root)) paths || has x acc.affected_endpoint_ids)
  unfolding gather
  gather-owns x root [] acc = refl
  gather-owns x root (p ∷ ps) acc =
      let r = changed_records snapshot index (service_relative_path p root) in
      let next : Records = record {
        affected_endpoint_ids = add_all r.affected_endpoint_ids acc.affected_endpoint_ids;
        indexed = acc.indexed && r.indexed;
        incomplete = acc.incomplete || r.incomplete;
      } in
      rw (gather-owns x root ps next) (
        rw (has-add_all x r.affected_endpoint_ids acc.affected_endpoint_ids) (
          rw (changed_records-owns x (service_relative_path p root)) (
            or_move (any (λ q. owns x (service_relative_path q root)) ps)
              (owns x (service_relative_path p root)) (has x acc.affected_endpoint_ids))))
