-- ===== src/Updates/Index/Inverted.antt =====
-- The maps from ids to their owners against the ownerships that they invert.
use api_truth.Prelude.{◌≡◌, refl, ◌&&◌, ◌||◌, List, [], ◌∷◌, any, arith, if◌then◌else◌}
use api_truth.Prelude.Text.{Str, str_eq, str_eq_iff, str_eq_refl}
use api_truth.Prelude.Sets.{has, add, alter, lookup, has-add}
use api_truth.Updates.Ownership.{Ownership, owners_of}
use api_truth.Updates.Index.{own_all, inverted}

owners_of-alter :
    (id k x : Str) (m : List (Str × List Str))
    → owners_of (alter k [] (add x) m) id
      ≡ (if str_eq id k then add x (owners_of m id) else owners_of m id)
unfolding owners_of alter lookup
owners_of-alter id k x [] = ground arith
owners_of-alter id k x ((j, v) ∷ m) = ground (
  arith,
  owners_of-alter id k x m,
  str_eq_iff k j,
  str_eq_iff id k,
  str_eq_iff id j,
  str_eq_refl id,
)

has-own_all :
    (id x y : Str) (ids : List Str) (m : List (Str × List Str))
    → has x (owners_of (own_all y ids m) id) ≡ (str_eq x y && has id ids || has x (owners_of m id))
unfolding own_all has
has-own_all id x y [] m = ground arith
has-own_all id x y (k ∷ ids) m =
    rw (has-own_all id x y ids (alter k [] (add y) m))
      (rw (owners_of-alter id k y m) (ground (arith, has-add x y (owners_of m id))))

has-inverted :
    (id x : Str) (ids : Ownership → List Str) (m : List (Str × Ownership))
    (owners : List (Str × List Str))
    → has x (owners_of (inverted ids m owners) id) ≡ (
        any (λ (e : Str × Ownership). str_eq x e.0 && has id (ids e.1)) m
        || has x (owners_of owners id))
unfolding inverted
has-inverted id x ids [] owners = refl
has-inverted id x ids ((y, o) ∷ m) owners =
    rw (has-inverted id x ids m (own_all y (ids o) owners))
      (rw (has-own_all id x y (ids o) owners) (ground arith))

-- In the map from ids to owners, an id has an endpoint for an owner exactly if the endpoint has an
-- ownership with that id.
pub owners_of-inverted :
    (ids : Ownership → List Str) (ownership : List (Str × Ownership)) (id endpoint_id : Str)
    → has endpoint_id (owners_of (inverted ids ownership []) id)
      ≡ any (λ (e : Str × Ownership). str_eq endpoint_id e.0 && has id (ids e.1)) ownership
owners_of-inverted ids ownership id endpoint_id =
    rw (has-inverted id endpoint_id ids ownership []) (unfold owners_of lookup has in ground arith)
