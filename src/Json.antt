-- ===== src/Json.antt =====
-- JavaScript values as the canonical serializers see them. `exotic` stands for every value that
-- they refuse: undefined, functions, cycles, accessors, foreign prototypes.
use api_truth.Prelude.{ℕ, Bool, Option, none, some, if◌then◌else◌, List, [], ◌∷◌}
use api_truth.Prelude.Text.{Str, str_eq}

-- `text` is what JSON.stringify prints, `natural` the value of a non-negative safe integer.
pub record Number : Type 0 where
  pub text : Str
  pub natural : Option ℕ
  pub finite : Bool

mutual
  pub data Json : Type 0 where
    null : Json
    exotic : Json
    boolean : Bool → Json
    number : Number → Json
    str : Str → Json
    arr : Items → Json
    obj : Fields → Json

  pub data Items : Type 0 where
    nil : Items
    cons : Json → Items → Items

  pub data Fields : Type 0 where
    end : Fields
    field : Str → Json → Fields → Fields

-- value.key, `none` for undefined
unfoldable pub get : Str → Fields → Option Json
unfolding str_eq
get k end = none
get k (field j v fs) = if str_eq k j then some v else get k fs

-- Object.keys(value)
unfoldable pub keys : Fields → List Str
keys end = []
keys (field k v fs) = k ∷ keys fs

unfoldable pub items : List Str → Items
items [] = nil
items (x ∷ xs) = cons (str x) (items xs)
