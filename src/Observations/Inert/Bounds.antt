-- ===== src/Observations/Inert/Bounds.antt =====
-- packages/observations/src/matcher.ts: the bounds that inertJson keeps.
use api_truth.Prelude.{
  ℕ, suc, ◌+◌, ◌≤◌, ◌≡◌, refl, sym, subst, ap, Bool, true, false, Option, none, some, leb,
  if◌then◌else◌, length, arith,
}
use api_truth.Prelude.Text.{Str, lit}
use api_truth.Json.{
  Json, null, exotic, boolean, number, str, arr, obj, Items, nil, cons, Fields, end, field,
}
use api_truth.Orchestration.Canonical.{◌>>=◌}
use api_truth.Updates.Utf8.{utf8}
use api_truth.Observations.Inert.{
  Spent, item_count, field_count, index_text, add_text, enter, within, walk, walk_items,
  walk_fields, inert_json,
}

larger : ℕ → ℕ → ℕ
larger a b = if leb a b then b else a

-- How many values the value holds, itself included.
unfoldable mutual
  pub node_count : Json → ℕ
  node_count null = 1
  node_count exotic = 1
  node_count (boolean b) = 1
  node_count (number n) = 1
  node_count (str t) = 1
  node_count (arr xs) = suc (items_nodes xs)
  node_count (obj fs) = suc (fields_nodes fs)

  pub items_nodes : Items → ℕ
  items_nodes nil = 0
  items_nodes (cons x xs) = node_count x + items_nodes xs

  pub fields_nodes : Fields → ℕ
  fields_nodes end = 0
  fields_nodes (field k v fs) = node_count v + fields_nodes fs

-- How far down its deepest value is.
unfoldable mutual
  unfolding larger

  pub height : Json → ℕ
  height null = 0
  height exotic = 0
  height (boolean b) = 0
  height (number n) = 0
  height (str t) = 0
  height (arr xs) = items_height xs
  height (obj fs) = fields_height fs

  pub items_height : Items → ℕ
  items_height nil = 0
  items_height (cons x xs) = larger (suc (height x)) (items_height xs)

  pub fields_height : Fields → ℕ
  fields_height end = 0
  fields_height (field k v fs) = larger (suc (height v)) (fields_height fs)

-- The bytes of its strings and of its members' names.
unfoldable mutual
  unfolding utf8

  pub text_bytes : Json → ℕ
  text_bytes null = 0
  text_bytes exotic = 0
  text_bytes (boolean b) = 0
  text_bytes (number n) = 0
  text_bytes (str t) = length (utf8 t)
  text_bytes (arr xs) = items_bytes xs
  text_bytes (obj fs) = fields_bytes fs

  pub items_bytes : Items → ℕ
  items_bytes nil = 0
  items_bytes (cons x xs) = text_bytes x + items_bytes xs

  pub fields_bytes : Fields → ℕ
  fields_bytes end = 0
  fields_bytes (field k v fs) = length (utf8 k) + (text_bytes v + fields_bytes fs)

-- At least so many nodes and bytes were added, and the limits hold if they held.
record Grown (s t : Spent) (n b : ℕ) : Type 0 where
  nodes : s.nodes + n ≤ t.nodes
  bytes : s.bytes + b ≤ t.bytes
  few : s.nodes ≤ 512 → t.nodes ≤ 512
  short : s.bytes ≤ 65536 → t.bytes ≤ 65536

Grown-refl : (s : Spent) → Grown s s 0 0
Grown-refl s = record { nodes = omega arith; bytes = omega arith; few = λ h. h; short = λ h. h }

Grown-trans :
    {s t u : Spent} {n m b c : ℕ} → Grown s t n b → Grown t u m c → Grown s u (n + m) (b + c)
Grown-trans g h =
    let gn = g.nodes in
    let hn = h.nodes in
    let gb = g.bytes in
    let hb = h.bytes in
    record {
      nodes = omega arith;
      bytes = omega arith;
      few = λ k. h.few (g.few k);
      short = λ k. h.short (g.short k);
    }

bind-some :
    {A B : Type 0} (a : Option A) (f : A → Option B) (t : B)
    → (a >>= f) ≡ some t
    → (x : A) × ((a ≡ some x) × (f x ≡ some t))
bind-some none f t h = cc h
bind-some (some x) f t h = (x, (refl, h))

unless-some :
    {A : Type 0} (b : Bool) (x t : A)
    → (if b then some x else none) ≡ some t
    → (b ≡ true) × (some x ≡ some t)
unless-some true x t h = (refl, h)
unless-some false x t h = cc h

abbrev nodes_of : Option Spent → ℕ
nodes_of none = 0
nodes_of (some u) = u.nodes

abbrev bytes_of : Option Spent → ℕ
bytes_of none = 0
bytes_of (some u) = u.bytes

add_text-Grown : (k : Str) (s t : Spent) → add_text k s ≡ some t → Grown s t 0 (length (utf8 k))
unfolding add_text
add_text-Grown k s t h =
    let c = unless-some _ _ _ h in
    let size : ℕ = length (utf8 k) in
    let nodes : s.nodes ≡ t.nodes = ap (λ u. nodes_of u) c.1 in
    let bytes : s.bytes + size ≡ t.bytes = ap (λ u. bytes_of u) c.1 in
    let limit : s.bytes + size ≤ 65536 = ground (arith, c.0) in
    record {
      nodes = omega arith;
      bytes = omega arith;
      few = λ k. omega arith;
      short = λ k. omega arith;
    }

enter-Grown : (d : ℕ) (s t : Spent) → enter d s ≡ some t → Grown s t 1 0 × (d ≤ 7)
unfolding enter
enter-Grown d s t h =
    let c = unless-some _ _ _ h in
    let nodes : suc s.nodes ≡ t.nodes = ap (λ u. nodes_of u) c.1 in
    let bytes : s.bytes ≡ t.bytes = ap (λ u. bytes_of u) c.1 in
    let limit : (suc s.nodes ≤ 512) × (d ≤ 7) = ground (arith, c.0) in
    let few : suc s.nodes ≤ 512 = limit.0 in
    (
      record {
        nodes = omega arith;
        bytes = omega arith;
        few = λ k. omega arith;
        short = λ k. omega arith;
      },
      limit.1,
    )

within-same : (c : ℕ) (s t : Spent) → within c s ≡ some t → some s ≡ some t
unfolding within
within-same c s t h = (unless-some _ _ _ h).1

larger_bound : (d a b m : ℕ) → d + a ≤ m → d + b ≤ m → d + larger a b ≤ m
unfolding larger
larger_bound d a b m h k = ground (arith, h, k)

Grown-weaken : {s t : Spent} {n m b c : ℕ} → m ≤ n → c ≤ b → Grown s t n b → Grown s t m c
Grown-weaken h k g =
    let gn = g.nodes in
    let gb = g.bytes in
    record { nodes = omega arith; bytes = omega arith; few = g.few; short = g.short }

Grown-same : {s t u : Spent} {n b : ℕ} → some s ≡ some t → Grown t u n b → Grown s u n b
Grown-same {s} {u = u} {n = n} {b = b} e g = subst (λ x. Grown (or_first x) u n b) (sym e) g
  where
    or_first : Option Spent → Spent
    or_first none = s
    or_first (some x) = x

leaf : (d : ℕ) (s t : Spent) → enter d s ≡ some t → Grown s t 1 0 × (d + 0 ≤ 7)
leaf d s t h = let g = enter-Grown d s t h in let depth : d ≤ 7 = g.1 in (g.0, omega arith)

number_leaf :
    (finite : Bool) (d : ℕ) (s t : Spent)
    → (if finite then enter d s else none) ≡ some t
    → Grown s t 1 0 × (d + 0 ≤ 7)
number_leaf true d s t h = leaf d s t h
number_leaf false d s t h = cc h

mutual
  unfolding walk node_count height text_bytes

  walk-Grown :
      (v : Json) (d : ℕ) (s t : Spent)
      → walk v d s ≡ some t
      → Grown s t (node_count v) (text_bytes v) × (d + height v ≤ 7)
  walk-Grown null d s t h = leaf d s t h
  walk-Grown exotic d s t h = cc h
  walk-Grown (boolean b) d s t h = leaf d s t h
  walk-Grown (number n) d s t h = number_leaf n.finite d s t h
  walk-Grown (str x) d s t h =
      let (u, (e, k)) = bind-some (enter d s) _ t h in
      let g = enter-Grown d s u e in
      let depth : d ≤ 7 = g.1 in
      (
        Grown-weaken (omega arith) (omega arith) (Grown-trans g.0 (add_text-Grown x u t k)),
        omega arith,
      )
  walk-Grown (arr xs) d s t h =
      let (u, (e, k)) = bind-some (enter d s) _ t h in
      let g = enter-Grown d s u e in
      let (w, (f, l)) = bind-some (within (item_count xs) u) _ t k in
      let (y, (i, m)) = bind-some (walk_items xs 0 (suc d) w) _ t l in
      let r = items-Grown xs 0 d w y g.1 i in
      (
        Grown-weaken (omega arith) (omega arith) (
            Grown-trans g.0 (
              Grown-same (within-same (item_count xs) u w f)
                (Grown-trans r.0 (add_text-Grown (lit "length") y t m)))),
        r.1,
      )
  walk-Grown (obj fs) d s t h =
      let (u, (e, k)) = bind-some (enter d s) _ t h in
      let g = enter-Grown d s u e in
      let (w, (f, l)) = bind-some (within (field_count fs) u) _ t k in
      let r = fields-Grown fs d w t g.1 l in
      (
        Grown-weaken (omega arith) (omega arith)
            (Grown-trans g.0 (Grown-same (within-same (field_count fs) u w f) r.0)),
        r.1,
      )

  items-Grown :
      (xs : Items) (i d : ℕ) (s t : Spent)
      → d ≤ 7
      → walk_items xs i (suc d) s ≡ some t
      → Grown s t (items_nodes xs) (items_bytes xs) × (d + items_height xs ≤ 7)
  items-Grown nil i d s t b h = (Grown-same h (Grown-refl t), omega arith)
  items-Grown (cons x xs) i d s t b h =
      let (u, (e, k)) = bind-some (add_text (index_text i) s) _ t h in
      let (w, (f, l)) = bind-some (walk x (suc d) u) _ t k in
      let g = walk-Grown x (suc d) u w f in
      let r = items-Grown xs (suc i) d w t b l in
      let deep : suc d + height x ≤ 7 = g.1 in
      (
        Grown-weaken (omega arith) (omega arith)
            (Grown-trans (add_text-Grown (index_text i) s u e) (Grown-trans g.0 r.0)),
        larger_bound d (suc (height x)) (items_height xs) 7 (omega arith) r.1,
      )

  fields-Grown :
      (fs : Fields) (d : ℕ) (s t : Spent)
      → d ≤ 7
      → walk_fields fs (suc d) s ≡ some t
      → Grown s t (fields_nodes fs) (fields_bytes fs) × (d + fields_height fs ≤ 7)
  fields-Grown end d s t b h = (Grown-same h (Grown-refl t), omega arith)
  fields-Grown (field name v fs) d s t b h =
      let (u, (e, k)) = bind-some (add_text name s) _ t h in
      let (w, (f, l)) = bind-some (walk v (suc d) u) _ t k in
      let g = walk-Grown v (suc d) u w f in
      let r = fields-Grown fs d w t b l in
      let deep : suc d + height v ≤ 7 = g.1 in
      (
        Grown-weaken (omega arith) (omega arith)
            (Grown-trans (add_text-Grown name s u e) (Grown-trans g.0 r.0)),
        larger_bound d (suc (height v)) (fields_height fs) 7 (omega arith) r.1,
      )

-- An inert value is an object with at most 512 values in it, the deepest of them 7 levels down, and
-- with at most 65,536 bytes of strings and member names.
pub inert_json_bounds :
    (raw : Json) (fs : Fields)
    → inert_json raw ≡ some fs
    → (raw ≡ obj fs) × ((node_count raw ≤ 512) × ((height raw ≤ 7) × (text_bytes raw ≤ 65536)))
unfolding inert_json
inert_json_bounds (obj gs) fs h =
    let start : Spent = record { nodes = 0; bytes = 0 } in
    let (t, (e, k)) = bind-some (walk (obj gs) 0 start) _ fs h in
    let (g, deep) = walk-Grown (obj gs) 0 start t e in
    let nodes = g.nodes in
    let bytes = g.bytes in
    let few = g.few (omega arith) in
    let short = g.short (omega arith) in
    (ap (fields_of gs) k, (omega arith, (omega arith, omega arith)))
  where
    fields_of : Fields → Option Fields → Json
    fields_of other none = obj other
    fields_of other (some x) = obj x
inert_json_bounds null fs h = cc h
inert_json_bounds exotic fs h = cc h
inert_json_bounds (boolean b) fs h = cc h
inert_json_bounds (number n) fs h = cc h
inert_json_bounds (str x) fs h = cc h
inert_json_bounds (arr xs) fs h = cc h
