-- ===== src/Orchestration/Canonical/Texts.antt =====
-- Equality of canonical texts, and the order of members that they forget.
use api_truth.Prelude.{
  [], ◌++◌, map, sym, ◌∙◌, ◌≡◌, ◌≢◌, refl, true, Option, none, some, List, ◌∷◌, arith, not, inl,
  inr, Bool-cases, ap,
}
use api_truth.Prelude.Text.{Str, str_eq, str_eq_iff, str_eq_refl, str_lt-total}
use api_truth.Prelude.Sorting.{sort, insert, IsWeakOrder, by_key-IsWeakOrder, insert_swap}
use api_truth.Json.{Json, Fields, obj, field, end}
use api_truth.Orchestration.Canonical.{
  ◌>>=◌, Member, member_before, code_points, points_before, serialize, serialize_fields, same_text,
  print_object, join, member_text,
}

-- Both serialize, to one text.
record OneText (a b : Json) : Type 0 where
  text : Str
  left : serialize a ≡ some text
  right : serialize b ≡ some text

same_text-OneText : (a b : Json) → same_text a b ≡ some true → OneText a b
unfolding same_text
same_text-OneText a b h = texts (serialize a) (serialize b) refl refl h
  where
    texts :
        (s t : Option Str)
        → serialize a ≡ s
        → serialize b ≡ t
        → same_text a b ≡ some true
        → OneText a b
    texts none t e f k = cc
    texts (some x) none e f k = cc
    texts (some x) (some y) e f k = record {
      text = x;
      left = e;
      right = rw f (ground (arith, str_eq_iff x y));
    }

OneText-same_text : {a b : Json} → OneText a b → same_text a b ≡ some true
unfolding same_text
OneText-same_text o = ground (arith, str_eq_refl o.text)

pub same_text_trans :
    (a b c : Json)
    → same_text a b ≡ some true
    → same_text b c ≡ some true
    → same_text a c ≡ some true
same_text_trans a b c h k =
    let p = same_text-OneText a b h in
    let q = same_text-OneText b c k in
    OneText-same_text
      (record { text = p.text; left = p.left; right = cc (p.right, q.left, q.right) })

-- Of two different keys exactly one stands before the other.
before_one_way :
    (i j : Str) → code_points i ≢ code_points j → points_before i j ≡ not (points_before j i)
unfolding points_before
before_one_way i j h = elim (Bool-cases (str_eq (code_points i) (code_points j))) [
  | inl same ↦ absurd (h ((str_eq_iff (code_points i) (code_points j)).0 same))
  | inr differ ↦ str_lt-total (code_points i) (code_points j) differ
]

members_order : IsWeakOrder member_before
unfolding points_before
members_order = by_key-IsWeakOrder (λ (m : Member). code_points m.0)

-- The members in the order in which they are printed.
abbrev sorted_members : Option (List Member) → Option (List Member)
sorted_members none = none
sorted_members (some ms) = some (sort member_before ms)

abbrev with_member : Str → Option Str → Option (List Member) → Option (List Member)
with_member k s r = do text ← s; members ← r; some ((k, text) ∷ members)

abbrev insert_member : Str → Option Str → Option (List Member) → Option (List Member)
insert_member k s r = do text ← s; members ← r; some (insert member_before (k, text) members)

sorted-with_member :
    (k : Str) (s : Option Str) (r : Option (List Member))
    → sorted_members (with_member k s r) ≡ insert_member k s (sorted_members r)
unfolding sort
sorted-with_member k none r = refl
sorted-with_member k (some x) none = refl
sorted-with_member k (some x) (some ms) = refl

insert_member_swap :
    (i j : Str) (s t : Option Str) (r : Option (List Member))
    → code_points i ≢ code_points j
    → insert_member i s (insert_member j t r) ≡ insert_member j t (insert_member i s r)
insert_member_swap i j none none r h = refl
insert_member_swap i j none (some y) none h = refl
insert_member_swap i j none (some y) (some m) h = refl
insert_member_swap i j (some x) none none h = refl
insert_member_swap i j (some x) none (some m) h = refl
insert_member_swap i j (some x) (some y) none h = refl
insert_member_swap i j (some x) (some y) (some m) h =
    ap some (insert_swap members_order (i, x) (j, y) m (before_one_way i j h))

-- What an object prints of its sorted members.
abbrev print_sorted : Option (List Member) → Option Str
print_sorted r = do members ← r; some (b'{' ∷ (join (map member_text members) ++ b'}' ∷ []))

print-sorted :
    (r : Option (List Member))
    → (do members ← r; some (print_object members)) ≡ print_sorted (sorted_members r)
unfolding print_object
print-sorted none = refl
print-sorted (some ms) = refl

-- The first members, then the others.
unfoldable pub append_fields : Fields → Fields → Fields
append_fields end gs = gs
append_fields (field k v fs) gs = field k v (append_fields fs gs)

sorted_swap :
    (es : Fields) (i j : Str) (v w : Json) (fs : Fields)
    → code_points i ≢ code_points j
    → sorted_members (serialize_fields (append_fields es (field i v (field j w fs))))
      ≡ sorted_members (serialize_fields (append_fields es (field j w (field i v fs))))
unfolding append_fields serialize
sorted_swap end i j v w fs h =
    let s = serialize v in
    let t = serialize w in
    let r = serialize_fields fs in
    sorted-with_member i s (with_member j t r)
    ∙ (ap (insert_member i s) (sorted-with_member j t r)
        ∙ (insert_member_swap i j s t (sorted_members r) h
            ∙ (sym (ap (insert_member j t) (sorted-with_member i s r))
                ∙ sym (sorted-with_member j t (with_member i s r)))))
sorted_swap (field k u es) i j v w fs h =
    sorted-with_member k (serialize u)
      (serialize_fields (append_fields es (field i v (field j w fs))))
    ∙ (ap (insert_member k (serialize u)) (sorted_swap es i j v w fs h)
        ∙ sym (
            sorted-with_member k (serialize u)
              (serialize_fields (append_fields es (field j w (field i v fs))))))

-- The canonical text of an object does not depend on the order of any two neighbouring members whose
-- keys differ as sequences of code points.
pub serialize-field_swap :
    (es : Fields) (i j : Str) (v w : Json) (fs : Fields)
    → code_points i ≢ code_points j
    → serialize (obj (append_fields es (field i v (field j w fs))))
      ≡ serialize (obj (append_fields es (field j w (field i v fs))))
unfolding serialize
serialize-field_swap es i j v w fs h =
    print-sorted (serialize_fields (append_fields es (field i v (field j w fs))))
    ∙ (ap print_sorted (sorted_swap es i j v w fs h)
        ∙ sym (print-sorted (serialize_fields (append_fields es (field j w (field i v fs))))))
