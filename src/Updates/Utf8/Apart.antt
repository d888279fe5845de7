-- ===== src/Updates/Utf8/Apart.antt =====
-- Sorting strings that UTF-8 tells apart gives a canonical set.
use api_truth.Prelude.{
  ◌≡◌, ◌≢◌, refl, Bool, true, false, ◌&&◌, ◌||◌, not, List, [], ◌∷◌, ◌++◌, all, arith,
}
use api_truth.Prelude.Text.{Str, str_eq_iff, str_eq_refl}
use api_truth.Prelude.Sets.{has, has-append, add, add_all}
use api_truth.Prelude.Sorting.{insert, sort}
use api_truth.Updates.Utf8.{utf8_before, is_canonical_string_set}

abbrev pub apart : Str → Str → Bool
apart x y = utf8_before x y || utf8_before y x

all_apart : List Str → Bool
all_apart [] = true
all_apart (x ∷ l) = all (apart x) l && all_apart l

all-insert :
    (p : Str → Bool) (x : Str) (l : List Str) → all p (insert utf8_before x l) ≡ (p x && all p l)
unfolding insert
all-insert p x [] = refl
all-insert p x (y ∷ l) = ground (arith, all-insert p x l)

all-sort : (p : Str → Bool) (l : List Str) → all p (sort utf8_before l) ≡ all p l
unfolding sort
all-sort p [] = refl
all-sort p (x ∷ l) = rw (all-insert p x (sort utf8_before l)) (rw (all-sort p l) refl)

insert-canonical :
    (x : Str) (l : List Str)
    → all (apart x) l ≡ true
    → is_canonical_string_set l ≡ true
    → is_canonical_string_set (insert utf8_before x l) ≡ true
unfolding insert is_canonical_string_set
insert-canonical x [] h k = refl
insert-canonical x (y ∷ []) h k = ground arith
insert-canonical x (y ∷ z ∷ l) h k = ground (arith, insert-canonical x (z ∷ l))

sort-canonical :
    (l : List Str) → all_apart l ≡ true → is_canonical_string_set (sort utf8_before l) ≡ true
unfolding sort all_apart
sort-canonical [] h = unfold is_canonical_string_set in refl
sort-canonical (x ∷ l) h =
    insert-canonical x (sort utf8_before l) (rw (all-sort (apart x) l) (ground arith))
      (sort-canonical l (ground arith))

-- No string twice, as in the source's sets.
unfoldable pub distinct : List Str → Bool
distinct [] = true
distinct (x ∷ l) = not (has x l) && distinct l

distinct-snoc :
    (x : Str) (l : List Str) → has x l ≡ false → distinct l ≡ true → distinct (l ++ x ∷ []) ≡ true
unfolding distinct has
distinct-snoc x [] h k = refl
distinct-snoc x (y ∷ l) h k =
    ground (arith, distinct-snoc x l, has-append y l (x ∷ []), str_eq_iff x y, str_eq_iff y x)

distinct-add : (x : Str) (l : List Str) → distinct l ≡ true → distinct (add x l) ≡ true
unfolding add
distinct-add x l h = ground (arith, distinct-snoc x l)

pub distinct-add_all : (xs l : List Str) → distinct l ≡ true → distinct (add_all xs l) ≡ true
unfolding add_all
distinct-add_all [] l h = h
distinct-add_all (x ∷ xs) l h = distinct-add_all xs (add x l) (distinct-add x l h)

-- Any two different strings of the list.
abbrev pub AreApart : List Str → Type 0
AreApart l = (x y : Str) → has x l ≡ true → has y l ≡ true → x ≢ y → apart x y ≡ true

all-apart-one :
    (x : Str) (l : List Str)
    → ((y : Str) → has y l ≡ true → apart x y ≡ true)
    → all (apart x) l ≡ true
unfolding has
all-apart-one x [] h = refl
all-apart-one x (y ∷ l) h =
    rw (h y (rw (str_eq_refl y) refl)) (all-apart-one x l (λ z m. h z (ground (arith, m))))

member-ne : (x y : Str) (l : List Str) → has x l ≡ false → has y l ≡ true → x ≢ y
member-ne x y l h k e = cc

AreApart-all : (l : List Str) → distinct l ≡ true → AreApart l → all_apart l ≡ true
unfolding distinct all_apart has
AreApart-all [] d h = refl
AreApart-all (x ∷ l) d h =
    rw
      (all-apart-one x l (λ y m.
        h x y (rw (str_eq_refl x) refl) (ground (arith, m)) (member-ne x y l (ground arith) m)))
      (AreApart-all l (ground arith) (λ y z my mz. h y z (ground (arith, my)) (ground (arith, mz))))

-- A set that UTF-8 tells apart is canonical once it is sorted.
pub sort-canonical_set :
    (l : List Str)
    → distinct l ≡ true
    → AreApart l
    → is_canonical_string_set (sort utf8_before l) ≡ true
sort-canonical_set l d h = sort-canonical l (AreApart-all l d h)
