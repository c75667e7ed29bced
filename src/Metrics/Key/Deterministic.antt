-- ===== src/Metrics/Key/Deterministic.antt =====
-- observability/metrics.go: the key of a metric and the order of its labels.
use orkai_observability.Metrics.Key.{format_metric_key, insert_text, keys, label_part, sort_texts}
use orkai_observability.Prelude.{
  ◌+◌, ◌<◌, All, Bool-cases, List, [], ap₂, arith, if◌then◌else◌, inl, inr, map, refl, subst, sym,
  true, ℕ, ◌∙◌, ◌∷◌, ◌≡◌, ◌++◌, Option, ap,
}
use orkai_observability.Table.{Table, lookup, or_zero}
use orkai_observability.Text.{Text, text_eq, text_leb, codes}
use orkai_observability.Text.Equality.{text_eq_iff, text_eq_refl}
use orkai_observability.Text.Order.{text_leb_antisymm, text_leb_total, text_leb_trans}

-- How often a key occurs.
abbrev count_key : Text → List Text → ℕ
count_key a [] = 0
count_key a (x ∷ xs) = (if text_eq x a then 1 else 0) + count_key a xs

-- Two tables with the same keys, each equally often, and the same values.
pub record SameMap (m n : Table Text) : Type 0 where
  pub same_keys : (a : Text) → count_key a (keys m) ≡ count_key a (keys n)
  pub same_values : (a : Text) → lookup a m ≡ lookup a n

abbrev IsSorted : List Text → Type 0
IsSorted [] = Unit
IsSorted (x ∷ xs) = All (λ y. text_leb x y ≡ true) xs × IsSorted xs

All-above :
    (a b : Text) (xs : List Text)
    → text_leb a b ≡ true
    → All (λ y. text_leb b y ≡ true) xs
    → All (λ y. text_leb a y ≡ true) xs
All-above a b [] le h = tt
All-above a b (x ∷ xs) le h = (text_leb_trans a b x le h.0, All-above a b xs le h.1)

All-insert_text :
    (a x : Text) (ys : List Text)
    → text_leb a x ≡ true
    → All (λ y. text_leb a y ≡ true) ys
    → All (λ y. text_leb a y ≡ true) (insert_text x ys)
unfolding insert_text
All-insert_text a x [] le h = (le, tt)
All-insert_text a x (y ∷ ys) le h = elim (Bool-cases (text_leb x y)) [
  | inl e ↦ rw e (le, h)
  | inr e ↦ rw e (h.0, All-insert_text a x ys le h.1)
]

insert_text-IsSorted : (x : Text) (ys : List Text) → IsSorted ys → IsSorted (insert_text x ys)
unfolding insert_text
insert_text-IsSorted x [] h = (tt, tt)
insert_text-IsSorted x (y ∷ ys) h = elim (Bool-cases (text_leb x y)) [
  | inl e ↦ rw e ((e, All-above x y ys e h.0), h)
  | inr e ↦ rw e (All-insert_text y x ys (text_leb_total x y e) h.0, insert_text-IsSorted x ys h.1)
]

sort_texts-IsSorted : (xs : List Text) → IsSorted (sort_texts xs)
unfolding sort_texts
sort_texts-IsSorted [] = tt
sort_texts-IsSorted (x ∷ xs) = insert_text-IsSorted x (sort_texts xs) (sort_texts-IsSorted xs)

count-insert_text :
    (a x : Text) (ys : List Text) → count_key a (insert_text x ys) ≡ count_key a (x ∷ ys)
unfolding insert_text
count-insert_text a x [] = refl
count-insert_text a x (y ∷ ys) = ground (arith, count-insert_text a x ys)

count-sort_texts : (a : Text) (xs : List Text) → count_key a (sort_texts xs) ≡ count_key a xs
unfolding sort_texts
count-sort_texts a [] = refl
count-sort_texts a (x ∷ xs) =
    omega (arith, count-insert_text a x (sort_texts xs), count-sort_texts a xs)

-- What occurs in a list of texts above a bound is above the bound.
above_of_count :
    (a b : Text) (xs : List Text)
    → All (λ y. text_leb b y ≡ true) xs
    → 0 < count_key a xs
    → text_leb b a ≡ true
above_of_count a b [] h pos = absurd (omega arith)
above_of_count a b (x ∷ xs) h pos = elim (Bool-cases (text_eq x a)) [
  | inl e ↦ subst (λ t. text_leb b t ≡ true) ((text_eq_iff x a).0 e) h.0
  | inr e ↦ above_of_count a b xs h.1 (ground (arith, e))
]

head_equal :
    (x y : Text) (xs ys : List Text)
    → IsSorted (x ∷ xs)
    → IsSorted (y ∷ ys)
    → ((a : Text) → count_key a (x ∷ xs) ≡ count_key a (y ∷ ys))
    → x ≡ y
head_equal x y xs ys sx sy same = elim (Bool-cases (text_eq x y)) [
  | inl e ↦ (text_eq_iff x y).0 e
  | inr e ↦
      text_leb_antisymm x y (above_of_count y x xs sx.0 (ground (arith, same y, text_eq_refl y, e)))
        (above_of_count x y ys sy.0
          (ground (arith, same x, text_eq_refl x, e, text_eq_iff x y, text_eq_iff y x)))
]

sorted_unique :
    (xs ys : List Text)
    → IsSorted xs
    → IsSorted ys
    → ((a : Text) → count_key a xs ≡ count_key a ys)
    → xs ≡ ys
sorted_unique [] [] sx sy same = refl
sorted_unique [] (y ∷ ys) sx sy same = absurd (ground (arith, same y, text_eq_refl y))
sorted_unique (x ∷ xs) [] sx sy same = absurd (ground (arith, same x, text_eq_refl x))
sorted_unique (x ∷ xs) (y ∷ ys) sx sy same =
    let e : x ≡ y = head_equal x y xs ys sx sy same in
    ap₂ ◌∷◌ e (sorted_unique xs ys sx.1 sy.1 (λ a. ground (arith, same a, e)))

parts_equal :
    (m n : Table Text) (ks : List Text)
    → ((a : Text) → lookup a m ≡ lookup a n)
    → map (label_part m) ks ≡ map (label_part n) ks
unfolding label_part
parts_equal m n [] same = refl
parts_equal m n (k ∷ ks) same =
    ap₂ ◌∷◌ (ap (λ (o : Option Text). k ++ (codes "=\"" ++ (or_zero [] o ++ codes "\""))) (same k))
      (parts_equal m n ks same)

-- The key is the same for two maps of labels with the same keys and values, in whatever orders Go
-- iterates over them.
pub format_metric_key-SameMap :
    (name : Text) (m n : Table Text)
    → SameMap m n
    → format_metric_key name m ≡ format_metric_key name n
unfolding format_metric_key
format_metric_key-SameMap name [] [] h = refl
format_metric_key-SameMap name [] ((k, v) ∷ n) h =
    absurd (ground (arith, h.same_keys k, text_eq_refl k))
format_metric_key-SameMap name ((k, v) ∷ m) [] h =
    absurd (ground (arith, h.same_keys k, text_eq_refl k))
format_metric_key-SameMap name (kv ∷ m) (kw ∷ n) h =
    let ks : sort_texts (keys (kv ∷ m)) ≡ sort_texts (keys (kw ∷ n)) =
      sorted_unique _ _ (sort_texts-IsSorted (keys (kv ∷ m))) (sort_texts-IsSorted (keys (kw ∷ n)))
        (λ a.
          count-sort_texts a (keys (kv ∷ m))
          ∙ h.same_keys a
          ∙ sym (count-sort_texts a (keys (kw ∷ n)))) in
    rw (ks, parts_equal (kv ∷ m) (kw ∷ n) (sort_texts (keys (kw ∷ n))) h.same_values) refl
