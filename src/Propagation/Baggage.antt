-- ===== src/Propagation/Baggage.antt =====
-- observability/propagation.go: the baggage header, written and read.
use orkai_observability.Prelude.{
  ◌++◌, All, All-append, List, [], ap, append-nil, append_assoc, false, map, refl, some, sym, ℕ,
  ◌∙◌, ◌∷◌, ◌≡◌, ◌≢◌, Option, arith,
}
use orkai_observability.Propagation.{
  Header, canonical, extract_baggage, get, inject_baggage, pair_of, parse_baggage_header,
  parse_pairs, set_header, add_pair,
}
use orkai_observability.Propagation.TraceId.{get-set_header, text_eq-append_nil}
use orkai_observability.Table.{Table, insert}
use orkai_observability.Text.{
  Text, codes, cut_at, is_space, join, text_eq, trim_left, trim_right, trim_space,
}
use orkai_observability.Text.Split.{Lacks, cut_at-append, split-join}

-- A byte that is neither white space nor a separator of the header.
abbrev pub IsPlain : ℕ → Type 0
IsPlain c = (is_space c ≡ false) × (c ≢ b',') × (c ≢ b'=')

-- Keys and values of plain bytes.
abbrev pub AllPlain : Table Text → Type 0
AllPlain [] = Unit
AllPlain ((k, v) ∷ m) = All IsPlain k × All IsPlain v × AllPlain m

abbrev pub Distinct : Table Text → Type 0
Distinct [] = Unit
Distinct ((k, v) ∷ m) = All (λ kw. text_eq k kw.0 ≡ false) m × Distinct m

abbrev Spaceless : Text → Type 0
Spaceless = All (λ c. is_space c ≡ false)

trim_right_same : (s : Text) → Spaceless s → trim_right s ≡ s
unfolding trim_right
trim_right_same [] h = refl
trim_right_same (x ∷ []) h = rw h.0 refl
trim_right_same (x ∷ y ∷ s) h = rw (trim_right_same (y ∷ s) h.1) refl

trim_left_same : (s : Text) → Spaceless s → trim_left s ≡ s
unfolding trim_left
trim_left_same [] h = refl
trim_left_same (x ∷ s) h = rw h.0 refl

trim_space_same : (s : Text) → Spaceless s → trim_space s ≡ s
unfolding trim_space
trim_space_same s h = rw (trim_right_same s h) (trim_left_same s h)

plain-Spaceless : (s : Text) → All IsPlain s → Spaceless s
plain-Spaceless [] h = tt
plain-Spaceless (x ∷ s) h = (h.0.0, plain-Spaceless s h.1)

plain-Lacks_comma : (s : Text) → All IsPlain s → Lacks b',' s
plain-Lacks_comma [] h = tt
plain-Lacks_comma (x ∷ s) h = (h.0.1, plain-Lacks_comma s h.1)

plain-Lacks_equals : (s : Text) → All IsPlain s → Lacks b'=' s
plain-Lacks_equals [] h = tt
plain-Lacks_equals (x ∷ s) h = (h.0.2, plain-Lacks_equals s h.1)

insert_fresh :
    (k v : Text) (m : Table Text)
    → All (λ kw. text_eq kw.0 k ≡ false) m
    → insert k v m ≡ m ++ (k, v) ∷ []
unfolding insert
insert_fresh k v [] h = refl
insert_fresh k v ((j, w) ∷ m) h = rw (h.0, insert_fresh k v m h.1) refl

abbrev Apart : Table Text → Table Text → Type 0
Apart m b = All (λ kv. All (λ kw. text_eq kv.0 kw.0 ≡ false) b) m

Apart-head :
    (k v : Text) (m b : Table Text) → Apart m ((k, v) ∷ b) → All (λ kw. text_eq kw.0 k ≡ false) m
Apart-head k v [] b h = tt
Apart-head k v (x ∷ m) b h = (h.0.0, Apart-head k v m b h.1)

Apart-tail : (kv : Text × Text) (m b : Table Text) → Apart m (kv ∷ b) → Apart m b
Apart-tail kv [] b h = tt
Apart-tail kv (x ∷ m) b h = (h.0.1, Apart-tail kv m b h.1)

parse_pair :
    (k v : Text)
    → All IsPlain k
    → All IsPlain v
    → cut_at b'=' (trim_space (pair_of (k, v))) ≡ (k, some v)
parse_pair k v hk hv =
    ap (cut_at b'=') (trim_space_same (pair_of (k, v)) spaceless)
    ∙ cut_at-append b'=' k v (plain-Lacks_equals k hk)
  where
    spaceless : Spaceless (k ++ b'=' ∷ v)
    spaceless =
        All-append _ k (b'=' ∷ v) (plain-Spaceless k hk)
          (unfold is_space in refl, plain-Spaceless v hv)

parse_pairs-append :
    (b m : Table Text)
    → AllPlain b
    → Distinct b
    → Apart m b
    → parse_pairs (map pair_of b) m ≡ m ++ b
unfolding parse_pairs
parse_pairs-append [] m plain distinct apart = sym (append-nil m)
parse_pairs-append ((k, v) ∷ b) m plain distinct apart =
    ap (λ (r : Text × Option Text). parse_pairs (map pair_of b) (add_pair r m))
      (parse_pair k v plain.0 plain.1)
    ∙ ap (parse_pairs (map pair_of b)) (insert_fresh k v m (Apart-head k v m b apart))
    ∙ parse_pairs-append b (m ++ (k, v) ∷ []) plain.2 distinct.1
        (All-append _ m ((k, v) ∷ []) (Apart-tail (k, v) m b apart) (distinct.0, tt))
    ∙ append_assoc m ((k, v) ∷ []) b

equals_ne_comma : ◌≢◌ {A = ℕ} b'=' b','
equals_ne_comma = omega arith

pairs_lack_comma : (b : Table Text) → AllPlain b → All (Lacks b',') (map pair_of b)
pairs_lack_comma [] h = tt
pairs_lack_comma ((k, v) ∷ b) h = (
  All-append _ k (b'=' ∷ v) (plain-Lacks_comma k h.0) (equals_ne_comma, plain-Lacks_comma v h.1),
  pairs_lack_comma b h.2,
)

join_some :
    (k v : Text) (ps : List Text) → text_eq (join (pair_of (k, v) ∷ ps) (codes ",")) [] ≡ false
unfolding join
join_some k v [] = text_eq-append_nil k v b'='
join_some k v (p ∷ ps) = rw (append_assoc k (codes "=" ++ v)) (text_eq-append_nil k _ b'=')

-- Baggage with distinct keys, whose keys and values hold no white space, comma or equals sign, is
-- extracted as it was injected, whatever headers were there before.
pub extract-inject_baggage :
    (k v : Text) (b : Table Text) (h : Header)
    → AllPlain ((k, v) ∷ b)
    → Distinct ((k, v) ∷ b)
    → extract_baggage (inject_baggage ((k, v) ∷ b) h) ≡ (k, v) ∷ b
unfolding extract_baggage inject_baggage parse_baggage_header
extract-inject_baggage k v b h plain distinct =
    let all = (k, v) ∷ b in
    let value = join (map pair_of all) (codes ",") in
    let held : get (set_header (codes "baggage") value h) (codes "baggage") ≡ value =
      get-set_header (codes "baggage") (codes "baggage") value h
      ∙ (unfold canonical text_eq in refl) in
    rw (held, join_some k v (map pair_of b))
      (ap (λ ps. parse_pairs ps [])
          (split-join b',' (pair_of (k, v)) (map pair_of b) (pairs_lack_comma all plain))
        ∙ parse_pairs-append all [] plain distinct tt)
