-- ===== src/Metrics/Store/Copying.antt =====
-- observability/metrics.go: the loops that copy the maps of the metrics to a summary.
use mathlib.Core.Option
use orkai_observability.Float64.{Float64}
use orkai_observability.Metrics.Reservoir.{
  LatencyPercentiles, LatencyReservoir, buckets, percentiles,
}
use orkai_observability.Metrics.Store.{
  copy_histograms, copy_latencies_to_summary, copy_percentiles, copy_to_summary, milliseconds,
}
use orkai_observability.Prelude.{
  Bool-cases, Option, [], ap, inl, inr, none, refl, some, sym, ◌∙◌, ◌∷◌, ◌≡◌, arith, if◌then◌else◌,
  subst,
}
use orkai_observability.Prelude.Int64.{Int64, slt}
use orkai_observability.Table.{Table, insert, lookup, lookup-insert, at}
use orkai_observability.Text.{Text, text_eq}
use orkai_observability.Text.Equality.{text_eq_iff}

-- Every key has one entry, as in a map.
abbrev pub Distinct : {V : Type 0} → Table V → Type 0
Distinct [] = Unit
Distinct ((k, v) ∷ t) = (lookup k t ≡ none) × Distinct t

-- The first value, if there is one, and else the second.
abbrev pub over {ℓ} : {V : Type ℓ} → Option V → Option V → Option V
over none b = b
over (some v) b = some v

module _ {V : Type 0} where
  pub insert-Distinct : (k : Text) (v : V) (t : Table V) → Distinct t → Distinct (insert k v t)
  unfolding insert lookup
  insert-Distinct k v [] h = (refl, tt)
  insert-Distinct k v ((j, w) ∷ t) (fresh, h) = elim (Bool-cases (text_eq j k)) [
    | inl e ↦ rw e (subst (λ x. lookup x t ≡ none) ((text_eq_iff j k).0 e) fresh, h)
    | inr e ↦ rw e (
      ground (arith, text_eq_iff k j, text_eq_iff j k, lookup-insert k j v t, fresh, e),
      insert-Distinct k v t h,
    )
  ]

  pub copy-lookup :
      (k : Text) (t s : Table V)
      → Distinct t
      → lookup k (copy_to_summary t s) ≡ over (lookup k t) (lookup k s)
  unfolding copy_to_summary lookup
  copy-lookup k [] s h = refl
  copy-lookup k ((j, v) ∷ t) s (fresh, h) =
      copy-lookup k t (insert j v s) h
      ∙ rw (lookup-insert j k v s) (elim (Bool-cases (text_eq j k)) [
        | inl e ↦ rw (e, sym (ap (λ x. lookup x t) ((text_eq_iff j k).0 e)) ∙ fresh) refl
        | inr e ↦ rw e refl
      ])

  -- The values of a table under a function.
  pub map_values : {W : Type 0} → (V → W) → Table V → Table W
  map_values h [] = []
  map_values h ((k, v) ∷ t) = (k, h v) ∷ map_values h t

  pub lookup-map_values :
      {W : Type 0} (h : V → W) (k : Text) (t : Table V)
      → lookup k (map_values h t) ≡ Option.map h (lookup k t)
  unfolding map_values lookup
  lookup-map_values h k [] = refl
  lookup-map_values h k ((j, v) ∷ t) = elim (Bool-cases (text_eq j k)) [
    | inl e ↦ rw e refl
    | inr e ↦ rw e (lookup-map_values h k t)
  ]

  pub map_values-Distinct :
      {W : Type 0} (h : V → W) (t : Table V) → Distinct t → Distinct (map_values h t)
  unfolding map_values
  map_values-Distinct h [] d = tt
  map_values-Distinct h ((k, v) ∷ t) (fresh, d) =
      (lookup-map_values h k t ∙ ap (Option.map h) fresh, map_values-Distinct h t d)

pub over-none : {V : Type 0} (o : Option V) → over o none ≡ o
over-none none = refl
over-none (some v) = refl

pub copied_percentiles :
    (t : Table LatencyReservoir) (s : Table LatencyPercentiles)
    → copy_percentiles t s ≡ copy_to_summary (map_values percentiles t) s
unfolding copy_percentiles copy_to_summary map_values
copied_percentiles [] s = refl
copied_percentiles ((k, r) ∷ t) s = copied_percentiles t (insert k (percentiles r) s)

pub copied_histograms :
    (t : Table LatencyReservoir) (s : Table (Table Int64))
    → copy_histograms t s ≡ copy_to_summary (map_values buckets t) s
unfolding copy_histograms copy_to_summary map_values
copied_histograms [] s = refl
copied_histograms ((k, r) ∷ t) s = copied_histograms t (insert k (buckets r) s)

-- What is copied to an empty map.
pub copied-lookup :
    {V : Type 0} (k : Text) (t : Table V)
    → Distinct t
    → lookup k (copy_to_summary t []) ≡ lookup k t
unfolding lookup
copied-lookup k t d = copy-lookup k t [] d ∙ over-none (lookup k t)

module _ {F : Type 0} ⦃f : Float64 F⦄ where
  -- The average of the latencies under a key: the total in milliseconds by the count.
  abbrev pub average_of : Int64 → Int64 → Option F
  average_of calls total =
      if slt 0 calls then some (f.over (f.of_int (milliseconds total)) (f.of_int calls)) else none

  abbrev pub average : Table Int64 → Text → Option Int64 → Option F
  average calls k none = none
  average calls k (some total) = average_of (at 0 k calls) total

  put :
      (calls : Int64) (j k : Text) (v : Int64) (s : Table F)
      → lookup k (
          if slt 0 calls
          then insert j (f.over (f.of_int (milliseconds v)) (f.of_int calls)) s
          else s)
        ≡ (if text_eq j k then over (average_of calls v) (lookup k s) else lookup k s)
  put calls j k v s = elim (Bool-cases (slt 0 calls)) [
    | inl e ↦ rw e (lookup-insert j k _ s)
    | inr e ↦ rw e (elim (Bool-cases (text_eq j k)) [ inl e' ↦ rw e' refl | inr e' ↦ rw e' refl ])
  ]

  pub latencies-lookup :
      (calls : Table Int64) (k : Text) (t : Table Int64) (s : Table F)
      → Distinct t
      → lookup k (copy_latencies_to_summary calls t s)
        ≡ over (average calls k (lookup k t)) (lookup k s)
  unfolding copy_latencies_to_summary lookup
  latencies-lookup calls k [] s d = refl
  latencies-lookup calls k ((j, v) ∷ t) s (fresh, d) =
      latencies-lookup calls k t _ d
      ∙ ap (over (average calls k (lookup k t))) (put (at 0 j calls) j k v s)
      ∙ elim (Bool-cases (text_eq j k)) [
        | inl e ↦
            let same = (text_eq_iff j k).0 e in
            let gone : lookup k t ≡ none = subst (λ x. lookup x t ≡ none) same fresh in
            rw (e, gone, same) refl
        | inr e ↦ rw e refl
      ]
