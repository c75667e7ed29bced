-- ===== src/Metrics/Reservoir/Window.antt =====
-- observability/metrics.go: the samples of a reservoir after a sequence of observations.
use native.Mathlib.Decide.{dec_lt}
use orkai_observability.Metrics.Reservoir.{LatencyReservoir, add_sample, new_latency_reservoir}
use orkai_observability.Prelude.{
  ◌++◌, ◌-◌, List, Option, [], append-nil, append_assoc, drop, length, none, some, suc, ℕ, ◌∷◌, ◌≡◌,
  ◌≤◌, ◌<◌, ap, arith, drop-append, drop-nil, drop_uncons, false, leb, length-append, length-drop,
  le→leb, refl, sym, true, ◌∙◌, subst,
}
use orkai_observability.Prelude.Int64.{Int64}

-- Adding the observations one after the other; a panic ends the run.
pub add_all : List Int64 → LatencyReservoir → Option LatencyReservoir
add_all [] r = some r
add_all (v ∷ vs) r = elim (add_sample v r) [ none ↦ none | some r' ↦ add_all vs r' ]

-- The last `n` observations.
abbrev pub last : ℕ → List Int64 → List Int64
last n vs = drop (length vs - n) vs

add_sample_last :
    (n : ℕ) (seen : List Int64) (v : Int64)
    → add_sample v (record { samples = last (suc n) seen; max_size = suc n })
      ≡ some (record { samples = last (suc n) (seen ++ v ∷ []); max_size = suc n })
unfolding add_sample
add_sample_last n seen v = elim (dec_lt n (length seen)) [
  | no room ↦
      let full : leb (suc n) (length seen) ≡ false = ground arith in
      rw (none_dropped seen (omega arith), full)
        (rw (none_dropped (seen ++ v ∷ []) (omega (arith, length-append seen (v ∷ [])))) refl)
  | yes h ↦
      let k = length seen - suc n in
      let (x, first) = drop_uncons k seen (omega arith) in
      let full : leb (suc n) (length (drop k seen)) ≡ true =
        le→leb _ _ (omega (arith, length-drop k seen)) in
      rw full (rw first (ap (λ l. some (record { samples = l; max_size = suc n })) (shifted h)))
]
  where
    none_dropped : (l : List Int64) → length l ≤ suc n → last (suc n) l ≡ l
    none_dropped l h = let e : length l - suc n ≡ 0 = omega arith in rw e

    shifted :
        n < length seen
        → drop (suc (length seen - suc n)) seen ++ v ∷ [] ≡ last (suc n) (seen ++ v ∷ [])
    shifted h =
        let e : length (seen ++ v ∷ []) - suc n ≡ suc (length seen - suc n) =
          omega (arith, length-append seen (v ∷ [])) in
        rw e (sym (drop-append (suc (length seen - suc n)) seen (v ∷ []) (omega arith)))

add_all_cons :
    (v : Int64) (vs : List Int64) (r r' : LatencyReservoir)
    → add_sample v r ≡ some r'
    → add_all (v ∷ vs) r ≡ add_all vs r'
unfolding add_all
add_all_cons v vs r r' e = ground arith

add_all_from :
    (n : ℕ) (seen vs : List Int64)
    → add_all vs (record { samples = last (suc n) seen; max_size = suc n })
      ≡ some (record { samples = last (suc n) (seen ++ vs); max_size = suc n })
add_all_from n seen [] = unfold add_all in rw append-nil
add_all_from n seen (v ∷ vs) =
    add_all_cons v vs _ _ (add_sample_last n seen v)
    ∙ add_all_from n (seen ++ v ∷ []) vs
    ∙ ap (λ (l : List Int64). some (window l)) (append_assoc seen (v ∷ []) vs)
  where
    window : List Int64 → LatencyReservoir
    window l = record { samples = last (suc n) l; max_size = suc n }

-- A reservoir of a positive size never panics, and after any observations it holds exactly the last
-- of them, as many as its size, in their order.
pub add_all_window :
    (n : ℕ) (vs : List Int64)
    → add_all vs (new_latency_reservoir (suc n))
      ≡ some (record { samples = last (suc n) vs; max_size = suc n })
unfolding new_latency_reservoir
add_all_window n vs =
    subst
      (λ (l : List Int64).
        add_all vs (record { samples = l; max_size = suc n })
        ≡ some (record { samples = last (suc n) vs; max_size = suc n }))
      (drop-nil (0 - suc n)) (add_all_from n [] vs)

-- So it never holds more than its size.
pub add_all_bounded :
    (n : ℕ) (vs : List Int64) (r : LatencyReservoir)
    → add_all vs (new_latency_reservoir (suc n)) ≡ some r
    → length r.samples ≤ suc n
add_all_bounded n vs r h =
    omega
      (arith, length-drop (length vs - suc n) vs, ap length (held (sym (add_all_window n vs) ∙ h)))
  where
    held :
        ◌≡◌ {A = Option LatencyReservoir}
          (some (record { samples = last (suc n) vs; max_size = suc n }))
          (some r)
        → last (suc n) vs ≡ r.samples
    held e = cc
