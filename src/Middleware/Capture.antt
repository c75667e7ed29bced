-- ===== src/Middleware/Capture.antt =====
-- observability/middleware.go: the part of a response that the wrapper keeps.
use orkai_observability.Middleware.{ResponseWriterWrapper, write, new_response_writer_wrapper}
use orkai_observability.Prelude.{
  ◌++◌, ◌-◌, ◌<◌, List, [], ap, arith, length, refl, suc, take, zero, ℕ, ◌∷◌, ◌≡◌, append-nil,
  length-take, min, sym, take-length, ◌∙◌, ◌≤◌, append_assoc, subst,
}
use orkai_observability.Prelude.Int64.{half_word, Int64}
use orkai_observability.Text.{Text}

-- The writes of a handler, one after the other.
unfoldable pub write_all : List Text → ResponseWriterWrapper → ResponseWriterWrapper
write_all [] w = w
write_all (p ∷ ps) w = write_all ps (write p w)

abbrev pub concat : List Text → Text
concat [] = []
concat (p ∷ ps) = p ++ concat ps

take-append : (n : ℕ) (xs ys : Text) → take n (xs ++ ys) ≡ take n xs ++ take (n - length xs) ys
take-append zero [] ys = ap (λ k. take k ys) {x = 0} {y = 0 - 0} (omega arith)
take-append zero (x ∷ xs) ys = let e : 0 - suc (length xs) ≡ 0 = omega arith in rw e refl
take-append (suc n) [] ys = ap (λ k. take k ys) {x = suc n} {y = suc n - 0} (omega arith)
take-append (suc n) (x ∷ xs) ys =
    let e : suc n - suc (length xs) ≡ n - length xs = omega arith in
    rw e (ap (◌∷◌ x) (take-append n xs ys))

take-nil : (n : ℕ) → [] ≡ take {A = ℕ} n []
take-nil zero = refl
take-nil (suc n) = refl

-- The part of a write that is kept, when the body is `take n all`.
kept : (n : ℕ) (b all p : Text) → b ≡ take n all → b ++ take (n - length b) p ≡ take n (all ++ p)
kept n b all p h =
    let l : length b ≡ min n (length all) = ap length h ∙ length-take n all in
    let e : n - length b ≡ n - length all = omega arith in
    ap (λ k. b ++ take k p) e ∙ ap (λ c. c ++ take (n - length all) p) h ∙ sym (take-append n all p)

-- A write keeps as much of the text as there is room for, and leaves the limit alone.
write-body :
    (p : Text) (w : ResponseWriterWrapper)
    → 0 < w.max_size
    → w.max_size < half_word
    → length w.body ≤ w.max_size
    → ((write p w).body ≡ w.body ++ take (w.max_size - length w.body) p)
      × ((write p w).max_size ≡ w.max_size)
      × ((write p w).written ≡ w.written ++ p ∷ [])
unfolding write
write-body p w pos small fits =
    ground (arith, take-length (w.max_size - length w.body) p, append-nil w.body)

writes-body :
    (ps : List Text) (all : Text) (w : ResponseWriterWrapper)
    → 0 < w.max_size
    → w.max_size < half_word
    → w.body ≡ take w.max_size all
    → ((write_all ps w).body ≡ take w.max_size (all ++ concat ps))
      × ((write_all ps w).written ≡ w.written ++ ps)
unfolding write_all
writes-body [] all w pos small h =
    (h ∙ ap (take w.max_size) (sym (append-nil all)), sym (append-nil w.written))
writes-body (p ∷ ps) all w pos small h =
    let fits : length w.body ≤ w.max_size =
      let l : length w.body ≡ min w.max_size (length all) =
        ap length h ∙ length-take w.max_size all in
      omega arith in
    let one = write-body p w pos small fits in
    let size = one.1 in
    let body : (write p w).body ≡ take (write p w).max_size (all ++ p) =
      one.0 ∙ kept w.max_size w.body all p h ∙ ap (λ n. take n (all ++ p)) (sym size) in
    let rest =
      writes-body ps (all ++ p) (write p w) (subst (λ n. 0 < n) (sym size) pos)
        (subst (λ n. n < half_word) (sym size) small) body in
    (
      rest.0
          ∙ ap (λ n. take n ((all ++ p) ++ concat ps)) size
          ∙ ap (take w.max_size) (append_assoc all p (concat ps)),
      rest.1 ∙ ap (λ c. c ++ ps) one.2 ∙ append_assoc w.written (p ∷ []) ps,
    )

-- When the limit is a positive number, the body that is captured of a response is the first
-- `max_size` bytes of all that the handler wrote, however it was cut into writes; and every write
-- was passed on whole and in order.
pub write-captures :
    (ps : List Text) (max_size : Int64)
    → 0 < max_size
    → max_size < half_word
    → ((write_all ps (new_response_writer_wrapper max_size)).body ≡ take max_size (concat ps))
      × ((write_all ps (new_response_writer_wrapper max_size)).written ≡ ps)
unfolding new_response_writer_wrapper
write-captures ps max_size pos small =
    writes-body ps [] (new_response_writer_wrapper max_size) pos small (take-nil max_size)
