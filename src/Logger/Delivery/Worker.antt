-- ===== src/Logger/Delivery/Worker.antt =====
-- observability/logger.go: interleavings of the callers and the worker, and `Close`.
use orkai_observability.Logger.Delivery.{
  JsonLogger, async_worker, close, deliver_log, disable_async, flush_chan, received,
}
use orkai_observability.Prelude.{
  ◌&&◌, ◌+◌, ◌++◌, ◌<◌, Bool, Bool-cases, List, [], arith, if◌then◌else◌, inl, inr, lt→ltb, refl,
  true, ℕ, ◌∙◌, ◌∷◌, ◌≡◌, ap, false,
}
use orkai_observability.Text.{Text, text_eq}

-- What can happen: a caller delivers a line, or the worker receives one.
pub data Event : Type 0 where
  delivers : Text → Event
  works : Event

-- How often a line occurs.
abbrev pub occurrences : Text → List Text → ℕ
occurrences line [] = 0
occurrences line (x ∷ xs) = (if text_eq x line then 1 else 0) + occurrences line xs

abbrev pub delivered : Text → List Event → ℕ
delivered line [] = 0
delivered line (delivers x ∷ es) = (if text_eq x line then 1 else 0) + delivered line es
delivered line (works ∷ es) = delivered line es

occurrences-append :
    (line : Text) (xs ys : List Text)
    → occurrences line (xs ++ ys) ≡ occurrences line xs + occurrences line ys
occurrences-append line [] ys = omega arith
occurrences-append line (x ∷ xs) ys = omega (arith, occurrences-append line xs ys)

module _ {F : Type 0} where
  abbrev pub after : JsonLogger F → Event → JsonLogger F
  after l (delivers line) = deliver_log line l
  after l works = async_worker l

  unfoldable pub after_all : JsonLogger F → List Event → JsonLogger F
  after_all l [] = l
  after_all l (e ∷ es) = after_all (after l e) es

  -- The line in the writer and in the channel.
  abbrev pub kept : Text → JsonLogger F → ℕ
  kept line l = occurrences line l.writer + occurrences line l.async_chan

  kept-deliver :
      (line x : Text) (l : JsonLogger F)
      → kept line (deliver_log x l) ≡ kept line l + (if text_eq x line then 1 else 0)
  unfolding deliver_log
  kept-deliver line x l = ground (
    arith,
    occurrences-append line l.writer (x ∷ []),
    occurrences-append line l.async_chan (x ∷ []),
  )

  kept-received :
      (line : Text) (l : JsonLogger F) (chan : List Text)
      → l.async_chan ≡ chan
      → kept line (received l chan) ≡ kept line l
  kept-received line l [] e = refl
  kept-received line l (x ∷ xs) e = rw e (omega (arith, occurrences-append line l.writer (x ∷ [])))

  async_worker_alive :
      (l : JsonLogger F) → l.worker_alive ≡ true → async_worker l ≡ received l l.async_chan
  unfolding async_worker
  async_worker_alive l e = ap (λ (b : Bool). if b then received l l.async_chan else l) e

  async_worker_ended : (l : JsonLogger F) → l.worker_alive ≡ false → async_worker l ≡ l
  unfolding async_worker
  async_worker_ended l e = ap (λ (b : Bool). if b then received l l.async_chan else l) e

  kept-work : (line : Text) (l : JsonLogger F) → kept line (async_worker l) ≡ kept line l
  kept-work line l = elim (Bool-cases l.worker_alive) [
    | inl e ↦ ap (kept line) (async_worker_alive l e) ∙ kept-received line l l.async_chan refl
    | inr e ↦ ap (kept line) (async_worker_ended l e)
  ]

  kept-after_all :
      (line : Text) (es : List Event) (l : JsonLogger F)
      → kept line (after_all l es) ≡ kept line l + delivered line es
  unfolding after_all
  kept-after_all line [] l = omega arith
  kept-after_all line (delivers x ∷ es) l =
      omega (arith, kept-after_all line es (deliver_log x l), kept-deliver line x l)
  kept-after_all line (works ∷ es) l =
      omega (arith, kept-after_all line es (async_worker l), kept-work line l)

  alive : JsonLogger F → Bool
  alive l = l.worker_alive && l.async_enabled

  after-alive : (l : JsonLogger F) (e : Event) → alive l ≡ true → alive (after l e) ≡ true
  unfolding alive deliver_log
  after-alive l (delivers x) h = ground arith
  after-alive l works h = ap alive (async_worker_alive l running) ∙ keeps l.async_chan
    where
      running : l.worker_alive ≡ true
      running = ground arith

      keeps : (chan : List Text) → alive (received l chan) ≡ true
      keeps [] = h
      keeps (x ∷ xs) = h

  after_all-alive :
      (l : JsonLogger F) (es : List Event) → alive l ≡ true → alive (after_all l es) ≡ true
  unfolding after_all
  after_all-alive l [] h = h
  after_all-alive l (e ∷ es) h = after_all-alive (after l e) es (after-alive l e h)

  close-writer :
      (l : JsonLogger F)
      → l.async_enabled ≡ true
      → l.worker_alive ≡ true
      → (close l).writer ≡ l.writer ++ l.async_chan
  unfolding close disable_async flush_chan
  close-writer l on worker = ground arith

  -- From an asynchronous logger with a running worker, under every interleaving of deliveries and of
  -- the worker's rounds, whether the channel fills up or not, closing the logger at the end leaves
  -- every line in the writer as often as it was there, in the channel, or delivered: no line is lost
  -- and none is written twice.
  pub close-writes_all :
      (l : JsonLogger F) (es : List Event) (line : Text)
      → l.worker_alive ≡ true
      → l.async_enabled ≡ true
      → occurrences line (close (after_all l es)).writer
        ≡ occurrences line l.writer + occurrences line l.async_chan + delivered line es
  close-writes_all l es line running enabled =
      let l' = after_all l es in
      let up = after_all-alive l es (unfold alive in rw (running, enabled) refl) in
      let worker : l'.worker_alive ≡ true = unfold alive in ground arith in
      let on : l'.async_enabled ≡ true = unfold alive in ground arith in
      ap (occurrences line) (close-writer l' on worker)
      ∙ occurrences-append line l'.writer l'.async_chan
      ∙ kept-after_all line es l

  -- A line that another goroutine delivers while `Close` runs, after the worker has ended and before
  -- the logger is disabled, stays in the channel, if it has room: the writer never receives it.
  pub delivery_during_close_lost :
      (l : JsonLogger F) (line : Text)
      → l.worker_alive ≡ true
      → l.async_enabled ≡ true
      → 0 < l.capacity
      → let l' = disable_async (deliver_log line (flush_chan l)) in
        (l'.writer ≡ l.writer ++ l.async_chan)
        × (l'.async_chan ≡ line ∷ [])
        × (async_worker l' ≡ l')
  unfolding disable_async deliver_log flush_chan async_worker
  delivery_during_close_lost l line running enabled room =
      rw (running, enabled, lt→ltb 0 l.capacity room) (refl, refl, refl)
