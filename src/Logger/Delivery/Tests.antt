-- ===== src/Logger/Delivery/Tests.antt =====
-- The delivery of entries at concrete inputs: a channel for one line.
use orkai_observability.Logger.Delivery.{JsonLogger, async_worker, close, deliver_log}
use orkai_observability.Logger.Delivery.Worker.{
  Event, after_all, close-writes_all, delivers, occurrences, works,
}
use orkai_observability.Prelude.{◌+◌, List, [], none, refl, true, ◌∷◌, ◌≡◌, ℕ}
use orkai_observability.Text.{codes, text_eq}

abbrev small : JsonLogger ℕ
small = record {
  writer = codes "0" ∷ [];
  service = codes "svc";
  environment = codes "dev";
  trace_provider = none;
  rate_limiter = none;
  level = 1;
  async_enabled = true;
  async_chan = [];
  capacity = 1;
  worker_alive = true;
  counted = [];
  saturation = [];
  is_closer = true;
  writer_closes = 0;
  exported = none;
}

abbrev burst : List Event
burst = delivers (codes "a") ∷ delivers (codes "b") ∷ works ∷ delivers (codes "a") ∷ []

burst_order :
    (close (after_all small burst)).writer ≡ codes "0" ∷ codes "b" ∷ codes "a" ∷ codes "a" ∷ []
unfolding close after_all deliver_log async_worker
burst_order = refl

close-writes_all_example :
    occurrences (codes "a") (close (after_all small burst)).writer ≡ 0 + 0 + 2
unfolding text_eq
close-writes_all_example = close-writes_all small burst (codes "a") refl refl
