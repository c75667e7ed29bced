-- ===== src/Middleware/Tests.antt =====
-- Witnesses for the capture of payloads.
use orkai_observability.Middleware.{new_response_writer_wrapper}
use orkai_observability.Middleware.Capture.{concat, write-captures, write_all}
use orkai_observability.Prelude.{List, [], arith, take, ◌∷◌, ◌≡◌}
use orkai_observability.Text.{Text, codes}

abbrev two_writes : List Text
two_writes = codes "hello " ∷ codes "world" ∷ []

write-captures_example :
    ((write_all two_writes (new_response_writer_wrapper 8)).body ≡ take 8 (concat two_writes))
    × ((write_all two_writes (new_response_writer_wrapper 8)).written ≡ two_writes)
write-captures_example = write-captures two_writes 8 (omega arith) (omega arith)
