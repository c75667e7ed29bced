-- ===== src/Middleware.antt =====
-- observability/middleware.go: what the HTTP middleware captures of a request and of its response.
-- The response writer below the wrapper is the list of what was passed on to it.
pub mod Capture
mod Tests
use orkai_observability.Float64.{Float64}
use orkai_observability.Prelude.{
  ◌&&◌, ◌++◌, ◌-◌, Bool, List, [], if◌then◌else◌, false, length, ltb, not, take, true, ◌∷◌,
}
use orkai_observability.Prelude.Int64.{Int64, sle, slt}
use orkai_observability.Text.{Text, codes}
use orkai_observability.Types.{Field, new_int_field, new_string_field}

pub record ResponseWriterWrapper : Type 0 where
  -- the calls of `Write` and `WriteHeader` on the wrapped writer
  pub written : List Text
  pub headers_written : List Int64
  pub body : Text
  pub status_code : Int64
  pub max_size : Int64

unfoldable pub new_response_writer_wrapper : Int64 → ResponseWriterWrapper
new_response_writer_wrapper max_size = record {
  written = [];
  headers_written = [];
  body = [];
  status_code = 200;
  max_size = max_size;
}

unfoldable pub write_header : Int64 → ResponseWriterWrapper → ResponseWriterWrapper
write_header code rw' = record rw' {
  status_code = code;
  headers_written = rw'.headers_written ++ code ∷ [];
}

-- `rem` is positive where it is used.
unfoldable pub write : Text → ResponseWriterWrapper → ResponseWriterWrapper
write p rw' =
    let rem = rw'.max_size - length rw'.body in
    let passed = record rw' { written = rw'.written ++ p ∷ [] } in
    if slt 0 rw'.max_size && slt (length rw'.body) rw'.max_size
    then if ltb (length p) rem
      then record passed { body = rw'.body ++ p }
      else record passed { body = rw'.body ++ take rem p }
    else passed

-- The part of `Config` that the middleware reads.
pub record PayloadConfig (F : Type 0) : Type 0 where
  pub enable_payload_logging : Bool
  pub max_payload_log_size_bytes : Int64
  pub payload_logging_sample : F

module _ {F : Type 0} where
  unfoldable pub get_payload_max_size : PayloadConfig F → Int64
  get_payload_max_size cfg =
      if sle cfg.max_payload_log_size_bytes 0 then 4096 else cfg.max_payload_log_size_bytes

-- The body of a request: nil, a text, or a text whose reading ends in an error.
pub data Body : Type 0 where
  absent : Body
  readable broken : Text → Body

-- The captured text, and the body that the handler will read: after a failed read the bytes that
-- were read are gone.
unfoldable pub capture_request_body : Body → Int64 → Text × Body
capture_request_body absent max_size = ([], absent)
capture_request_body (broken t) max_size = ([], broken [])
capture_request_body (readable t) max_size =
    ((if slt max_size (length t) then take max_size t else t), readable t)

module _ {F : Type 0} where
  unfoldable pub capture_req_body_if_needed : Body → PayloadConfig F → Int64 → Text × Body
  unfolding capture_request_body
  capture_req_body_if_needed body cfg max_size =
      if cfg.enable_payload_logging then capture_request_body body max_size else ([], body)

module _ {F : Type 0} ⦃f : Float64 F⦄ where
  -- `random` is `rand.Float64()`.
  unfoldable pub should_log_payload : F → PayloadConfig F → Int64 → Bool
  should_log_payload random cfg status_code =
      if not cfg.enable_payload_logging
      then false
      else if sle 500 status_code
      then true
      else f.lt random cfg.payload_logging_sample

-- The fields of the last log entry of a request.
unfoldable pub finished_fields : Text → Text → Int64 → Int64 → Bool → Text → Text → List Field
unfolding new_string_field new_int_field
finished_fields method path status duration_ms log_payload req_body resp_body =
    (new_string_field (codes "method") method
      ∷ new_string_field (codes "path") path
      ∷ new_int_field (codes "status") status
      ∷ new_int_field (codes "duration_ms") duration_ms
      ∷ [])
    ++ (if log_payload
        then new_string_field (codes "request_payload") req_body
          ∷ new_string_field (codes "response_payload") resp_body
          ∷ []
        else [])
