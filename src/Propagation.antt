-- ===== src/Propagation.antt =====
-- observability/propagation.go: trace IDs and baggage in HTTP headers. A header map is keyed by the
-- canonical form of a name, as `http.Header` does it; `Get` of a missing key is empty.
pub mod TraceId
pub mod Baggage
mod Tests
use orkai_observability.Prelude.{
  ◌&&◌, ◌++◌, ◌-◌, ◌==◌, Bool, List, Option, [], if◌then◌else◌, leb, length, ltb, map, none, not,
  some, take, true, ℕ, ◌∷◌,
}
use orkai_observability.Table.{Table, at, insert}
use orkai_observability.Text.{Text, codes, cut_at, join, lower, split, text_eq, trim_space}

-- http.CanonicalHeaderKey for names of letters, digits and dashes: upper case at the start and
-- behind a dash, lower case elsewhere.
abbrev upper : ℕ → ℕ
upper c = if leb 97 c && leb c 122 then c - 32 else c

abbrev canonical_from : Bool → Text → Text
canonical_from start [] = []
canonical_from start (c ∷ s) = (if start then upper c else lower c) ∷ canonical_from (c == b'-') s

unfoldable pub canonical : Text → Text
unfolding lower
canonical name = canonical_from true name

abbrev pub Header : Type 0
Header = Table Text

unfoldable pub get : Header → Text → Text
unfolding canonical
get h name = at [] (canonical name) h

unfoldable pub set_header : Text → Text → Header → Header
unfolding canonical
set_header name value h = insert (canonical name) value h

-- parts[1], if there are at least 3 parts and it has 32 bytes
abbrev pub second_part : List Text → Option Text
second_part (p ∷ id ∷ q ∷ ps) = if length id == 32 then some id else none
second_part _ = none

abbrev pub from_b3 : Header → Text
from_b3 h =
    let b3 = get h (codes "b3") in
    let b3_trace = get h (codes "X-B3-TraceId") in
    if not (text_eq b3 [])
    then (cut_at b'-' b3).0
    else if not (text_eq b3_trace [])
    then b3_trace
    else get h (codes "X-Trace-ID")

abbrev pub or_else : Option Text → Text → Text
or_else none t = t
or_else (some id) t = id

unfoldable pub extract_trace_id : Header → Text
unfolding get cut_at split
extract_trace_id h =
    let tp = get h (codes "traceparent") in
    if not (text_eq tp []) then or_else (second_part (split tp b'-')) (from_b3 h) else from_b3 h

abbrev pub span_id_of : Text → Text
span_id_of trace_id =
    if ltb 16 (length trace_id) then take 16 trace_id else codes "0000000000000000"

unfoldable pub inject_trace_id : Text → Header → Header
unfolding set_header
inject_trace_id trace_id h =
    let span_id = span_id_of trace_id in
    if text_eq trace_id []
    then h
    else set_header (codes "X-Trace-ID") trace_id (
        set_header (codes "b3") (trace_id ++ (codes "-" ++ (span_id ++ codes "-1"))) (
          set_header (codes "traceparent")
            (codes "00-" ++ (trace_id ++ (codes "-" ++ (span_id ++ codes "-01")))) h))

abbrev pub add_pair : Text × Option Text → Table Text → Table Text
add_pair (k, none) m = m
add_pair (k, some v) m = insert k v m

-- The loop over the pairs; `SplitN(pair, "=", 2)` has two parts exactly if there is a `=`.
unfoldable pub parse_pairs : List Text → Table Text → Table Text
unfolding cut_at trim_space
parse_pairs [] m = m
parse_pairs (pair ∷ pairs) m = parse_pairs pairs (add_pair (cut_at b'=' (trim_space pair)) m)

unfoldable pub parse_baggage_header : Text → Table Text
unfolding parse_pairs split
parse_baggage_header header_val = parse_pairs (split header_val b',') []

unfoldable pub extract_baggage : Header → Table Text
unfolding get parse_baggage_header
extract_baggage h =
    let bag = get h (codes "baggage") in if text_eq bag [] then [] else parse_baggage_header bag

abbrev pub pair_of : Text × Text → Text
pair_of (k, v) = k ++ (codes "=" ++ v)

unfoldable pub inject_baggage : Table Text → Header → Header
unfolding set_header join
inject_baggage [] h = h
inject_baggage (kv ∷ baggage) h =
    set_header (codes "baggage") (join (map pair_of (kv ∷ baggage)) (codes ",")) h
