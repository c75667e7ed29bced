-- ===== src/Context/Tests.antt =====
-- The laws of contexts at concrete inputs.
use orkai_observability.Context.{Context}
use orkai_observability.Prelude.{Option, none}
use orkai_observability.Text.{Text}

abbrev no_span : Context → Option Text
no_span ctx = none
