-- ===== src/Classify/Tests.antt =====
-- Runs of internal/clients/timeweb/errors.go, and its theorem at a concrete response.
use crossplane_provider_time.Prelude.{◌≡◌, ◌≢◌, refl, ◌↔◌, lit, [], none, some}
use crossplane_provider_time.Classify.{Response, not_found, transient, classify, code_of}
use crossplane_provider_time.Classify.Laws.{classify-not_found_iff}

abbrev gone : Response
gone = record {
  status_code = 404;
  envelope = some (record { error_code = lit "not_found"; message = []; response_id = [] });
}

abbrev bare : Response
bare = record { status_code = 404; envelope = none }

bare_is_transient : classify (some bare) ≡ transient 404
unfolding classify
bare_is_transient = refl

classify-not_found_iff_example :
    (classify (some gone) ≡ not_found) ↔ ((gone.status_code ≡ 404) × (code_of gone.envelope ≢ []))
classify-not_found_iff_example = classify-not_found_iff gone
