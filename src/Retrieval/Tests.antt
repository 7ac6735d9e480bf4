-- ===== src/Retrieval/Tests.antt =====
-- The retrieval over a small search: tests of agent/mcp_search.py.
use cfr_compliance_mcp.Prelude.{◌≡◌, refl, none, some, List, [], ◌∷◌}
use cfr_compliance_mcp.Models.{Clause}
use cfr_compliance_mcp.Verification.Checks.{VersionPayload}
use cfr_compliance_mcp.Retrieval.Candidates.{
  SearchHit, hit, no_object, present, is_appendix_only, candidate_of, usable_candidates,
  first_titled, select_from, select_best_candidate,
}
use cfr_compliance_mcp.Retrieval.Fetch.{returns, TextPayload, Tools, retrieve_for_clause}
use cfr_compliance_mcp.Retrieval.Labels.{Labelled, retrieve_for_clause-Labelled}

abbrev search : List SearchHit
search =
    hit (some (record { title = some "48"; part = none; section = none; appendix = some "A" }))
    ∷ no_object
    ∷ hit (some (record { title = some "40"; part = some "257"; section = none; appendix = none }))
    ∷ hit (
        some (record {
          title = some "29";
          part = some "1926";
          section = some "1926.1";
          appendix = none;
        }))
    ∷ []

predicted_found : select_best_candidate search (some "29") ≡ some ("29", "1926", some "1926.1")
unfolding select_best_candidate select_from first_titled usable_candidates candidate_of
    is_appendix_only present
predicted_found = refl

abbrev payload : TextPayload
payload = record {
  text = "Store waste in drums.";
  title = some "29";
  part = some (some "1926");
  section = none;
  date = some "2024-01-01";
  heading = none;
}

abbrev versions : VersionPayload
versions = record {
  content_versions = [];
  versions =
      record { issue_date = some "2023-05-01" } ∷ record { issue_date = some "2024-01-01" } ∷ [];
}

abbrev answering : Tools
answering = record {
  retrieve = λ q. returns payload;
  get_version_history = λ title part section. returns versions;
}

abbrev searched_clause : Clause
searched_clause = record { title = "Drums"; text = "Waste is stored in drums."; clause_id = "c1" }

retrieve_for_clause-Labelled_example :
    Labelled "now" answering searched_clause
      (retrieve_for_clause "now" answering searched_clause (λ query. returns search))
retrieve_for_clause-Labelled_example =
    retrieve_for_clause-Labelled "now" answering searched_clause (λ query. returns search)
