-- ===== src/Memory/Tests.antt =====
-- The memory on one result: tests of agent/memory.py.
use cfr_compliance_mcp.Prelude.{String, ◌≡◌, refl, true, false, none, some, [], ◌∷◌}
use cfr_compliance_mcp.Models.{Clause, ComplianceResult, compliant, verified}
use cfr_compliance_mcp.Memory.Records.{make_record_id}
use cfr_compliance_mcp.Memory.Store.{load, objects, known_ids, append, append_known}
use cfr_compliance_mcp.Memory.Retrieval.{
  Query, ComplianceMemory, retrieve, make_lookup, consider_all, parsed,
}
use cfr_compliance_mcp.Memory.Indexing.{
  IndexRequest, is_eligible, audit_clear, passage_complete, build_record, store_record, index,
}
use cfr_compliance_mcp.Memory.Reuse.{Promised, retrieve-Promised}
use cfr_compliance_mcp.Memory.Recall.{same_query}
use cfr_compliance_mcp.Memory.Store.{ids_of, texts_of, has_boundary, is_one_line, line_of}
use cfr_compliance_mcp.Memory.Uniqueness.{IsConsistent, index-IsConsistent}

-- A stand-in for the hash.
abbrev echo : String → String
echo s = s

abbrev stored_clause : Clause
stored_clause = record { title = "Drums"; text = "Waste is stored in drums."; clause_id = "c1" }

abbrev decided_result : ComplianceResult
decided_result = record {
  clause_title = "Drums";
  clause_id = "c1";
  status = compliant;
  confidence = 90;
  reason = "ok";
  evidence =
      record {
        title = 40;
        part = some "257";
        section = some "257.3";
        date = "2024-01-01";
        text_span = "drums";
        citation = "40 CFR 257.3";
        source = "eCFR";
        retrieved_at = "";
        retrieval_method = "ecfr_api";
        version = "2024-01-01";
        confidence = none;
      }
      ∷ [];
  verification_status = verified;
  review_reason = "";
  review_audit = none;
  memory_participated = false;
}

abbrev request : IndexRequest
request = record {
  clause = stored_clause;
  citation = "40 CFR 257.3";
  title = 40;
  effective_version = "2024-01-01";
  date = "2024-01-01";
  version_specific = true;
  source = "eCFR";
  retrieval_method = "ecfr_api";
  retrieved_at = "";
  memory_assisted = false;
  now = "2024-02-01";
}

abbrev new_memory : ComplianceMemory
new_memory = record {
  enabled = true;
  store = record { lines = []; record_ids = none; readable = true; writable = true };
}

-- A line separator in the reason: the record is indexed and not found again.
abbrev separated_result : ComplianceResult
separated_result = record decided_result { reason = "a\u{2028}b" }

separated_lost :
    (retrieve (same_query request) (index echo separated_result request new_memory).1).exact_record
    ≡ none
unfolding index store_record is_eligible audit_clear passage_complete known_ids load objects append
    append_known build_record make_record_id retrieve is_one_line texts_of has_boundary line_of
    make_lookup consider_all parsed
separated_lost = refl

retrieve-Promised_example :
    Promised
      (same_query request)
      (retrieve (same_query request) (index echo decided_result request new_memory).1)
retrieve-Promised_example =
    retrieve-Promised (same_query request) (index echo decided_result request new_memory).1

abbrev unversioned : Query
unversioned = record {
  clause = stored_clause;
  citation = "40 CFR 257.3";
  title = 40;
  effective_version = "";
}

new_memory-IsConsistent : IsConsistent new_memory.store
unfolding ids_of objects
new_memory-IsConsistent = record { knows = tt; distinct = tt }

index-IsConsistent_example : IsConsistent (index echo decided_result request new_memory).1.store
index-IsConsistent_example =
    index-IsConsistent echo decided_result request new_memory new_memory-IsConsistent
