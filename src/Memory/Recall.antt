-- ===== src/Memory/Recall.antt =====
-- What was indexed is found again: `index` and `retrieve` of agent/memory.py.
use cfr_compliance_mcp.Prelude.{String}
use cfr_compliance_mcp.Models.{ComplianceResult}
use cfr_compliance_mcp.Memory.Records.{MemoryRecord}
use cfr_compliance_mcp.Memory.Retrieval.{Query}
use cfr_compliance_mcp.Memory.Indexing.{IndexRequest, build_record}

-- The query that the same clause makes later, under the same citation, title and version.
abbrev pub same_query : IndexRequest → Query
same_query r = record {
  clause = r.clause;
  citation = r.citation;
  title = r.title;
  effective_version = r.effective_version;
}

module _ (sha256_hex : String → String) (result : ComplianceResult) (r : IndexRequest) where
  abbrev stored : MemoryRecord
  stored = build_record sha256_hex result r
