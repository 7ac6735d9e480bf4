-- ===== src/Pipeline/Trust.antt =====
-- Which stored records agent/compliance_pipeline.py can make a result of, and that its own records
-- are of this kind.
use cfr_compliance_mcp.Prelude.{
  ℕ, ◌≤◌, String, ◌≡◌, refl, inl, inr, Bool, true, false, ◌&&◌, none, some, List, [], ◌∷◌, ◌++◌,
  map, all, leb, arith, Bool-cases,
}
use cfr_compliance_mcp.Prelude.Int.{ℤ, pos, negsuc}
use cfr_compliance_mcp.Models.{EvidencePassage, ComplianceResult}
use cfr_compliance_mcp.Memory.Records.{StoredPassage, accepted, refused, MemoryRecord}
use cfr_compliance_mcp.Memory.Store.{Line, malformed, object, objects, is_one_line, line_of}
use cfr_compliance_mcp.Memory.Retrieval.{parsed}
use cfr_compliance_mcp.Memory.Indexing.{IndexRequest, unrated, build_record}
use cfr_compliance_mcp.Memory.Growth.{index_cases}
use cfr_compliance_mcp.Pipeline.Match.{CfrMatch}
use cfr_compliance_mcp.Pipeline.Results.{
  parse_evidence, parse_confidence, index_request, index_verified,
}
use cfr_compliance_mcp.Pipeline.Evaluation.{Memory}

abbrev pub is_accepted : StoredPassage → Bool
is_accepted (accepted ev) = true
is_accepted (refused text) = false

-- The record has a confidence from 0 to 1, and evidence that makes passages.
abbrev pub in_unit : ℤ → Bool
in_unit (pos n) = leb n 100
in_unit (negsuc n) = false

abbrev pub is_acceptable : MemoryRecord → Bool
is_acceptable rec = in_unit rec.confidence && all is_accepted rec.evidence

-- Every record that reading the memory's file gives is acceptable.
abbrev pub trusted : Memory → Bool
trusted none = true
trusted (some m) = all is_acceptable (parsed (objects m.store.lines))

parse_evidence-all :
    (evs : List StoredPassage)
    → all is_accepted evs ≡ true
    → (es : List EvidencePassage) × (parse_evidence evs ≡ some es)
unfolding parse_evidence
parse_evidence-all [] h = ([], refl)
parse_evidence-all (refused text ∷ evs) h = absurd (ground arith)
parse_evidence-all (accepted ev ∷ evs) h =
    let (es, made) = parse_evidence-all evs h in
    (record ev { confidence = none } ∷ es, rw made refl)

parse_confidence-unit : (z : ℤ) → in_unit z ≡ true → (n : ℕ) × (parse_confidence z ≡ some n)
unfolding parse_confidence
parse_confidence-unit (pos n) h = (n, rw h refl)
parse_confidence-unit (negsuc n) h = absurd (ground arith)

-- The values of an acceptable record pass the validation.
pub acceptable-parses :
    (rec : MemoryRecord)
    → is_acceptable rec ≡ true
    → ((es : List EvidencePassage) × (parse_evidence rec.evidence ≡ some es))
      × ((n : ℕ) × (parse_confidence rec.confidence ≡ some n))
acceptable-parses rec h = (
  parse_evidence-all rec.evidence (ground arith),
  parse_confidence-unit rec.confidence (ground arith),
)

all-snoc_line :
    (ls : List Line) (rec : MemoryRecord)
    → all is_acceptable (parsed (objects ls)) ≡ true
    → is_acceptable rec ≡ true
    → all is_acceptable (parsed (objects (ls ++ line_of rec ∷ []))) ≡ true
unfolding parsed objects line_of
all-snoc_line [] rec h fine = elim (Bool-cases (is_one_line rec)) [
  | inl whole ↦ rw whole (ground arith)
  | inr cut ↦ rw cut refl
]
all-snoc_line (malformed ∷ ls) rec h fine = all-snoc_line ls rec h fine
all-snoc_line (object i none ∷ ls) rec h fine = all-snoc_line ls rec h fine
all-snoc_line (object i (some r) ∷ ls) rec h fine =
    let later = all-snoc_line ls rec (ground arith) fine in ground arith

unrated-accepted : (evs : List EvidencePassage) → all is_accepted (map unrated evs) ≡ true
unrated-accepted [] = refl
unrated-accepted (ev ∷ evs) = unrated-accepted evs

module _ (sha256_hex : String → String) (now : String) where
  built-acceptable :
      (r : ComplianceResult) (request : IndexRequest)
      → r.confidence ≤ 100
      → is_acceptable (build_record sha256_hex r request) ≡ true
  unfolding build_record
  built-acceptable r request full = ground (arith, unrated-accepted r.evidence)

  -- What is indexed with a confidence of at most 1 keeps a memory trusted.
  pub index_verified-trusted :
      (r : ComplianceResult) (m : CfrMatch) (citation : String) (title : ℕ) (assisted : Bool)
      (memory : Memory)
      → r.confidence ≤ 100
      → trusted memory ≡ true
      → trusted (index_verified sha256_hex now r m citation title assisted memory) ≡ true
  unfolding index_verified
  index_verified-trusted r m citation title assisted none full h = refl
  index_verified-trusted r m citation title true (some c) full h = h
  index_verified-trusted r m citation title false (some c) full h =
      let request = index_request now m citation title in
      elim (index_cases sha256_hex r request c) [
        | inl same ↦ rw same.1 h
        | inr (added, facts) ↦ rw added.1 (
            all-snoc_line c.store.lines (build_record sha256_hex r request) h
              (built-acceptable r request full))
      ]
