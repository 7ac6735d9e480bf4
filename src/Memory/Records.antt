-- ===== src/Memory/Records.antt =====
-- The records of Compliance Memory: `MemoryRecord` and `MemoryLookup` of agent/memory.py.
use Prim.Native.String.{slice, ◌++◌}
use cfr_compliance_mcp.Prelude.{ℕ, String, Bool, true, false, Option, none, List, []}
use cfr_compliance_mcp.Prelude.Int.{ℤ}
use cfr_compliance_mcp.Models.{EvidencePassage}

-- A stored dictionary: the fields of a passage, or some that `EvidencePassage` does not accept, with
-- whether its citation, where it has one, is a text.
pub data StoredPassage : Type 0 where
  accepted : EvidencePassage → StoredPassage
  refused : Bool → StoredPassage

-- `from_dict` takes any number for the confidence and any dictionaries for the evidence.
pub record MemoryRecord : Type 0 where
  pub record_id : String
  pub clause_id : String
  pub clause_title : String
  pub clause_text : String
  pub status : String
  pub confidence : ℤ
  pub reason : String
  pub citation : String
  pub title : ℕ
  pub part : String
  pub section : String
  pub effective_version : String
  pub date : String
  pub version_specific : Bool
  pub verification_status : String
  pub evidence : List StoredPassage
  pub source : String
  pub retrieval_method : String
  pub retrieved_at : String
  pub indexed_at : String
  pub memory_assisted : Bool

pub data MatchType : Type 0 where
  exact near no_match : MatchType

pub record MemoryLookup : Type 0 where
  pub match_type : MatchType
  pub exact_record : Option MemoryRecord
  pub near_records : List MemoryRecord

abbrev pub no_lookup : MemoryLookup
no_lookup = record { match_type = no_match; exact_record = none; near_records = [] }

-- `MemoryLookup.participated`.
abbrev pub participated : MemoryLookup → Bool
participated l = elim l.match_type [ exact ↦ true | near ↦ true | no_match ↦ false ]

-- `_record_id`, for a function that gives the hexadecimal digits of the hash.
unfoldable pub make_record_id : (String → String) → String → String → String → String
make_record_id sha256_hex clause_id citation effective_version =
    slice (sha256_hex (clause_id ++ "|" ++ citation ++ "|" ++ effective_version)) 0 32
