-- ===== src/Memory/Store.antt =====
-- The append-only store: agent/memory_store.py. A line of the file is malformed, or an object with
-- its `record_id`, if that is a text, and what `MemoryRecord.from_dict` makes of it. A line that
-- `append` wrote reads back as the record that was written, unless a text of the record has one of
-- the characters U+0085, U+2028 and U+2029: JSON leaves these as they are, and `splitlines` cuts the
-- line there into pieces that are no records, one malformed line here. Whether the file can be read
-- and written is the environment's, a field of the state.
use Prim.Native.Char.{Char, code}
use cfr_compliance_mcp.Prelude.{
  String, Bool, true, false, Option, none, some, List, [], ◌∷◌, ◌++◌, mem_text, truthy, not, ◌||◌,
  any, nat_eq, if◌then◌else◌,
}
use cfr_compliance_mcp.Models.{EvidencePassage}
use cfr_compliance_mcp.Memory.Records.{StoredPassage, accepted, refused, MemoryRecord}

pub data Line : Type 0 where
  malformed : Line
  object : Option String → Option MemoryRecord → Line

pub record Store : Type 0 where
  pub lines : List Line
  pub record_ids : Option (List String)
  pub readable : Bool
  pub writable : Bool

-- The well-formed objects of the file.
unfoldable pub objects : List Line → List (Option String × Option MemoryRecord)
objects [] = []
objects (malformed ∷ ls) = objects ls
objects (object i r ∷ ls) = (i, r) ∷ objects ls

-- `load`; `none` is an exception.
unfoldable pub load : Store → Option (List (Option String × Option MemoryRecord))
unfolding objects
load s = if s.readable then some (objects s.lines) else none

unfoldable pub ids_of : List (Option String × Option MemoryRecord) → List String
ids_of [] = []
ids_of ((none, r) ∷ rest) = ids_of rest
ids_of ((some i, r) ∷ rest) = if truthy i then i ∷ ids_of rest else ids_of rest

unfoldable pub remember :
    Store → Option (List (Option String × Option MemoryRecord)) → Option (List String × Store)
remember s none = none
remember s (some loaded) = some (ids_of loaded, record s { record_ids = some (ids_of loaded) })

-- `_known_ids`: loaded once, then kept; `none` is an exception.
unfoldable pub known_ids : Store → Option (List String × Store)
unfolding ids_of remember load
known_ids s = elim s.record_ids [ some ids ↦ some (ids, s) | none ↦ remember s (load s) ]

-- The boundaries of `splitlines` that JSON does not escape.
abbrev pub is_boundary : Char → Bool
is_boundary c = nat_eq (code c) 133 || nat_eq (code c) 8232 || nat_eq (code c) 8233

unfoldable pub has_boundary : String → Bool
has_boundary String.[] = false
has_boundary (String.◌∷◌ c s) = is_boundary c || has_boundary s

optional_text : Option String → List String
optional_text none = []
optional_text (some s) = s ∷ []

passage_texts : EvidencePassage → List String
passage_texts ev =
    ev.date
      ∷ ev.text_span
      ∷ ev.citation
      ∷ ev.source
      ∷ ev.retrieved_at
      ∷ ev.retrieval_method
      ∷ ev.version
      ∷ optional_text ev.part
    ++ optional_text ev.section

stored_texts : List StoredPassage → List String
stored_texts [] = []
stored_texts (refused joins ∷ rest) = stored_texts rest
stored_texts (accepted ev ∷ rest) = passage_texts ev ++ stored_texts rest

-- The texts that the JSON of a record holds. What is appended was built by `_build_record`, so its
-- passages are accepted ones.
unfoldable pub texts_of : MemoryRecord → List String
unfolding stored_texts passage_texts optional_text
texts_of r =
    r.record_id
    ∷ r.clause_id
    ∷ r.clause_title
    ∷ r.clause_text
    ∷ r.status
    ∷ r.reason
    ∷ r.citation
    ∷ r.part
    ∷ r.section
    ∷ r.effective_version
    ∷ r.date
    ∷ r.verification_status
    ∷ r.source
    ∷ r.retrieval_method
    ∷ r.retrieved_at
    ∷ r.indexed_at
    ∷ stored_texts r.evidence

-- The line of the record stays one line when it is read.
unfoldable pub is_one_line : MemoryRecord → Bool
unfolding texts_of
is_one_line r = not (any has_boundary (texts_of r))

unfoldable pub line_of : MemoryRecord → Line
line_of r = if is_one_line r then object (some r.record_id) (some r) else malformed

-- `append`, after `contains` has loaded the ids: `none` is an exception, and the Boolean says
-- whether the record was appended.
unfoldable pub append_known : MemoryRecord → List String × Store → Option (Bool × Store)
append_known r (ids, s) =
    if mem_text r.record_id ids
    then some (false, s)
    else if s.writable
    then some (
      true,
      record s { lines = s.lines ++ line_of r ∷ []; record_ids = some (r.record_id ∷ ids) },
    )
    else none

unfoldable pub append : MemoryRecord → Store → Option (Bool × Store)
unfolding append_known
append r s =
    if truthy r.record_id
    then elim (known_ids s) [ none ↦ none | some known ↦ append_known r known ]
    else none
