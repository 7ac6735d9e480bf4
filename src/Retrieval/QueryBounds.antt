-- ===== src/Retrieval/QueryBounds.antt =====
-- What a search query of agent/mcp_search.py holds.
use Prim.Native.String.{count}
use Prim.Native.String as Text
use cfr_compliance_mcp.Prelude.{◌≤◌, String, ◌≡◌, false, List, [], ◌∷◌, join, mem_text, All}
use cfr_compliance_mcp.Retrieval.SearchQuery.{query_stop_words, max_query_chars}

-- A keyword worth a place.
abbrev pub Telling : String → Type 0
Telling w = (mem_text w query_stop_words ≡ false) × (3 ≤ count w)

abbrev pub Unrepeated : List String → Type 0
Unrepeated [] = Unit
Unrepeated (w ∷ ws) = (mem_text w ws ≡ false) × Unrepeated ws

-- The keywords of the query are telling and without repetition, and fit.
abbrev pub Fits : List String → Type 0
Fits ws = All Telling ws × Unrepeated ws × (count (join " " ws) ≤ max_query_chars)
