-- ===== src/Server/Searching.antt =====
-- The search tools: src/cfr_compliance_mcp/tools/search_regulations.py, search_by_keyword.py and
-- `perform_search` of tools/_common.py.
use cfr_compliance_mcp.Prelude.{
  ℕ, String, Option, none, some, List, [], ◌∷◌, length, join, sort_by, text_le,
}
use cfr_compliance_mcp.Prelude.Int.{ℤ}
use cfr_compliance_mcp.Cache.Backend.{Backend, build_cache_key}
use cfr_compliance_mcp.Server.Errors.{
  HttpResult, ErrorResponse, build_error_response, pydantic_validation,
}
use cfr_compliance_mcp.Server.Calls.{Request, Client, Returned, error, value, Call, ◌>>=◌}
use cfr_compliance_mcp.Server.Client.{TitleEntry, SearchRequest, show, search}
use cfr_compliance_mcp.Server.Cached.{cached_call}
use cfr_compliance_mcp.Server.Requests.{
  SearchScope, search_regulations_request, search_by_keyword_request,
}

-- The JSON of a search, with what of its `meta` is there.
pub record RawSearch (A : Type 0) : Type 0 where
  pub results : List A
  pub total_count : Option ℕ
  pub current_page : Option ℤ
  pub total_pages : Option ℕ

pub record SearchResponse (A : Type 0) : Type 0 where
  pub results : List A
  pub total_count : ℕ
  pub current_page : ℤ
  pub total_pages : ℕ

or_default : {B : Type 0} → B → Option B → B
or_default b none = b
or_default b (some c) = c

unfoldable pub shape_search : {A : Type 0} → ℤ → RawSearch A → SearchResponse A
unfolding or_default
shape_search page raw = record {
  results = raw.results;
  total_count = or_default (length raw.results) raw.total_count;
  current_page = or_default page raw.current_page;
  total_pages = or_default 1 raw.total_pages;
}

slugs_of : Option (List String) → List String
slugs_of none = []
slugs_of (some slugs) = slugs

-- The call of the client.
unfoldable pub client_query : String × SearchScope → SearchRequest
unfolding slugs_of
client_query (query, q) = record {
  query = query;
  agency_slugs = slugs_of q.agency_slugs;
  date = q.date;
  per_page = q.per_page;
  page = q.page;
}

unfoldable pub agency_key : Option (List String) → Option String
agency_key none = none
agency_key (some []) = none
agency_key (some (s ∷ ss)) = some (join "," (sort_by text_le (s ∷ ss)))

unfoldable pub search_key : String × SearchScope → String
search_key (query, q) = build_cache_key (
    some "search"
    ∷ some query
    ∷ agency_key q.agency_slugs
    ∷ q.date
    ∷ some (show q.per_page)
    ∷ some (show q.page)
    ∷ [])

-- What a tool answers.
pub data Answer (A : Type 0) : Type 0 where
  failure : ErrorResponse → Answer A
  found : SearchResponse A → Answer A

unfoldable pub answer_of : {A : Type 0} → Returned (SearchResponse A) → Answer A
answer_of (error e) = failure (build_error_response e)
answer_of (value r) = found r

-- `upstream` answers the client, `decode_titles` and `decode_search` read its JSON, and `encode` and
-- `decode` write and read the cache's.
module _ {A : Type 0} (upstream : List Request → Request → HttpResult String)
    (decode_titles : String → Option (List TitleEntry))
    (decode_search : String → Returned (RawSearch A)) (encode : SearchResponse A → String)
    (decode : String → Option (SearchResponse A)) where
  unfoldable pub shaped : ℤ → Returned (RawSearch A) → Call (SearchResponse A)
  shaped page (error e) c = (error e, c)
  shaped page (value raw) c = (value (shape_search page raw), c)

  unfoldable pub perform_search : String × SearchScope → Call (SearchResponse A)
  unfolding shaped
  perform_search (query, q) = do
    text ← search upstream decode_titles (client_query (query, q))
    shaped q.page (decode_search text)

  -- The body of both tools, on the validated request.
  unfoldable pub search_tool :
      Option (String × SearchScope)
      → Option ℤ
      → ℕ
      → ℕ
      → Backend × Client
      → Answer A × (Backend × Client)
  search_tool none ttl read_at write_at state =
      (failure (build_error_response pydantic_validation), state)
  search_tool (some q) ttl read_at write_at state =
      let out =
        cached_call encode decode (search_key q) ttl read_at write_at (perform_search q) state in
      (answer_of out.0, out.1)

  unfoldable pub search_regulations :
      String → SearchScope → Option ℤ → ℕ → ℕ → Backend × Client → Answer A × (Backend × Client)
  search_regulations query scope = search_tool (search_regulations_request query scope)

  unfoldable pub search_by_keyword :
      List String
      → SearchScope
      → Option ℤ
      → ℕ
      → ℕ
      → Backend × Client
      → Answer A × (Backend × Client)
  search_by_keyword keywords scope = search_tool (search_by_keyword_request keywords scope)
