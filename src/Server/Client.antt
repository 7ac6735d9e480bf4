-- ===== src/Server/Client.antt =====
-- The methods of `EcfrClient`: src/cfr_compliance_mcp/clients/ecfr_client.py. `decode_titles` parses
-- the response with the titles, and `none` is an exception; other responses stay texts.
use Prim.Native.String.{◌++◌}
use mathlib.Core.List as L
use cfr_compliance_mcp.Prelude.{
  ℕ, suc, String, Bool, false, not, ◌&&◌, ◌||◌, Option, none, some, List, [], ◌∷◌, map, leb, nat_eq,
  truthy, if◌then◌else◌, ◌==◌,
}
use cfr_compliance_mcp.Prelude.Int.{ℤ, pos, negsuc}
use cfr_compliance_mcp.Prelude.Dict.{lookup, insert}
use cfr_compliance_mcp.Agent.{strip}
use cfr_compliance_mcp.Rules.Keywords.{decimal}
use cfr_compliance_mcp.Retrieval.Candidates.{starts_with}
use cfr_compliance_mcp.Server.Errors.{HttpResult, validation, ecfr_not_found, unexpected}
use cfr_compliance_mcp.Server.Calls.{
  Request, title_key, dated_key, Call, pure, fail, ◌>>=◌, self, update, request,
}

-- An entry of the titles index; `none` is a key that is absent.
pub record TitleEntry : Type 0 where
  pub number : Option ℕ
  pub up_to_date_as_of : Option String

abbrev pub titles_endpoint : String
titles_endpoint = "/api/versioner/v1/titles.json"

unfoldable pub structure_path : String → ℕ → String
structure_path date title =
    "/api/versioner/v1/structure/" ++ date ++ "/title-" ++ decimal title ++ ".json"

unfoldable pub full_text_path : String → ℕ → String
full_text_path date title =
    "/api/versioner/v1/full/" ++ date ++ "/title-" ++ decimal title ++ ".xml"

unfoldable pub versions_path : ℕ → String
versions_path title = "/api/versioner/v1/versions/title-" ++ decimal title ++ ".json"

abbrev pub search_results_endpoint : String
search_results_endpoint = "/api/search/v1/results"

abbrev pub agencies_endpoint : String
agencies_endpoint = "/api/admin/v1/agencies.json"

-- `_validate_title`.
unfoldable pub validate_title : ℤ → Call ℕ
validate_title (negsuc n) = fail validation
validate_title (pos t) = if leb 1 t && leb t 50 then pure t else fail validation

-- The first entry of the title.
unfoldable pub find_title : ℕ → List TitleEntry → Option TitleEntry
find_title title [] = none
find_title title (e ∷ rest) =
    let later = find_title title rest in
    elim e.number [ none ↦ later | some n ↦ if nat_eq n title then some e else later ]

-- `None` where the date is the sentinel "current".
unfoldable pub explicit_date : Option String → Option String
explicit_date none = none
explicit_date (some date) = if date == "current" then none else some date

given : String → Option String → List (String × String)
given name none = []
given name (some s) = (name, s) ∷ []

-- The section with its part in front.
unfoldable pub qualified_section : String → String → String
qualified_section part section =
    if starts_with (part ++ ".") section then section else part ++ "." ++ section

-- The filters of a version history.
pub record HistoryFilter : Type 0 where
  pub part : Option String
  pub section : Option String
  pub issue_date_on : Option String
  pub issue_date_lte : Option String
  pub issue_date_gte : Option String

-- The parameters of a search; the lists of agencies repeat their key.
pub record SearchRequest : Type 0 where
  pub query : String
  pub agency_slugs : List String
  pub date : Option String
  pub per_page : ℤ
  pub page : ℤ

unfoldable pub in_bounds : ℤ → ℤ → Bool
in_bounds (pos per_page) (pos page) = leb 1 per_page && leb per_page 100 && leb 1 page
in_bounds _ _ = false

unfoldable pub show : ℤ → String
show (pos n) = decimal n
show (negsuc n) = "-" ++ decimal (suc n)

unfoldable pub search_params : SearchRequest → List (String × String)
unfolding given show
search_params q =
    L.◌++◌ (("query", q.query) ∷ ("per_page", show q.per_page) ∷ ("page", show q.page) ∷ []) (
      L.◌++◌
        (given "date" (elim q.date [ none ↦ none | some d ↦ if truthy d then some d else none ]))
        (map (λ s. ("agency_slugs[]", s)) q.agency_slugs))

-- The entries of a response that could be parsed.
unfoldable pub decoded : Option (List TitleEntry) → Call (List TitleEntry)
decoded none = fail unexpected
decoded (some entries) = pure entries

module _ (upstream : List Request → Request → HttpResult String)
    (decode_titles : String → Option (List TitleEntry)) where
  unfoldable pub get : String → List (String × String) → Call String
  get path params = request upstream (record { path = path; params = params })

  -- `get_titles`, its entries read.
  unfoldable pub get_titles : Call (List TitleEntry)
  get_titles = do text ← get titles_endpoint []; decoded (decode_titles text)

  unfoldable pub remember_date : ℕ → Option String → Call String
  remember_date title none = fail unexpected
  remember_date title (some date) = do
    _ ← update (λ c. record c { latest_date_cache = insert title date c.latest_date_cache })
    pure date

  -- The rest of the loop over the entries, `else` included.
  unfoldable pub remember : ℕ → Option TitleEntry → Call String
  remember title none = fail ecfr_not_found
  remember title (some entry) = remember_date title entry.up_to_date_as_of

  unfoldable pub resolve_latest : ℕ → Option String → Call String
  unfolding remember
  resolve_latest title (some date) = pure date
  resolve_latest title none = do entries ← get_titles; remember title (find_title title entries)

  unfoldable pub resolve_explicit : ℕ → Option String → Call String
  resolve_explicit title (some date) = pure date
  resolve_explicit title none = do c ← self; resolve_latest title (lookup title c.latest_date_cache)

  -- `_resolve_date` and `resolve_date`.
  unfoldable pub resolve_date : ℕ → Option String → Call String
  unfolding resolve_explicit
  resolve_date title date = resolve_explicit title (explicit_date date)

  unfoldable pub fetch_missing : ℕ → String → Option String → Call String
  fetch_missing title resolved (some xml) = pure xml
  fetch_missing title resolved none = do
    xml ← get (full_text_path resolved title) []
    _ ← update (λ c. record c {
      full_title_xml_cache = insert (title, resolved) xml c.full_title_xml_cache;
    })
    pure xml

  -- `_fetch_full_title_xml`.
  unfoldable pub fetch_full_title_xml : ℕ → Option String → Call String
  fetch_full_title_xml title date = do
    resolved ← resolve_date title date
    c ← self
    fetch_missing title resolved (lookup (title, resolved) c.full_title_xml_cache)

  unfoldable pub get_structure : ℤ → Option String → Call String
  get_structure title date = do
    t ← validate_title title
    resolved ← resolve_date t date
    get (structure_path resolved t) []

  unfoldable pub retrieve_section : ℤ → String → String → Option String → Call String
  retrieve_section title part section date = do
    t ← validate_title title
    resolved ← resolve_date t date
    get (full_text_path resolved t)
        (("part", part) ∷ ("section", qualified_section part section) ∷ [])

  unfoldable pub retrieve_part : ℤ → String → Option String → Call String
  retrieve_part title part date = do
    t ← validate_title title
    resolved ← resolve_date t date
    get (full_text_path resolved t) (("part", part) ∷ [])

  unfoldable pub retrieve_title : ℤ → Option String → Call String
  retrieve_title title date = do
    t ← validate_title title
    resolved ← resolve_date t date
    fetch_full_title_xml t date

  unfoldable pub get_version_history : ℤ → HistoryFilter → Call String
  unfolding given
  get_version_history title f = do
    t ← validate_title title
    get (versions_path t) (
        L.◌++◌ (given "part" f.part) (
          L.◌++◌ (given "section" f.section) (
            L.◌++◌ (given "issue_date[on]" f.issue_date_on) (
              L.◌++◌ (given "issue_date[lte]" f.issue_date_lte)
                (given "issue_date[gte]" f.issue_date_gte)))))

  unfoldable pub list_agencies : Call String
  list_agencies = get agencies_endpoint []

  unfoldable pub search : SearchRequest → Call String
  unfolding in_bounds
  search q =
      if not (truthy (strip q.query)) || not (in_bounds q.per_page q.page)
      then fail validation
      else get search_results_endpoint (search_params q)
