-- ===== src/Retrieval/Fetch.antt =====
-- `_retrieve_text`, `_derive_effective_version` and `retrieve_for_clause` of agent/mcp_search.py.
use Prim.Native.Char.{code}
use Prim.Native.String.{◌++◌}
use cfr_compliance_mcp.Prelude.{
  suc, String, Bool, true, false, ◌&&◌, ◌||◌, Option, none, some, List, [], ◌∷◌, nat_eq, truthy,
  if◌then◌else◌, ◌==◌,
}
use cfr_compliance_mcp.Prelude.Int.{ℤ, pos, negsuc}
use cfr_compliance_mcp.Regex.{is_digit}
use cfr_compliance_mcp.Models.{Clause}
use cfr_compliance_mcp.Agent.{strip}
use cfr_compliance_mcp.Rules.Keywords.{decimal}
use cfr_compliance_mcp.Verification.Checks.{VersionPayload, issue_dates, greatest}
use cfr_compliance_mcp.Pipeline.Match.{CfrMatch, parse_int}
use cfr_compliance_mcp.Retrieval.SearchQuery.{build_search_query}
use cfr_compliance_mcp.Retrieval.Domains.{optimize_clause}
use cfr_compliance_mcp.Retrieval.Candidates.{
  SearchHit, Candidate, select_best_candidate, format_citation,
}

-- A call of a tool: it raises, with the text of the exception, or returns.
pub data Fetch {ℓ} (A : Type ℓ) : Type ℓ where
  raises : String → Fetch A
  returns : A → Fetch A

-- The payload of `retrieve_section` and `retrieve_part`. A key of the citation that is absent is
-- `none`; a part or section that is there may be null, and a date that is there is a text.
pub record TextPayload : Type 0 where
  pub text : String
  pub title : Option String
  pub part : Option (Option String)
  pub section : Option (Option String)
  pub date : Option String
  pub heading : Option String

-- What is fetched, and the date as of which.
pub record TextRequest : Type 0 where
  pub title : ℤ
  pub part : String
  pub section : Option String
  pub date : Option String

-- The tools: the text of a section or, without one, of a part; and a version history.
pub record Tools : Type 0 where
  pub retrieve : TextRequest → Fetch TextPayload
  pub get_version_history : ℤ → String → Option String → Fetch VersionPayload

show_title : ℤ → String
show_title (pos n) = decimal n
show_title (negsuc n) = "-" ++ decimal (suc n)

given_or {ℓ} : {A : Type ℓ} → Option A → A → A
given_or none d = d
given_or (some a) d = a

pub record Retrieved : Type 0 where
  pub citation : String
  pub text : String
  pub date : String
  pub heading : Option String

unfoldable pub read_payload : TextRequest → TextPayload → Fetch Retrieved
unfolding show_title given_or
read_payload q p =
    if truthy p.text
    then returns (record {
      citation =
          format_citation (given_or p.title (show_title q.title)) (given_or p.part (some q.part))
            (given_or p.section q.section);
      text = p.text;
      date = given_or p.date "";
      heading = p.heading;
    })
    else raises "Tool response had no 'text' field"

-- `_retrieve_text`; a payload that reports an error raises.
unfoldable pub retrieve_text : Tools → TextRequest → Fetch Retrieved
retrieve_text tools q = elim (tools.retrieve q) [
  | raises e ↦ raises e
  | returns p ↦ read_payload q p
]

latest : List String → String
latest [] = ""
latest (d ∷ ds) = greatest d ds

unfoldable pub derive_effective_version : Option VersionPayload → String
unfolding latest
derive_effective_version none = ""
derive_effective_version (some payload) = latest (issue_dates payload.versions)

-- `_DATE_RE.match`: digits where the shape has a 0, and a line feed may follow.
matches_shape : String → String → Bool
matches_shape String.[] s = s == "" || s == "\n"
matches_shape (String.◌∷◌ k p) String.[] = false
matches_shape (String.◌∷◌ k p) (String.◌∷◌ c s) =
    (if nat_eq (code k) b'0' then is_digit c else nat_eq (code c) (code k)) && matches_shape p s

unfoldable pub is_date : String → Bool
unfolding matches_shape
is_date s = matches_shape "0000-00-00" s

unfoldable pub version_history : Fetch VersionPayload → Option VersionPayload
version_history (raises e) = none
version_history (returns p) = some p

abbrev pub failed_retrieval : String → Clause → String → CfrMatch
failed_retrieval now clause message = record {
  clause = clause;
  citation = none;
  regulation_text = none;
  error = some message;
  version_payload = none;
  part = none;
  section = none;
  heading = none;
  date = "";
  version = "";
  source = "eCFR";
  retrieval_method = "ecfr_api";
  retrieved_at = now;
  effective_version = "";
  version_specific = false;
}

module _ (now : String) (tools : Tools) (clause : Clause) where
  unfoldable pub labelled :
      TextRequest → Option VersionPayload → String → Option String → Retrieved → Bool → CfrMatch
  labelled q history effective heading r specific = record {
    clause = clause;
    citation = some r.citation;
    regulation_text = some r.text;
    error = none;
    version_payload = history;
    part = some q.part;
    section = q.section;
    heading = heading;
    date = r.date;
    version = if specific then effective else "";
    source = "eCFR";
    retrieval_method = "ecfr_api";
    retrieved_at = now;
    effective_version = effective;
    version_specific = specific;
  }

  -- The second fetch, for the effective version; the current text stays where it fails.
  unfoldable pub retrieve_version :
      TextRequest → Option VersionPayload → String → Retrieved → CfrMatch
  retrieve_version q history effective current =
      if truthy effective && is_date effective
      then elim (retrieve_text tools (record q { date = some effective })) [
        | raises e ↦ labelled q history effective current.heading current false
        | returns r ↦ labelled q history effective current.heading r true
      ]
      else labelled q history effective current.heading current false

  unfoldable pub retrieve_titled : TextRequest → CfrMatch
  unfolding version_history
  retrieve_titled q = elim (retrieve_text tools q) [
    | raises e ↦ failed_retrieval now clause e
    | returns current ↦
        let history = version_history (tools.get_version_history q.title q.part q.section) in
        retrieve_version q history (derive_effective_version history) current
  ]

  unfoldable pub retrieve_candidate : Option Candidate → CfrMatch
  retrieve_candidate none =
      failed_retrieval now clause
        "No search result had a usable CFR title/part (all appendix-only or incomplete)"
  retrieve_candidate (some (title, part, section)) = elim (parse_int (strip title)) [
    | none ↦ failed_retrieval now clause ("Non-numeric CFR title in hierarchy: '" ++ title ++ "'")
    | some t ↦ retrieve_titled (record { title = t; part = part; section = section; date = none })
  ]

  -- `retrieve_for_clause`, from the search results and the predicted title on; a search that raises
  -- is a match with its text.
  unfoldable pub retrieve_from_results : Fetch (List SearchHit) → Option String → CfrMatch
  unfolding retrieve_candidate
  retrieve_from_results (raises e) predicted = failed_retrieval now clause e
  retrieve_from_results (returns []) predicted =
      failed_retrieval now clause "No CFR search results found"
  retrieve_from_results (returns (r ∷ rs)) predicted =
      retrieve_candidate (select_best_candidate (r ∷ rs) predicted)

  -- `retrieve_for_clause`: the search gets the query that the optimizer made.
  unfoldable pub retrieve_for_clause : (String → Fetch (List SearchHit)) → CfrMatch
  retrieve_for_clause search =
      let o = optimize_clause clause.title clause.text (build_search_query clause) in
      retrieve_from_results (search o.search_query) o.title
