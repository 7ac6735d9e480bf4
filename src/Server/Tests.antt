-- ===== src/Server/Tests.antt =====
-- A limiter, a client and a cache on a few calls: tests of src/cfr_compliance_mcp.
use cfr_compliance_mcp.Prelude.{
  String, ◌≡◌, refl, ◌⊎◌, inl, inr, ◌↔◌, true, Option, none, some, List, [], ◌∷◌, arith,
}
use cfr_compliance_mcp.Prelude.Int.{pos}
use cfr_compliance_mcp.Prelude.Dict.{lookup, insert, string_eq}
use cfr_compliance_mcp.Cache.Backend as Cache
use cfr_compliance_mcp.Cache.Backend.{Backend, read_entry}
use cfr_compliance_mcp.Server.Limiter.{Readings, evict_expired, sleep_for, acquire}
use cfr_compliance_mcp.Server.Spacing.{Spaced, Timed, OnBoundary, admitted, acquire-Spaced}
use cfr_compliance_mcp.Server.Errors.{
  response, rate_limited, HttpResult, raises, returns, attempt, checked, raise_for_status,
  is_retryable, translate, build_error_response, ToolError, pydantic_validation,
}
use cfr_compliance_mcp.Server.Retrying.{Transient, attempt-retryable_iff}
use cfr_compliance_mcp.Server.Calls.{
  Request, Returned, new_client, title_key, error, value, Call, answer, request, pure,
}
use cfr_compliance_mcp.Server.Client.{
  TitleEntry, full_text_path, find_title, explicit_date, decoded, get, get_titles, remember_date,
  remember, resolve_latest, resolve_explicit, resolve_date, validate_title, retrieve_section,
}
use cfr_compliance_mcp.Server.Sessions.{Good}
use cfr_compliance_mcp.Server.Histories.{Op, titles, title_text, run, run-Good}
use cfr_compliance_mcp.Server.Citing.{
  cite, section_at, dated_section, resolve_date-stable, FetchedAs, dated_section-Fetched,
}
use cfr_compliance_mcp.Server.Cached.{cached_call}
use cfr_compliance_mcp.Server.Requests.{SearchScope, search_by_keyword_request}
use cfr_compliance_mcp.Server.Searching.{
  RawSearch, SearchResponse, search_key, failure, search_by_keyword,
}
use cfr_compliance_mcp.Server.Queries.{Answered, search_by_keyword_cases}
use cfr_compliance_mcp.Server.Freshness.{cached_call-again}

abbrev early : Readings
early = record { first = 10; second = 10; third = 10; last = 10 }

abbrev late : Readings
late = record { first = 20; second = 20; third = 60011; last = 60012 }

timed : Timed 1 0 [] (early ∷ late ∷ [])
unfolding acquire evict_expired sleep_for
timed = (
  (omega arith, omega arith, omega arith, omega arith, inl (omega arith)),
  ((omega arith, omega arith, omega arith, omega arith, inr (omega arith)), tt),
)

acquire-Spaced_example :
    Spaced 1 (admitted 1 [] [] (early ∷ late ∷ [])) ⊎ OnBoundary 1 [] (early ∷ late ∷ [])
acquire-Spaced_example = acquire-Spaced 1 0 (early ∷ late ∷ []) (omega arith) timed

too_many : attempt (response 429 "slow down") ≡ raises rate_limited
unfolding attempt checked raise_for_status
too_many = refl

attempt-retryable_iff_example :
    ((is_retryable rate_limited ≡ true) ↔ Transient (response 429 "slow down"))
    × (((build_error_response (translate rate_limited)).retryable ≡ true)
        ↔ Transient (response 429 "slow down"))
attempt-retryable_iff_example =
    attempt-retryable_iff (response 429 "slow down") rate_limited too_many

-- An upstream that answers everything, and an index that has title 40.
abbrev upstream : List Request → Request → HttpResult String
upstream before q = returns q.path

abbrev titles_index : String → Option (List TitleEntry)
titles_index text = some (record { number = some 40; up_to_date_as_of = some "2024-05-01" } ∷ [])

run-Good_example : Good upstream titles_index (
    run upstream titles_index
      (titles ∷ title_text (pos 40) none ∷ title_text (pos 99) none ∷ [])
      new_client)
run-Good_example =
    run-Good upstream titles_index
      (titles ∷ title_text (pos 40) none ∷ title_text (pos 99) none ∷ [])

resolves : (resolve_date upstream titles_index 40 none new_client).0 ≡ value "2024-05-01"
unfolding resolve_date resolve_explicit explicit_date resolve_latest lookup get_titles get request
    answer decoded find_title remember remember_date
resolves = refl

resolve_date-stable_example :
    let ops : List Op = title_text (pos 40) none ∷ titles ∷ [] in
    let later =
      run upstream titles_index ops (resolve_date upstream titles_index 40 none new_client).1 in
    resolve_date upstream titles_index 40 none later ≡ (value "2024-05-01", later)
resolve_date-stable_example =
    resolve_date-stable upstream titles_index 40 none "2024-05-01" new_client
      (title_text (pos 40) none ∷ titles ∷ []) resolves

gets :
    (dated_section upstream titles_index 40 "257" "3" none new_client).0
    ≡ value ("2024-05-01", full_text_path "2024-05-01" 40)
unfolding dated_section section_at cite retrieve_section validate_title resolve_date
    resolve_explicit explicit_date resolve_latest lookup get_titles get request answer decoded
    find_title remember remember_date insert
gets = refl

dated_section-Fetched_example :
    FetchedAs upstream titles_index 40 "257" "3" "2024-05-01" (full_text_path "2024-05-01" 40)
dated_section-Fetched_example =
    dated_section-Fetched upstream titles_index 40 "257" "3" none new_client "2024-05-01"
      (full_text_path "2024-05-01" 40) (omega arith) (omega arith) gets

abbrev cold : Backend
cold = record { default_ttl_seconds = pos 60; store = [] }

misses : (Cache.get "section:40:257:3:none" 5 cold).0 ≡ none
unfolding Cache.get read_entry lookup
misses = refl

abbrev as_text : String → String
as_text s = s

abbrev hello : Call String
hello = pure "hello"

cached_call-again_example :
    let key : String = "section:40:257:3:none" in
    let ttl = some (pos 60) in
    let out = cached_call as_text some key ttl 5 6 hello (cold, new_client) in
    ((e : ToolError) × (out.0 ≡ error e) × (out.1.0 ≡ (Cache.get key 5 cold).1))
    ⊎ ((a : String) × (out.0 ≡ value a)
        × (cached_call as_text some key ttl 66 67 (pure "other") out.1 ≡ (value a, out.1)))
cached_call-again_example =
    cached_call-again as_text some "section:40:257:3:none" 59 5 6 66 67 hello (pure "other") cold
      new_client (λ a. refl) (omega arith) misses

abbrev first_page : SearchScope
first_page = record { agency_slugs = none; date = some "current"; per_page = pos 20; page = pos 1 }

-- The search service finds one text.
abbrev one_hit : String → Returned (RawSearch String)
one_hit text =
    value (record {
      results = text ∷ [];
      total_count = some 1;
      current_page = none;
      total_pages = none;
    })

abbrev hits_text : SearchResponse String → String
hits_text r = "hits"

abbrev no_hits : String → Option (SearchResponse String)
no_hits text = none

abbrev empty_cache : Backend
empty_cache = record { default_ttl_seconds = pos 60; store = [] }

search_by_keyword_cases_example :
    let request = search_by_keyword_request (" waste " ∷ "drum" ∷ []) first_page in
    let out =
      search_by_keyword upstream titles_index one_hit hits_text no_hits
        (" waste " ∷ "drum" ∷ [])
        first_page
        none
        10
        11
        (empty_cache, new_client) in
    ((request ≡ none)
      × (out ≡ (failure (build_error_response pydantic_validation), (empty_cache, new_client))))
    ⊎ ((q : String × SearchScope) × (request ≡ some q)
        × Answered upstream titles_index one_hit hits_text no_hits q
            (Cache.get (search_key q) 10 empty_cache).0
            new_client
            out.0
            out.1.1)
search_by_keyword_cases_example =
    search_by_keyword_cases upstream titles_index one_hit hits_text no_hits
      (" waste " ∷ "drum" ∷ []) first_page none 10 11 empty_cache new_client
