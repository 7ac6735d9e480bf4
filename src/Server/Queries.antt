-- ===== src/Server/Queries.antt =====
-- What tools/search_by_keyword.py of src/cfr_compliance_mcp does with a request.
use cfr_compliance_mcp.Prelude.{
  ℕ, String, ◌≡◌, refl, ap, subst, ◌⊎◌, inl, inr, true, Option, Option-cases, none, some, List, [],
  ◌∷◌, ◌++◌, arith, truthy, join,
}
use cfr_compliance_mcp.Prelude.Int.{ℤ, pos, negsuc}
use cfr_compliance_mcp.Agent.{strip}
use cfr_compliance_mcp.Cache.Backend as Cache
use cfr_compliance_mcp.Cache.Backend.{Backend}
use cfr_compliance_mcp.Server.Errors.{
  HttpResult, raises, returns, translate, build_error_response, pydantic_validation,
}
use cfr_compliance_mcp.Server.Calls.{
  Request, Client, Returned, error, value, continue, answer, request,
}
use cfr_compliance_mcp.Server.Client.{
  TitleEntry, in_bounds, search_params, search_results_endpoint, get, search,
}
use cfr_compliance_mcp.Server.Cached.{cached_call, cached_or_compute, read_cached}
use cfr_compliance_mcp.Server.Requests.{
  SearchScope, valid_scope, valid_paging, strip_scope, clean_keywords, some_words,
  search_by_keyword_request,
}
use cfr_compliance_mcp.Server.Searching.{
  RawSearch, SearchResponse, shape_search, client_query, search_key, Answer, failure, found,
  answer_of, shaped, perform_search, search_tool, search_by_keyword,
}
use cfr_compliance_mcp.Server.Words.{Begins-truthy, join-words}

-- The request passes the client's own checks.
abbrev Acceptable : String × SearchScope → Type 0
Acceptable (query, q) = (truthy (strip query) ≡ true) × (in_bounds q.per_page q.page ≡ true)

in_bounds-valid :
    (per_page page : ℤ) → valid_paging per_page page ≡ true → in_bounds per_page page ≡ true
unfolding valid_paging in_bounds
in_bounds-valid (pos p) (pos q) h = h
in_bounds-valid (pos p) (negsuc q) h = absurd (ground arith)
in_bounds-valid (negsuc p) q h = absurd (ground arith)

keywords-Acceptable :
    (keywords : List String) (scope : SearchScope) (q : String × SearchScope)
    → search_by_keyword_request keywords scope ≡ some q
    → Acceptable q
unfolding search_by_keyword_request valid_scope
keywords-Acceptable keywords scope (query, s) h =
    let scoped = strip_scope scope in
    let words : some_words (clean_keywords keywords) ≡ true = ground arith in
    let paging : valid_paging scoped.per_page scoped.page ≡ true = ground arith in
    let joined : join " " (clean_keywords keywords) ≡ query = ground arith in
    let same : scoped ≡ s = ground arith in
    let word : truthy (strip query) ≡ true =
      subst (λ x. truthy (strip x) ≡ true) joined
        (Begins-truthy (join " " (clean_keywords keywords)) (join-words keywords words)) in
    let paged = in_bounds-valid scoped.per_page scoped.page paging in
    (word, subst (λ x. in_bounds x.per_page x.page ≡ true) same paged)

module _ {A : Type 0} (upstream : List Request → Request → HttpResult String)
    (decode_titles : String → Option (List TitleEntry))
    (decode_search : String → Returned (RawSearch A)) (encode : SearchResponse A → String)
    (decode : String → Option (SearchResponse A)) where
  -- The answer to what the upstream said.
  abbrev reported : ℤ → Returned (RawSearch A) → Answer A
  reported page (error e) = failure (build_error_response e)
  reported page (value raw) = found (shape_search page raw)

  abbrev pub replied : ℤ → HttpResult String → Answer A
  replied page (raises e) = failure (build_error_response (translate e))
  replied page (returns text) = reported page (decode_search text)

  abbrev pub search_request : String × SearchScope → Request
  search_request q = record {
    path = search_results_endpoint;
    params = search_params (client_query q);
  }

  shaped-replied :
      (page : ℤ) (r : Returned (RawSearch A)) (c : Client)
      → let out = shaped upstream decode_titles decode_search encode decode page r c in
        (answer_of out.0 ≡ reported page r) × (out.1 ≡ c)
  unfolding shaped answer_of
  shaped-replied page (error e) c = (refl, refl)
  shaped-replied page (value raw) c = (refl, refl)

  answer-replied :
      (page : ℤ) (r : HttpResult String) (c : Client)
      → let out = continue (answer r c) (λ text.
        shaped upstream decode_titles decode_search encode decode page (decode_search text)) in
        (answer_of out.0 ≡ replied page r) × (out.1 ≡ c)
  unfolding answer answer_of
  answer-replied page (raises e) c = (refl, refl)
  answer-replied page (returns text) c = shaped-replied page (decode_search text) c

  search-sends :
      (q : String × SearchScope) (c : Client)
      → Acceptable q
      → search upstream decode_titles (client_query q) c ≡ request upstream (search_request q) c
  unfolding search get client_query
  search-sends (query, s) c (word, paging) = rw (word, paging) refl

  -- One request, and the answer to what the upstream said.
  abbrev pub Asked : String × SearchScope → Client → Answer A → Client → Type 0
  Asked q c a c' =
      (a ≡ replied q.1.page (upstream c.sent (search_request q)))
      × (c'.sent ≡ c.sent ++ search_request q ∷ [])

  performed :
      (q : String × SearchScope) (c : Client)
      → Acceptable q
      → let out = perform_search upstream decode_titles decode_search encode decode q c in
        Asked q c (answer_of out.0) out.1
  unfolding perform_search request
  performed (query, s) c ok =
      let sends = search-sends (query, s) c ok in
      let q = search_request (query, s) in
      let (same, kept) =
        answer-replied s.page (upstream c.sent q) (record c { sent = c.sent ++ q ∷ [] }) in
      rw sends (same, ap (λ x. x.sent) kept)

  -- A request that was let through is answered from the cache, with what it holds for the request's
  -- key, or by asking the upstream.
  abbrev pub Answered : String × SearchScope → Option String → Client → Answer A → Client → Type 0
  Answered q cached c a c' =
      ((c' ≡ c)
        × ((text : String) × (cached ≡ some text)
            × (a ≡ answer_of (read_cached encode decode (decode text)))))
      ⊎ ((cached ≡ none) × Asked q c a c')

  looked-Answered :
      (key : String) (ttl : Option ℤ) (now : ℕ) (q : String × SearchScope)
      (r : Option String × Backend) (c : Client)
      → Acceptable q
      → let out =
          cached_or_compute encode decode key ttl now
            (perform_search upstream decode_titles decode_search encode decode q)
            r
            c in
        Answered q r.0 c (answer_of out.0) out.1.1
  unfolding cached_or_compute
  looked-Answered key ttl now q (some text, b) c ok = inl (refl, (text, refl, refl))
  looked-Answered key ttl now q (none, b) c ok = inr (refl, performed q c ok)

  -- A keyword search is refused by the validation of its request, and then nothing is sent and
  -- nothing changes; or it is answered from the cache without asking the upstream; or exactly one
  -- request is sent, for the joined keywords, and the answer is made of what the upstream said. The
  -- client's own checks never refuse a request that the validation let through.
  pub search_by_keyword_cases :
      (keywords : List String) (scope : SearchScope) (ttl : Option ℤ) (read_at write_at : ℕ)
      (b : Backend) (c : Client)
      → let request = search_by_keyword_request keywords scope in
        let out =
          search_by_keyword upstream decode_titles decode_search encode decode keywords scope ttl
            read_at write_at
            (b, c) in
        ((request ≡ none) × (out ≡ (failure (build_error_response pydantic_validation), (b, c))))
        ⊎ ((q : String × SearchScope) × (request ≡ some q)
            × Answered q (Cache.get (search_key q) read_at b).0 c out.0 out.1.1)
  unfolding search_by_keyword search_tool cached_call
  search_by_keyword_cases keywords scope ttl read_at write_at b c =
      elim (Option-cases (search_by_keyword_request keywords scope)) [
        | inl refused ↦ inl (refused, rw refused refl)
        | inr (q, valid) ↦
            let ok = keywords-Acceptable keywords scope q valid in
            let done =
              looked-Answered (search_key q) ttl write_at q (Cache.get (search_key q) read_at b) c
                ok in
            inr (q, valid, rw valid done)
      ]
