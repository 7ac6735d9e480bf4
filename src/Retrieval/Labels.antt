-- ===== src/Retrieval/Labels.antt =====
-- What a match of agent/mcp_search.py may claim of its text.
use cfr_compliance_mcp.Prelude.{
  String, ◌≡◌, refl, ◌⊎◌, inl, inr, true, false, ◌&&◌, Option, none, some, List, [], ◌∷◌, arith,
  truthy, Bool-cases, Option-cases,
}
use cfr_compliance_mcp.Models.{Clause}
use cfr_compliance_mcp.Agent.{strip}
use cfr_compliance_mcp.Verification.Checks.{VersionPayload}
use cfr_compliance_mcp.Pipeline.Match.{CfrMatch, parse_int}
use cfr_compliance_mcp.Pipeline.Evaluation.{usable}
use cfr_compliance_mcp.Retrieval.SearchQuery.{build_search_query}
use cfr_compliance_mcp.Retrieval.Domains.{optimize_clause}
use cfr_compliance_mcp.Retrieval.Candidates.{SearchHit, Candidate, select_best_candidate}
use cfr_compliance_mcp.Retrieval.Fetch.{
  Fetch, raises, returns, TextRequest, Tools, Retrieved, retrieve_text, derive_effective_version,
  is_date, version_history, failed_retrieval, labelled, retrieve_version, retrieve_titled,
  retrieve_candidate, retrieve_from_results, retrieve_for_clause,
}

pub Fetch-cases {ℓ} :
    {A : Type ℓ} (f : Fetch A) → ((e : String) × (f ≡ raises e)) ⊎ ((a : A) × (f ≡ returns a))
Fetch-cases (raises e) = inl (e, refl)
Fetch-cases (returns a) = inr (a, refl)

module _ (now : String) (tools : Tools) (clause : Clause) where
  -- The match has a message and nothing else.
  abbrev pub Failed : CfrMatch → Type 0
  Failed m = (e : String) × (m ≡ failed_retrieval now clause e)

  -- The text is that of a fetch without a date, and no version is claimed.
  abbrev pub Current : CfrMatch → Type 0
  Current m =
      (q : TextRequest) × (r : Retrieved) × (q.date ≡ none)
      × (retrieve_text tools q ≡ returns r)
      × (usable m ≡ some (r.citation, r.text))
      × (m.version ≡ "")
      × (m.version_specific ≡ false)

  -- The text is that of a fetch as of the version that is claimed.
  abbrev pub Versioned : CfrMatch → Type 0
  Versioned m =
      (q : TextRequest) × (r : Retrieved) × (q.date ≡ some m.version)
      × (retrieve_text tools q ≡ returns r)
      × (usable m ≡ some (r.citation, r.text))
      × (m.version ≡ m.effective_version)
      × (m.effective_version ≡ derive_effective_version m.version_payload)
      × (is_date m.version ≡ true)

  abbrev pub Labelled : CfrMatch → Type 0
  Labelled m = Failed m ⊎ Current m ⊎ Versioned m

  retrieve_version-Labelled :
      (q : TextRequest) (history : Option VersionPayload) (current : Retrieved)
      → q.date ≡ none
      → retrieve_text tools q ≡ returns current
      → Labelled
          (retrieve_version now tools clause q history (derive_effective_version history) current)
  unfolding retrieve_version labelled usable
  retrieve_version-Labelled q history current undated fetched =
      let effective = derive_effective_version history in
      elim (Bool-cases (truthy effective && is_date effective)) [
        | inr no_version ↦
            rw no_version (inr (inl (q, current, undated, fetched, refl, refl, refl)))
        | inl dated ↦
            let q' : TextRequest = record q { date = some effective } in
            elim (Fetch-cases (retrieve_text tools q')) [
              | inl (e, failed) ↦
                  rw (dated, failed) (inr (inl (q, current, undated, fetched, refl, refl, refl)))
              | inr (r, done) ↦
                  rw (dated, done) (inr (inr (q', r, refl, done, refl, refl, refl, ground arith)))
            ]
      ]

  retrieve_titled-Labelled :
      (q : TextRequest) → q.date ≡ none → Labelled (retrieve_titled now tools clause q)
  unfolding retrieve_titled
  retrieve_titled-Labelled q undated = elim (Fetch-cases (retrieve_text tools q)) [
    | inl (e, failed) ↦ rw (failed, retrieve_titled) (inl (e, refl))
    | inr (current, fetched) ↦
        rw (fetched, retrieve_titled)
          (retrieve_version-Labelled q
            (version_history (tools.get_version_history q.title q.part q.section)) current undated
            fetched)
  ]

  retrieve_candidate-Labelled :
      (c : Option Candidate) → Labelled (retrieve_candidate now tools clause c)
  unfolding retrieve_candidate
  retrieve_candidate-Labelled none = inl (_, refl)
  retrieve_candidate-Labelled (some (title, part, section)) =
      elim (Option-cases (parse_int (strip title))) [
        | inl unreadable ↦ rw (unreadable, retrieve_candidate) (inl (_, refl))
        | inr (t, parsed) ↦
            rw (parsed, retrieve_candidate)
              (retrieve_titled-Labelled
                (record { title = t; part = part; section = section; date = none }) refl)
      ]

  retrieve_from_results-Labelled :
      (results : Fetch (List SearchHit)) (predicted : Option String)
      → Labelled (retrieve_from_results now tools clause results predicted)
  unfolding retrieve_from_results
  retrieve_from_results-Labelled (raises e) predicted = inl (e, refl)
  retrieve_from_results-Labelled (returns []) predicted = inl (_, refl)
  retrieve_from_results-Labelled (returns (r ∷ rs)) predicted =
      retrieve_candidate-Labelled (select_best_candidate (r ∷ rs) predicted)

  -- Whatever the search gives and the tools answer, a match is a failure with its message; or has
  -- the text and citation that a fetch without a date returned, and claims no version; or has those
  -- that a fetch as of the claimed version returned, which is the effective version of its history.
  pub retrieve_for_clause-Labelled :
      (search : String → Fetch (List SearchHit))
      → Labelled (retrieve_for_clause now tools clause search)
  unfolding retrieve_for_clause
  retrieve_for_clause-Labelled search =
      let o = optimize_clause clause.title clause.text (build_search_query clause) in
      retrieve_from_results-Labelled (search o.search_query) o.title
