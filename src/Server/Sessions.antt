-- ===== src/Server/Sessions.antt =====
-- Any sequence of calls of `EcfrClient` (src/cfr_compliance_mcp/clients/ecfr_client.py): what it
-- asks the upstream for, and what its caches hold.
use cfr_compliance_mcp.Prelude.{
  ℕ, ◌≤◌, String, ◌≡◌, refl, ap, ◌⊎◌, inl, inr, Option, none, some, List, [], ◌∷◌, ◌++◌, All,
  All-append, arith, Option-cases,
}
use cfr_compliance_mcp.Prelude.Dict.{lookup, lookup-insert}
use cfr_compliance_mcp.Server.Errors.{HttpResult, raises, returns, ToolError}
use cfr_compliance_mcp.Server.Calls.{
  Request, title_key, dated_key, Client, Returned, error, value, Call, pure, fail, continue, ◌>>=◌,
  answer, request,
}
use cfr_compliance_mcp.Server.Client.{
  TitleEntry, titles_endpoint, structure_path, full_text_path, versions_path,
  search_results_endpoint, agencies_endpoint, find_title, explicit_date, decoded, get, get_titles,
  remember_date, remember, resolve_latest, resolve_explicit, resolve_date,
}

-- The paths that may be asked for: a title in them is from 1 to 50.
abbrev pub Allowed : Request → Type 0
Allowed q =
    (q.path ≡ titles_endpoint)
    ⊎ (q.path ≡ agencies_endpoint)
    ⊎ (q.path ≡ search_results_endpoint)
    ⊎ ((t : ℕ) × (1 ≤ t)
        × (t ≤ 50)
        × ((q.path ≡ versions_path t)
            ⊎ ((date : String) × ((q.path ≡ structure_path date t)
                  ⊎ (q.path ≡ full_text_path date t)))))

module _ (upstream : List Request → Request → HttpResult String)
    (decode_titles : String → Option (List TitleEntry)) where
  -- The upstream answered, at some time, the request for the full text of the title at the date.
  abbrev pub Fetched : (ℕ × String) × String → Type 0
  Fetched ((title, date), xml) =
      (before : List Request) × (upstream before
          (record { path = full_text_path date title; params = [] })
        ≡ returns xml)

  abbrev pub Good : Client → Type 0
  Good c = All Allowed c.sent × All Fetched c.full_title_xml_cache

  -- What a call does to a client: a good one stays good, and no date that is known changes.
  abbrev pub Keeps : Client → Client → Type 0
  Keeps c c' =
      (Good c → Good c')
      × ((t : ℕ) (d : String)
          → lookup t c.latest_date_cache ≡ some d
          → lookup t c'.latest_date_cache ≡ some d)

  abbrev pub Safe {ℓ} : {A : Type ℓ} → Call A → Type 0
  Safe m = (c : Client) → Keeps c (m c).1

  pub Keeps-continue :
      {A B : Type 0} (c : Client) (r : Returned A × Client) (k : A → Call B)
      → Keeps c r.1
      → ((a : A) → Safe (k a))
      → Keeps c (continue r k).1
  Keeps-continue c (error e, c') k first next = first
  Keeps-continue c (value a, c') k first next =
      let later = next a c' in (λ h. later.0 (first.0 h), λ t d h. later.1 t d (first.1 t d h))

  pub Safe-bind :
      {A B : Type 0} (m : Call A) (k : A → Call B)
      → Safe m
      → ((a : A) → Safe (k a))
      → Safe (m >>= k)
  Safe-bind m k first next c = Keeps-continue c (m c) k (first c) next

  Safe-pure : {A : Type 0} (a : A) → Safe (pure a)
  Safe-pure a c = (λ h. h, λ t d h. h)

  Safe-fail : (A : Type 0) (e : ToolError) → Safe (fail {A = A} e)
  Safe-fail A e c = (λ h. h, λ t d h. h)

  unfoldable pub asked : Request → Client → Client
  asked q c = record c { sent = c.sent ++ q ∷ [] }

  pub Keeps-asked : (q : Request) (c : Client) → Allowed q → Keeps c (asked q c)
  unfolding asked
  Keeps-asked q c ok = (λ h. (All-append Allowed c.sent (q ∷ []) h.0 (ok, tt), h.1), λ t d h. h)

  Keeps-answer : (c c' : Client) (r : HttpResult String) → Keeps c c' → Keeps c (answer r c').1
  unfolding answer
  Keeps-answer c c' (raises e) h = h
  Keeps-answer c c' (returns text) h = h

  pub Safe-get :
      (path : String) (params : List (String × String))
      → Allowed (record { path = path; params = params })
      → Safe (get upstream decode_titles path params)
  unfolding get request asked
  Safe-get path params ok c =
      let q : Request = record { path = path; params = params } in
      Keeps-answer c (asked q c) (upstream c.sent q) (Keeps-asked q c ok)

  Safe-decoded : (o : Option (List TitleEntry)) → Safe (decoded o)
  unfolding decoded
  Safe-decoded none c = (λ h. h, λ t d h. h)
  Safe-decoded (some entries) c = (λ h. h, λ t d h. h)

  pub Safe-get_titles : Safe (get_titles upstream decode_titles)
  unfolding get_titles
  Safe-get_titles =
      Safe-bind (get upstream decode_titles titles_endpoint []) _
        (Safe-get titles_endpoint [] (inl refl)) (λ text. Safe-decoded (decode_titles text))

  Safe-remember :
      (title : ℕ) (entry : Option TitleEntry) (c : Client)
      → lookup title c.latest_date_cache ≡ none
      → Keeps c (remember upstream decode_titles title entry c).1
  unfolding remember remember_date
  Safe-remember title none c new = (λ h. h, λ t d h. h)
  Safe-remember title (some entry) c new = elim (Option-cases entry.up_to_date_as_of) [
    | inl absent ↦ rw absent (λ h. h, λ t d h. h)
    | inr (date, there) ↦ rw there (
      λ h. h,
      λ t d h.
          ground
            (arith, lookup-insert title t date c.latest_date_cache, title_key.key_eq_iff title t),
    )
  ]

  -- Fetching the titles touches no date.
  decoded-dates : (o : Option (List TitleEntry)) (c : Client) → (decoded o c).1 ≡ c
  unfolding decoded
  decoded-dates none c = refl
  decoded-dates (some entries) c = refl

  answer-dates :
      (c : Client) (r : HttpResult String)
      → (continue (answer r c) (λ text. decoded (decode_titles text))).1.latest_date_cache
        ≡ c.latest_date_cache
  unfolding answer
  answer-dates c (raises e) = refl
  answer-dates c (returns text) =
      ap (λ x. x.latest_date_cache) (decoded-dates (decode_titles text) c)

  titles-dates :
      (c : Client) → (get_titles upstream decode_titles c).1.latest_date_cache ≡ c.latest_date_cache
  unfolding get_titles get request
  titles-dates c =
      let q : Request = record { path = titles_endpoint; params = [] } in
      answer-dates (record c { sent = c.sent ++ q ∷ [] }) (upstream c.sent q)

  Keeps-remember :
      (title : ℕ) (c : Client) (r : Returned (List TitleEntry) × Client)
      → lookup title c.latest_date_cache ≡ none
      → r.1.latest_date_cache ≡ c.latest_date_cache
      → Keeps c r.1
      → Keeps c
          (continue r
            (λ entries. remember upstream decode_titles title (find_title title entries))).1
  Keeps-remember title c (error e, c') new same first = first
  Keeps-remember title c (value entries, c') new same first =
      let later = Safe-remember title (find_title title entries) c' (rw same new) in
      (λ h. later.0 (first.0 h), λ t d h. later.1 t d (first.1 t d h))

  Keeps-resolve :
      (title : ℕ) (c : Client) (known : Option String)
      → lookup title c.latest_date_cache ≡ known
      → Keeps c (resolve_latest upstream decode_titles title known c).1
  unfolding resolve_latest
  Keeps-resolve title c (some date) is = (λ h. h, λ t d h. h)
  Keeps-resolve title c none is =
      Keeps-remember title c (get_titles upstream decode_titles c) is (titles-dates c)
        (Safe-get_titles c)

  Safe-resolve_explicit :
      (title : ℕ) (date : Option String) → Safe (resolve_explicit upstream decode_titles title date)
  unfolding resolve_explicit
  Safe-resolve_explicit title (some d) c = (λ h. h, λ t e h. h)
  Safe-resolve_explicit title none c = Keeps-resolve title c (lookup title c.latest_date_cache) refl

  pub Safe-resolve_date :
      (title : ℕ) (date : Option String) → Safe (resolve_date upstream decode_titles title date)
  unfolding resolve_date
  Safe-resolve_date title date = Safe-resolve_explicit title (explicit_date date)
