-- ===== src/Server/Citing.antt =====
-- The text that the tool `retrieve_section` fetches, and the date that it cites:
-- src/cfr_compliance_mcp/tools/retrieve_section.py and clients/ecfr_client.py.
use cfr_compliance_mcp.Prelude.{
  ℕ, ◌≤◌, String, ◌≡◌, refl, ap, subst, ◌∙◌, true, Option, none, some, List, [], ◌∷◌, arith, leb,
  ◌&&◌,
}
use cfr_compliance_mcp.Prelude.Int.{pos}
use cfr_compliance_mcp.Prelude.Dict.{lookup, lookup-insert_self}
use cfr_compliance_mcp.Server.Errors.{HttpResult, raises, returns}
use cfr_compliance_mcp.Server.Calls.{
  Request, title_key, Client, Returned, error, value, Call, pure, continue, ◌>>=◌, answer, request,
}
use cfr_compliance_mcp.Server.Client.{
  TitleEntry, full_text_path, find_title, explicit_date, remember_date, remember, resolve_latest,
  resolve_explicit, resolve_date, get, get_titles, qualified_section, validate_title,
  retrieve_section,
}
use cfr_compliance_mcp.Server.Histories.{Op, run, Keeps-run}

module _ (upstream : List Request → Request → HttpResult String)
    (decode_titles : String → Option (List TitleEntry)) where
  unfoldable pub cite : String → String → Call (String × String)
  cite date xml = pure (date, xml)

  unfoldable pub section_at : ℕ → String → String → Option String → String → Call (String × String)
  section_at title part section date resolved = do
    xml ← retrieve_section upstream decode_titles (pos title) part section date
    cite resolved xml

  -- The function `compute` of the tool, up to the parsing: the date that goes into the citation, and
  -- the fetched text.
  unfoldable pub dated_section : ℕ → String → String → Option String → Call (String × String)
  unfolding section_at
  dated_section title part section date = do
    resolved ← resolve_date upstream decode_titles title date
    section_at title part section date resolved

  remember_date-known :
      (title : ℕ) (date : Option String) (c : Client) (d : String)
      → (remember_date upstream decode_titles title date c).0 ≡ value d
      → lookup title (remember_date upstream decode_titles title date c).1.latest_date_cache
        ≡ some d
  unfolding remember_date
  remember_date-known title none c d h = absurd (ground arith)
  remember_date-known title (some date) c d h =
      let same : date ≡ d = ground arith in
      lookup-insert_self title date c.latest_date_cache ∙ ap some same

  remember-known :
      (title : ℕ) (entry : Option TitleEntry) (c : Client) (d : String)
      → (remember upstream decode_titles title entry c).0 ≡ value d
      → lookup title (remember upstream decode_titles title entry c).1.latest_date_cache ≡ some d
  unfolding remember
  remember-known title none c d h = absurd (ground arith)
  remember-known title (some entry) c d h = remember_date-known title entry.up_to_date_as_of c d h

  continue-known :
      (title : ℕ) (r : Returned (List TitleEntry) × Client) (d : String)
      → let out = continue r (λ es. remember upstream decode_titles title (find_title title es)) in
        out.0 ≡ value d → lookup title out.1.latest_date_cache ≡ some d
  continue-known title (error e, c) d h = absurd (ground arith)
  continue-known title (value es, c) d h = remember-known title (find_title title es) c d h

  latest-known :
      (title : ℕ) (known : Option String) (c : Client) (d : String)
      → lookup title c.latest_date_cache ≡ known
      → (resolve_latest upstream decode_titles title known c).0 ≡ value d
      → lookup title (resolve_latest upstream decode_titles title known c).1.latest_date_cache
        ≡ some d
  unfolding resolve_latest
  latest-known title (some e) c d is h = let same : e ≡ d = ground arith in is ∙ ap some same
  latest-known title none c d is h = continue-known title (get_titles upstream decode_titles c) d h

  -- What a resolution gave is given again at once.
  abbrev Settled : ℕ → Option String → String → Client → Type 0
  Settled title (some e) d c = e ≡ d
  Settled title none d c = lookup title c.latest_date_cache ≡ some d

  explicit-Settled :
      (title : ℕ) (date : Option String) (c : Client) (d : String)
      → (resolve_explicit upstream decode_titles title date c).0 ≡ value d
      → Settled title date d (resolve_explicit upstream decode_titles title date c).1
  unfolding resolve_explicit
  explicit-Settled title (some e) c d h = ground arith
  explicit-Settled title none c d h =
      latest-known title (lookup title c.latest_date_cache) c d refl h

  Settled-explicit :
      (title : ℕ) (date : Option String) (d : String) (c : Client)
      → Settled title date d c
      → resolve_explicit upstream decode_titles title date c ≡ (value d, c)
  unfolding resolve_explicit resolve_latest
  Settled-explicit title (some e) d c h = rw h refl
  Settled-explicit title none d c h = rw h refl

  Settled-run :
      (title : ℕ) (date : Option String) (d : String) (c : Client) (ops : List Op)
      → Settled title date d c
      → Settled title date d (run upstream decode_titles ops c)
  Settled-run title (some e) d c ops h = h
  Settled-run title none d c ops h = (Keeps-run upstream decode_titles ops c).1 title d h

  -- When the calls of a client run one after another: once a date was resolved for a title,
  -- whatever is called in between, resolving it again gives it, and asks the upstream for nothing.
  pub resolve_date-stable :
      (title : ℕ) (date : Option String) (d : String) (c : Client) (ops : List Op)
      → (resolve_date upstream decode_titles title date c).0 ≡ value d
      → let later =
          run upstream decode_titles ops (resolve_date upstream decode_titles title date c).1 in
        resolve_date upstream decode_titles title date later ≡ (value d, later)
  unfolding resolve_date
  resolve_date-stable title date d c ops h =
      let e = explicit_date date in
      let next = (resolve_explicit upstream decode_titles title e c).1 in
      Settled-explicit title e d (run upstream decode_titles ops next)
        (Settled-run title e d next ops (explicit-Settled title e c d h))

  section_request : ℕ → String → String → String → Request
  section_request title part section date = record {
    path = full_text_path date title;
    params = ("part", part) ∷ ("section", qualified_section part section) ∷ [];
  }

  -- With a title in range and a date that is settled, one request is sent.
  section-request :
      (title : ℕ) (part section : String) (date : Option String) (d : String) (c : Client)
      → (leb 1 title && leb title 50) ≡ true
      → resolve_date upstream decode_titles title date c ≡ (value d, c)
      → retrieve_section upstream decode_titles (pos title) part section date c
        ≡ request upstream (section_request title part section d) c
  unfolding retrieve_section validate_title get section_request
  section-request title part section date d c valid settled = rw (valid, settled) refl

  -- The upstream gave the text for the date.
  abbrev pub FetchedAs : ℕ → String → String → String → String → Type 0
  FetchedAs title part section d xml =
      (before : List Request) × (upstream before (record {
        path = full_text_path d title;
        params = ("part", part) ∷ ("section", qualified_section part section) ∷ [];
      })
        ≡ returns xml)

  answered :
      (title : ℕ) (part section d d' xml' : String) (c c' : Client) (r : HttpResult String)
      → upstream c.sent (section_request title part section d) ≡ r
      → (continue (answer r c') (cite d)).0 ≡ value (d', xml')
      → FetchedAs title part section d' xml'
  unfolding answer section_request cite
  answered title part section d d' xml' c c' (raises e) is h = absurd (ground arith)
  answered title part section d d' xml' c c' (returns xml) is h =
      let same : d ≡ d' = ground arith in
      let text : xml ≡ xml' = ground arith in
      subst (λ x. FetchedAs title part section x xml') same
        (subst (λ x. FetchedAs title part section d x) text (c.sent, is))

  -- From the resolved date on.
  fetched :
      (title : ℕ) (part section : String) (date : Option String) (d' xml' : String)
      (r : Returned String × Client)
      → (leb 1 title && leb title 50) ≡ true
      → ((d : String) → r.0 ≡ value d → Settled title (explicit_date date) d r.1)
      → (continue r (section_at title part section date)).0 ≡ value (d', xml')
      → FetchedAs title part section d' xml'
  unfolding resolve_date request section_at
  fetched title part section date d' xml' (error e, c) valid settled h = absurd (ground arith)
  fetched title part section date d' xml' (value d, c) valid settled h =
      let again = Settled-explicit title (explicit_date date) d c (settled d refl) in
      let one = section-request title part section date d c valid again in
      answered title part section d d' xml' c _
        (upstream c.sent (section_request title part section d)) refl (rw one at h)

  -- When the tool gets a section, the date that it cites is the date for which the upstream gave the
  -- text, also where the date was not given and had to be resolved twice.
  pub dated_section-Fetched :
      (title : ℕ) (part section : String) (date : Option String) (c : Client) (d xml : String)
      → 1 ≤ title
      → title ≤ 50
      → (dated_section title part section date c).0 ≡ value (d, xml)
      → FetchedAs title part section d xml
  unfolding dated_section resolve_date
  dated_section-Fetched title part section date c d xml low high h =
      fetched title part section date d xml (resolve_date upstream decode_titles title date c)
        (ground arith) (λ e is. explicit-Settled title (explicit_date date) c e is) h
