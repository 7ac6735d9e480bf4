-- ===== src/Server/Histories.antt =====
-- Histories of `EcfrClient` (src/cfr_compliance_mcp/clients/ecfr_client.py): every method keeps the
-- client good, and a date that was resolved stays.
use cfr_compliance_mcp.Prelude.{
  ℕ, ◌≤◌, String, ◌≡◌, refl, inl, inr, Bool, true, false, Option, none, some, List, [], ◌∷◌, arith,
  leb, ◌&&◌, if◌then◌else◌, Bool-cases,
}
use cfr_compliance_mcp.Prelude.Int.{ℤ, pos, negsuc}
use cfr_compliance_mcp.Prelude.Dict.{lookup, insert, insert-All_pairs}
use cfr_compliance_mcp.Server.Errors.{HttpResult, raises, returns, ToolError, validation}
use cfr_compliance_mcp.Server.Calls.{
  Request, title_key, dated_key, Client, new_client, Call, pure, fail, continue, ◌>>=◌, update,
  answer, request,
}
use cfr_compliance_mcp.Server.Client.{
  TitleEntry, structure_path, full_text_path, versions_path, search_results_endpoint,
  agencies_endpoint, validate_title, get, get_titles, resolve_date, fetch_missing,
  fetch_full_title_xml, get_structure, qualified_section, retrieve_section, retrieve_part,
  retrieve_title, HistoryFilter, get_version_history, list_agencies, SearchRequest, search_params,
  search,
}
use cfr_compliance_mcp.Server.Sessions.{
  Allowed, Fetched, Good, Keeps, Safe, Safe-bind, asked, Keeps-asked, Safe-get, Safe-get_titles,
  Safe-resolve_date,
}

-- One call of the client.
pub data Op : Type 0 where
  titles agencies : Op
  resolve : ℕ → Option String → Op
  structure title_text : ℤ → Option String → Op
  part_text : ℤ → String → Option String → Op
  section_text : ℤ → String → String → Option String → Op
  history : ℤ → HistoryFilter → Op
  find : SearchRequest → Op

module _ (upstream : List Request → Request → HttpResult String)
    (decode_titles : String → Option (List TitleEntry)) where
  abbrev Kept : Client → Client → Type 0
  Kept = Keeps upstream decode_titles

  abbrev Fine {ℓ} : {A : Type ℓ} → Call A → Type 0
  Fine = Safe upstream decode_titles

  unfoldable pub step : Op → Client → Client
  step titles c = (get_titles upstream decode_titles c).1
  step agencies c = (list_agencies upstream decode_titles c).1
  step (resolve t date) c = (resolve_date upstream decode_titles t date c).1
  step (structure t date) c = (get_structure upstream decode_titles t date c).1
  step (title_text t date) c = (retrieve_title upstream decode_titles t date c).1
  step (part_text t part date) c = (retrieve_part upstream decode_titles t part date c).1
  step (section_text t part section date) c =
      (retrieve_section upstream decode_titles t part section date c).1
  step (history t f) c = (get_version_history upstream decode_titles t f c).1
  step (find q) c = (search upstream decode_titles q c).1

  unfoldable pub run : List Op → Client → Client
  run [] c = c
  run (op ∷ ops) c = run ops (step op c)

  xml_request : ℕ → String → Request
  xml_request title date = record { path = full_text_path date title; params = [] }

  Allowed-full :
      (title : ℕ) (date : String) (params : List (String × String))
      → 1 ≤ title
      → title ≤ 50
      → Allowed (record { path = full_text_path date title; params = params })
  Allowed-full title date params low high = inr (inr (inr (title, low, high, inr (date, inr refl))))

  stored :
      (title : ℕ) (date : String) (c : Client) (r : HttpResult String)
      → upstream c.sent (xml_request title date) ≡ r
      → Kept c (asked upstream decode_titles (xml_request title date) c)
      → Kept c
          (continue (answer r (asked upstream decode_titles (xml_request title date) c)) (λ xml. do
            _ ← update (λ x. record x {
              full_title_xml_cache = insert (title, date) xml x.full_title_xml_cache;
            })
            pure xml)).1
  unfolding answer asked xml_request
  stored title date c (raises e) is kept = kept
  stored title date c (returns xml) is kept = (
    λ h.
        let good = kept.0 h in
        (
          good.0,
          insert-All_pairs (Fetched upstream decode_titles) (title, date) xml c.full_title_xml_cache
              (c.sent, is) good.1,
        ),
    kept.1,
  )

  -- The titles that `_validate_title` lets pass.
  Keeps-titled :
      {A : Type 0} (title : ℤ) (k : ℕ → Call A)
      → ((t : ℕ) → 1 ≤ t → t ≤ 50 → Fine (k t))
      → Fine (validate_title title >>= k)
  unfolding validate_title
  Keeps-titled (negsuc n) k next c = (λ h. h, λ t d h. h)
  Keeps-titled (pos t) k next c = elim (Bool-cases (leb 1 t && leb t 50)) [
    | inl ok ↦ rw ok (next t (ground arith) (ground arith) c)
    | inr out ↦ rw out (λ h. h, λ t d h. h)
  ]

  Keeps-missing :
      (title : ℕ) (date : String) (known : Option String)
      → 1 ≤ title
      → title ≤ 50
      → Fine (fetch_missing upstream decode_titles title date known)
  unfolding fetch_missing get request xml_request asked
  Keeps-missing title date (some xml) low high c = (λ h. h, λ t d h. h)
  Keeps-missing title date none low high c =
      stored title date c (upstream c.sent (xml_request title date)) refl (
        Keeps-asked upstream decode_titles (xml_request title date) c
          (Allowed-full title date [] low high))

  -- A date is resolved, and then something is called with it.
  Keeps-dated :
      {A : Type 0} (title : ℕ) (date : Option String) (k : String → Call A)
      → ((d : String) → Fine (k d))
      → Fine (resolve_date upstream decode_titles title date >>= k)
  Keeps-dated title date k next =
      Safe-bind upstream decode_titles (resolve_date upstream decode_titles title date) k
        (Safe-resolve_date upstream decode_titles title date) next

  Keeps-xml :
      (title : ℕ) (date : Option String)
      → 1 ≤ title
      → title ≤ 50
      → Fine (fetch_full_title_xml upstream decode_titles title date)
  unfolding fetch_full_title_xml
  Keeps-xml title date low high =
      Keeps-dated title date _
        (λ d c. Keeps-missing title d (lookup (title, d) c.full_title_xml_cache) low high c)

  Keeps-full :
      (t : ℕ) (d : String) (params : List (String × String))
      → 1 ≤ t
      → t ≤ 50
      → Fine (get upstream decode_titles (full_text_path d t) params)
  Keeps-full t d params low high =
      Safe-get upstream decode_titles (full_text_path d t) params (Allowed-full t d params low high)

  Keeps-if :
      {A : Type 0} (m : Call A) (b : Bool) (e : ToolError) → Fine m → Fine (if b then fail e else m)
  Keeps-if m true e next c = (λ h. h, λ t d h. h)
  Keeps-if m false e next c = next c

  Keeps-step : (op : Op) (c : Client) → Kept c (step op c)
  unfolding step get_structure retrieve_section retrieve_part retrieve_title get_version_history
      list_agencies search
  Keeps-step titles = Safe-get_titles upstream decode_titles
  Keeps-step agencies = Safe-get upstream decode_titles agencies_endpoint [] (inr (inl refl))
  Keeps-step (resolve t date) = Safe-resolve_date upstream decode_titles t date
  Keeps-step (structure title date) = Keeps-titled title _ (λ t low high. Keeps-dated t date _ (λ d.
      Safe-get upstream decode_titles (structure_path d t) []
        (inr (inr (inr (t, low, high, inr (d, inl refl)))))))
  Keeps-step (title_text title date) =
      Keeps-titled title _ (λ t low high. Keeps-dated t date _ (λ d. Keeps-xml t date low high))
  Keeps-step (part_text title part date) =
      let params : List (String × String) = ("part", part) ∷ [] in
      Keeps-titled title _
        (λ t low high. Keeps-dated t date _ (λ d. Keeps-full t d params low high))
  Keeps-step (section_text title part section date) =
      let params : List (String × String) =
        ("part", part) ∷ ("section", qualified_section part section) ∷ [] in
      Keeps-titled title _
        (λ t low high. Keeps-dated t date _ (λ d. Keeps-full t d params low high))
  Keeps-step (history title f) = Keeps-titled title _ (λ t low high.
      Safe-get upstream decode_titles (versions_path t) _
        (inr (inr (inr (t, low, high, inl refl)))))
  Keeps-step (find q) =
      Keeps-if (get upstream decode_titles search_results_endpoint (search_params q)) _ validation (
        Safe-get upstream decode_titles search_results_endpoint (search_params q)
          (inr (inr (inl refl))))

  pub Keeps-run : (ops : List Op) (c : Client) → Kept c (run ops c)
  unfolding run
  Keeps-run [] c = (λ h. h, λ t d h. h)
  Keeps-run (op ∷ ops) c =
      let first = Keeps-step op c in
      let later = Keeps-run ops (step op c) in
      (λ h. later.0 (first.0 h), λ t d h. later.1 t d (first.1 t d h))

  -- Whatever is called on a new client, and however the upstream answers: every request is for the
  -- index of titles, the agencies, a search, or a title from 1 to 50; and every cached text of a
  -- title is one that the upstream gave for that title and date.
  pub run-Good : (ops : List Op) → Good upstream decode_titles (run ops new_client)
  run-Good ops = (Keeps-run ops new_client).0 (tt, tt)
