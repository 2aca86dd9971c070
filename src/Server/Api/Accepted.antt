-- ===== src/Server/Api/Accepted.antt =====
-- When the handler `report` of internal/server/http.go accepts a report, and what else it leaves.
use server_status.Base.{
  Option, none, some, ◌⊎◌, inl, inr, ◌≡◌, ◌≢◌, ◌↔◌, refl, ◌∙◌, arith, Bool-cases, Option-cases,
}
use server_status.Base.Text.{Text, text_eq, text_eq_iff}
use server_status.Report.Types.{Report}
use server_status.Report.Error.{ValidationError}
use server_status.Report.Platform.{Platform}
use server_status.Report.Validate.{validate}
use server_status.Store.Table.{Time}
use server_status.Store.Tokens.{NodeAuth}
use server_status.Server.Bearer.{bearer_token}
use server_status.Server.Api.{
  StoreError, unauthorized, not_found, invalid_resource, other_error, DataStore, Api, on_stored,
  on_validated, on_decoded, on_authenticated, on_token, report,
}

module _ {S Summary Detail : Type 0} (p : Platform) (api : Api) (store : DataStore S Summary Detail)
    (now : Time) where
  -- The token is that of a node, the body is a valid report of its agent, and the store takes it.
  pub record IsAcceptable (authorization : Text) (decoded : Text ⊎ Report) (s : S) : Type 0 where
    pub raw_token : Text
    pub auth : NodeAuth
    pub payload : Report
    pub is_token : bearer_token authorization ≡ some raw_token
    pub authenticates : store.authenticate_token raw_token s ≡ inr auth
    pub decodes : decoded ≡ inr payload
    pub same_agent : payload.agent.id ≡ auth.agent_id
    pub valid : (validate p now payload).0 ≡ none
    pub stores : (store.ingest auth (validate p now payload).1 s).0 ≡ none

  module _
      (rolls_back : (auth : NodeAuth) (payload : Report) (s : S)
        → (store.ingest auth payload s).0 ≢ none
        → (store.ingest auth payload s).1 ≡ s) where
    on_stored-refused :
        (payload : Report) (r : Option StoreError × S)
        → r.0 ≢ none
        → ((on_stored {Summary = Summary} {Detail = Detail} api payload r).0.status ≢ 202)
          × ((on_stored {Summary = Summary} {Detail = Detail} api payload r).1 ≡ r.1)
    unfolding on_stored
    on_stored-refused payload (none, s) d = absurd (d refl)
    on_stored-refused payload (some unauthorized, s) d = (λ h. ground (arith, h), refl)
    on_stored-refused payload (some not_found, s) d = (λ h. ground (arith, h), refl)
    on_stored-refused payload (some (invalid_resource m), s) d = (λ h. ground (arith, h), refl)
    on_stored-refused payload (some other_error, s) d = (λ h. ground (arith, h), refl)

    on_validated-cases :
        (auth : NodeAuth) (v : Option ValidationError × Report) (s : S)
        → ((v.0 ≡ none) × ((store.ingest auth v.1 s).0 ≡ none))
          ⊎ (((on_validated p api store now auth v s).0.status ≢ 202)
              × ((on_validated p api store now auth v s).1 ≡ s))
    unfolding on_validated
    on_validated-cases auth (some e, payload) s = inr (λ h. ground (arith, h), refl)
    on_validated-cases auth (none, payload) s =
        elim (Option-cases (store.ingest auth payload s).0) [
          | inl h ↦ inl (refl, h)
          | inr (e, h) ↦
              let failed : (store.ingest auth payload s).0 ≢ none = λ q. ground (arith, h, q) in
              let (refused, same) =
                on_stored-refused payload (store.ingest auth payload s) failed in
              inr (refused, same ∙ rolls_back auth payload s failed)
        ]

    on_authenticated-cases :
        (decoded : Text ⊎ Report) (answer : StoreError ⊎ NodeAuth) (s : S)
        → ((auth : NodeAuth) × (payload : Report) × (answer ≡ inr auth)
            × (decoded ≡ inr payload)
            × (payload.agent.id ≡ auth.agent_id)
            × ((validate p now payload).0 ≡ none)
            × ((store.ingest auth (validate p now payload).1 s).0 ≡ none))
          ⊎ (((on_authenticated p api store now decoded answer s).0.status ≢ 202)
              × ((on_authenticated p api store now decoded answer s).1 ≡ s))
    unfolding on_authenticated on_decoded
    on_authenticated-cases decoded (inl unauthorized) s = inr (λ h. ground (arith, h), refl)
    on_authenticated-cases decoded (inl not_found) s = inr (λ h. ground (arith, h), refl)
    on_authenticated-cases decoded (inl (invalid_resource m)) s = inr (λ h. ground (arith, h), refl)
    on_authenticated-cases decoded (inl other_error) s = inr (λ h. ground (arith, h), refl)
    on_authenticated-cases (inl message) (inr auth) s = inr (λ h. ground (arith, h), refl)
    on_authenticated-cases (inr payload) (inr auth) s =
        elim (Bool-cases (text_eq payload.agent.id auth.agent_id)) [
          | inl h ↦ rw h (elim (on_validated-cases auth (validate p now payload) s) [
            | inl (v, i) ↦ inl (auth, payload, refl, refl, (text_eq_iff _ _).0 h, v, i)
            | inr refused ↦ inr refused
          ])
          | inr h ↦ rw h (inr (λ r. ground (arith, r), refl))
        ]

    -- Each report is acceptable, or its reply is not 202 and the store is as it was.
    report-cases :
        (authorization : Text) (decoded : Text ⊎ Report) (s : S)
        → IsAcceptable authorization decoded s
          ⊎ (((report p api store now authorization decoded s).0.status ≢ 202)
              × ((report p api store now authorization decoded s).1 ≡ s))
    unfolding report on_token
    report-cases authorization decoded s = elim (Option-cases (bearer_token authorization)) [
      | inl h ↦ rw h (inr (λ r. ground (arith, r), refl))
      | inr (raw, h) ↦
          rw (h, on_token)
            (elim (on_authenticated-cases decoded (store.authenticate_token raw s) s) [
              | inl (auth, payload, a, d, same, v, i) ↦ inl (record {
                raw_token = raw;
                auth = auth;
                payload = payload;
                is_token = h;
                authenticates = a;
                decodes = d;
                same_agent = same;
                valid = v;
                stores = i;
              })
              | inr refused ↦ inr refused
            ])
    ]

    on_stored-taken :
        (payload : Report) (r : Option StoreError × S)
        → r.0 ≡ none
        → (on_stored {Summary = Summary} {Detail = Detail} api payload r).0.status ≡ 202
    unfolding on_stored
    on_stored-taken payload (none, s) h = refl
    on_stored-taken payload (some e, s) h = absurd (ground (arith, h))

    on_validated-taken :
        (auth : NodeAuth) (v : Option ValidationError × Report) (s : S)
        → v.0 ≡ none
        → (store.ingest auth v.1 s).0 ≡ none
        → (on_validated p api store now auth v s).0.status ≡ 202
    unfolding on_validated
    on_validated-taken auth (some e, payload) s h i = absurd (ground (arith, h))
    on_validated-taken auth (none, payload) s h i =
        on_stored-taken payload (store.ingest auth payload s) i

    report-accepted :
        (authorization : Text) (decoded : Text ⊎ Report) (s : S)
        → IsAcceptable authorization decoded s
        → (report p api store now authorization decoded s).0.status ≡ 202
    unfolding report on_token on_authenticated on_decoded
    report-accepted authorization decoded s a =
        let same = (text_eq_iff a.payload.agent.id a.auth.agent_id).1 a.same_agent in
        rw (a.is_token, on_token)
          (rw (a.authenticates, on_authenticated)
            (rw (a.decodes, on_decoded)
              (rw same (on_validated-taken a.auth (validate p now a.payload) s a.valid a.stores))))

    -- Where the store rolls a failed Ingest back, a report is answered with 202 exactly when it is
    -- acceptable, and otherwise the store is as it was.
    pub report-accepted_iff :
        (authorization : Text) (decoded : Text ⊎ Report) (s : S)
        → (((report p api store now authorization decoded s).0.status ≡ 202)
            ↔ IsAcceptable authorization decoded s)
          × (((report p api store now authorization decoded s).0.status ≢ 202)
              → (report p api store now authorization decoded s).1 ≡ s)
    report-accepted_iff authorization decoded s =
        let taken = report-accepted authorization decoded s in
        elim (report-cases authorization decoded s) [
          | inl a ↦ ((λ h. a, taken), λ d. absurd (d (taken a)))
          | inr (refused, same) ↦ ((λ h. absurd (refused h), taken), λ d. same)
        ]
