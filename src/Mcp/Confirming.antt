-- ===== src/Mcp/Confirming.antt =====
-- When the OAuth callback confirms: the thread of `start_mcp_auth_inner` of
-- src-tauri/src/commands/mcp.rs.
use alayaface.Prelude.{
  ℕ, zero, suc, ◌≡◌, refl, sym, ap, ◌∙◌, true, false, Option, none, some, List, [], ◌∷◌, ◌++◌, Text,
  codes, text_eq, eq_of_text_eq, text_eq_refl, inl, inr, Option-cases, Bool-cases, ◌↔◌,
}
use alayaface.Mcp.Authorizing.{
  Accepted, connection, would_block, accept_error, wait_callback, callback_code, mcp_result, lookup,
  query_of, answer_request, callback_thread,
}

-- A code is accepted exactly from a callback that has it, no error, and the state of the flow.
pub callback_code_iff :
    (state code : Text) (get : Text → Option Text)
    → (callback_code state get ≡ some code) ↔ (
        (get (codes "error") ≡ none)
        × (get (codes "state") ≡ some state)
        × (get (codes "code") ≡ some code))
unfolding callback_code
callback_code_iff state code get = (
  λ h. elim (Option-cases (get (codes "error"))) [
    | inr (why, e) ↦ let no : none ≡ some code = sym (rw (callback_code, e) refl) ∙ h in cc
    | inl e ↦ elim (Option-cases (get (codes "state"))) [
      | inl missing ↦
          let no : none ≡ some code = sym (rw (callback_code, e, missing) refl) ∙ h in cc
      | inr (returned, found) ↦ elim (Bool-cases (text_eq returned state)) [
        | inr other ↦
            let no : none ≡ some code = sym (rw (callback_code, e, found, other) refl) ∙ h in cc
        | inl same ↦
            let given : callback_code state get ≡ get (codes "code") =
              rw (callback_code, e, found, same) refl in
            (e, found ∙ ap some (eq_of_text_eq returned state same), sym given ∙ h)
      ]
    ]
  ],
  λ (e, found, given). rw (callback_code, e, found, text_eq_refl state) given,
)

-- What the thread sends, as it is told to confirm.
confirmed :
    (server_name redirect_uri input : Text) (answer : Option Text) (code : Option Text)
    (response : Option Text)
    → ◌≡◌ {A = Option (Option Text × (Text × Text))}
        (some (response, mcp_result server_name redirect_uri code))
        (some (answer, (codes "mcp_confirm", input)))
    → (given : Text) × (code ≡ some given)
      × (input ≡ server_name ++ b' ' ∷ given ++ b' ' ∷ redirect_uri)
unfolding mcp_result text_eq
confirmed server_name redirect_uri input answer none response h =
    let no : false ≡ true =
      ap (λ o. elim o [ none ↦ true | some (r, (name, args)) ↦ text_eq name (codes "mcp_confirm") ])
        h in
    cc
confirmed server_name redirect_uri input answer (some given) response h =
    (given, refl, sym (ap (λ o. elim o [ none ↦ [] | some (r, (name, args)) ↦ args ]) h))

-- the turns of the loop that found no connection, and the deadline not over
abbrev pub waiting : ℕ → List Accepted
waiting zero = []
waiting (suc n) = would_block false ∷ waiting n

wait_callback-waiting :
    (accepted : List Accepted)
    → wait_callback accepted ≡ some true
    → (turns : ℕ) × (later : List Accepted) × (accepted ≡ waiting turns ++ connection ∷ later)
unfolding wait_callback
wait_callback-waiting [] h = cc
wait_callback-waiting (connection ∷ rest) h = (0, rest, refl)
wait_callback-waiting (would_block true ∷ rest) h = cc
wait_callback-waiting (would_block false ∷ rest) h =
    let (turns, later, e) = wait_callback-waiting rest h in
    (suc turns, later, ap (◌∷◌ (would_block false)) e)
wait_callback-waiting (accept_error ∷ rest) h = cc

module _ (form_urlencoded : Text → List (Text × Text)) where
  -- The session is told to confirm the authorization of a server. Then a connection came, in every turn
  -- of the loop before it none had come and the deadline was not over, and it sent a request line whose query has no error, the state of this flow, and the code that is
  -- passed on.
  pub callback_thread-state :
      (server_name state redirect_uri input : Text) (accepted : List Accepted)
      (request_line answer : Option Text)
      → callback_thread form_urlencoded server_name state redirect_uri accepted request_line
        ≡ some (answer, (codes "mcp_confirm", input))
      → (line : Text) × (code : Text) × (request_line ≡ some line)
        × (turns : ℕ) × (later : List Accepted) × (accepted ≡ waiting turns ++ connection ∷ later)
        × (input ≡ server_name ++ b' ' ∷ code ++ b' ' ∷ redirect_uri)
        × (lookup (form_urlencoded (query_of line)) (codes "error") ≡ none)
        × (lookup (form_urlencoded (query_of line)) (codes "state") ≡ some state)
        × (lookup (form_urlencoded (query_of line)) (codes "code") ≡ some code)
  unfolding callback_thread answer_request
  callback_thread-state server_name state redirect_uri input accepted request_line answer h =
      elim (Option-cases (wait_callback accepted)) [
        | inl e ↦
            let no : none ≡ some (answer, (codes "mcp_confirm", input)) =
              sym (rw (callback_thread, e) refl) ∙ h in
            cc
        | inr (false, e) ↦
            let (given, clash, same) =
              confirmed server_name redirect_uri input answer none none
                (sym (rw (callback_thread, e) refl) ∙ h) in
            cc
        | inr (true, e) ↦ elim (Option-cases request_line) [
          | inl missing ↦
              let (given, clash, same) =
                confirmed server_name redirect_uri input answer none none
                  (sym (rw (callback_thread, e, missing) refl) ∙ h) in
              cc
          | inr (line, found) ↦
              let get = lookup (form_urlencoded (query_of line)) in
              let (code, accepts, same) =
                confirmed server_name redirect_uri input answer (callback_code state get)
                  (some ((answer_request form_urlencoded server_name state line).0))
                  (sym (rw (callback_thread, e, found) refl) ∙ h) in
              let (no_error, known, given) = (callback_code_iff state code get).0 accepts in
              let (turns, later, came) = wait_callback-waiting accepted e in
              (line, code, found, turns, later, came, same, no_error, known, given)
        ]
      ]
