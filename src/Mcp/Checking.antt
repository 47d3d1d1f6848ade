-- ===== src/Mcp/Checking.antt =====
-- What `sync_default_mcp` of src-tauri/src/commands/mcp.rs accepts.
use alayaface.Prelude.{
  ◌≡◌, refl, sym, ap, ap₂, ◌∙◌, Bool, true, false, not, ◌&&◌, ◌||◌, ◌↔◌, none, some, List, [], ◌∷◌,
  Text, codes, text_eq, eq_of_text_eq, text_eq_refl, is_empty, all, holds, IsDistinct,
  if◌then◌else◌, Result, ok, err, ◌>>=◌, inl, inr, Bool-cases, Option-cases, arith, and_left,
  and_right,
}
use alayaface.Chars.{trim}
use alayaface.Json.{Serde}
use alayaface.Mcp.{ConfSerde, trimmed_str}
use alayaface.Mcp.Syncing.{
  McpError, auth_client_id_required, auth_client_secret_required, command_required, not_an_object,
  unnamed, duplicate, ensure, is_kind, validate_text, validate_json_field, has_text,
  validate_client, validate_http, validate_stdio, server_name, validate_fields, validate_server,
  validate_servers,
}

abbrev pub is_ok : Result McpError (Unit {0}) → Bool
is_ok (ok done) = true
is_ok (err e) = false

is_ok-ensure : (b : Bool) (why : McpError) → is_ok (ensure b why) ≡ b
unfolding ensure
is_ok-ensure true why = refl
is_ok-ensure false why = refl

ensure_then :
    (b : Bool) (why : McpError) (next : Unit {0} → Result McpError (Unit {0}))
    → is_ok (◌>>=◌ (ensure b why) next) ≡ (b && is_ok (next tt))
unfolding ensure
ensure_then true why next = refl
ensure_then false why next = refl

then_ok :
    (r : Result McpError (Unit {0})) (next : Unit {0} → Result McpError (Unit {0}))
    → is_ok (◌>>=◌ r next) ≡ (is_ok r && is_ok (next tt))
then_ok (ok tt) next = refl
then_ok (err e) next = refl

or_true : (b : Bool) → (b || true) ≡ true
or_true true = refl
or_true false = refl

ok_of_is_ok : (r : Result McpError (Unit {0})) → is_ok r ≡ true → r ≡ ok tt
ok_of_is_ok (ok tt) h = refl
ok_of_is_ok (err e) h = cc

and_true : (b : Bool) → (b && true) ≡ b
and_true true = refl
and_true false = refl

module _ (serde : Serde) (conf : ConfSerde serde) where
  -- JSON of a kind, in its text or as it is; a text of white space is nothing.
  abbrev pub is_json_value : Bool → serde.Value → Bool
  is_json_value want_array v = elim (serde.as_str v) [
    | none ↦ is_kind serde conf want_array v
    | some sv ↦ is_empty (trim sv) || elim (serde.from_str sv) [
      | none ↦ false
      | some parsed ↦ is_kind serde conf want_array parsed
    ]
  ]

  abbrev pub is_json_field : serde.Value → Text → Bool → Bool
  is_json_field s key want_array = elim (serde.get s key) [
    | none ↦ true
    | some v ↦ is_json_value want_array v
  ]

  abbrev pub asks_for : serde.Value → Text → Bool
  asks_for s kind = text_eq (trimmed_str serde s (codes "auth_type")) kind

  -- A server with what its kind needs: credentials for what it asks for, or a command with its JSON.
  abbrev pub is_complete : serde.Value → Bool
  is_complete s =
      if has_text serde conf s (codes "url")
      then (not (asks_for s (codes "authorization_code"))
          || (has_text serde conf s (codes "auth_client_id")
              && has_text serde conf s (codes "auth_client_secret")))
        && (not (asks_for s (codes "static")) || has_text serde conf s (codes "auth_token"))
      else has_text serde conf s (codes "command")
        && (is_json_field s (codes "args") true && is_json_field s (codes "env") false)

  abbrev pub is_accepted : serde.Value → Bool
  is_accepted s = serde.is_object s && (not (is_empty (server_name serde conf s)) && is_complete s)

  abbrev pub names : List serde.Value → List Text
  names [] = []
  names (s ∷ servers) = server_name serde conf s ∷ names servers

  validate_json_field-ok :
      (s : serde.Value) (name key : Text) (want_array : Bool)
      → is_ok (validate_json_field serde conf s name key want_array)
        ≡ is_json_field s key want_array
  unfolding validate_json_field validate_text
  validate_json_field-ok s name key want_array = elim (Option-cases (serde.get s key)) [
    | inl e ↦ rw (validate_json_field, is_json_field, e) refl
    | inr (v, e) ↦ elim (Option-cases (serde.as_str v)) [
      | inl shape ↦
          rw (validate_json_field, is_json_field, is_json_value, e, shape) (is_ok-ensure _ _)
      | inr (sv, shape) ↦ elim (Bool-cases (is_empty (trim sv))) [
        | inl blank ↦
            rw (validate_json_field, validate_text, is_json_field, is_json_value, e, shape, blank)
              refl
        | inr blank ↦ elim (Option-cases (serde.from_str sv)) [
          | inl bad ↦
              rw
                (
                  validate_json_field, validate_text, is_json_field, is_json_value, e, shape, blank,
                  bad,
                )
                refl
          | inr (parsed, good) ↦
              rw
                (
                  validate_json_field, validate_text, is_json_field, is_json_value, e, shape, blank,
                  good,
                )
                (is_ok-ensure _ _)
        ]
      ]
    ]
  ]

  other_kind :
      (s : serde.Value) (k j : Text)
      → asks_for s k ≡ true
      → text_eq k j ≡ false
      → asks_for s j ≡ false
  other_kind s k j e ne = rw (eq_of_text_eq (trimmed_str serde s (codes "auth_type")) k e) ne

  validate_client-ok :
      (s : serde.Value) (name : Text)
      → is_ok (validate_client serde conf s name) ≡ (
          has_text serde conf s (codes "auth_client_id")
          && has_text serde conf s (codes "auth_client_secret"))
  unfolding validate_client
  validate_client-ok s name =
      let id = has_text serde conf s (codes "auth_client_id") in
      let secret = has_text serde conf s (codes "auth_client_secret") in
      ensure_then id (auth_client_id_required name)
        (λ done. ensure secret (auth_client_secret_required name))
      ∙ ap (◌&&◌ id) (is_ok-ensure secret (auth_client_secret_required name))

  validate_http-ok :
      (s : serde.Value) (name : Text)
      → is_ok (validate_http serde conf s name) ≡ (
          (not (asks_for s (codes "authorization_code"))
            || (has_text serde conf s (codes "auth_client_id")
                && has_text serde conf s (codes "auth_client_secret")))
          && (not (asks_for s (codes "static")) || has_text serde conf s (codes "auth_token")))
  unfolding validate_http validate_client
  validate_http-ok s name = elim (Bool-cases (asks_for s (codes "authorization_code"))) [
    | inl client ↦
        let one : asks_for s (codes "static") ≡ false =
          other_kind s (codes "authorization_code") (codes "static") client refl in
        rw (validate_http, client, one) (validate_client-ok s name ∙ sym (and_true _))
    | inr client ↦ elim (Bool-cases (asks_for s (codes "static"))) [
      | inl token ↦ rw (validate_http, client, token) (is_ok-ensure _ _)
      | inr token ↦ rw (validate_http, client, token) refl
    ]
  ]

  validate_stdio-ok :
      (s : serde.Value) (name : Text)
      → is_ok (validate_stdio serde conf s name) ≡ (
          has_text serde conf s (codes "command")
          && (is_json_field s (codes "args") true && is_json_field s (codes "env") false))
  unfolding validate_stdio
  validate_stdio-ok s name =
      let command = has_text serde conf s (codes "command") in
      let args = validate_json_field serde conf s name (codes "args") true in
      let env = validate_json_field serde conf s name (codes "env") false in
      ensure_then command (command_required name) (λ done. ◌>>=◌ args (λ done'. env))
      ∙ ap (◌&&◌ command) (
          then_ok args (λ done'. env)
          ∙ rw
              (
                validate_json_field-ok s name (codes "args") true,
                validate_json_field-ok s name (codes "env") false,
              )
              refl)

  validate_fields-ok :
      (s : serde.Value) (name : Text) → is_ok (validate_fields serde conf s name) ≡ is_complete s
  unfolding validate_fields
  validate_fields-ok s name = elim (Bool-cases (has_text serde conf s (codes "url"))) [
    | inl http ↦ rw (validate_fields, http) (validate_http-ok s name)
    | inr http ↦ rw (validate_fields, http) (validate_stdio-ok s name)
  ]

  validate_server-ok :
      (seen : List Text) (s : serde.Value)
      → is_ok (validate_server serde conf seen s) ≡ (
          serde.is_object s
          && (not (is_empty (server_name serde conf s))
              && (not (holds (server_name serde conf s) seen) && is_complete s)))
  unfolding validate_server
  validate_server-ok seen s =
      let name = server_name serde conf s in
      let named = not (is_empty name) in
      let fresh = not (holds name seen) in
      let fields = validate_fields serde conf s name in
      let with_fresh : Result McpError (Unit {0}) =
        ◌>>=◌ (ensure fresh (duplicate name)) (λ done. fields) in
      let with_name : Result McpError (Unit {0}) =
        ◌>>=◌ (ensure named unnamed) (λ done. with_fresh) in
      ensure_then (serde.is_object s) not_an_object (λ done. with_name)
      ∙ ap (◌&&◌ (serde.is_object s)) (
          ensure_then named unnamed (λ done. with_fresh)
          ∙ ap (◌&&◌ named) (
              ensure_then fresh (duplicate name) (λ done. fields)
              ∙ ap (◌&&◌ fresh) (validate_fields-ok s name)))

  abbrev unseen : List Text → List serde.Value → Bool
  unseen seen [] = true
  unseen seen (s ∷ servers) =
      not (holds (server_name serde conf s) seen)
      && unseen (server_name serde conf s ∷ seen) servers

  shuffle :
      (a b c d e f : Bool)
      → ((a && (b && (c && d))) && (e && f)) ≡ ((c && e) && ((a && (b && d)) && f))
  shuffle a b c d e f = ground arith

  validate_servers-ok :
      (seen : List Text) (servers : List serde.Value)
      → is_ok (validate_servers serde conf seen servers)
        ≡ (unseen seen servers && all is_accepted servers)
  unfolding validate_servers
  validate_servers-ok seen [] = refl
  validate_servers-ok seen (s ∷ servers) =
      let name = server_name serde conf s in
      then_ok (validate_server serde conf seen s)
        (λ done. validate_servers serde conf (name ∷ seen) servers)
      ∙ ap₂ ◌&&◌ (validate_server-ok seen s) (validate_servers-ok (name ∷ seen) servers)
      ∙ shuffle (serde.is_object s) (not (is_empty name)) (not (holds name seen)) (is_complete s)
          (unseen (name ∷ seen) servers) (all is_accepted servers)

  apart_of_unseen :
      (seen : List Text) (servers : List serde.Value) (n : Text)
      → unseen seen servers ≡ true
      → holds n seen ≡ true
      → holds n (names servers) ≡ false
  unfolding holds
  apart_of_unseen seen [] n h stands = refl
  apart_of_unseen seen (s ∷ servers) n h stands =
      let name = server_name serde conf s in
      let rest : holds n (names servers) ≡ false =
        apart_of_unseen (name ∷ seen) servers n (and_right _ _ h)
          (rw stands (or_true (text_eq n name))) in
      elim (Bool-cases (text_eq n name)) [
        | inl same ↦
            let clash : holds name seen ≡ true =
              ap (λ x. holds x seen) (sym (eq_of_text_eq n name same)) ∙ stands in
            let new : not (holds name seen) ≡ true = and_left _ _ h in
            let no : false ≡ true = ap not (sym clash) ∙ new in cc
        | inr other ↦ rw (other) rest
      ]

  IsDistinct-unseen :
      (seen : List Text) (servers : List serde.Value)
      → unseen seen servers ≡ true
      → IsDistinct (names servers)
  unfolding holds
  IsDistinct-unseen seen [] h = tt
  IsDistinct-unseen seen (s ∷ servers) h =
      let name = server_name serde conf s in
      (
        apart_of_unseen (name ∷ seen) servers name (and_right _ _ h) (rw (text_eq_refl name) refl),
        IsDistinct-unseen (name ∷ seen) servers (and_right _ _ h),
      )

  unseen_of_distinct :
      (seen : List Text) (servers : List serde.Value)
      → IsDistinct (names servers)
      → ((n : Text) → holds n (names servers) ≡ true → holds n seen ≡ false)
      → unseen seen servers ≡ true
  unfolding holds
  unseen_of_distinct seen [] d apart = refl
  unseen_of_distinct seen (s ∷ servers) d apart =
      let name = server_name serde conf s in
      rw (apart name (rw (text_eq_refl name) refl)) (
        unseen_of_distinct (name ∷ seen) servers d.1 (λ n stands.
          elim (Bool-cases (text_eq n name)) [
            | inl same ↦
                let here : holds name (names servers) ≡ true =
                  ap (λ x. holds x (names servers)) (sym (eq_of_text_eq n name same)) ∙ stands in
                let no : true ≡ false = sym here ∙ d.0 in cc
            | inr other ↦ rw other (apart n (rw stands (or_true (text_eq n name))))
          ]))

  -- A list of servers is valid exactly if no two have one name, and each is an object with a name that is
  -- not blank and with what its kind needs: for a url, the credentials that its kind of authorization asks
  -- for; without one, a command, with args and env that are blank or JSON of their kinds.
  pub validate_servers_iff :
      (servers : List serde.Value)
      → (validate_servers serde conf [] servers ≡ ok tt)
        ↔ (IsDistinct (names servers) × (all is_accepted servers ≡ true))
  unfolding holds
  validate_servers_iff servers = (
    λ h.
        let both : (unseen [] servers && all is_accepted servers) ≡ true =
          sym (validate_servers-ok [] servers) ∙ ap is_ok h in
        (IsDistinct-unseen [] servers (and_left _ _ both), and_right _ _ both),
    λ d. ok_of_is_ok (validate_servers serde conf [] servers) (
        validate_servers-ok [] servers
        ∙ rw (unseen_of_distinct [] servers (d.0) (λ n stands. refl)) (d.1)),
  )
