-- ===== src/Tests/McpTests.antt =====
-- MCP servers that are written, listed, validated and authorized, with the library of ToyJson.
use alayaface.Prelude.{
  any, ℕ, ◌≡◌, ◌↔◌, refl, ◌∙◌, Bool, true, false, Option, none, some, List, [], ◌∷◌, ◌++◌, Text,
  codes, text_eq, contains, all, IsDistinct, if◌then◌else◌, ◌==◌, Result, ok, inl, inr, holds,
  Bool-cases, any-append,
}
use alayaface.Chars.{is_whitespace, trim_start, trim_end}
use alayaface.Dirs.Paths.{FilePath, parse_path}
use alayaface.Mcp.{
  ConfSerde, json_key, is_raw, compact, parse_mcp_conf, write_mcp_conf, list_default_mcp,
}
use alayaface.Mcp.Syncing.{validate_servers, sync_default_mcp}
use alayaface.Mcp.Authorizing.{
  Accepted, connection, would_block, answer_request, callback_thread, lookup, query_of, html_escape,
}
use alayaface.Mcp.Escaping.{escape_each, is_markup, html_escape-escape_each}
use alayaface.Mcp.Blocks.{AllServers}
use alayaface.Mcp.RoundTrip.{AllReadAs, parse_mcp_conf-AllReadAs}
use alayaface.Mcp.Checking.{names, is_accepted, validate_servers_iff}
use alayaface.Mcp.Storing.{AllFit, sync_default_mcp-list_default_mcp}
use alayaface.Mcp.Confirming.{waiting, callback_thread-state}
use alayaface.Tests.ToyJson.{Toy, text, fields, field, end, toy_json, toy_insert, toy_is_object}

abbrev escape_one : ℕ → Text
escape_one c =
    if c == b'"'
    then codes "\\\""
    else if c == b'\\'
    then codes "\\\\"
    else if c == b'\n'
    then codes "\\n"
    else c ∷ []

abbrev escape : Text → Text
escape [] = []
escape (c ∷ cs) = escape_one c ++ escape cs

escape_one-newline : (c : ℕ) → contains b'\n' (escape_one c) ≡ false
escape_one-newline c = elim (Bool-cases (c == b'"')) [
  | inl e ↦ rw e refl
  | inr e ↦ elim (Bool-cases (c == b'\\')) [
    | inl e' ↦ rw (e, e') refl
    | inr e' ↦ elim (Bool-cases (c == b'\n')) [
      | inl e'' ↦ rw (e, e', e'') refl
      | inr e'' ↦ rw (e, e', e'') (rw e'' refl)
    ]
  ]
]

escape-newline : (t : Text) → contains b'\n' (escape t) ≡ false
escape-newline [] = refl
escape-newline (c ∷ cs) =
    any-append (λ x. x == b'\n') (escape_one c) (escape cs)
    ∙ rw (escape_one-newline c) (escape-newline cs)

abbrev toy_to_string : Toy → Text
toy_to_string (text t) = b'"' ∷ escape t ++ b'"' ∷ []
toy_to_string Toy.empty = codes "null"
toy_to_string (fields fs) = codes "{}"

is_object-insert_toy :
    (v : Toy) (k : Text) (w : Toy)
    → toy_is_object v ≡ true
    → toy_is_object (toy_insert v k w) ≡ true
is_object-insert_toy (fields fs) k w h = refl
is_object-insert_toy Toy.empty k w h = h
is_object-insert_toy (text t) k w h = h

-- two servers, of which one has a quote in its command
abbrev listed : List Toy
listed =
    fields (
      field (codes "server") (text (codes "exa"))
        (field (codes "url") (text (codes "https://exa.ai/mcp")) end))
    ∷ fields (
        field (codes "server") (text (codes "blah")) (
          field (codes "command") (text (codes "say \"hi\""))
            (field (codes "args") (text (codes "--")) end)))
    ∷ []

-- the servers of a request, of which none has args
abbrev requested : List Toy
requested =
    fields (
      field (codes "server") (text (codes "exa")) (
        field (codes "url") (text (codes "https://exa.ai/mcp")) (
          field (codes "auth_type") (text (codes "static"))
            (field (codes "auth_token") (text (codes "t0")) end))))
    ∷ fields (
        field (codes "server") (text (codes "blah"))
          (field (codes "command") (text (codes "say \"hi\"")) end))
    ∷ []

abbrev config : Text
config = codes "[exa, blah]"

abbrev toy_conf : ConfSerde toy_json
toy_conf = record {
  to_string = toy_to_string;
  is_array = λ v. false;
  escaped = escape;
  from_array = λ t. if text_eq t config then some requested else none;
  is_object-object = λ l. refl;
  get-object_nil = λ k. refl;
  is_object-insert = is_object-insert_toy;
  to_string-string = λ t. refl;
  contains-escaped = escape-newline;
}

listed-fit : AllServers toy_json toy_conf listed
unfolding json_key text_eq is_raw compact is_whitespace trim_start trim_end
listed-fit = (
  (
    refl,
    (text (codes "exa"), refl),
    (
      inr (codes "exa", refl, refl),
      (
        inr (codes "https://exa.ai/mcp", refl, refl),
        (
          inl refl,
          (inl refl, (inl refl, (inl refl, (inl refl, (inl refl, (inl refl, (inl refl, tt))))))),
        ),
      ),
    ),
  ),
  (
    (
      refl,
      (text (codes "blah"), refl),
      (
        inr (codes "blah", refl, refl),
        (
          inl refl,
          (
            inr (codes "say \"hi\"", refl, refl),
            (
              inr (codes "--", refl, ((refl, refl, refl), refl, refl)),
              (inl refl, (inl refl, (inl refl, (inl refl, (inl refl, (inl refl, tt)))))),
            ),
          ),
        ),
      ),
    ),
    tt,
  ),
)

parse_mcp_conf-AllReadAs_example :
    AllReadAs toy_json toy_conf listed
      (parse_mcp_conf toy_json toy_conf (write_mcp_conf toy_json toy_conf listed))
parse_mcp_conf-AllReadAs_example = parse_mcp_conf-AllReadAs toy_json toy_conf listed listed-fit

abbrev map_commands : List Toy → List (Option Toy)
map_commands [] = []
map_commands (s ∷ servers) = toy_json.get s (codes "command") ∷ map_commands servers

-- A command with a quote does not come back as it was.
command_escaped :
    map_commands (parse_mcp_conf toy_json toy_conf (write_mcp_conf toy_json toy_conf listed))
    ≡ none ∷ some (text (codes "say \\\"hi\\\"")) ∷ []
unfolding parse_mcp_conf write_mcp_conf text_eq is_whitespace
command_escaped = refl

validate_servers_iff_example : (validate_servers toy_json toy_conf [] requested ≡ ok tt) ↔ (
    IsDistinct (names toy_json toy_conf requested)
    × (all (is_accepted toy_json toy_conf) requested ≡ true))
validate_servers_iff_example = validate_servers_iff toy_json toy_conf requested

abbrev anywhere : FilePath → Bool
anywhere p = true

abbrev root : FilePath
root = parse_path (codes "/home/me/presets")

abbrev fine : Result Text (Unit {0})
fine = ok tt

abbrev stored : Option Text
stored = some (write_mcp_conf toy_json toy_conf requested)

requested-fit : AllFit toy_json toy_conf anywhere root requested
unfolding json_key text_eq is_raw compact is_whitespace trim_start trim_end
requested-fit = (
  (
    inr (codes "exa", refl, refl),
    (
      inr (codes "https://exa.ai/mcp", refl, refl),
      (
        inl refl,
        (
          inl refl,
          (
            inl refl,
            (
              inr (codes "static", refl, refl),
              (inr (codes "t0", refl, refl), (inl refl, (inl refl, (inl refl, tt)))),
            ),
          ),
        ),
      ),
    ),
  ),
  (
    (
      inr (codes "blah", refl, refl),
      (
        inl refl,
        (
          inr (codes "say \"hi\"", refl, refl),
          (inl refl, (inl refl, (inl refl, (inl refl, (inl refl, (inl refl, (inl refl, tt))))))),
        ),
      ),
    ),
    tt,
  ),
)

sync_default_mcp-list_default_mcp_example :
    IsDistinct (names toy_json toy_conf requested)
    × (all (is_accepted toy_json toy_conf) requested ≡ true)
    × ((found : List Toy) × (list_default_mcp toy_json toy_conf anywhere root
            (ok stored)
            (codes "Simple")
          ≡ ok found)
        × AllReadAs toy_json toy_conf requested found)
unfolding sync_default_mcp text_eq is_whitespace holds
sync_default_mcp-list_default_mcp_example =
    sync_default_mcp-list_default_mcp toy_json toy_conf anywhere root fine config (codes "Simple")
      none stored requested refl requested-fit refl

html_escape-escape_each_example :
    (html_escape (codes "a<b&\"") ≡ escape_each (codes "a<b&\""))
    × (any is_markup (html_escape (codes "a<b&\"")) ≡ false)
html_escape-escape_each_example = html_escape-escape_each (codes "a<b&\"")

-- a query of one code and the state
abbrev toy_form : Text → List (Text × Text)
toy_form q = (codes "code", codes "c1") ∷ (codes "state", codes "s1") ∷ []

abbrev request : Text
request = codes "GET /callback?code=c1&state=s1 HTTP/1.1"

abbrev waited : List Accepted
waited = would_block false ∷ connection ∷ []

callback_thread-state_example :
    (line : Text) × (code : Text) × (some request ≡ some line)
    × (turns : ℕ) × (later : List Accepted) × (waited ≡ waiting turns ++ connection ∷ later)
    × (codes "exa c1 uri" ≡ codes "exa" ++ b' ' ∷ code ++ b' ' ∷ codes "uri")
    × (lookup (toy_form (query_of line)) (codes "error") ≡ none)
    × (lookup (toy_form (query_of line)) (codes "state") ≡ some (codes "s1"))
    × (lookup (toy_form (query_of line)) (codes "code") ≡ some code)
unfolding callback_thread text_eq
callback_thread-state_example =
    callback_thread-state toy_form (codes "exa") (codes "s1") (codes "uri") (codes "exa c1 uri")
      waited (some request) (some ((answer_request toy_form (codes "exa") (codes "s1") request).0))
      refl
