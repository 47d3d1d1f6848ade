-- ===== src/Mcp/Authorizing.antt =====
-- The OAuth callback of an MCP server: the thread of `start_mcp_auth_inner`, `send_mcp_result`,
-- `auth_callback_page` and `html_escape` of src-tauri/src/commands/mcp.rs.
use alayaface.Prelude.{
  ℕ, Bool, true, false, not, Option, none, some, List, [], ◌∷◌, ◌++◌, Text, codes, text_eq,
  is_empty, ◌==◌, if◌then◌else◌, filter,
}
use alayaface.Chars.{is_whitespace, push_head, split_on, decimal, byte_len}

-- `str::replace` of a character
unfoldable pub replace : ℕ → Text → Text → Text
replace c by [] = []
replace c by (x ∷ xs) = (if x == c then by else x ∷ []) ++ replace c by xs

unfoldable pub html_escape : Text → Text
unfolding replace
html_escape s =
    replace b'"' (codes "&quot;")
      (replace b'>' (codes "&gt;") (replace b'<' (codes "&lt;") (replace b'&' (codes "&amp;") s)))

abbrev outcome : Bool → Text
outcome success = if success then codes "Successful" else codes "Failed"

unfoldable pub auth_callback_page : Text → Bool → Text
unfolding html_escape
auth_callback_page server_name success =
    codes
      "<!DOCTYPE html><html><body style='display:flex;justify-content:center;align-items:center;height:100vh;font-family:sans-serif;'>                    <div style='text-align:center;'><h2>Authorization "
    ++ outcome success
    ++ codes "</h2>                    <p style='color:#666;'>Server: "
    ++ html_escape server_name
    ++ codes
        "</p>                    <p style='color:#666;'>You can close this window.</p></div></body></html>"

-- `split_whitespace`: the words between white space
unfoldable pub words : Text → List Text
unfolding is_whitespace
words [] = [] ∷ []
words (c ∷ cs) = let rest = words cs in if is_whitespace c then [] ∷ rest else push_head c rest

unfoldable pub split_whitespace : Text → List Text
unfolding words
split_whitespace s = filter {A = Text} (λ w. not (is_empty w)) (words s)

unfoldable pub second : List Text → Text → Text
second [] default = default
second (a ∷ []) default = default
second (a ∷ b ∷ rest) default = b

unfoldable pub query_of : Text → Text
unfolding split_whitespace second split_on
query_of request_line =
    second (split_on b'?' (second (split_whitespace request_line) (codes "/"))) []

-- The parameters of a query, of which the last of a name counts: what the map that collects them finds.
unfoldable pub lookup : List (Text × Text) → Text → Option Text
unfolding text_eq
lookup [] key = none
lookup ((k, v) ∷ params) key = elim (lookup params key) [
  | some later ↦ some later
  | none ↦ if text_eq k key then some v else none
]

-- What `accept` answers: a connection, nothing yet, with whether the deadline is over, or an error.
pub data Accepted : Type 0 where
  connection : Accepted
  would_block : Bool → Accepted
  accept_error : Accepted

-- The loop that waits for a connection: `none` as long as it goes on, and whether there is one.
unfoldable pub wait_callback : List Accepted → Option Bool
wait_callback [] = none
wait_callback (connection ∷ rest) = some true
wait_callback (would_block late ∷ rest) =
    let next = wait_callback rest in if late then some false else next
wait_callback (accept_error ∷ rest) = some false

-- the checks on the parameters: the code, if the flow goes on
unfoldable pub callback_code : Text → (Text → Option Text) → Option Text
unfolding text_eq
callback_code state get = elim (get (codes "error")) [
  | some why ↦ none
  | none ↦ elim (get (codes "state")) [
    | none ↦ none
    | some returned_state ↦ if text_eq returned_state state then get (codes "code") else none
  ]
]

-- The command that goes to the session, and its input.
unfoldable pub mcp_result : Text → Text → Option Text → Text × Text
mcp_result server_name redirect_uri (some code) =
    (codes "mcp_confirm", server_name ++ b' ' ∷ code ++ b' ' ∷ redirect_uri)
mcp_result server_name redirect_uri none = (codes "mcp_decline", server_name)

abbrev is_some : Option Text → Bool
is_some none = false
is_some (some t) = true

module _ (form_urlencoded : Text → List (Text × Text)) where
  -- A request line that arrived: the response, and the code.
  unfoldable pub answer_request : Text → Text → Text → Text × Option Text
  unfolding query_of lookup auth_callback_page byte_len decimal callback_code
  answer_request server_name state request_line =
      let get = lookup (form_urlencoded (query_of request_line)) in
      let body = auth_callback_page server_name (is_some (get (codes "code"))) in
      (
        codes "HTTP/1.1 200 OK\r\nContent-Type: text/html\r\nContent-Length: "
            ++ decimal (byte_len body)
            ++ codes "\r\n\r\n"
            ++ body,
        callback_code state get,
      )

  -- The thread: what it writes to the browser, and what it sends to the session. The request line is
  -- `none` if it cannot be read. A list of answers that ends leaves the thread waiting.
  unfoldable pub callback_thread :
      Text → Text → Text → List Accepted → Option Text → Option (Option Text × (Text × Text))
  unfolding wait_callback answer_request mcp_result
  callback_thread server_name state redirect_uri accepted request_line =
      elim (wait_callback accepted) [
        | none ↦ none
        | some false ↦ some (none, mcp_result server_name redirect_uri none)
        | some true ↦ elim request_line [
          | none ↦ some (none, mcp_result server_name redirect_uri none)
          | some line ↦
              let answer = answer_request server_name state line in
              some (some (answer.0), mcp_result server_name redirect_uri (answer.1))
        ]
      ]
