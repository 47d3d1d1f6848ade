-- ===== src/Mcp.antt =====
-- The MCP servers of a preset: `parse_mcp_conf`, `write_mcp_conf`, `sync_default_mcp` and `list_default_mcp`
-- of src-tauri/src/commands/mcp.rs. Texts are code points; a server is a value of the JSON library.
pub mod Authorizing
pub mod Escaping
pub mod Lines
pub mod Fields
pub mod Blocks
pub mod RoundTrip
pub mod Checking
pub mod Syncing
pub mod Storing
pub mod Confirming
use alayaface.Prelude.{
  ℕ, ◌≡◌, Bool, true, false, not, ◌&&◌, ◌||◌, Option, none, some, List, [], ◌∷◌, ◌++◌, Text, codes,
  text_eq, is_empty, any, holds, length, ◌≤◌, ltb, ◌==◌, if◌then◌else◌, Result, ok, err, map_err,
  ◌>>=◌, contains,
}
use alayaface.Chars.{trim}
use alayaface.Json.{Serde}
use alayaface.Versions.{lines, rule}
use alayaface.Dirs.Paths.{FilePath}
use alayaface.Dirs.Presets.{ConfigError, config_message, resolve_config_dir}

-- What serde_json does for these files: objects that start empty, and the texts of values. `escaped` is
-- what it writes between the quotes of a string.
pub record ConfSerde (serde : Serde) : Type 1 where
  pub to_string : serde.Value → Text
  pub is_array : serde.Value → Bool
  pub escaped : Text → Text
  pub from_array : Text → Option (List serde.Value)
  pub is_object-object :
      (fields : List (Text × serde.Value)) → serde.is_object (serde.object fields) ≡ true
  pub get-object_nil : (k : Text) → serde.get (serde.object []) k ≡ none
  pub is_object-insert :
      (v : serde.Value) (k : Text) (w : serde.Value)
      → serde.is_object v ≡ true
      → serde.is_object (serde.insert v k w) ≡ true
  pub to_string-string : (t : Text) → to_string (serde.string t) ≡ b'"' ∷ escaped t ++ b'"' ∷ []
  -- Control characters are escaped.
  pub contains-escaped : (t : Text) → contains b'\n' (escaped t) ≡ false

-- `find(':')`, with the slices before and behind it
unfoldable pub split_colon : Text → Option (Text × Text)
split_colon [] = none
split_colon (c ∷ cs) =
    let rest = split_colon cs in
    if c == b':'
    then some ([], cs)
    else elim rest [ none ↦ none | some (key, value) ↦ some (c ∷ key, value) ]

abbrev pub is_comment : Text → Bool
is_comment [] = false
is_comment (c ∷ cs) = c == b'#'

unfoldable pub split_kv_line : Text → Option (Text × Text)
unfolding trim split_colon
split_kv_line line =
    let trimmed = trim line in
    if is_empty trimmed || is_comment trimmed then none else elim (split_colon trimmed) [
      | none ↦ none
      | some (key, value) ↦ some (trim key, trim value)
    ]

-- `t[1..t.len() - 1]` of a text with a quote at both ends
unfoldable pub but_last : Text → Option Text
but_last [] = none
but_last (c ∷ []) = if c == b'"' then some [] else none
but_last (c ∷ d ∷ ds) = elim (but_last (d ∷ ds)) [ none ↦ none | some t ↦ some (c ∷ t) ]

abbrev pub inside : Text → Text
inside [] = []
inside (c ∷ cs) = if c == b'"' then elim (but_last cs) [ none ↦ c ∷ cs | some t ↦ t ] else c ∷ cs

unfoldable pub unquote : Text → Text
unfolding trim but_last
unquote s = inside (trim s)

unfoldable pub json_key : Text → Text
unfolding text_eq
json_key key =
    if text_eq key (codes "auth-type")
    then codes "auth_type"
    else if text_eq key (codes "auth-token")
    then codes "auth_token"
    else if text_eq key (codes "auth-client-id")
    then codes "auth_client_id"
    else if text_eq key (codes "auth-client-secret")
    then codes "auth_client_secret"
    else if text_eq key (codes "proto-version")
    then codes "proto_version"
    else key

abbrev pub mcp_conf_order : List Text
mcp_conf_order =
    codes "server"
    ∷ codes "url"
    ∷ codes "command"
    ∷ codes "args"
    ∷ codes "env"
    ∷ codes "auth-type"
    ∷ codes "auth-token"
    ∷ codes "auth-client-id"
    ∷ codes "auth-client-secret"
    ∷ codes "proto-version"
    ∷ []

-- `k == "args" || k == "env"`
unfoldable pub is_raw : Text → Bool
unfolding text_eq
is_raw key = text_eq key (codes "args") || text_eq key (codes "env")

abbrev pub is_server : Text → Bool
is_server key = text_eq key (codes "server")

abbrev pub kind_name : Bool → Text
kind_name is_http = if is_http then codes "http" else codes "stdio"

abbrev pub key_line : Text → Text → Text
key_line key value = key ++ b':' ∷ b' ' ∷ value

abbrev pub text_of : Option Text → Text
text_of none = []
text_of (some t) = t

module _ (serde : Serde) where
  -- `obj.get(key).and_then(|v| v.as_str())`
  unfoldable pub get_str : serde.Value → Text → Option Text
  get_str obj key = elim (serde.get obj key) [ none ↦ none | some v ↦ serde.as_str v ]

  -- the same with `.map(str::trim).unwrap_or("")`
  unfoldable pub trimmed_str : serde.Value → Text → Text
  unfolding get_str trim
  trimmed_str obj key = trim (text_of (get_str obj key))

  module _ (conf : ConfSerde serde) where
    unfoldable pub compact : Text → Text
    compact v = elim (serde.from_str v) [ some parsed ↦ conf.to_string parsed | none ↦ v ]

    -- The value of a field, in the loop of `flush`.
    unfoldable pub field_value : Text → Text → serde.Value
    unfolding is_raw compact unquote
    field_value key v = serde.string (if is_raw key then compact v else unquote v)

    unfoldable pub insert_all : serde.Value → List (Text × Text) → serde.Value
    unfolding json_key field_value
    insert_all obj [] = obj
    insert_all obj ((key, v) ∷ fields) =
        insert_all (serde.insert obj (json_key key) (field_value key v)) fields

    unfoldable pub with_type : serde.Value → serde.Value
    unfolding trimmed_str
    with_type obj =
        serde.insert obj (codes "type")
          (serde.string (kind_name (not (is_empty (trimmed_str obj (codes "url"))))))

    -- `flush` on a block with fields
    unfoldable pub push_server : serde.Value → List serde.Value → List serde.Value
    unfolding with_type
    push_server obj servers = elim (serde.get obj (codes "server")) [
      | none ↦ servers
      | some name ↦ servers ++ with_type obj ∷ []
    ]

    unfoldable pub flush : List (Text × Text) → List serde.Value → List serde.Value
    unfolding insert_all push_server
    flush [] servers = servers
    flush (field ∷ fields) servers =
        push_server (insert_all (serde.object []) (field ∷ fields)) servers

    -- the loop on the lines, with the fields `current` of the block it is in
    unfoldable pub parse_lines :
        List Text → List (Text × Text) → List serde.Value → List serde.Value
    unfolding flush split_kv_line trim text_eq
    parse_lines [] current servers = flush current servers
    parse_lines (line ∷ ls) current servers =
        if text_eq (trim line) rule
        then parse_lines ls [] (flush current servers)
        else parse_lines ls (current ++ elim (split_kv_line line) [ none ↦ [] | some kv ↦ kv ∷ [] ])
            servers

    -- The carriage returns that `lines` leaves on are trimmed with the rest of the white space.
    unfoldable pub parse_mcp_conf : Text → List serde.Value
    unfolding lines parse_lines
    parse_mcp_conf text = parse_lines (lines text) [] []

    -- What a line says behind the key, if the field is written.
    unfoldable pub written_value : Text → serde.Value → Option Text
    unfolding is_raw trim
    written_value key v = elim (serde.as_str v) [
      | none ↦ some (conf.to_string v)
      | some sv ↦
          if is_raw key
          then if is_empty (trim sv) then none else some sv
          else if is_empty sv && not (is_server key)
          then none
          else some (conf.to_string (serde.string sv))
    ]

    unfoldable pub entry : serde.Value → Text → Option Text
    unfolding json_key written_value
    entry obj key = elim (serde.get obj (json_key key)) [
      | none ↦ none
      | some v ↦ written_value key v
    ]

    -- the loop on the keys
    unfoldable pub write_fields : serde.Value → List Text → Text
    unfolding entry
    write_fields obj [] = []
    write_fields obj (key ∷ keys) =
        let rest = write_fields obj keys in
        elim (entry obj key) [ none ↦ rest | some value ↦ key_line key value ++ b'\n' ∷ rest ]

    unfoldable pub write_server : serde.Value → Text
    unfolding write_fields
    write_server s = if serde.is_object s then write_fields s mcp_conf_order else []

    -- the servers behind the first
    unfoldable pub write_more : List serde.Value → Text
    unfolding write_server
    write_more [] = []
    write_more (s ∷ servers) = rule ++ b'\n' ∷ (write_server s ++ write_more servers)

    unfoldable pub write_mcp_conf : List serde.Value → Text
    unfolding write_server write_more
    write_mcp_conf [] = []
    write_mcp_conf (s ∷ servers) = write_server s ++ write_more servers

    -- What a file reads as: its text, or that it is not there, or another error.
    abbrev pub FileRead : Type 0
    FileRead = Result Text (Option Text)

    unfoldable pub list_servers : FileRead → Result Text (List serde.Value)
    unfolding parse_mcp_conf
    list_servers (ok none) = ok []
    list_servers (ok (some text)) = ok (parse_mcp_conf text)
    list_servers (err e) = err (codes "Failed to read mcp.conf: " ++ e)

    unfoldable pub list_default_mcp :
        (FilePath → Bool) → FilePath → FileRead → Text → Result Text (List serde.Value)
    unfolding resolve_config_dir list_servers
    list_default_mcp exists presets_root file preset = do
      dir ← map_err config_message (resolve_config_dir exists presets_root preset)
      list_servers file
