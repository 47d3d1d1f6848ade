-- ===== src/Mcp/Syncing.antt =====
-- How the client replaces the MCP servers of a preset: `sync_default_mcp` and `validate_json_field` of
-- src-tauri/src/commands/mcp.rs.
use alayaface.Prelude.{
  Bool, true, false, not, Option, none, some, List, [], ◌∷◌, Text, codes, text_eq, is_empty, holds,
  if◌then◌else◌, Result, ok, err, ◌>>=◌,
}
use alayaface.Chars.{trim}
use alayaface.Json.{Serde}
use alayaface.Dirs.Paths.{FilePath}
use alayaface.Dirs.Presets.{config_message, resolve_config_dir}
use alayaface.Mcp.{ConfSerde, trimmed_str, write_mcp_conf}

-- The texts of the errors, less what the JSON library says of its own.
pub data McpError : Type 0 where
  invalid_config : McpError
  not_an_object : McpError
  unnamed : McpError
  duplicate : Text → McpError
  auth_client_id_required : Text → McpError
  auth_client_secret_required : Text → McpError
  auth_token_required : Text → McpError
  command_required : Text → McpError
  not_json : Text → Text → McpError
  not_of_kind : Text → Text → Bool → McpError
  no_preset : Text → McpError
  write_failed : Text → McpError

-- An early return with an error.
unfoldable pub ensure : Bool → McpError → Result McpError (Unit {0})
ensure b why = if b then ok tt else err why

module _ (serde : Serde) (conf : ConfSerde serde) where
  unfoldable pub is_kind : Bool → serde.Value → Bool
  is_kind want_array v = if want_array then conf.is_array v else serde.is_object v

  unfoldable pub validate_text : Text → Text → Bool → Text → Result McpError (Unit {0})
  unfolding trim is_kind ensure
  validate_text name key want_array sv =
      if is_empty (trim sv) then ok tt else elim (serde.from_str sv) [
        | none ↦ err (not_json name key)
        | some parsed ↦ ensure (is_kind want_array parsed) (not_of_kind name key want_array)
      ]

  unfoldable pub validate_json_field : serde.Value → Text → Text → Bool → Result McpError (Unit {0})
  unfolding validate_text is_kind ensure
  validate_json_field obj name key want_array = elim (serde.get obj key) [
    | none ↦ ok tt
    | some v ↦ elim (serde.as_str v) [
      | some sv ↦ validate_text name key want_array sv
      | none ↦ ensure (is_kind want_array v) (not_of_kind name key want_array)
    ]
  ]

  unfoldable pub has_text : serde.Value → Text → Bool
  unfolding trimmed_str
  has_text obj key = not (is_empty (trimmed_str serde obj key))

  unfoldable pub validate_client : serde.Value → Text → Result McpError (Unit {0})
  unfolding has_text ensure
  validate_client obj name = do
    id ← ensure (has_text obj (codes "auth_client_id")) (auth_client_id_required name)
    ensure (has_text obj (codes "auth_client_secret")) (auth_client_secret_required name)

  unfoldable pub validate_http : serde.Value → Text → Result McpError (Unit {0})
  unfolding trimmed_str has_text ensure text_eq validate_client
  validate_http obj name =
      let auth_type = trimmed_str serde obj (codes "auth_type") in
      if text_eq auth_type (codes "authorization_code")
      then validate_client obj name
      else if text_eq auth_type (codes "static")
      then ensure (has_text obj (codes "auth_token")) (auth_token_required name)
      else ok tt

  unfoldable pub validate_stdio : serde.Value → Text → Result McpError (Unit {0})
  unfolding has_text ensure validate_json_field
  validate_stdio obj name = do
    command ← ensure (has_text obj (codes "command")) (command_required name)
    args ← validate_json_field obj name (codes "args") true
    validate_json_field obj name (codes "env") false

  abbrev pub server_name : serde.Value → Text
  server_name s = trimmed_str serde s (codes "server")

  unfoldable pub validate_fields : serde.Value → Text → Result McpError (Unit {0})
  unfolding has_text validate_http validate_stdio
  validate_fields s name =
      if has_text s (codes "url") then validate_http s name else validate_stdio s name

  -- One server, with the names of those before it.
  unfoldable pub validate_server : List Text → serde.Value → Result McpError (Unit {0})
  unfolding trimmed_str holds ensure validate_fields
  validate_server names s = do
    shape ← ensure (serde.is_object s) not_an_object
    named ← ensure (not (is_empty (server_name s))) unnamed
    fresh ← ensure (not (holds (server_name s) names)) (duplicate (server_name s))
    validate_fields s (server_name s)

  unfoldable pub validate_servers : List Text → List serde.Value → Result McpError (Unit {0})
  unfolding validate_server
  validate_servers names [] = ok tt
  validate_servers names (s ∷ servers) = do
    valid ← validate_server names s
    validate_servers (server_name s ∷ names) servers

  -- The file after it, and the answer. The write is atomic, and answers with what it is given here.
  unfoldable pub sync_default_mcp :
      (FilePath → Bool)
      → FilePath
      → Result Text (Unit {0})
      → Text
      → Text
      → Option Text
      → Option Text × Result McpError (Unit {0})
  unfolding validate_servers write_mcp_conf resolve_config_dir
  sync_default_mcp exists presets_root write config preset file = elim (conf.from_array config) [
    | none ↦ (file, err invalid_config)
    | some servers ↦ elim (validate_servers [] servers) [
      | err e ↦ (file, err e)
      | ok valid ↦ elim (resolve_config_dir exists presets_root preset) [
        | err e ↦ (file, err (no_preset (config_message e)))
        | ok dir ↦ elim write [
          | err e ↦ (file, err (write_failed e))
          | ok done ↦ (some (write_mcp_conf serde conf servers), ok done)
        ]
      ]
    ]
  ]
