-- ===== src/Mcp/Storing.antt =====
-- The MCP servers that are stored are the ones that are listed: `sync_default_mcp` and then
-- `list_default_mcp` of src-tauri/src/commands/mcp.rs.
use alayaface.Prelude.{
  ◌≡◌, refl, sym, ap, ◌∙◌, Bool, true, false, not, Option, some, List, [], ◌∷◌, Text, codes,
  is_empty, all, Result, ok, inl, inr, Option-cases, Result-cases, and_left, and_right, refused,
  IsDistinct,
}
use alayaface.Chars.{trim}
use alayaface.Json.{Serde}
use alayaface.Dirs.Paths.{FilePath}
use alayaface.Dirs.Presets.{config_message, resolve_config_dir}
use alayaface.Mcp.{
  ConfSerde, mcp_conf_order, trimmed_str, get_str, write_mcp_conf, parse_mcp_conf, list_servers,
  list_default_mcp,
}
use alayaface.Mcp.Syncing.{no_preset, write_failed, server_name, validate_servers, sync_default_mcp}
use alayaface.Mcp.Fields.{AllFields}
use alayaface.Mcp.Blocks.{AllServers}
use alayaface.Mcp.RoundTrip.{AllReadAs, parse_mcp_conf-AllReadAs}
use alayaface.Mcp.Checking.{names, is_accepted, is_complete, validate_servers_iff}

module _ (serde : Serde) (conf : ConfSerde serde) (exists : FilePath → Bool)
    (presets_root : FilePath) where
  -- What a request that succeeded has gone through.
  sync_default_mcp-parts :
      (write : Result Text (Unit {0})) (config preset : Text) (file after : Option Text)
      (servers : List serde.Value)
      → conf.from_array config ≡ some servers
      → sync_default_mcp serde conf exists presets_root write config preset file ≡ (after, ok tt)
      → (validate_servers serde conf [] servers ≡ ok tt)
        × ((dir : FilePath) × (resolve_config_dir exists presets_root preset ≡ ok dir))
        × (after ≡ some (write_mcp_conf serde conf servers))
  unfolding sync_default_mcp
  sync_default_mcp-parts write config preset file after servers e h =
      elim (Result-cases (validate_servers serde conf [] servers)) [
        | inr (why, bad) ↦ refused file why (rw (sync_default_mcp, e, bad) refl) h
        | inl (tt, valid) ↦ elim (Result-cases (resolve_config_dir exists presets_root preset)) [
          | inr (why, bad) ↦
              refused file (no_preset (config_message why))
                (rw (sync_default_mcp, e, valid, bad) refl) h
          | inl (dir, found) ↦ elim (Result-cases write) [
            | inr (why, bad) ↦
                refused file (write_failed why) (rw (sync_default_mcp, e, valid, found, bad) refl) h
            | inl (tt, done) ↦
                let computed : sync_default_mcp serde conf exists presets_root write config preset
                      file
                    ≡ (some (write_mcp_conf serde conf servers), ok tt) =
                  rw (sync_default_mcp, e, valid, found, done) refl in
                (valid, (dir, found), ap (λ p. p.0) (sym h ∙ computed))
          ]
        ]
      ]

  -- Servers whose fields the file can hold.
  abbrev pub AllFit : List serde.Value → Type 0
  AllFit [] = Unit
  AllFit (s ∷ servers) = AllFields serde conf s mcp_conf_order × AllFit servers

  named :
      (s : serde.Value)
      → not (is_empty (server_name serde conf s)) ≡ true
      → (name : serde.Value) × (serde.get s (codes "server") ≡ some name)
  unfolding trimmed_str get_str trim
  named s h = elim (Option-cases (serde.get s (codes "server"))) [
    | inr found ↦ found
    | inl e ↦
        let blank : server_name serde conf s ≡ [] = rw (trimmed_str, get_str, e) refl in
        let no : false ≡ true = ap (λ t. not (is_empty t)) (sym blank) ∙ h in cc
  ]

  accepted_servers :
      (servers : List serde.Value)
      → all (is_accepted serde conf) servers ≡ true
      → AllFit servers
      → AllServers serde conf servers
  accepted_servers [] accepted fit = tt
  accepted_servers (s ∷ servers) accepted (fields, rest) =
      let first : is_accepted serde conf s ≡ true =
        and_left (is_accepted serde conf s) (all (is_accepted serde conf) servers) accepted in
      let others : all (is_accepted serde conf) servers ≡ true =
        and_right (is_accepted serde conf s) (all (is_accepted serde conf) servers) accepted in
      let shape : serde.is_object s ≡ true = and_left (serde.is_object s) _ first in
      let called : not (is_empty (server_name serde conf s)) ≡ true =
        and_left (not (is_empty (server_name serde conf s))) (is_complete serde conf s)
          (and_right (serde.is_object s) _ first) in
      ((shape, named s called, fields), accepted_servers servers others rest)

  -- A request to replace the servers of a preset succeeds, with a list of servers of which the file can
  -- hold the fields. Then they have different names and are each valid for their kind, and the servers that
  -- are listed next for the preset are these, in their order, each field as the file gives it back.
  pub sync_default_mcp-list_default_mcp :
      (write : Result Text (Unit {0})) (config preset : Text) (file after : Option Text)
      (servers : List serde.Value)
      → conf.from_array config ≡ some servers
      → AllFit servers
      → sync_default_mcp serde conf exists presets_root write config preset file ≡ (after, ok tt)
      → IsDistinct (names serde conf servers)
        × (all (is_accepted serde conf) servers ≡ true)
        × ((listed : List serde.Value) × (list_default_mcp serde conf exists presets_root
                (ok after)
                preset
              ≡ ok listed)
            × AllReadAs serde conf servers listed)
  unfolding list_default_mcp list_servers
  sync_default_mcp-list_default_mcp write config preset file after servers decoded fit h =
      let (valid, (dir, found), stored) =
        sync_default_mcp-parts write config preset file after servers decoded h in
      let (distinct, accepted) = (validate_servers_iff serde conf servers).0 valid in
      (
        distinct,
        accepted,
        (
          parse_mcp_conf serde conf (write_mcp_conf serde conf servers),
          rw (stored) (rw (list_default_mcp, found) refl),
          parse_mcp_conf-AllReadAs serde conf servers (accepted_servers servers accepted fit),
        ),
      )
