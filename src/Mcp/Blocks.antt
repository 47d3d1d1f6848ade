-- ===== src/Mcp/Blocks.antt =====
-- The blocks of `mcp.conf`, as the loops of `write_mcp_conf` and `parse_mcp_conf` of
-- src-tauri/src/commands/mcp.rs write and read them.
use alayaface.Prelude.{
  ◌≡◌, refl, sym, ap, ◌∙◌, true, none, some, List, [], ◌∷◌, ◌++◌, Text, codes, all, arith, inl, inr,
  append_assoc, append-nil,
}
use alayaface.Chars.{is_whitespace}
use alayaface.Chars.Trimming.{IsTight}
use alayaface.Json.{Serde}
use alayaface.Versions.{lines, rule}
use alayaface.Versions.Headers.{written, lines-append}
use alayaface.Mcp.{
  ConfSerde, mcp_conf_order, insert_all, entry, key_line, with_type, push_server, flush,
  parse_lines, write_fields,
}
use alayaface.Mcp.Lines.{is_key, split_kv_line-key_line, key_line-rule, key_line-newline}
use alayaface.Mcp.Fields.{AllFields, entries, entries-none, entries-some, Entry-cases}

module _ (serde : Serde) (conf : ConfSerde serde) where
  -- the lines of a server, and of those behind it
  abbrev pub block : List (Text × Text) → List Text
  block [] = []
  block ((key, w) ∷ fields) = key_line key w ∷ block fields

  abbrev pub block_of : serde.Value → List Text
  block_of s = block (entries serde conf s mcp_conf_order)

  abbrev pub more_lines : List serde.Value → List Text
  more_lines [] = []
  more_lines (s ∷ servers) = rule ∷ (block_of s ++ more_lines servers)

  -- A server that the file can hold: it has a name, and all its fields are texts that fit.
  abbrev pub IsServer : serde.Value → Type 0
  IsServer s =
      (serde.is_object s ≡ true)
      × ((name : serde.Value) × (serde.get s (codes "server") ≡ some name))
      × AllFields serde conf s mcp_conf_order

  abbrev pub AllServers : List serde.Value → Type 0
  AllServers [] = Unit
  AllServers (s ∷ servers) = IsServer s × AllServers servers

  -- What a server reads as.
  unfoldable pub reread : serde.Value → serde.Value
  reread s =
      with_type serde conf
        (insert_all serde conf (serde.object []) (entries serde conf s mcp_conf_order))

  unfoldable pub reread_all : List serde.Value → List serde.Value
  unfolding reread
  reread_all [] = []
  reread_all (s ∷ servers) = reread s ∷ reread_all servers

  write_fields-none :
      (s : serde.Value) (k : Text) (ks : List Text)
      → entry serde conf s k ≡ none
      → write_fields serde conf s (k ∷ ks) ≡ write_fields serde conf s ks
  unfolding write_fields
  write_fields-none s k ks e = rw (write_fields, e) refl

  write_fields-some :
      (s : serde.Value) (k : Text) (ks : List Text) (w : Text)
      → entry serde conf s k ≡ some w
      → write_fields serde conf s (k ∷ ks) ≡ key_line k w ++ b'\n' ∷ write_fields serde conf s ks
  unfolding write_fields
  write_fields-some s k ks w e = rw (write_fields, e) refl

  write_fields_nil : (s : serde.Value) → write_fields serde conf s [] ≡ []
  unfolding write_fields
  write_fields_nil s = refl

  -- The lines of a server are its fields'.
  pub lines-write_fields :
      (s : serde.Value) (keys : List Text) (rest : Text)
      → AllFields serde conf s keys
      → all is_key keys ≡ true
      → lines (write_fields serde conf s keys ++ rest)
        ≡ block (entries serde conf s keys) ++ lines rest
  lines-write_fields s [] rest fields h = ap (λ w. lines (w ++ rest)) (write_fields_nil s)
  lines-write_fields s (k ∷ ks) rest fields h = elim (Entry-cases serde conf s k (fields.0)) [
    | inl (e, missing) ↦
        ap (λ w. lines (w ++ rest)) (write_fields-none s k ks e)
        ∙ lines-write_fields s ks rest (fields.1) (ground arith)
        ∙ ap (λ es. block es ++ lines rest) (sym (entries-none serde conf s k ks e))
    | inr (w, e, written) ↦
        ap (λ w. lines (w ++ rest)) (write_fields-some s k ks w e)
        ∙ ap lines (append_assoc (key_line k w) (b'\n' ∷ write_fields serde conf s ks) rest)
        ∙ lines-append (key_line k w) (write_fields serde conf s ks ++ rest)
            (key_line-newline k w (ground arith) (written.1))
        ∙ ap (◌∷◌ (key_line k w)) (lines-write_fields s ks rest (fields.1) (ground arith))
        ∙ ap (λ es. block es ++ lines rest) (sym (entries-some serde conf s k ks w e))
  ]

  parse_lines-key_line :
      (key w : Text) (ls : List Text) (current : List (Text × Text)) (servers : List serde.Value)
      → is_key key ≡ true
      → IsTight w
      → parse_lines serde conf (key_line key w ∷ ls) current servers
        ≡ parse_lines serde conf ls (current ++ (key, w) ∷ []) servers
  unfolding parse_lines
  parse_lines-key_line key w ls current servers h tight =
      rw (parse_lines, key_line-rule key w h tight, split_kv_line-key_line key w h tight) refl

  -- The loop collects the fields of a server's lines.
  pub parse_lines-block :
      (s : serde.Value) (keys ls : List Text) (current : List (Text × Text))
      (servers : List serde.Value)
      → AllFields serde conf s keys
      → all is_key keys ≡ true
      → parse_lines serde conf (block (entries serde conf s keys) ++ ls) current servers
        ≡ parse_lines serde conf ls (current ++ entries serde conf s keys) servers
  parse_lines-block s [] ls current servers fields h =
      ap (λ c. parse_lines serde conf ls c servers) (sym (append-nil current))
  parse_lines-block s (k ∷ ks) ls current servers fields h =
      elim (Entry-cases serde conf s k (fields.0)) [
        | inl (e, missing) ↦
            rw (entries-none serde conf s k ks e)
              (parse_lines-block s ks ls current servers (fields.1) (ground arith))
        | inr (w, e, written) ↦ rw (entries-some serde conf s k ks w e) (
            parse_lines-key_line k w (block (entries serde conf s ks) ++ ls) current servers
              (ground arith) (written.0)
            ∙ parse_lines-block s ks ls (current ++ (k, w) ∷ []) servers (fields.1) (ground arith)
            ∙ ap (λ c. parse_lines serde conf ls c servers)
                (append_assoc current ((k, w) ∷ []) (entries serde conf s ks)))
      ]

  pub parse_lines-rule :
      (ls : List Text) (current : List (Text × Text)) (servers : List serde.Value)
      → parse_lines serde conf (rule ∷ ls) current servers
        ≡ parse_lines serde conf ls [] (flush serde conf current servers)
  unfolding parse_lines is_whitespace
  parse_lines-rule ls current servers = refl

  pub parse_lines_nil :
      (current : List (Text × Text)) (servers : List serde.Value)
      → parse_lines serde conf [] current servers ≡ flush serde conf current servers
  unfolding parse_lines
  parse_lines_nil current servers = refl

  pub flush-push_server :
      (fields : List (Text × Text)) (servers : List serde.Value)
      → flush serde conf fields servers
        ≡ push_server serde conf (insert_all serde conf (serde.object []) fields) servers
  unfolding flush
  flush-push_server [] servers =
      rw (push_server, insert_all, conf.get-object_nil (codes "server")) refl
  flush-push_server (field ∷ fields) servers = refl
