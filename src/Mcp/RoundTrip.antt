-- ===== src/Mcp/RoundTrip.antt =====
-- Writing `mcp.conf` and reading it again, as `write_mcp_conf` and `parse_mcp_conf` of
-- src-tauri/src/commands/mcp.rs do.
use alayaface.Prelude.{
  ◌≡◌, refl, sym, ap, ◌∙◌, true, false, not, none, some, List, [], ◌∷◌, ◌++◌, Text, codes, text_eq,
  is_empty, all, holds, inl, inr, append_assoc,
}
use alayaface.Chars.{is_whitespace}
use alayaface.Json.{Serde}
use alayaface.Versions.{lines, rule}
use alayaface.Versions.Headers.{lines-append}
use alayaface.Mcp.{
  ConfSerde, json_key, is_raw, mcp_conf_order, insert_all, with_type, push_server, flush,
  parse_lines, parse_mcp_conf, write_server, write_more, write_mcp_conf, trimmed_str, kind_name,
  get_str,
}
use alayaface.Mcp.Lines.{is_key}
use alayaface.Mcp.Fields.{
  HasField, entries, field_back, field_back-string, insert_all-entries, insert_all-is_object,
  all_apart, all-holds, ne_of_test,
}
use alayaface.Mcp.Blocks.{
  block_of, more_lines, IsServer, AllServers, reread, reread_all, lines-write_fields,
  parse_lines-block, parse_lines-rule, parse_lines_nil, flush-push_server,
}

order_keys : all is_key mcp_conf_order ≡ true
unfolding is_whitespace
order_keys = refl

order_apart : all_apart mcp_conf_order ≡ true
unfolding text_eq json_key
order_apart = refl

module _ (serde : Serde) (conf : ConfSerde serde) where
  get-fields_of :
      (s : serde.Value) (key : Text)
      → IsServer serde conf s
      → holds key mcp_conf_order ≡ true
      → serde.get
          (insert_all serde conf (serde.object []) (entries serde conf s mcp_conf_order))
          (json_key key)
        ≡ field_back serde conf key (serde.get s (json_key key))
  get-fields_of s key server stands =
      insert_all-entries serde conf s mcp_conf_order (serde.object []) key (server.2)
        (conf.is_object-object []) order_apart stands (conf.get-object_nil (json_key key))

  named :
      (s : serde.Value)
      → HasField serde conf s (codes "server")
      → ((name : serde.Value) × (serde.get s (codes "server") ≡ some name))
      → (v : serde.Value) × (field_back serde conf (codes "server") (serde.get s (codes "server"))
          ≡ some v)
  unfolding json_key is_raw text_eq
  named s (inl e) (name, e') = let clash : none ≡ some name = sym e ∙ e' in cc
  named s (inr (t, e, fits)) name = (
    serde.string (conf.escaped t),
    field_back-string serde conf false s (codes "server") t refl e,
  )

  push_server-named :
      (obj v : serde.Value) (servers : List serde.Value)
      → serde.get obj (codes "server") ≡ some v
      → push_server serde conf obj servers ≡ servers ++ with_type serde conf obj ∷ []
  unfolding push_server
  push_server-named obj v servers e = rw (push_server, e) refl

  flush-server :
      (s : serde.Value) (servers : List serde.Value)
      → IsServer serde conf s
      → flush serde conf (entries serde conf s mcp_conf_order) servers
        ≡ servers ++ reread serde conf s ∷ []
  unfolding reread json_key text_eq holds
  flush-server s servers server =
      let (v, e) = named s ((server.2).0) (server.1) in
      flush-push_server serde conf (entries serde conf s mcp_conf_order) servers
      ∙ push_server-named
          (insert_all serde conf (serde.object []) (entries serde conf s mcp_conf_order)) v servers
          (get-fields_of s (codes "server") server refl ∙ e)

  -- The blocks of servers are read one after the other.
  parse_lines-servers :
      (s : serde.Value) (servers acc : List serde.Value)
      → AllServers serde conf (s ∷ servers)
      → parse_lines serde conf (block_of serde conf s ++ more_lines serde conf servers) [] acc
        ≡ acc ++ reread_all serde conf (s ∷ servers)
  unfolding reread_all
  parse_lines-servers s [] acc (server, rest) =
      parse_lines-block serde conf s mcp_conf_order [] [] acc (server.2) order_keys
      ∙ parse_lines_nil serde conf (entries serde conf s mcp_conf_order) acc
      ∙ flush-server s acc server
  parse_lines-servers s (next ∷ servers) acc (server, rest) =
      parse_lines-block serde conf s mcp_conf_order (more_lines serde conf (next ∷ servers)) [] acc
        (server.2) order_keys
      ∙ parse_lines-rule serde conf (block_of serde conf next ++ more_lines serde conf servers)
          (entries serde conf s mcp_conf_order) acc
      ∙ ap (parse_lines serde conf (block_of serde conf next ++ more_lines serde conf servers) [])
          (flush-server s acc server)
      ∙ parse_lines-servers next servers (acc ++ reread serde conf s ∷ []) rest
      ∙ append_assoc acc (reread serde conf s ∷ []) (reread_all serde conf (next ∷ servers))

  lines-server :
      (s : serde.Value) (rest : Text)
      → IsServer serde conf s
      → lines (write_server serde conf s ++ rest) ≡ block_of serde conf s ++ lines rest
  unfolding write_server
  lines-server s rest server =
      rw (write_server, server.0)
        (lines-write_fields serde conf s mcp_conf_order rest (server.2) order_keys)

  lines-more :
      (servers : List serde.Value)
      → AllServers serde conf servers
      → lines (write_more serde conf servers) ≡ more_lines serde conf servers
  unfolding write_more lines
  lines-more [] all_servers = refl
  lines-more (s ∷ servers) (server, rest) =
      lines-append rule (write_server serde conf s ++ write_more serde conf servers) refl
      ∙ ap (◌∷◌ rule) (
          lines-server s (write_more serde conf servers) server
          ∙ ap (◌++◌ (block_of serde conf s)) (lines-more servers rest))

  parse-write :
      (servers : List serde.Value)
      → AllServers serde conf servers
      → parse_mcp_conf serde conf (write_mcp_conf serde conf servers)
        ≡ reread_all serde conf servers
  unfolding parse_mcp_conf write_mcp_conf reread_all
  parse-write [] all_servers = refl
  parse-write (s ∷ servers) (server, rest) =
      ap (λ ls. parse_lines serde conf ls [] [])
        (lines-server s (write_more serde conf servers) server
          ∙ ap (◌++◌ (block_of serde conf s)) (lines-more servers rest))
      ∙ parse_lines-servers s servers [] (server, rest)

  -- What a server reads as: its fields, and the type that follows from its url.
  abbrev pub ReadsAs : serde.Value → serde.Value → Type 0
  ReadsAs s t =
      ((key : Text)
        → holds key mcp_conf_order ≡ true
        → serde.get t (json_key key) ≡ field_back serde conf key (serde.get s (json_key key)))
      × (serde.get t (codes "type")
          ≡ some (serde.string (kind_name (not (is_empty (trimmed_str serde t (codes "url")))))))

  abbrev pub AllReadAs : List serde.Value → List serde.Value → Type 0
  AllReadAs [] [] = Unit
  AllReadAs [] (t ∷ ts) = false ≡ true
  AllReadAs (s ∷ ss) [] = false ≡ true
  AllReadAs (s ∷ ss) (t ∷ ts) = ReadsAs s t × AllReadAs ss ts

  trimmed_str-get :
      (v w : serde.Value) (k : Text)
      → serde.get v k ≡ serde.get w k
      → trimmed_str serde v k ≡ trimmed_str serde w k
  unfolding trimmed_str get_str
  trimmed_str-get v w k e = rw (trimmed_str, get_str, e) refl

  -- The type is inserted last, and nothing else is changed by it.
  with_type-other :
      (obj : serde.Value) (k : Text)
      → serde.is_object obj ≡ true
      → not (text_eq (codes "type") k) ≡ true
      → serde.get (with_type serde conf obj) k ≡ serde.get obj k
  unfolding with_type
  with_type-other obj k shape other =
      serde.get-insert_ne obj (codes "type") k
        (serde.string (kind_name (not (is_empty (trimmed_str serde obj (codes "url")))))) shape
        (λ e. ne_of_test (codes "type") k other (sym e))

  with_type-type :
      (obj : serde.Value)
      → serde.is_object obj ≡ true
      → serde.get (with_type serde conf obj) (codes "type")
        ≡ some (
            serde.string (
              kind_name
                (not (is_empty (trimmed_str serde (with_type serde conf obj) (codes "url"))))))
  unfolding with_type text_eq
  with_type-type obj shape =
      serde.get-insert_self obj (codes "type")
        (serde.string (kind_name (not (is_empty (trimmed_str serde obj (codes "url")))))) shape
      ∙ ap (λ u. some (serde.string (kind_name (not (is_empty u)))))
          (trimmed_str-get obj (with_type serde conf obj) (codes "url")
            (sym (with_type-other obj (codes "url") shape refl)))

  no_type : all (λ k. not (text_eq (codes "type") (json_key k))) mcp_conf_order ≡ true
  unfolding text_eq json_key
  no_type = refl

  reread-ReadsAs : (s : serde.Value) → IsServer serde conf s → ReadsAs s (reread serde conf s)
  unfolding reread
  reread-ReadsAs s server =
      let made = entries serde conf s mcp_conf_order in
      let shape : serde.is_object (insert_all serde conf (serde.object []) made) ≡ true =
        insert_all-is_object serde conf (serde.object []) made (conf.is_object-object []) in
      (
        λ key stands.
            with_type-other (insert_all serde conf (serde.object []) made) (json_key key) shape (
              all-holds (λ k. not (text_eq (codes "type") (json_key k))) mcp_conf_order key no_type
                stands)
            ∙ get-fields_of s key server stands,
        with_type-type (insert_all serde conf (serde.object []) made) shape,
      )

  reread_all-AllReadAs :
      (servers : List serde.Value)
      → AllServers serde conf servers
      → AllReadAs servers (reread_all serde conf servers)
  unfolding reread_all
  reread_all-AllReadAs [] all_servers = tt
  reread_all-AllReadAs (s ∷ servers) (server, rest) =
      (reread-ReadsAs s server, reread_all-AllReadAs servers rest)

  -- Servers with a name, of which all known fields are texts that are not empty, and args and env are
  -- compact JSON on one line. Written to the file and read again they are as many, in their order: args
  -- and env are what they were, the other fields have their text as JSON escapes it, a field that was not
  -- there is not there, and the type follows from the url.
  pub parse_mcp_conf-AllReadAs :
      (servers : List serde.Value)
      → AllServers serde conf servers
      → AllReadAs servers (parse_mcp_conf serde conf (write_mcp_conf serde conf servers))
  parse_mcp_conf-AllReadAs servers all_servers =
      rw (parse-write servers all_servers) (reread_all-AllReadAs servers all_servers)
