-- ===== src/Mcp/Fields.antt =====
-- The fields of a server: what `write_mcp_conf` of src-tauri/src/commands/mcp.rs writes of them, and what
-- the blocks of `parse_mcp_conf` hold after their insertions.
use alayaface.Prelude.{
  ◌≡◌, ◌≢◌, refl, sym, ap, subst, ◌∙◌, Bool, true, false, not, ◌&&◌, ◌⊎◌, Option, none, some, List,
  [], ◌∷◌, Text, contains, text_eq, text_eq_refl, eq_of_text_eq, is_empty, all, arith, holds,
  any-append, and_left, and_right, ◌==◌, inl, inr, Bool-cases,
}
use alayaface.Chars.{trim}
use alayaface.Chars.Trimming.{IsTight}
use alayaface.Json.{Serde}
use alayaface.Mcp.{
  ConfSerde, json_key, is_raw, compact, field_value, insert_all, written_value, entry,
}
use alayaface.Mcp.Lines.{quoted, quoted-IsTight, unquote-quoted}

-- The keys have different names in JSON.
abbrev pub all_apart : List Text → Bool
all_apart [] = true
all_apart (k ∷ ks) = all (λ j. not (text_eq (json_key k) (json_key j))) ks && all_apart ks

pub all-holds :
    (p : Text → Bool) (xs : List Text) (x : Text) → all p xs ≡ true → holds x xs ≡ true → p x ≡ true
unfolding holds
all-holds p [] x h stands = cc
all-holds p (y ∷ ys) x h stands = elim (Bool-cases (text_eq x y)) [
  | inl e ↦ rw (eq_of_text_eq x y e) (ground arith)
  | inr e ↦ all-holds p ys x (ground arith) (ground arith)
]

pub ne_of_test : (j k : Text) → not (text_eq j k) ≡ true → k ≢ j
ne_of_test j k h e =
    let same : text_eq j k ≡ true = rw e (text_eq_refl j) in
    let no : true ≡ false = sym h ∙ ap not same in cc

module _ (serde : Serde) (conf : ConfSerde serde) where
  -- A text that the file can hold: one that is written as it is, or one that is written as JSON.
  abbrev pub Fits : Bool → Text → Type 0
  Fits true t = IsTight t × (contains b'\n' t ≡ false) × (compact serde conf t ≡ t)
  Fits false t = is_empty t ≡ false

  -- A field is not there, or it is a text that the file can hold.
  abbrev pub HasField : serde.Value → Text → Type 0
  HasField s key =
      (serde.get s (json_key key) ≡ none)
      ⊎ ((t : Text) × (serde.get s (json_key key) ≡ some (serde.string t)) × Fits (is_raw key) t)

  abbrev pub AllFields : serde.Value → List Text → Type 0
  AllFields s [] = Unit
  AllFields s (key ∷ keys) = HasField s key × AllFields s keys

  -- What a field is after a round: args and env as they were, and the others with JSON's escapes.
  abbrev pub read_back : Bool → Text → Text
  read_back true t = t
  read_back false t = conf.escaped t

  abbrev pub field_back : Text → Option serde.Value → Option serde.Value
  field_back key none = none
  field_back key (some v) = elim (serde.as_str v) [
    | none ↦ none
    | some t ↦ some (serde.string (read_back (is_raw key) t))
  ]

  -- the fields that are written, with their texts
  abbrev pub entries : serde.Value → List Text → List (Text × Text)
  entries s [] = []
  entries s (key ∷ keys) = elim (entry serde conf s key) [
    | none ↦ entries s keys
    | some w ↦ (key, w) ∷ entries s keys
  ]

  -- What a written field is, on the line and in the block.
  abbrev pub Written : serde.Value → Text → Text → Type 0
  Written s key w =
      IsTight w
      × (contains b'\n' w ≡ false)
      × (some (field_value serde conf key w) ≡ field_back key (serde.get s (json_key key)))

  newline-quoted : (e : Text) → contains b'\n' e ≡ false → contains b'\n' (quoted e) ≡ false
  newline-quoted e h = any-append (λ x. x == b'\n') e (b'"' ∷ []) ∙ rw h refl

  written_value-raw :
      (key t : Text)
      → is_raw key ≡ true
      → IsTight t
      → written_value serde conf key (serde.string t) ≡ some t
  unfolding written_value trim
  written_value-raw key t raw (some_text, start, end) =
      rw (written_value, serde.as_str-string t, raw, start, end, some_text) refl

  written_value-text :
      (key t : Text)
      → is_raw key ≡ false
      → is_empty t ≡ false
      → written_value serde conf key (serde.string t) ≡ some (quoted (conf.escaped t))
  unfolding written_value
  written_value-text key t raw some_text =
      rw (written_value, serde.as_str-string t, raw, some_text, conf.to_string-string t) refl

  entry-some :
      (s : serde.Value) (key t : Text)
      → serde.get s (json_key key) ≡ some (serde.string t)
      → entry serde conf s key ≡ written_value serde conf key (serde.string t)
  unfolding entry
  entry-some s key t e = rw (entry, e) refl

  field_value-raw :
      (key t : Text)
      → is_raw key ≡ true
      → compact serde conf t ≡ t
      → field_value serde conf key t ≡ serde.string t
  unfolding field_value
  field_value-raw key t raw same = rw (field_value, raw, same) refl

  field_value-text :
      (key e : Text) → is_raw key ≡ false → field_value serde conf key (quoted e) ≡ serde.string e
  unfolding field_value
  field_value-text key e raw = rw (field_value, raw, unquote-quoted e) refl

  pub field_back-string :
      (b : Bool) (s : serde.Value) (key t : Text)
      → is_raw key ≡ b
      → serde.get s (json_key key) ≡ some (serde.string t)
      → field_back key (serde.get s (json_key key)) ≡ some (serde.string (read_back b t))
  field_back-string b s key t raw e = rw (e, field_back, serde.as_str-string t, raw) refl

  -- A field that is not written, or a line that reads as the field.
  abbrev pub Entry : serde.Value → Text → Type 0
  Entry s key =
      (entry serde conf s key ≡ none) × (serde.get s (json_key key) ≡ none)
      ⊎ ((w : Text) × (entry serde conf s key ≡ some w) × Written s key w)

  Entry-kind :
      (b : Bool) (s : serde.Value) (key t : Text)
      → is_raw key ≡ b
      → serde.get s (json_key key) ≡ some (serde.string t)
      → Fits b t
      → Entry s key
  Entry-kind true s key t raw e (tight, one_line, same) = inr (
    t,
    entry-some s key t e ∙ written_value-raw key t raw tight,
    (
      tight,
      one_line,
      ap some (field_value-raw key t raw same) ∙ sym (field_back-string true s key t raw e),
    ),
  )
  Entry-kind false s key t raw e some_text = inr (
    quoted (conf.escaped t),
    entry-some s key t e ∙ written_value-text key t raw some_text,
    (
      quoted-IsTight (conf.escaped t),
      newline-quoted (conf.escaped t) (conf.contains-escaped t),
      ap some (field_value-text key (conf.escaped t) raw)
          ∙ sym (field_back-string false s key t raw e),
    ),
  )

  entry-none :
      (s : serde.Value) (key : Text)
      → serde.get s (json_key key) ≡ none
      → entry serde conf s key ≡ none
  unfolding entry
  entry-none s key e = rw (entry, e) refl

  pub Entry-cases : (s : serde.Value) (key : Text) → HasField s key → Entry s key
  Entry-cases s key (inl e) = inl (entry-none s key e, e)
  Entry-cases s key (inr (t, e, fits)) = Entry-kind (is_raw key) s key t refl e fits

  pub entries-none :
      (s : serde.Value) (k : Text) (ks : List Text)
      → entry serde conf s k ≡ none
      → entries s (k ∷ ks) ≡ entries s ks
  entries-none s k ks e = rw (entries, e) refl

  pub entries-some :
      (s : serde.Value) (k : Text) (ks : List Text) (w : Text)
      → entry serde conf s k ≡ some w
      → entries s (k ∷ ks) ≡ (k, w) ∷ entries s ks
  entries-some s k ks w e = rw (entries, e) refl

  insert_all-none :
      (s v : serde.Value) (k : Text) (ks : List Text)
      → entry serde conf s k ≡ none
      → insert_all serde conf v (entries s (k ∷ ks)) ≡ insert_all serde conf v (entries s ks)
  insert_all-none s v k ks e = ap (insert_all serde conf v) (entries-none s k ks e)

  insert_all-some :
      (s v : serde.Value) (k : Text) (ks : List Text) (w : Text)
      → entry serde conf s k ≡ some w
      → insert_all serde conf v (entries s (k ∷ ks))
        ≡ insert_all serde conf
            (serde.insert v (json_key k) (field_value serde conf k w))
            (entries s ks)
  unfolding insert_all
  insert_all-some s v k ks w e = rw (entries, e) refl

  -- A name that no key has is as it was.
  pub insert_all-other :
      (s : serde.Value) (keys : List Text) (v : serde.Value) (j : Text)
      → AllFields s keys
      → serde.is_object v ≡ true
      → all (λ k. not (text_eq j (json_key k))) keys ≡ true
      → serde.get (insert_all serde conf v (entries s keys)) j ≡ serde.get v j
  unfolding insert_all
  insert_all-other s [] v j fields shape h = refl
  insert_all-other s (k ∷ ks) v j fields shape h = elim (Entry-cases s k (fields.0)) [
    | inl (e, missing) ↦
        ap (λ r. serde.get r j) (insert_all-none s v k ks e)
        ∙ insert_all-other s ks v j (fields.1) shape (ground arith)
    | inr (w, e, written) ↦
        let v' = serde.insert v (json_key k) (field_value serde conf k w) in
        ap (λ r. serde.get r j) (insert_all-some s v k ks w e)
        ∙ (insert_all-other s ks v' j (fields.1)
              (conf.is_object-insert v (json_key k) (field_value serde conf k w) shape)
              (ground arith)
            ∙ serde.get-insert_ne v (json_key k) j (field_value serde conf k w) shape
                (ne_of_test j (json_key k) (ground arith)))
  ]

  -- A key that no other has is what its field reads as.
  pub insert_all-entries :
      (s : serde.Value) (keys : List Text) (v : serde.Value) (key : Text)
      → AllFields s keys
      → serde.is_object v ≡ true
      → all_apart keys ≡ true
      → holds key keys ≡ true
      → serde.get v (json_key key) ≡ none
      → serde.get (insert_all serde conf v (entries s keys)) (json_key key)
        ≡ field_back key (serde.get s (json_key key))
  unfolding holds
  insert_all-entries s [] v key fields shape apart stands empty = cc
  insert_all-entries s (k ∷ ks) v key fields shape apart stands empty =
      let others : all (λ j. not (text_eq (json_key k) (json_key j))) ks ≡ true =
        and_left (all (λ j. not (text_eq (json_key k) (json_key j))) ks) (all_apart ks) apart in
      let rest : all_apart ks ≡ true =
        and_right (all (λ j. not (text_eq (json_key k) (json_key j))) ks) (all_apart ks) apart in
      elim (Bool-cases (text_eq key k)) [
        | inl same ↦
            subst
              (λ x.
                serde.get (insert_all serde conf v (entries s (k ∷ ks))) (json_key x)
                ≡ field_back x (serde.get s (json_key x)))
              (sym (eq_of_text_eq key k same))
              (elim (Entry-cases s k (fields.0)) [
                | inl (e, missing) ↦
                    ap (λ r. serde.get r (json_key k)) (insert_all-none s v k ks e)
                    ∙ (insert_all-other s ks v (json_key k) (fields.1) shape others
                        ∙ ap (λ x. serde.get v (json_key x)) (sym (eq_of_text_eq key k same))
                        ∙ empty
                        ∙ ap (field_back k) (sym missing))
                | inr (w, e, written) ↦
                    let value = field_value serde conf k w in
                    ap (λ r. serde.get r (json_key k)) (insert_all-some s v k ks w e)
                    ∙ (insert_all-other s ks (serde.insert v (json_key k) value) (json_key k)
                          (fields.1) (conf.is_object-insert v (json_key k) value shape) others
                        ∙ serde.get-insert_self v (json_key k) value shape
                        ∙ written.2)
              ])
        | inr other ↦
            let among : holds key ks ≡ true = ground arith in
            elim (Entry-cases s k (fields.0)) [
              | inl (e, missing) ↦
                  ap (λ r. serde.get r (json_key key)) (insert_all-none s v k ks e)
                  ∙ insert_all-entries s ks v key (fields.1) shape rest among empty
              | inr (w, e, written) ↦
                  let value = field_value serde conf k w in
                  let ne : json_key k ≢ json_key key = λ same.
                    ne_of_test (json_key k) (json_key key)
                      (all-holds (λ j. not (text_eq (json_key k) (json_key j))) ks key others among)
                      (sym same) in
                  ap (λ r. serde.get r (json_key key)) (insert_all-some s v k ks w e)
                  ∙ (insert_all-entries s ks (serde.insert v (json_key k) value) key (fields.1)
                      (conf.is_object-insert v (json_key k) value shape) rest among
                      (serde.get-insert_ne v (json_key k) (json_key key) value shape ne ∙ empty))
            ]
      ]

  -- Insertions leave an object.
  pub insert_all-is_object :
      (v : serde.Value) (fields : List (Text × Text))
      → serde.is_object v ≡ true
      → serde.is_object (insert_all serde conf v fields) ≡ true
  unfolding insert_all
  insert_all-is_object v [] shape = shape
  insert_all-is_object v ((key, w) ∷ fields) shape =
      insert_all-is_object (serde.insert v (json_key key) (field_value serde conf key w)) fields
        (conf.is_object-insert v (json_key key) (field_value serde conf key w) shape)
