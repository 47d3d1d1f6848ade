-- ===== src/Tests/ToyJson.antt =====
-- A JSON library for the tests, which shows that the laws of `Serde` can be met: it has objects and
-- strings, and decodes seven texts.
use alayaface.Prelude.{
  ◌≡◌, ◌≢◌, refl, Bool, true, false, Option, none, some, List, [], ◌∷◌, Text, codes, text_eq,
  text_eq_refl, eq_of_text_eq, if◌then◌else◌, Bool-cases, inl, inr,
}
use alayaface.Json.{Serde, SystemMsgEnvelope}

mutual
  pub data Toy : Type 0 where
    empty : Toy
    text : Text → Toy
    fields : Fields → Toy

  pub data Fields : Type 0 where
    end : Fields
    field : Text → Toy → Fields → Fields

abbrev pub lookup : Fields → Text → Option Toy
lookup end k = none
lookup (field j v fs) k = let found = lookup fs k in if text_eq j k then some v else found

abbrev pub of_list : List (Text × Toy) → Fields
of_list [] = end
of_list ((k, v) ∷ rest) = field k v (of_list rest)

abbrev pub toy_get : Toy → Text → Option Toy
toy_get (fields fs) k = lookup fs k
toy_get empty k = none
toy_get (text t) k = none

abbrev pub toy_insert : Toy → Text → Toy → Toy
toy_insert (fields fs) k w = fields (field k w fs)
toy_insert empty k w = empty
toy_insert (text t) k w = text t

abbrev pub toy_is_object : Toy → Bool
toy_is_object (fields fs) = true
toy_is_object empty = false
toy_is_object (text t) = false

abbrev pub toy_as_str : Toy → Option Text
toy_as_str (text t) = some t
toy_as_str empty = none
toy_as_str (fields fs) = none

abbrev pub toy_is_null : Toy → Bool
toy_is_null empty = true
toy_is_null (text t) = false
toy_is_null (fields fs) = false

-- the answer of a command, and the end of a session
abbrev pub answer_text : Text
answer_text = codes "{\"command_id\":\"x\"}"

abbrev pub answer_value : Toy
answer_value = fields (field (codes "command_id") (text (codes "x")) end)

abbrev pub closing_text : Text
closing_text = codes "{\"type\":\"session\"}"

abbrev pub closing_body : Toy
closing_body = fields (field (codes "state") (text (codes "closed")) end)

-- the document of a session's name
abbrev pub label_text : Text
label_text = codes "{\"label\":\"my plan\"}"

abbrev pub label_value : Toy
label_value = fields (field (codes "label") (text (codes "my plan")) end)

-- a request that sets one field of the settings
abbrev pub settings_text : Text
settings_text = codes "{\"tool_confirm\":\" read,, write ,\"}"

abbrev pub settings_value : Toy
settings_value = fields (field (codes "tool_confirm") (text (codes " read,, write ,")) end)

-- an event of a StepAudio stream, and the event that ends it
abbrev pub delta_text : Text
delta_text = codes "{\"type\":\"transcript.text.delta\",\"delta\":\"one two\"}"

abbrev pub delta_value : Toy
delta_value = fields (
    field (codes "type") (text (codes "transcript.text.delta"))
      (field (codes "delta") (text (codes "one two")) end))

abbrev pub finished_text : Text
finished_text = codes "{\"type\":\"transcript.text.done\"}"

abbrev pub finished_value : Toy
finished_value = fields (field (codes "type") (text (codes "transcript.text.done")) end)

abbrev pub toy_parse : Text → Option Toy
toy_parse t =
    if text_eq t answer_text
    then some answer_value
    else if text_eq t label_text
    then some label_value
    else if text_eq t settings_text
    then some settings_value
    else if text_eq t delta_text
    then some delta_value
    else if text_eq t finished_text
    then some finished_value
    else none

abbrev pub version_text : Text
version_text = codes "{\"type\":\"version\"}"

abbrev pub version_body : Toy
version_body = fields (field (codes "message_version") (text (codes "16")) end)

abbrev pub toy_envelope : Text → Option (SystemMsgEnvelope Toy)
toy_envelope t =
    if text_eq t closing_text
    then some (record { msg_type = codes "session"; body = closing_body })
    else if text_eq t version_text
    then some (record { msg_type = codes "version"; body = version_body })
    else none

pub get-insert_self_toy :
    (v : Toy) (k : Text) (w : Toy) → toy_is_object v ≡ true → toy_get (toy_insert v k w) k ≡ some w
get-insert_self_toy (fields fs) k w h = rw (text_eq_refl k)
get-insert_self_toy empty k w h = cc
get-insert_self_toy (text t) k w h = cc

pub get-insert_ne_toy :
    (v : Toy) (k j : Text) (w : Toy)
    → toy_is_object v ≡ true
    → k ≢ j
    → toy_get (toy_insert v k w) j ≡ toy_get v j
get-insert_ne_toy (fields fs) k j w h ne = elim (Bool-cases (text_eq k j)) [
  | inl e ↦ absurd (ne (eq_of_text_eq k j e))
  | inr e ↦ rw e
]
get-insert_ne_toy empty k j w h ne = cc
get-insert_ne_toy (text t) k j w h ne = cc

abbrev pub toy_json : Serde
toy_json = record {
  Value = Toy;
  from_str = toy_parse;
  content_data = λ t. none;
  envelope = toy_envelope;
  null = empty;
  is_null = toy_is_null;
  string = text;
  object = λ l. fields (of_list l);
  as_str = toy_as_str;
  as_array = λ v. none;
  is_object = toy_is_object;
  get = toy_get;
  insert = toy_insert;
  is_null-null = refl;
  is_null-object = λ l. refl;
  as_str-string = λ t. refl;
  is_object-null = refl;
  get-insert_self = get-insert_self_toy;
  get-insert_ne = get-insert_ne_toy;
}
