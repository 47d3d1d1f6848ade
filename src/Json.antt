-- ===== src/Json.antt =====
-- The JSON library that the backend calls (serde_json), and the decoders that serde derives for the
-- payload types of src-tauri/src/wire.rs: what the code uses of them, with their documented laws.
use alayaface.Prelude.{◌≡◌, ◌≢◌, Bool, true, false, Option, some, List, Text}

pub record ContentMeta : Type 0 where
  pub id : Text
  pub time : Text

-- `fps` and `res` are signed in the source; nothing that is modelled here looks at them.
pub record ContentItem : Type 0 where
  pub kind : Text
  pub text : Text
  pub uri : Text

pub record ContentData : Type 0 where
  pub meta : ContentMeta
  pub item : ContentItem

pub record SystemMsgEnvelope (Value : Type 0) : Type 0 where
  pub msg_type : Text
  pub body : Value

pub record Serde : Type 1 where
  pub Value : Type 0
  -- `from_str::<Value>`, `from_str::<ContentData>` and `from_str::<SystemMsgEnvelope>`
  pub from_str : Text → Option Value
  pub content_data : Text → Option ContentData
  pub envelope : Text → Option (SystemMsgEnvelope Value)
  pub null : Value
  pub is_null : Value → Bool
  pub string : Text → Value
  pub object : List (Text × Value) → Value
  pub as_str : Value → Option Text
  pub as_array : Value → Option (List Value)
  pub is_object : Value → Bool
  pub get : Value → Text → Option Value
  pub insert : Value → Text → Value → Value
  pub is_null-null : is_null null ≡ true
  pub is_null-object : (fields : List (Text × Value)) → is_null (object fields) ≡ false
  pub as_str-string : (t : Text) → as_str (string t) ≡ some t
  pub is_object-null : is_object null ≡ false
  pub get-insert_self :
      (v : Value) (k : Text) (w : Value) → is_object v ≡ true → get (insert v k w) k ≡ some w
  pub get-insert_ne :
      (v : Value) (k j : Text) (w : Value)
      → is_object v ≡ true
      → k ≢ j
      → get (insert v k w) j ≡ get v j
