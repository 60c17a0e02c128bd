-- ===== src/Desktop/Qt.antt =====
-- What the code uses of Qt's JSON, Base64 and number parsing, of which no definition is in the repository.
use samryetha_tunnel.Base.{ℕ, ◌^◌, ◌<◌, ◌≡◌, ◌≢◌, Bool, true, Option, some, List, []}
use samryetha_tunnel.Base.Dict.{Dict}
use samryetha_tunnel.Base.Int.{ℤ}
use samryetha_tunnel.Base.Text.{Bytes}

pub record Qt : Type 1 where
  -- QJsonValue, QJsonObject, and the text of a document
  pub Value : Type 0
  pub Object : Type 0
  pub Document : Type 0
  -- the constructors of QJsonValue; a quint64 is given as `static_cast<double>(n)`
  pub of_text : Bytes → Value
  pub of_uint : ℕ → Value
  pub of_int : ℤ → Value
  pub of_object : Object → Value
  pub of_array : List Value → Value
  pub of_bool : Bool → Value
  -- `toString()`, `toBool()`, `static_cast<quint64>(v.toDouble())`, `toInt()`, `toObject()`, `toArray()`
  pub to_text : Value → Bytes
  pub to_bool : Value → Bool
  pub to_uint : Value → ℕ
  pub to_int : Value → ℤ
  -- `toInt(d)`
  pub to_int_or : ℤ → Value → ℤ
  pub to_object : Value → Object
  pub to_array : Value → List Value
  pub is_null : Value → Bool
  -- `toString(d)`
  pub to_text_or : Bytes → Value → Bytes
  -- `QJsonObject()`, `o[k] = v`, `o.value(k)`, `o.contains(k)`, `o.isEmpty()` and the loop over `o`
  pub empty : Object
  pub put : Bytes → Value → Object → Object
  pub value : Object → Bytes → Value
  pub contains : Object → Bytes → Bool
  pub is_empty_object : Object → Bool
  pub members : Object → Dict Bytes Value
  -- `QJsonDocument(o).toJson(Compact)`, and `fromJson(s)`, `none` where `isObject()` is false
  pub to_json : Object → Document
  pub from_json : Document → Option Object
  -- `toJson(Indented)`
  pub to_json_indented : Object → Document
  -- the same of bytes
  pub bytes_of : Object → Bytes
  pub object_of : Bytes → Option Object
  -- `toBase64()` and `fromBase64`
  pub to_base64 : Bytes → Bytes
  pub from_base64 : Bytes → Bytes
  -- `toUShort()`, 0 where the text is no number, `toUpper()`, and `QString::number`
  pub to_ushort : Bytes → ℕ
  pub to_upper : Bytes → Bytes
  pub show_number : ℤ → Bytes
  pub trimmed : Bytes → Bytes
  -- `scheme()`, `host()`, `path()` and `port()` of a QUrl; the port is -1 where there is none
  pub url_scheme : Bytes → Bytes
  pub url_host : Bytes → Bytes
  pub url_path : Bytes → Bytes
  pub url_port : Bytes → ℤ

-- What Qt documents of them.
pub record QtLaws (q : Qt) : Type 0 where
  pub to_text-of_text : (s : Bytes) → q.to_text (q.of_text s) ≡ s
  -- a double holds each natural number below 2 ^ 53
  pub to_uint-of_uint : (n : ℕ) → n < 2 ^ 53 → q.to_uint (q.of_uint n) ≡ n
  pub value-put_self : (k : Bytes) (v : q.Value) (o : q.Object) → q.value (q.put k v o) k ≡ v
  pub value-put_ne :
      (k j : Bytes) (v : q.Value) (o : q.Object) → k ≢ j → q.value (q.put k v o) j ≡ q.value o j
  pub from_json-to_json : (o : q.Object) → q.from_json (q.to_json o) ≡ some o
  pub from_base64-to_base64 : (s : Bytes) → q.from_base64 (q.to_base64 s) ≡ s
  pub from_json-to_json_indented : (o : q.Object) → q.from_json (q.to_json_indented o) ≡ some o
  pub to_bool-of_bool : (b : Bool) → q.to_bool (q.of_bool b) ≡ b
  pub to_array-of_array : (l : List q.Value) → q.to_array (q.of_array l) ≡ l
  pub to_object-of_object : (o : q.Object) → q.to_object (q.of_object o) ≡ o
  pub to_text_or-of_text : (d s : Bytes) → q.to_text_or d (q.of_text s) ≡ s
  pub contains-put_self :
      (k : Bytes) (v : q.Value) (o : q.Object) → q.contains (q.put k v o) k ≡ true
  pub contains-put_ne :
      (k j : Bytes) (v : q.Value) (o : q.Object)
      → k ≢ j
      → q.contains (q.put k v o) j ≡ q.contains o j
  -- a member that is missing is no text
  pub to_text-value_empty : (k : Bytes) → q.to_text (q.value q.empty k) ≡ []
