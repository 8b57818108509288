-- ===== src/Client/Callbacks.antt =====
-- src/core/corsa_client/src/api/callbacks.rs: the filesystem callbacks that a client answers, and
-- their two encodings. The filesystem is a parameter; a JSON object lists its members as written.
pub mod Answers
use corsa_bind.Common.{
  ℕ, ◌+◌, ◌-◌, ◌^◌, Bool, true, false, Option, none, some, List, [], ◌∷◌, ◌++◌, String, string_eq,
  ◌==◌, if◌then◌else◌, Bytes, codes, length, map, ◌⊎◌, inl, inr,
}
use corsa_bind.Core.Text.{with_str}
use corsa_bind.Core.Value.{Value, Items, Fields, as_str}
use corsa_bind.Core.Wire.{RpcResponseError}

pub data CallbackKind : Type 0 where
  read_file file_exists directory_exists get_accessible_entries realpath : CallbackKind

pub record FileSystemCapabilities : Type 0 where
  pub can_read_file : Bool
  pub can_file_exists : Bool
  pub can_directory_exists : Bool
  pub can_get_accessible_entries : Bool
  pub can_realpath : Bool

pub data ReadFileResult : Type 0 where
  fallback not_found : ReadFileResult
  content : String → ReadFileResult

pub record DirectoryEntries : Type 0 where
  pub files : List String
  pub directories : List String

-- `ApiFileSystem`
pub record FileSystem : Type 0 where
  pub capabilities : FileSystemCapabilities
  pub read : String → ReadFileResult
  pub is_file : String → Option Bool
  pub is_directory : String → Option Bool
  pub entries : String → Option DirectoryEntries
  pub real : String → Option String

-- `CALLBACKS.get(method)`
unfoldable pub callbacks : String → Option CallbackKind
callbacks method =
    if method == "readFile"
    then some read_file
    else if method == "fileExists"
    then some file_exists
    else if method == "directoryExists"
    then some directory_exists
    else if method == "getAccessibleEntries"
    then some get_accessible_entries
    else if method == "realpath"
    then some realpath
    else none

abbrev pub push_if : Bool → String → List String → List String
push_if true name names = name ∷ names
push_if false name names = names

abbrev pub callback_names : FileSystemCapabilities → List String
callback_names caps = push_if caps.can_read_file "readFile" (
    push_if caps.can_file_exists "fileExists" (
      push_if caps.can_directory_exists "directoryExists" (
        push_if caps.can_get_accessible_entries "getAccessibleEntries"
          (push_if caps.can_realpath "realpath" []))))

abbrev pub callback_prefix : Bytes
callback_prefix = codes "--callbacks="

abbrev pub name_bytes : List String → ℕ
name_bytes [] = 0
name_bytes (name ∷ names) = length (codes name) + name_bytes names

abbrev pub flag_capacity : List String → ℕ
flag_capacity names = length callback_prefix + name_bytes names + (length names - 1)

-- The loop of `render_callback_flag` behind its first name.
unfoldable pub push_names : List String → Bytes
push_names [] = []
push_names (name ∷ names) = b',' ∷ (codes name ++ push_names names)

unfoldable pub render_callback_flag : List String → Bytes
unfolding push_names
render_callback_flag [] = callback_prefix
render_callback_flag (name ∷ names) = callback_prefix ++ (codes name ++ push_names names)

abbrev pub callback_flag : FileSystemCapabilities → Option Bytes
callback_flag caps = elim (callback_names caps) [
  | [] ↦ none
  | name ∷ names ↦ some (render_callback_flag (name ∷ names))
]

pub data CallbackAnswer : Type 0 where
  use_server_file_system missing : CallbackAnswer
  value : Value → CallbackAnswer

abbrev pub from_option : Option Value → CallbackAnswer
from_option none = use_server_file_system
from_option (some v) = value v

abbrev pub strings : List String → Items
strings [] = Items.nil
strings (s ∷ ss) = Items.cons (Value.string s) (strings ss)

abbrev pub one_field : String → Value → Value
one_field name v = Value.object (Fields.field name v Fields.end)

abbrev pub into_untagged : CallbackAnswer → CallbackKind → Value
into_untagged use_server_file_system kind = Value.null
into_untagged missing kind = one_field "content" Value.null
into_untagged (value v) read_file = one_field "content" v
into_untagged (value v) _ = v

abbrev pub into_tagged : CallbackAnswer → Value
into_tagged use_server_file_system = one_field "kind" (Value.string "useOS")
into_tagged missing = one_field "kind" (Value.string "missing")
into_tagged (value v) =
    Value.object (Fields.field "kind" (Value.string "value") (Fields.field "value" v Fields.end))

abbrev pub listing : DirectoryEntries → Value
listing e = Value.object (
    Fields.field "files" (Value.array (strings e.files))
      (Fields.field "directories" (Value.array (strings e.directories)) Fields.end))

abbrev pub map_option : {A B : Type 0} → (A → B) → Option A → Option B
map_option f none = none
map_option f (some a) = some (f a)

abbrev pub read_answer : ReadFileResult → CallbackAnswer
read_answer fallback = use_server_file_system
read_answer not_found = missing
read_answer (content text) = value (Value.string text)

-- What the filesystem decides for a path.
abbrev pub answer_of : FileSystem → CallbackKind → String → CallbackAnswer
answer_of fs read_file path = read_answer (fs.read path)
answer_of fs file_exists path = from_option (map_option Value.boolean (fs.is_file path))
answer_of fs directory_exists path = from_option (map_option Value.boolean (fs.is_directory path))
answer_of fs get_accessible_entries path = from_option (map_option listing (fs.entries path))
answer_of fs realpath path = from_option (map_option Value.string (fs.real path))

abbrev pub unsupported_callback : String → RpcResponseError
unsupported_callback method = record {
  code = 2 ^ 64 - 32601;
  message = with_str "unsupported callback: {}" method;
  payload = none;
}

abbrev pub bad_params : String → RpcResponseError
bad_params method = record {
  code = 2 ^ 64 - 32602;
  message = with_str "invalid callback params for {}: expected a string path" method;
  payload = none;
}

-- The first argument is `dialect.is_derived_snapshots()`.
unfoldable pub invoke_callback : Bool → FileSystem → String → Value → Value ⊎ RpcResponseError
unfolding callbacks
invoke_callback tagged fs method payload = elim (callbacks method) [
  | none ↦ inr (unsupported_callback method)
  | some kind ↦ elim (as_str payload) [
    | none ↦ inr (bad_params method)
    | some path ↦
        let answer = answer_of fs kind path in
        inl (if tagged then into_tagged answer else into_untagged answer kind)
  ]
]
