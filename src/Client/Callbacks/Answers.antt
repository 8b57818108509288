-- ===== src/Client/Callbacks/Answers.antt =====
-- The callbacks that are offered to the server: what it is offered is answered, and the flag has the
-- length that was reserved for it.
use corsa_bind.Common.{
  ◌+◌, Bool, true, false, some, List, [], ◌∷◌, ◌++◌, String, string_eq, if◌then◌else◌, codes,
  length, length-append, All, ◌≡◌, refl, arith, inl,
}
use corsa_bind.Client.Callbacks.{
  CallbackKind, callback_prefix, read_file, file_exists, directory_exists, get_accessible_entries,
  realpath, FileSystemCapabilities, FileSystem, callbacks, push_if, callback_names, name_bytes,
  flag_capacity, push_names, render_callback_flag, into_untagged, into_tagged, answer_of,
  invoke_callback,
}
use corsa_bind.Core.Value.{Value}

invoked :
    (tagged : Bool) (fs : FileSystem) (method path : String) (kind : CallbackKind)
    → callbacks method ≡ some kind
    → invoke_callback tagged fs method (Value.string path)
      ≡ inl (
          if tagged
          then into_tagged (answer_of fs kind path)
          else into_untagged (answer_of fs kind path) kind)
unfolding invoke_callback
invoked tagged fs method path kind k = rw (invoke_callback, k) refl

-- A name that the table has.
abbrev pub IsKnown : String → Type 0
IsKnown name = (kind : CallbackKind) × (callbacks name ≡ some kind)

All-push_if :
    (b : Bool) (name : String) (names : List String)
    → IsKnown name
    → All IsKnown names
    → All IsKnown (push_if b name names)
All-push_if true name names k h = (k, h)
All-push_if false name names k h = h

length-push_names :
    (names : List String) → length (push_names names) ≡ name_bytes names + length names
unfolding push_names
length-push_names [] = refl
length-push_names (name ∷ names) =
    omega (arith, length-append (codes name) (push_names names), length-push_names names)

callback_names-IsKnown : (caps : FileSystemCapabilities) → All IsKnown (callback_names caps)
unfolding callbacks
callback_names-IsKnown caps =
    All-push_if caps.can_read_file "readFile" _ (read_file, refl)
      (All-push_if caps.can_file_exists "fileExists" _ (file_exists, refl)
        (All-push_if caps.can_directory_exists "directoryExists" _ (directory_exists, refl)
          (All-push_if caps.can_get_accessible_entries "getAccessibleEntries" _
            (get_accessible_entries, refl)
            (All-push_if caps.can_realpath "realpath" [] (realpath, refl) tt))))

-- A name whose callback is answered by a value, for every path and in either encoding, and not by an error.
abbrev pub IsAnswered : FileSystem → String → Type 0
IsAnswered fs name =
    (tagged : Bool) (path : String)
    → (v : Value) × (invoke_callback tagged fs name (Value.string path) ≡ inl v)

all-IsAnswered :
    (fs : FileSystem) (names : List String) → All IsKnown names → All (IsAnswered fs) names
all-IsAnswered fs [] h = tt
all-IsAnswered fs (name ∷ names) ((kind, k), h) =
    (λ tagged path. (_, invoked tagged fs name path kind k), all-IsAnswered fs names h)

-- Whatever a filesystem can do and decides, each callback name that is offered to the server is answered
-- for every path, in either encoding, by a value and not by an error.
pub callback_names-IsAnswered :
    (fs : FileSystem) → All (IsAnswered fs) (callback_names fs.capabilities)
callback_names-IsAnswered fs =
    all-IsAnswered fs (callback_names fs.capabilities) (callback_names-IsKnown fs.capabilities)

-- The flag has exactly the length that was reserved for it.
pub length-render_callback_flag :
    (names : List String) → length (render_callback_flag names) ≡ flag_capacity names
unfolding render_callback_flag
length-render_callback_flag [] = refl
length-render_callback_flag (name ∷ names) = omega (
  arith,
  length-append callback_prefix (codes name ++ push_names names),
  length-append (codes name) (push_names names),
  length-push_names names,
)
