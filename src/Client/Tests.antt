-- ===== src/Client/Tests.antt =====
-- A drain of two releases, and a filesystem that answers from memory.
use corsa_bind.Common.{
  true, false, none, some, string_eq, ◌==◌, All, nat_eq, if◌then◌else◌, ◌≡◌, refl, arith, inl,
}
use corsa_bind.Core.Error.{ok}
use corsa_bind.Core.Value.{Value, Fields}
use corsa_bind.Client.Callbacks.{
  callback_names, FileSystem, ReadFileResult, callbacks, invoke_callback,
}
use corsa_bind.Client.Callbacks.Answers.{IsAnswered, callback_names-IsAnswered}
use corsa_bind.Client.Release.{Progress, new, submit, drain, complete}
use corsa_bind.Client.Release.Waiters.{IsFair, here, after, submits, drains, completes, new-IsFair}

abbrev one_released : Progress
one_released = complete (ok tt) (drain (submit new)).0

new-IsFair_example : IsFair one_released
new-IsFair_example =
    new-IsFair one_released
      (after (after (after here (submits new (omega arith))) (drains _)) (completes (ok tt) _))

abbrev memory : FileSystem
memory = record {
  capabilities = record {
    can_read_file = true;
    can_file_exists = false;
    can_directory_exists = false;
    can_get_accessible_entries = false;
    can_realpath = true;
  };
  read = λ path. if path == "/a.ts" then ReadFileResult.content "one" else ReadFileResult.not_found;
  is_file = λ path. none;
  is_directory = λ path. none;
  entries = λ path. none;
  real = λ path. some path;
}

callback_names-IsAnswered_example : All (IsAnswered memory) (callback_names memory.capabilities)
callback_names-IsAnswered_example = callback_names-IsAnswered memory

-- The answers that the tests of callbacks.rs expect, by the names of their members.
not_found_tagged :
    invoke_callback true memory "readFile" (Value.string "/b.ts")
    ≡ inl (Value.object (Fields.field "kind" (Value.string "missing") Fields.end))
unfolding invoke_callback callbacks
not_found_tagged = refl

found_tagged :
    invoke_callback true memory "readFile" (Value.string "/a.ts")
    ≡ inl (
        Value.object (
          Fields.field "kind"
            (Value.string "value")
            (Fields.field "value" (Value.string "one") Fields.end)))
unfolding invoke_callback callbacks
found_tagged = refl

not_found_untagged :
    invoke_callback false memory "readFile" (Value.string "/b.ts")
    ≡ inl (Value.object (Fields.field "content" Value.null Fields.end))
unfolding invoke_callback callbacks
not_found_untagged = refl
