-- ===== src/Tests/ToySpawn.antt =====
-- A file format of spawn arguments for the tests, which shows that the law of `SpawnSerde` can be met.
use alayaface.Prelude.{zero, suc, ◌≡◌, refl, Option, none, some, and_then, [], ◌∷◌, Text}
use alayaface.Spawning.{SpawnArgs, SpawnSerde}
use alayaface.Tests.ToySettings.{
  put, take_text, take_text-put, put_level, take_level, take_level-put_level,
}

abbrev pub put_tools : Option Text → Text → Text
put_tools none rest = 0 ∷ rest
put_tools (some t) rest = 1 ∷ put t rest

abbrev pub some_tools : Option (Text × Text) → Option (Option Text × Text)
some_tools none = none
some_tools (some (t, rest)) = some (some t, rest)

abbrev pub take_tools : Text → Option (Option Text × Text)
take_tools [] = none
take_tools (zero ∷ rest) = some (none, rest)
take_tools (suc n ∷ rest) = some_tools (take_text rest)

take_tools-put_tools :
    (o : Option Text) (rest : Text) → take_tools (put_tools o rest) ≡ some (o, rest)
take_tools-put_tools none rest = refl
take_tools-put_tools (some t) rest = rw (take_text-put t rest) refl

abbrev pub write : SpawnArgs → Text
write a = put a.tool_confirm (
    put a.system_prompt
      (put a.work_dir (put a.preset (put_tools a.builtin_tools (put_level a.reasoning_level)))))

abbrev pub read : Text → Option SpawnArgs
read text = and_then (take_text text) (λ (confirm, r). and_then (take_text r) (λ (prompt, r').
    and_then (take_text r') (λ (dir, r''). and_then (take_text r'') (λ (preset, r''').
      and_then (take_tools r''') (λ (tools, level). some record {
        tool_confirm = confirm;
        builtin_tools = tools;
        system_prompt = prompt;
        reasoning_level = take_level level;
        work_dir = dir;
        preset = preset;
      })))))

pub read-write : (a : SpawnArgs) → read (write a) ≡ some a
read-write a =
    let tools = put_tools a.builtin_tools (put_level a.reasoning_level) in
    let last = put a.preset tools in
    let dir = put a.work_dir last in
    let prompt = put a.system_prompt dir in
    rw
      (
        take_text-put a.tool_confirm prompt,
        take_text-put a.system_prompt dir,
        take_text-put a.work_dir last,
        take_text-put a.preset tools,
        take_tools-put_tools a.builtin_tools (put_level a.reasoning_level),
        take_level-put_level a.reasoning_level,
      )
      refl

abbrev pub toy_spawns : SpawnSerde
toy_spawns = record {
  args_of = read;
  to_string_pretty = write;
  args_of-to_string_pretty = read-write;
}
