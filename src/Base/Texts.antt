-- ===== src/Base/Texts.antt =====
-- Go's strings.TrimPrefix and strings.TrimSuffix.
use Prim.Native.Nat.{◌-◌}
use Prim.Native.String.{String, len, slice}
use text.Mathlib.Text.{starts_with, ◌==◌ as str_eq}
use go_agent_api.Base.Tests.{if◌then◌else◌, leb}

unfoldable pub trim_prefix : String → String → String
trim_prefix s prefix = if starts_with s prefix then slice s (len prefix) (len s) else s

unfoldable pub trim_suffix : String → String → String
trim_suffix s suffix =
    let rest = len s - len suffix in
    if leb (len suffix) (len s)
    then if str_eq (slice s rest (len s)) suffix then slice s 0 rest else s
    else s
