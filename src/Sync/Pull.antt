-- ===== src/Sync/Pull.antt =====
-- core/runtime/cloud_syncer.py: what sync_tool_from_supabase leaves of the local files.
use grafux_mcp.Base.{
  Option, String, if◌then◌else◌, some, ℕ, ◌&&◌, ◌==◌, ◌≡◌, nat_eq, string_eq, pair_eq,
}
use grafux_mcp.Exceptions.{Result, ok, thrown}
use grafux_mcp.Plugins.{}
use grafux_mcp.Sync.Supabase.{Supabase, is_source}

-- What a download leaves at its path, where `old` was.
abbrev pub arrived : Result (ℕ × String) → (old : Option String) → Option String
arrived (thrown e) old = old
arrived (ok (status, content)) old = if status == 200 then some content else old

module _ (s : Supabase) (placed : (path : String) → s.place path ≡ ok tt) where
  -- A path that is pulled has what its download gave.
  abbrev pulled : (path other : String) → (old : Option String) → Option String
  pulled path other old =
      if path == other && is_source path then arrived (s.object path) old else old
