-- ===== src/Tools/Stale.antt =====
-- A display name that outlives its tool: two tools of one key and different names.
use grafux_mcp.Base.{
  ==-false, ==_refl, String, [], arith, eq_iff, insert, lookup, lookup-insert, none, refl, some,
  sym, ◌∷◌, ◌≡◌, ◌≢◌, nat_eq, string_eq, pair_eq,
}
use grafux_mcp.Plugins.{Registry, ToolInfo, append_new, index_of, key_of, register_tool}
use grafux_mcp.Plugins.Index.{index_of-insert}
use grafux_mcp.Tools.{Caller, by_name, is_callers, scan_names}

abbrev pub nobody : Caller
nobody = record { username = none; project = none; category = none }

module _ (a b : ToolInfo) (reg : Registry) (same : key_of a ≡ key_of b) (named : a.name ≢ b.name)
    (direct : a.name ≢ key_of a) (unused : lookup a.name reg.tools ≡ none)
    (unlisted : index_of reg.name_index a.name ≡ []) where
  after_both : Registry
  after_both = register_tool b (register_tool a reg)

  no_direct : lookup a.name after_both.tools ≡ none
  unfolding after_both register_tool
  no_direct = ground (
    arith,
    lookup-insert (key_of b) a.name b (insert (key_of a) a reg.tools),
    lookup-insert (key_of a) a.name a reg.tools,
    eq_iff (key_of a) a.name,
    eq_iff (key_of b) a.name,
  )

  replaced : lookup (key_of a) after_both.tools ≡ some b
  unfolding after_both register_tool
  replaced = ground (
    arith,
    lookup-insert (key_of b) (key_of a) b (insert (key_of a) a reg.tools),
    eq_iff (key_of b) (key_of a),
  )

  first_index : index_of (register_tool a reg).name_index a.name ≡ key_of a ∷ []
  unfolding register_tool append_new
  first_index =
      rw (index_of-insert a.name a.name _ reg.name_index, ==_refl {A = String} a.name, unlisted)
        refl

  still_listed : index_of after_both.name_index a.name ≡ key_of a ∷ []
  unfolding after_both register_tool
  still_listed =
      rw
        (
          index_of-insert b.name a.name _ (register_tool a reg).name_index,
          ==-false b.name a.name (λ e. named (sym e)),
        )
        first_index

  by_name_stale : by_name nobody a.name after_both ≡ some (key_of a, b)
  unfolding by_name scan_names is_callers
  by_name_stale =
      rw (no_direct, by_name) (rw (still_listed, by_name) (rw (replaced, scan_names) refl))

  -- Where a tool of the same key but another name replaces a tool, the old display name goes on
  -- resolving: a caller with no user gets the new tool, which has not that name.
  pub resolve-stale :
      by_name nobody a.name (register_tool b (register_tool a reg)) ≡ some (key_of a, b)
  unfolding after_both
  resolve-stale = by_name_stale
