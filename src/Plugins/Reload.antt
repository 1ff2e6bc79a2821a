-- ===== src/Plugins/Reload.antt =====
-- What holds of the registries after loading and reloading the plugins.
use grafux_mcp.Base.{
  List, ap, arith, contains, false, filter, lookup, not, refl, some, true, ℕ, ◌∷◌, ◌≡◌, nat_eq,
  string_eq, pair_eq,
}
use grafux_mcp.Exceptions.{Exc, Result, thrown, is_instance, ok, syntax_error}
use grafux_mcp.Plugins.{
  Registry, empty_registry, index_of, register_prompt, register_resource, register_tool,
}
use grafux_mcp.Plugins.Loader.{
  Owner, PyFile, is_private, load_directory, load_file, load_files, no_owner,
}
use grafux_mcp.Plugins.Tree.{
  DataTree, UserDir, add_directory, counted, counts, finish_reload, load_plugins, load_users,
  reload_plugins, start_plugin_loader, then_pass,
}
use grafux_mcp.Plugins.Loading.{Keeps, load_plugins_keeps}
use grafux_mcp.Plugins.Index.{IsCoherent, register_tool-IsCoherent}

empty-IsCoherent : IsCoherent empty_registry
unfolding lookup index_of contains
empty-IsCoherent = record {
  keyed = λ k i h. cc;
  complete = λ k i h. cc;
  sound = λ n k h. cc;
  distinct = λ n. tt;
}

same-IsCoherent :
    (a b : Registry) → a.tools ≡ b.tools → a.name_index ≡ b.name_index → IsCoherent a → IsCoherent b
same-IsCoherent a b p q c = record {
  keyed = λ k i h. c.keyed k i (rw p h);
  complete = λ k i h. rw (← q) (c.complete k i (rw p h));
  sound = λ n k h. rw (← p) (c.sound n k (rw q h));
  distinct = λ n. rw (← q) (c.distinct n);
}

IsCoherent-Keeps : Keeps IsCoherent
unfolding register_resource register_prompt
IsCoherent-Keeps = record {
  on_tool = register_tool-IsCoherent;
  on_resource = λ r reg h. same-IsCoherent reg _ refl refl h;
  on_prompt = λ n p reg h. same-IsCoherent reg _ refl refl h;
  on_error = λ f e reg h. same-IsCoherent reg _ refl refl h;
}

IsUnset : Registry → Type 0
IsUnset reg = reg.loaded ≡ false

IsUnset-Keeps : Keeps IsUnset
unfolding register_tool register_resource register_prompt IsUnset
IsUnset-Keeps = record {
  on_tool = λ i reg h. h;
  on_resource = λ r reg h. h;
  on_prompt = λ n p reg h. h;
  on_error = λ f e reg h. h;
}

finish-IsCoherent : (r : Result ℕ × Registry) → IsCoherent r.1 → IsCoherent (finish_reload r).1
finish-IsCoherent (ok n, reg) c = same-IsCoherent reg _ refl refl c
finish-IsCoherent (thrown e, reg) c = c

-- After a reload, whether it returns or raises and whatever the registries held before, TOOLS and
-- NAME_INDEX agree: every tool stands under its own key and is listed once under its display name,
-- and every listed key is registered.
pub reload_plugins-IsCoherent :
    (t : DataTree) (reg : Registry) → IsCoherent (reload_plugins t reg).1
unfolding reload_plugins
reload_plugins-IsCoherent t reg =
    finish-IsCoherent (load_plugins t empty_registry)
      (load_plugins_keeps IsCoherent IsCoherent-Keeps t empty_registry empty-IsCoherent)

-- Loading in the background keeps the agreement, and sets the event in any case.
pub start_plugin_loader-IsCoherent :
    (t : DataTree) (reg : Registry)
    → IsCoherent reg
    → IsCoherent (start_plugin_loader t reg) × ((start_plugin_loader t reg).loaded ≡ true)
unfolding start_plugin_loader
start_plugin_loader-IsCoherent t reg c =
    (same-IsCoherent _ _ refl refl (load_plugins_keeps IsCoherent IsCoherent-Keeps t reg c), refl)

finish-loaded :
    (r : Result ℕ × Registry)
    → IsUnset r.1
    → ((n : ℕ)
        → r.0 ≡ ok n
        → ((finish_reload r).1.loaded ≡ true) × ((finish_reload r).0 ≡ ok (counts r.1)))
      × ((e : Exc)
          → r.0 ≡ thrown e
          → ((finish_reload r).1.loaded ≡ false) × ((finish_reload r).0 ≡ thrown e))
unfolding IsUnset
finish-loaded (ok n, reg) h = (λ m p. (refl, refl), λ e p. cc)
finish-loaded (thrown x, reg) h = (λ m p. cc, λ e p. (h, cc))

-- A reload that returns leaves the event set, with the counts of what is registered. A reload in
-- which loading raises raises the same, and leaves the event cleared.
pub reload_plugins-loaded :
    (t : DataTree) (reg : Registry)
    → ((n : ℕ)
        → (load_plugins t empty_registry).0 ≡ ok n
        → ((reload_plugins t reg).1.loaded ≡ true)
          × ((reload_plugins t reg).0 ≡ ok (counts (load_plugins t empty_registry).1)))
      × ((e : Exc)
          → (load_plugins t empty_registry).0 ≡ thrown e
          → ((reload_plugins t reg).1.loaded ≡ false) × ((reload_plugins t reg).0 ≡ thrown e))
unfolding reload_plugins IsUnset
reload_plugins-loaded t reg =
    finish-loaded (load_plugins t empty_registry)
      (load_plugins_keeps IsUnset IsUnset-Keeps t empty_registry refl)

module _ (o : Owner) (f : PyFile) (fs : List PyFile) (reg : Registry) (e : Exc)
    (p : is_private f.name ≡ false) (q : f.source ≡ thrown e)
    (r : is_instance e syntax_error ≡ false) where
  filter_first :
      filter (λ g. not (is_private g.name)) (f ∷ fs) ≡ f ∷ filter (λ g. not (is_private g.name)) fs
  unfolding filter
  filter_first = ground arith

  load_file_unreadable : load_file o f reg ≡ (thrown e, reg)
  unfolding load_file
  load_file_unreadable = rw (q, load_file) (rw r refl)

  load_directory_unreadable : load_directory o (f ∷ fs) reg ≡ (thrown e, reg)
  unfolding load_directory load_files
  load_directory_unreadable = rw filter_first (
      rw (load_file_unreadable, load_files)
        (ap {B = Result ℕ × Registry} (λ v. (thrown e, v.1)) load_file_unreadable))

  load_plugins_unreadable :
      (users : Result (List UserDir))
      → then_pass (add_directory o (some (f ∷ fs))) (load_users users) 0 reg ≡ (thrown e, reg)
  unfolding add_directory
  load_plugins_unreadable users =
      let eq : add_directory o (some (f ∷ fs)) 0 reg ≡ (thrown e, reg) =
        rw (load_directory_unreadable, counted) refl in
      rw (eq, then_pass) (ap {B = Result ℕ × Registry} (λ v. (thrown e, v.1)) eq)

-- A built-in plugin file that cannot be read or compiled, for another reason than its syntax, and
-- that comes first makes every reload raise and leaves the event cleared.
pub reload_plugins-unreadable :
    (f : PyFile) (fs : List PyFile) (users : Result (List UserDir)) (reg : Registry) (e : Exc)
    → is_private f.name ≡ false
    → f.source ≡ thrown e
    → is_instance e syntax_error ≡ false
    → ((reload_plugins (record { system_tools = some (f ∷ fs); users = users }) reg).0 ≡ thrown e)
      × ((reload_plugins (record { system_tools = some (f ∷ fs); users = users }) reg).1.loaded
          ≡ false)
unfolding reload_plugins load_plugins
reload_plugins-unreadable f fs users reg e p q r =
    let eq = load_plugins_unreadable no_owner f fs empty_registry e p q r users in
    rw (eq, finish_reload) (refl, refl)
