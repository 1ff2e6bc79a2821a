-- ===== src/Plugins/Loading.antt =====
-- What registering and logging keep, loading the whole tree keeps, also where it raises.
use grafux_mcp.Base.{
  Bool, Bool-cases, List, Option, Option-cases, String, [], arith, false, filter, if◌then◌else◌,
  inl, inr, none, not, some, true, ℕ, ◌+◌, ◌∷◌, ◌≡◌, nat_eq, string_eq, pair_eq,
}
use grafux_mcp.Exceptions.{Exc, Result, Result-cases, thrown, is_instance, ok, syntax_error}
use grafux_mcp.Plugins.{
  PromptInfo, Registry, ResourceInfo, ToolInfo, register_prompt, register_resource, register_tool,
}
use grafux_mcp.Plugins.Loader.{
  Call, Owner, PyFile, apply_call, exec_calls, exec_file, is_private, load_directory, load_file,
  load_files, log_error, no_owner, owned_by, prompt, resource, tool,
}
use grafux_mcp.Plugins.Tree.{
  CategoryDir, DataTree, Pass, ProjectDir, ToolDir, UserDir, add_directory, counted, each,
  is_visible, load_categories, load_category, load_plugins, load_project, load_tool_dir, load_user,
  load_users, skip, then_pass,
}

pub record Keeps (P : Registry → Type 0) : Type 0 where
  pub on_tool : (i : ToolInfo) (reg : Registry) → P reg → P (register_tool i reg)
  pub on_resource : (r : ResourceInfo) (reg : Registry) → P reg → P (register_resource r reg)
  pub on_prompt :
      (n : String) (p : PromptInfo) (reg : Registry) → P reg → P (register_prompt n p reg)
  pub on_error : (f : PyFile) (e : Exc) (reg : Registry) → P reg → P (log_error f e reg)

module _ (P : Registry → Type 0) (keeps : Keeps P) where
  open keeps use {on_tool, on_resource, on_prompt, on_error}

  apply_call_keeps :
      (o : Owner) (c : Call) (reg reg' : Registry) → P reg → apply_call o c reg ≡ ok reg' → P reg'
  unfolding apply_call
  apply_call_keeps o (tool info) reg reg' h e =
      ground (arith, on_tool info reg h, on_tool (owned_by o info) reg h)
  apply_call_keeps o (resource r) reg reg' h e = ground (arith, on_resource r reg h)
  apply_call_keeps o (prompt n p) reg reg' h e = ground (arith, on_prompt n p reg h)

  exec_calls_keeps :
      (o : Owner) (cs : List Call) (raised : Option Exc) (reg : Registry)
      → P reg
      → P (exec_calls o cs raised reg).0
  unfolding exec_calls
  exec_calls_keeps o [] raised reg h = h
  exec_calls_keeps o (c ∷ cs) raised reg h = elim (Result-cases (apply_call o c reg)) [
    | inl (reg', e) ↦
        rw (e, exec_calls) (exec_calls_keeps o cs raised reg' (apply_call_keeps o c reg reg' h e))
    | inr (x, e) ↦ rw (e, exec_calls) h
  ]

  exec_file_keeps : (o : Owner) (f : PyFile) (reg : Registry) → P reg → P (exec_file o f reg).1
  unfolding exec_file
  exec_file_keeps o f reg h =
      let h' = exec_calls_keeps o f.calls f.raised reg h in
      elim (Bool-cases f.has_spec) [
        | inl e ↦ elim (Option-cases (exec_calls o f.calls f.raised reg).1) [
          | inl q ↦ rw (e, q) h'
          | inr (x, q) ↦ rw (e, q) (on_error f x _ h')
        ]
        | inr e ↦ rw e h
      ]

  load_file_keeps : (o : Owner) (f : PyFile) (reg : Registry) → P reg → P (load_file o f reg).1
  unfolding load_file
  load_file_keeps o f reg h = elim (Result-cases f.source) [
    | inl (u, e) ↦ rw (e, load_file) (exec_file_keeps o f reg h)
    | inr (x, e) ↦
        rw (e, load_file)
          (elim (Bool-cases (is_instance x syntax_error)) [
            | inl q ↦ rw q (on_error f x reg h)
            | inr q ↦ rw q h
          ])
  ]

  load_files_keeps :
      (o : Owner) (fs : List PyFile) (n : ℕ) (reg : Registry) → P reg → P (load_files o fs n reg).1
  unfolding load_files
  load_files_keeps o [] n reg h = h
  load_files_keeps o (f ∷ fs) n reg h =
      let h' = load_file_keeps o f reg h in
      elim (Result-cases (load_file o f reg).0) [
        | inl (m, e) ↦ rw (e, load_files) (load_files_keeps o fs (n + m) _ h')
        | inr (x, e) ↦ rw (e, load_files) h'
      ]

  abbrev PassKeeps : Pass → Type 0
  PassKeeps p = (n : ℕ) (reg : Registry) → P reg → P (p n reg).1

  then_pass_keeps : (p q : Pass) → PassKeeps p → PassKeeps q → PassKeeps (then_pass p q)
  then_pass_keeps p q hp hq n reg h = elim (Result-cases (p n reg).0) [
    | inl (m, e) ↦ rw (e, then_pass) (hq m _ (hp n reg h))
    | inr (x, e) ↦ rw (e, then_pass) (hp n reg h)
  ]

  counted_keeps : (r : Result ℕ × Registry) (n : ℕ) → P r.1 → P (counted r n).1
  counted_keeps (ok m, reg) n h = h
  counted_keeps (thrown e, reg) n h = h

  add_directory_keeps : (o : Owner) (d : Option (List PyFile)) → PassKeeps (add_directory o d)
  unfolding add_directory load_directory
  add_directory_keeps o none n reg h = h
  add_directory_keeps o (some base) n reg h =
      counted_keeps (load_directory o base reg) n
        (load_files_keeps o (filter (λ f. not (is_private f.name)) base) 0 reg h)

  each_keeps {ℓ} :
      {A : Type ℓ} (body : A → Pass)
      → ((d : A) → PassKeeps (body d))
      → (ds : List A) → PassKeeps (each body ds)
  unfolding each
  each_keeps body hb [] n reg h = h
  each_keeps body hb (d ∷ ds) n reg h =
      then_pass_keeps (body d) (each body ds) (hb d) (each_keeps body hb ds) n reg h

  when_keeps : (b : Bool) (p : Pass) → PassKeeps p → PassKeeps (if b then p else skip)
  when_keeps true p hp n reg h = hp n reg h
  when_keeps false p hp n reg h = h

  load_tool_dir_keeps : (o : Owner) (d : ToolDir) → PassKeeps (load_tool_dir o d)
  unfolding load_tool_dir
  load_tool_dir_keeps o d =
      when_keeps (is_visible d.is_dir d.name) (add_directory o d.references)
        (add_directory_keeps o d.references)

  load_category_keeps : (u p : String) (d : CategoryDir) → PassKeeps (load_category u p d)
  unfolding load_category
  load_category_keeps u p d =
      let o : Owner = record { username = some u; project = some p; category = some d.name } in
      when_keeps (is_visible d.is_dir d.name) (each (load_tool_dir o) d.tools)
        (each_keeps (load_tool_dir o) (load_tool_dir_keeps o) d.tools)

  load_categories_keeps :
      (u p : String) (ds : Option (List CategoryDir)) → PassKeeps (load_categories u p ds)
  unfolding load_categories
  load_categories_keeps u p none n reg h = h
  load_categories_keeps u p (some ds) n reg h =
      each_keeps (load_category u p) (load_category_keeps u p) ds n reg h

  load_project_keeps : (u : String) (d : ProjectDir) → PassKeeps (load_project u d)
  unfolding load_project
  load_project_keeps u d =
      when_keeps (is_visible d.is_dir d.name) (load_categories u d.name d.categories)
        (load_categories_keeps u d.name d.categories)

  load_user_keeps : (d : UserDir) → PassKeeps (load_user d)
  unfolding load_user
  load_user_keeps d =
      when_keeps (is_visible d.is_dir d.name) (each (load_project d.name) d.projects)
        (each_keeps (load_project d.name) (load_project_keeps d.name) d.projects)

  load_users_keeps : (us : Result (List UserDir)) → PassKeeps (load_users us)
  unfolding load_users
  load_users_keeps (ok ds) n reg h = each_keeps load_user load_user_keeps ds n reg h
  load_users_keeps (thrown e) n reg h = h

  pub load_plugins_keeps : (t : DataTree) (reg : Registry) → P reg → P (load_plugins t reg).1
  unfolding load_plugins
  load_plugins_keeps t reg h =
      then_pass_keeps (add_directory no_owner t.system_tools) (load_users t.users)
        (add_directory_keeps no_owner t.system_tools) (load_users_keeps t.users) 0 reg h
