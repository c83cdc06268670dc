-- ===== src/Plugin/Lifecycle/Installed.antt =====
-- What the plugin holds when it is ready, and what its end leaves.
use mysql_selective_trace_pl.Common.{
  ◌≡◌, refl, ◌⊎◌, inl, inr, Bool, true, false, not, ◌&&◌, Option, none, some, [], if_split, Bytes,
}
use mysql_selective_trace_pl.Engine.Rules.{FilterRules}
use mysql_selective_trace_pl.Engine.Parse.{Parsed, parsed, refused}
use mysql_selective_trace_pl.FileWriter.{Files, file_writer_close}
use mysql_selective_trace_pl.FileWriter.Handle.{file_writer_close-closed}
use mysql_selective_trace_pl.Plugin.Filters.{rebuild_rules_locked, parse_rules, or_empty}
use mysql_selective_trace_pl.Plugin.Filters.Current.{IsGoodText, parse_rules_good}
use mysql_selective_trace_pl.TableWriter.Queue.{table_writer_shutdown}
use mysql_selective_trace_pl.Plugin.Lifecycle.{Install, Texts, Memory, fail, selective_trace_deinit}

-- Nothing is held: no text, no rules, no map, no queue, no thread, no open file.
pub record IsClean (p : Install) : Type 0 where
  pub not_ready : p.plugin_ready ≡ false
  pub schemas : p.schemas_storage ≡ none
  pub tables : p.tables_storage ≡ none
  pub connections : p.connections_storage ≡ none
  pub path : p.file_path_storage ≡ none
  pub rules : p.active_rules ≡ none
  pub map : p.state_map ≡ none
  pub queue : p.queue.queue ≡ none
  pub thread : p.queue.thread_running ≡ false
  pub closed : p.log.is_open ≡ false

-- The plugin is ready, with the texts of its variables, the rules of these texts, and no state yet.
pub record IsInstalled (texts : Texts) (p : Install) : Type 0 where
  pub ready : p.plugin_ready ≡ true
  pub schemas : p.schemas_storage ≡ some (or_empty texts.opt_schemas)
  pub tables : p.tables_storage ≡ some (or_empty texts.opt_tables)
  pub connections : p.connections_storage ≡ some (or_empty texts.opt_connections)
  pub path : p.file_path_storage ≡ some (or_empty texts.opt_file_path)
  pub pointed : p.opts_at_storage ≡ true
  pub rules : FilterRules
  pub made :
      parse_rules
        (some (or_empty texts.opt_schemas))
        (some (or_empty texts.opt_tables))
        (some (or_empty texts.opt_connections))
      ≡ parsed rules
  pub active : p.active_rules ≡ some rules
  pub map : p.state_map ≡ some []
  pub closed : p.log.is_open ≡ false

-- the texts are well formed
abbrev pub IsGoodStart : Texts → Type 0
IsGoodStart texts =
    IsGoodText (or_empty texts.opt_schemas) (or_empty texts.opt_tables)
      (or_empty texts.opt_connections)

-- memory for all that the start cannot do without
abbrev pub has_all : Memory → Bool
has_all memory =
    memory.for_map
    && (memory.for_schemas && memory.for_tables && memory.for_connections && memory.for_path)
    && memory.for_rules

pub rebuild_cases :
    (has_memory : Bool) (s t c : Bytes) (active : Option FilterRules)
    → (let r = rebuild_rules_locked has_memory s t c active in
        ((r.0 ≡ true) × (¬ ((has_memory ≡ true) × IsGoodText s t c)))
        ⊎ ((r.0 ≡ false)
            × (has_memory ≡ true)
            × (rules : FilterRules) × (parse_rules (some s) (some t) (some c) ≡ parsed rules)
            × (r.1 ≡ some rules)))
unfolding rebuild_rules_locked
rebuild_cases false s t c active = inl (refl, λ h. cc h.0)
rebuild_cases true s t c active = at (parse_rules (some s) (some t) (some c)) refl
  where
    at :
        (o : Parsed FilterRules)
        → parse_rules (some s) (some t) (some c) ≡ o
        → (let r = rebuild_rules_locked true s t c active in
            ((r.0 ≡ true) × (¬ ((true ≡ true) × IsGoodText s t c)))
            ⊎ ((r.0 ≡ false)
                × (true ≡ true)
                × (rules : FilterRules) × (parse_rules (some s) (some t) (some c) ≡ parsed rules)
                × (r.1 ≡ some rules)))
    at (refused tok) e =
        rw (rebuild_rules_locked, e)
          (inl (refl, λ h. let (rules, good) = parse_rules_good s t c h.1 in cc))
    at (parsed rules) e = rw (rebuild_rules_locked, e) (inr (refl, refl, rules, refl, refl))

module _ (files : Files) where
  pub fail-IsClean :
      (p : Install) → p.plugin_ready ≡ false → p.active_rules ≡ none → IsClean (fail files p)
  unfolding fail table_writer_shutdown
  fail-IsClean p ready rules = record {
    not_ready = ready;
    schemas = refl;
    tables = refl;
    connections = refl;
    path = refl;
    rules = rules;
    map = refl;
    queue = refl;
    thread = refl;
    closed = file_writer_close-closed files p.log;
  }

  -- The end of a plugin that is ready leaves nothing held, whatever happened since its start.
  pub selective_trace_deinit-IsClean :
      (p : Install) → p.plugin_ready ≡ true → IsClean (selective_trace_deinit files p)
  unfolding selective_trace_deinit table_writer_shutdown
  selective_trace_deinit-IsClean p ready =
      let left = record p {
        plugin_ready = false;
        queue = table_writer_shutdown p.queue;
        log = file_writer_close files p.log;
        active_rules = none;
        schemas_storage = none;
        tables_storage = none;
        connections_storage = none;
        file_path_storage = none;
        state_map = none;
      } in
      if_split IsClean (not p.plugin_ready) {x = p} {y = left} (λ e. cc)
        (λ e. record {
          not_ready = refl;
          schemas = refl;
          tables = refl;
          connections = refl;
          path = refl;
          rules = refl;
          map = refl;
          queue = refl;
          thread = refl;
          closed = file_writer_close-closed files p.log;
        })
