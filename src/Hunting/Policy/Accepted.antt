-- ===== src/Hunting/Policy/Accepted.antt =====
-- Which queries pass the policy.
use microsoft_defender_mcp.Prelude.{
  append-empty_iff, is_empty-eq-true_iff, Result-cases, Option-cases, is_empty, refl, ◌∷◌, ◌++◌,
  ◌↔◌, ◌≡◌, true, false, none, [], ok, All,
}
use microsoft_defender_mcp.Hunting.Commands.{leading_dot}
use microsoft_defender_mcp.Hunting.Policy.{
  inl, inr, not, check_query, problems_of, ◌∷◌, arith, map, Bool, List, check, push_if, Problem,
  plugin_problems, pattern_problem, option_problem, Analysis, Parsed, Parser, is_external_plugin,
  is_tabular,
}
use microsoft_defender_mcp.Text.{Text}

-- An analysis that stays in the store's own tables, and names each of them.
pub record IsScoped (a : Analysis) : Type 0 where
  pub one_cluster : a.cross_cluster ≡ false
  pub no_outside_data : a.external_data ≡ false
  pub no_outside_plugin : All (λ p. is_external_plugin p ≡ false) a.plugins
  pub no_search : a.unscoped_search ≡ false
  pub no_pattern : a.table_patterns ≡ []
  pub no_option : a.set_options ≡ []

-- A query that the policy lets through, with its analysis.
pub record IsAccepted (parse : Parser) (text : Text) (a : Analysis) : Type 0 where
  pub no_command : leading_dot text ≡ none
  pub query : Parsed
  pub parses : parse text ≡ ok query
  pub analysed : query.analysis ≡ a
  pub tabular : is_tabular query.last_statement ≡ true
  pub scoped : IsScoped a

push_if-empty_iff :
    (b : Bool) (p : Problem) (rest : List Problem)
    → (push_if b p ++ rest ≡ []) ↔ ((b ≡ false) × (rest ≡ []))
push_if-empty_iff true p rest = ground arith
push_if-empty_iff false p rest = ground arith

map-empty_iff : (f : Text → Problem) (xs : List Text) → (map f xs ≡ []) ↔ (xs ≡ [])
map-empty_iff f [] = (λ _. refl, λ _. refl)
map-empty_iff f (x ∷ xs) = ground arith

plugins-empty_iff :
    (ps : List Text) → (plugin_problems ps ≡ []) ↔ All (λ p. is_external_plugin p ≡ false) ps
plugins-empty_iff [] = (λ _. tt, λ _. refl)
plugins-empty_iff (p ∷ ps) =
    let here = push_if-empty_iff (is_external_plugin p) _ (plugin_problems ps) in
    let rest = plugins-empty_iff ps in
    (λ e. ((here.0 e).0, rest.0 (here.0 e).1), λ h. here.1 (h.0, rest.1 h.1))

-- The analysis gives no reason to refuse the query exactly when it stays in its own named tables.
check-empty_iff : (a : Analysis) → (check a ≡ []) ↔ IsScoped a
unfolding check
check-empty_iff a =
    let b1 = push_if-empty_iff a.cross_cluster in
    let b2 = push_if-empty_iff a.external_data in
    let b3 = append-empty_iff (plugin_problems a.plugins) in
    let b4 = push_if-empty_iff a.unscoped_search in
    let b5 = append-empty_iff (map pattern_problem a.table_patterns) in
    let plugins = plugins-empty_iff a.plugins in
    let patterns = map-empty_iff pattern_problem a.table_patterns in
    let options = map-empty_iff option_problem a.set_options in
    (
      λ e.
          let (c, e2) = (b1 _ _).0 e in
          let (d, e3) = (b2 _ _).0 e2 in
          let (p, e4) = (b3 _).0 e3 in
          let (s, e5) = (b4 _ _).0 e4 in
          let (w, o) = (b5 _).0 e5 in
          record {
            one_cluster = c;
            no_outside_data = d;
            no_outside_plugin = plugins.0 p;
            no_search = s;
            no_pattern = patterns.0 w;
            no_option = options.0 o;
          },
      λ h. (b1 _ _).1 (
        h.one_cluster,
        (b2 _ _).1 (
          h.no_outside_data,
          (b3 _).1 (
            plugins.1 h.no_outside_plugin,
            (b4 _ _).1 (h.no_search, (b5 _).1 (patterns.1 h.no_pattern, options.1 h.no_option)),
          ),
        ),
      ),
    )

push_not-empty_iff : (b : Bool) (p : Problem) → (push_if (not b) p ≡ []) ↔ (b ≡ true)
push_not-empty_iff true p = ground arith
push_not-empty_iff false p = ground arith

problems-empty_iff :
    (q : Parsed)
    → (problems_of q ≡ []) ↔ (IsScoped q.analysis × (is_tabular q.last_statement ≡ true))
problems-empty_iff q =
    let parts = append-empty_iff (check q.analysis) in
    let scoped = check-empty_iff q.analysis in
    let tabular = push_not-empty_iff (is_tabular q.last_statement) in
    (
      λ e. let (c, t) = (parts _).0 e in (scoped.0 c, (tabular _).0 t),
      λ h. (parts _).1 (scoped.1 h.0, (tabular _).1 h.1),
    )

-- A query passes, with an analysis, exactly when it opens with no command, parses to a tabular last
-- statement and to that analysis, and the analysis stays in the store's own tables and names each:
-- no other cluster, outside data, outbound plugin, search of all tables, wildcard or option.
pub check_query_iff :
    (parse : Parser) (text : Text) (a : Analysis)
    → (check_query parse text ≡ ok a) ↔ IsAccepted parse text a
unfolding check_query
check_query_iff parse text a = (
  λ e. elim (Option-cases (leading_dot text)) [
    | inr (p, dot) ↦ absurd (ground arith)
    | inl no_dot ↦ elim (Result-cases (parse text)) [
      | inr (why, failed) ↦ absurd (ground arith)
      | inl (q, parsed) ↦
          let empty : is_empty (problems_of q) ≡ true = ground arith in
          let (scoped, tabular) = (problems-empty_iff q).0 ((is_empty-eq-true_iff _).0 empty) in
          let same : q.analysis ≡ a = ground arith in
          record {
            no_command = no_dot;
            query = q;
            parses = parsed;
            analysed = same;
            tabular = tabular;
            scoped = rw (← same) scoped;
          }
    ]
  ],
  λ h.
      let scoped : IsScoped h.query.analysis = rw h.analysed h.scoped in
      let empty = (is_empty-eq-true_iff _).1 ((problems-empty_iff h.query).1 (scoped, h.tabular)) in
      let c = h.no_command in let p = h.parses in let s = h.analysed in cc,
)
