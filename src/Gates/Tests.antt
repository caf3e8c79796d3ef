-- ===== src/Gates/Tests.antt =====
-- Runs and instances on a small registry; handlers are numbers.
use geruest.Prelude.{ℕ, ◌≡◌, refl, [], ◌∷◌, some, none, codes}
use geruest.Prelude.Assoc.{lookup, insert, erase}
use geruest.Language.{
  extract_supported_language_prefix, is_language_available, strip_supported_language_prefix,
}
use geruest.Paths.{canonical_request_path, pop_slashes, drop_extension}
use geruest.Gates.{
  GateRegistry, sync, async, store_gate_rule, page_of_sync, page_of_async, find_best_wildcard_gate,
  find_resolved_gate_impl, add_async_page_gate, remove_page_gate, resolve_exact_page_gate,
  find_best_wildcard_page_gate, find_resolved_page_gate,
}
use geruest.Gates.Access.{IsOpenPage, find_resolved_page_gate-none}
use geruest.Routes.Best.{consider, consider_all}
use geruest.Wildcard.{matches_wildcard_pattern}

gating : Unit {0}
unfolding lookup insert erase extract_supported_language_prefix is_language_available
    strip_supported_language_prefix canonical_request_path pop_slashes drop_extension
    store_gate_rule page_of_sync page_of_async find_best_wildcard_gate find_resolved_gate_impl
    add_async_page_gate remove_page_gate resolve_exact_page_gate find_best_wildcard_page_gate
    find_resolved_page_gate consider consider_all matches_wildcard_pattern
gating = tt

abbrev guarded : GateRegistry ℕ ℕ
guarded = record {
  languages =
      some (record { available_languages = codes "en" ∷ []; default_language = codes "en" });
  page_gates = (codes "/admin", record { handler = 1; redirect_to = codes "/login" }) ∷ [];
  wildcard_page_gates = (codes "/admin/*", record { handler = 2; redirect_to = [] }) ∷ [];
  async_page_gates = [];
  wildcard_async_page_gates = (codes "/a*", record { handler = 3; redirect_to = [] }) ∷ [];
  route_gates = [];
  wildcard_route_gates = [];
  async_route_gates = [];
  wildcard_async_route_gates = [];
}

gate_tests :
    (find_resolved_page_gate guarded (codes "/en/admin.html")
      ≡ some (record { handler = sync 1; redirect_to = codes "/login" }))
    × (find_resolved_page_gate guarded (codes "/admin/x/")
        ≡ some (record { handler = sync 2; redirect_to = [] }))
    × (find_resolved_page_gate guarded (codes "/about")
        ≡ some (record { handler = async 3; redirect_to = [] }))
    × (find_resolved_page_gate guarded (codes "/open/") ≡ none)
unfolding gating
gate_tests = (refl, refl, refl, refl)

find_resolved_page_gate-none_example : IsOpenPage guarded (canonical_request_path (codes "/open/"))
find_resolved_page_gate-none_example =
    find_resolved_page_gate-none guarded (codes "/open/") gate_tests.3
