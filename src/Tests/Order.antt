-- ===== src/Tests/Order.antt =====
-- The order of effects in a block with a mutation and a log.
use tired.Prelude.{◌<◌, true, ◌≡◌, refl, mem_nat, arith, insert}
use tired.Compiler.Deps.{compute_deps}
use tired.Compiler.Deps.Meaning.{test_at, is_effect}
use tired.Compiler.Lower.FreeVars.{free_vars_of, ops_vars}
use tired.Compiler.Lower.Nodes.{lower_block}
use tired.Compiler.Optimize.Dedup.{
  dedup_requests, dedup_nodes, apply_rewrites, find_rewrites, reuse, remember, node_sig, kind_sig,
  is_get,
}
use tired.Compiler.Optimize.Liveness.{liveness, live_marks, mark, mark_all}
use tired.Compiler.Optimize.Waves.{
  schedule_waves, waves_of, fill, push_at, max_level, levels, levels_from, node_level, dep_level,
}
use tired.Compiler.Optimize.Waves.Correct.{wave}
use tired.Compiler.Optimize.Order.{reduced, effects_in_order}
use tired.Tests.Sample.{post_then_log, show_float}

mutation_test : test_at is_effect (lower_block post_then_log).nodes 0 ≡ true
unfolding lower_block compute_deps
mutation_test = refl

log_test : test_at is_effect (lower_block post_then_log).nodes 1 ≡ true
unfolding lower_block compute_deps
log_test = refl

first_wave_test : mem_nat 0 (wave (reduced show_float post_then_log) 0) ≡ true
unfolding lower_block compute_deps free_vars_of insert ops_vars schedule_waves waves_of fill push_at
    max_level levels levels_from node_level dep_level liveness live_marks mark mark_all
    dedup_requests dedup_nodes apply_rewrites find_rewrites reuse remember node_sig kind_sig is_get
first_wave_test = refl

second_wave_test : mem_nat 1 (wave (reduced show_float post_then_log) 1) ≡ true
unfolding lower_block compute_deps free_vars_of insert ops_vars schedule_waves waves_of fill push_at
    max_level levels levels_from node_level dep_level liveness live_marks mark mark_all
    dedup_requests dedup_nodes apply_rewrites find_rewrites reuse remember node_sig kind_sig is_get
second_wave_test = refl

effects_in_order_example : 0 < 1
effects_in_order_example =
    effects_in_order show_float post_then_log 0 1 0 1 (omega arith) mutation_test log_test
      first_wave_test second_wave_test
