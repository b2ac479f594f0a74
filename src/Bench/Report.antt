-- ===== src/Bench/Report.antt =====
-- cmd/hi-im-bench/main.cpp: RunPublishBench, RunUnicastBench and main.
pub mod Laws
use mathlib.Core.Option
use hi_im_core.Prelude.{
  Bool, List, codes, if◌then◌else◌, map, negsuc, not, pos, same_text, suc, zero, ℕ, ℤ, ◌%◌, ◌+◌,
  ◌^◌, ◌||◌,
}
use hi_im_core.Bench.{Ending, and_then, ended, threw}
use hi_im_core.Bench.Setup.{BenchNumbers, BenchOptions, parse_bench_args}
use hi_im_core.Bench.Threads.{ThreadEnd, ThreadEnv, counts, receiving_thread, sending_thread}
use hi_im_core.Hub.Context.{publish}
use hi_im_core.Options.{asks_help, bad_number, config}
use hi_im_core.Wire.Bytes.{Endian}

-- The arithmetic of `double` that main uses.
pub record Doubles : Type 1 where
  pub Double : Type 0
  pub of_nat : ℕ → Double
  pub of_int : ℤ → Double
  pub over : Double → Double → Double
  pub below : Double → Double → Bool

-- `measure_seconds` is 0 where it is not set.
pub record BenchResult : Type 0 where
  pub sent : ℕ
  pub recv : ℕ
  pub measure_seconds : ℤ

-- A counter of type uint64_t after so many increments.
abbrev pub load64 : ℕ → ℕ
load64 n = n % 2 ^ 64

-- The joins of the first n publishers: how many frames they have counted in all.
unfoldable pub join_publishers : (ℕ → Ending ThreadEnd) → ℕ → Ending ℕ
join_publishers publisher zero = ended 0
join_publishers publisher (suc n) =
    let before = join_publishers publisher n in
    and_then before (λ total. and_then (publisher n) (λ t. ended (total + t.counted)))

abbrev pub rounds_of : ℤ → ℕ
rounds_of (pos n) = n
rounds_of (negsuc n) = 0

module _ (e : Endian) (opt : BenchOptions) where
  -- `static_cast<uint32_t>(20001 + i)`
  abbrev pub publisher : (ℕ → ThreadEnv) → ℕ → Ending ThreadEnd
  publisher envs i = sending_thread e opt opt.forward_addr ((20001 + i) % 2 ^ 32) 30001 (envs i)

  unfoldable pub run_publish_bench : ThreadEnv → (ℕ → ThreadEnv) → Ending BenchResult
  unfolding join_publishers sending_thread receiving_thread
  run_publish_bench env envs =
      and_then (join_publishers (publisher envs) (rounds_of opt.publishers)) (λ total.
        and_then (receiving_thread e opt opt.backend_addr 30001 env.turns env) (λ t. ended (record {
          sent = load64 total;
          recv = load64 t.counted;
          measure_seconds = opt.duration;
        })))

  unfoldable pub run_unicast_bench : ThreadEnv → ThreadEnv → Ending BenchResult
  unfolding sending_thread receiving_thread
  run_unicast_bench receiver sender =
      and_then (sending_thread e opt opt.backend_addr 30002 20002 sender) (λ s.
        and_then
          (receiving_thread e opt opt.forward_addr 20002 (map counts receiver.turns) receiver)
          (λ t.
            ended (record {
              sent = load64 s.counted;
              recv = load64 t.counted;
              measure_seconds = pos 0;
            })))

-- What the threads of both modes meet.
pub record BenchEnv : Type 0 where
  pub receiver : ThreadEnv
  pub sender : ThreadEnv
  pub publishers : ℕ → ThreadEnv

unfoldable pub run_mode : Endian → BenchOptions → BenchEnv → Ending BenchResult
unfolding run_publish_bench run_unicast_bench
run_mode e opt env =
    if same_text opt.mode (codes "unicast")
    then and_then (run_unicast_bench e opt env.receiver env.sender)
        (λ r. ended (record r { measure_seconds = opt.duration }))
    else run_publish_bench e opt env.receiver env.publishers

-- `recv_per_sec` and the test of it.
module _ (d : Doubles) where
  open d use {of_nat, of_int, over, below}

  unfoldable pub passes : BenchOptions → BenchResult → Bool
  passes opt result =
      let seconds =
        if below (of_nat 0) (of_int result.measure_seconds)
        then of_int result.measure_seconds
        else of_nat 1 in
      not (same_text opt.mode (codes "publish"))
      || not (below (over (of_nat result.recv) seconds) (of_nat 140000))

  unfoldable pub bench_main :
      Endian → BenchNumbers → (BenchOptions → BenchEnv) → List (List ℕ) → Ending ℕ
  unfolding passes run_mode parse_bench_args
  bench_main e numbers env args = elim (parse_bench_args numbers args) [
    | config opt ↦
        and_then (run_mode e opt (env opt)) (λ result. ended (if passes opt result then 0 else 1))
    | bad_number ↦ threw
    | asks_help ↦ ended 0
  ]
