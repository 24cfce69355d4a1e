-- ===== src/Tests/Sample.antt =====
-- Sample inputs: a runner that reads one outcome a line, a machine that answers every command, and
-- numbers in ten-thousandths.
use bmk_dev.Base.{ℕ, ◌+◌, ◌-◌, ◌*◌, ◌/◌, true, none, some, [], ◌∷◌, ◌++◌, ltb, eqb}
use mathlib.Core.Option.{get_or}
use bmk_dev.Base.Int.{pos}
use bmk_dev.Base.Text.{Text, codes, before_first}
use bmk_dev.Base.Floats.{Floats}
use bmk_dev.Runners.{Runner}
use bmk_dev.Sandbox.Docker.{Process, finished}
use bmk_dev.Sandbox.Score.{Machine}

abbrev pub numbers : Floats
numbers = record {
  Float = ℕ;
  ratio = λ a b. a * 10000 / b;
  sub = λ a b. a - b;
  round4 = λ a. a;
  ltb = ltb;
  div = λ a b. a * 10000 / b;
  is_zero = λ a. eqb a 0;
}

-- `nodeid.split("[", 1)[0]`
abbrev pub without_case : Text → Text
without_case id = get_or (before_first (codes "[") id) id

abbrev pub runner : Runner ℕ
runner = record {
  discover = λ host suite. (suite ++ codes "::a") ∷ (suite ++ codes "::b") ∷ [];
  setup =
      λ env. record { command = codes "setup"; timeout = 30; required = true; capture = true } ∷ [];
  batch = λ suite tests offset timeout. record { command = codes "test"; report = none };
  outcomes = λ report out. some (
      some (
        (codes "atomic::a", "passed")
        ∷ (codes "atomic::b", "failed")
        ∷ (codes "integration::a", "passed")
        ∷ (codes "integration::b", "passed")
        ∷ []));
  function_of = without_case;
  synthetic_id = λ suite. suite ++ codes "::placeholder";
  dependencies = λ host. (codes "a", codes "a" ∷ []) ∷ (codes "b", codes "b" ∷ []) ∷ [];
  provenance = λ env. none;
}

-- Every command ends with exit code 0; the state counts them.
abbrev pub answer : Process ℕ
answer cmd timeout w = (finished (pos 0) (codes "__RC__=0") [], w + 1)

abbrev pub machine : Machine ℕ ℕ
machine = record {
  run = answer;
  host_path = λ h. codes "/host";
  is_file = λ h. true;
  loads = λ line. some [];
  target_imports = (codes "t", codes "pkg" ∷ []) ∷ [];
  batch_timeout = 180;
}
