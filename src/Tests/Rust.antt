-- ===== src/Tests/Rust.antt =====
-- The Rust runner at concrete inputs.
use mathlib.Core.List.{flat_map}
use mathlib.Core.Option.{or_else}
use bmk_dev.Base.{ℕ, true, none, some, [], ◌∷◌, ◌++◌, ◌≡◌, refl, list_eq, nat_eq}
use bmk_dev.Base.Text.{codes}
use bmk_dev.Base.Dict.{insert, lookup}
use bmk_dev.Base.Sorting.{sorted, insert_sorted}
use bmk_dev.Runners.Scopes.{nested_names, advance}
use bmk_dev.Runners.Comments.{depends_on_above}
use bmk_dev.Runners.Rust.{
  RustHost, rust_discover, rust_dependencies, rust_outcomes, rust_event_outcome, reported_to_id,
  filter_name,
}
use bmk_dev.Runners.Rust.Names.{reported_to_id-filter_name}

abbrev host : RustHost ℕ
host = record {
  is_dir = λ h directory. true;
  sources = λ h directory. codes "mod m {\n// DependsOn: a\n#[test] fn t() {}}" ∷ [];
  modules = λ text. (0, codes "m") ∷ [];
  tests = λ text. (24, codes "t") ∷ [];
  packages = λ h. none;
  loads = λ line. some (record {
    type_of = some (codes "test");
    event = some (codes "ok");
    name_of = some (codes "atomic::atomic$m::t");
  });
  repr = λ names. [];
}

discovered : rust_discover host 0 (codes "atomic") ≡ codes "atomic::m::t" ∷ []
unfolding rust_discover flat_map nested_names advance sorted insert_sorted
discovered = refl

marked : rust_dependencies host 0 ≡ (codes "t", codes "a" ∷ []) ∷ []
unfolding rust_dependencies depends_on_above insert list_eq nat_eq
marked = refl

reported :
    rust_outcomes host.loads (codes "{}\nnoise") [] ≡ some ((codes "atomic::m::t", "passed") ∷ [])
unfolding rust_outcomes rust_event_outcome insert lookup list_eq nat_eq or_else
reported = refl

reported_to_id-filter_name_example :
    (reported_to_id (codes "atomic" ++ codes "::" ++ codes "atomic" ++ codes "$" ++ codes "m::t")
      ≡ codes "atomic::m::t")
    × (filter_name (
          reported_to_id
            (codes "atomic" ++ codes "::" ++ codes "atomic" ++ codes "$" ++ codes "m::t"))
        ≡ codes "m::t")
unfolding nat_eq
reported_to_id-filter_name_example =
    reported_to_id-filter_name b'a' (codes "tomic") (codes "atomic") (codes "m::t") refl refl
