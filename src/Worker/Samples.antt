-- ===== src/Worker/Samples.antt =====
-- A sample of what jobs take from the Go runtime.
use fin_base.Base.{true, err}
use fin_base.Worker.Site.{Runtime}

abbrev pub go : Runtime
go = record {
  getenv = λ _. "";
  parse_duration = λ _. err "time: invalid duration";
  format_float = λ _ _. "0";
  day = λ _. "2024-05-01";
  day_a_year_before = λ _. "2023-05-01";
  day_thirty_days_before = λ _. "2024-04-01";
  floats = record { mul = λ x y. 0; sub = λ x y. 0 };
  is_less_than_1e8 = λ _. true;
  times_1e6 = λ x. x;
}
