-- ===== src/Examples/Common.antt =====
-- The texts and the schedule that the examples of the registry share.
use app_launcher_lite.Prelude.{false, none}
use app_launcher_lite.Prelude.Json.{Json}
use app_launcher_lite.Jobs.Job.{Schedule}
use app_launcher_lite.Jobs.Registry.Python.{Python, is_ascii_digit}

-- Texts in ASCII that have no case to change, and files of one suffix.
abbrev pub python : Python
python = record {
  lower = λ s. s;
  upper = λ s. s;
  is_digit = λ c. is_ascii_digit c;
  repr = λ v. "[]";
  equal = λ a b. false;
  suffix = λ p. ".py";
}

abbrev pub daily : Schedule
daily = record { type = "daily"; every = Json.null; at = Json.str "06:30"; day = none }
