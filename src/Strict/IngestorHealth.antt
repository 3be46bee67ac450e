-- ===== src/Strict/IngestorHealth.antt =====
-- strict/ingestor_health.py: `IngestorHealthMonitor`. Times are milliseconds, and a difference that
-- would be negative is 0, which no test tells from it. The texts of the alerts are left out.
use csdlpt.Prelude.{
  ℕ, ◌+◌, ◌-◌, Bool, true, false, ◌&&◌, String, Option, none, some, List, [], ◌∷◌, ℤ, pos, ◌-ℤ◌,
  ltb_ℤ, nat_eq, string_eq, ltb, if◌then◌else◌, map,
}
use csdlpt.Prelude.Mark.{Mark, neg_inf, at}
use csdlpt.Prelude.Dict
use csdlpt.Prelude.Dict.{Dict}
use csdlpt.Strict.Coordinator.Global.{minimum}
pub mod Bound

pub data IngestorStatus : Type 0 where
  active silent stuck : IngestorStatus
  clock_skew_ok clock_skew_info clock_skew_warning clock_skew_critical : IngestorStatus

pub record HealthRecord : Type 0 where
  pub ingestor_id : String
  pub last_heartbeat : ℕ
  pub last_T_commit : ℕ
  pub clock_skew_ms : ℕ
  pub status : IngestorStatus
  pub partitions_assigned : List ℕ
  pub last_log_offset : Dict ℕ ℕ
  pub ingestor_clock : ℕ
  pub network_rtt_ms : ℕ

unfoldable pub diagnose_clock_skew : HealthRecord → IngestorStatus
diagnose_clock_skew r =
    if ltb r.clock_skew_ms 100
    then clock_skew_ok
    else if ltb r.clock_skew_ms 500
    then clock_skew_info
    else if ltb r.clock_skew_ms 2000
    then clock_skew_warning
    else clock_skew_critical

pub data Severity : Type 0 where
  high info warning critical : Severity

pub data Condition : Type 0 where
  silent_for stuck_punctuation : ℕ → Condition
  clock_skew : ℕ → IngestorStatus → Condition

pub record Alert : Type 0 where
  pub severity : Severity
  pub ingestor : String
  pub condition : Condition

pub record IngestorHealthMonitor : Type 0 where
  pub silent_timeout : ℕ
  pub stuck_timeout : ℕ
  pub critical_skew : ℕ
  pub w_meta_deviation : ℕ
  pub ingestors : Dict String HealthRecord
  pub W_meta_global : Mark
  pub alerts : List Alert

-- The arguments of `receive_heartbeat`; none is an argument that is left out.
pub record Heartbeat : Type 0 where
  pub sender : String
  pub partitions : Option (List ℕ)
  pub T_commit : ℕ
  pub clock : Option ℕ
  pub offsets : Dict ℕ ℕ
  pub rtt : ℕ

abbrev pub distance : ℕ → ℕ → ℕ
distance a b = (a - b) + (b - a)

abbrev new_record : Heartbeat → HealthRecord
new_record hb = record {
  ingestor_id = hb.sender;
  last_heartbeat = 0;
  last_T_commit = 0;
  clock_skew_ms = 0;
  status = active;
  partitions_assigned = Dict.get_or hb.partitions [];
  last_log_offset = [];
  ingestor_clock = 0;
  network_rtt_ms = 0;
}

unfoldable pub put_all : Dict ℕ ℕ → Dict ℕ ℕ → Dict ℕ ℕ
put_all [] d = d
put_all ((k, v) ∷ l) d = put_all l (Dict.put d k v)

abbrev pub heard : ℕ → Heartbeat → HealthRecord → HealthRecord
heard now hb r = record r {
  last_heartbeat = now;
  ingestor_clock = Dict.get_or hb.clock now;
  network_rtt_ms = hb.rtt;
  partitions_assigned = Dict.get_or hb.partitions r.partitions_assigned;
  last_log_offset = put_all hb.offsets r.last_log_offset;
}

-- A commit that goes back is noted and not taken.
abbrev pub commit : ℕ → Heartbeat → HealthRecord → HealthRecord
commit now hb r =
    if ltb hb.T_commit r.last_T_commit
    then record r {
      status = clock_skew_critical;
      clock_skew_ms = distance hb.T_commit r.last_T_commit;
    }
    else if ltb r.last_T_commit hb.T_commit
    then record r { last_T_commit = hb.T_commit; clock_skew_ms = distance r.ingestor_clock now }
    else r

unfoldable pub receive_heartbeat : ℕ → Heartbeat → IngestorHealthMonitor → IngestorHealthMonitor
receive_heartbeat now hb m = record m {
  ingestors =
      Dict.put m.ingestors hb.sender (
        commit now hb
          (heard now hb (Dict.get_or (Dict.get m.ingestors hb.sender) (new_record hb))));
}

abbrev pub is_silent : ℕ → IngestorHealthMonitor → HealthRecord → Bool
is_silent now m r = ltb m.silent_timeout (now - r.last_heartbeat)

abbrev pub is_stuck : ℕ → IngestorHealthMonitor → HealthRecord → Bool
is_stuck now m r = ltb m.stuck_timeout (now - r.last_T_commit) && ltb 0 r.last_T_commit

abbrev pub severity_of : IngestorStatus → Severity
severity_of clock_skew_info = info
severity_of clock_skew_warning = warning
severity_of active = critical
severity_of silent = critical
severity_of stuck = critical
severity_of clock_skew_ok = critical
severity_of clock_skew_critical = critical

-- The status and the alert of an ingestor.
unfoldable pub judge : ℕ → IngestorHealthMonitor → HealthRecord → IngestorStatus × Option Condition
judge now m r =
    if is_silent now m r
    then (silent, some (silent_for (now - r.last_heartbeat)))
    else if is_stuck now m r
    then (stuck, some (stuck_punctuation (now - r.last_T_commit)))
    else if ltb m.critical_skew r.clock_skew_ms
    then (diagnose_clock_skew r, some (clock_skew r.clock_skew_ms (diagnose_clock_skew r)))
    else (active, none)

abbrev alert_of : HealthRecord → Condition → Alert
alert_of r (silent_for age) = record {
  severity = high;
  ingestor = r.ingestor_id;
  condition = silent_for age;
}
alert_of r (stuck_punctuation age) = record {
  severity = high;
  ingestor = r.ingestor_id;
  condition = stuck_punctuation age;
}
alert_of r (clock_skew ms s) = record {
  severity = severity_of s;
  ingestor = r.ingestor_id;
  condition = clock_skew ms s;
}

unfoldable pub alerts_of : ℕ → IngestorHealthMonitor → Dict String HealthRecord → List Alert
alerts_of now m [] = []
alerts_of now m ((i, r) ∷ d) = elim (judge now m r).1 [
  | none ↦ alerts_of now m d
  | some c ↦ alert_of r c ∷ alerts_of now m d
]

unfoldable pub judge_all :
    ℕ → IngestorHealthMonitor → Dict String HealthRecord → Dict String HealthRecord
judge_all now m [] = []
judge_all now m ((i, r) ∷ d) = (i, record r { status = (judge now m r).0 }) ∷ judge_all now m d

abbrev pub has_say : IngestorStatus → Bool
has_say active = true
has_say stuck = true
has_say silent = false
has_say clock_skew_ok = false
has_say clock_skew_info = false
has_say clock_skew_warning = false
has_say clock_skew_critical = false

unfoldable pub commits : Dict String HealthRecord → List Mark
commits [] = []
commits ((i, r) ∷ d) = if has_say r.status then at (pos r.last_T_commit) ∷ commits d else commits d

unfoldable pub lowest : List Mark → Mark
lowest [] = neg_inf
lowest (x ∷ xs) = minimum x xs

-- The alert about a `W_global` that is ahead, with the deviation.
abbrev pub w_meta_alert : ℕ → Mark → Mark → Option ℤ
w_meta_alert limit (at w) (at g) = if ltb_ℤ (pos limit) (g -ℤ w) then some (g -ℤ w) else none
w_meta_alert limit (at w) neg_inf = none
w_meta_alert limit neg_inf g = none

-- Of the answer, the alert about `W_global`; the rest of it is in the state.
unfoldable pub evaluate : ℕ → Mark → IngestorHealthMonitor → Option ℤ × IngestorHealthMonitor
evaluate now W_global m =
    let judged = judge_all now m m.ingestors in
    let W = lowest (commits judged) in
    (
      w_meta_alert m.w_meta_deviation W W_global,
      record m { ingestors = judged; alerts = alerts_of now m m.ingestors; W_meta_global = W },
    )
