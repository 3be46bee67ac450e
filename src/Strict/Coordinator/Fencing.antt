-- ===== src/Strict/Coordinator/Fencing.antt =====
-- strict/coordinator.py: the fencing tokens of the workers and the term.
use csdlpt.Prelude.{
  ℕ, ◌+◌, ◌≤◌, ◌<◌, ◌≡◌, refl, ◌∙◌, arith, inl, inr, true, String, List, [], ◌∷◌, nat_eq, string_eq,
  if◌then◌else◌, Bool-cases,
}
use csdlpt.Prelude.Mark.{Mark}
use csdlpt.Prelude.Dict
use csdlpt.Prelude.Dict.{Dict, get-put}
use csdlpt.Common.Types.{WorkerHeartbeat}
use csdlpt.Strict.Coordinator.State.{Coordinator, persist_partition}
use csdlpt.Strict.Coordinator.Global.{
  update_statuses, compute_watermark, global_from, compute_skew, skew_from, compute_lag,
  compute_diagnosis, compute_global,
}
use csdlpt.Strict.Coordinator.Heartbeat.{
  is_stale, larger, report_partition, report_partitions, note_worker, take_heartbeat,
  receive_heartbeat,
}

-- The token that a worker is held to, 0 if it never reported.
abbrev pub token : Coordinator → String → ℕ
token c w = Dict.get_or (Dict.get c.fencing_tokens w) 0

abbrev SameTokens : Coordinator → Coordinator → Type 0
SameTokens c d = (d.fencing_tokens ≡ c.fencing_tokens) × (d.term ≡ c.term)

persist-SameTokens : (pid : ℕ) (c : Coordinator) → SameTokens c (persist_partition pid c)
unfolding persist_partition
persist-SameTokens pid c = ground arith

report_partitions-SameTokens :
    (now : ℕ) (hb : WorkerHeartbeat) (l : List (ℕ × Mark)) (c : Coordinator)
    → SameTokens c (report_partitions now hb l c)
unfolding report_partitions report_partition
report_partitions-SameTokens now hb [] c = (refl, refl)
report_partitions-SameTokens now hb ((pid, lw) ∷ l) c =
    let h = report_partitions-SameTokens now hb l (report_partition now hb (pid, lw) c) in
    let k = persist-SameTokens pid _ in (h.0 ∙ k.0, h.1 ∙ k.1)

global_from-SameTokens : (l : List Mark) (c : Coordinator) → SameTokens c (global_from l c)
unfolding global_from
global_from-SameTokens [] c = (refl, refl)
global_from-SameTokens (x ∷ l) c = (refl, refl)

compute_skew-SameTokens : (c : Coordinator) → SameTokens c (compute_skew c)
unfolding compute_skew skew_from
compute_skew-SameTokens c = ground arith

compute_global-SameTokens : (now : ℕ) (c : Coordinator) → SameTokens c (compute_global now c)
unfolding compute_global compute_lag compute_diagnosis compute_watermark
compute_global-SameTokens now c =
    let h = compute_skew-SameTokens (compute_watermark c) in
    let k = global_from-SameTokens _ c in (h.0 ∙ k.0, h.1 ∙ k.1)

take_heartbeat-SameTokens :
    (now : ℕ) (hb : WorkerHeartbeat) (c : Coordinator)
    → SameTokens (note_worker now hb c) (take_heartbeat now hb c)
unfolding take_heartbeat update_statuses
take_heartbeat-SameTokens now hb c =
    let h =
      compute_global-SameTokens now
        (update_statuses now (report_partitions now hb hb.partitions (note_worker now hb c))) in
    let k = report_partitions-SameTokens now hb hb.partitions (note_worker now hb c) in
    (h.0 ∙ k.0, h.1 ∙ k.1)

note_worker-token :
    (now : ℕ) (hb : WorkerHeartbeat) (c : Coordinator) (w : String)
    → token (note_worker now hb c) w
      ≡ (if string_eq.beq hb.worker_id w then larger (token c w) hb.fencing_token else token c w)
unfolding note_worker
note_worker-token now hb c w = ground (
  arith,
  string_eq.beq_iff hb.worker_id w,
  get-put c.fencing_tokens hb.worker_id w (larger (token c hb.worker_id) hb.fencing_token),
)

-- What a heartbeat does to the token that the worker `w` is held to and to the term.
heartbeat-tokens :
    (now : ℕ) (hb : WorkerHeartbeat) (c : Coordinator) (w : String)
    → (token c w ≤ token (receive_heartbeat now hb c) w)
      × (c.term ≤ (receive_heartbeat now hb c).term)
      × (string_eq.beq hb.worker_id w ≡ true
          → hb.fencing_token ≤ token (receive_heartbeat now hb c) w)
unfolding receive_heartbeat
heartbeat-tokens now hb c w =
    elim (Bool-cases (is_stale hb.fencing_token (Dict.get c.fencing_tokens hb.worker_id))) [
      | inl stale ↦ rw stale (omega arith, omega arith, λ same. stale_token same stale)
      | inr fresh ↦ rw fresh (taken (take_heartbeat now hb c) (take_heartbeat-SameTokens now hb c))
    ]
  where
    stale_token :
        string_eq.beq hb.worker_id w ≡ true
        → is_stale hb.fencing_token (Dict.get c.fencing_tokens hb.worker_id) ≡ true
        → hb.fencing_token ≤ token c w
    stale_token same stale = ground (arith, string_eq.beq_iff hb.worker_id w)

    noted :
        (token c w ≤ token (note_worker now hb c) w)
        × (c.term ≤ larger c.term hb.fencing_token)
        × (string_eq.beq hb.worker_id w ≡ true → hb.fencing_token ≤ token (note_worker now hb c) w)
    noted = rw note_worker-token (ground arith, ground arith, λ same. ground arith)

    taken :
        (d : Coordinator)
        → SameTokens (note_worker now hb c) d
        → (token c w ≤ token d w)
          × (c.term ≤ d.term)
          × (string_eq.beq hb.worker_id w ≡ true → hb.fencing_token ≤ token d w)
    taken d s = rw (s.0, s.1) (noted.0, unfold note_worker in noted.1, noted.2)

-- The heartbeats in the order of their arrival.
unfoldable pub receive_all : List (ℕ × WorkerHeartbeat) → Coordinator → Coordinator
receive_all [] c = c
receive_all ((now, hb) ∷ l) c = receive_all l (receive_heartbeat now hb c)

receive_all-token :
    (l : List (ℕ × WorkerHeartbeat)) (c : Coordinator) (w : String)
    → token c w ≤ token (receive_all l c) w
unfolding receive_all
receive_all-token [] c w = omega arith
receive_all-token ((now, hb) ∷ l) c w =
    omega
      (arith, (heartbeat-tokens now hb c w).0, receive_all-token l (receive_heartbeat now hb c) w)

fenced :
    (now : ℕ) (w : String) (old : WorkerHeartbeat) (d : Coordinator)
    → old.worker_id ≡ w
    → old.fencing_token < token d w
    → receive_heartbeat now old d ≡ record d { fencing_violations = d.fencing_violations + 1 }
unfolding receive_heartbeat
fenced now w old d same h = rw stale refl
  where
    stale : is_stale old.fencing_token (Dict.get d.fencing_tokens old.worker_id) ≡ true
    stale = rw same (ground arith)

-- A worker that was replaced stays out: once a heartbeat under a worker's name arrived with a token,
-- and whatever heartbeats came in between, one under the same name with a smaller token is fenced
-- off, and nothing of the coordinator changes but the count of the violations.
pub receive_all_fences :
    (now now' : ℕ) (hb old : WorkerHeartbeat) (l : List (ℕ × WorkerHeartbeat)) (c : Coordinator)
    → old.worker_id ≡ hb.worker_id
    → old.fencing_token < hb.fencing_token
    → let d = receive_all l (receive_heartbeat now hb c) in
      receive_heartbeat now' old d ≡ record d { fencing_violations = d.fencing_violations + 1 }
receive_all_fences now now' hb old l c same less =
    fenced now' hb.worker_id old (receive_all l (receive_heartbeat now hb c)) same (
      omega (
        arith,
        receive_all-token l (receive_heartbeat now hb c) hb.worker_id,
        (heartbeat-tokens now hb c hb.worker_id).2
            ((string_eq.beq_iff hb.worker_id hb.worker_id).1 refl),
      ))
