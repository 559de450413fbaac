-- ===== src/Storage/Batch/History/Keeps.antt =====
-- No sample is lost between an insert of src/internal/storage/batch_pg.go and its table.
use timesync_analyzer.Common.{
  ◌≡◌, refl, ◌∙◌, ap, Bool-cases, inl, inr, List, [], ◌∷◌, Option, none, some, String,
}
use timesync_analyzer.Common.Float.{FloatOps}
use timesync_analyzer.Storage.Rows.{
  Ptp4lRow, Phc2sysRow, PpsRow, NetworkRow, CpuRow, MemoryRow, TemperatureRow,
}
use timesync_analyzer.Storage.Tx.{Outcomes}
use timesync_analyzer.Storage.Batch.{BatchStorage}
use timesync_analyzer.Storage.Batch.Buffer.{append, should_flush, accepted-flush, accepted-append}
use timesync_analyzer.Storage.Batch.Flush.{
  AllOutcomes, flush_all, ◌and_then◌, flush_ptp4l, ptp4l_copy, flush_phc2sys, phc2sys_copy,
  flush_pps, pps_copy, flush_network, network_copy, flush_cpu, cpu_copy, flush_memory, memory_copy,
  flush_temperature, temperature_copy,
}
use timesync_analyzer.Storage.Batch.Inserts.{
  insert_ptp4l, insert_phc2sys, insert_pps, insert_network, insert_cpu, insert_memory,
  insert_temperature,
}
use timesync_analyzer.Storage.Batch.History.{
  ptp4l, phc2sys, pps, network, cpu, memory, temperature, insert, Op, put, tick, step, run, logs,
  note, note_all,
}

logs-flush_ptp4l :
    (ops : FloatOps) (out : Outcomes) (s : BatchStorage)
    → logs ops (flush_ptp4l out s).0 ≡ logs ops s
unfolding flush_ptp4l
logs-flush_ptp4l ops out s =
    ap (λ l. record (logs ops s) { ptp4l = l }) (accepted-flush ptp4l_copy out s.ptp4l)

logs-flush_phc2sys :
    (ops : FloatOps) (out : Outcomes) (s : BatchStorage)
    → logs ops (flush_phc2sys out s).0 ≡ logs ops s
unfolding flush_phc2sys
logs-flush_phc2sys ops out s =
    ap (λ l. record (logs ops s) { phc2sys = l }) (accepted-flush phc2sys_copy out s.phc2sys)

logs-flush_pps :
    (ops : FloatOps) (out : Outcomes) (s : BatchStorage) → logs ops (flush_pps out s).0 ≡ logs ops s
unfolding flush_pps
logs-flush_pps ops out s =
    ap (λ l. record (logs ops s) { pps = l }) (accepted-flush pps_copy out s.pps)

logs-flush_network :
    (ops : FloatOps) (out : Outcomes) (s : BatchStorage)
    → logs ops (flush_network out s).0 ≡ logs ops s
unfolding flush_network
logs-flush_network ops out s =
    ap (λ l. record (logs ops s) { network = l }) (accepted-flush network_copy out s.network)

logs-flush_cpu :
    (ops : FloatOps) (out : Outcomes) (s : BatchStorage) → logs ops (flush_cpu out s).0 ≡ logs ops s
unfolding flush_cpu
logs-flush_cpu ops out s =
    ap (λ l. record (logs ops s) { cpu = l }) (accepted-flush cpu_copy out s.cpu)

logs-flush_memory :
    (ops : FloatOps) (out : Outcomes) (s : BatchStorage)
    → logs ops (flush_memory ops out s).0 ≡ logs ops s
unfolding flush_memory
logs-flush_memory ops out s =
    ap (λ l. record (logs ops s) { memory = l }) (accepted-flush (memory_copy ops) out s.memory)

logs-flush_temperature :
    (ops : FloatOps) (out : Outcomes) (s : BatchStorage)
    → logs ops (flush_temperature out s).0 ≡ logs ops s
unfolding flush_temperature
logs-flush_temperature ops out s =
    ap (λ l. record (logs ops s) { temperature = l })
      (accepted-flush temperature_copy out s.temperature)

and_then-logs :
    (ops : FloatOps) (r : BatchStorage × Option String)
    (next : BatchStorage → BatchStorage × Option String)
    → ((s : BatchStorage) → logs ops (next s).0 ≡ logs ops s)
    → logs ops (r and_then next).0 ≡ logs ops r.0
unfolding ◌and_then◌
and_then-logs ops (s, none) next h = h s
and_then-logs ops (s, some e) next h = refl

logs-insert_ptp4l :
    (ops : FloatOps) (out : Outcomes) (r : Ptp4lRow) (s : BatchStorage)
    → logs ops (insert ops out (ptp4l r) s).0 ≡ note ops (logs ops s) (put out (ptp4l r))
unfolding insert insert_ptp4l note
logs-insert_ptp4l ops out r s = elim (Bool-cases (should_flush s.max_size (append r s.ptp4l))) [
  | inl full ↦ rw full (logs-flush_ptp4l ops out _ ∙ longer)
  | inr room ↦ rw room longer
]
  where
    longer :
        logs ops (record s { ptp4l = append r s.ptp4l }) ≡ note ops (logs ops s) (put out (ptp4l r))
    longer = ap (λ l. record (logs ops s) { ptp4l = l }) (accepted-append ptp4l_copy r s.ptp4l)

logs-insert_phc2sys :
    (ops : FloatOps) (out : Outcomes) (r : Phc2sysRow) (s : BatchStorage)
    → logs ops (insert ops out (phc2sys r) s).0 ≡ note ops (logs ops s) (put out (phc2sys r))
unfolding insert insert_phc2sys note
logs-insert_phc2sys ops out r s = elim (Bool-cases (should_flush s.max_size (append r s.phc2sys))) [
  | inl full ↦ rw full (logs-flush_phc2sys ops out _ ∙ longer)
  | inr room ↦ rw room longer
]
  where
    longer :
        logs ops (record s { phc2sys = append r s.phc2sys })
        ≡ note ops (logs ops s) (put out (phc2sys r))
    longer =
        ap (λ l. record (logs ops s) { phc2sys = l }) (accepted-append phc2sys_copy r s.phc2sys)

logs-insert_pps :
    (ops : FloatOps) (out : Outcomes) (r : PpsRow) (s : BatchStorage)
    → logs ops (insert ops out (pps r) s).0 ≡ note ops (logs ops s) (put out (pps r))
unfolding insert insert_pps note
logs-insert_pps ops out r s = elim (Bool-cases (should_flush s.max_size (append r s.pps))) [
  | inl full ↦ rw full (logs-flush_pps ops out _ ∙ longer)
  | inr room ↦ rw room longer
]
  where
    longer : logs ops (record s { pps = append r s.pps }) ≡ note ops (logs ops s) (put out (pps r))
    longer = ap (λ l. record (logs ops s) { pps = l }) (accepted-append pps_copy r s.pps)

logs-insert_network :
    (ops : FloatOps) (out : Outcomes) (r : NetworkRow) (s : BatchStorage)
    → logs ops (insert ops out (network r) s).0 ≡ note ops (logs ops s) (put out (network r))
unfolding insert insert_network note
logs-insert_network ops out r s = elim (Bool-cases (should_flush s.max_size (append r s.network))) [
  | inl full ↦ rw full (logs-flush_network ops out _ ∙ longer)
  | inr room ↦ rw room longer
]
  where
    longer :
        logs ops (record s { network = append r s.network })
        ≡ note ops (logs ops s) (put out (network r))
    longer =
        ap (λ l. record (logs ops s) { network = l }) (accepted-append network_copy r s.network)

logs-insert_cpu :
    (ops : FloatOps) (out : Outcomes) (r : CpuRow) (s : BatchStorage)
    → logs ops (insert ops out (cpu r) s).0 ≡ note ops (logs ops s) (put out (cpu r))
unfolding insert insert_cpu note
logs-insert_cpu ops out r s = elim (Bool-cases (should_flush s.max_size (append r s.cpu))) [
  | inl full ↦ rw full (logs-flush_cpu ops out _ ∙ longer)
  | inr room ↦ rw room longer
]
  where
    longer : logs ops (record s { cpu = append r s.cpu }) ≡ note ops (logs ops s) (put out (cpu r))
    longer = ap (λ l. record (logs ops s) { cpu = l }) (accepted-append cpu_copy r s.cpu)

logs-insert_memory :
    (ops : FloatOps) (out : Outcomes) (r : MemoryRow) (s : BatchStorage)
    → logs ops (insert ops out (memory r) s).0 ≡ note ops (logs ops s) (put out (memory r))
unfolding insert insert_memory note
logs-insert_memory ops out r s = elim (Bool-cases (should_flush s.max_size (append r s.memory))) [
  | inl full ↦ rw full (logs-flush_memory ops out _ ∙ longer)
  | inr room ↦ rw room longer
]
  where
    longer :
        logs ops (record s { memory = append r s.memory })
        ≡ note ops (logs ops s) (put out (memory r))
    longer =
        ap (λ l. record (logs ops s) { memory = l }) (accepted-append (memory_copy ops) r s.memory)

logs-insert_temperature :
    (ops : FloatOps) (out : Outcomes) (r : TemperatureRow) (s : BatchStorage)
    → logs ops (insert ops out (temperature r) s).0
      ≡ note ops (logs ops s) (put out (temperature r))
unfolding insert insert_temperature note
logs-insert_temperature ops out r s =
    elim (Bool-cases (should_flush s.max_size (append r s.temperature))) [
      | inl full ↦ rw full (logs-flush_temperature ops out _ ∙ longer)
      | inr room ↦ rw room longer
    ]
  where
    longer :
        logs ops (record s { temperature = append r s.temperature })
        ≡ note ops (logs ops s) (put out (temperature r))
    longer =
        ap (λ l. record (logs ops s) { temperature = l })
          (accepted-append temperature_copy r s.temperature)

logs-flush_all :
    (ops : FloatOps) (out : AllOutcomes) (s : BatchStorage)
    → logs ops (flush_all ops out s).0 ≡ logs ops s
unfolding flush_all
logs-flush_all ops out s =
    and_then-logs ops _ (flush_temperature out.temperature)
      (logs-flush_temperature ops out.temperature)
    ∙ and_then-logs ops _ (flush_memory ops out.memory) (logs-flush_memory ops out.memory)
    ∙ and_then-logs ops _ (flush_cpu out.cpu) (logs-flush_cpu ops out.cpu)
    ∙ and_then-logs ops _ (flush_network out.network) (logs-flush_network ops out.network)
    ∙ and_then-logs ops _ (flush_pps out.pps) (logs-flush_pps ops out.pps)
    ∙ and_then-logs ops _ (flush_phc2sys out.phc2sys) (logs-flush_phc2sys ops out.phc2sys)
    ∙ logs-flush_ptp4l ops out.ptp4l s

logs-step :
    (ops : FloatOps) (o : Op) (s : BatchStorage) → logs ops (step ops o s) ≡ note ops (logs ops s) o
unfolding step note
logs-step ops (tick out) s = logs-flush_all ops out s
logs-step ops (put out (ptp4l r)) s = logs-insert_ptp4l ops out r s
logs-step ops (put out (phc2sys r)) s = logs-insert_phc2sys ops out r s
logs-step ops (put out (pps r)) s = logs-insert_pps ops out r s
logs-step ops (put out (network r)) s = logs-insert_network ops out r s
logs-step ops (put out (cpu r)) s = logs-insert_cpu ops out r s
logs-step ops (put out (memory r)) s = logs-insert_memory ops out r s
logs-step ops (put out (temperature r)) s = logs-insert_temperature ops out r s

-- Over any sequence of inserts and `FlushAll`s, whichever database calls fail: for each of the seven
-- tables, the rows that the database calls copied, moved on by the INSERT of that copy and committed,
-- followed by the rows that still wait, are exactly those from before followed by the rows inserted
-- since, in the order of the inserts and with the columns and values of each sample. No sample is lost,
-- handed on twice or moved.
pub logs-run :
    (ops : FloatOps) (os : List Op) (s : BatchStorage)
    → logs ops (run ops os s) ≡ note_all ops (logs ops s) os
unfolding run note_all
logs-run ops [] s = refl
logs-run ops (o ∷ os) s =
    logs-run ops os (step ops o s) ∙ ap (λ l. note_all ops l os) (logs-step ops o s)
