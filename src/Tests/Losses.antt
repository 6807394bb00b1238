-- ===== src/Tests/Losses.antt =====
-- A probe over the state file of two jobs, the chain paused or not.
use lightchain_worker.Base.{refl, ◌⊎◌, true, [], pos}
use lightchain_worker.Release.Store.File.{document}
use lightchain_worker.Release.Store.Calls.{fresh_job}
use lightchain_worker.Release.Scheduler.Trigger.{tick}
use lightchain_worker.Release.Scheduler.Losses.{answering, Gone}
use lightchain_worker.Release.FileOps.{file_store_ops}
use lightchain_worker.Release.FileOps.Keeping.{OnFile, tick-OnFile}
use lightchain_worker.Tests.StateFile.{one_byte, two_jobs, store_at}
use lightchain_worker.Tests.Cycles.{config, scripted, no_metrics}

tick-OnFile_example :
    let w' = tick (file_store_ops one_byte) (answering scripted) config 1 (record {
      store = (store_at (document two_jobs), []);
      chain = (true, []);
      metrics = no_metrics;
    }) in
    OnFile 3 w'.store.0 ⊎ Gone 1 3 w'.chain.1
tick-OnFile_example =
    tick-OnFile one_byte scripted 1 3 config (store_at (document two_jobs), []) true no_metrics
      (two_jobs, refl, (fresh_job 3 (pos 90), refl))
