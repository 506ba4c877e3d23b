-- ===== src/Supervisor/Running.antt =====
-- Start and Stop of supervisor/supervisor.go. A module that logs without a log, and a ticker whose
-- interval is not positive, panic.
use passive_bitcoin.Prelude.{
  String, Bool, true, ◌&&◌, not, Option, none, some, List, [], ◌∷◌, ◌++◌, map, is_some, ◌==◌,
  if◌then◌else◌,
}
use passive_bitcoin.Assoc.{Assoc}
use passive_bitcoin.Net.{is_positive}
use passive_bitcoin.Repository.{Repository}
use passive_bitcoin.Supervisor.Init.{Built, Sink, file_sink}
use passive_bitcoin.Supervisor.Modules.{Supervisor, Module, Mgr}

-- The kinds of the modules
pub data Part : Type 0 where
  logger_part repository_part tracker_part server_part processor_part manager_part : Part

-- A loop that starts or stops the modules of one map
abbrev pub each : {X : Type 0} → Part → Assoc X → List (Part × String)
each part modules = map (λ (key, x). (part, key)) modules

abbrev pub all_ok : {X : Type 0} → (X → Bool) → Assoc X → Bool
all_ok ok [] = true
all_ok ok ((key, x) ∷ rest) = ok x && all_ok ok rest

-- Whether Start of a module returns: it writes to its log first, and a repository, a file writer
-- and a manager start a ticker. Start of a server does neither.
abbrev pub repository_ok : Module Repository → Bool
repository_ok m = is_some m.log && not (m.body.backup_rate == 0)

abbrev pub tracker_ok : {X : Type 0} → Module X → Bool
tracker_ok m = is_some m.log

abbrev pub sink_ok : Sink → Bool
sink_ok (file_sink w) = is_positive w.file_agelimit
sink_ok _ = true

abbrev pub processor_ok : {Q : Type 0} → Module (Built Q) → Bool
processor_ok m = is_some m.log && sink_ok m.body.sink

abbrev pub manager_ok : {P : Type 0} → Module (Mgr P) → Bool
manager_ok m = is_some m.log && is_positive m.body.ticker_interval

module _ {F P H : Type 0} where
  -- Whether Start of every module returns
  unfoldable pub starts : Supervisor F P H → Bool
  starts sup =
      all_ok repository_ok sup.repo
      && all_ok tracker_ok sup.tkr
      && all_ok processor_ok sup.pro
      && all_ok manager_ok sup.mgr

  -- The modules in the order of the calls of Start
  unfoldable pub start_order : Supervisor F P H → List (Part × String)
  start_order sup =
      each logger_part sup.logr
      ++ each repository_part sup.repo
      ++ each tracker_part sup.tkr
      ++ each server_part sup.svr
      ++ each processor_part sup.pro
      ++ each manager_part sup.mgr

  -- Start; `none` is a panic.
  unfoldable pub start : Supervisor F P H → Option (List (Part × String))
  unfolding starts start_order
  start sup = if starts sup then some (start_order sup) else none

  -- The modules in the order of the calls of Stop
  unfoldable pub stop_order : Supervisor F P H → List (Part × String)
  stop_order sup =
      each manager_part sup.mgr
      ++ each processor_part sup.pro
      ++ each server_part sup.svr
      ++ each tracker_part sup.tkr
      ++ each repository_part sup.repo
      ++ each logger_part sup.logr
