-- ===== src/Handlers/Reports/Examples.antt =====
-- The report of a completed run.
use data_flow_agent_hub.Base.{Text, codes, List, [], ◌∷◌, Bool, true, false, none}
use data_flow_agent_hub.Async.{Run}
use data_flow_agent_hub.Handlers.Reports.{download_report}
use data_flow_agent_hub.Handlers.Reports.Safe.{IsReport, download_report-IsReport}

abbrev id : Text
id = codes "01234567-89ab-4cde-8f01-23456789abcd"

abbrev runs : List (Text × Run)
runs =
    (id, record { session_id = codes "s"; status = codes "completed"; pending_reason = none }) ∷ []

abbrev every_file : Text → Bool
every_file name = true

download_report-IsReport_example :
    IsReport id runs (download_report false every_file id (codes "MD") runs)
download_report-IsReport_example = download_report-IsReport false every_file id (codes "MD") runs
