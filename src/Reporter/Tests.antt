-- ===== src/Reporter/Tests.antt =====
-- The reporter on concrete inputs.
use native.Mathlib.Omega.{arith}
use lars_system.Base.{ℕ, ◌≡◌, refl, false, [], ◌∷◌, Returns, codes}
use lars_system.Agent.Messages.{HostCallResult, ReportStatusRequest}
use lars_system.Reporter.Store.{print_items, insert_statement}
use lars_system.Reporter.Service.{create_reportdb_threads}
use lars_system.Reporter.Service.Spread.{get_reports, create_reportdb_threads-IsReady, dealt}
use lars_system.Reporter.Service.Stored.{Stores, thread_report-Stores}

abbrev host_result : HostCallResult
host_result = record { ip = 1; port = 80; succ = 5; err = 2; overload = false }

abbrev one_report : ReportStatusRequest
one_report = record {
  modid = 1;
  cmdid = 4294967295;
  caller = 7;
  results = host_result ∷ [];
  ts = 9;
}

-- The text of one statement.
statement_text :
    print_items (insert_statement one_report host_result)
    ≡ codes
        "INSERT INTO ServerCallStatus(modid, cmdid, ip, port, caller, succ_cnt, err_cnt, ts, overload) VALUES (1, -1, 1, 80, 7, 5, 2, 9, 0) ON DUPLICATE KEY UPDATE succ_cnt = 5, err_cnt = 2, ts = 9, overload = 0"
unfolding print_items insert_statement
statement_text = refl

-- Five reports to three threads.
turns : dealt {A = ℕ} 3 1 0 (10 ∷ 11 ∷ 12 ∷ 13 ∷ 14 ∷ []) ≡ 11 ∷ 14 ∷ []
unfolding dealt
turns = refl

thread_report-Stores_example :
    Returns
      (Stores (one_report ∷ one_report ∷ []) (create_reportdb_threads 3))
      (get_reports (one_report ∷ one_report ∷ []) (create_reportdb_threads 3))
thread_report-Stores_example =
    thread_report-Stores (one_report ∷ one_report ∷ []) (create_reportdb_threads 3)
      (create_reportdb_threads-IsReady 3 (omega arith))
