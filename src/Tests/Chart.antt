-- ===== src/Tests/Chart.antt =====
-- The chart of accounts of a Chama that has four accounts of it.
use chamacore.Prelude.{◌≡◌, List, [], ◌++◌}
use chamacore.Prelude.Table.{All}
use chamacore.Data.{LedgerAccount}
use chamacore.Session.{fresh, ok}
use chamacore.Ledger.Chart.{
  Has, chart_accounts, seed_default_chart_of_accounts, seed_default_chart_of_accounts_complete,
}
use chamacore.Tests.{before_disbursement}

seed_default_chart_of_accounts_complete_example :
    (rows : List LedgerAccount) × let seeded = record before_disbursement {
      accounts = rows ++ before_disbursement.accounts;
    } in
      let t = record (fresh before_disbursement []) { work = seeded; flushed = seeded } in
      (seed_default_chart_of_accounts (λ code. 7) 1 (fresh before_disbursement []) ≡ (ok tt, t))
      × All (λ c. Has 1 seeded c.code) chart_accounts
      × (seed_default_chart_of_accounts (λ code. 8) 1 t ≡ (ok tt, t))
seed_default_chart_of_accounts_complete_example =
    seed_default_chart_of_accounts_complete (λ code. 7) (λ code. 8) 1 before_disbursement []
